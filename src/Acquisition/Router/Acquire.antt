-- ===== src/Acquisition/Router/Acquire.antt =====
-- `AcquisitionRouter.acquire` of app/acquisition/router.py: the loop over the routes.
pub mod Kept
pub mod Logged
pub mod Worlds
pub mod Settled
pub mod Classified
use crawltrove.Base.{
  ℕ, String, Bool, true, false, not, ◌&&◌, ◌||◌, Option, none, some, List, [], ◌∷◌, ◌++◌, str_eq,
  if◌then◌else◌, select_where, is_empty,
}
use crawltrove.Acquisition.Registry.{
  Provider, local, brightdata, firecrawl, browserbase, Route, local_http, local_browser,
  brightdata_unlocker, firecrawl_scrape, firecrawl_interact, browserbase_session, same_route,
  Registry, route_available, available_routes,
}
use crawltrove.Acquisition.Router.{
  Capability, ordinary, static_block, rendering, interactive, routes_for, Choice, auto, named,
  unknown, Failure, Answer, Outcome, Reserved, granted, exhausted, refused, Finished, recorded,
  impossible_cost, broken, World, Settings, Ending, acquired, provider_failure,
  provider_unavailable, human_input, crash, Event, reserves, finishes, State, fail, Next, stop,
  try_next, escalate, Verdict, judge, mark_if, mark_unhealthy, conclude, after_escalation,
  Navigation, allowed, spent, raised,
}

abbrev pub is_rendering : Capability → Bool
is_rendering rendering = true
is_rendering _ = false

abbrev pub is_interactive : Capability → Bool
is_interactive interactive = true
is_interactive _ = false

-- The route of a provider that the task names.
abbrev pub route_of : Provider → Capability → Route
route_of local c = if is_rendering c then local_browser else local_http
route_of brightdata c = brightdata_unlocker
route_of browserbase c = browserbase_session
route_of firecrawl c = if is_interactive c then firecrawl_interact else firecrawl_scrape

abbrev pub required : Option (List Route) → List Route → Option (List Route)
required none routes = none
required (some available) routes = some routes

-- `_routes`; `none` is ProviderUnavailable
unfoldable pub routes : Registry → Choice → Capability → Option (List Route)
unfolding route_available available_routes
routes r auto c = some (select_where (route_available r) (routes_for c))
routes r (named p) c = required (available_routes r p) (route_of p c ∷ [])
routes r unknown c = none

module _ {S : Type 0} (w : World S) (s : Settings) where
  abbrev pub Run : Type 0
  Run = State S × Ending

  abbrev pub note : Event → S → State S → State S
  note e world st = record st { world = world; log = st.log ++ e ∷ [] }

  abbrev pub cancel_session : Option String → State S → State S
  cancel_session none st = st
  cancel_session (some id) st = record st { world = w.cancel st.world id }

  -- What follows an attempt that is settled. The rest of the loop and the escalation wait.
  abbrev pub proceed : (State S → Failure → Run) → (State S → Run) → Next → State S → Run
  proceed rest static (stop e) st = (st, e)
  proceed rest static (try_next f) st = rest st f
  proceed rest static (escalate f) st = let ran = static st in (ran.0, after_escalation s ran.1)

  -- The `finally` of a route: the ledger's call, then the remote session.
  abbrev pub settle :
      (State S → Failure → Run) → (State S → Run) → Route → Verdict → State S → Finished → Run
  settle rest static route v st recorded = proceed rest static v.next (cancel_session v.session st)
  settle rest static route v st impossible_cost = (
    cancel_session v.session (record st { registry = mark_unhealthy st.registry route }),
    provider_failure (fail "provider_protocol_error"),
  )
  settle rest static route v st broken = (cancel_session v.session st, crash)

  abbrev pub finish :
      (State S → Failure → Run) → (State S → Run) → Route → ℕ → Verdict → State S → Run
  finish rest static route attempt v st =
      let done = w.finish st.world attempt v.outcome v.cost in
      settle rest static route v
        (record (note (finishes attempt v.outcome) done.0 st) {
          registry = mark_if v.unhealthy st.registry route;
        })
        done.1

  abbrev pub fetch :
      (State S → Failure → Run) → (State S → Run) → Capability → Route → ℕ → State S → Run
  fetch rest static c route attempt st =
      let got = w.fetch st.world route in
      finish rest static route attempt (judge s.provider c route (w.is_public got.0) got.1)
        (record st { world = got.0 })

  abbrev pub attempt :
      (State S → Failure → Run) → (State S → Run) → Capability → Route → State S → Reserved → Run
  attempt rest static c route st (granted id) =
      fetch rest static c route id (record st { log = st.log ++ reserves id route ∷ [] })
  attempt rest static c route st exhausted = (st, provider_unavailable "provider_budget_exhausted")
  attempt rest static c route st refused = (st, crash)

  -- A route that is available, and whose navigation is reserved if it is a browser's.
  unfoldable pub try_route :
      (State S → Failure → Run) → (State S → Run) → Capability → Route → State S → Run
  unfolding mark_unhealthy
  try_route rest static c route st =
      if w.prices st.world route
      then (let reserved = w.reserve st.world route in
          attempt rest static c route (record st { world = reserved.0 }) reserved.1)
      else (st, provider_failure (fail "provider_request"))

  abbrev pub browser_exhausted : Failure
  browser_exhausted = fail "browser_budget_exhausted"

  -- The reservation of a browser's navigation, with the route's attempt and the next route.
  abbrev pub after_navigation : Navigation → State S → (State S → Run) → (State S → Run) → Run
  after_navigation allowed st try skip = try st
  after_navigation spent st try skip = skip st
  after_navigation raised st try skip = (st, crash)

  -- The loop; `last` is `last_failure`, `static` the escalation to the capability static_block.
  unfoldable pub run_routes :
      (State S → Run) → Capability → List Route → State S → Option Failure → Run
  unfolding try_route route_available
  run_routes static c [] st last = (st, conclude s last)
  run_routes static c (route ∷ more) st last =
      let rest = λ (t : State S) (f : Option Failure). run_routes static c more t f in
      let seen = w.reserve_browser st.world in
      let reserved = record st { world = seen.0 } in
      if not (route_available st.registry route)
      then rest st last
      else if same_route route local_browser
      then after_navigation seen.1 reserved (try_route (λ t f. rest t (some f)) static c route)
          (λ t. rest t (some browser_exhausted))
      else try_route (λ t f. rest t (some f)) static c route st

  abbrev pub run_found : (State S → Run) → Capability → State S → Option (List Route) → Run
  unfolding run_routes
  run_found static c st none = (st, provider_unavailable "provider_unavailable")
  run_found static c st (some found) =
      if is_empty found
      then (st, provider_unavailable "provider_unavailable")
      else run_routes static c found st none

  -- `acquire` for a capability, given what an escalation does.
  unfoldable pub acquire_with : (State S → Run) → Capability → State S → Run
  unfolding run_routes routes
  acquire_with static c st =
      if w.is_public st.world s.url
      then run_found static c st (routes st.registry s.provider c)
      else (st, provider_failure (fail "unsafe_request_url"))

  -- The escalation: for the capability static_block there is no further one.
  unfoldable pub acquire_static : State S → Run
  unfolding acquire_with
  acquire_static = acquire_with (λ st. (st, crash)) static_block

  -- `acquire`
  unfoldable pub acquire : Capability → State S → Run
  unfolding acquire_with acquire_static
  acquire c st = acquire_with acquire_static c st
