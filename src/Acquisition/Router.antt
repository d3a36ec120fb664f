-- ===== src/Acquisition/Router.antt =====
-- app/acquisition/router.py: the routes that are tried for one task, and the accounting of each
-- attempt. The repository, the adapters and the URL check are a world with its own state; amounts of
-- native cost stay with it, so a call is told only which of the amounts it gets.
pub mod Acquire
pub mod Durable
use crawltrove.Base.{
  ℕ, String, Bool, true, false, not, ◌&&◌, ◌||◌, Option, none, some, List, [], ◌∷◌, ◌++◌, str_eq,
  if◌then◌else◌, select_where, is_empty,
}
use crawltrove.Acquisition.Registry.{
  Provider, local, brightdata, firecrawl, browserbase, Route, local_http, owned_proxy_http,
  local_browser, brightdata_unlocker, firecrawl_scrape, firecrawl_interact, browserbase_session,
  same_route, route_provider, HealthState, Registry, Adapter, adapter_of, mark_health,
  route_available, available_routes,
}

pub data Capability : Type 0 where
  ordinary : Capability
  static_block : Capability
  rendering : Capability
  interactive : Capability

-- `routes_for`
abbrev pub routes_for : Capability → List Route
routes_for ordinary = local_http ∷ []
routes_for static_block = owned_proxy_http ∷ brightdata_unlocker ∷ []
routes_for rendering = local_browser ∷ firecrawl_scrape ∷ []
routes_for interactive = browserbase_session ∷ firecrawl_interact ∷ []

abbrev pub is_ordinary : Capability → Bool
is_ordinary ordinary = true
is_ordinary _ = false

-- The provider that the task's configuration names.
pub data Choice : Type 0 where
  auto : Choice
  named : Provider → Choice
  unknown : Choice

abbrev pub is_auto : Choice → Bool
is_auto auto = true
is_auto _ = false

abbrev pub is_local : Provider → Bool
is_local local = true
is_local _ = false

-- `provider in {"auto", "local"}`
abbrev pub may_wait : Choice → Bool
may_wait auto = true
may_wait (named p) = is_local p
may_wait unknown = false

-- ProviderFailure
pub record Failure : Type 0 where
  pub code : String
  pub retryable : Bool

-- What an adapter's `acquire` does.
pub data Answer : Type 0 where
  -- a result: its final URL, and the remote session that is still open, if there is one
  page : String → Option String → Answer
  failed : Failure → Answer
  protocol_error : Answer
  crashed : Answer

pub data Outcome : Type 0 where
  succeeded : Outcome
  retryable_failure : Outcome
  failure : Outcome

-- Which amounts `finish_acquisition_attempt` gets: the answer's, or those that were reserved.
pub data CostOf : Type 0 where
  answered : CostOf
  reserved : CostOf

-- What `reserve_acquisition_attempt` does.
pub data Reserved : Type 0 where
  granted : ℕ → Reserved
  exhausted : Reserved
  refused : Reserved

-- What `reserve_browser_navigation` does.
pub data Navigation : Type 0 where
  allowed : Navigation
  spent : Navigation
  raised : Navigation

pub data Finished : Type 0 where
  recorded : Finished
  impossible_cost : Finished
  broken : Finished

-- What the router calls, on a state of its own, for one task under its lease.
pub record World (S : Type 0) : Type 0 where
  -- `ensure_public_url` accepts the URL
  pub is_public : S → String → Bool
  pub reserve_browser : S → S × Navigation
  -- `reserve_cost` raises no ValueError
  pub prices : S → Route → Bool
  pub reserve : S → Route → S × Reserved
  pub fetch : S → Route → S × Answer
  pub finish : S → ℕ → Outcome → CostOf → S × Finished
  pub cancel : S → String → S

pub record Settings : Type 0 where
  pub url : String
  pub provider : Choice
  pub allow_human : Bool

-- What `acquire` ends with: a page's URL, or what it raises.
pub data Ending : Type 0 where
  acquired : String → Ending
  provider_failure : Failure → Ending
  provider_unavailable : String → Ending
  human_input : Ending
  crash : Ending

-- A call that the ledger sees.
pub data Event : Type 0 where
  reserves : ℕ → Route → Event
  finishes : ℕ → Outcome → Event

-- The router's registry, the world, and the ledger's calls so far, the latest last.
pub record State (S : Type 0) : Type 0 where
  pub registry : Registry
  pub world : S
  pub log : List Event

abbrev pub fail : String → Failure
fail code = record { code = code; retryable = false }

-- What is known after the adapter's call: how the attempt ends, with which amounts, and what comes
-- next if the ledger takes that.
pub data Next : Type 0 where
  stop : Ending → Next
  try_next : Failure → Next
  escalate : Failure → Next

pub record Verdict : Type 0 where
  pub outcome : Outcome
  pub cost : CostOf
  pub next : Next
  pub unhealthy : Bool
  pub session : Option String

abbrev pub verdict : Outcome → CostOf → Next → Bool → Option String → Verdict
verdict outcome cost next unhealthy session = record {
  outcome = outcome;
  cost = cost;
  next = next;
  unhealthy = unhealthy;
  session = session;
}

abbrev pub outcome_of : Failure → Outcome
outcome_of f = if f.retryable then retryable_failure else failure

-- `transition_to_static_block`
abbrev pub is_transition : Choice → Capability → Route → Failure → Bool
is_transition choice capability route f =
    is_auto choice
    && is_ordinary capability
    && same_route route local_http
    && str_eq f.code "blocked_challenge"

abbrev pub after_failure : Bool → Failure → Next
after_failure true f = escalate f
after_failure false f = if f.retryable then try_next f else stop (provider_failure f)

-- The try block of a route, with its handlers.
abbrev pub judge : Choice → Capability → Route → (String → Bool) → Answer → Verdict
judge choice capability route is_public (page url session) =
    if is_public url
    then verdict succeeded answered (stop (acquired url)) false session
    else verdict failure answered (stop (provider_failure (fail "unsafe_final_url"))) false session
judge choice capability route is_public (failed f) =
    verdict (outcome_of f) answered (after_failure (is_transition choice capability route f) f)
      (str_eq f.code "provider_protocol_error") none
judge choice capability route is_public protocol_error =
    verdict failure reserved (stop (provider_failure (fail "provider_protocol_error"))) true none
judge choice capability route is_public crashed = verdict failure reserved (stop crash) false none

abbrev pub or_same : Registry → Option Registry → Registry
or_same r none = r
or_same r (some s) = s

-- `self._registry.unhealthy(adapter.name)`
unfoldable pub mark_unhealthy : Registry → Route → Registry
unfolding mark_health
mark_unhealthy r route = or_same r (mark_health HealthState.unhealthy r (route_provider route))

abbrev pub mark_if : Bool → Registry → Route → Registry
mark_if b r route = if b then mark_unhealthy r route else r

abbrev pub wants_human : Settings → Bool
wants_human s = s.allow_human && may_wait s.provider

-- The code of a last failure that may wait for a human.
abbrev pub is_challenge : Failure → Bool
is_challenge f = str_eq f.code "blocked_challenge" || str_eq f.code "human_input_required"

-- The end of the loop, after `break` or the last route.
abbrev pub conclude : Settings → Option Failure → Ending
conclude s none = provider_unavailable "provider_unavailable"
conclude s (some f) = if is_challenge f && wants_human s then human_input else provider_failure f

-- The handler around the escalation.
abbrev pub after_escalation : Settings → Ending → Ending
after_escalation s (provider_unavailable code) =
    if wants_human s then human_input else provider_unavailable code
after_escalation s e = e
