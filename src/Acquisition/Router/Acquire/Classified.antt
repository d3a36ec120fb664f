-- ===== src/Acquisition/Router/Acquire/Classified.antt =====
-- Which routes app/acquisition/router.py tries: only those of the provider that the task names, and
-- a paid one for an ordinary page only after a classified block.
use crawltrove.Base.{
  ℕ, ◌≡◌, refl, subst, Bool, true, false, Option, none, some, List, [], ◌∷◌, ◌++◌, str_eq, if_cases,
  All, All-append, select_where,
}
use crawltrove.Acquisition.Registry.{
  Provider, local, brightdata, firecrawl, browserbase, Route, local_http, route_provider, Registry,
  available_routes, route_available,
}
use crawltrove.Acquisition.Router.{
  Capability, ordinary, static_block, auto, named, Failure, Answer, failed, World, Settings, Event,
  reserves, finishes, State, Outcome, is_transition,
}
use crawltrove.Acquisition.Router.Acquire.{
  acquire, routes, route_of, required, acquire_static, is_rendering, is_interactive,
}
use crawltrove.Acquisition.Router.Acquire.Kept.{acquire-log, acquire_with-log}
use crawltrove.Acquisition.Router.Acquire.Logged.{Logged-Rules}

-- Every reservation of the log is for a route with the property.
abbrev pub Reserves : (Route → Type 0) → List Event → Type 0
Reserves Q = All (Reserve Q)
  where
    Reserve : (Route → Type 0) → Event → Type 0
    Reserve Q (reserves id route) = Q route
    Reserve Q (finishes id o) = Unit

Reserves-pair :
    (Q : Route → Type 0) (log : List Event) (id : ℕ) (route : Route) (o : Outcome)
    → Reserves Q log
    → Q route
    → Reserves Q ((log ++ reserves id route ∷ []) ++ finishes id o ∷ [])
Reserves-pair Q log id route o h q =
    All-append _ (log ++ reserves id route ∷ []) (finishes id o)
      (All-append _ log (reserves id route) h q) tt

abbrev pub IsOf : Provider → Route → Type 0
IsOf p route = route_provider route ≡ p

route_of-IsOf : (p : Provider) (c : Capability) → IsOf p (route_of p c)
route_of-IsOf local c = if_cases (IsOf local) (is_rendering c) _ _ (λ _. refl) (λ _. refl)
route_of-IsOf brightdata c = refl
route_of-IsOf browserbase c = refl
route_of-IsOf firecrawl c = if_cases (IsOf firecrawl) (is_interactive c) _ _ (λ _. refl) (λ _. refl)

required-same :
    (o : Option (List Route)) (rs : List Route) {found : List Route}
    → required o rs ≡ some found
    → rs ≡ found
required-same none rs e = cc
required-same (some a) rs e = cc

routes-IsOf :
    (r : Registry) (p : Provider) (c : Capability) (found : List Route)
    → routes r (named p) c ≡ some found
    → All (IsOf p) found
unfolding routes
routes-IsOf r p c found e =
    subst (All (IsOf p)) (required-same (available_routes r p) (route_of p c ∷ []) e)
      (route_of-IsOf p c, tt)

-- A task that names its provider reserves attempts on that provider's routes only, whatever the
-- adapters answer.
pub acquire-IsOf :
    {S : Type 0} (w : World S) (s : Settings) (c : Capability) (st : State S) (p : Provider)
    → s.provider ≡ named p
    → Reserves (IsOf p) st.log
    → Reserves (IsOf p) (acquire w s c st).0.log
acquire-IsOf w s c st p e h =
    acquire-log w s _ _ (IsOf p)
      (Logged-Rules w (Reserves (IsOf p)) (IsOf p) (Reserves-pair (IsOf p))) c st
      (λ r found k.
        routes-IsOf r p static_block found (subst (λ x. routes r x static_block ≡ some found) e k))
      (λ found k.
        routes-IsOf st.registry p c found (subst (λ x. routes st.registry x c ≡ some found) e k))
      h

abbrev pub IsHttp : Route → Type 0
IsHttp route = route ≡ local_http

All-select_where :
    {A : Type 0} (P : A → Type 0) (p : A → Bool) (xs : List A)
    → All P xs
    → All P (select_where p xs)
unfolding select_where
All-select_where P p [] h = tt
All-select_where P p (x ∷ xs) h =
    if_cases (All P) (p x) (x ∷ select_where p xs) (select_where p xs)
      (λ _. (h.0, All-select_where P p xs h.1)) (λ _. All-select_where P p xs h.1)

routes-IsHttp :
    (r : Registry) (found : List Route) → routes r auto ordinary ≡ some found → All IsHttp found
unfolding routes
routes-IsHttp r found e =
    subst (All IsHttp) (some-same e)
      (All-select_where IsHttp (route_available r) (local_http ∷ []) (refl, tt))
  where
    some-same : {xs ys : List Route} → some xs ≡ some ys → xs ≡ ys
    some-same e = cc

-- The answer is not a block that was classified.
abbrev pub IsUnblocked : Answer → Type 0
IsUnblocked (failed f) = str_eq f.code "blocked_challenge" ≡ false
IsUnblocked _ = Unit

no_transition :
    (route : Route) (f : Failure)
    → is_transition auto ordinary route f ≡ true
    → (route ≡ local_http) × (str_eq f.code "blocked_challenge" ≡ true)
no_transition local_http f h = (refl, h)
no_transition route f h = cc

-- For an ordinary page and a provider that is chosen automatically, only local_http is attempted,
-- and so no paid route is, unless an answer on local_http is a block that was classified.
pub acquire-IsHttp :
    {S : Type 0} (w : World S) (s : Settings) (st : State S)
    → s.provider ≡ auto
    → ((t : S) → IsUnblocked (w.fetch t local_http).1)
    → Reserves IsHttp st.log
    → Reserves IsHttp (acquire w s ordinary st).0.log
unfolding acquire
acquire-IsHttp {S} w s st e unblocked h =
    acquire_with-log w s _ _ IsHttp (Logged-Rules w (Reserves IsHttp) IsHttp (Reserves-pair IsHttp))
      (acquire_static w s) ordinary
      (λ t route f answered moved. absurd (
        blocked t route f answered
          (no_transition route f (subst (λ x. is_transition x ordinary route f ≡ true) e moved))))
      st
      (λ found k.
        routes-IsHttp st.registry found
          (subst (λ x. routes st.registry x ordinary ≡ some found) e k))
      h
  where
    blocked :
        (t : S) (route : Route) (f : Failure)
        → (w.fetch t route).1 ≡ failed f
        → (route ≡ local_http) × (str_eq f.code "blocked_challenge" ≡ true)
        → ⊥
    blocked t route f answered (same, code) = cc (
      subst IsUnblocked (subst (λ r. (w.fetch t r).1 ≡ failed f) same answered) (unblocked t),
      code,
    )
