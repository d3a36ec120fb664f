-- ===== src/Acquisition/Router/Acquire/Kept.antt =====
-- What an attempt of app/acquisition/router.py adds to the ledger's calls, through the whole loop.
use crawltrove.Base.{
  ℕ, ◌≡◌, refl, String, Bool, true, false, not, Option, none, some, List, [], ◌∷◌, ◌++◌, arith,
  if_cases, All, is_empty,
}
use crawltrove.Acquisition.Registry.{Route, local_browser, same_route, Registry, route_available}
use crawltrove.Acquisition.Router.{
  Capability, static_block, Choice, Failure, Answer, page, failed, protocol_error, crashed, Outcome,
  CostOf, Navigation, allowed, spent, raised, Reserved, granted, exhausted, refused, Finished,
  recorded, impossible_cost, broken, World, Settings, crash, mark_if, Event, reserves, finishes,
  State, Next, stop, try_next, escalate, Verdict, judge, is_transition, after_failure,
}
use crawltrove.Acquisition.Router.Acquire.{
  Run, after_navigation, browser_exhausted, note, cancel_session, proceed, settle, attempt,
  try_route, run_routes, run_found, acquire_with, acquire_static, acquire, routes,
}

-- The capability of the escalation has no further one.
one_escalation :
    (choice : Choice) (route : Route) (f : Failure)
    → is_transition choice static_block route f ≡ true
    → ⊥
one_escalation choice route f h = ground (arith, h)

-- What an attempt is under: an invariant I of the world and the log between attempts, and J while an
-- attempt is reserved on a route with the property Q.
module _ {S : Type 0} (w : World S) (I : S → List Event → Type 0)
    (J : S → List Event → ℕ → Route → Type 0) (Q : Route → Type 0) where
  abbrev pub AfterReserve : S → List Event → Route → Reserved → Type 0
  AfterReserve t log route (granted id) = J t log id route
  AfterReserve t log route exhausted = I t log
  AfterReserve t log route refused = I t log

  -- Each call of the world keeps the invariant.
  pub record Rules : Type 0 where
    pub browser : (t : S) (log : List Event) → I t log → I (w.reserve_browser t).0 log
    pub reserve :
        (t : S) (log : List Event) (route : Route)
        → I t log
        → Q route
        → AfterReserve (w.reserve t route).0 log route (w.reserve t route).1
    pub fetch :
        (t : S) (log : List Event) (id : ℕ) (route : Route)
        → J t log id route
        → J (w.fetch t route).0 log id route
    pub finish :
        (t : S) (log : List Event) (id : ℕ) (route : Route) (o : Outcome) (cost : CostOf)
        → J t log id route
        → I (w.finish t id o cost).0 ((log ++ reserves id route ∷ []) ++ finishes id o ∷ [])
    pub cancel : (t : S) (log : List Event) (id : String) → I t log → I (w.cancel t id) log

module _ {S : Type 0} (w : World S) (s : Settings) (I : S → List Event → Type 0)
    (J : S → List Event → ℕ → Route → Type 0) (Q : Route → Type 0) (rules : Rules w I J Q) where
  abbrev pub Held : State S → Type 0
  Held st = I st.world st.log

  abbrev pub Goes : (State S → Run w s) → Type 0
  Goes static = (st : State S) → Held st → Held (static st).0

  abbrev GoesOn : (State S → Failure → Run w s) → Type 0
  GoesOn rest = (st : State S) (f : Failure) → Held st → Held (rest st f).0

  -- The escalation is safe where an answer leads to it.
  abbrev pub IsGuarded : Capability → (State S → Run w s) → Type 0
  IsGuarded c static =
      (t : S) (route : Route) (f : Failure)
      → (w.fetch t route).1 ≡ failed f
      → is_transition s.provider c route f ≡ true
      → Goes static

  after_navigation-log :
      (n : Navigation) (st : State S) (try skip : State S → Run w s)
      → Goes try
      → Goes skip
      → Held st
      → Held (after_navigation w s n st try skip).0
  after_navigation-log allowed st try skip t k h = t st h
  after_navigation-log spent st try skip t k h = k st h
  after_navigation-log raised st try skip t k h = h

  cancel-log : (id : Option String) (st : State S) → Held st → Held (cancel_session w s id st)
  cancel-log none st h = h
  cancel-log (some id) st h = rules.cancel st.world st.log id h

  module _ (rest : State S → Failure → Run w s) (static : State S → Run w s)
      (on : GoesOn rest) where
    -- A settled verdict goes on safely.
    abbrev IsSafe : Next → Type 0
    IsSafe (escalate f) = Goes static
    IsSafe _ = Unit

    proceed-log :
        (n : Next) (st : State S) → IsSafe n → Held st → Held (proceed w s rest static n st).0
    proceed-log (stop e) st safe h = h
    proceed-log (try_next f) st safe h = on st f h
    proceed-log (escalate f) st safe h = safe st h

    settle-log :
        (route : Route) (v : Verdict) (st : State S) (d : Finished)
        → IsSafe v.next
        → Held st
        → Held (settle w s rest static route v st d).0
    settle-log route v st recorded safe h =
        proceed-log v.next (cancel_session w s v.session st) safe (cancel-log v.session st h)
    settle-log route v st impossible_cost safe h = cancel-log v.session _ h
    settle-log route v st broken safe h = cancel-log v.session st h

    judge-IsSafe :
        (c : Capability) (route : Route) (public : String → Bool) (a : Answer)
        → ((f : Failure) → a ≡ failed f → is_transition s.provider c route f ≡ true → Goes static)
        → IsSafe (judge s.provider c route public a).next
    judge-IsSafe c route public (page url session) k =
        if_cases (λ (v : Verdict). IsSafe v.next) (public url) _ _ (λ _. tt) (λ _. tt)
    judge-IsSafe c route public protocol_error k = tt
    judge-IsSafe c route public crashed k = tt
    judge-IsSafe c route public (failed f) k = judged (is_transition s.provider c route f) refl
      where
        judged : (b : Bool) → is_transition s.provider c route f ≡ b → IsSafe (after_failure b f)
        judged true e = k f refl e
        judged false e = if_cases IsSafe f.retryable (try_next f) _ (λ _. tt) (λ _. tt)

    attempt-log :
        (c : Capability) (route : Route) (st : State S) (r : Reserved)
        → IsGuarded c static
        → AfterReserve w I J Q st.world st.log route r
        → Held (attempt w s rest static c route st r).0
    attempt-log c route st (granted id) guard j =
        let got = w.fetch st.world route in
        let v = judge s.provider c route (w.is_public got.0) got.1 in
        let done = w.finish got.0 id v.outcome v.cost in
        let noted =
          note w s (finishes id v.outcome) done.0
            (record st { world = got.0; log = st.log ++ reserves id route ∷ [] }) in
        settle-log route v (record noted { registry = mark_if v.unhealthy st.registry route })
          done.1 (judge-IsSafe c route (w.is_public got.0) got.1 (λ f e. guard st.world route f e))
          (rules.finish got.0 st.log id route v.outcome v.cost
            (rules.fetch st.world st.log id route j))
    attempt-log c route st exhausted guard h = h
    attempt-log c route st refused guard h = h

    try_route-log :
        (c : Capability) (route : Route) (st : State S)
        → IsGuarded c static
        → Q route
        → Held st
        → Held (try_route w s rest static c route st).0
    unfolding try_route
    try_route-log c route st guard q h =
        if_cases (λ (r : Run w s). Held r.0) (w.prices st.world route) _ _
          (λ _.
            let got = w.reserve st.world route in
            attempt-log c route (record st { world = got.0 }) got.1 guard
              (rules.reserve st.world st.log route h q))
          (λ _. h)

  module _ (static : State S → Run w s) (c : Capability) (guard : IsGuarded c static) where
    run_routes-log :
        (found : List Route) (st : State S) (last : Option Failure)
        → All Q found
        → Held st
        → Held (run_routes w s static c found st last).0
    unfolding run_routes
    run_routes-log [] st last qs h = h
    run_routes-log (route ∷ more) st last qs h =
        let again =
          λ (t : State S) (f : Option Failure) (k : Held t). run_routes-log more t f qs.1 k in
        if_cases (λ (r : Run w s). Held r.0) (not (route_available st.registry route)) _ _
          (λ _. again st last h)
          (λ _.
            if_cases (λ (r : Run w s). Held r.0) (same_route route local_browser) _ _
              (λ _.
                after_navigation-log (w.reserve_browser st.world).1 _ _ _
                  (λ t k. try_route-log _ static (λ t f. again t (some f)) c route t guard qs.0 k)
                  (λ t k. again t (some (browser_exhausted w s)) k)
                  (rules.browser st.world st.log h))
              (λ _. try_route-log _ static (λ t f. again t (some f)) c route st guard qs.0 h))

    pub acquire_with-log :
        (st : State S)
        → ((found : List Route) → routes st.registry s.provider c ≡ some found → All Q found)
        → Held st
        → Held (acquire_with w s static c st).0
    unfolding acquire_with
    acquire_with-log st qs h =
        if_cases (λ (r : Run w s). Held r.0) (w.is_public st.world s.url) _ _
          (λ _. found_log (routes st.registry s.provider c) refl) (λ _. h)
      where
        found_log :
            (o : Option (List Route))
            → routes st.registry s.provider c ≡ o
            → Held (run_found w s static c st o).0
        found_log none e = h
        found_log (some found) e =
            if_cases (λ (r : Run w s). Held r.0) (is_empty found) _ _ (λ _. h)
              (λ _. run_routes-log found st none (qs found e) h)

  -- All attempts of a call of `acquire`, if the routes have the property.
  pub acquire-log :
      (c : Capability) (st : State S)
      → ((r : Registry) (found : List Route)
          → routes r s.provider static_block ≡ some found
          → All Q found)
      → ((found : List Route) → routes st.registry s.provider c ≡ some found → All Q found)
      → Held st
      → Held (acquire w s c st).0
  unfolding acquire acquire_static
  acquire-log c st later qs h =
      acquire_with-log (acquire_static w s) c
        (λ t route f e k u v.
          acquire_with-log (λ x. (x, crash)) static_block
            (λ t' route' f' e' no. absurd (one_escalation s.provider route' f' no)) u
            (later u.registry) v)
        st qs h
