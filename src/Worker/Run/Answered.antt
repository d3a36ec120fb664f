-- ===== src/Worker/Run/Answered.antt =====
-- How a run of app/crawl/worker.py ends: what it did for the task that it claimed.
use crawltrove.Base.{
  ◌≡◌, refl, sym, subst, inl, inr, ◌⊎◌, String, not, ◌&&◌, ◌||◌, Option, none, some, List, [], ◌∷◌,
  str_eq,
}
use crawltrove.Classify.{classify_failure}
use crawltrove.Queue.Meters.{contains}
use crawltrove.Queue.Claim.{ClaimedTask}
use crawltrove.Worker.{
  Body, Fault, Reply, replies, throws, Answer, completes, parks, loses, acquires, WorkerConfig,
  Page, Waited, unfinished, acquired, needs_human, provider_failed, crashed, World, Setup, State,
  Step, goes, returns, raises, next, throw,
}
use crawltrove.Worker.Failure.{transport_error, provider_decision}
use crawltrove.Worker.Run.{
  page_url, result_of, start_proxy, take_proxy, complete, park, handle, attempt, fault_reason,
  recover, caught, release, clean_up, Outcome, idle, ran, raised, ended, finally, run_task,
  run_claim, run_once,
}
use crawltrove.Worker.Run.Trace.{IsRun, IsOpen}
use crawltrove.Worker.Run.Opens.{Stops, Opens, Ends-Stops, bind-Opens, acquires-Opens}
use crawltrove.Worker.Run.Safe.{
  Rules, Ready, Done, Ends, Safe, pure-Safe, throw-Safe, note-leave-Safe, call_leave-Safe,
  bind-Safe, reads-Safe, call-Safe, waits-Safe, assigns-Safe, if-Safe,
}
use crawltrove.Worker.Run.Statements.{
  loses-Safe, record_failure-Safe, give_up-Safe, check_deadline-Safe, check_lease-Safe,
  robots_allowed-Safe,
}

-- What a run has done for its task: nothing if it claimed none; if it returned true, it asked for the
-- page at most once and then ended its work on the task once; if it raised, it did no more than that.
abbrev pub IsAnswered : {S : Type 0} {w : World S} {s : Setup} → State S × Outcome w s → Type 0
IsAnswered (st, idle) = st.answers ≡ []
IsAnswered (st, ran) = IsRun st.answers
IsAnswered (st, raised e) = IsOpen st.answers ⊎ IsRun st.answers

module _ {S : Type 0} (w : World S) (s : Setup) (I : S → Type 0) (rules : Rules w I) where
  abbrev Early : {A : Type 0} → Body S A → Type 0
  Early = Safe I [] (Done I)

  abbrev Late : {A : Type 0} → Body S A → Type 0
  Late = Safe I (acquires ∷ []) (Done I)

  start_proxy-Safe : (t : ClaimedTask) (found : Option String) → Early (start_proxy w s t found)
  start_proxy-Safe t none =
      record_failure-Safe w s I rules [] (inl refl) t "transport_error" none
        (classify_failure transport_error none)
  start_proxy-Safe t (some node) =
      bind-Safe (assigns-Safe _ (λ st h. record { holds = h.holds; same = h.same })) λ _.
        bind-Safe (call-Safe _ (rules.start_proxy t node))
          λ _. assigns-Safe _ (λ st h. record { holds = h.holds; same = h.same })

  take_proxy-Safe : (t : ClaimedTask) → Early (take_proxy w s t)
  take_proxy-Safe t =
      if-Safe (s.has_proxy_pool && contains "proxy" t.required_capabilities)
        (bind-Safe (call-Safe _ (rules.select_proxy t)) (start_proxy-Safe t)) (pure-Safe tt)

  complete-Safe : {A : Type 0} (t : ClaimedTask) (p : Page) → Late {A = A} (complete w s t p)
  complete-Safe t p = bind-Safe (reads-Safe _) λ lost.
      if-Safe lost (note-leave-Safe loses (refl, refl)) (
        bind-Safe (call-Safe _ (rules.discover p (page_url t p))) λ links.
          bind-Safe (reads-Safe _) λ gone.
            if-Safe gone (note-leave-Safe loses (refl, refl))
              (call_leave-Safe completes _ (refl, refl) (rules.complete t (result_of t p links))))

  park-Safe : {A : Type 0} (t : ClaimedTask) → Late {A = A} (park w s t)
  park-Safe t =
      bind-Safe (call-Safe _ (rules.start_session t))
        λ started. if-Safe started (note-leave-Safe parks (refl, refl)) (throw-Safe _)

  handle-Safe : {A : Type 0} (t : ClaimedTask) (r : Waited) → Late {A = A} (handle w s t r)
  handle-Safe t unfinished = give_up-Safe w s I rules (acquires ∷ []) (inr refl) t
  handle-Safe t (acquired p) = complete-Safe t p
  handle-Safe t (needs_human backend) =
      if-Safe
        (not (str_eq backend "owned")
          || not (contains "browser" s.capabilities)
          || not s.has_session_handler)
        (throw-Safe _) (park-Safe t)
  handle-Safe t (provider_failed f) =
      record_failure-Safe w s I rules (acquires ∷ []) (inr refl) t f.code f.retry_after
        (provider_decision f)
  handle-Safe t (crashed e) = throw-Safe e

  attempt-Opens :
      {A : Type 0} (t : ClaimedTask) (c : WorkerConfig) → Opens I {A = A} (attempt w s t c)
  unfolding attempt
  attempt-Opens t c = bind-Opens I (check_deadline-Safe w s I rules [] (inl refl) t) λ _.
      bind-Opens I (if-Safe c.respect_robots (robots_allowed-Safe w s I rules t c) (pure-Safe tt))
        λ _. bind-Opens I (check_lease-Safe w s I rules [] (inl refl) t) λ _.
          bind-Opens I (take_proxy-Safe t) λ _.
            bind-Opens I (if-Safe s.has_router (pure-Safe tt) (throw-Safe _)) λ _.
              acquires-Opens I
                (bind-Safe (waits-Safe (w.acquire t) (rules.acquire t)) (handle-Safe t))

  recover-Safe :
      {A : Type 0} (t : ClaimedTask) (e : Fault) (answers : List Answer)
      → IsOpen answers
      → Safe I answers (Done I) {A = A} (recover w s t e)
  unfolding recover
  recover-Safe t e answers o = bind-Safe (reads-Safe _) λ lost.
      if-Safe lost (loses-Safe w s I rules answers o) (
        record_failure-Safe w s I rules answers o t (fault_reason e) none
          (classify_failure (some (fault_reason e)) none))

  -- The finally block leaves what was done, and does not return.
  clean_up-Safe :
      (t : ClaimedTask) (answers : List Answer) → Safe I answers (λ _. ⊥) (clean_up w s t)
  unfolding clean_up
  clean_up-Safe t answers = bind-Safe (call-Safe w.stop_heartbeat rules.stop_heartbeat) λ _.
      bind-Safe
        (assigns-Safe (λ st. record st { active_lease = none; active_proxy_lease = none })
          (λ st h. record { holds = h.holds; same = h.same }))
        λ _. bind-Safe (reads-Safe (λ st. st.proxy_lease)) λ proxy. released proxy
    where
      released : (proxy : Option String) → Safe I answers (λ _. ⊥) (release w s t proxy)
      released none = pure-Safe tt
      released (some node) =
          bind-Safe (call-Safe (w.close_proxy node) (rules.close_proxy node))
            λ _. call-Safe (w.release_proxy t) (rules.release_proxy t)

  abbrev Ended : State S × Outcome w s → Type 0
  Ended r = I r.0.world × IsAnswered r

  after_done :
      (answers : List Answer) (r : State S × Step Unit)
      → IsRun answers
      → Ends I answers (λ _. ⊥) r
      → Ended (ended w s r)
  after_done answers (st, goes u) h k = (k.holds, subst IsRun (sym k.same) h)
  after_done answers (st, returns) h k = absurd k
  after_done answers (st, raises x) h k = (k.holds, inr (subst IsRun (sym k.same) h))

  after_raise :
      (x : Fault) (answers : List Answer) (r : State S × Step Unit)
      → IsOpen answers
      → Ends I answers (λ _. ⊥) r
      → Ended (ended w s (next r (λ (u : Unit). throw x)))
  unfolding throw
  after_raise x answers (st, goes u) h k = (k.holds, inl (subst IsOpen (sym k.same) h))
  after_raise x answers (st, returns) h k = absurd k
  after_raise x answers (st, raises y) h k = (k.holds, inl (subst IsOpen (sym k.same) h))

  finally-Ended : (t : ClaimedTask) (r : State S × Step ⊥) → Stops I r → Ended (finally w s t r)
  finally-Ended t (st, goes a) h = absurd a
  finally-Ended t (st, returns) h =
      after_done st.answers (clean_up w s t st) h.run
        ((clean_up-Safe t st.answers).run st (record { holds = h.holds; same = refl }))
  finally-Ended t (st, raises x) h =
      after_raise x st.answers (clean_up w s t st) h.unsettled
        ((clean_up-Safe t st.answers).run st (record { holds = h.holds; same = refl }))

  caught-Stops : (t : ClaimedTask) (r : State S × Step ⊥) → Stops I r → Stops I (caught w s t r)
  caught-Stops t (st, goes a) h = absurd a
  caught-Stops t (st, returns) h = h
  caught-Stops t (st, raises x) h =
      Ends-Stops I st.answers (recover w s t x st) h.unsettled
        ((recover-Safe t x st.answers h.unsettled).run st (record { holds = h.holds; same = refl }))

  run_task-Ended :
      (t : ClaimedTask) (c : Option WorkerConfig) (st : State S)
      → Ready I [] st
      → Ended (run_task w s t c st)
  run_task-Ended t none st h = (h.holds, inl (inl h.same))
  run_task-Ended t (some c) st h =
      finally-Ended t (caught w s t (attempt w s t c st))
        (caught-Stops t (attempt w s t c st) ((attempt-Opens t c).run st h))

  run_claim-Ended :
      (st : State S) (r : Reply (Option ClaimedTask)) → Ready I [] st → Ended (run_claim w s st r)
  run_claim-Ended st (throws e) h = (h.holds, inl (inl h.same))
  run_claim-Ended st (replies none) h = (h.holds, h.same)
  run_claim-Ended st (replies (some t)) h =
      run_task-Ended t (s.read_config t) (record st { active_lease = some (t.id, t.lease_token) })
        (record { holds = h.holds; same = h.same })

  -- A run keeps what each call keeps, and does for its task what it may.
  pub run_once-Ended :
      (st : State S) → I st.world → I (run_once w s st).0.world × IsAnswered (run_once w s st)
  unfolding run_once
  run_once-Ended st h =
      let r = w.claim st.world in
      run_claim-Ended (record st { world = r.0; answers = []; proxy_lease = none }) r.1
        (record { holds = rules.claim st.world h; same = refl })

-- However the components that it calls answer or raise, a run that claimed a task and returned ended
-- its work on the task in one way and once. Either it did not ask the router for the page, and then
-- the repository answered one of its calls of retry_task, fail_task, block_robots and heartbeat, or it
-- saw that the lease was lost; or it asked for the page once, and after that, once, complete_task,
-- retry_task, fail_task or heartbeat was answered, or a session took the task, or the run saw that the
-- lease was lost. So a task is completed or parked only after its page was asked for, and never also
-- retried or failed. A run that claimed no task did none of this, and one that raised did the same or
-- stopped before the last of it. The heartbeats in the background do not count.
pub run_once-IsAnswered :
    {S : Type 0} (w : World S) (s : Setup) (st : State S) → IsAnswered (run_once w s st)
run_once-IsAnswered w s st = (run_once-Ended w s (λ _. Unit {0}) idle_rules st tt).1
  where
    idle_rules : Rules w (λ _. Unit {0})
    idle_rules = record {
      claim = λ x h. tt;
      heartbeat = λ t x h. tt;
      retry = λ t d at m x h. tt;
      fail = λ t d m x h. tt;
      block = λ t code x h. tt;
      complete = λ t r x h. tt;
      robots_cache = λ t x h. tt;
      robots_fetch = λ t x h. tt;
      store_robots = λ t body status x h. tt;
      sleep = λ n x h. tt;
      select_proxy = λ t x h. tt;
      start_proxy = λ t node x h. tt;
      mark_failure = λ t node outcome x h. tt;
      close_proxy = λ node x h. tt;
      release_proxy = λ t x h. tt;
      acquire = λ t x h. tt;
      start_session = λ t x h. tt;
      discover = λ p url x h. tt;
      stop_heartbeat = λ x h. tt;
    }
