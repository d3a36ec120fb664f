-- ===== src/Worker/Run/Safe.antt =====
-- What every statement of `run_once` in app/crawl/worker.py keeps: an invariant of the world, and what
-- was done for the task, up to the statement that returns.
use crawltrove.Base.{
  ℕ, ◌≡◌, sym, subst, String, Bool, Option, List, [], ◌∷◌, ◌++◌, if◌then◌else◌, if_cases,
}
use crawltrove.Classify.{FailureDecision}
use crawltrove.Queue.Settle.{Metadata}
use crawltrove.Queue.Claim.{ClaimedTask}
use crawltrove.Queue.Finish.{TaskResult}
use crawltrove.Worker.Run.Trace.{IsRun}
use crawltrove.Worker.{
  Fault, Reply, replies, throws, Answer, Page, World, State, Step, goes, returns, raises, Body,
  next, pure, throw, reads, assigns, replied, call, waits, Waited, note, leave, ◌>>◌, ◌>>=◌,
}

module _ {S : Type 0} (w : World S) (I : S → Type 0) where
  -- Each call of the world keeps the invariant.
  pub record Rules : Type 0 where
    pub claim : (x : S) → I x → I (w.claim x).0
    pub heartbeat : (t : ClaimedTask) (x : S) → I x → I (w.heartbeat t x).0
    pub retry :
        (t : ClaimedTask) (d : FailureDecision) (at : ℕ) (m : Metadata) (x : S)
        → I x
        → I (w.retry t d at m x).0
    pub fail :
        (t : ClaimedTask) (d : FailureDecision) (m : Metadata) (x : S) → I x → I (w.fail t d m x).0
    pub block : (t : ClaimedTask) (code : String) (x : S) → I x → I (w.block t code x).0
    pub complete : (t : ClaimedTask) (r : TaskResult) (x : S) → I x → I (w.complete t r x).0
    pub robots_cache : (t : ClaimedTask) (x : S) → I x → I (w.robots_cache t x).0
    pub robots_fetch : (t : ClaimedTask) (x : S) → I x → I (w.robots_fetch t x).0
    pub store_robots :
        (t : ClaimedTask) (body : String) (status : Option ℕ) (x : S)
        → I x
        → I (w.store_robots t body status x).0
    pub sleep : (n : ℕ) (x : S) → I x → I (w.sleep n x).0
    pub select_proxy : (t : ClaimedTask) (x : S) → I x → I (w.select_proxy t x).0
    pub start_proxy : (t : ClaimedTask) (node : String) (x : S) → I x → I (w.start_proxy t node x).0
    pub mark_failure :
        (t : ClaimedTask) (node outcome : String) (x : S)
        → I x
        → I (w.mark_failure t node outcome x).0
    pub close_proxy : (node : String) (x : S) → I x → I (w.close_proxy node x).0
    pub release_proxy : (t : ClaimedTask) (x : S) → I x → I (w.release_proxy t x).0
    pub acquire : (t : ClaimedTask) (x : S) → I x → I (w.acquire t x).0
    pub start_session : (t : ClaimedTask) (x : S) → I x → I (w.start_session t x).0
    pub discover : (p : Page) (url : String) (x : S) → I x → I (w.discover p url x).0
    pub stop_heartbeat : (x : S) → I x → I (w.stop_heartbeat x).0

module _ {S : Type 0} (I : S → Type 0) where
  -- What was done for the task is what a run that returns may do.
  pub record Done (st : State S) : Type 0 where
    pub holds : I st.world
    pub run : IsRun st.answers

  -- What was done for the task is what is given.
  pub record Ready (answers : List Answer) (st : State S) : Type 0 where
    pub holds : I st.world
    pub same : st.answers ≡ answers

  module _ (answers : List Answer) (D : State S → Type 0) where
    -- D holds where the statement returns.
    abbrev pub Ends : {A : Type 0} → State S × Step A → Type 0
    Ends (st, goes a) = Ready answers st
    Ends (st, returns) = D st
    Ends (st, raises e) = Ready answers st

    pub record Safe {A : Type 0} (m : Body S A) : Type 0 where
      pub run : (st : State S) → Ready answers st → Ends (m st)

    replied-Ends :
        {A : Type 0} (st : State S) (r : Reply A) → Ready answers st → Ends (replied st r)
    replied-Ends st (replies a) h = h
    replied-Ends st (throws e) h = h

module _ {S : Type 0} {I : S → Type 0} {answers : List Answer} {D : State S → Type 0} where
  pub pure-Safe : {A : Type 0} (a : A) → Safe I answers D (pure a)
  unfolding pure
  pure-Safe a = record { run = λ st h. h }

  pub throw-Safe : {A : Type 0} (e : Fault) → Safe I answers D {A = A} (throw e)
  unfolding throw
  throw-Safe e = record { run = λ st h. h }

  next-Ends :
      {A B : Type 0} (r : State S × Step A) (f : A → Body S B)
      → ((a : A) → Safe I answers D (f a))
      → Ends I answers D r
      → Ends I answers D (next r f)
  next-Ends (st, goes a) f k h = (k a).run st h
  next-Ends (st, returns) f k h = h
  next-Ends (st, raises e) f k h = h

  pub bind-Safe :
      {A B : Type 0} {m : Body S A} {f : A → Body S B}
      → Safe I answers D m
      → ((a : A) → Safe I answers D (f a))
      → Safe I answers D (m >>= f)
  unfolding ◌>>=◌
  bind-Safe {A} {B} {m} {f} h k = record { run = λ st r. next-Ends (m st) f k (h.run st r) }

  pub reads-Safe : {A : Type 0} (g : State S → A) → Safe I answers D (reads g)
  unfolding reads
  reads-Safe g = record { run = λ st h. h }

  pub assigns-Safe :
      (f : State S → State S)
      → ((st : State S) → Ready I answers st → Ready I answers (f st))
      → Safe I answers D (assigns f)
  unfolding assigns
  assigns-Safe f k = record { run = k }

  pub call-Safe :
      {A : Type 0} (f : S → S × Reply A) → ((x : S) → I x → I (f x).0) → Safe I answers D (call f)
  unfolding call
  call-Safe f k = record {
    run = λ st h.
        replied-Ends I answers D (record st { world = (f st.world).0 }) (f st.world).1
          (record { holds = k st.world h.holds; same = h.same });
  }

  pub waits-Safe : (f : S → S × Waited) → ((x : S) → I x → I (f x).0) → Safe I answers D (waits f)
  unfolding waits
  waits-Safe f k = record { run = λ st h. record { holds = k st.world h.holds; same = h.same } }

  pub if-Safe :
      {A : Type 0} (b : Bool) {m n : Body S A}
      → Safe I answers D m
      → Safe I answers D n
      → Safe I answers D (if b then m else n)
  if-Safe b {m} {n} h k = if_cases (Safe I answers D) b m n (λ _. h) (λ _. k)

module _ {S : Type 0} {I : S → Type 0} {answers : List Answer} where
  -- The last thing that a run does for its task, and the return after it.
  pub note-leave-Safe :
      {A : Type 0} (e : Answer)
      → IsRun (answers ++ e ∷ [])
      → Safe I answers (Done I) {A = A} (note e >> leave)
  unfolding note leave ◌>>=◌
  note-leave-Safe e h = record {
    run =
        λ st k. record { holds = k.holds; run = subst (λ xs. IsRun (xs ++ e ∷ [])) (sym k.same) h };
  }

  replied-Done :
      (A : Type 0) (e : Answer) (st : State S) (r : Reply Bool)
      → IsRun (answers ++ e ∷ [])
      → Ready I answers st
      → Ends I answers (Done I) {A = A} (next (next (replied st r) (λ _. note e)) (λ _. leave))
  unfolding note leave
  replied-Done A e st (replies b) h k = record {
    holds = k.holds;
    run = subst (λ xs. IsRun (xs ++ e ∷ [])) (sym k.same) h;
  }
  replied-Done A e st (throws x) h k = k

  -- A call that settles the task, and the return after it.
  pub call_leave-Safe :
      {A : Type 0} (e : Answer) (f : S → S × Reply Bool)
      → IsRun (answers ++ e ∷ [])
      → ((x : S) → I x → I (f x).0)
      → Safe I answers (Done I) {A = A} (call f >> note e >> leave)
  unfolding call ◌>>=◌
  call_leave-Safe e f h k = record {
    run = λ st r.
        replied-Done _ e (record st { world = (f st.world).0 }) (f st.world).1 h
          (record { holds = k st.world r.holds; same = r.same });
  }
