-- ===== src/Worker/Run/Opens.antt =====
-- Statements of `run_once` in app/crawl/worker.py that go on to the request for the page, unless they
-- return or raise before it.
use crawltrove.Base.{refl, sym, subst, ap, List, [], ◌∷◌, ◌++◌, inl, inr}
use crawltrove.Worker.{
  Answer, acquires, State, Step, goes, returns, raises, Body, next, note, ◌>>=◌, ◌>>◌,
}
use crawltrove.Worker.Run.Trace.{IsOpen}
use crawltrove.Worker.Run.Safe.{Ready, Done, Ends, Safe}

module _ {S : Type 0} (I : S → Type 0) where
  -- Nothing was done for the task but to ask for the page.
  pub record Open (st : State S) : Type 0 where
    pub holds : I st.world
    pub unsettled : IsOpen st.answers

  -- A statement that does not fall through returns with the task done, or raises before that.
  abbrev pub Stops : {A : Type 0} → State S × Step A → Type 0
  Stops (st, goes a) = Unit
  Stops (st, returns) = Done I st
  Stops (st, raises e) = Open st

  pub record Opens {A : Type 0} (m : Body S A) : Type 0 where
    pub run : (st : State S) → Ready I [] st → Stops (m st)

  pub Ends-Stops :
      {A : Type 0} (answers : List Answer) (r : State S × Step A)
      → IsOpen answers
      → Ends I answers (Done I) r
      → Stops r
  Ends-Stops answers (st, goes a) o h = tt
  Ends-Stops answers (st, returns) o h = h
  Ends-Stops answers (st, raises e) o h = record {
    holds = h.holds;
    unsettled = subst IsOpen (sym h.same) o;
  }

  next-Stops :
      {A B : Type 0} (r : State S × Step A) (f : A → Body S B)
      → ((a : A) → Opens (f a))
      → Ends I [] (Done I) r
      → Stops (next r f)
  next-Stops (st, goes a) f k h = (k a).run st h
  next-Stops (st, returns) f k h = h
  next-Stops (st, raises e) f k h = record { holds = h.holds; unsettled = inl h.same }

  pub bind-Opens :
      {A B : Type 0} {m : Body S A} {f : A → Body S B}
      → Safe I [] (Done I) m
      → ((a : A) → Opens (f a))
      → Opens (m >>= f)
  unfolding ◌>>=◌
  bind-Opens {A} {B} {m} {f} h k = record { run = λ st r. next-Stops (m st) f k (h.run st r) }

  -- From where the page is asked for.
  pub acquires-Opens :
      {A : Type 0} {m : Body S A} → Safe I (acquires ∷ []) (Done I) m → Opens (note acquires >> m)
  unfolding note ◌>>=◌
  acquires-Opens {A} {m} h = record {
    run = λ st r.
        let asked = record st { answers = st.answers ++ acquires ∷ [] } in
        Ends-Stops (acquires ∷ []) (m asked) (inr refl)
          (h.run asked (record { holds = r.holds; same = ap (λ xs. xs ++ acquires ∷ []) r.same }));
  }
