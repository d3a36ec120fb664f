-- ===== src/Acquisition/Router/Acquire/Worlds.antt =====
-- What the world of app/acquisition/router.py keeps, whatever the log is.
use crawltrove.Base.{ℕ, String, List, [], ◌∷◌, All}
use crawltrove.Acquisition.Registry.{Route}
use crawltrove.Acquisition.Router.{
  Capability, Event, Outcome, CostOf, Reserved, granted, exhausted, refused, World, Settings, State,
}
use crawltrove.Acquisition.Router.Acquire.{acquire}
use crawltrove.Acquisition.Router.Acquire.Kept.{AfterReserve, acquire-log}

pub All-Unit : {A : Type 0} (xs : List A) → All (λ _. Unit {0}) xs
All-Unit [] = tt
All-Unit (x ∷ xs) = (tt, All-Unit xs)

module _ {S : Type 0} (w : World S) (I : S → Type 0) where
  -- Each call keeps the invariant of the world.
  pub record IsKept : Type 0 where
    pub browser : (t : S) → I t → I (w.reserve_browser t).0
    pub reserve : (t : S) (route : Route) → I t → I (w.reserve t route).0
    pub fetch : (t : S) (route : Route) → I t → I (w.fetch t route).0
    pub finish : (t : S) (id : ℕ) (o : Outcome) (cost : CostOf) → I t → I (w.finish t id o cost).0
    pub cancel : (t : S) (id : String) → I t → I (w.cancel t id)

  abbrev Holds : S → List Event → Type 0
  Holds t log = I t

  abbrev Attempting : S → List Event → ℕ → Route → Type 0
  Attempting t log id route = I t

  abbrev Any : Route → Type 0
  Any route = Unit

  reserved :
      (t : S) (log : List Event) (route : Route) (r : Reserved)
      → I t
      → AfterReserve w Holds Attempting Any t log route r
  reserved t log route (granted id) h = h
  reserved t log route exhausted h = h
  reserved t log route refused h = h

  pub acquire-IsKept :
      IsKept
      → (s : Settings) (c : Capability) (st : State S) → I st.world
      → I (acquire w s c st).0.world
  acquire-IsKept k s c st h =
      acquire-log w s Holds Attempting Any
        (record {
          browser = λ t log i. k.browser t i;
          reserve = λ t log route i q.
              reserved (w.reserve t route).0 log route (w.reserve t route).1 (k.reserve t route i);
          fetch = λ t log id route i. k.fetch t route i;
          finish = λ t log id route o cost i. k.finish t id o cost i;
          cancel = λ t log id i. k.cancel t id i;
        })
        c st (λ r found e. All-Unit found) (λ found e. All-Unit found) h
