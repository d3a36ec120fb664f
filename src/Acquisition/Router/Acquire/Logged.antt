-- ===== src/Acquisition/Router/Acquire/Logged.antt =====
-- What the log of app/acquisition/router.py keeps, whatever the world does.
use crawltrove.Base.{ℕ, List, [], ◌∷◌, ◌++◌}
use crawltrove.Acquisition.Registry.{Route}
use crawltrove.Acquisition.Router.{
  Event, reserves, finishes, Outcome, Reserved, granted, exhausted, refused, World,
}
use crawltrove.Acquisition.Router.Acquire.Kept.{AfterReserve, Rules}

module _ {S : Type 0} (w : World S) (P : List Event → Type 0) (Q : Route → Type 0)
    (pair : (log : List Event) (id : ℕ) (route : Route) (o : Outcome)
      → P log
      → Q route
      → P ((log ++ reserves id route ∷ []) ++ finishes id o ∷ [])) where
  abbrev pub Logged : S → List Event → Type 0
  Logged t log = P log

  abbrev pub Attempted : S → List Event → ℕ → Route → Type 0
  Attempted t log id route = P log × Q route

  reserved :
      (t : S) (log : List Event) (route : Route) (r : Reserved)
      → P log
      → Q route
      → AfterReserve w Logged Attempted Q t log route r
  reserved t log route (granted id) h q = (h, q)
  reserved t log route exhausted h q = h
  reserved t log route refused h q = h

  -- A property that an attempt on a route of Q extends is kept by every call of the world.
  pub Logged-Rules : Rules w Logged Attempted Q
  Logged-Rules = record {
    browser = λ t log h. h;
    reserve = λ t log route h q. reserved (w.reserve t route).0 log route (w.reserve t route).1 h q;
    fetch = λ t log id route j. j;
    finish = λ t log id route o cost j. pair log id route o j.0 j.1;
    cancel = λ t log id h. h;
  }
