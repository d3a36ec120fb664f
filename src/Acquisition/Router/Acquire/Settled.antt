-- ===== src/Acquisition/Router/Acquire/Settled.antt =====
-- The ledger's calls of app/acquisition/router.py: every reservation is settled before the next.
use crawltrove.Base.{ℕ, List, [], ◌∷◌, ◌++◌}
use crawltrove.Acquisition.Registry.{Route}
use crawltrove.Acquisition.Router.{
  Capability, Event, reserves, finishes, Outcome, World, Settings, State,
}
use crawltrove.Acquisition.Router.Acquire.{acquire}
use crawltrove.Acquisition.Router.Acquire.Kept.{acquire-log}
use crawltrove.Acquisition.Router.Acquire.Worlds.{All-Unit}
use crawltrove.Acquisition.Router.Acquire.Logged.{Logged-Rules}

-- A log of attempts, each reserved and then settled by its own id.
pub data IsSettled : List Event → Type 0 where
  nothing : IsSettled []
  attempt :
      (log : List Event) (id : ℕ) (route : Route) (o : Outcome)
      → IsSettled log
      → IsSettled ((log ++ reserves id route ∷ []) ++ finishes id o ∷ [])

-- Whatever the repository, the adapters and the URL check do, a call of `acquire` that starts with
-- every attempt settled ends so: each attempt that it reserved was settled once, by its id, before
-- the next was reserved, also where the adapter or the ledger raises and across the escalation.
pub acquire-IsSettled :
    {S : Type 0} (w : World S) (s : Settings) (c : Capability) (st : State S)
    → IsSettled st.log
    → IsSettled (acquire w s c st).0.log
acquire-IsSettled {S} w s c st h =
    acquire-log w s _ _ (λ _. Unit) (Logged-Rules w IsSettled (λ _. Unit) pair) c st
      (λ r found k. All-Unit found) (λ found k. All-Unit found) h
  where
    pair :
        (log : List Event) (id : ℕ) (route : Route) (o : Outcome)
        → IsSettled log
        → Unit {0}
        → IsSettled ((log ++ reserves id route ∷ []) ++ finishes id o ∷ [])
    pair log id route o k q = attempt log id route o k
