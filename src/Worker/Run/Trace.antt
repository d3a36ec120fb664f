-- ===== src/Worker/Run/Trace.antt =====
-- What a run of app/crawl/worker.py does for its task, in order.
use crawltrove.Base.{◌≡◌, refl, sym, subst, Bool, true, false, List, [], ◌∷◌, ◌++◌, inl, inr, ◌⊎◌}
use crawltrove.Worker.{Answer, completes, retries, fails, blocks, parks, beats, loses, acquires}

-- How a run may end that does not ask for the page.
abbrev pub ends_early : Answer → Bool
ends_early retries = true
ends_early fails = true
ends_early blocks = true
ends_early beats = true
ends_early loses = true
ends_early _ = false

-- How a run may end that asked for the page.
abbrev pub ends_late : Answer → Bool
ends_late completes = true
ends_late parks = true
ends_late retries = true
ends_late fails = true
ends_late beats = true
ends_late loses = true
ends_late _ = false

-- What a run that returns did for its task, in order.
abbrev pub IsRun : List Answer → Type 0
IsRun (a ∷ []) = ends_early a ≡ true
IsRun (a ∷ b ∷ []) = (a ≡ acquires) × (ends_late b ≡ true)
IsRun _ = ⊥

-- What a run did that has not ended its task's lease yet.
abbrev pub IsOpen : List Answer → Type 0
IsOpen xs = (xs ≡ []) ⊎ (xs ≡ acquires ∷ [])

pub either-IsRun :
    (xs : List Answer) (e : Answer)
    → IsOpen xs
    → ends_early e ≡ true
    → ends_late e ≡ true
    → IsRun (xs ++ e ∷ [])
either-IsRun xs e (inl h) k l = subst (λ ys. IsRun (ys ++ e ∷ [])) (sym h) k
either-IsRun xs e (inr h) k l = subst (λ ys. IsRun (ys ++ e ∷ [])) (sym h) (refl, l)
