-- ===== src/History/Recount.antt =====
-- `reconcile_job` of app/crawl/repository.py finds the cached reservations as the transactions kept
-- them.
use crawltrove.Base.{
  ℕ, ◌≡◌, refl, sym, Bool, Bool-cases, inl, inr, false, List, [], ◌∷◌, All, if_cases, exists_where,
  update_where,
}
use crawltrove.Queue.Rows.{Job, Db}
use crawltrove.Queue.Ledger.{job_named}
use crawltrove.Queue.Jobs.{recount, reconcile_job}
use crawltrove.Queue.Discover.{UrlTools}
use crawltrove.History.{Reachable}
use crawltrove.History.Budget.{WithinBudget, Reachable-WithinBudget}

-- Each job with its reserved bytes and artifact bytes.
unfoldable pub reservations : List Job → List (ℕ × (ℕ × ℕ))
reservations [] = []
reservations (j ∷ jobs) = (j.id, (j.reserved_bytes, j.reserved_artifact_bytes)) ∷ reservations jobs

recounted-reservations :
    (p : Job → Bool) (db : Db) (jobs : List Job)
    → All (WithinBudget db.tasks) jobs
    → reservations (update_where p (recount db) jobs) ≡ reservations jobs
unfolding reservations update_where recount
recounted-reservations p db [] h = refl
recounted-reservations p db (j ∷ jobs) h = elim (Bool-cases (p j)) [
  | inl e ↦
      rw (e, sym h.0.reserved, sym h.0.reserved_artifacts, recounted-reservations p db jobs h.1)
        refl
  | inr e ↦ rw (e, recounted-reservations p db jobs h.1) refl
]

-- In every store that a sequence of transactions leads to from the empty tables, the cached
-- reservations have not drifted: reconcile_job, which sums those of the tasks anew, leaves the
-- reserved bytes and artifact bytes of every job as they are.
pub reservations-reconcile_job :
    (tools : UrlTools) (db : Db) (job : ℕ)
    → Reachable tools db
    → reservations (reconcile_job db job).0.jobs ≡ reservations db.jobs
unfolding reconcile_job
reservations-reconcile_job tools db job h =
    if_cases (λ (r : Db × Bool). reservations r.0.jobs ≡ reservations db.jobs)
      (exists_where (job_named job) db.jobs) _ (db, false)
      (λ _. recounted-reservations (job_named job) db db.jobs (Reachable-WithinBudget tools db h))
      (λ _. refl)
