-- ===== src/Queue/Budget/Statements.antt =====
-- How the single UPDATEs and INSERTs of app/crawl/repository.py keep the budget invariant.
use crawltrove.Base.{
  ℕ, ◌≡◌, sym, ◌∙◌, Bool, true, List, update_where, All, Any, All-weaken, All-update_where,
  Any-update_where, Distinct-update_where, sum_of-update_same, subst,
}
use crawltrove.Queue.Rows.{Job, Task}
use crawltrove.Queue.Budget.{
  bytes_in, artifacts_in, JobFits, IsIdle, IsBudgeted, SameBudget, SameReserve, KeepsKeys,
}

JobFits-same :
    {job bytes artifacts : ℕ} {tasks : List Task} (i j : Job)
    → SameBudget i j
    → JobFits job bytes artifacts tasks j
    → JobFits job bytes artifacts tasks i
JobFits-same i j s h = record {
  reserved = rw (s.id, s.reserved) h.reserved;
  reserved_artifacts = rw (s.id, s.reserved_artifacts) h.reserved_artifacts;
  fits = rw (s.id, s.reserved, s.downloaded, s.max_bytes) h.fits;
  artifacts_fit =
      rw (s.id, s.reserved_artifacts, s.artifacts, s.max_artifact_bytes) h.artifacts_fit;
}

abbrev pub SumsKept : List Task → List Task → Type 0
SumsKept new old =
    (k : ℕ) → (bytes_in new k ≡ bytes_in old k) × (artifacts_in new k ≡ artifacts_in old k)

module _ {job bytes artifacts : ℕ} {jobs : List Job} {tasks : List Task} where
  -- An UPDATE of jobs that leaves the budget columns.
  pub Budget-jobs :
      (p : Job → Bool) (f : Job → Job)
      → ((j : Job) → SameBudget (f j) j)
      → IsBudgeted job bytes artifacts jobs tasks
      → IsBudgeted job bytes artifacts (update_where p f jobs) tasks
  Budget-jobs p f same h = record {
    job_ids = Distinct-update_where _ p f jobs (λ j. (same j).id) h.job_ids;
    task_ids = h.task_ids;
    idle = h.idle;
    owned =
        All-weaken tasks (λ t a. Any-update_where _ p f jobs (λ j e. (same j).id ∙ e) a) h.owned;
    all_fit =
        All-update_where p f jobs (λ j k _. JobFits-same (f j) j (same j) k) (λ j k _. k) h.all_fit;
  }

  pub fits-SumsKept :
      (new : List Task)
      → SumsKept new tasks
      → IsBudgeted job bytes artifacts jobs tasks
      → All (JobFits job bytes artifacts new) jobs
  fits-SumsKept new same h =
      All-weaken jobs
        (λ j k. record {
          reserved = k.reserved ∙ sym (same j.id).0;
          reserved_artifacts = k.reserved_artifacts ∙ sym (same j.id).1;
          fits = k.fits;
          artifacts_fit = k.artifacts_fit;
        })
        h.all_fit

  pub owned-update :
      (p : Task → Bool) (f : Task → Task)
      → KeepsKeys f
      → IsBudgeted job bytes artifacts jobs tasks
      → All (λ t. Any (λ (j : Job). j.id ≡ t.job_id) jobs) (update_where p f tasks)
  owned-update p f keys h =
      All-update_where p f tasks
        (λ t o e. subst (λ k. Any (λ (j : Job). j.id ≡ k) jobs) (sym (keys t).1) o) (λ t o e. o)
        h.owned

  -- An UPDATE of tasks that leaves the reservations.
  pub Budget-tasks :
      (p : Task → Bool) (f : Task → Task)
      → KeepsKeys f
      → ((t : Task) → IsIdle t → p t ≡ true → SameReserve (f t) t)
      → IsBudgeted job bytes artifacts jobs tasks
      → IsBudgeted job bytes artifacts jobs (update_where p f tasks)
  Budget-tasks p f keys same h = record {
    job_ids = h.job_ids;
    task_ids = Distinct-update_where _ p f tasks (λ t. (keys t).0) h.task_ids;
    idle = All-update_where p f tasks (λ t i e. (same t i e).idle) (λ t i _. i) h.idle;
    owned = owned-update p f keys h;
    all_fit = fits-SumsKept _ sums h;
  }
    where
      sums : SumsKept (update_where p f tasks) tasks
      sums k = (
        sum_of-update_same _ p f tasks
            (All-weaken tasks (λ t i e. rw ((keys t).1, (same t i e).bytes)) h.idle),
        sum_of-update_same _ p f tasks
            (All-weaken tasks (λ t i e. rw ((keys t).1, (same t i e).artifacts)) h.idle),
      )
