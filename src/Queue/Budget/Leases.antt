-- ===== src/Queue/Budget/Leases.antt =====
-- How the statements that take and end a lease keep the budget invariant: the reservation of the
-- task and the cached reservation of its job move together.
use crawltrove.Base.{
  ℕ, ◌+◌, ◌-◌, ◌≤◌, ◌≡◌, refl, ◌∙◌, Bool, true, false, List, if◌then◌else◌, arith, update_where,
  Row, All-weaken, All-update_where, Any-update_where, Distinct-update_where, sum_of-update_one,
}
use crawltrove.Queue.Rows.{Job, Task}
use crawltrove.Queue.Ledger.{job_named}
use crawltrove.Queue.Settle.{release_budget}
use crawltrove.Queue.Jobs.{task_of}
use crawltrove.Queue.Budget.{bytes_in, artifacts_in, slack_at, JobFits, IsBudgeted, KeepsKeys}
use crawltrove.Queue.Budget.Statements.{owned-update}

-- the part of a job's reserved bytes that one task makes up
abbrev pub bytes_of : ℕ → Task → ℕ
bytes_of job x = if task_of job x then x.byte_budget_reserved else 0

abbrev pub artifacts_of : ℕ → Task → ℕ
artifacts_of job x = if task_of job x then x.artifact_budget_reserved else 0

-- The update frees a task of its reservation.
pub record Frees (f : Task → Task) : Type 0 where
  pub keys : KeepsKeys f
  pub bytes : (x : Task) → (f x).byte_budget_reserved ≡ 0
  pub artifacts : (x : Task) → (f x).artifact_budget_reserved ≡ 0

-- The update matches the row of `t`, and no other.
pub record Picks (t : Task) (p : Task → Bool) (tasks : List Task) : Type 0 where
  pub only : (x : Task) → p x ≡ true → x.id ≡ t.id
  pub hits : p t ≡ true
  pub row : Row t tasks

release-fits :
    {k : ℕ} {tasks : List Task} (t : Task) (new : List Task) (j : Job)
    → bytes_in new j.id + bytes_of j.id t ≡ bytes_in tasks j.id
    → artifacts_in new j.id + artifacts_of j.id t ≡ artifacts_in tasks j.id
    → JobFits k 0 0 tasks j
    → job_named t.job_id j ≡ true
    → JobFits t.job_id t.byte_budget_reserved t.artifact_budget_reserved new (release_budget t j)
unfolding release_budget
release-fits {k} {tasks} t new j b a h e = ground (arith, h.reserved)

keep-fits :
    {k : ℕ} {tasks : List Task} (t : Task) (new : List Task) (j : Job)
    → bytes_in new j.id + bytes_of j.id t ≡ bytes_in tasks j.id
    → artifacts_in new j.id + artifacts_of j.id t ≡ artifacts_in tasks j.id
    → JobFits k 0 0 tasks j
    → job_named t.job_id j ≡ false
    → JobFits t.job_id t.byte_budget_reserved t.artifact_budget_reserved new j
keep-fits {k} {tasks} t new j b a h e = ground arith

module _ {k : ℕ} {jobs : List Job} {tasks : List Task} where
  -- The end of a lease: what the task had reserved becomes room in its job.
  pub Budget-settle :
      (t : Task) (p : Task → Bool) (f : Task → Task)
      → Picks t p tasks
      → Frees f
      → IsBudgeted k 0 0 jobs tasks
      → IsBudgeted t.job_id t.byte_budget_reserved t.artifact_budget_reserved
          (update_where (job_named t.job_id) (release_budget t) jobs)
          (update_where p f tasks)
  unfolding release_budget
  Budget-settle t p f picks frees h = record {
    job_ids =
        Distinct-update_where _ (job_named t.job_id) (release_budget t) jobs (λ j. refl) h.job_ids;
    task_ids = Distinct-update_where _ p f tasks (λ x. (frees.keys x).0) h.task_ids;
    idle =
        All-update_where p f tasks (λ x i e _. (frees.bytes x, frees.artifacts x)) (λ x i _. i)
          h.idle;
    owned =
        All-weaken (update_where p f tasks)
          (λ x a. Any-update_where _ (job_named t.job_id) (release_budget t) jobs (λ j e. e) a)
          (owned-update p f frees.keys h);
    all_fit =
        All-update_where (job_named t.job_id) (release_budget t) jobs
          (λ j a e. release-fits t _ j (bytes_moved j.id) (artifacts_moved j.id) a e)
          (λ j a e. keep-fits t _ j (bytes_moved j.id) (artifacts_moved j.id) a e) h.all_fit;
  }
    where
      freed_bytes : (job : ℕ) → bytes_of job (f t) ≡ 0
      freed_bytes job = ground (arith, frees.bytes t)

      freed_artifacts : (job : ℕ) → artifacts_of job (f t) ≡ 0
      freed_artifacts job = ground (arith, frees.artifacts t)

      bytes_moved :
          (job : ℕ) → bytes_in (update_where p f tasks) job + bytes_of job t ≡ bytes_in tasks job
      bytes_moved job = omega (
        arith,
        freed_bytes job,
        sum_of-update_one (bytes_of job) p f (λ x. x.id) t tasks picks.only picks.hits h.task_ids
            picks.row,
      )

      artifacts_moved :
          (job : ℕ)
          → artifacts_in (update_where p f tasks) job + artifacts_of job t ≡ artifacts_in tasks job
      artifacts_moved job = omega (
        arith,
        freed_artifacts job,
        sum_of-update_one (artifacts_of job) p f (λ x. x.id) t tasks picks.only picks.hits
            h.task_ids picks.row,
      )

  -- Room that is not used is given up.
  pub Budget-weaken :
      {bytes artifacts : ℕ} (k' bytes' artifacts' : ℕ)
      → ((id : ℕ) → slack_at k' bytes' id ≤ slack_at k bytes id)
      → ((id : ℕ) → slack_at k' artifacts' id ≤ slack_at k artifacts id)
      → IsBudgeted k bytes artifacts jobs tasks
      → IsBudgeted k' bytes' artifacts' jobs tasks
  Budget-weaken k' bytes' artifacts' b a h = record {
    job_ids = h.job_ids;
    task_ids = h.task_ids;
    idle = h.idle;
    owned = h.owned;
    all_fit =
        All-weaken jobs
          (λ j x. record {
            reserved = x.reserved;
            reserved_artifacts = x.reserved_artifacts;
            fits = omega (arith, x.fits, b j.id);
            artifacts_fit = omega (arith, x.artifacts_fit, a j.id);
          })
          h.all_fit;
  }

  -- An UPDATE of the jobs named k that spends out of their room.
  pub Budget-charge :
      {bytes artifacts : ℕ} (f : Job → Job) (b a : ℕ)
      → b ≤ bytes
      → a ≤ artifacts
      → ((j : Job) → (f j).id ≡ j.id)
      → ((j : Job)
          → JobFits k bytes artifacts tasks j
          → job_named k j ≡ true
          → JobFits k (bytes - b) (artifacts - a) tasks (f j))
      → IsBudgeted k bytes artifacts jobs tasks
      → IsBudgeted k (bytes - b) (artifacts - a) (update_where (job_named k) f jobs) tasks
  Budget-charge f b a hb ha ids spend h = record {
    job_ids = Distinct-update_where _ (job_named k) f jobs ids h.job_ids;
    task_ids = h.task_ids;
    idle = h.idle;
    owned =
        All-weaken tasks (λ x o. Any-update_where _ (job_named k) f jobs (λ j e. ids j ∙ e) o)
          h.owned;
    all_fit =
        All-update_where (job_named k) f jobs spend
          (λ j x e. record {
            reserved = x.reserved;
            reserved_artifacts = x.reserved_artifacts;
            fits = ground (arith, x.fits);
            artifacts_fit = ground (arith, x.artifacts_fit);
          })
          h.all_fit;
  }
