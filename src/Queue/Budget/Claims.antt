-- ===== src/Queue/Budget/Claims.antt =====
-- The budget invariant under `claim_task` and `resume_live_session` of app/crawl/repository.py: a
-- claim never reserves more than what is left of its job's budgets.
use crawltrove.Base.{
  ℕ, ◌+◌, ◌≤◌, ◌≡◌, sym, subst, ◌∙◌, Bool, true, false, some, List, if◌then◌else◌, ◌==◌, arith,
  update_where, find_where, find_where-Row, Row, All-weaken, All-update_where, All-Row, All-zip,
  Distinct-All, Any-update_where, Distinct-update_where, sum_of-update_one,
}
use crawltrove.Queue.States.{is_leased}
use crawltrove.Queue.Rows.{Job, Task}
use crawltrove.Queue.Ledger.{job_named}
use crawltrove.Queue.Budget.{IsBudgeted, IsIdle, KeepsKeys, JobFits, bytes_in, artifacts_in}
use crawltrove.Queue.Budget.Statements.{owned-update}
use crawltrove.Queue.Budget.Leases.{Picks, bytes_of, artifacts_of}

-- The update leases a task with these reservations.
pub record Reserves (b a : ℕ) (f : Task → Task) : Type 0 where
  pub keys : KeepsKeys f
  pub bytes : (x : Task) → (f x).byte_budget_reserved ≡ b
  pub artifacts : (x : Task) → (f x).artifact_budget_reserved ≡ a
  pub leased : (x : Task) → is_leased (f x).state ≡ true

-- The update of the job adds the reservations and leaves the other budget columns.
pub record Adds (b a : ℕ) (g : Job → Job) : Type 0 where
  pub id : (j : Job) → (g j).id ≡ j.id
  pub max_bytes : (j : Job) → (g j).max_bytes ≡ j.max_bytes
  pub max_artifact_bytes : (j : Job) → (g j).max_artifact_bytes ≡ j.max_artifact_bytes
  pub downloaded : (j : Job) → (g j).downloaded_bytes ≡ j.downloaded_bytes
  pub reserved : (j : Job) → (g j).reserved_bytes ≡ j.reserved_bytes + b
  pub artifacts : (j : Job) → (g j).artifact_bytes ≡ j.artifact_bytes
  pub reserved_artifacts : (j : Job) → (g j).reserved_artifact_bytes ≡ j.reserved_artifact_bytes + a

pub record HasRoom (b a : ℕ) (j : Job) : Type 0 where
  pub bytes : j.downloaded_bytes + j.reserved_bytes + b ≤ j.max_bytes
  pub artifacts : j.artifact_bytes + j.reserved_artifact_bytes + a ≤ j.max_artifact_bytes

module _ {b a : ℕ} {tasks : List Task} (t : Task) (new : List Task) (g : Job → Job)
    (adds : Adds b a g) where
  add-fits :
      (j : Job)
      → bytes_in new j.id ≡ bytes_in tasks j.id + (if j.id == t.job_id then b else 0)
      → artifacts_in new j.id ≡ artifacts_in tasks j.id + (if j.id == t.job_id then a else 0)
      → HasRoom b a j
      → JobFits 0 0 0 tasks j
      → job_named t.job_id j ≡ true
      → JobFits 0 0 0 new (g j)
  add-fits j sb sa room h e = record {
    reserved = rw (adds.id j, adds.reserved j) (ground (arith, h.reserved));
    reserved_artifacts =
        rw (adds.id j, adds.reserved_artifacts j) (ground (arith, h.reserved_artifacts));
    fits =
        rw (adds.id j, adds.reserved j, adds.downloaded j, adds.max_bytes j)
          (ground (arith, room.bytes));
    artifacts_fit =
        rw (adds.id j, adds.reserved_artifacts j, adds.artifacts j, adds.max_artifact_bytes j)
          (ground (arith, room.artifacts));
  }

  skip-fits :
      (j : Job)
      → bytes_in new j.id ≡ bytes_in tasks j.id + (if j.id == t.job_id then b else 0)
      → artifacts_in new j.id ≡ artifacts_in tasks j.id + (if j.id == t.job_id then a else 0)
      → JobFits 0 0 0 tasks j
      → job_named t.job_id j ≡ false
      → JobFits 0 0 0 new j
  skip-fits j sb sa h e = record {
    reserved = ground (arith, h.reserved);
    reserved_artifacts = ground (arith, h.reserved_artifacts);
    fits = h.fits;
    artifacts_fit = h.artifacts_fit;
  }

-- A lease taken within the room of its job.
pub Budget-reserve :
    {b a : ℕ} {jobs : List Job} {tasks : List Task} (t : Task) (j : Job) (p : Task → Bool)
    (f : Task → Task) (g : Job → Job)
    → Picks t p tasks
    → Reserves b a f
    → Adds b a g
    → is_leased t.state ≡ false
    → find_where (job_named t.job_id) jobs ≡ some j
    → HasRoom b a j
    → IsBudgeted 0 0 0 jobs tasks
    → IsBudgeted 0 0 0 (update_where (job_named t.job_id) g jobs) (update_where p f tasks)
Budget-reserve {b} {a} {jobs} {tasks} t j p f g picks res adds waiting found room h = record {
  job_ids = Distinct-update_where _ (job_named t.job_id) g jobs adds.id h.job_ids;
  task_ids = Distinct-update_where _ p f tasks (λ x. (res.keys x).0) h.task_ids;
  idle = All-update_where p f tasks (λ x i e n. absurd (cc (res.leased x, n))) (λ x i _. i) h.idle;
  owned =
      All-weaken (update_where p f tasks)
        (λ x o. Any-update_where _ (job_named t.job_id) g jobs (λ i e. adds.id i ∙ e) o)
        (owned-update p f res.keys h);
  all_fit =
      All-update_where (job_named t.job_id) g jobs
        (λ x k e.
          add-fits t (update_where p f tasks) g adds x (bytes_moved x.id) (artifacts_moved x.id)
            (subst (HasRoom b a) (sym (k.1 (ground (arith, named)))) room) k.0 e)
        (λ x k e.
          skip-fits t (update_where p f tasks) g adds x (bytes_moved x.id) (artifacts_moved x.id)
            k.0 e)
        (All-zip _ _ jobs h.all_fit (Distinct-All (λ i. i.id) j jobs h.job_ids row));
}
  where
    row : Row j jobs
    row = (find_where-Row (job_named t.job_id) jobs j found).0

    named : job_named t.job_id j ≡ true
    named = (find_where-Row (job_named t.job_id) jobs j found).1

    nothing : (t.byte_budget_reserved ≡ 0) × (t.artifact_budget_reserved ≡ 0)
    nothing = All-Row IsIdle t tasks picks.row h.idle waiting

    bytes_moved :
        (id : ℕ)
        → bytes_in (update_where p f tasks) id
          ≡ bytes_in tasks id + (if id == t.job_id then b else 0)
    bytes_moved id = ground (
      arith,
      sum_of-update_one (bytes_of id) p f (λ x. x.id) t tasks picks.only picks.hits h.task_ids
          picks.row,
      nothing.0,
      (res.keys t).1,
      res.bytes t,
    )

    artifacts_moved :
        (id : ℕ)
        → artifacts_in (update_where p f tasks) id
          ≡ artifacts_in tasks id + (if id == t.job_id then a else 0)
    artifacts_moved id = ground (
      arith,
      sum_of-update_one (artifacts_of id) p f (λ x. x.id) t tasks picks.only picks.hits h.task_ids
          picks.row,
      nothing.1,
      (res.keys t).1,
      res.artifacts t,
    )
