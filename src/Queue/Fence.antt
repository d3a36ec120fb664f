-- ===== src/Queue/Fence.antt =====
-- What `_fenced_task` of app/crawl/repository.py establishes of the row that it returns.
pub mod Once
pub mod Settled
use crawltrove.Base.{
  ℕ, ◌≡◌, refl, ap, subst, sym, ◌∙◌, Bool, true, false, Option, none, some, List, ◌&&◌, ◌==◌,
  ==_iff, is_some_eq, is_some_eq-some, sql_eq, and-eq-true, Option-cases, inl, inr, arith,
  find_where, find_where-Row, Row,
}
use mathlib.Core.Option.{some-injective}
use crawltrove.Queue.States.{is_leased}
use crawltrove.Queue.Rows.{Job, Task, Db}
use crawltrove.Queue.Ledger.{job_named}
use crawltrove.Queue.Settle.{Fenced, paired, holds, with_job, fenced_task}
use crawltrove.Queue.Terminal.{is_held}

-- `t` is a leased row of the table.
pub record IsHeld (tasks : List Task) (t : Task) : Type 0 where
  pub row : Row t tasks
  pub leased : is_leased t.state ≡ true
  pub token : ℕ
  pub has_token : t.lease_token ≡ some token

-- The row that the fence returns is held under the caller's token, beside its job.
pub record IsFenced (db : Db) (id token : ℕ) (f : Fenced) : Type 0 where
  pub row : Row f.task db.tasks
  pub named : f.task.id ≡ id
  pub leased : is_leased f.task.state ≡ true
  pub has_token : f.task.lease_token ≡ some token
  pub job : find_where (job_named f.task.job_id) db.jobs ≡ some f.job

paired-some :
    (t : Task) (o : Option Job) (f : Fenced) → paired t o ≡ some f → (t ≡ f.task) × (o ≡ some f.job)
paired-some t none f h = cc
paired-some t (some j) f h = (ap task_of (some-injective _ _ h), ap job_of (some-injective _ _ h))
  where
    task_of : Fenced → Task
    task_of f = f.task

    job_of : Fenced → Option Job
    job_of f = some f.job

pub with_job-some :
    (db : Db) (o : Option Task) (f : Fenced)
    → with_job db o ≡ some f
    → (o ≡ some f.task) × (find_where (job_named f.task.job_id) db.jobs ≡ some f.job)
with_job-some db none f h = cc
with_job-some db (some t) f h =
    let (e, j) = paired-some t (find_where (job_named t.job_id) db.jobs) f h in
    (ap some e, subst (λ x. find_where (job_named x.job_id) db.jobs ≡ some f.job) e j)

pub fenced_task-IsFenced :
    (db : Db) (id token : ℕ) (f : Fenced)
    → fenced_task db id token ≡ some f
    → IsFenced db id token f
unfolding fenced_task
fenced_task-IsFenced db id token f h =
    let (e, j) = with_job-some db (find_where (holds id token) db.tasks) f h in
    let (r, q) = find_where-Row (holds id token) db.tasks f.task e in
    record {
      row = r;
      named = ground arith;
      leased = ground arith;
      has_token = is_some_eq-some f.task.lease_token token (ground arith);
      job = j;
    }

pub IsFenced-IsHeld :
    (db : Db) (id token : ℕ) (f : Fenced) → IsFenced db id token f → IsHeld db.tasks f.task
IsFenced-IsHeld db id token f h = record {
  row = h.row;
  leased = h.leased;
  token = token;
  has_token = h.has_token;
}

pub is_held_self : {tasks : List Task} (t : Task) → IsHeld tasks t → is_held t t ≡ true
is_held_self t h = rw h.has_token (ground arith)
