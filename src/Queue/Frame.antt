-- ===== src/Queue/Frame.antt =====
-- The frame of the fenced transactions of app/crawl/repository.py: what their common parts keep.
pub mod Spending
use crawltrove.Base.{
  ℕ, ◌+◌, ◌≡◌, refl, String, Bool, true, false, Option, none, some, List, [], ◌∷◌, if◌then◌else◌,
  if_cases, str_eq, is_some, select_where,
}
use crawltrove.Queue.States.{is_leased, TaskState, ErrorClass, permanent_failed, policy}
use crawltrove.Queue.Rows.{Job, Task, OriginLease, Attempt, Amount, Usage, Db}
use crawltrove.Queue.Results.{Result, ok, err, Yields, Keeps, Yields-bind, Yields-after, ◌>>=◌}
use crawltrove.Queue.Meters.{native_cost, reported}
use crawltrove.Queue.Ledger.{
  reconcile_attempt, reconcile_all, reconcile_abandoned, consume_reserved, is_abandoned,
}
use crawltrove.Queue.Settle.{Fenced, deadline_expired}
use crawltrove.Queue.Terminal.{terminalize, reject, reject_inactive_lease, when_active}

-- Reconciling attempts writes the ledger and the attempts, and neither jobs, tasks nor leases.
module _ (P : List Job → List Task → List OriginLease → Type 0) where
  abbrev pub On : Db → Type 0
  On db = P db.jobs db.tasks db.leases

  reconcile_attempt-Keeps :
      (db : Db) (now : ℕ) (a : Attempt) → On db → Yields On (reconcile_attempt db now a)
  unfolding reconcile_attempt
  reconcile_attempt-Keeps db now a h =
      Yields-after On (native_cost a.route (reported a.reserved_cost)) _ λ cost e.
        Yields-after On
          (if str_eq cost.0 "local"
            then ok db.usage
            else consume_reserved db.usage a.job_id cost.0 cost.1)
          _ λ u q. h

  reconcile_all-Keeps :
      (now : ℕ) (attempts : List Attempt) (db : Db) (n : ℕ)
      → On db
      → Keeps On (reconcile_all now attempts db n)
  unfolding reconcile_all
  reconcile_all-Keeps now [] db n h = h
  reconcile_all-Keeps now (a ∷ rest) db n h =
      Yields-bind On (λ r. On r.0) (reconcile_attempt db now a) _
        (reconcile_attempt-Keeps db now a h) (λ d k. reconcile_all-Keeps now rest d (n + 1) k)

  pub reconcile_abandoned-Keeps :
      (db : Db) (now : ℕ) (task : Option ℕ) → On db → Keeps On (reconcile_abandoned db now task)
  unfolding reconcile_abandoned
  reconcile_abandoned-Keeps db now task h =
      reconcile_all-Keeps now (select_where (is_abandoned db now task) db.attempts) db 0 h

  -- An inactive lease: the task is ended, whatever its state becomes.
  pub reject_inactive_lease-Keeps :
      (db : Db) (now : ℕ) (f : Fenced)
      → On db
      → ((state : TaskState) (cls : Option ErrorClass) (code : Option String)
          → is_leased state ≡ false
          → On (terminalize db now f.task state cls code))
      → Keeps On (reject_inactive_lease db now f)
  unfolding reject_inactive_lease reject
  reject_inactive_lease-Keeps db now f h ended =
      if_cases (Keeps On) (is_some f.job.cancel_requested_at) _ _
        (λ _. rejected TaskState.cancelled none none refl)
        (λ _.
          if_cases (Keeps On) (deadline_expired now f) _ _
            (λ _. rejected permanent_failed (some policy) (some "deadline_exceeded") refl) (λ _. h))
    where
      rejected :
          (state : TaskState) (cls : Option ErrorClass) (code : Option String)
          → is_leased state ≡ false
          → Keeps On (reject db now f state cls code)
      rejected state cls code free =
          Yields-bind (λ r. On r.0) (λ r. On r.0)
            (reconcile_abandoned (terminalize db now f.task state cls code) now (some f.task.id)) _
            (reconcile_abandoned-Keeps (terminalize db now f.task state cls code) now
              (some f.task.id) (ended state cls code free))
            (λ r k. k)

  -- A fenced transaction keeps what its action, and the end of a void lease, keep.
  pub when_active-Keeps :
      {A : Type 0} (db : Db) (now : ℕ) (o : Option Fenced) (lost : A)
      (act : Fenced → Result (Db × A))
      → On db
      → ((f : Fenced) (state : TaskState) (cls : Option ErrorClass) (code : Option String)
          → o ≡ some f
          → is_leased state ≡ false
          → On (terminalize db now f.task state cls code))
      → ((f : Fenced) → o ≡ some f → Keeps On (act f))
      → Keeps On (when_active db now o lost act)
  when_active-Keeps db now none lost act h ended kept = h
  when_active-Keeps db now (some f) lost act h ended kept =
      Yields-bind (λ r. On r.0) (λ r. On r.0) (reject_inactive_lease db now f) _
        (reject_inactive_lease-Keeps db now f h (λ s c e free. ended f s c e refl free))
        (λ r k. if_cases (Keeps On) r.1 _ (act f) (λ _. k) (λ _. kept f refl))
