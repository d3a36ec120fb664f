-- ===== src/Sessions/Budget.antt =====
-- The byte budgets of the queue under the sessions of app/acquisition/sessions.py.
use crawltrove.Base.{
  ℕ, ◌+◌, ◌-◌, ◌≡◌, refl, ap, subst, String, Bool, true, false, not, Option, none, some, List, [],
  ◌∷◌, ◌&&◌, ◌||◌, if◌then◌else◌, if_cases, ◌==◌, arith, update_where, find_where, find_where-Row,
  select_where, Row, All-Row, Option-cases, Bool-cases, ◌∙◌, inl, inr, and-eq-true,
}
use crawltrove.Queue.States.{TaskState, is_leased, is_closed_session}
use crawltrove.Queue.Rows.{Job, Task, LiveSession, Db}
use crawltrove.Queue.Ledger.{job_named, task_named}
use crawltrove.Queue.Settle.{Fenced, with_job, release_budget}
use crawltrove.Queue.Claim.{ClaimedTask}
use crawltrove.Queue.Fence.{with_job-some}
use crawltrove.Queue.Lease.{is_waiting}
use crawltrove.Queue.Budget.{Budget, IsBudgeted, IsIdle, SameReserve, SameBudget}
use crawltrove.Queue.Budget.Statements.{Budget-tasks, Budget-jobs}
use crawltrove.Queue.Budget.Leases.{Picks, Frees, Budget-settle}
use crawltrove.Queue.Budget.Ends.{Budget-close}
use crawltrove.Queue.Budget.Claimed.{id-Picks}
use crawltrove.Sessions.{
  holds_for, live_fence, park_task, park, wait_for_input_local, was_parked, is_valid_request,
  CloseReason, close_session_task, count_closed, free_leased, end_session_task, is_ended_by,
  end_task_of, is_done, close, is_due, time_out_task, is_parked, expire_row, expire_rows,
  expire_due,
}

park_task-Frees : (now : ℕ) → Frees (park_task now)
unfolding park_task
park_task-Frees now = record { keys = λ t. (refl, refl); bytes = λ x. refl; artifacts = λ x. refl }

live_fence-some :
    (now : ℕ) (o : Option Fenced) (f : Fenced) → live_fence now o ≡ some f → o ≡ some f
live_fence-some now none f h = cc
live_fence-some now (some g) f h = ground arith

-- Parking a task gives back what it had reserved.
pub wait_for_input_local-Budget :
    (db : Db) (now : ℕ) (c : ClaimedTask) (backend worker : String) (ttl session : ℕ)
    → Budget 0 0 0 db
    → Budget 0 0 0 (wait_for_input_local db now c backend worker ttl session).0
unfolding wait_for_input_local park
wait_for_input_local-Budget db now c backend worker ttl session h =
    elim (Option-cases
      (live_fence now (with_job db (find_where (holds_for c.id c.lease_token worker) db.tasks)))) [
        | inl e ↦ rw (e, wait_for_input_local) h
        | inr (f, e) ↦
            let fenced = (with_job-some db _ f (live_fence-some now _ f e)).0 in
            let (row, held) =
              find_where-Row (holds_for c.id c.lease_token worker) db.tasks f.task fenced in
            let named : f.task.id ≡ c.id = ground arith in
            rw (e, wait_for_input_local)
              (if_cases (λ (r : Db × Option ℕ). Budget 0 0 0 r.0)
                (was_parked db c.id || not (is_valid_request worker ttl)) _ _ (λ _. h)
                (λ _. Budget-close 0 (
                  Budget-settle f.task (task_named c.id) (park_task now)
                    (subst (λ i. Picks f.task (task_named i) db.tasks) named (id-Picks f.task row))
                    (park_task-Frees now) h)))
      ]

close_session_task-Frees : (now : ℕ) (reason : CloseReason) → Frees (close_session_task now reason)
unfolding close_session_task
close_session_task-Frees now reason = record {
  keys = λ t. (refl, refl);
  bytes = λ x. refl;
  artifacts = λ x. refl;
}

count_closed-same : (n : ℕ) (j : Job) → SameBudget (count_closed n j) j
unfolding count_closed
count_closed-same n j = record {
  id = refl;
  max_bytes = refl;
  max_artifact_bytes = refl;
  downloaded = refl;
  reserved = refl;
  artifacts = refl;
  reserved_artifacts = refl;
}

update_where-same :
    {A : Type 0} (p : A → Bool) (f : A → A) (xs : List A)
    → ((x : A) → f x ≡ x)
    → update_where p f xs ≡ xs
unfolding update_where
update_where-same p f [] h = refl
update_where-same p f (x ∷ xs) h =
    ◌∙◌ (ap (λ y. (if p x then y else x) ∷ update_where p f xs) (h x)) (
      ◌∙◌ (ap (λ ys. (if p x then x else x) ∷ ys) (update_where-same p f xs h))
        (ap (λ y. y ∷ xs) (if_cases (λ y. y ≡ x) (p x) x x (λ _. refl) (λ _. refl))))

-- A task that reserves nothing has nothing to give back.
release_budget-zero :
    (t : Task) (j : Job)
    → t.byte_budget_reserved ≡ 0
    → t.artifact_budget_reserved ≡ 0
    → release_budget t j ≡ j
unfolding release_budget
release_budget-zero t j b a =
    rw (b, a)
      (λ i. record j {
        reserved_bytes = minus_zero j.reserved_bytes i;
        reserved_artifact_bytes = minus_zero j.reserved_artifact_bytes i;
      })
  where
    minus_zero : (n : ℕ) → n - 0 ≡ n
    minus_zero n = omega arith

abbrev FreedBudget : Task → List Task → List Job → Type 0
FreedBudget t tasks jobs =
    IsBudgeted t.job_id t.byte_budget_reserved t.artifact_budget_reserved jobs tasks

end_session_task-Budget :
    (db : Db) (now : ℕ) (reason : CloseReason) (t : Task)
    → Row t db.tasks
    → Budget 0 0 0 db
    → Budget 0 0 0 (end_session_task db now reason t)
unfolding end_session_task free_leased
end_session_task-Budget db now reason t row h = elim (Bool-cases (is_leased t.state)) [
  | inl e ↦
      rw (e, end_session_task, free_leased)
        (Budget-jobs (job_named t.job_id) _ (count_closed-same _) (Budget-close 0 settled))
  | inr e ↦
      let zero = All-Row IsIdle t db.tasks row h.idle e in
      let same =
        update_where-same (job_named t.job_id) (release_budget t) db.jobs
          (λ j. release_budget-zero t j zero.0 zero.1) in
      rw (e, end_session_task, free_leased)
        (Budget-jobs (job_named t.job_id) _ (count_closed-same _) (
          Budget-close 0 (
            subst
              (FreedBudget t
                (update_where (task_named t.id) (close_session_task now reason) db.tasks))
              same settled)))
]
  where
    settled :
        FreedBudget t
          (update_where (task_named t.id) (close_session_task now reason) db.tasks)
          (update_where (job_named t.job_id) (release_budget t) db.jobs)
    settled =
        Budget-settle t (task_named t.id) (close_session_task now reason) (id-Picks t row)
          (close_session_task-Frees now reason) h

end_task_of-Budget :
    (db : Db) (now : ℕ) (reason : CloseReason) (worker : Option String) (o : Option Task)
    → ((t : Task) → o ≡ some t → Row t db.tasks)
    → Budget 0 0 0 db
    → Budget 0 0 0 (end_task_of db now reason worker o)
end_task_of-Budget db now reason worker none rows h = h
end_task_of-Budget db now reason worker (some t) rows h =
    if_cases (Budget 0 0 0) (is_ended_by reason worker t) _ db
      (λ _. end_session_task-Budget db now reason t (rows t refl) h) (λ _. h)

-- Closing a session ends its task, leased or parked, and gives back what it had reserved.
pub close-Budget :
    (db : Db) (now id : ℕ) (reason : CloseReason) (worker : Option String)
    → Budget 0 0 0 db
    → Budget 0 0 0 (close db now id reason worker).0
unfolding close
close-Budget db now id reason worker h =
    elim (Option-cases
      (find_where (λ s. s.id == id && not (is_closed_session s.state)) db.sessions)) [
        | inl e ↦ rw (e, close) h
        | inr (s, e) ↦
            rw (e, close)
              (if_cases (λ (r : Db × Bool). Budget 0 0 0 r.0)
                (is_done (find_where (task_named s.task_id) db.tasks)) _ _ (λ _. h)
                (λ _.
                  end_task_of-Budget db now reason worker
                    (find_where (task_named s.task_id) db.tasks)
                    (λ t k. (find_where-Row (task_named s.task_id) db.tasks t k).0) h))
      ]

is_waiting-unleased : (s : TaskState) → is_waiting s ≡ true → is_leased s ≡ false
is_waiting-unleased s h = ground arith

time_out_task-same :
    (now id : ℕ) (t : Task) → IsIdle t → is_parked id t ≡ true → SameReserve (time_out_task now t) t
unfolding time_out_task
time_out_task-same now id t idle e =
    let zero = idle (is_waiting-unleased t.state (and-eq-true _ _ e).1) in
    record { bytes = refl; artifacts = refl; idle = λ _. zero }

expire_row-Budget :
    (now : ℕ) (s : LiveSession) (db : Db) → Budget 0 0 0 db → Budget 0 0 0 (expire_row now s db).0
unfolding expire_row time_out_task
expire_row-Budget now s db h = elim (Option-cases (find_where (is_parked s.task_id) db.tasks)) [
  | inl e ↦ rw (e, expire_row) h
  | inr (t, e) ↦
      rw (e, expire_row)
        (Budget-jobs (job_named t.job_id) _ (count_closed-same 1) (
          Budget-tasks (is_parked s.task_id) (time_out_task now) (λ x. (refl, refl))
            (time_out_task-same now s.task_id) h))
]

expire_rows-Budget :
    (now : ℕ) (rows : List LiveSession) (db : Db) (n : ℕ)
    → Budget 0 0 0 db
    → Budget 0 0 0 (expire_rows now rows db n).0
unfolding expire_rows
expire_rows-Budget now [] db n h = h
expire_rows-Budget now (s ∷ rest) db n h =
    expire_rows-Budget now rest (expire_row now s db).0 (n + (expire_row now s db).1)
      (expire_row-Budget now s db h)

-- Sessions that ran out end their parked tasks, which reserve nothing.
pub expire_due-Budget : (db : Db) (now : ℕ) → Budget 0 0 0 db → Budget 0 0 0 (expire_due db now).0
unfolding expire_due
expire_due-Budget db now h = expire_rows-Budget now (select_where (is_due now) db.sessions) _ 0 h
