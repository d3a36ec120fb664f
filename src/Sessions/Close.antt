-- ===== src/Sessions/Close.antt =====
-- `close` of app/acquisition/sessions.py.
use crawltrove.Base.{
  ℕ, ◌+◌, String, Bool, true, false, Option, none, some, ◌&&◌, ◌||◌, not, if◌then◌else◌, str_eq,
  ◌==◌, coalesce, update_where, delete_where, find_where,
}
use crawltrove.Queue.States.{
  TaskState, SessionState, permanent_failed, policy, transport, is_leased, is_closed_session,
  is_succeeded,
}
use crawltrove.Queue.Rows.{Job, Task, Attempt, LiveSession, EventMetadata, Db}
use crawltrove.Queue.Ledger.{job_named, task_named}
use crawltrove.Queue.Settle.{log_event, release_budget}
use crawltrove.Queue.Lease.{is_waiting}
use crawltrove.Sessions.Moves.{shut}

pub data CloseReason : Type 0 where
  cancelled expired : CloseReason

abbrev pub is_cancel : CloseReason → Bool
is_cancel CloseReason.cancelled = true
is_cancel CloseReason.expired = false

abbrev pub closing_state : CloseReason → SessionState
closing_state CloseReason.cancelled = SessionState.cancelled
closing_state CloseReason.expired = SessionState.expired

abbrev pub owned_by : Option String → Option String → Bool
owned_by none none = true
owned_by (some v) (some w) = str_eq v w
owned_by _ _ = false

unfoldable pub close_session_task : ℕ → CloseReason → Task → Task
close_session_task now reason t = record t {
  state = if is_cancel reason then TaskState.cancelled else permanent_failed;
  error_class = some (if is_cancel reason then policy else transport);
  error_code = some (if is_cancel reason then "human_input_cancelled" else "human_input_timeout");
  lease_owner = none;
  lease_token = none;
  lease_expires_at = none;
  byte_budget_reserved = 0;
  artifact_budget_reserved = 0;
  updated_at = now;
  finished_at = some now;
}

unfoldable pub count_closed : ℕ → Job → Job
count_closed n j = record j {
  terminal_count = j.terminal_count + 1;
  failed_count = j.failed_count + n;
}

abbrev pub last_attempt : Task → Attempt → Bool
last_attempt t a = a.task_id == t.id && a.attempt_number == t.attempt_count

abbrev pub close_attempt : ℕ → String → String → Attempt → Attempt
close_attempt now outcome code a = record a {
  finished_at = some (coalesce a.finished_at now);
  outcome = some outcome;
  error_code = some code;
}

-- A leased task gives back its budgets and its lease first.
unfoldable pub free_leased : Db → Task → Db
unfolding release_budget
free_leased db t =
    if is_leased t.state
    then record db {
      jobs = update_where (job_named t.job_id) (release_budget t) db.jobs;
      leases = delete_where (λ l. l.task_id == t.id) db.leases;
    }
    else db

unfoldable pub end_session_task : Db → ℕ → CloseReason → Task → Db
unfolding free_leased close_session_task count_closed
end_session_task db now reason t =
    let code = if is_cancel reason then "human_input_cancelled" else "human_input_timeout" in
    let freed = free_leased db t in
    log_event
      (record freed {
        tasks = update_where (task_named t.id) (close_session_task now reason) freed.tasks;
        attempts =
            update_where (last_attempt t)
              (close_attempt now (if is_cancel reason then "cancelled" else "failed") code)
              freed.attempts;
        jobs =
            update_where (job_named t.job_id) (count_closed (if is_cancel reason then 0 else 1))
              freed.jobs;
      })
      t.job_id (some t.id) (if is_cancel reason then "task_cancelled" else "task_permanent_failed")
      (EventMetadata.reason code)

-- The task is still the session's to end.
abbrev pub is_ended_by : CloseReason → Option String → Task → Bool
is_ended_by reason worker t =
    is_waiting t.state || is_leased t.state && (is_cancel reason || owned_by t.lease_owner worker)

abbrev pub end_task_of : Db → ℕ → CloseReason → Option String → Option Task → Db
end_task_of db now reason worker none = db
end_task_of db now reason worker (some t) =
    if is_ended_by reason worker t then end_session_task db now reason t else db

abbrev pub is_done : Option Task → Bool
is_done none = false
is_done (some t) = is_succeeded t.state

abbrev pub set_session : Db → ℕ → (LiveSession → LiveSession) → Db
set_session db id f = record db { sessions = update_where (λ s. s.id == id) f db.sessions }

-- `close`
unfoldable pub close : Db → ℕ → ℕ → CloseReason → Option String → Db × Bool
unfolding end_session_task
close db now id reason worker =
    elim (find_where (λ s. s.id == id && not (is_closed_session s.state)) db.sessions) [
      | none ↦ (db, false)
      | some s ↦
          let task = find_where (task_named s.task_id) db.tasks in
          if is_done task then (set_session db id (shut SessionState.closed now), true) else (
            set_session (end_task_of db now reason worker task) id
                (shut (closing_state reason) now),
            true,
          )
    ]
