-- ===== src/Sessions/Park.antt =====
-- `wait_for_input_local` of app/acquisition/sessions.py.
use crawltrove.Base.{
  ℕ, ◌+◌, ◌*◌, min, String, Bool, false, Option, none, some, [], ◌∷◌, ◌++◌, ◌&&◌, ◌||◌, not,
  if◌then◌else◌, str_eq, ◌==◌, leb, update_where, delete_where, find_where, exists_where,
}
use crawltrove.Queue.States.{waiting, waiting_input}
use crawltrove.Queue.Rows.{Task, Attempt, LiveSession, EventMetadata, Db}
use crawltrove.Queue.Ledger.{job_named, task_named}
use crawltrove.Queue.Settle.{Fenced, holds, with_job, log_event, release_budget}
use crawltrove.Queue.Claim.{ClaimedTask, is_live}

-- the task that the claim holds for this worker, with its job live
abbrev pub holds_for : ℕ → ℕ → String → Task → Bool
holds_for id token worker t = holds id token t && owned t.lease_owner
  where
    owned : Option String → Bool
    owned none = false
    owned (some w) = str_eq w worker

abbrev pub live_fence : ℕ → Option Fenced → Option Fenced
live_fence now none = none
live_fence now (some f) = if is_live now f.job then some f else none

unfoldable pub park_task : ℕ → Task → Task
park_task now t = record t {
  state = waiting_input;
  error_code = some "human_input_required";
  lease_owner = none;
  lease_token = none;
  lease_expires_at = none;
  byte_budget_reserved = 0;
  artifact_budget_reserved = 0;
  updated_at = now;
}

abbrev pub is_claimed_attempt : ClaimedTask → Attempt → Bool
is_claimed_attempt c a = a.task_id == c.id && a.attempt_number == c.attempt

abbrev pub park_attempt : ℕ → Attempt → Attempt
park_attempt now a = record a {
  finished_at = some now;
  outcome = some "waiting_input";
  actual_cost = [];
}

abbrev pub new_session : ℕ → ClaimedTask → String → ℕ → LiveSession
new_session id c backend expires = record {
  id = id;
  task_id = c.id;
  backend = backend;
  worker_id = none;
  state = waiting;
  expires_at = expires;
  last_seen_at = none;
  closed_at = none;
}

-- The writes of `wait_for_input_local`; the row of the task is locked.
unfoldable pub park : Db → ℕ → ClaimedTask → String → ℕ → ℕ → Fenced → Db
unfolding park_task release_budget
park db now c backend session expires f =
    log_event
      (record db {
        sessions = db.sessions ++ new_session session c backend expires ∷ [];
        tasks = update_where (task_named c.id) (park_task now) db.tasks;
        leases = delete_where (λ l. l.task_id == c.id && l.lease_token == c.lease_token) db.leases;
        jobs = update_where (job_named f.task.job_id) (release_budget f.task) db.jobs;
        attempts = update_where (is_claimed_attempt c) (park_attempt now) db.attempts;
      })
      f.task.job_id (some c.id) "task_waiting_input" (EventMetadata.session session backend)

-- UNIQUE (task_id) of live_sessions: a task is parked once
abbrev pub was_parked : Db → ℕ → Bool
was_parked db id = exists_where (λ s. s.task_id == id) db.sessions

abbrev pub is_valid_request : String → ℕ → Bool
is_valid_request worker ttl = leb 300 ttl && leb ttl 3600 && not (str_eq worker "")

-- `wait_for_input_local`: the handle's expiry, or `none` where it raises: on an invalid request, a
-- lease that is no longer active, or the violation of a constraint. The pattern of the backend's
-- name is not checked here.
unfoldable pub wait_for_input_local : Db → ℕ → ClaimedTask → String → String → ℕ → ℕ → Db × Option ℕ
unfolding park
wait_for_input_local db now c backend worker ttl session =
    elim (live_fence now
      (with_job db (find_where (holds_for c.id c.lease_token worker) db.tasks))) [
        | none ↦ (db, none)
        | some f ↦
            let expires = min (now + ttl * 1000) f.job.deadline_at in
            if was_parked db c.id || not (is_valid_request worker ttl)
            then (db, none)
            else (park db now c backend session expires f, some expires)
      ]
