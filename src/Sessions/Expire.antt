-- ===== src/Sessions/Expire.antt =====
-- `expire_due` of app/acquisition/sessions.py.
use crawltrove.Base.{
  ℕ, ◌+◌, Bool, none, some, List, [], ◌∷◌, ◌&&◌, not, ◌==◌, leb, update_where, find_where,
  select_where,
}
use crawltrove.Queue.States.{SessionState, permanent_failed, transport, is_closed_session}
use crawltrove.Queue.Rows.{Task, LiveSession, EventMetadata, Db}
use crawltrove.Queue.Ledger.{job_named}
use crawltrove.Queue.Settle.{log_event}
use crawltrove.Queue.Lease.{is_waiting}
use crawltrove.Sessions.Close.{count_closed, last_attempt, close_attempt}

abbrev pub is_due : ℕ → LiveSession → Bool
is_due now s = not (is_closed_session s.state) && leb s.expires_at now

abbrev pub expire_session : ℕ → LiveSession → LiveSession
expire_session now s = record s { state = SessionState.expired; closed_at = some now }

unfoldable pub time_out_task : ℕ → Task → Task
time_out_task now t = record t {
  state = permanent_failed;
  error_class = some transport;
  error_code = some "human_input_timeout";
  finished_at = some now;
  updated_at = now;
}

abbrev pub is_parked : ℕ → Task → Bool
is_parked id t = t.id == id && is_waiting t.state

-- One session of the loop of `expire_due`, and how many tasks it ended.
unfoldable pub expire_row : ℕ → LiveSession → Db → Db × ℕ
unfolding time_out_task count_closed
expire_row now s db = elim (find_where (is_parked s.task_id) db.tasks) [
  | none ↦ (db, 0)
  | some t ↦ (
    log_event
        (record db {
          tasks = update_where (is_parked s.task_id) (time_out_task now) db.tasks;
          attempts =
              update_where (last_attempt t) (close_attempt now "failed" "human_input_timeout")
                db.attempts;
          jobs = update_where (job_named t.job_id) (count_closed 1) db.jobs;
        })
        t.job_id (some t.id) "task_failed" (EventMetadata.reason "human_input_timeout"),
    1,
  )
]

unfoldable pub expire_rows : ℕ → List LiveSession → Db → ℕ → Db × ℕ
unfolding expire_row
expire_rows now [] db n = (db, n)
expire_rows now (s ∷ rest) db n =
    let (db', k) = expire_row now s db in expire_rows now rest db' (n + k)

-- `expire_due`
unfoldable pub expire_due : Db → ℕ → Db × ℕ
unfolding expire_rows
expire_due db now =
    expire_rows now (select_where (is_due now) db.sessions)
      (record db { sessions = update_where (is_due now) (expire_session now) db.sessions }) 0
