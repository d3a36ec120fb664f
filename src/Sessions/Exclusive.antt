-- ===== src/Sessions/Exclusive.antt =====
-- The leases of the queue under the sessions of app/acquisition/sessions.py.
use crawltrove.Base.{
  ℕ, ◌+◌, ◌≡◌, refl, String, Bool, false, not, Option, none, some, List, [], ◌∷◌, ◌&&◌, ◌||◌,
  if_cases, ◌==◌, arith, find_where, select_where, Option-cases, Bool-cases, inl, inr,
}
use crawltrove.Queue.States.{is_leased, is_closed_session}
use crawltrove.Queue.Rows.{Task, OriginLease, LiveSession, Db}
use crawltrove.Queue.Ledger.{task_named}
use crawltrove.Queue.Settle.{with_job}
use crawltrove.Queue.Claim.{ClaimedTask}
use crawltrove.Queue.Exclusive.{Exclusive, IsLeaseFor, Exclusive-tasks, Exclusive-end}
use crawltrove.Queue.Exclusive.Ends.{Unleases-KeepsLease}
use crawltrove.Sessions.{
  holds_for, live_fence, park_task, park, wait_for_input_local, was_parked, is_valid_request,
  CloseReason, close_session_task, free_leased, end_session_task, is_ended_by, end_task_of, is_done,
  close, is_due, time_out_task, is_parked, expire_row, expire_rows, expire_due,
}

spares_parked :
    (id token : ℕ) (t : Task) (l : OriginLease)
    → task_named id t ≡ false
    → IsLeaseFor t l
    → l.task_id == id && l.lease_token == token ≡ false
spares_parked id token t l e h = ground (arith, e, h.task_id)

spares_named :
    (id : ℕ) (t : Task) (l : OriginLease)
    → task_named id t ≡ false
    → IsLeaseFor t l
    → l.task_id == id ≡ false
spares_named id t l e h = ground (arith, e, h.task_id)

-- A parked task gives up its lease.
pub wait_for_input_local-Exclusive :
    (db : Db) (now : ℕ) (c : ClaimedTask) (backend worker : String) (ttl session : ℕ)
    → Exclusive db
    → Exclusive (wait_for_input_local db now c backend worker ttl session).0
unfolding wait_for_input_local park
wait_for_input_local-Exclusive db now c backend worker ttl session h =
    elim (Option-cases
      (live_fence now (with_job db (find_where (holds_for c.id c.lease_token worker) db.tasks)))) [
        | inl e ↦ rw (e, wait_for_input_local) h
        | inr (f, e) ↦
            rw (e, wait_for_input_local)
              (if_cases (λ (r : Db × Option ℕ). Exclusive r.0)
                (was_parked db c.id || not (is_valid_request worker ttl)) _ _ (λ _. h)
                (λ _.
                  Exclusive-end (task_named c.id) (park_task now)
                    (λ l. l.task_id == c.id && l.lease_token == c.lease_token)
                    (unfold park_task in λ t _. refl) (spares_parked c.id c.lease_token) h))
      ]

closing_unleased :
    (reason : CloseReason) (now : ℕ) (t : Task)
    → is_leased (close_session_task now reason t).state ≡ false
unfolding close_session_task
closing_unleased CloseReason.cancelled now t = refl
closing_unleased CloseReason.expired now t = refl

end_session_task-Exclusive :
    (db : Db) (now : ℕ) (reason : CloseReason) (t : Task)
    → Exclusive db
    → Exclusive (end_session_task db now reason t)
unfolding end_session_task free_leased
end_session_task-Exclusive db now reason t h = elim (Bool-cases (is_leased t.state)) [
  | inl e ↦
      rw (e, end_session_task, free_leased)
        (Exclusive-end (task_named t.id) (close_session_task now reason) (λ l. l.task_id == t.id)
          (λ x _. closing_unleased reason now x) (spares_named t.id) h)
  | inr e ↦
      rw (e, end_session_task, free_leased)
        (Exclusive-tasks (task_named t.id) (close_session_task now reason)
          (Unleases-KeepsLease (task_named t.id) (close_session_task now reason)
            (closing_unleased reason now))
          h)
]

end_task_of-Exclusive :
    (db : Db) (now : ℕ) (reason : CloseReason) (worker : Option String) (o : Option Task)
    → Exclusive db
    → Exclusive (end_task_of db now reason worker o)
end_task_of-Exclusive db now reason worker none h = h
end_task_of-Exclusive db now reason worker (some t) h =
    if_cases Exclusive (is_ended_by reason worker t) _ db
      (λ _. end_session_task-Exclusive db now reason t h) (λ _. h)

pub close-Exclusive :
    (db : Db) (now id : ℕ) (reason : CloseReason) (worker : Option String)
    → Exclusive db
    → Exclusive (close db now id reason worker).0
unfolding close
close-Exclusive db now id reason worker h =
    elim (Option-cases
      (find_where (λ s. s.id == id && not (is_closed_session s.state)) db.sessions)) [
        | inl e ↦ rw (e, close) h
        | inr (s, e) ↦
            rw (e, close)
              (if_cases (λ (r : Db × Bool). Exclusive r.0)
                (is_done (find_where (task_named s.task_id) db.tasks)) _ _ (λ _. h)
                (λ _.
                  end_task_of-Exclusive db now reason worker
                    (find_where (task_named s.task_id) db.tasks) h))
      ]

expire_row-Exclusive :
    (now : ℕ) (s : LiveSession) (db : Db) → Exclusive db → Exclusive (expire_row now s db).0
unfolding expire_row
expire_row-Exclusive now s db h = elim (Option-cases (find_where (is_parked s.task_id) db.tasks)) [
  | inl e ↦ rw (e, expire_row) h
  | inr (t, e) ↦
      rw (e, expire_row)
        (Exclusive-tasks (is_parked s.task_id) (time_out_task now)
          (Unleases-KeepsLease (is_parked s.task_id) (time_out_task now)
            (unfold time_out_task in λ x. refl))
          h)
]

expire_rows-Exclusive :
    (now : ℕ) (rows : List LiveSession) (db : Db) (n : ℕ)
    → Exclusive db
    → Exclusive (expire_rows now rows db n).0
unfolding expire_rows
expire_rows-Exclusive now [] db n h = h
expire_rows-Exclusive now (s ∷ rest) db n h =
    expire_rows-Exclusive now rest (expire_row now s db).0 (n + (expire_row now s db).1)
      (expire_row-Exclusive now s db h)

pub expire_due-Exclusive : (db : Db) (now : ℕ) → Exclusive db → Exclusive (expire_due db now).0
unfolding expire_due
expire_due-Exclusive db now h =
    expire_rows-Exclusive now (select_where (is_due now) db.sessions) _ 0 h
