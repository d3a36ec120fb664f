-- ===== src/Queue/Exclusive/Lease.antt =====
-- The leases of the queue under heartbeats, navigations and the reaper of app/crawl/repository.py.
use crawltrove.Base.{
  ℕ, ◌+◌, refl, false, none, some, List, [], ◌∷◌, if_cases, leb, Option-cases, inl, inr,
  select_where,
}
use crawltrove.Queue.States.{permanent_failed, transport}
use crawltrove.Queue.Rows.{Task, OriginLease, Db}
use crawltrove.Queue.Results.{Yields, Keeps, Yields-bind}
use crawltrove.Queue.Ledger.{reconcile_abandoned}
use crawltrove.Queue.Settle.{Fenced, fenced_task, finish_attempt}
use crawltrove.Queue.Terminal.{is_held, reject_inactive_lease}
use crawltrove.Queue.Frame.{reconcile_abandoned-Keeps, reject_inactive_lease-Keeps}
use crawltrove.Queue.Lease.{
  heartbeat, extend_task, is_lease_row, extend_lease, reserve_browser_navigation, expire_lease,
  reap_lease, fenced_by, reap_row, reap_rows, reap_expired_leases, lease_is_over,
}
use crawltrove.Queue.Exclusive.{Exclusive, IsLeaseFor, Exclusive-tasks, Exclusive-leases}
use crawltrove.Queue.Exclusive.Ends.{
  ExclusiveOn, fenced-Exclusive, release_lease-Exclusive, terminalize-Exclusive,
  requeue_task-Unleases,
}

extend_lease-IsLeaseFor :
    (now : ℕ) (t : Task) (l : OriginLease) → IsLeaseFor t l → IsLeaseFor t (extend_lease now l)
unfolding extend_lease
extend_lease-IsLeaseFor now t l h = record {
  task_id = h.task_id;
  origin_key = h.origin_key;
  token = h.token;
}

pub heartbeat-Exclusive :
    (db : Db) (now id token : ℕ) → Exclusive db → Keeps Exclusive (heartbeat db now id token)
unfolding heartbeat
heartbeat-Exclusive db now id token h =
    fenced-Exclusive db now (fenced_task db id token) false _ h λ f.
      Exclusive-leases (is_lease_row id token) (extend_lease now) (extend_lease-IsLeaseFor now)
        (unfold extend_lease in λ l. refl)
        (Exclusive-tasks (is_held f.task) (extend_task now)
          (unfold extend_task in
            λ t _ e. record { id = refl; origin_key = refl; token = refl; leased = e })
          h)

pub reserve_browser_navigation-Exclusive :
    (db : Db) (now id token : ℕ)
    → Exclusive db
    → Keeps Exclusive (reserve_browser_navigation db now id token)
unfolding reserve_browser_navigation
reserve_browser_navigation-Exclusive db now id token h =
    fenced-Exclusive db now (fenced_task db id token) false _ h (λ f. h)

expire_lease-Exclusive :
    (db : Db) (now : ℕ) (t : Task) → Exclusive db → Exclusive (expire_lease db now t)
unfolding expire_lease finish_attempt
expire_lease-Exclusive db now t h =
    if_cases Exclusive (leb t.max_attempts t.attempt_count) _ _
      (λ _.
        terminalize-Exclusive db now t permanent_failed (some transport) (some "lease_expired") refl
          h)
      (λ _.
        release_lease-Exclusive db t _ (requeue_task-Unleases now now transport "lease_expired") h)

reap_lease-Exclusive :
    (db : Db) (now : ℕ) (f : Fenced) → Exclusive db → Yields Exclusive (reap_lease now f db)
unfolding reap_lease
reap_lease-Exclusive db now f h =
    Yields-bind (λ r. Exclusive r.0) Exclusive (reject_inactive_lease db now f) _
      (reject_inactive_lease-Keeps ExclusiveOn db now f h
        (λ state cls code free. terminalize-Exclusive db now f.task state cls code free h))
      (λ r k. if_cases Exclusive r.1 _ _ (λ _. k) (λ _. expire_lease-Exclusive db now f.task h))

reap_row-Exclusive :
    (db : Db) (now : ℕ) (t : Task) → Exclusive db → Keeps Exclusive (reap_row now t db)
unfolding reap_row
reap_row-Exclusive db now t h = elim (Option-cases (fenced_by db t.id t.lease_token)) [
  | inl e ↦ rw (e, reap_row) h
  | inr (f, e) ↦
      rw (e, reap_row)
        (Yields-bind Exclusive (λ r. Exclusive r.0) (reap_lease now f db) _
          (reap_lease-Exclusive db now f h) (λ d k. k))
]

reap_rows-Exclusive :
    (now : ℕ) (rows : List Task) (db : Db) (n : ℕ)
    → Exclusive db
    → Keeps Exclusive (reap_rows now rows db n)
unfolding reap_rows
reap_rows-Exclusive now [] db n h = h
reap_rows-Exclusive now (t ∷ rest) db n h =
    Yields-bind (λ r. Exclusive r.0) (λ r. Exclusive r.0) (reap_row now t db) _
      (reap_row-Exclusive db now t h) (λ r k. reap_rows-Exclusive now rest r.0 (n + r.1) k)

pub reap_expired_leases-Exclusive :
    (db : Db) (now : ℕ) → Exclusive db → Keeps Exclusive (reap_expired_leases db now)
unfolding reap_expired_leases
reap_expired_leases-Exclusive db now h =
    Yields-bind (λ r. Exclusive r.0) (λ r. Exclusive r.0) (reconcile_abandoned db now none) _
      (reconcile_abandoned-Keeps ExclusiveOn db now none h)
      (λ r k. reap_rows-Exclusive now (select_where (lease_is_over now) r.0.tasks) r.0 0 k)
