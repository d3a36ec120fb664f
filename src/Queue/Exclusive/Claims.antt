-- ===== src/Queue/Exclusive/Claims.antt =====
-- The leases of the queue under `claim_task` and `resume_live_session` of app/crawl/repository.py,
-- which take an origin only when it has no lease.
use crawltrove.Base.{
  ℕ, ◌≡◌, refl, sym, ◌∙◌, String, true, false, Option, List, ◌||◌, not, if_cases, ltb, leb, arith,
  str_eq, eq_iff, coalesce, Option-cases, inl, inr, find_where, exists_where, exists_where-none,
  least_where, least_where-Row, All, All-weaken, Row, Distinct,
}
use crawltrove.Queue.Rows.{Job, Task, Origin, OriginLease, Db}
use crawltrove.Queue.Ledger.{job_named, task_named}
use crawltrove.Queue.Claim.{
  ClaimedTask, claim_task, claim_found, claim_origin, claim_budget, grant, is_claimable,
  claims_before, is_live, ensure_origin, origin_named, is_future, blocked_until, postpone_task,
  postpone, probe_circuit, is_open_circuit, lease_on, byte_allowance, artifact_allowance,
  origin_lease, start_task, lease_task,
}
use crawltrove.Queue.Lease.{
  resume_live_session, resume_found, grant_resumed, resumable, is_resumable,
}
use crawltrove.Queue.Budget.Leased.{IsResumable, resumable_task-IsResumable}
use crawltrove.Queue.Exclusive.{Exclusive, IsLeaseFor, Exclusive-tasks, Exclusive-lease}
use crawltrove.Queue.Exclusive.Ends.{drain_unleased-Exclusive}

-- What a grant needs of the store: the leases are exclusive, and the task is the row of its id.
abbrev Grantable : Task → Db → Type 0
Grantable t db = Exclusive db × Row t db.tasks × Distinct (λ (x : Task). x.id) db.tasks

abbrev Leaves : Db × Option ClaimedTask → Type 0
Leaves r = Exclusive r.0

impossible : false ≡ true → ⊥
impossible e = cc

alone :
    (key : String) (leases : List OriginLease)
    → exists_where (lease_on key) leases ≡ false
    → All (λ (l : OriginLease). ¬ (l.origin_key ≡ key)) leases
alone key leases h =
    All-weaken leases (λ l e q. differ l e q) (exists_where-none (lease_on key) leases h)
  where
    differ : (l : OriginLease) → str_eq l.origin_key key ≡ false → l.origin_key ≡ key → ⊥
    differ l e q = absurd (impossible (sym e ∙ (eq_iff l.origin_key key).1 q))

postpone-Exclusive :
    (db : Db) (now id until : ℕ) → Exclusive db → Exclusive (postpone_task db now id until)
postpone-Exclusive db now id until h =
    Exclusive-tasks (task_named id) (postpone now until)
      (unfold postpone in
        λ t _ e. record { id = refl; origin_key = refl; token = refl; leased = e })
      h

module _ (now : ℕ) (worker : String) (token attempt : ℕ) (t : Task) (j : Job) where
  start_task-IsLeaseFor :
      (bytes artifacts : ℕ)
      → IsLeaseFor (start_task now worker token bytes artifacts t) (origin_lease t token now)
  unfolding start_task lease_task
  start_task-IsLeaseFor bytes artifacts = record { task_id = refl; origin_key = refl; token = refl }

  grant-Exclusive :
      (db : Db) (bytes artifacts : ℕ)
      → exists_where (lease_on t.origin_key) db.leases ≡ false
      → Grantable t db
      → Leaves (grant db now worker token attempt t j bytes artifacts)
  unfolding grant
  grant-Exclusive db bytes artifacts free h =
      Exclusive-lease t (task_named t.id) (start_task now worker token bytes artifacts)
        (origin_lease t token now) (λ x e. ground arith) (start_task-IsLeaseFor bytes artifacts) h.1
        h.2 (alone t.origin_key db.leases free) h.0

  claim_budget-Exclusive :
      (db : Db)
      → exists_where (lease_on t.origin_key) db.leases ≡ false
      → Grantable t db
      → Leaves (claim_budget db now worker token attempt t j)
  unfolding claim_budget
  claim_budget-Exclusive db free h =
      if_cases Leaves (leb (byte_allowance j t) 0 || leb (artifact_allowance j) 0) _ _
        (λ _. drain_unleased-Exclusive db now t.job_id _ h.0) (λ _. grant-Exclusive db _ _ free h)

  claim_origin-Exclusive :
      (db : Db) (o : Origin)
      → Grantable t db
      → Leaves (claim_origin db now worker token attempt t j o)
  unfolding claim_origin
  claim_origin-Exclusive db o h =
      if_cases Leaves (is_future now (blocked_until o)) _ _
        (λ _. postpone-Exclusive db now t.id (coalesce (blocked_until o) now) h.0)
        (λ _.
          if_cases Leaves (ltb now o.next_request_at) _ _
            (λ _. postpone-Exclusive (probe_circuit db now o) now t.id o.next_request_at probed.0)
            (λ _.
              if_cases Leaves (exists_where (lease_on t.origin_key) (probe_circuit db now o).leases)
                _ _ (λ _. probed.0)
                (λ free. claim_budget-Exclusive (probe_circuit db now o) free probed)))
    where
      probed : Grantable t (probe_circuit db now o)
      probed = if_cases (Grantable t) (is_open_circuit o.circuit_state) _ db (λ _. h) (λ _. h)

  claim_found-Exclusive :
      (db : Db) → Grantable t db → Leaves (claim_found db now worker token attempt t j)
  unfolding claim_found
  claim_found-Exclusive db h =
      if_cases Leaves (not (is_live now j)) _ _ (λ _. h.0)
        (λ _.
          elim (Option-cases
            (find_where (origin_named t.origin_key) (ensure_origin db now t.origin_key).origins)) [
              | inl e ↦ rw e ready.0
              | inr (o, e) ↦
                  rw e (claim_origin-Exclusive (ensure_origin db now t.origin_key) o ready)
            ])
    where
      ready : Grantable t (ensure_origin db now t.origin_key)
      ready =
          unfold ensure_origin in
          if_cases (Grantable t) (exists_where (origin_named t.origin_key) db.origins) db _ (λ _. h)
            (λ _. h)

pub claim_task-Exclusive :
    (db : Db) (now : ℕ) (worker : String) (capabilities : List String) (token attempt : ℕ)
    → Distinct (λ (x : Task). x.id) db.tasks
    → Exclusive db
    → Exclusive (claim_task db now worker capabilities token attempt).0
unfolding claim_task
claim_task-Exclusive db now worker capabilities token attempt ids h =
    elim (Option-cases (least_where (is_claimable db now capabilities) claims_before db.tasks)) [
      | inl e ↦ rw (e, claim_task) h
      | inr (t, e) ↦
          let (row, ok) =
            least_where-Row (is_claimable db now capabilities) claims_before db.tasks t e in
          elim (Option-cases (find_where (job_named t.job_id) db.jobs)) [
            | inl q ↦ rw (e, q, claim_task) h
            | inr (j, q) ↦
                rw (e, q, claim_task)
                  (claim_found-Exclusive now worker token attempt t j db (h, row, ids))
          ]
    ]

pub resume_live_session-Exclusive :
    (db : Db) (now session : ℕ) (worker : String) (token : ℕ)
    → Distinct (λ (x : Task). x.id) db.tasks
    → Exclusive db
    → Exclusive (resume_live_session db now session worker token).0
unfolding resume_live_session resume_found grant_resumed
resume_live_session-Exclusive db now session worker token ids h =
    elim (Option-cases (resumable db now session)) [
      | inl e ↦ rw (e, resume_live_session) h
      | inr (f, e) ↦
          let found : IsResumable db f =
            unfold resumable in
            resumable_task-IsResumable db now (find_where (is_resumable now session) db.sessions) f
              e in
          rw (e, resume_live_session)
            (if_cases Leaves
              (exists_where (lease_on f.task.origin_key) db.leases
                || leb (byte_allowance f.job f.task) 0
                || leb (artifact_allowance f.job) 0)
              _ _ (λ _. h)
              (λ k.
                Exclusive-lease f.task (task_named f.task.id) (lease_task now worker token _ _)
                  (origin_lease f.task token now) (λ x q. ground arith)
                  (unfold lease_task in record { task_id = refl; origin_key = refl; token = refl })
                  found.row ids (alone f.task.origin_key db.leases (ground (arith, k))) h))
    ]
