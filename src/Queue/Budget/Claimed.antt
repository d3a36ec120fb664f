-- ===== src/Queue/Budget/Claimed.antt =====
-- The budget invariant under the whole of `claim_task` and `resume_live_session` of
-- app/crawl/repository.py.
use crawltrove.Base.{
  ℕ, ◌≡◌, refl, String, true, false, not, Option, some, List, ◌||◌, if_cases, coalesce, ltb, leb,
  arith, exists_where, find_where, least_where, least_where-Row, Row, Option-cases, inl, inr,
  and-eq-true,
}
use crawltrove.Queue.States.{TaskState, is_leased, is_ready}
use crawltrove.Queue.Rows.{Job, Task, Origin, Db}
use crawltrove.Queue.Ledger.{job_named, task_named}
use crawltrove.Queue.Claim.{
  ClaimedTask, byte_allowance, artifact_allowance, reserve_budget, start_job, lease_task,
  start_task, grant, claim_budget, claim_origin, claim_found, claim_task, is_claimable,
  claims_before, is_live, ensure_origin, origin_named, probe_circuit, lease_on, is_future,
  blocked_until, postpone, postpone_task, is_open_circuit,
}
use crawltrove.Queue.Budget.{Budget}
use crawltrove.Queue.Budget.Statements.{Budget-tasks}
use crawltrove.Queue.Budget.Leases.{Picks}
use crawltrove.Queue.Budget.Ends.{drain_unleased-Budget}
use crawltrove.Queue.Budget.Claims.{Reserves, Adds, HasRoom, Budget-reserve}

start_task-Reserves :
    (now : ℕ) (worker : String) (token b a : ℕ) → Reserves b a (start_task now worker token b a)
unfolding start_task
start_task-Reserves now worker token b a = record {
  keys = λ t. (refl, refl);
  bytes = λ x. refl;
  artifacts = λ x. refl;
  leased = λ x. refl;
}

pub lease_task-Reserves :
    (now : ℕ) (worker : String) (token b a : ℕ) → Reserves b a (lease_task now worker token b a)
unfolding lease_task
lease_task-Reserves now worker token b a = record {
  keys = λ t. (refl, refl);
  bytes = λ x. refl;
  artifacts = λ x. refl;
  leased = λ x. refl;
}

start_job-Adds : (now b a : ℕ) → Adds b a (start_job now b a)
unfolding start_job
start_job-Adds now b a = record {
  id = λ j. refl;
  max_bytes = λ j. refl;
  max_artifact_bytes = λ j. refl;
  downloaded = λ j. refl;
  reserved = λ j. refl;
  artifacts = λ j. refl;
  reserved_artifacts = λ j. refl;
}

pub reserve_budget-Adds : (b a : ℕ) → Adds b a (reserve_budget b a)
unfolding reserve_budget
reserve_budget-Adds b a = record {
  id = λ j. refl;
  max_bytes = λ j. refl;
  max_artifact_bytes = λ j. refl;
  downloaded = λ j. refl;
  reserved = λ j. refl;
  artifacts = λ j. refl;
  reserved_artifacts = λ j. refl;
}

-- A positive allowance is within what is left of the job's budgets.
pub allowance-HasRoom :
    (j : Job) (t : Task)
    → leb (byte_allowance j t) 0 || leb (artifact_allowance j) 0 ≡ false
    → HasRoom (byte_allowance j t) (artifact_allowance j) j
unfolding byte_allowance artifact_allowance
allowance-HasRoom j t h = record { bytes = ground arith; artifacts = ground arith }

pub id-Picks : {tasks : List Task} (t : Task) → Row t tasks → Picks t (task_named t.id) tasks
id-Picks t row = record { only = λ x e. ground arith; hits = ground arith; row = row }

postpone-Budget :
    {k b a : ℕ} (db : Db) (now id until : ℕ)
    → Budget k b a db
    → Budget k b a (postpone_task db now id until)
unfolding postpone
postpone-Budget db now id until h =
    Budget-tasks (task_named id) _ (λ t. (refl, refl))
      (λ t i e. record { bytes = refl; artifacts = refl; idle = i }) h

abbrev pub Within : Db × Option ClaimedTask → Type 0
Within r = Budget 0 0 0 r.0

module _ (now : ℕ) (worker : String) (token attempt : ℕ) (t : Task) (j : Job) where
  abbrev Ready : Db → Type 0
  Ready db = Budget 0 0 0 db × Row t db.tasks × (find_where (job_named t.job_id) db.jobs ≡ some j)

  claim_budget-Budget :
      (db : Db)
      → is_leased t.state ≡ false
      → Ready db
      → Budget 0 0 0 (claim_budget db now worker token attempt t j).0
  unfolding claim_budget grant
  claim_budget-Budget db w h =
      if_cases Within (leb (byte_allowance j t) 0 || leb (artifact_allowance j) 0) _ _
        (λ _. drain_unleased-Budget db now t.job_id _ h.0)
        (λ e.
          Budget-reserve t j (task_named t.id) _ _ (id-Picks t h.1)
            (start_task-Reserves now worker token _ _) (start_job-Adds now _ _) w h.2
            (allowance-HasRoom j t e) h.0)

  claim_origin-Budget :
      (db : Db) (o : Origin)
      → is_leased t.state ≡ false
      → Ready db
      → Budget 0 0 0 (claim_origin db now worker token attempt t j o).0
  unfolding claim_origin
  claim_origin-Budget db o w h =
      if_cases Within (is_future now (blocked_until o)) _ _
        (λ _. postpone-Budget db now t.id (coalesce (blocked_until o) now) h.0)
        (λ _.
          if_cases Within (ltb now o.next_request_at) _ _
            (λ _. postpone-Budget (probe_circuit db now o) now t.id o.next_request_at probed.0)
            (λ _.
              if_cases Within (exists_where (lease_on t.origin_key) (probe_circuit db now o).leases)
                _ _ (λ _. probed.0) (λ _. claim_budget-Budget (probe_circuit db now o) w probed)))
    where
      probed : Ready (probe_circuit db now o)
      probed = if_cases Ready (is_open_circuit o.circuit_state) _ db (λ _. h) (λ _. h)

  claim_found-Budget :
      (db : Db)
      → is_leased t.state ≡ false
      → Ready db
      → Budget 0 0 0 (claim_found db now worker token attempt t j).0
  unfolding claim_found
  claim_found-Budget db w h =
      if_cases Within (not (is_live now j)) _ _ (λ _. h.0)
        (λ _.
          elim (Option-cases
            (find_where (origin_named t.origin_key) (ensure_origin db now t.origin_key).origins)) [
              | inl e ↦ rw e ready.0
              | inr (o, e) ↦
                  rw e (claim_origin-Budget (ensure_origin db now t.origin_key) o w ready)
            ])
    where
      ready : Ready (ensure_origin db now t.origin_key)
      ready =
          unfold ensure_origin in
          if_cases Ready (exists_where (origin_named t.origin_key) db.origins) db _ (λ _. h)
            (λ _. h)

ready_unleased : (s : TaskState) → is_ready s ≡ true → is_leased s ≡ false
ready_unleased s h = ground arith

claimable_ready :
    (db : Db) (now : ℕ) (capabilities : List String) (t : Task)
    → is_claimable db now capabilities t ≡ true
    → is_leased t.state ≡ false
claimable_ready db now capabilities t h =
    ready_unleased t.state (and-eq-true _ _ (and-eq-true _ _ (and-eq-true _ _ h).0).0).0

-- A claim keeps the budgets: what it reserves was left in the job.
pub claim_task-Budget :
    (db : Db) (now : ℕ) (worker : String) (capabilities : List String) (token attempt : ℕ)
    → Budget 0 0 0 db
    → Budget 0 0 0 (claim_task db now worker capabilities token attempt).0
unfolding claim_task
claim_task-Budget db now worker capabilities token attempt h =
    elim (Option-cases (least_where (is_claimable db now capabilities) claims_before db.tasks)) [
      | inl e ↦ rw (e, claim_task) h
      | inr (t, e) ↦
          let (row, ok) =
            least_where-Row (is_claimable db now capabilities) claims_before db.tasks t e in
          elim (Option-cases (find_where (job_named t.job_id) db.jobs)) [
            | inl q ↦ rw (e, q, claim_task) h
            | inr (j, q) ↦
                rw (e, q, claim_task)
                  (claim_found-Budget now worker token attempt t j db
                    (claimable_ready db now capabilities t ok) (h, row, q))
          ]
    ]
