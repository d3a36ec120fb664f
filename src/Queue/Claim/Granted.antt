-- ===== src/Queue/Claim/Granted.antt =====
-- What `claim_task` of app/crawl/repository.py grants.
use crawltrove.Base.{
  ℕ, ◌+◌, ◌≡◌, ◌≤◌, ◌<◌, refl, subst, String, true, false, Option, some, List, ◌||◌, not, if_cases,
  ltb, leb, arith, Option-cases, inl, inr, find_where, exists_where, exists_where-none, least_where,
  least_where-Row, All, Row,
}
use mathlib.Core.Option.{some-injective}
use crawltrove.Queue.Rows.{Job, Task, Origin, OriginLease, Db}
use crawltrove.Queue.Ledger.{job_named}
use crawltrove.Queue.Claim.{
  ClaimedTask, claim_task, claim_found, claim_origin, claim_budget, grant, is_claimable,
  claims_before, is_live, ensure_origin, origin_named, is_future, blocked_until, probe_circuit,
  is_open_circuit, lease_on, byte_allowance, artifact_allowance, response_cap, inline_artifact_cap,
  claimed,
}
use crawltrove.Queue.Claim.First.{
  least_where-first, claims_before_irrefl, claims_before_asym, claims_before_negtrans,
}

-- A grant of the task: its origin has no lease, its job goes on, and there is something to spend.
record IsGrant (leases : List OriginLease) (now token : ℕ) (t : Task) (j : Job) (c : ClaimedTask)
    : Type 0 where
  claim : claimed t j token (byte_allowance j t) (artifact_allowance j) ≡ c
  alone : All (λ l. lease_on t.origin_key l ≡ false) leases
  live : is_live now j ≡ true
  spends : leb (byte_allowance j t) 0 || leb (artifact_allowance j) 0 ≡ false

module _ (now : ℕ) (worker : String) (token attempt : ℕ) (t : Task) (j : Job) where
  abbrev Grants : Db → Db × Option ClaimedTask → Type 0
  Grants db r = (c : ClaimedTask) → r.1 ≡ some c → IsGrant db.leases now token t j c

  claim_budget-Grants :
      (db : Db)
      → exists_where (lease_on t.origin_key) db.leases ≡ false
      → is_live now j ≡ true
      → Grants db (claim_budget db now worker token attempt t j)
  unfolding claim_budget grant
  claim_budget-Grants db free live =
      if_cases (Grants db) (leb (byte_allowance j t) 0 || leb (artifact_allowance j) 0) _ _
        (λ _. λ c k. cc)
        (λ e. λ c k. record {
          claim = some-injective _ _ k;
          alone = exists_where-none (lease_on t.origin_key) db.leases free;
          live = live;
          spends = e;
        })

  probe_circuit-leases : (db : Db) (o : Origin) → (probe_circuit db now o).leases ≡ db.leases
  probe_circuit-leases db o =
      if_cases (λ (d : Db). d.leases ≡ db.leases) (is_open_circuit o.circuit_state) _ db (λ _. refl)
        (λ _. refl)

  claim_origin-Grants :
      (db : Db) (o : Origin)
      → is_live now j ≡ true
      → Grants db (claim_origin db now worker token attempt t j o)
  unfolding claim_origin
  claim_origin-Grants db o live =
      if_cases (Grants db) (is_future now (blocked_until o)) _ _ (λ _. λ c k. cc)
        (λ _.
          if_cases (Grants db) (ltb now o.next_request_at) _ _ (λ _. λ c k. cc)
            (λ _.
              if_cases (Grants db)
                (exists_where (lease_on t.origin_key) (probe_circuit db now o).leases) _ _
                (λ _. λ c k. cc)
                (λ free. λ c k.
                  subst (λ leases. IsGrant leases now token t j c) (probe_circuit-leases db o)
                    (claim_budget-Grants (probe_circuit db now o) free live c k))))

  claim_found-Grants : (db : Db) → Grants db (claim_found db now worker token attempt t j)
  unfolding claim_found
  claim_found-Grants db =
      if_cases (Grants db) (not (is_live now j)) _ _ (λ _. λ c k. cc)
        (λ live.
          elim (Option-cases
            (find_where (origin_named t.origin_key) (ensure_origin db now t.origin_key).origins)) [
              | inl e ↦ rw e (λ c k. cc)
              | inr (o, e) ↦ rw e (λ c k.
                  subst (λ leases. IsGrant leases now token t j c) same
                    (claim_origin-Grants (ensure_origin db now t.origin_key) o
                      (ground (arith, live)) c k))
            ])
    where
      same : (ensure_origin db now t.origin_key).leases ≡ db.leases
      same =
          unfold ensure_origin in
          if_cases (λ (d : Db). d.leases ≡ db.leases)
            (exists_where (origin_named t.origin_key) db.origins) db _ (λ _. refl) (λ _. refl)

-- What a worker is granted: a task and its job, and how much it may spend.
pub record IsGranted (db : Db) (now : ℕ) (capabilities : List String) (c : ClaimedTask)
    : Type 0 where
  task : Task
  job : Job
  row : Row task db.tasks
  found : find_where (job_named task.job_id) db.jobs ≡ some job
  id : c.id ≡ task.id
  claimable : is_claimable db now capabilities task ≡ true
  first :
      All (λ t. is_claimable db now capabilities t ≡ true → claims_before t task ≡ false) db.tasks
  live : is_live now job ≡ true
  alone : All (λ l. lease_on task.origin_key l ≡ false) db.leases
  some_bytes : 0 < c.byte_allowance
  bytes_left : job.downloaded_bytes + job.reserved_bytes + c.byte_allowance ≤ job.max_bytes
  bytes_capped : c.byte_allowance ≤ response_cap task.normalized_url
  some_artifacts : 0 < c.artifact_allowance
  artifacts_left :
      job.artifact_bytes + job.reserved_artifact_bytes + c.artifact_allowance
      ≤ job.max_artifact_bytes
  artifacts_capped : c.artifact_allowance ≤ inline_artifact_cap

granted :
    (db : Db) (now : ℕ) (capabilities : List String) (token : ℕ) (t : Task) (j : Job)
    (c : ClaimedTask)
    → least_where (is_claimable db now capabilities) claims_before db.tasks ≡ some t
    → find_where (job_named t.job_id) db.jobs ≡ some j
    → IsGrant db.leases now token t j c
    → IsGranted db now capabilities c
unfolding byte_allowance artifact_allowance
granted db now capabilities token t j c best found g =
    subst (IsGranted db now capabilities) g.claim (
      let (row, ok) =
        least_where-Row (is_claimable db now capabilities) claims_before db.tasks t best in
      record {
        task = t;
        job = j;
        row = row;
        found = found;
        id = refl;
        claimable = ok;
        first =
            least_where-first (is_claimable db now capabilities) claims_before claims_before_irrefl
              claims_before_asym claims_before_negtrans db.tasks t best;
        live = g.live;
        alone = g.alone;
        some_bytes = ground (arith, g.spends);
        bytes_left = ground (arith, g.spends);
        bytes_capped = omega arith;
        some_artifacts = ground (arith, g.spends);
        artifacts_left = ground (arith, g.spends);
        artifacts_capped = omega arith;
      })

module _ (db : Db) (now : ℕ) (worker : String) (capabilities : List String)
    (token attempt : ℕ) where
  abbrev AllGranted : Db × Option ClaimedTask → Type 0
  AllGranted r = (c : ClaimedTask) → r.1 ≡ some c → IsGranted db now capabilities c

  claim_task-AllGranted : AllGranted (claim_task db now worker capabilities token attempt)
  unfolding claim_task
  claim_task-AllGranted =
      elim (Option-cases (least_where (is_claimable db now capabilities) claims_before db.tasks)) [
        | inl e ↦ rw (e, claim_task) (λ c k. cc)
        | inr (t, e) ↦ elim (Option-cases (find_where (job_named t.job_id) db.jobs)) [
          | inl q ↦ rw (e, q, claim_task) (λ c k. cc)
          | inr (j, q) ↦
              rw (e, q, claim_task)
                (λ c k.
                  granted db now capabilities token t j c e q
                    (claim_found-Grants now worker token attempt t j db c k))
        ]
      ]

-- A claim that claim_task grants is of a claimable task, ready, available and within the worker's
-- capabilities, that no other claimable task precedes in the order of priority, availability and
-- discovery; its job is neither cancelled nor past its deadline, its origin has no lease, and the
-- bytes and artifact bytes that it may spend are positive, under the caps, and left in the job.
pub claim_task-IsGranted :
    (db : Db) (now : ℕ) (worker : String) (capabilities : List String) (token attempt : ℕ)
    (c : ClaimedTask)
    → (claim_task db now worker capabilities token attempt).1 ≡ some c
    → IsGranted db now capabilities c
claim_task-IsGranted db now worker capabilities token attempt c h =
    claim_task-AllGranted db now worker capabilities token attempt c h
