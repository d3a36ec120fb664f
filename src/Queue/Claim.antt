-- ===== src/Queue/Claim.antt =====
-- `claim_task` and `_response_cap` of app/crawl/repository.py.
mod Caps
mod Origins
mod Grants
pub mod First
pub mod Granted
unfoldable pub use Caps.*
unfoldable pub use Origins.*
unfoldable pub use Grants.*
use crawltrove.Base.{
  ℕ, ◌-◌, String, Option, none, some, List, ◌||◌, not, if◌then◌else◌, ltb, leb, coalesce,
  find_where, exists_where, least_where,
}
use crawltrove.Queue.Rows.{Job, Task, Origin, Db}
use crawltrove.Queue.Ledger.{job_named}
use crawltrove.Queue.Settle.{drain_unleased}

-- The claim of the task once its origin lets it through: budgets, then the lease.
unfoldable pub claim_budget : Db → ℕ → String → ℕ → ℕ → Task → Job → Db × Option ClaimedTask
unfolding byte_allowance artifact_allowance
claim_budget db now worker token attempt t j =
    let bytes = byte_allowance j t in
    let artifacts = artifact_allowance j in
    if leb bytes 0 || leb artifacts 0
    then (
      drain_unleased db now t.job_id
          (if leb bytes 0 then "byte_budget_exhausted" else "artifact_budget_exhausted"),
      none,
    )
    else grant db now worker token attempt t j bytes artifacts

-- The origin's cooldown, circuit, pacing and lease.
unfoldable pub claim_origin :
    Db → ℕ → String → ℕ → ℕ → Task → Job → Origin → Db × Option ClaimedTask
unfolding blocked_until postpone half_open_circuit
claim_origin db now worker token attempt t j o =
    if is_future now (blocked_until o)
    then (postpone_task db now t.id (coalesce (blocked_until o) now), none)
    else (let probed = probe_circuit db now o in
        if ltb now o.next_request_at
        then (postpone_task probed now t.id o.next_request_at, none)
        else if exists_where (lease_on t.origin_key) probed.leases
        then (probed, none)
        else claim_budget probed now worker token attempt t j)

unfoldable pub claim_found : Db → ℕ → String → ℕ → ℕ → Task → Job → Db × Option ClaimedTask
claim_found db now worker token attempt t j =
    if not (is_live now j)
    then (db, none)
    else (let ready = ensure_origin db now t.origin_key in
        elim (find_where (origin_named t.origin_key) ready.origins) [
          | none ↦ (ready, none)
          | some o ↦ claim_origin ready now worker token attempt t j o
        ])

-- `claim_task`
unfoldable pub claim_task : Db → ℕ → String → List String → ℕ → ℕ → Db × Option ClaimedTask
claim_task db now worker capabilities token attempt =
    elim (least_where (is_claimable db now capabilities) claims_before db.tasks) [
      | none ↦ (db, none)
      | some t ↦ elim (find_where (job_named t.job_id) db.jobs) [
        | none ↦ (db, none)
        | some j ↦ claim_found db now worker token attempt t j
      ]
    ]
