-- ===== src/Tests/Examples.antt =====
-- The theorems applied to the crawl of one page.
use crawltrove.Base.{
  ◌≡◌, ◌<◌, ◌≤◌, refl, String, true, false, none, some, List, [], ◌∷◌, min, All, arith,
}
use crawltrove.Queue.States.{is_open, transport, http}
use crawltrove.Queue.Rows.{Amount}
use crawltrove.Queue.Results.{Keeps, Yields}
use crawltrove.Queue.Meters.{
  checked, subset, contains, meters_of, normalized, value_of, amount_of, native_cost,
}
use crawltrove.Queue.Finish.Circuit.{fails, probes, OriginStep}
use crawltrove.Queue.Meters.Stored.{IsPriced, native_cost-IsPriced}
use crawltrove.Queue.Fence.Once.{Refuses, NotHeld-Refuses}
use crawltrove.Queue.Fence.Settled.{Settles, Settles-Refuses}
use crawltrove.Queue.Claim.Granted.{IsGranted, claim_task-IsGranted}
use crawltrove.Queue.Attempts.{reserve_acquisition_attempt}
use crawltrove.Queue.Attempts.Limits.{NoRepeats, reserve_acquisition_attempt-HasLedger}
use crawltrove.Queue.Attempts.Spent.{AreSpent, finish_acquisition_attempt-AreSpent}
use crawltrove.Queue.Ledger.Limits.{HasLedger}
use crawltrove.Queue.Discover.{insert_discovered}
use crawltrove.Queue.Discover.Children.{IsDiscovered, insert_discovered-IsDiscovered}
use crawltrove.Queue.Jobs.{finalize_jobs, reconcile_job}
use crawltrove.Queue.Jobs.Recounted.{IsRecounted, reconcile_job-IsRecounted}
use crawltrove.Queue.Retry.{retryable_rows}
use crawltrove.Queue.Retry.Selected.{IsSelection, retryable_rows-IsSelection}
use crawltrove.Queue.Jobs.Drained.{has_work, finalize_jobs-has_work}
use crawltrove.Robots.{RuleLine, decide}
use crawltrove.Robots.Longest.{IsDecided, decide-IsDecided}
use crawltrove.Classify.{classify_failure, backoff_ms, backoff_ceiling}
use crawltrove.Classify.Retry.{classify_failure-is_retried, backoff_ms-bounds}
use crawltrove.History.Budget.{after-keeps, WithinBudget, Reachable-WithinBudget}
use crawltrove.History.Recount.{reservations, reservations-reconcile_job}
use crawltrove.History.Exclusive.{one_lease_per_origin}
use crawltrove.Tests.Crawl.{
  finished, finish_ok, both_completed, both_completed-Reachable, submitted, grant_of_page, claim_ok,
  claimed-HasLedger, one_credit, reserved, page, tools, uuids, claimed, completed,
  claimed-Reachable, result, leased_task, claimed-Row, claimed-NotHeld, complete_ok, failed,
  both_completed, both_completed-Reachable,
}

once : NoRepeats one_credit
unfolding meters_of
once = (tt, tt)

Reachable-WithinBudget_example : All (WithinBudget both_completed.tasks) both_completed.jobs
Reachable-WithinBudget_example =
    Reachable-WithinBudget tools both_completed both_completed-Reachable

one_lease_per_origin_example : leased_task ≡ leased_task
one_lease_per_origin_example =
    one_lease_per_origin tools claimed leased_task leased_task claimed-Reachable claimed-Row
      claimed-Row refl refl refl

Settles-Refuses_example : Refuses completed 2 7
Settles-Refuses_example =
    Settles-Refuses claimed 2 7 completed
      (Settles.completed tools uuids 20 result 9 completed complete_ok)

NotHeld-Refuses_example : Refuses claimed 2 6
NotHeld-Refuses_example = NotHeld-Refuses claimed 2 6 claimed-NotHeld

-- Five failures, a probe, and a failure of the probe.
abbrev steps : List OriginStep
steps =
    fails 1 2 transport
    ∷ fails 3 4 http
    ∷ fails 5 6 transport
    ∷ fails 7 8 transport
    ∷ fails 9 10 transport
    ∷ probes 300_010
    ∷ []

classify_failure-is_retried_example :
    ((classify_failure (some "timeout") none).retry ≡ true) × (false ≡ false)
unfolding classify_failure
classify_failure-is_retried_example = classify_failure-is_retried (some "timeout") none

backoff_ms-bounds_example : (backoff_ms 3 none 1000 < 4000) × ((4 ≤ 60) × (8 ≡ min 60 8))
unfolding backoff_ceiling
backoff_ms-bounds_example = backoff_ms-bounds 2 1000 (omega arith)

abbrev credit_cost : String × List Amount
credit_cost = ("firecrawl", record { meter = "credits"; value = 1 } ∷ [])

native_cost-IsPriced_example : IsPriced "firecrawl_scrape" one_credit credit_cost
unfolding native_cost checked subset contains meters_of normalized value_of amount_of
native_cost-IsPriced_example = native_cost-IsPriced "firecrawl_scrape" one_credit credit_cost refl

abbrev two_rules : List RuleLine
two_rules =
    record { path = "/a"; allowance = false; applies_to = λ p. true }
    ∷ record { path = "/a/b"; allowance = true; applies_to = λ p. true }
    ∷ []

decide-IsDecided_example : IsDecided two_rules (decide two_rules)
decide-IsDecided_example = decide-IsDecided two_rules

claim_task-IsGranted_example : IsGranted submitted 10 ("http" ∷ []) grant_of_page
claim_task-IsGranted_example =
    claim_task-IsGranted submitted 10 "worker" ("http" ∷ []) 7 8 grant_of_page claim_ok

reserve_acquisition_attempt-HasLedger_example :
    Keeps HasLedger (reserve_acquisition_attempt claimed 20 2 7 30 "firecrawl_scrape" one_credit)
reserve_acquisition_attempt-HasLedger_example =
    reserve_acquisition_attempt-HasLedger claimed 20 2 7 30 "firecrawl_scrape" one_credit once
      claimed-HasLedger

-- The reservation of one credit keeps the ledger.
reserved-HasLedger : HasLedger reserved
reserved-HasLedger =
    after-keeps HasLedger claimed
      (reserve_acquisition_attempt claimed 20 2 7 30 "firecrawl_scrape" one_credit)
      claimed-HasLedger
      (reserve_acquisition_attempt-HasLedger claimed 20 2 7 30 "firecrawl_scrape" one_credit once
        claimed-HasLedger)

finish_acquisition_attempt-AreSpent_example : AreSpent reserved.usage finished.usage
finish_acquisition_attempt-AreSpent_example =
    finish_acquisition_attempt-AreSpent reserved finished 30 30 7 "success" one_credit false
      reserved-HasLedger finish_ok

insert_discovered-IsDiscovered_example :
    Yields
      (IsDiscovered claimed page)
      (insert_discovered tools uuids claimed 20 page result.discovered_urls)
insert_discovered-IsDiscovered_example =
    insert_discovered-IsDiscovered tools uuids claimed 20 page result.discovered_urls

finalize_jobs-has_work_example :
    All
      (λ j. is_open j.state ≡ true → has_work (finalize_jobs completed 4000000).0.tasks j.id ≡ true)
      (finalize_jobs completed 4000000).0.jobs
finalize_jobs-has_work_example = finalize_jobs-has_work completed 4000000

reconcile_job-IsRecounted_example :
    All (λ j. j.id ≡ 1 → IsRecounted completed j) (reconcile_job completed 1).0.jobs
reconcile_job-IsRecounted_example = reconcile_job-IsRecounted completed 1

reservations-reconcile_job_example :
    reservations (reconcile_job claimed 1).0.jobs ≡ reservations claimed.jobs
reservations-reconcile_job_example = reservations-reconcile_job tools claimed 1 claimed-Reachable

retryable_rows-IsSelection_example :
    IsSelection failed 1 (2 ∷ []) (retryable_rows failed 1 (2 ∷ []))
retryable_rows-IsSelection_example = retryable_rows-IsSelection failed 1 (2 ∷ [])
