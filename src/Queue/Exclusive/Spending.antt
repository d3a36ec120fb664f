-- ===== src/Queue/Exclusive/Spending.antt =====
-- The leases of the queue under the attempts of a task at a provider in app/crawl/repository.py.
use crawltrove.Base.{
  ℕ, String, Bool, false, none, List, not, if_cases, ◌==◌, is_some_eq, Option-cases, inl, inr,
  find_where,
}
use crawltrove.Queue.Rows.{Db}
use crawltrove.Queue.Results.{Keeps, Yields-after}
use crawltrove.Queue.Meters.{Reported, native_cost}
use crawltrove.Queue.Settle.{fenced_task}
use crawltrove.Queue.Attempts.{reserve_acquisition_attempt, finish_acquisition_attempt}
use crawltrove.Queue.Frame.Spending.{reserve_active-Keeps, finish_active-Keeps}
use crawltrove.Queue.Exclusive.{Exclusive}
use crawltrove.Queue.Exclusive.Ends.{ExclusiveOn, fenced-Exclusive}

pub reserve_acquisition_attempt-Exclusive :
    (db : Db) (now id token attempt : ℕ) (route : String) (values : List Reported)
    → Exclusive db
    → Keeps Exclusive (reserve_acquisition_attempt db now id token attempt route values)
unfolding reserve_acquisition_attempt
reserve_acquisition_attempt-Exclusive db now id token attempt route values h =
    Yields-after (λ r. Exclusive r.0) (native_cost route values) _
      λ cost e.
        fenced-Exclusive db now (fenced_task db id token) none _ h
          λ f. reserve_active-Keeps ExclusiveOn db now token attempt route cost.0 cost.1 f h

pub finish_acquisition_attempt-Exclusive :
    (db : Db) (now attempt token : ℕ) (outcome : String) (values : List Reported) (estimated : Bool)
    → Exclusive db
    → Keeps Exclusive (finish_acquisition_attempt db now attempt token outcome values estimated)
unfolding finish_acquisition_attempt
finish_acquisition_attempt-Exclusive db now attempt token outcome values estimated h =
    elim (Option-cases (find_where (λ x. x.id == attempt) db.attempts)) [
      | inl e ↦ rw (e, finish_acquisition_attempt) h
      | inr (a, e) ↦
          rw (e, finish_acquisition_attempt)
            (if_cases (Keeps Exclusive) (not (is_some_eq a.lease_token token)) _ _ (λ _. h)
              (λ _.
                fenced-Exclusive db now (fenced_task db a.task_id token) false _ h
                  λ f. finish_active-Keeps ExclusiveOn db now a outcome values estimated f h))
    ]
