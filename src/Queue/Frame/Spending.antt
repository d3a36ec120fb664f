-- ===== src/Queue/Frame/Spending.antt =====
-- The reservation and the settlement of an attempt in app/crawl/repository.py write neither jobs
-- nor tasks nor leases.
use crawltrove.Base.{
  ℕ, String, Bool, List, not, ◌||◌, str_eq, min, leb, if_cases, is_some, count_where,
}
use crawltrove.Queue.Rows.{Job, Task, OriginLease, Attempt, Amount, Db}
use crawltrove.Queue.Results.{Keeps, Yields-after, raise_if, protocol_error}
use crawltrove.Queue.Meters.{Reported, native_cost, reported}
use crawltrove.Queue.Settle.{Fenced}
use crawltrove.Queue.Frame.{On}
use crawltrove.Queue.Attempts.{
  reserve_active, total_cap, provider_attempt, route_attempt, has_room, finish_active, is_provider,
  exceeds, settle_usage_rows,
}

module _ (P : List Job → List Task → List OriginLease → Type 0) where
  pub reserve_active-Keeps :
      (db : Db) (now token attempt : ℕ) (route provider : String) (cost : List Amount) (f : Fenced)
      → On P db
      → Keeps (On P) (reserve_active db now token attempt route provider cost f)
  unfolding reserve_active
  reserve_active-Keeps db now token attempt route provider cost f h =
      if_cases (Keeps (On P))
        (leb (total_cap f.job) (count_where (provider_attempt f.task.id) db.attempts)
          || leb (min 2 (total_cap f.job)) (count_where (route_attempt f.task.id route) db.attempts)
          || not (has_room db.usage f.task.job_id provider cost))
        _ _ (λ _. h) (λ _. h)

  pub finish_active-Keeps :
      (db : Db) (now : ℕ) (a : Attempt) (outcome : String) (values : List Reported)
      (estimated : Bool) (f : Fenced)
      → On P db
      → Keeps (On P) (finish_active db now a outcome values estimated f)
  unfolding finish_active
  finish_active-Keeps db now a outcome values estimated f h =
      if_cases (Keeps (On P)) (is_some a.finished_at) _ _ (λ _. h)
        λ _.
          Yields-after (λ r. On P r.0) (native_cost a.route values) _
            λ actual _.
              Yields-after (λ r. On P r.0) (native_cost a.route (reported a.reserved_cost)) _
                λ reserved _.
                  Yields-after (λ r. On P r.0)
                    (raise_if
                      (not (is_provider a.provider actual.0) || not (str_eq reserved.0 actual.0))
                      protocol_error)
                    _
                    λ _ _.
                      Yields-after (λ r. On P r.0)
                        (raise_if (exceeds actual.1 reserved.1) protocol_error) _
                        λ _ _.
                          Yields-after (λ r. On P r.0)
                            (settle_usage_rows db.usage f.task.job_id actual.0 reserved.1 actual.1)
                            _ λ u _. h
