-- ===== src/Queue/Budget/Ledger.antt =====
-- The byte budgets under the attempts of a task at a provider, which write only the ledger and the
-- attempts.
use crawltrove.Base.{
  ℕ, String, Bool, List, not, Option-cases, inl, inr, if_cases, find_where, none, is_some_eq, ◌==◌,
  false, false,
}
use crawltrove.Queue.Rows.{Db}
use crawltrove.Queue.Results.{Keeps, Yields-after}
use crawltrove.Queue.Meters.{Reported, native_cost}
use crawltrove.Queue.Attempts.{reserve_acquisition_attempt, finish_acquisition_attempt}
use crawltrove.Queue.Frame.Spending.{reserve_active-Keeps, finish_active-Keeps}
use crawltrove.Queue.Budget.{Budget}
use crawltrove.Queue.Budget.Finishes.{BudgetOn, fenced-Budget}

pub reserve_acquisition_attempt-Budget :
    (db : Db) (now id token attempt : ℕ) (route : String) (values : List Reported)
    → Budget 0 0 0 db
    → Keeps (Budget 0 0 0) (reserve_acquisition_attempt db now id token attempt route values)
unfolding reserve_acquisition_attempt
reserve_acquisition_attempt-Budget db now id token attempt route values h =
    Yields-after (λ r. Budget 0 0 0 r.0) (native_cost route values) _
      λ cost e.
        fenced-Budget db now id token none _ h
          λ f held. reserve_active-Keeps BudgetOn db now token attempt route cost.0 cost.1 f h

pub finish_acquisition_attempt-Budget :
    (db : Db) (now attempt token : ℕ) (outcome : String) (values : List Reported) (estimated : Bool)
    → Budget 0 0 0 db
    → Keeps
        (Budget 0 0 0)
        (finish_acquisition_attempt db now attempt token outcome values estimated)
unfolding finish_acquisition_attempt
finish_acquisition_attempt-Budget db now attempt token outcome values estimated h =
    elim (Option-cases (find_where (λ x. x.id == attempt) db.attempts)) [
      | inl e ↦ rw (e, finish_acquisition_attempt) h
      | inr (a, e) ↦
          rw (e, finish_acquisition_attempt)
            (if_cases (Keeps (Budget 0 0 0)) (not (is_some_eq a.lease_token token)) _ _ (λ _. h)
              (λ _.
                fenced-Budget db now a.task_id token false _ h
                  λ f held. finish_active-Keeps BudgetOn db now a outcome values estimated f h))
    ]
