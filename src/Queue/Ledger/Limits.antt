-- ===== src/Queue/Ledger/Limits.antt =====
-- The ledger of native meters of app/crawl/repository.py stays within its limits when reservations
-- are settled or abandoned.
use crawltrove.Base.{
  ℕ, ◌+◌, ◌≤◌, ◌≡◌, refl, sym, ◌∙◌, subst, String, true, Option, some, List, [], ◌∷◌, ◌&&◌, not,
  if◌then◌else◌, if_cases, str_eq, eq_iff, ◌==◌, ==_iff, arith, Option-cases, inl, inr, and-eq-true,
  find_where, find_where-Row, select_where, All, All-update_where, All-zip, All-weaken, Distinct,
  Distinct-update_where, Distinct-All,
}
use crawltrove.Queue.Rows.{Attempt, Amount, Usage, Db}
use crawltrove.Queue.Results.{
  ok, err, Yields, Keeps, Yields-bind, Yields-after, raise_if, protocol_error, constraint_violation,
}
use crawltrove.Queue.Meters.{native_cost, reported}
use crawltrove.Queue.Ledger.{
  is_meter, settle_usage, settle_fits, settle_meter, consume_reserved, reconcile_attempt,
  reconcile_all, reconcile_abandoned, is_abandoned,
}

-- The primary key of crawl_provider_usage.
abbrev pub usage_key : Usage → ℕ × (String × String)
usage_key u = (u.job_id, (u.provider, u.meter))

abbrev pub WithinLimit : Usage → Type 0
WithinLimit u = u.reserved_value + u.consumed_value ≤ u.limit_value

-- One row for each meter of a job, and none over its limit.
pub record IsLedger (usage : List Usage) : Type 0 where
  pub keys : Distinct usage_key usage
  pub within : All WithinLimit usage

pub is_meter-usage_key :
    (job : ℕ) (provider meter : String) (u : Usage)
    → is_meter job provider meter u ≡ true
    → usage_key u ≡ (job, (provider, meter))
is_meter-usage_key job provider meter u h = λ i. (j i, (p i, m i))
  where
    both : (u.job_id == job && str_eq u.provider provider ≡ true) × (str_eq u.meter meter ≡ true)
    both = and-eq-true (u.job_id == job && str_eq u.provider provider) (str_eq u.meter meter) h

    first : (u.job_id == job ≡ true) × (str_eq u.provider provider ≡ true)
    first = and-eq-true (u.job_id == job) (str_eq u.provider provider) both.0

    j : u.job_id ≡ job
    j = (==_iff u.job_id job).0 first.0

    p : u.provider ≡ provider
    p = (eq_iff u.provider provider).0 first.1

    m : u.meter ≡ meter
    m = (eq_iff u.meter meter).0 both.1

-- The rows of a meter are the one that is found.
pub meter_row :
    (usage : List Usage) (job : ℕ) (provider meter : String) (u : Usage)
    → Distinct usage_key usage
    → find_where (is_meter job provider meter) usage ≡ some u
    → All (λ x. is_meter job provider meter x ≡ true → x ≡ u) usage
meter_row usage job provider meter u keys h =
    let (row, named) = find_where-Row (is_meter job provider meter) usage u h in
    All-weaken usage
      (λ x same e. same (
        is_meter-usage_key job provider meter x e
        ∙ sym (is_meter-usage_key job provider meter u named)))
      (Distinct-All usage_key u usage keys row)

settle_usage-WithinLimit :
    (reserved consumed : ℕ) (u : Usage)
    → settle_fits reserved consumed u ≡ true
    → WithinLimit (settle_usage reserved consumed u)
unfolding settle_fits settle_usage
settle_usage-WithinLimit reserved consumed u h = ground arith

abbrev pub Ledgers : {A : Type 0} → List Usage × A → Type 0
Ledgers r = IsLedger r.0

pub settle_meter-IsLedger :
    (usage : List Usage) (job : ℕ) (provider meter : String) (reserved consumed : ℕ)
    → IsLedger usage
    → Yields Ledgers (settle_meter usage job provider meter reserved consumed)
unfolding settle_meter
settle_meter-IsLedger usage job provider meter reserved consumed h =
    elim (Option-cases (find_where (is_meter job provider meter) usage)) [
      | inl e ↦ rw (e, settle_meter) h
      | inr (u, e) ↦
          rw (e, settle_meter)
            (if_cases (Yields Ledgers) (settle_fits reserved consumed u) _
              (err constraint_violation)
              (λ fits. record {
                keys =
                    Distinct-update_where usage_key (is_meter job provider meter)
                      (settle_usage reserved consumed) usage (unfold settle_usage in λ x. refl)
                      h.keys;
                within =
                    All-update_where (is_meter job provider meter) (settle_usage reserved consumed)
                      usage
                      (λ x k m.
                        settle_usage-WithinLimit reserved consumed x
                          (subst (λ y. settle_fits reserved consumed y ≡ true) (sym (k.1 m)) fits))
                      (λ x k m. k.0)
                      (All-zip WithinLimit _ usage h.within
                        (meter_row usage job provider meter u h.keys e));
              })
              (λ _. tt))
    ]

consume_reserved-IsLedger :
    (usage : List Usage) (job : ℕ) (provider : String) (cost : List Amount)
    → IsLedger usage
    → Yields IsLedger (consume_reserved usage job provider cost)
unfolding consume_reserved
consume_reserved-IsLedger usage job provider [] h = h
consume_reserved-IsLedger usage job provider (a ∷ rest) h =
    Yields-bind Ledgers IsLedger (settle_meter usage job provider a.meter a.value a.value) _
      (settle_meter-IsLedger usage job provider a.meter a.value a.value h)
      λ settled k.
        Yields-after IsLedger (raise_if (not settled.1) protocol_error) _
          λ u e. consume_reserved-IsLedger settled.0 job provider rest k

abbrev pub HasLedger : Db → Type 0
HasLedger db = IsLedger db.usage

reconcile_attempt-HasLedger :
    (db : Db) (now : ℕ) (a : Attempt) → HasLedger db → Yields HasLedger (reconcile_attempt db now a)
unfolding reconcile_attempt
reconcile_attempt-HasLedger db now a h =
    Yields-after HasLedger (native_cost a.route (reported a.reserved_cost)) _ λ cost e.
      Yields-bind IsLedger HasLedger
        (if str_eq cost.0 "local"
          then ok db.usage
          else consume_reserved db.usage a.job_id cost.0 cost.1)
        _
        (if_cases (Yields IsLedger) (str_eq cost.0 "local") (ok db.usage)
          (consume_reserved db.usage a.job_id cost.0 cost.1) (λ _. h)
          (λ _. consume_reserved-IsLedger db.usage a.job_id cost.0 cost.1 h))
        (λ u k. k)

reconcile_all-HasLedger :
    (now : ℕ) (attempts : List Attempt) (db : Db) (n : ℕ)
    → HasLedger db
    → Keeps HasLedger (reconcile_all now attempts db n)
unfolding reconcile_all
reconcile_all-HasLedger now [] db n h = h
reconcile_all-HasLedger now (a ∷ rest) db n h =
    Yields-bind HasLedger (λ r. HasLedger r.0) (reconcile_attempt db now a) _
      (reconcile_attempt-HasLedger db now a h) (λ d k. reconcile_all-HasLedger now rest d (n + 1) k)

pub reconcile_abandoned-HasLedger :
    (db : Db) (now : ℕ) (task : Option ℕ)
    → HasLedger db
    → Keeps HasLedger (reconcile_abandoned db now task)
unfolding reconcile_abandoned
reconcile_abandoned-HasLedger db now task h =
    reconcile_all-HasLedger now (select_where (is_abandoned db now task) db.attempts) db 0 h
