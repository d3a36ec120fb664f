-- ===== src/Queue/Attempts/Spent.antt =====
-- `finish_acquisition_attempt` of app/crawl/repository.py spends no more than was reserved.
use crawltrove.Base.{
  ℕ, ◌+◌, ◌≤◌, ◌≡◌, refl, sym, subst, ◌∙◌, String, Bool, true, false, Option, none, some, List, [],
  ◌∷◌, ◌||◌, not, if_cases, str_eq, ◌==◌, is_some, is_some_eq, arith, Option-cases, Bool-cases, inl,
  inr, find_where, update_where, All, All-weaken,
}
use crawltrove.Queue.Rows.{Attempt, Amount, Usage, Db}
use crawltrove.Queue.Results.{
  Result, ok, err, Yields, Yields-bind, Yields-after, raise_if, protocol_error,
  constraint_violation,
}
use crawltrove.Queue.Meters.{Reported, native_cost, reported, amount_of}
use crawltrove.Queue.Ledger.{is_meter, settle_meter, settle_usage, settle_fits}
use crawltrove.Queue.Ledger.Limits.{IsLedger, HasLedger, settle_meter-IsLedger, meter_row}
use crawltrove.Queue.Settle.{Fenced, fenced_task}
use crawltrove.Queue.Terminal.{when_active, reject_inactive_lease}
use crawltrove.Queue.Attempts.{
  settle_usage_rows, exceeds, is_provider, finish_active, finish_acquisition_attempt,
}

-- The row v is u after some of what was reserved was spent or given back.
pub record IsSpent (u v : Usage) : Type 0 where
  pub job : v.job_id ≡ u.job_id
  pub provider : v.provider ≡ u.provider
  pub meter : v.meter ≡ u.meter
  pub limit : v.limit_value ≡ u.limit_value
  pub reserved : v.reserved_value ≤ u.reserved_value
  pub consumed : u.consumed_value ≤ v.consumed_value
  pub total : v.reserved_value + v.consumed_value ≤ u.reserved_value + u.consumed_value

-- The same rows, each after some of what was reserved was spent or given back.
abbrev pub AreSpent : List Usage → List Usage → Type 0
AreSpent [] [] = Unit
AreSpent (u ∷ us) (v ∷ vs) = IsSpent u v × AreSpent us vs
AreSpent _ _ = ⊥

IsSpent-refl : (u : Usage) → IsSpent u u
IsSpent-refl u = record {
  job = refl;
  provider = refl;
  meter = refl;
  limit = refl;
  reserved = omega arith;
  consumed = omega arith;
  total = omega arith;
}

IsSpent-trans : (u v x : Usage) → IsSpent u v → IsSpent v x → IsSpent u x
IsSpent-trans u v x h k = record {
  job = k.job ∙ h.job;
  provider = k.provider ∙ h.provider;
  meter = k.meter ∙ h.meter;
  limit = k.limit ∙ h.limit;
  reserved = omega (arith, h.reserved, k.reserved);
  consumed = omega (arith, h.consumed, k.consumed);
  total = omega (arith, h.total, k.total);
}

AreSpent-refl : (us : List Usage) → AreSpent us us
AreSpent-refl [] = tt
AreSpent-refl (u ∷ us) = (IsSpent-refl u, AreSpent-refl us)

AreSpent-trans : (us vs xs : List Usage) → AreSpent us vs → AreSpent vs xs → AreSpent us xs
AreSpent-trans [] [] [] h k = tt
AreSpent-trans (u ∷ us) (v ∷ vs) (x ∷ xs) h k =
    (IsSpent-trans u v x h.0 k.0, AreSpent-trans us vs xs h.1 k.1)
AreSpent-trans [] [] (x ∷ xs) h k = absurd k
AreSpent-trans [] (v ∷ vs) xs h k = absurd h
AreSpent-trans (u ∷ us) [] xs h k = absurd h
AreSpent-trans (u ∷ us) (v ∷ vs) [] h k = absurd k

update_where-AreSpent :
    (p : Usage → Bool) (f : Usage → Usage) (us : List Usage)
    → All (λ u. p u ≡ true → IsSpent u (f u)) us
    → AreSpent us (update_where p f us)
unfolding update_where
update_where-AreSpent p f [] h = tt
update_where-AreSpent p f (u ∷ us) h = elim (Bool-cases (p u)) [
  | inl e ↦ rw e (h.0 e, update_where-AreSpent p f us h.1)
  | inr e ↦ rw e (IsSpent-refl u, update_where-AreSpent p f us h.1)
]

settle_usage-IsSpent :
    (reserved consumed : ℕ) (u : Usage)
    → consumed ≤ reserved
    → settle_fits reserved consumed u ≡ true
    → IsSpent u (settle_usage reserved consumed u)
unfolding settle_usage settle_fits
settle_usage-IsSpent reserved consumed u h e = record {
  job = refl;
  provider = refl;
  meter = refl;
  limit = refl;
  reserved = omega arith;
  consumed = omega arith;
  total = ground (arith, h, e);
}

-- The ledger holds, and its rows are those of `usage` after spending.
record Spends (usage after : List Usage) : Type 0 where
  ledger : IsLedger after
  spent : AreSpent usage after

settle_meter-Spends :
    (usage : List Usage) (job : ℕ) (provider meter : String) (reserved consumed : ℕ)
    → consumed ≤ reserved
    → IsLedger usage
    → Yields (λ r. AreSpent usage r.0) (settle_meter usage job provider meter reserved consumed)
unfolding settle_meter
settle_meter-Spends usage job provider meter reserved consumed small h =
    elim (Option-cases (find_where (is_meter job provider meter) usage)) [
      | inl e ↦ rw (e, settle_meter) (AreSpent-refl usage)
      | inr (u, e) ↦
          rw (e, settle_meter)
            (if_cases (Yields (λ r. AreSpent usage r.0)) (settle_fits reserved consumed u) _
              (err constraint_violation)
              (λ fits.
                update_where-AreSpent (is_meter job provider meter) (settle_usage reserved consumed)
                  usage
                  (All-weaken usage
                    (λ x same m.
                      settle_usage-IsSpent reserved consumed x small
                        (subst (λ y. settle_fits reserved consumed y ≡ true) (sym (same m)) fits))
                    (meter_row usage job provider meter u h.keys e)))
              (λ _. tt))
    ]

both_yield :
    {A : Type 0} (P Q : A → Type 0) (r : Result A)
    → Yields P r
    → Yields Q r
    → Yields (λ a. P a × Q a) r
both_yield P Q (ok a) h k = (h, k)
both_yield P Q (err e) h k = tt

settle_usage_rows-Spends :
    (usage before : List Usage) (job : ℕ) (provider : String) (reserved cost : List Amount)
    → exceeds cost reserved ≡ false
    → Spends before usage
    → Yields (Spends before) (settle_usage_rows usage job provider reserved cost)
unfolding settle_usage_rows exceeds
settle_usage_rows-Spends usage before job provider reserved [] small h = h
settle_usage_rows-Spends usage before job provider reserved (a ∷ rest) small h =
    let n = amount_of a.meter reserved in
    Yields-bind (λ r. IsLedger r.0 × AreSpent usage r.0) (Spends before)
      (settle_meter usage job provider a.meter n a.value) _
      (both_yield (λ r. IsLedger r.0) (λ r. AreSpent usage r.0)
        (settle_meter usage job provider a.meter n a.value)
        (settle_meter-IsLedger usage job provider a.meter n a.value h.ledger)
        (settle_meter-Spends usage job provider a.meter n a.value (ground (arith, small)) h.ledger))
      λ settled k. Yields-after (Spends before) (raise_if (not settled.1) protocol_error) _ λ u e.
        settle_usage_rows-Spends settled.0 before job provider reserved rest (ground (arith, small))
          (record { ledger = k.0; spent = AreSpent-trans before usage settled.0 h.spent k.1 })

raise_if-false : (b : Bool) (u : Unit) → raise_if b protocol_error ≡ ok u → b ≡ false
raise_if-false false u h = refl
raise_if-false true u h = cc

-- What is left when a transaction returns true.
abbrev Finished : Db → Db × Bool → Type 0
Finished db r = r.1 ≡ true → Spends db.usage r.0.usage

finish_active-Spends :
    (db : Db) (now : ℕ) (a : Attempt) (outcome : String) (values : List Reported) (estimated : Bool)
    (f : Fenced)
    → HasLedger db
    → Yields (Finished db) (finish_active db now a outcome values estimated f)
unfolding finish_active
finish_active-Spends db now a outcome values estimated f h =
    if_cases (Yields (Finished db)) (is_some a.finished_at) (ok (db, false)) _ (λ _. λ e. cc)
      λ _. Yields-after (Finished db) (native_cost a.route values) _ λ actual _.
        Yields-after (Finished db) (native_cost a.route (reported a.reserved_cost)) _ λ reserved _.
          Yields-after (Finished db)
            (raise_if (not (is_provider a.provider actual.0) || not (str_eq reserved.0 actual.0))
              protocol_error)
            _
            λ _ _.
              Yields-after (Finished db) (raise_if (exceeds actual.1 reserved.1) protocol_error) _
                λ v e.
                  Yields-bind (Spends db.usage) (Finished db)
                    (settle_usage_rows db.usage f.task.job_id actual.0 reserved.1 actual.1) _
                    (settle_usage_rows-Spends db.usage db.usage f.task.job_id actual.0 reserved.1
                      actual.1 (raise_if-false _ v e)
                      (record { ledger = h; spent = AreSpent-refl db.usage }))
                    λ u k _. k

when_active-Finished :
    (db : Db) (now : ℕ) (o : Option Fenced) (act : Fenced → Result (Db × Bool))
    → ((f : Fenced) → Yields (Finished db) (act f))
    → Yields (Finished db) (when_active db now o false act)
when_active-Finished db now none act h = λ e. cc
when_active-Finished db now (some f) act h =
    Yields-after (Finished db) (reject_inactive_lease db now f) _
      λ r e. if_cases (Yields (Finished db)) r.1 (ok (r.0, false)) (act f) (λ _. λ k. cc) (λ _. h f)

finish_acquisition_attempt-Finished :
    (db : Db) (now attempt token : ℕ) (outcome : String) (values : List Reported) (estimated : Bool)
    → HasLedger db
    → Yields
        (Finished db)
        (finish_acquisition_attempt db now attempt token outcome values estimated)
unfolding finish_acquisition_attempt
finish_acquisition_attempt-Finished db now attempt token outcome values estimated h =
    elim (Option-cases (find_where (λ x. x.id == attempt) db.attempts)) [
      | inl e ↦ rw (e, finish_acquisition_attempt) (λ k. cc)
      | inr (a, e) ↦
          rw (e, finish_acquisition_attempt)
            (if_cases (Yields (Finished db)) (not (is_some_eq a.lease_token token)) (ok (db, false))
              _ (λ _. λ k. cc)
              (λ _.
                when_active-Finished db now (fenced_task db a.task_id token) _
                  λ f. finish_active-Spends db now a outcome values estimated f h))
    ]

-- Where finish_acquisition_attempt returns true on a store that keeps its ledger, the rows of
-- crawl_provider_usage are the ones that there were, with the same limits: no row's reservation grew,
-- no row's consumption shrank, and no row's reservation and consumption are together more than they
-- were, so an attempt never consumes more than was reserved.
pub finish_acquisition_attempt-AreSpent :
    (db after : Db) (now attempt token : ℕ) (outcome : String) (values : List Reported)
    (estimated : Bool)
    → HasLedger db
    → finish_acquisition_attempt db now attempt token outcome values estimated ≡ ok (after, true)
    → AreSpent db.usage after.usage
finish_acquisition_attempt-AreSpent db after now attempt token outcome values estimated h e =
    let spends =
      subst (Yields (Finished db)) e
        (finish_acquisition_attempt-Finished db now attempt token outcome values estimated h)
        refl in
    spends.spent
