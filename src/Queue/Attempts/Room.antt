-- ===== src/Queue/Attempts/Room.antt =====
-- The room that a reservation of native meters needs in the ledger of app/crawl/repository.py.
use crawltrove.Base.{
  ℕ, ◌+◌, ◌≤◌, ◌≡◌, refl, sym, ap, ◌∙◌, subst, String, true, none, some, List, [], ◌∷◌, arith,
  Option-cases, inl, inr, and-eq-true, update_where, find_where, All, All-update_where, All-zip,
  All-weaken, Distinct, Distinct-update_where,
}
use crawltrove.Queue.Rows.{Amount, Usage}
use crawltrove.Queue.Ledger.{is_meter}
use crawltrove.Queue.Ledger.Limits.{usage_key, WithinLimit, IsLedger, is_meter-usage_key, meter_row}
use crawltrove.Queue.Attempts.{row_has_room, has_room, reserve_amount, reserve_usage}

-- Every row of a meter in the cost has room for its amount.
abbrev pub FitsIn : List Usage → ℕ → String → Amount → Type 0
FitsIn usage job provider a =
    All
      (λ u.
        is_meter job provider a.meter u ≡ true
        → a.value + (u.reserved_value + u.consumed_value) ≤ u.limit_value)
      usage

row-FitsIn :
    (usage : List Usage) (job : ℕ) (provider : String) (a : Amount)
    → Distinct usage_key usage
    → row_has_room a.value (find_where (is_meter job provider a.meter) usage) ≡ true
    → FitsIn usage job provider a
row-FitsIn usage job provider a keys h =
    elim (Option-cases (find_where (is_meter job provider a.meter) usage)) [
      | inl e ↦ absurd (empty (subst (λ o. row_has_room a.value o ≡ true) e h))
      | inr (u, e) ↦
          All-weaken usage
            (λ x same m.
              subst (λ y. a.value + (y.reserved_value + y.consumed_value) ≤ y.limit_value)
                (sym (same m)) (room u (subst (λ o. row_has_room a.value o ≡ true) e h)))
            (meter_row usage job provider a.meter u keys e)
    ]
  where
    empty : row_has_room a.value none ≡ true → ⊥
    empty e = cc

    room :
        (u : Usage)
        → row_has_room a.value (some u) ≡ true
        → a.value + (u.reserved_value + u.consumed_value) ≤ u.limit_value
    room u e = ground arith

pub has_room-FitsIn :
    (usage : List Usage) (job : ℕ) (provider : String) (cost : List Amount)
    → Distinct usage_key usage
    → has_room usage job provider cost ≡ true
    → All (FitsIn usage job provider) cost
unfolding has_room
has_room-FitsIn usage job provider [] keys h = tt
has_room-FitsIn usage job provider (a ∷ rest) keys h =
    let (this, others) =
      and-eq-true (row_has_room a.value (find_where (is_meter job provider a.meter) usage))
        (has_room usage job provider rest) h in
    (row-FitsIn usage job provider a keys this, has_room-FitsIn usage job provider rest keys others)

-- A reservation on one meter leaves the room of the other meters.
reserve-FitsIn :
    (usage : List Usage) (job : ℕ) (provider : String) (a b : Amount)
    → ¬ (b.meter ≡ a.meter)
    → FitsIn usage job provider b
    → FitsIn
        (update_where (is_meter job provider a.meter) (reserve_amount a.value) usage)
        job
        provider
        b
unfolding reserve_amount
reserve-FitsIn usage job provider a b other h =
    All-update_where (is_meter job provider a.meter) (reserve_amount a.value) usage
      (λ x k e q. absurd (
        other (
          meter (is_meter-usage_key job provider b.meter x q)
            (is_meter-usage_key job provider a.meter x e))))
      (λ x k e. k) h
  where
    meter :
        {u : ℕ × (String × String)}
        → u ≡ (job, (provider, b.meter))
        → u ≡ (job, (provider, a.meter))
        → b.meter ≡ a.meter
    meter x y = ap (λ (k : ℕ × (String × String)). k.1.1) (sym x ∙ y)

pub reserve_usage-IsLedger :
    (usage : List Usage) (job : ℕ) (provider : String) (cost : List Amount)
    → Distinct (λ (a : Amount). a.meter) cost
    → All (FitsIn usage job provider) cost
    → IsLedger usage
    → IsLedger (reserve_usage usage job provider cost)
unfolding reserve_usage reserve_amount
reserve_usage-IsLedger usage job provider [] distinct fits h = h
reserve_usage-IsLedger usage job provider (a ∷ rest) distinct fits h =
    reserve_usage-IsLedger
      (update_where (is_meter job provider a.meter) (reserve_amount a.value) usage) job provider
      rest distinct.1
      (All-weaken rest (λ b k. reserve-FitsIn usage job provider a b k.0 k.1)
        (All-zip _ _ rest distinct.0 fits.1))
      (record {
        keys =
            Distinct-update_where usage_key (is_meter job provider a.meter) (reserve_amount a.value)
              usage (λ x. refl) h.keys;
        within =
            All-update_where (is_meter job provider a.meter) (reserve_amount a.value) usage
              (λ x k m. reserved_fits a x (k.1 m)) (λ x k m. k.0)
              (All-zip WithinLimit _ usage h.within fits.0);
      })
  where
    reserved_fits :
        (a : Amount) (x : Usage)
        → a.value + (x.reserved_value + x.consumed_value) ≤ x.limit_value
        → WithinLimit (reserve_amount a.value x)
    reserved_fits a x le = omega (arith, le)
