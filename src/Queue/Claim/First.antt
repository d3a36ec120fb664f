-- ===== src/Queue/Claim/First.antt =====
-- The row that ORDER BY … LIMIT 1 gives, and the order of claims in app/crawl/repository.py.
use crawltrove.Base.{
  ◌≡◌, subst, Bool, true, false, none, some, List, [], ◌∷◌, arith, Option-cases, Bool-cases, inl,
  inr, least_where, All, All-weaken,
}
use crawltrove.Queue.Rows.{Task}
use crawltrove.Queue.Claim.{claims_before}

-- The row that ORDER BY … LIMIT 1 gives is before or level with every eligible row.
module _ {A : Type 0} (p : A → Bool) (less : A → A → Bool) (irrefl : (x : A) → less x x ≡ false)
    (asym : (x y : A) → less x y ≡ true → less y x ≡ false)
    (negtrans : (x y z : A) → less y x ≡ false → less z y ≡ false → less z x ≡ false) where
  least_where-none : (xs : List A) → least_where p less xs ≡ none → All (λ x. p x ≡ false) xs
  unfolding least_where
  least_where-none [] h = tt
  least_where-none (x ∷ xs) h = elim (Bool-cases (p x)) [
    | inl e ↦ ground arith
    | inr e ↦ (e, least_where-none xs (ground arith))
  ]

  impossible : (x : A) → p x ≡ false → p x ≡ true → ⊥
  impossible x e q = cc

  pub least_where-first :
      (xs : List A) (t : A)
      → least_where p less xs ≡ some t
      → All (λ x. p x ≡ true → less x t ≡ false) xs
  unfolding least_where
  least_where-first [] t h = tt
  least_where-first (x ∷ xs) t h = elim (Bool-cases (p x)) [
    | inl e ↦ elim (Option-cases (least_where p less xs)) [
      | inl n ↦
          let same : x ≡ t = ground arith in
          (
            λ _. subst (λ y. less x y ≡ false) same (irrefl x),
            All-weaken xs (λ z k q. absurd (impossible z k q)) (least_where-none xs n),
          )
      | inr (y, n) ↦ elim (Bool-cases (less y x)) [
        | inl l ↦
            let same : y ≡ t = ground arith in
            (
              λ _. subst (λ z. less x z ≡ false) same (asym y x l),
              subst (λ z. All (λ w. p w ≡ true → less w z ≡ false) xs) same
                  (least_where-first xs y n),
            )
        | inr l ↦
            let same : x ≡ t = ground arith in
            (
              λ _. subst (λ z. less x z ≡ false) same (irrefl x),
              subst (λ z. All (λ w. p w ≡ true → less w z ≡ false) xs) same
                  (All-weaken xs (λ w k q. negtrans x y w l (k q)) (least_where-first xs y n)),
            )
      ]
    ]
    | inr e ↦ (λ q. absurd (impossible x e q), least_where-first xs t (ground arith))
  ]

pub claims_before_irrefl : (s : Task) → claims_before s s ≡ false
claims_before_irrefl s = ground arith

pub claims_before_asym : (s t : Task) → claims_before s t ≡ true → claims_before t s ≡ false
claims_before_asym s t h = ground arith

pub claims_before_negtrans :
    (s t u : Task)
    → claims_before t s ≡ false
    → claims_before u t ≡ false
    → claims_before u s ≡ false
claims_before_negtrans s t u h k = ground arith
