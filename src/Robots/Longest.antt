-- ===== src/Robots/Longest.antt =====
-- app/crawl/policy.py: the most specific rule decides, and Allow wins a tie.
use crawltrove.Base.{
  ℕ, ◌≤◌, ◌≡◌, refl, sym, subst, Bool, true, false, List, [], ◌∷◌, len, leb, if◌then◌else◌,
  exists_where, exists_where-none, select_where, select_where-All, All, All-Row, Row, inl, inr,
  arith, All-weaken, Bool-cases,
}
use crawltrove.Robots.{RuleLine, longest, is_longest, decide}

-- A rule of the list that no rule is longer than.
pub record IsMostSpecific (rules : List RuleLine) (r : RuleLine) : Type 0 where
  row : Row r rules
  longest : All (λ x. len x.path ≤ len r.path) rules

longest_bound : (rules : List RuleLine) → All (λ x. len x.path ≤ longest rules) rules
unfolding longest
longest_bound [] = tt
longest_bound (r ∷ rest) =
    (omega arith, All-weaken rest (λ x k. omega (arith, k)) (longest_bound rest))

-- Some rule has the longest path.
longest_at :
    (r : RuleLine) (rest : List RuleLine)
    → (x : RuleLine) × (Row x (r ∷ rest) × (len x.path ≡ longest (r ∷ rest)))
unfolding longest
longest_at r [] = (r, (inl refl, omega arith))
longest_at r (y ∷ ys) =
    let (x, (row, k)) = longest_at y ys in
    elim (Bool-cases (leb (longest (y ∷ ys)) (len r.path))) [
      | inl e ↦ (r, (inl refl, ground arith))
      | inr e ↦ (x, (inr row, ground (arith, k)))
    ]

exists_where-Row :
    (p : RuleLine → Bool) (xs : List RuleLine)
    → exists_where p xs ≡ true
    → (r : RuleLine) × (Row r xs × (p r ≡ true))
unfolding exists_where
exists_where-Row p [] h = cc
exists_where-Row p (x ∷ xs) h = elim (Bool-cases (p x)) [
  | inl e ↦ (x, (inl refl, e))
  | inr e ↦ let (r, (row, k)) = exists_where-Row p xs (ground arith) in (r, (inr row, k))
]

-- A selected row is a row of the table.
select_where-Row :
    (p : RuleLine → Bool) (xs : List RuleLine) (r : RuleLine) → Row r (select_where p xs) → Row r xs
unfolding select_where
select_where-Row p [] r h = absurd h
select_where-Row p (x ∷ xs) r h = elim (Bool-cases (p x)) [
  | inl e ↦
      kept (select_where-Row p xs r)
        (subst (λ b. Row r (if b then x ∷ select_where p xs else select_where p xs)) e h)
  | inr e ↦ inr (
      select_where-Row p xs r
        (subst (λ b. Row r (if b then x ∷ select_where p xs else select_where p xs)) e h))
]
  where
    kept : (Row r (select_where p xs) → Row r xs) → Row r (x ∷ select_where p xs) → Row r (x ∷ xs)
    kept f (inl k) = inl k
    kept f (inr k) = inr (f k)

-- What holds of the selected rows holds of every row that passes the test.
select_all :
    (P : RuleLine → Type 0) (p : RuleLine → Bool) (xs : List RuleLine)
    → All P (select_where p xs)
    → All (λ x. p x ≡ true → P x) xs
unfolding select_where
select_all P p [] h = tt
select_all P p (x ∷ xs) h = elim (Bool-cases (p x)) [
  | inl e ↦
      let k = subst (λ b. All P (if b then x ∷ select_where p xs else select_where p xs)) e h in
      (λ _. k.0, select_all P p xs k.1)
  | inr e ↦
      let k = subst (λ b. All P (if b then x ∷ select_where p xs else select_where p xs)) e h in
      (λ q. absurd (differ e q), select_all P p xs k)
]
  where
    differ : p x ≡ false → p x ≡ true → ⊥
    differ a b = cc

-- A most specific rule decides: it allows, or it and all rules of its length disallow.
pub data IsDecided (rules : List RuleLine) : Bool → Type 0 where
  no_rule : rules ≡ [] → IsDecided rules true
  allowed : (r : RuleLine) → IsMostSpecific rules r → r.allowance ≡ true → IsDecided rules true
  disallowed :
      (r : RuleLine)
      → IsMostSpecific rules r
      → All (λ x. len x.path ≡ len r.path → x.allowance ≡ false) rules
      → IsDecided rules false

-- Of the rules that match a path, one of the longest that allows decides if there is one, and else
-- the URL is refused; without a matching rule it is allowed.
pub decide-IsDecided : (rules : List RuleLine) → IsDecided rules (decide rules)
unfolding decide
decide-IsDecided [] = no_rule refl
decide-IsDecided (r ∷ rest) = elim (Bool-cases (decide rules)) [
  | inl e ↦
      let (x, (row, ok)) =
        exists_where-Row (λ x. x.allowance) (select_where (is_longest n) rules) e in
      let long =
        All-Row (λ x. is_longest n x ≡ true) x (select_where (is_longest n) rules) row
          (select_where-All (is_longest n) rules) in
      subst (IsDecided rules) (sym e) (
        allowed x
          (record {
            row = select_where-Row (is_longest n) rules x row;
            longest = All-weaken rules (λ y k. ground (arith, k, long)) (longest_bound rules);
          })
          ok)
  | inr e ↦
      let (x, (row, long)) = longest_at r rest in
      let none_allows =
        exists_where-none (λ x. x.allowance) (select_where (is_longest n) rules) e in
      subst (IsDecided rules) (sym e) (
        disallowed x
          (record {
            row = row;
            longest = All-weaken rules (λ y k. omega (arith, k, long)) (longest_bound rules);
          })
          (All-weaken rules (λ y k q. k (ground (arith, q, long)))
            (select_all (λ x. x.allowance ≡ false) (is_longest n) rules none_allows)))
]
  where
    rules : List RuleLine
    rules = r ∷ rest

    n : ℕ
    n = longest rules
