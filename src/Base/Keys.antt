-- ===== src/Base/Keys.antt =====
-- The laws of the table operations: predicates on all rows, keys, and sums.
use Prim.Native.Nat.{ℕ, ◌+◌}
use mathlib.Core.Path.{◌≡◌, refl, sym, ap, ◌∙◌}
use mathlib.Core.Logic.{inl, inr}
use mathlib.Core.Bool.{Bool, true, false}
use mathlib.Core.Option.{some}
use mathlib.Core.List.{List, [], ◌∷◌, ◌++◌}
use native.Mathlib.Omega.{arith}
use crawltrove.Base.Tests.{Bool-cases, Option-cases}
use crawltrove.Base.Table.{
  update_where, delete_where, find_where, exists_where, least_where, sum_of, All, Any, Row,
  Distinct, select_where,
}

module _ {A : Type 0} {P Q : A → Type 0} where
  pub All-weaken : (xs : List A) → ((x : A) → P x → Q x) → All P xs → All Q xs
  All-weaken [] k h = tt
  All-weaken (x ∷ xs) k h = (k x h.0, All-weaken xs k h.1)

  -- An update keeps or establishes a property of all rows.
  pub All-update_where :
      (p : A → Bool) (f : A → A) (xs : List A)
      → ((x : A) → P x → p x ≡ true → Q (f x))
      → ((x : A) → P x → p x ≡ false → Q x)
      → All P xs
      → All Q (update_where p f xs)
  unfolding update_where
  All-update_where p f [] hit miss h = tt
  All-update_where p f (x ∷ xs) hit miss h = elim (Bool-cases (p x)) [
    | inl e ↦ (rw e (hit x h.0 e), All-update_where p f xs hit miss h.1)
    | inr e ↦ (rw e (miss x h.0 e), All-update_where p f xs hit miss h.1)
  ]

module _ {A : Type 0} (P : A → Type 0) where
  pub All-append : (xs : List A) (y : A) → All P xs → P y → All P (xs ++ y ∷ [])
  All-append [] y h k = (k, tt)
  All-append (x ∷ xs) y h k = (h.0, All-append xs y h.1 k)

  pub All-delete_where : (p : A → Bool) (xs : List A) → All P xs → All P (delete_where p xs)
  unfolding delete_where
  All-delete_where p [] h = tt
  All-delete_where p (x ∷ xs) h = ground (arith, All-delete_where p xs h.1)

  pub All-Row : (t : A) (xs : List A) → Row t xs → All P xs → P t
  All-Row t [] r h = elim r [ ]
  All-Row t (x ∷ xs) (inl e) h = rw (← e) h.0
  All-Row t (x ∷ xs) (inr r) h = All-Row t xs r h.1

  pub Any-append : (xs : List A) (y : A) → Any P xs → Any P (xs ++ y ∷ [])
  Any-append [] y h = elim h [ ]
  Any-append (x ∷ xs) y (inl h) = inl h
  Any-append (x ∷ xs) y (inr h) = inr (Any-append xs y h)

  pub Any-last : (xs : List A) (y : A) → P y → Any P (xs ++ y ∷ [])
  Any-last [] y h = inl h
  Any-last (x ∷ xs) y h = inr (Any-last xs y h)

  -- A row that the DELETE does not match stays.
  pub Any-delete_where :
      (p : A → Bool) (xs : List A)
      → ((x : A) → P x → p x ≡ false)
      → Any P xs
      → Any P (delete_where p xs)
  unfolding delete_where
  Any-delete_where p [] k h = elim h [ ]
  Any-delete_where p (x ∷ xs) k (inl h) = rw (k x h) (inl h)
  Any-delete_where p (x ∷ xs) k (inr h) = elim (Bool-cases (p x)) [
    | inl e ↦ rw e (Any-delete_where p xs k h)
    | inr e ↦ rw e (inr (Any-delete_where p xs k h))
  ]

  -- A property that the update keeps still holds of some row.
  pub Any-update_where :
      (p : A → Bool) (f : A → A) (xs : List A)
      → ((x : A) → P x → P (f x))
      → Any P xs
      → Any P (update_where p f xs)
  unfolding update_where
  Any-update_where p f [] k h = elim h [ ]
  Any-update_where p f (x ∷ xs) k (inl h) = inl (ground (arith, k x h))
  Any-update_where p f (x ∷ xs) k (inr h) = inr (Any-update_where p f xs k h)

module _ {A : Type 0} (p : A → Bool) where
  pub find_where-Row : (xs : List A) (t : A) → find_where p xs ≡ some t → Row t xs × (p t ≡ true)
  unfolding find_where
  find_where-Row [] t h = cc
  find_where-Row (x ∷ xs) t h = elim (Bool-cases (p x)) [
    | inl e ↦ (inl (ground arith), ground arith)
    | inr e ↦ let r = find_where-Row xs t (ground arith) in (inr r.0, r.1)
  ]

  pub exists_where-none : (xs : List A) → exists_where p xs ≡ false → All (λ x. p x ≡ false) xs
  unfolding exists_where
  exists_where-none [] h = tt
  exists_where-none (x ∷ xs) h = (ground arith, exists_where-none xs (ground arith))

  pub exists_where-update_where :
      (q : A → Bool) (f : A → A) (xs : List A)
      → ((x : A) → p (f x) ≡ p x)
      → exists_where p (update_where q f xs) ≡ exists_where p xs
  unfolding exists_where update_where
  exists_where-update_where q f [] k = refl
  exists_where-update_where q f (x ∷ xs) k = ground (arith, k x, exists_where-update_where q f xs k)

  pub exists_where-append_item :
      (xs : List A) (y : A) → exists_where p xs ≡ true → exists_where p (xs ++ y ∷ []) ≡ true
  unfolding exists_where
  exists_where-append_item [] y h = cc
  exists_where-append_item (x ∷ xs) y h = ground (arith, exists_where-append_item xs y)

  pub select_where-All : (xs : List A) → All (λ x. p x ≡ true) (select_where p xs)
  unfolding select_where
  select_where-All [] = tt
  select_where-All (x ∷ xs) = ground (arith, select_where-All xs)

  -- The row that ORDER BY … LIMIT 1 gives is an eligible row of the table.
  pub least_where-Row :
      (less : A → A → Bool) (xs : List A) (t : A)
      → least_where p less xs ≡ some t
      → Row t xs × (p t ≡ true)
  unfolding least_where
  least_where-Row less [] t h = cc
  least_where-Row less (x ∷ xs) t h = elim (Bool-cases (p x)) [
    | inl e ↦ elim (Option-cases (least_where p less xs)) [
      | inl n ↦ (inl (ground arith), ground arith)
      | inr (y, n) ↦ elim (Bool-cases (less y x)) [
        | inl l ↦ let r = least_where-Row less xs t (ground arith) in (inr r.0, r.1)
        | inr l ↦ (inl (ground arith), ground arith)
      ]
    ]
    | inr e ↦ let r = least_where-Row less xs t (ground arith) in (inr r.0, r.1)
  ]

module _ {A K : Type 0} (key : A → K) where
  pub Distinct-update_where :
      (p : A → Bool) (f : A → A) (xs : List A)
      → ((x : A) → key (f x) ≡ key x)
      → Distinct key xs
      → Distinct key (update_where p f xs)
  unfolding update_where
  Distinct-update_where p f [] k h = tt
  Distinct-update_where p f (x ∷ xs) k h = (
    All-update_where p f xs (λ y n e. ground (arith, k x, k y)) (λ y n e. ground (arith, k x)) h.0,
    Distinct-update_where p f xs k h.1,
  )

  pub Distinct-delete_where :
      (p : A → Bool) (xs : List A) → Distinct key xs → Distinct key (delete_where p xs)
  unfolding delete_where
  Distinct-delete_where p [] h = tt
  Distinct-delete_where p (x ∷ xs) h =
      ground
        (arith, All-delete_where (λ y. ¬ (key y ≡ key x)) p xs h.0, Distinct-delete_where p xs h.1)

  pub Distinct-append :
      (xs : List A) (y : A)
      → All (λ x. ¬ (key x ≡ key y)) xs
      → Distinct key xs
      → Distinct key (xs ++ y ∷ [])
  Distinct-append [] y fresh h = (tt, tt)
  Distinct-append (x ∷ xs) y fresh h = (
    All-append (λ z. ¬ (key z ≡ key x)) xs y h.0 (λ e. fresh.0 (sym e)),
    Distinct-append xs y fresh.1 h.1,
  )

  -- Two rows with one key are one row.
  pub Distinct-Row :
      (xs : List A) (s t : A) → Distinct key xs → Row s xs → Row t xs → key s ≡ key t → s ≡ t
  Distinct-Row [] s t h a b e = elim a [ ]
  Distinct-Row (x ∷ xs) s t h (inl a) (inl b) e = sym a ∙ b
  Distinct-Row (x ∷ xs) s t h (inl a) (inr b) e =
      absurd (All-Row (λ y. ¬ (key y ≡ key x)) t xs b h.0 (sym e ∙ ap key (sym a)))
  Distinct-Row (x ∷ xs) s t h (inr a) (inl b) e =
      absurd (All-Row (λ y. ¬ (key y ≡ key x)) s xs a h.0 (e ∙ ap key (sym b)))
  Distinct-Row (x ∷ xs) s t h (inr a) (inr b) e = Distinct-Row xs s t h.1 a b e

module _ {A : Type 0} (c : A → ℕ) (p : A → Bool) (f : A → A) where
  -- An update of rows whose contribution it does not change leaves the sum.
  pub sum_of-update_same :
      (xs : List A)
      → All (λ x. p x ≡ true → c (f x) ≡ c x) xs
      → sum_of c (update_where p f xs) ≡ sum_of c xs
  unfolding update_where sum_of
  sum_of-update_same [] h = refl
  sum_of-update_same (x ∷ xs) h = ground (arith, h.0, sum_of-update_same xs h.1)

  update_where-miss :
      {K : Type 0} (key : A → K) (k : K) (xs : List A)
      → ((x : A) → p x ≡ true → key x ≡ k)
      → All (λ x. ¬ (key x ≡ k)) xs
      → sum_of c (update_where p f xs) ≡ sum_of c xs
  update_where-miss key k xs only h =
      sum_of-update_same xs (All-weaken xs (λ x n e. absurd (n (only x e))) h)

  -- An update of the one row t changes the sum by that row's contribution.
  pub sum_of-update_one :
      {K : Type 0} (key : A → K) (t : A) (xs : List A)
      → ((x : A) → p x ≡ true → key x ≡ key t)
      → p t ≡ true
      → Distinct key xs
      → Row t xs
      → sum_of c (update_where p f xs) + c t ≡ sum_of c xs + c (f t)
  unfolding update_where sum_of
  sum_of-update_one key t [] only hit d r = elim r [ ]
  sum_of-update_one key t (x ∷ xs) only hit d (inl e) =
      let same = update_where-miss key (key x) xs (λ y q. only y q ∙ ap key (sym e)) d.0 in
      let here : p x ≡ true = ap p e ∙ hit in
      let new : c (f x) ≡ c (f t) = ap (λ z. c (f z)) e in
      rw here (omega (arith, same, new, ap c e))
  sum_of-update_one key t (x ∷ xs) only hit d (inr r) =
      let rest = sum_of-update_one key t xs only hit d.1 r in
      elim (Bool-cases (p x)) [
        | inl q ↦ absurd (All-Row (λ y. ¬ (key y ≡ key x)) t xs r d.0 (sym (only x q)))
        | inr q ↦ rw q (omega arith)
      ]

module _ {A : Type 0} (c : A → ℕ) where
  pub sum_of-append : (xs : List A) (y : A) → sum_of c (xs ++ y ∷ []) ≡ sum_of c xs + c y
  unfolding sum_of
  sum_of-append [] y = omega arith
  sum_of-append (x ∷ xs) y = omega (arith, sum_of-append xs y)

module _ {A : Type 0} where
  pub All-zip : (P Q : A → Type 0) (xs : List A) → All P xs → All Q xs → All (λ x. P x × Q x) xs
  All-zip P Q [] h k = tt
  All-zip P Q (x ∷ xs) h k = ((h.0, k.0), All-zip P Q xs h.1 k.1)

  -- With distinct keys, every row that has t's key is t.
  pub Distinct-All :
      {K : Type 0} (key : A → K) (t : A) (xs : List A)
      → Distinct key xs
      → Row t xs
      → All (λ x. key x ≡ key t → x ≡ t) xs
  Distinct-All key t [] d r = tt
  Distinct-All key t (x ∷ xs) d (inl e) =
      (λ _. e, All-weaken xs (λ y n q. absurd (n (q ∙ ap key (sym e)))) d.0)
  Distinct-All key t (x ∷ xs) d (inr r) = (
    λ q. absurd (All-Row (λ y. ¬ (key y ≡ key x)) t xs r d.0 (sym q)),
    Distinct-All key t xs d.1 r,
  )

  pub Any-All :
      (P Q : A → Type 0) (C : Type 0) (xs : List A)
      → All P xs
      → Any Q xs
      → ((x : A) → P x → Q x → C)
      → C
  Any-All P Q C [] h a k = absurd a
  Any-All P Q C (x ∷ xs) h (inl q) k = k x h.0 q
  Any-All P Q C (x ∷ xs) h (inr a) k = Any-All P Q C xs h.1 a k

  pub sum_of-zero : (c : A → ℕ) (xs : List A) → All (λ x. c x ≡ 0) xs → sum_of c xs ≡ 0
  unfolding sum_of
  sum_of-zero c [] h = refl
  sum_of-zero c (x ∷ xs) h = omega (arith, h.0, sum_of-zero c xs h.1)
