-- ===== src/Base/Table.antt =====
-- Tables as lists of rows: the statements of SQL that the repository issues. An INSERT appends.
use Prim.Native.Nat.{ℕ, ◌+◌}
use mathlib.Core.Path.{◌≡◌}
use mathlib.Core.Logic.{◌⊎◌}
use mathlib.Core.Bool.{Bool, false, ◌||◌}
use mathlib.Core.Option.{Option, none, some}
use mathlib.Core.List.{List, [], ◌∷◌}
use crawltrove.Base.Tests.{if◌then◌else◌}

module _ {ℓ} {A : Type ℓ} where
  -- UPDATE … SET f WHERE p
  unfoldable pub update_where : (A → Bool) → (A → A) → List A → List A
  update_where p f [] = []
  update_where p f (x ∷ xs) = (if p x then f x else x) ∷ update_where p f xs

  -- DELETE … WHERE p
  unfoldable pub delete_where : (A → Bool) → List A → List A
  delete_where p [] = []
  delete_where p (x ∷ xs) = let rest = delete_where p xs in if p x then rest else x ∷ rest

  -- SELECT … WHERE p, in the order of the table
  unfoldable pub select_where : (A → Bool) → List A → List A
  select_where p [] = []
  select_where p (x ∷ xs) = let rest = select_where p xs in if p x then x ∷ rest else rest

  -- the first row that passes, as `fetchrow` returns it
  unfoldable pub find_where : (A → Bool) → List A → Option A
  find_where p [] = none
  find_where p (x ∷ xs) = let rest = find_where p xs in if p x then some x else rest

  -- SELECT EXISTS (…)
  unfoldable pub exists_where : (A → Bool) → List A → Bool
  exists_where p [] = false
  exists_where p (x ∷ xs) = p x || exists_where p xs

  abbrev lesser : (A → A → Bool) → A → Option A → A
  lesser less x none = x
  lesser less x (some y) = if less y x then y else x

  -- SELECT … WHERE p ORDER BY less LIMIT 1
  unfoldable pub least_where : (A → Bool) → (A → A → Bool) → List A → Option A
  least_where p less [] = none
  least_where p less (x ∷ xs) =
      let rest = least_where p less xs in if p x then some (lesser less x rest) else rest

  unfoldable pub sum_of : (A → ℕ) → List A → ℕ
  sum_of c [] = 0
  sum_of c (x ∷ xs) = c x + sum_of c xs

  -- sum(g) FILTER (WHERE p)
  abbrev pub sum_where : (A → Bool) → (A → ℕ) → List A → ℕ
  sum_where p g = sum_of (λ x. if p x then g x else 0)

  -- count(*) FILTER (WHERE p)
  abbrev pub count_where : (A → Bool) → List A → ℕ
  count_where p = sum_where p (λ x. 1)

  abbrev pub length : List A → ℕ
  length = sum_of (λ x. 1)

  -- every row satisfies P
  abbrev pub All : (A → Type 0) → List A → Type 0
  All P [] = Unit
  All P (x ∷ xs) = P x × All P xs

  -- some row, which is at hand, satisfies P
  abbrev pub Any : (A → Type 0) → List A → Type 0
  Any P [] = ⊥
  Any P (x ∷ xs) = P x ⊎ Any P xs

-- t is a row of the table
abbrev pub Row : {A : Type 0} → A → List A → Type 0
Row t = Any (λ x. x ≡ t)

-- no two rows have the same key
abbrev pub Distinct : {A K : Type 0} → (A → K) → List A → Type 0
Distinct key [] = Unit
Distinct key (x ∷ xs) = All (λ y. ¬ (key y ≡ key x)) xs × Distinct key xs
