-- ===== src/Base/Strings.antt =====
-- Python's `str` methods on texts as lists of code points.
use Prim.Native.Nat.{ℕ, ◌-◌}
use mathlib.Core.Path.{◌≡◌, refl, ◌∙◌}
use mathlib.Core.Bool.{Bool, true, false, not, ◌&&◌, ◌||◌}
use mathlib.Core.List.{List, [], ◌∷◌, ◌++◌}
use native.Mathlib.Omega.{arith}
use crawltrove.Base.Tests.{if◌then◌else◌, ◌==◌, leb}
use crawltrove.Base.Table.{length, exists_where}

abbrev pub Str : Type 0
Str = List ℕ

-- `c.isspace()`, which is also what `\s` matches
unfoldable pub is_space : ℕ → Bool
is_space c =
    leb 9 c && leb c 13
    || leb 28 c && leb c 32
    || c == 0x85
    || c == 0xa0
    || c == 0x1680
    || leb 0x2000 c && leb c 0x200a
    || c == 0x2028
    || c == 0x2029
    || c == 0x202f
    || c == 0x205f
    || c == 0x3000

-- Some character is not white space.
abbrev pub has_ink : Str → Bool
has_ink = exists_where (λ c. not (is_space c))

-- `not s`
abbrev pub is_empty {ℓ} : {A : Type ℓ} → List A → Bool
is_empty [] = true
is_empty (x ∷ xs) = false

-- `s.lstrip()`
unfoldable pub lstrip : Str → Str
unfolding is_space
lstrip [] = []
lstrip (c ∷ s) = let rest = lstrip s in if is_space c then rest else c ∷ s

-- `s.rstrip()`
unfoldable pub rstrip : Str → Str
unfolding is_space
rstrip [] = []
rstrip (c ∷ s) = let rest = rstrip s in if is_space c && is_empty rest then [] else c ∷ rest

-- `s.strip()`
unfoldable pub strip : Str → Str
unfolding lstrip rstrip
strip s = rstrip (lstrip s)

abbrev starts_word : Str → Bool
starts_word [] = false
starts_word (c ∷ s) = not (is_space c)

-- A character before the first of some words or lines.
abbrev pub glue : ℕ → List Str → List Str
glue c [] = (c ∷ []) ∷ []
glue c (w ∷ ws) = (c ∷ w) ∷ ws

-- `s.split()`
unfoldable pub split : Str → List Str
unfolding is_space
split [] = []
split (c ∷ s) =
    let words = split s in
    if is_space c then words else if starts_word s then glue c words else (c ∷ []) ∷ words

-- `sep.join(parts)`
unfoldable pub join : Str → List Str → Str
join sep [] = []
join sep (part ∷ parts) =
    let rest = join sep parts in if is_empty parts then part else part ++ (sep ++ rest)

-- The characters at which `splitlines` ends a line.
abbrev is_line_break : ℕ → Bool
is_line_break c =
    leb 10 c && leb c 13 || leb 28 c && leb c 30 || c == 0x85 || c == 0x2028 || c == 0x2029

abbrev starts_with_lf : Str → Bool
starts_with_lf [] = false
starts_with_lf (c ∷ s) = c == 10

-- `s.splitlines()`; a carriage return before a line feed belongs to its break
unfoldable pub splitlines : Str → List Str
splitlines [] = []
splitlines (c ∷ s) =
    let rest = splitlines s in
    if is_line_break c
    then (if c == 13 && starts_with_lf s then rest else [] ∷ rest)
    else glue c rest

unfoldable pub starts_with : Str → Str → Bool
starts_with s [] = true
starts_with [] (c ∷ p) = false
starts_with (d ∷ s) (c ∷ p) = d == c && starts_with s p

-- `p in s`
unfoldable pub contains_text : Str → Str → Bool
unfolding starts_with
contains_text [] p = starts_with [] p
contains_text (c ∷ s) p = starts_with (c ∷ s) p || contains_text s p

unfoldable pub drop {ℓ} : {A : Type ℓ} → ℕ → List A → List A
drop n [] = []
drop n (x ∷ xs) = let rest = drop (n - 1) xs in if n == 0 then x ∷ xs else rest

-- `xs[-n:]` for a positive n
abbrev pub last_items {ℓ} : {A : Type ℓ} → ℕ → List A → List A
last_items n xs = drop (length xs - n) xs

lstrip-has_ink : (s : Str) → has_ink s ≡ true → has_ink (lstrip s) ≡ true
unfolding lstrip exists_where
lstrip-has_ink [] h = h
lstrip-has_ink (c ∷ s) h = ground (arith, lstrip-has_ink s)

rstrip-has_ink : (s : Str) → has_ink s ≡ true → is_empty (rstrip s) ≡ false
unfolding rstrip exists_where
rstrip-has_ink [] h = cc
rstrip-has_ink (c ∷ s) h = ground (arith, rstrip-has_ink s)

-- Stripping a text that has more than white space leaves something.
pub strip-has_ink : (s : Str) → has_ink s ≡ true → is_empty (strip s) ≡ false
unfolding strip
strip-has_ink s h = rstrip-has_ink (lstrip s) (lstrip-has_ink s h)

exists_where-append :
    {A : Type 0} (p : A → Bool) (xs ys : List A)
    → exists_where p (xs ++ ys) ≡ (exists_where p xs || exists_where p ys)
unfolding exists_where
exists_where-append p [] ys = refl
exists_where-append p (x ∷ xs) ys = ground (arith, exists_where-append p xs ys)

-- A joined text has what its parts have.
pub join-has_ink :
    (sep part : Str) (parts : List Str)
    → has_ink part ≡ true
    → has_ink (join sep (part ∷ parts)) ≡ true
unfolding join
join-has_ink sep part [] h = h
join-has_ink sep part (p ∷ parts) h =
    exists_where-append (λ c. not (is_space c)) part (sep ++ join sep (p ∷ parts)) ∙ rw h refl

-- A text of white space strips to nothing.
pub lstrip-blank : (s : Str) → has_ink s ≡ false → lstrip s ≡ []
unfolding lstrip exists_where
lstrip-blank [] h = refl
lstrip-blank (c ∷ s) h = ground (arith, lstrip-blank s)
