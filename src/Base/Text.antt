-- ===== src/Base/Text.antt =====
-- Texts as lists of code points, for code that walks a text.
use Prim.Native.Nat.{ℕ, ◌+◌}
use Prim.Native.Char.{code}
use Prim.Native.String.{String, [], ◌∷◌}
use mathlib.Core.Bool.{Bool, true, false, ◌&&◌, ◌||◌}
use mathlib.Core.List.{List}
use crawltrove.Base.Tests.{if◌then◌else◌, ◌==◌, leb}

abbrev pub codes : String → List ℕ
codes [] = List.[]
codes (c ∷ s) = List.◌∷◌ (code c) (codes s)

abbrev to_lower : ℕ → ℕ
to_lower c = if leb b'A' c && leb c b'Z' then c + 32 else c

-- `s.lower()` on ASCII letters
unfoldable pub lower : List ℕ → List ℕ
lower List.[] = List.[]
lower (List.◌∷◌ c s) = List.◌∷◌ (to_lower c) (lower s)

-- `s.split(sep, 1)[0]` for a separator of one character
unfoldable pub before : ℕ → List ℕ → List ℕ
before sep List.[] = List.[]
before sep (List.◌∷◌ c s) = let rest = before sep s in if c == sep then List.[] else List.◌∷◌ c rest

unfoldable pub same_codes : List ℕ → List ℕ → Bool
same_codes List.[] List.[] = true
same_codes (List.◌∷◌ a s) (List.◌∷◌ b t) = a == b && same_codes s t
same_codes _ _ = false

-- `s.endswith(suffix)`
unfoldable pub ends_with : List ℕ → List ℕ → Bool
unfolding same_codes
ends_with List.[] suffix = same_codes List.[] suffix
ends_with (List.◌∷◌ c s) suffix = same_codes (List.◌∷◌ c s) suffix || ends_with s suffix

-- `s.endswith((a, b, …))`
unfoldable pub ends_with_any : List ℕ → List String → Bool
unfolding ends_with
ends_with_any s List.[] = false
ends_with_any s (List.◌∷◌ suffix rest) = ends_with s (codes suffix) || ends_with_any s rest
