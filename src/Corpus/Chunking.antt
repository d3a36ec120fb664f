-- ===== src/Corpus/Chunking.antt =====
-- app/corpus/chunking.py: Markdown into blocks, and blocks into overlapping chunks. A text is its
-- code points.
pub mod Tiles
pub mod Packing
use crawltrove.Base.{
  ℕ, zero, suc, ◌+◌, ◌-◌, ◌≡◌, Bool, true, false, not, ◌&&◌, ◌||◌, Option, none, some, List, [],
  ◌∷◌, ◌++◌, ◌==◌, ltb, leb, if◌then◌else◌, map, select_where, length, codes, String, Str, is_empty,
  has_ink, is_space, lstrip, strip, split, join, splitlines, contains_text, last_items,
}

-- `_count_tokens`
unfoldable pub count_tokens : Str → ℕ
unfolding split
count_tokens text = length (split text)

-- How often a text has the character at its front, and what follows.
unfoldable pub run_of : ℕ → Str → ℕ × Str
run_of c [] = (0, [])
run_of c (d ∷ s) = let rest = run_of c s in if d == c then (rest.0 + 1, rest.1) else (0, d ∷ s)

abbrev starts_with_space : Str → Bool
starts_with_space [] = false
starts_with_space (c ∷ s) = is_space c

-- `_HEADING.match`: the level and the stripped title
unfoldable pub heading_of : Str → Option (ℕ × Str)
unfolding run_of strip
heading_of line =
    let (level, rest) = run_of b'#' line in
    if leb 1 level && leb level 6 && starts_with_space rest then some (level, strip rest) else none

abbrev fence_run : ℕ → Str → Option (ℕ × ℕ)
unfolding run_of
fence_run c text = let (n, rest) = run_of c text in if leb 3 n then some (c, n) else none

abbrev first_some : {A : Type 0} → Option A → Option A → Option A
first_some none o = o
first_some (some a) o = some a

-- `_FENCE.match`: the character and the length of an opening fence
unfoldable pub fence_of : Str → Option (ℕ × ℕ)
unfolding lstrip run_of
fence_of line = first_some (fence_run b'`' (lstrip line)) (fence_run b'~' (lstrip line))

-- The pattern `close` of the closing fence.
unfoldable pub closes : ℕ → ℕ → Str → Bool
unfolding lstrip run_of
closes c n line = let (k, rest) = run_of c (lstrip line) in leb n k && not (has_ink rest)

pub data Block : Type 0 where
  heading : ℕ → Str → Block
  code : Str → Block
  para : Str → Block

abbrev pub newline : Str
newline = 10 ∷ []

abbrev pub is_none : {A : Type 0} → Option A → Bool
is_none none = true
is_none (some a) = false

-- The lines of a fenced block after its opening fence, and the lines that follow the block.
unfoldable pub take_code : ℕ → ℕ → List Str → List Str × List Str
unfolding closes
take_code c n [] = ([], [])
take_code c n (line ∷ lines) =
    let (body, rest) = take_code c n lines in
    if closes c n line then (line ∷ [], lines) else (line ∷ body, rest)

-- A line that goes on with a paragraph.
unfoldable pub is_plain : Str → Bool
unfolding heading_of fence_of
is_plain line = has_ink line && is_none (heading_of line) && is_none (fence_of line)

unfoldable pub take_para : List Str → List Str × List Str
unfolding is_plain
take_para [] = ([], [])
take_para (line ∷ lines) =
    let (body, rest) = take_para lines in
    if is_plain line then (line ∷ body, rest) else ([], line ∷ lines)

-- What the first line of the rest is.
pub data LineKind : Type 0 where
  opens : ℕ → ℕ → LineKind
  titles : ℕ → Str → LineKind
  blank : LineKind
  plain : LineKind

unfoldable pub plain_kind : Str → LineKind
plain_kind line = if has_ink line then plain else blank

unfoldable pub title_kind : Str → Option (ℕ × Str) → LineKind
unfolding plain_kind
title_kind line (some (level, title)) = titles level title
title_kind line none = plain_kind line

unfoldable pub line_kind : Str → Option (ℕ × ℕ) → LineKind
unfolding title_kind heading_of
line_kind line (some (c, n)) = opens c n
line_kind line none = title_kind line (heading_of line)

-- `_iter_blocks` on the lines, `none` if the fuel runs out.
unfoldable pub iter_blocks : ℕ → List Str → Option (List Block)
unfolding take_code take_para line_kind fence_of
iter_blocks fuel [] = some []
iter_blocks zero (line ∷ lines) = none
iter_blocks (suc fuel) (line ∷ lines) = elim (line_kind line (fence_of line)) [
  | opens c n ↦
      let (body, rest) = take_code c n lines in
      emit (code (join newline (line ∷ body))) (iter_blocks fuel rest)
  | titles level title ↦ emit (heading level title) (iter_blocks fuel lines)
  | blank ↦ iter_blocks fuel lines
  | plain ↦
      let (body, rest) = take_para lines in
      emit (para (join newline (line ∷ body))) (iter_blocks fuel rest)
]
  where
    emit : Block → Option (List Block) → Option (List Block)
    emit b none = none
    emit b (some bs) = some (b ∷ bs)
