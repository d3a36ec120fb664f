-- ===== src/Corpus/Chunking/Tiles.antt =====
-- `_iter_blocks` of app/corpus/chunking.py against a grammar of Markdown lines.
use crawltrove.Base.{
  ℕ, zero, suc, ◌≤◌, ◌≡◌, refl, sym, ap, subst, true, false, none, some, List, [], ◌∷◌, ◌++◌, arith,
  Bool-cases, Option-cases, inl, inr, All, Str, length, sum_of, join, has_ink,
}
use crawltrove.Corpus.Chunking.{
  heading_of, fence_of, closes, Block, heading, code, para, newline, take_code, take_para, is_plain,
  iter_blocks, line_kind, title_kind, plain_kind,
}

abbrev pub size : List Str → ℕ
size [] = 0
size (line ∷ lines) = suc (size lines)

pub size-le-length : (lines : List Str) → size lines ≤ length lines
unfolding sum_of
size-le-length [] = omega arith
size-le-length (line ∷ lines) = omega (arith, size-le-length lines)

-- The text does not start with a line that goes on with a paragraph.
abbrev StopsPara : List Str → Type 0
StopsPara [] = Unit
StopsPara (line ∷ lines) = is_plain line ≡ false

-- The lines make the blocks: every line is in the block that stands for it, in order, except the
-- blank lines between blocks.
pub data Tiles : List Str → List Block → Type 0 where
  done : Tiles [] []
  skip :
      {line : Str} {lines : List Str} {blocks : List Block}
      → has_ink line ≡ false
      → Tiles lines blocks
      → Tiles (line ∷ lines) blocks
  title :
      {line title : Str} {level : ℕ} {lines : List Str} {blocks : List Block}
      → fence_of line ≡ none
      → heading_of line ≡ some (level, title)
      → Tiles lines blocks
      → Tiles (line ∷ lines) (heading level title ∷ blocks)
  fenced :
      (inner : List Str) (last : Str) {line : Str} {c n : ℕ} {lines : List Str}
      {blocks : List Block}
      → fence_of line ≡ some (c, n)
      → All (λ l. closes c n l ≡ false) inner
      → closes c n last ≡ true
      → Tiles lines blocks
      → Tiles
          (line ∷ (inner ++ last ∷ lines))
          (code (join newline (line ∷ (inner ++ last ∷ []))) ∷ blocks)
  unclosed :
      {line : Str} {c n : ℕ} {inner : List Str}
      → fence_of line ≡ some (c, n)
      → All (λ l. closes c n l ≡ false) inner
      → Tiles (line ∷ inner) (code (join newline (line ∷ inner)) ∷ [])
  text :
      (more lines : List Str) {line : Str} {blocks : List Block}
      → is_plain line ≡ true
      → All (λ l. is_plain l ≡ true) more
      → StopsPara lines
      → Tiles lines blocks
      → Tiles (line ∷ (more ++ lines)) (para (join newline (line ∷ more)) ∷ blocks)

-- How the lines of a fenced block end: with the first line that closes it, or with the text.
data CodeEnd (c n : ℕ) (lines : List Str) : Type 0 where
  closed :
      (inner : List Str) (last : Str) (rest : List Str)
      → All (λ l. closes c n l ≡ false) inner
      → closes c n last ≡ true
      → lines ≡ inner ++ last ∷ rest
      → take_code c n lines ≡ (inner ++ last ∷ [], rest)
      → CodeEnd c n lines
  open_end :
      All (λ l. closes c n l ≡ false) lines → take_code c n lines ≡ (lines, []) → CodeEnd c n lines

take_code-CodeEnd : (c n : ℕ) (lines : List Str) → CodeEnd c n lines
unfolding take_code
take_code-CodeEnd c n [] = open_end tt refl
take_code-CodeEnd c n (line ∷ lines) = elim (Bool-cases (closes c n line)) [
  | inl e ↦ closed [] line lines tt e refl (rw (e, take_code) refl)
  | inr e ↦ elim (take_code-CodeEnd c n lines) [
    | closed inner last rest h k p q ↦
        closed (line ∷ inner) last rest (e, h) k (rw p refl) (rw (e, take_code) (rw q refl))
    | open_end h q ↦ open_end (e, h) (rw (e, take_code) (rw q refl))
  ]
]

record ParaEnd (lines : List Str) : Type 0 where
  more : List Str
  rest : List Str
  plains : All (λ l. is_plain l ≡ true) more
  stops : StopsPara rest
  parts : lines ≡ more ++ rest
  taken : take_para lines ≡ (more, rest)

take_para-ParaEnd : (lines : List Str) → ParaEnd lines
unfolding take_para
take_para-ParaEnd [] = record {
  more = [];
  rest = [];
  plains = tt;
  stops = tt;
  parts = refl;
  taken = refl;
}
take_para-ParaEnd (line ∷ lines) = elim (Bool-cases (is_plain line)) [
  | inl e ↦
      let r = take_para-ParaEnd lines in
      record {
        more = line ∷ r.more;
        rest = r.rest;
        plains = (e, r.plains);
        stops = r.stops;
        parts = rw (r.parts) refl;
        taken = rw (e, take_para) (rw (r.taken) refl);
      }
  | inr e ↦ record {
    more = [];
    rest = line ∷ lines;
    plains = tt;
    stops = e;
    parts = refl;
    taken = rw (e, take_para) refl;
  }
]

size-append : (xs ys : List Str) → size ys ≤ size (xs ++ ys)
size-append [] ys = omega arith
size-append (x ∷ xs) ys = omega (arith, size-append xs ys)

-- A run of the loop that has fuel for every line ends, and its blocks tile the lines.
abbrev Tiled : ℕ → List Str → Type 0
Tiled fuel lines =
    (blocks : List Block) × (iter_blocks fuel lines ≡ some blocks) × Tiles lines blocks

module _ (fuel : ℕ) (line : Str) (lines : List Str) where
  code-Tiled :
      (c n : ℕ)
      → fence_of line ≡ some (c, n)
      → ((rest : List Str) → size rest ≤ size lines → Tiled fuel rest)
      → Tiled (suc fuel) (line ∷ lines)
  unfolding iter_blocks line_kind
  code-Tiled c n e k = elim (take_code-CodeEnd c n lines) [
    | closed inner last rest h t p q ↦
        let r = k rest (rw p (after_end inner last rest)) in
        (
          code (join newline (line ∷ (inner ++ last ∷ []))) ∷ r.0,
          rw (e, iter_blocks) (rw q (rw (r.1) refl)),
          subst (λ ls. Tiles (line ∷ ls) (code (join newline (line ∷ (inner ++ last ∷ []))) ∷ r.0))
              (sym p) (fenced inner last e h t r.2),
        )
    | open_end h q ↦
        (code (join newline (line ∷ lines)) ∷ [], rw (e, iter_blocks) (rw q refl), unclosed e h)
  ]
    where
      after_end :
          (inner : List Str) (last : Str) (rest : List Str)
          → size rest ≤ size (inner ++ last ∷ rest)
      after_end inner last rest = omega (arith, size-append inner (last ∷ rest))

  para-Tiled :
      is_plain line ≡ true
      → fence_of line ≡ none
      → heading_of line ≡ none
      → has_ink line ≡ true
      → ((rest : List Str) → size rest ≤ size lines → Tiled fuel rest)
      → Tiled (suc fuel) (line ∷ lines)
  unfolding iter_blocks line_kind title_kind plain_kind
  para-Tiled e no_fence no_title ink k =
      let p = take_para-ParaEnd lines in
      let r = k p.rest (omega (arith, size-append p.more p.rest, ap size p.parts)) in
      (
        para (join newline (line ∷ p.more)) ∷ r.0,
        rw (no_fence, iter_blocks) (rw no_title (rw ink (rw (p.taken) (rw (r.1) refl)))),
        subst (λ ls. Tiles (line ∷ ls) (para (join newline (line ∷ p.more)) ∷ r.0)) (sym p.parts)
            (text p.more p.rest e p.plains p.stops r.2),
      )

  title-Tiled :
      (level : ℕ) (name : Str)
      → fence_of line ≡ none
      → heading_of line ≡ some (level, name)
      → Tiled fuel lines
      → Tiled (suc fuel) (line ∷ lines)
  unfolding iter_blocks line_kind title_kind
  title-Tiled level name no_fence e r = (
    heading level name ∷ r.0,
    rw (no_fence, iter_blocks) (rw e (rw (r.1) refl)),
    title no_fence e r.2,
  )

  skip-Tiled :
      fence_of line ≡ none
      → heading_of line ≡ none
      → has_ink line ≡ false
      → Tiled fuel lines
      → Tiled (suc fuel) (line ∷ lines)
  unfolding iter_blocks line_kind title_kind plain_kind
  skip-Tiled no_fence no_title ink r =
      (r.0, rw (no_fence, iter_blocks) (rw no_title (rw ink (r.1))), skip ink r.2)

is_plain-parts :
    (line : Str)
    → fence_of line ≡ none
    → heading_of line ≡ none
    → has_ink line ≡ true
    → is_plain line ≡ true
unfolding is_plain
is_plain-parts line f h i = rw f (rw h (rw i refl))

-- With fuel for every line `_iter_blocks` ends, and its blocks tile the lines: headings, maximal
-- paragraphs and whole fenced blocks, each with the lines between its fences, closed by the first
-- line that closes it or by the end of the text.
pub iter_blocks-Tiles :
    (fuel : ℕ) (lines : List Str)
    → size lines ≤ fuel
    → (blocks : List Block) × (iter_blocks fuel lines ≡ some blocks) × Tiles lines blocks
iter_blocks-Tiles zero [] h = ([], unfold iter_blocks in refl, done)
iter_blocks-Tiles (suc fuel) [] h = ([], unfold iter_blocks in refl, done)
iter_blocks-Tiles zero (line ∷ lines) h = absurd (omega arith)
iter_blocks-Tiles (suc fuel) (line ∷ lines) h =
    let again =
      λ (rest : List Str) (k : size rest ≤ size lines). iter_blocks-Tiles fuel rest (omega arith) in
    elim (Option-cases (fence_of line)) [
      | inr ((c, n), e) ↦ code-Tiled fuel line lines c n e again
      | inl no_fence ↦ elim (Option-cases (heading_of line)) [
        | inr ((level, name), e) ↦
            title-Tiled fuel line lines level name no_fence e (again lines (omega arith))
        | inl no_title ↦ elim (Bool-cases (has_ink line)) [
          | inl ink ↦
              para-Tiled fuel line lines (is_plain-parts line no_fence no_title ink) no_fence
                no_title ink again
          | inr e ↦ skip-Tiled fuel line lines no_fence no_title e (again lines (omega arith))
        ]
      ]
    ]
