-- ===== src/Corpus/Chunking/Packing/Overlap.antt =====
-- `chunk_markdown` of app/corpus/chunking.py from the text to its chunks.
use crawltrove.Base.{
  ℕ, ◌+◌, ◌≡◌, refl, subst, zero, suc, Bool, true, not, ◌&&◌, Option, none, some, List, [], ◌∷◌,
  ◌++◌, map, arith, ◌==◌, leb, ◌⊎◌, if◌then◌else◌, if_cases, Bool-cases, inl, inr, length, All, Str,
  is_empty, has_ink, contains_text, splitlines, join-has_ink, lstrip-blank, exists_where, is_space,
}
use crawltrove.Corpus.Chunking.{
  Block, heading, newline, fence_of, run_of, fence_run, first_some, heading_of, is_plain,
}
use crawltrove.Corpus.Chunking.Tiles.{
  size-le-length, Tiles, done, skip, title, fenced, unclosed, text, iter_blocks-Tiles,
}
use crawltrove.Corpus.Chunking.Packing.{
  Window, Chunk, IndexedChunk, blank_line, render, pack, tail_overlap, prepend_tail, overlap_from,
  overlap, number, chunk_markdown,
}
use crawltrove.Corpus.Chunking.Packing.Held.{Fits, IsInked, group_text, texts, concat}
use crawltrove.Corpus.Chunking.Packing.Groups.{pack-Groups}

fence_of-inked : (line : Str) {f : ℕ × ℕ} → fence_of line ≡ some f → has_ink line ≡ true
unfolding fence_of
fence_of-inked line {f} e = elim (Bool-cases (has_ink line)) [
  | inl h ↦ h
  | inr h ↦ cc (
      subst (λ s. first_some (fence_run b'`' s) (fence_run b'~' s) ≡ some f) (lstrip-blank line h)
        e)
]

no_zero :
    (level : ℕ) (b : Bool) (found name : Str)
    → if◌then◌else◌ {A = Option (ℕ × Str)}
        (leb 1 level && leb level 6 && b)
        (some (level, found))
        none
      ≡ some (0, name)
    → ⊥
no_zero level b found name e = ground arith

leveled : (line name : Str) → heading_of line ≡ some (0, name) → ⊥
unfolding heading_of
leveled line name e = no_zero (run_of b'#' line).0 _ _ name e

heading_of-IsInked :
    (line : Str) (level : ℕ) (name : Str)
    → heading_of line ≡ some (level, name)
    → IsInked (heading level name)
unfolding heading_of render exists_where is_space
heading_of-IsInked line zero name e = absurd (leveled line name e)
heading_of-IsInked line (suc level) name e = refl

is_plain-has_ink : (line : Str) → is_plain line ≡ true → has_ink line ≡ true
unfolding is_plain
is_plain-has_ink line h = ground arith

Tiles-IsInked : {lines : List Str} {blocks : List Block} → Tiles lines blocks → All IsInked blocks
unfolding render
Tiles-IsInked done = tt
Tiles-IsInked (skip _ t) = Tiles-IsInked t
Tiles-IsInked (title {line} {title = name} {level} _ e t) =
    (heading_of-IsInked line level name e, Tiles-IsInked t)
Tiles-IsInked (fenced inner last {line} e _ _ t) =
    (join-has_ink newline line (inner ++ last ∷ []) (fence_of-inked line e), Tiles-IsInked t)
Tiles-IsInked (unclosed {line} {c} {n} {inner} e _) =
    (join-has_ink newline line inner (fence_of-inked line e), tt)
Tiles-IsInked (text more lines {line} e _ _ t) =
    (join-has_ink newline line more (is_plain-has_ink line e), Tiles-IsInked t)

-- The text of a chunk is the text of its group, after a tail of the chunk before it or not.
abbrev pub EndsWith : Str → Str → Type 0
EndsWith s own = (s ≡ own) ⊎ ((tail : Str) × (s ≡ tail ++ (blank_line ++ own)))

-- The chunks are numbered from i, one for each text.
abbrev pub Carries : ℕ → List Str → List IndexedChunk → Type 0
Carries i [] [] = Unit
Carries i (t ∷ ts) (c ∷ cs) = EndsWith c.chunk.text t × (c.chunk_index ≡ i) × Carries (i + 1) ts cs
Carries i _ _ = ⊥

prepend_tail-EndsWith : (tail : Str) (c : Chunk) → EndsWith (prepend_tail tail c).text c.text
prepend_tail-EndsWith tail c =
    if_cases (λ (d : Chunk). EndsWith d.text c.text)
      (not (is_empty tail) && not (contains_text c.text tail))
      (record c { text = tail ++ (blank_line ++ c.text) }) c (λ _. inr (tail, refl)) (λ _. inl refl)

number-Carries : (i : ℕ) (cs : List Chunk) → Carries i (texts cs) (number i cs)
unfolding number
number-Carries i [] = tt
number-Carries i (c ∷ cs) = (inl refl, refl, number-Carries (i + 1) cs)

overlap_from-Carries :
    (n i : ℕ) (prior : Str) (cs : List Chunk)
    → Carries i (texts cs) (number i (overlap_from n prior cs))
unfolding number overlap_from
overlap_from-Carries n i prior [] = tt
overlap_from-Carries n i prior (c ∷ cs) =
    let extended = prepend_tail (tail_overlap prior n) c in
    (
      prepend_tail-EndsWith (tail_overlap prior n) c,
      refl,
      overlap_from-Carries n (i + 1) extended.text cs,
    )

overlap-Carries : (n : ℕ) (cs : List Chunk) → Carries 0 (texts cs) (number 0 (overlap n cs))
unfolding number overlap
overlap-Carries n [] = tt
overlap-Carries n (c ∷ cs) = (
  inl refl,
  refl,
  if_cases (λ ds. Carries (0 + 1) (texts cs) (number (0 + 1) ds)) (n == 0) cs
      (overlap_from n c.text cs) (λ _. number-Carries (0 + 1) cs)
      (λ _. overlap_from-Carries n (0 + 1) c.text cs),
)

-- What `chunk_markdown` makes of a text: blocks that tile its lines, in groups of consecutive whole
-- blocks, and a chunk for each group.
pub record IsChunked (w : Window) (markdown : Str) (result : Option (List IndexedChunk))
    : Type 0 where
  blocks : List Block
  groups : List (List Block)
  chunks : List IndexedChunk
  returned : result ≡ some chunks
  tiled : Tiles (splitlines markdown) blocks
  whole : concat groups ≡ blocks
  fit : All (Fits w) groups
  carried : Carries 0 (map group_text groups) chunks

-- `chunk_markdown` always returns. Its chunks, numbered from 0, stand one for each of some groups of
-- whole blocks; the groups together are the blocks that tile the lines of the text, in order, so no
-- block is lost, repeated or split; the text of a chunk is that of its group, or has a tail and a
-- blank line before it; and a group of several blocks that ends in a paragraph or code has at most
-- `max_tokens` tokens.
pub chunk_markdown-IsChunked :
    (w : Window) (markdown : Str) → IsChunked w markdown (chunk_markdown w markdown)
unfolding chunk_markdown
chunk_markdown-IsChunked w markdown =
    let lines = splitlines markdown in
    let (blocks, e, tiles) = iter_blocks-Tiles (length lines) lines (size-le-length lines) in
    let (groups, whole, chunk_texts, fit) = pack-Groups w blocks (Tiles-IsInked tiles) in
    record {
      blocks = blocks;
      groups = groups;
      chunks = number 0 (overlap w.overlap_tokens (pack w blocks));
      returned = rw e refl;
      tiled = tiles;
      whole = whole;
      fit = fit;
      carried =
          subst (λ ts. Carries 0 ts (number 0 (overlap w.overlap_tokens (pack w blocks))))
            chunk_texts (overlap-Carries w.overlap_tokens (pack w blocks));
    }
