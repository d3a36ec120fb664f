-- ===== src/Corpus/Chunking/Packing/Held.antt =====
-- The blocks that `chunk_markdown` has added, as groups; and what a flush and a push do to them.
use mathlib.Core.List.{append_assoc, append-nil, map-append}
use crawltrove.Base.{
  ℕ, ◌+◌, ◌≤◌, ◌<◌, ◌≡◌, refl, sym, ap, ◌∙◌, subst, Bool, true, false, not, List, [], ◌∷◌, ◌++◌,
  map, arith, if◌then◌else◌, if_cases, length, All, All-append, Str, is_empty, has_ink, strip, join,
  select_where, exists_where, strip-has_ink, join-has_ink,
}
use crawltrove.Corpus.Chunking.{count_tokens, Block, heading, code, para}
use crawltrove.Corpus.Chunking.Packing.{
  Window, Chunk, Packer, blank_line, render, chunk_text, flush, push_block,
}

abbrev pub tokens_of : Block → ℕ
tokens_of (heading level title) = count_tokens title
tokens_of (code text) = count_tokens text
tokens_of (para text) = count_tokens text

unfoldable pub total : List Block → ℕ
total [] = 0
total (b ∷ bs) = tokens_of b + total bs

abbrev pub is_body : Block → Bool
is_body (heading level title) = false
is_body _ = true

unfoldable pub ends_in_body : List Block → Bool
ends_in_body [] = false
ends_in_body (b ∷ bs) = let rest = ends_in_body bs in if is_empty bs then is_body b else rest

-- A group of several blocks that ends in one with a body is within the limit.
abbrev pub Fits : Window → List Block → Type 0
Fits w g = ends_in_body g ≡ true → 1 < length g → total g ≤ w.max_tokens

abbrev pub IsInked : Block → Type 0
IsInked b = has_ink (render b) ≡ true

abbrev pub group_text : List Block → Str
group_text g = chunk_text (map render g)

abbrev pub texts : List Chunk → List Str
texts = map (λ (c : Chunk). c.text)

unfoldable pub concat : List (List Block) → List Block
concat [] = []
concat (g ∷ gs) = g ++ concat gs

pub record Grouped (w : Window) (chunks : List Chunk) (blocks : List Str) (tokens : ℕ)
    (groups : List (List Block)) (cur : List Block) : Type 0 where
  pub chunk_texts : texts chunks ≡ map group_text groups
  pub cur_texts : blocks ≡ map render cur
  pub counted : tokens ≡ total cur
  pub fit : All (Fits w) groups
  pub cur_fits : Fits w cur
  pub inked : All IsInked cur

-- The blocks that were added so far stand in the groups of the chunks and the open group, in order.
abbrev pub Holds : Window → Packer → List Block → Type 0
Holds w p seen =
    (groups : List (List Block)) × (cur : List Block) × (concat groups ++ cur ≡ seen)
    × Grouped w p.chunks p.cur_blocks p.cur_tokens groups cur

pub total-append : (bs : List Block) (b : Block) → total (bs ++ b ∷ []) ≡ total bs + tokens_of b
unfolding total
total-append [] b = omega arith
total-append (x ∷ bs) b = omega (arith, total-append bs b)

pub ends_in_body-append : (bs : List Block) (b : Block) → ends_in_body (bs ++ b ∷ []) ≡ is_body b
unfolding ends_in_body
ends_in_body-append [] b = refl
ends_in_body-append (x ∷ []) b = refl
ends_in_body-append (x ∷ y ∷ bs) b = ends_in_body-append (y ∷ bs) b

pub concat-append :
    (gs : List (List Block)) (g : List Block) → concat (gs ++ g ∷ []) ≡ concat gs ++ g
unfolding concat
concat-append [] g = append-nil g
concat-append (x ∷ gs) g =
    ap (λ t. x ++ t) (concat-append gs g) ∙ sym (append_assoc x (concat gs) g)

has_ink-is_empty : (s : Str) → has_ink s ≡ true → is_empty s ≡ false
unfolding exists_where
has_ink-is_empty [] h = cc
has_ink-is_empty (c ∷ s) h = refl

-- A group with ink is not blank.
chunk_text-inked :
    (t : Str) (ts : List Str) → has_ink t ≡ true → is_empty (chunk_text (t ∷ ts)) ≡ false
unfolding chunk_text select_where
chunk_text-inked t ts h =
    let kept = select_where (λ b. not (is_empty b)) ts in
    if_cases (λ (k : List Str). is_empty (strip (join blank_line k)) ≡ false) (not (is_empty t))
      (t ∷ kept) kept
      (λ _. strip-has_ink (join blank_line (t ∷ kept)) (join-has_ink blank_line t kept h))
      (λ e. absurd (ground (arith, e, has_ink-is_empty t h)))

chunk_text_nil : chunk_text [] ≡ []
unfolding chunk_text select_where
chunk_text_nil = refl

pub flush-Holds :
    (w : Window) (p : Packer) (seen : List Block) → Holds w p seen → Holds w (flush p) seen
unfolding flush total ends_in_body
flush-Holds w p seen (groups, [], e, g) = (
  groups,
  [],
  e,
  record {
    chunk_texts =
        subst
          (λ blocks.
            texts (
              if is_empty (chunk_text blocks)
              then p.chunks
              else p.chunks ++ record { text = chunk_text blocks; heading_path = p.cur_path } ∷ [])
            ≡ map group_text groups)
          (sym g.cur_texts) (rw chunk_text_nil g.chunk_texts);
    cur_texts = refl;
    counted = refl;
    fit = g.fit;
    cur_fits = λ b. cc;
    inked = tt;
  },
)
flush-Holds w p seen (groups, b ∷ bs, e, g) = (
  groups ++ (b ∷ bs) ∷ [],
  [],
  append-nil _ ∙ (concat-append groups (b ∷ bs) ∙ e),
  record {
    chunk_texts =
        subst
          (λ blocks.
            texts (
              if is_empty (chunk_text blocks)
              then p.chunks
              else p.chunks ++ record { text = chunk_text blocks; heading_path = p.cur_path } ∷ [])
            ≡ map group_text (groups ++ (b ∷ bs) ∷ []))
          (sym g.cur_texts)
          (rw (chunk_text-inked (render b) (map render bs) g.inked.0) (
            map-append (λ (c : Chunk). c.text) p.chunks _
            ∙ (ap (λ ts. ts ++ group_text (b ∷ bs) ∷ []) g.chunk_texts
                ∙ sym (map-append group_text groups ((b ∷ bs) ∷ [])))));
    cur_texts = refl;
    counted = refl;
    fit = All-append (Fits w) groups (b ∷ bs) g.fit g.cur_fits;
    cur_fits = λ b. cc;
    inked = tt;
  },
)

-- What a block that is pushed needs of the open group.
pub push-Holds :
    (w : Window) (p : Packer) (groups : List (List Block)) (cur seen : List Block) (b : Block)
    (tokens : ℕ) (body : Bool)
    → concat groups ++ cur ≡ seen
    → Grouped w p.chunks p.cur_blocks p.cur_tokens groups cur
    → IsInked b
    → tokens ≡ tokens_of b
    → Fits w (cur ++ b ∷ [])
    → Holds w (push_block (render b) tokens body p) (seen ++ b ∷ [])
push-Holds w p groups cur seen b tokens body e g ink counted fits = (
  groups,
  cur ++ b ∷ [],
  sym (append_assoc (concat groups) cur (b ∷ [])) ∙ ap (λ bs. bs ++ b ∷ []) e,
  record {
    chunk_texts = g.chunk_texts;
    cur_texts = ap (λ bs. bs ++ render b ∷ []) g.cur_texts ∙ sym (map-append render cur (b ∷ []));
    counted = omega (arith, g.counted, counted, total-append cur b);
    fit = g.fit;
    cur_fits = fits;
    inked = All-append IsInked cur b g.inked ink;
  },
)
