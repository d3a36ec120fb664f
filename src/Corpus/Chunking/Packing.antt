-- ===== src/Corpus/Chunking/Packing.antt =====
-- `chunk_markdown` of app/corpus/chunking.py: blocks into chunks, and the overlap of the chunks.
-- The heading stack has its top first.
pub mod Held
pub mod Groups
pub mod Overlap
use crawltrove.Base.{
  ℕ, zero, suc, ◌+◌, ◌≡◌, Bool, true, false, not, ◌&&◌, Option, none, some, List, [], ◌∷◌, ◌++◌,
  ◌==◌, ltb, leb, if◌then◌else◌, select_where, length, codes, Str, is_empty, strip, split, join,
  splitlines, contains_text, last_items,
}
use crawltrove.Corpus.Chunking.{count_tokens, Block, heading, code, para, newline, iter_blocks}

-- The window of `chunk_markdown`; its `min_tokens` is not read.
pub record Window : Type 0 where
  pub target_tokens : ℕ
  pub max_tokens : ℕ
  pub overlap_tokens : ℕ

pub record Chunk : Type 0 where
  pub text : Str
  pub heading_path : List Str

-- The variables of `chunk_markdown`.
pub record Packer : Type 0 where
  pub heading_stack : List (ℕ × Str)
  pub chunks : List Chunk
  pub cur_blocks : List Str
  pub cur_tokens : ℕ
  pub cur_path : List Str
  pub cur_has_body : Bool

abbrev pub blank_line : Str
blank_line = 10 ∷ 10 ∷ []

-- `while heading_stack and heading_stack[-1][0] >= level: heading_stack.pop()`
unfoldable pub pop_headings : ℕ → List (ℕ × Str) → List (ℕ × Str)
pop_headings level [] = []
pop_headings level ((l, title) ∷ stack) =
    let rest = pop_headings level stack in if leb level l then rest else (l, title) ∷ stack

unfoldable pub path_now : List (ℕ × Str) → List Str
path_now [] = []
path_now ((l, title) ∷ stack) = path_now stack ++ title ∷ []

abbrev hashes : ℕ → Str → Str
hashes zero s = s
hashes (suc n) s = b'#' ∷ hashes n s

-- How a block stands in the text of its chunk.
unfoldable pub render : Block → Str
render (heading level title) = hashes level (32 ∷ title)
render (code text) = text
render (para text) = text

-- The text of the blocks that are flushed together.
unfoldable pub chunk_text : List Str → Str
unfolding join strip
chunk_text blocks = strip (join blank_line (select_where (λ b. not (is_empty b)) blocks))

unfoldable pub flush : Packer → Packer
unfolding chunk_text
flush p = record p {
  chunks =
      if is_empty (chunk_text p.cur_blocks)
      then p.chunks
      else p.chunks ++ record { text = chunk_text p.cur_blocks; heading_path = p.cur_path } ∷ [];
  cur_blocks = [];
  cur_tokens = 0;
  cur_has_body = false;
}

abbrev pub flush_if : Bool → Packer → Packer
flush_if b p = if b then flush p else p

abbrev pub enter_path : Bool → Packer → Packer
enter_path b p = if b then record p { cur_path = path_now p.heading_stack } else p

abbrev pub push_block : Str → ℕ → Bool → Packer → Packer
push_block text tokens body p = record p {
  cur_blocks = p.cur_blocks ++ text ∷ [];
  cur_tokens = p.cur_tokens + tokens;
  cur_has_body = body;
}

abbrev pub push_heading : ℕ → Str → Packer → Packer
push_heading level title p =
    push_block (render (heading level title)) (count_tokens title) p.cur_has_body p

unfoldable pub add_heading : Window → ℕ → Str → Packer → Packer
unfolding pop_headings path_now render flush count_tokens
add_heading w level title p =
    let entered = record p {
      heading_stack = (level, title) ∷ pop_headings level p.heading_stack;
    } in
    let ready = flush_if (leb w.target_tokens p.cur_tokens) entered in
    push_heading level title (enter_path (not ready.cur_has_body) ready)

-- A code block that is over the limit makes a chunk of its own.
unfoldable pub add_oversized : Str → Packer → Packer
unfolding path_now flush
add_oversized text p =
    flush (push_block text 0 true (enter_path true (flush_if (not (is_empty p.cur_blocks)) p)))

unfoldable pub add_body : Window → Str → Packer → Packer
unfolding path_now flush count_tokens
add_body w text p =
    let tokens = count_tokens text in
    let full = not (is_empty p.cur_blocks) && ltb w.max_tokens (p.cur_tokens + tokens) in
    let ready = flush_if full p in
    let pushed = push_block text tokens true (enter_path (is_empty ready.cur_blocks) ready) in
    flush_if (leb w.target_tokens pushed.cur_tokens) pushed

unfoldable pub add_block : Window → Block → Packer → Packer
unfolding add_heading add_oversized add_body
add_block w (heading level title) p = add_heading w level title p
add_block w (code text) p =
    if ltb w.max_tokens (count_tokens text) then add_oversized text p else add_body w text p
add_block w (para text) p = add_body w text p

unfoldable pub add_blocks : Window → List Block → Packer → Packer
unfolding add_block
add_blocks w [] p = p
add_blocks w (b ∷ bs) p = add_blocks w bs (add_block w b p)

abbrev pub empty_packer : Packer
empty_packer = record {
  heading_stack = [];
  chunks = [];
  cur_blocks = [];
  cur_tokens = 0;
  cur_path = [];
  cur_has_body = false;
}

unfoldable pub pack : Window → List Block → List Chunk
unfolding add_blocks flush
pack w blocks = (flush (add_blocks w blocks empty_packer)).chunks

-- `_tail_overlap`
unfoldable pub tail_overlap : Str → ℕ → Str
unfolding split join
tail_overlap text n = if n == 0 then [] else join (32 ∷ []) (last_items n (split text))

abbrev pub prepend_tail : Str → Chunk → Chunk
prepend_tail tail c =
    if not (is_empty tail) && not (contains_text c.text tail)
    then record c { text = tail ++ (blank_line ++ c.text) }
    else c

-- The loop over the chunks after the first; each takes the tail of the one before it, as it then is.
unfoldable pub overlap_from : ℕ → Str → List Chunk → List Chunk
unfolding tail_overlap contains_text
overlap_from n prior [] = []
overlap_from n prior (c ∷ cs) =
    let extended = prepend_tail (tail_overlap prior n) c in
    extended ∷ overlap_from n extended.text cs

unfoldable pub overlap : ℕ → List Chunk → List Chunk
unfolding overlap_from
overlap n [] = []
overlap n (c ∷ cs) = c ∷ (if n == 0 then cs else overlap_from n c.text cs)

pub record IndexedChunk : Type 0 where
  pub chunk : Chunk
  pub chunk_index : ℕ

unfoldable pub number : ℕ → List Chunk → List IndexedChunk
number i [] = []
number i (c ∷ cs) = record { chunk = c; chunk_index = i } ∷ number (i + 1) cs

abbrev pub chunk_blocks : Window → Option (List Block) → Option (List IndexedChunk)
chunk_blocks w none = none
chunk_blocks w (some blocks) = some (number 0 (overlap w.overlap_tokens (pack w blocks)))

-- `chunk_markdown`; `none` would mean that the loop over the lines ran out of fuel.
unfoldable pub chunk_markdown : Window → Str → Option (List IndexedChunk)
unfolding iter_blocks splitlines pack overlap number
chunk_markdown w markdown =
    let lines = splitlines markdown in chunk_blocks w (iter_blocks (length lines) lines)
