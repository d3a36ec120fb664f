-- ===== src/Corpus/Chunking/Packing/Groups.antt =====
-- The chunks of `chunk_markdown` as groups of whole blocks.
use mathlib.Core.List.{append_assoc, append-nil}
use crawltrove.Base.{
  ℕ, ◌+◌, ◌≤◌, ◌≡◌, refl, sym, ◌∙◌, subst, Bool, true, false, not, ◌&&◌, List, [], ◌∷◌, ◌++◌, map,
  arith, ltb, leb, if_cases, All, Str, is_empty, sum_of,
}
use crawltrove.Corpus.Chunking.{count_tokens, Block, heading, code, para}
use crawltrove.Corpus.Chunking.Packing.{
  Window, Packer, render, flush, flush_if, enter_path, push_block, add_heading, add_oversized,
  add_body, add_block, add_blocks, empty_packer, pack, pop_headings,
}
use crawltrove.Corpus.Chunking.Packing.Held.{
  tokens_of, total, ends_in_body, Fits, IsInked, group_text, texts, concat, Holds, total-append,
  ends_in_body-append, flush-Holds, push-Holds,
}

module _ (w : Window) where
  flush_if-Holds :
      (c : Bool) (p : Packer) (seen : List Block) → Holds w p seen → Holds w (flush_if c p) seen
  flush_if-Holds true p seen h = flush-Holds w p seen h
  flush_if-Holds false p seen h = h

  enter_path-Holds :
      (c : Bool) (p : Packer) (seen : List Block) → Holds w p seen → Holds w (enter_path c p) seen
  enter_path-Holds true p seen h = h
  enter_path-Holds false p seen h = h

  add_heading-Holds :
      (level : ℕ) (title : Str) (p : Packer) (seen : List Block)
      → Holds w p seen
      → IsInked (heading level title)
      → Holds w (add_heading w level title p) (seen ++ heading level title ∷ [])
  unfolding add_heading
  add_heading-Holds level title p seen h ink =
      let entered = record p {
        heading_stack = (level, title) ∷ pop_headings level p.heading_stack;
      } in
      let ready = flush_if (leb w.target_tokens p.cur_tokens) entered in
      let pathed = enter_path (not ready.cur_has_body) ready in
      let (groups, cur, e, g) =
        enter_path-Holds (not ready.cur_has_body) ready seen
          (flush_if-Holds (leb w.target_tokens p.cur_tokens) entered seen h) in
      push-Holds w pathed groups cur seen (heading level title) (count_tokens title)
        pathed.cur_has_body e g ink refl (λ b. cc (ends_in_body-append cur (heading level title)))

  -- A body joins the open group if that is empty, or has room for it.
  roomy-Fits :
      (cur : List Block) (b : Block) (blocks : List Str) (tokens : ℕ)
      → blocks ≡ map render cur
      → tokens ≡ total cur
      → (not (is_empty blocks) && ltb w.max_tokens (tokens + tokens_of b)) ≡ false
      → Fits w (cur ++ b ∷ [])
  unfolding sum_of
  roomy-Fits [] b blocks tokens e n room body several = absurd (omega (arith, several))
  roomy-Fits (c ∷ cs) b blocks tokens e n room body several =
      let inside : ltb w.max_tokens (tokens + tokens_of b) ≡ false =
        subst (λ bs. (not (is_empty bs) && ltb w.max_tokens (tokens + tokens_of b)) ≡ false) e
          room in
      omega
        (arith, total-append (c ∷ cs) b, n, leb_of_ltb w.max_tokens (tokens + tokens_of b) inside)
    where
      leb_of_ltb : (m n : ℕ) → ltb m n ≡ false → n ≤ m
      leb_of_ltb m n h = ground arith

  abbrev is_full : Packer → ℕ → Bool
  is_full p tokens = not (is_empty p.cur_blocks) && ltb w.max_tokens (p.cur_tokens + tokens)

  flush_if-is_full :
      (c : Bool) (p : Packer) (tokens : ℕ)
      → is_full p tokens ≡ c
      → is_full (flush_if c p) tokens ≡ false
  unfolding flush
  flush_if-is_full true p tokens e = refl
  flush_if-is_full false p tokens e = e

  enter_path-is_full :
      (c : Bool) (p : Packer) (tokens : ℕ)
      → is_full p tokens ≡ false
      → is_full (enter_path c p) tokens ≡ false
  enter_path-is_full true p tokens e = e
  enter_path-is_full false p tokens e = e

  add_body-Holds :
      (b : Block) (p : Packer) (seen : List Block)
      → Holds w p seen
      → IsInked b
      → count_tokens (render b) ≡ tokens_of b
      → Holds w (add_body w (render b) p) (seen ++ b ∷ [])
  unfolding add_body
  add_body-Holds b p seen h ink same =
      let tokens = count_tokens (render b) in
      let full = not (is_empty p.cur_blocks) && ltb w.max_tokens (p.cur_tokens + tokens) in
      let ready = flush_if full p in
      let pathed = enter_path (is_empty ready.cur_blocks) ready in
      let pushed = push_block (render b) tokens true pathed in
      let (groups, cur, e, g) =
        enter_path-Holds (is_empty ready.cur_blocks) ready seen (flush_if-Holds full p seen h) in
      flush_if-Holds (leb w.target_tokens pushed.cur_tokens) pushed (seen ++ b ∷ []) (
        push-Holds w pathed groups cur seen b tokens true e g ink same (
          roomy-Fits cur b pathed.cur_blocks pathed.cur_tokens g.cur_texts g.counted (
            subst (λ n. is_full pathed n ≡ false) same
              (enter_path-is_full (is_empty ready.cur_blocks) ready tokens
                (flush_if-is_full full p tokens refl)))))

  alone-Fits :
      (cur : List Block) (b : Block) (blocks : List Str)
      → blocks ≡ map render cur
      → is_empty blocks ≡ true
      → Fits w (cur ++ b ∷ [])
  unfolding sum_of
  alone-Fits [] b blocks e empty body several = absurd (omega (arith, several))
  alone-Fits (c ∷ cs) b blocks e empty body several = cc (subst (λ bs. is_empty bs ≡ true) e empty)

  flush_if-is_empty :
      (c : Bool) (p : Packer)
      → not (is_empty p.cur_blocks) ≡ c
      → is_empty (flush_if c p).cur_blocks ≡ true
  unfolding flush
  flush_if-is_empty true p e = refl
  flush_if-is_empty false p e = ground (arith, e)

  add_oversized-Holds :
      (text : Str) (p : Packer) (seen : List Block)
      → Holds w p seen
      → IsInked (code text)
      → Holds w (add_oversized text p) (seen ++ code text ∷ [])
  unfolding add_oversized flush render
  add_oversized-Holds text p seen h ink =
      let ready = flush_if (not (is_empty p.cur_blocks)) p in
      let pathed = enter_path true ready in
      let (groups, cur, e, g) = flush_if-Holds (not (is_empty p.cur_blocks)) p seen h in
      flush-Holds w (push_block text (count_tokens text) true pathed) (seen ++ code text ∷ []) (
        push-Holds w pathed groups cur seen (code text) (count_tokens text) true e g ink refl (
          alone-Fits cur (code text) ready.cur_blocks g.cur_texts
            (flush_if-is_empty (not (is_empty p.cur_blocks)) p refl)))

  add_block-Holds :
      (b : Block) (p : Packer) (seen : List Block)
      → Holds w p seen
      → IsInked b
      → Holds w (add_block w b p) (seen ++ b ∷ [])
  unfolding add_block render
  add_block-Holds (heading level title) p seen h ink = add_heading-Holds level title p seen h ink
  add_block-Holds (para text) p seen h ink = add_body-Holds (para text) p seen h ink refl
  add_block-Holds (code text) p seen h ink =
      if_cases (λ q. Holds w q (seen ++ code text ∷ [])) (ltb w.max_tokens (count_tokens text))
        (add_oversized text p) (add_body w text p) (λ _. add_oversized-Holds text p seen h ink)
        (λ _. add_body-Holds (code text) p seen h ink refl)

  add_blocks-Holds :
      (bs : List Block) (p : Packer) (seen : List Block)
      → Holds w p seen
      → All IsInked bs
      → Holds w (add_blocks w bs p) (seen ++ bs)
  unfolding add_blocks
  add_blocks-Holds [] p seen h inked = subst (Holds w p) (sym (append-nil seen)) h
  add_blocks-Holds (b ∷ bs) p seen h inked =
      subst (Holds w (add_blocks w bs (add_block w b p))) (append_assoc seen (b ∷ []) bs) (
        add_blocks-Holds bs (add_block w b p) (seen ++ b ∷ []) (add_block-Holds b p seen h inked.0)
          inked.1)

  empty-Holds : Holds w empty_packer []
  unfolding concat total ends_in_body
  empty-Holds = (
    [],
    [],
    refl,
    record {
      chunk_texts = refl;
      cur_texts = refl;
      counted = refl;
      fit = tt;
      cur_fits = λ b. cc;
      inked = tt;
    },
  )

no_rest :
    (groups : List (List Block)) (cur : List Block) {blocks : List Block}
    → [] ≡ map render cur
    → concat groups ++ cur ≡ blocks
    → concat groups ≡ blocks
no_rest groups [] e h = sym (append-nil (concat groups)) ∙ h
no_rest groups (c ∷ cs) e h = cc

-- The chunks before the overlap are groups of consecutive whole blocks: the groups make all the
-- blocks, in order, the text of a chunk is that of its group, and a group of several blocks that
-- ends in a paragraph or code has at most `max_tokens` tokens.
pub pack-Groups :
    (w : Window) (blocks : List Block)
    → All IsInked blocks
    → (groups : List (List Block)) × (concat groups ≡ blocks)
      × (texts (pack w blocks) ≡ map group_text groups)
      × All (Fits w) groups
unfolding pack
pack-Groups w blocks inked =
    let (groups, cur, e, g) =
      flush-Holds w (add_blocks w blocks empty_packer) blocks
        (add_blocks-Holds w blocks empty_packer [] (empty-Holds w) inked) in
    (groups, no_rest groups cur (unfold flush in g.cur_texts) e, g.chunk_texts, g.fit)
