-- ===== src/Tests/Pages.antt =====
-- The theorems on pages applied to a short text.
use crawltrove.Base.{◌≡◌, some, List, [], ◌∷◌, arith, codes, Str}
use crawltrove.Corpus.Chunking.{Block, iter_blocks}
use crawltrove.Corpus.Chunking.Tiles.{Tiles, iter_blocks-Tiles}
use crawltrove.Corpus.Chunking.Packing.{Window, chunk_markdown}
use crawltrove.Corpus.Chunking.Packing.Overlap.{IsChunked, chunk_markdown-IsChunked}

abbrev narrow : Window
narrow = record { target_tokens = 2; max_tokens = 5; overlap_tokens = 1 }

abbrev markdown : Str
markdown = codes "# Home\n\nSome words here\n\n```\nx = 1\n```\n"

chunk_markdown-IsChunked_example : IsChunked narrow markdown (chunk_markdown narrow markdown)
chunk_markdown-IsChunked_example = chunk_markdown-IsChunked narrow markdown

abbrev fenced_lines : List Str
fenced_lines = codes "```" ∷ codes "x = 1" ∷ codes "```" ∷ []

iter_blocks-Tiles_example :
    (blocks : List Block) × (iter_blocks 3 fenced_lines ≡ some blocks) × Tiles fenced_lines blocks
iter_blocks-Tiles_example = iter_blocks-Tiles 3 fenced_lines (omega arith)
