-- ===== src/Corpus.antt =====
-- app/corpus: how crawled pages become the records of a training corpus.
pub mod Chunking
