-- ===== src/Tests.antt =====
-- Runs of the model on a small crawl, and the theorems at work on them.
mod Crawl
mod Examples
mod Pages
mod Acquisitions
mod Runs
