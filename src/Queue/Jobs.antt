-- ===== src/Queue/Jobs.antt =====
-- `submit_job`, `request_cancel`, `reconcile_job` and `finalize_jobs` of app/crawl/repository.py.
mod Submit
mod Cancel
mod Recount
mod Finalize
pub mod Drained
pub mod Recounted
unfoldable pub use Submit.*
unfoldable pub use Cancel.*
unfoldable pub use Recount.*
unfoldable pub use Finalize.*
