-- ===== src/Sessions.antt =====
-- app/acquisition/sessions.py: human sessions that park a leased task (live_sessions), on the
-- queue's store. proxy_leases and the bearer tokens are not part of it.
mod Park
mod Moves
mod Close
mod Expire
pub mod Budget
pub mod Exclusive
unfoldable pub use Park.*
unfoldable pub use Moves.*
unfoldable pub use Close.*
unfoldable pub use Expire.*
