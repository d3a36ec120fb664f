-- ===== src/Queue.antt =====
-- app/crawl/repository.py: the durable crawl queue. The children model its rows and transactions;
-- the proofs stand in the modules named for what they prove.
pub mod States
pub mod Rows
pub mod Results
pub mod Meters
pub mod Ledger
pub mod Settle
pub mod Terminal
pub mod Claim
pub mod Discover
pub mod Finish
pub mod Lease
pub mod Jobs
pub mod Attempts
pub mod Retry
pub mod RobotsCache
pub mod Fence
pub mod Frame
pub mod Budget
pub mod Exclusive
