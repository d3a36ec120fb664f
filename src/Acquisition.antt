-- ===== src/Acquisition.antt =====
-- app/acquisition: the pool of owned egress proxies, and the routes to a page.
pub mod Proxy
pub mod Registry
pub mod Router
