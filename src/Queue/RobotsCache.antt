-- ===== src/Queue/RobotsCache.antt =====
-- `robots_cache` and `store_robots` of app/crawl/repository.py: the robots columns of crawl_origins.
use crawltrove.Base.{ℕ, ◌+◌, String, Option, some, update_where, find_where}
use crawltrove.Queue.Rows.{Origin, Db}
use crawltrove.Queue.Claim.{origin_named}

unfoldable pub robots_cache : Db → String → Option Origin
robots_cache db origin = find_where (origin_named origin) db.origins

unfoldable pub cache_robots : ℕ → String → Option ℕ → Origin → Origin
cache_robots now body status o = record o {
  robots_body = some body;
  robots_status = status;
  robots_fetched_at = some now;
  robots_expires_at = some (now + 86_400_000);
  updated_at = now;
}

unfoldable pub store_robots : Db → ℕ → String → String → Option ℕ → Db
unfolding cache_robots
store_robots db now origin body status = record db {
  origins = update_where (origin_named origin) (cache_robots now body status) db.origins;
}
