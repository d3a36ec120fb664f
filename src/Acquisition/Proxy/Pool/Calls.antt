-- ===== src/Acquisition/Proxy/Pool/Calls.antt =====
-- The calls of `ProxyPool` in app/acquisition/proxy.py as steps of one store: each is one
-- transaction, at a time and against the queue's tables as they then are.
use crawltrove.Base.{ℕ, String, Option, List, [], ◌∷◌}
use crawltrove.Queue.Rows.{Db}
use crawltrove.Acquisition.Proxy.{ProxyStore, ProxyTools, ConfiguredProxy}
use crawltrove.Acquisition.Proxy.Pool.{
  PoolResult, ok, err, Outcome, Fence, heartbeat, mark_failure, release_proxy,
}
use crawltrove.Acquisition.Proxy.Pool.Select.{register, select, record_connected_ip}

pub data PoolCall : Type 0 where
  register_call : String → String → List String → Option ℕ → PoolCall
  heartbeat_call : String → PoolCall
  failure_call : String → Outcome → ℕ → ℕ → Fence → PoolCall
  select_call : String → Option String → Fence → PoolCall
  connect_call : ℕ → ℕ → String → String → PoolCall
  release_call : ℕ → ℕ → PoolCall

pub record PoolStep : Type 0 where
  pub now : ℕ
  pub crawl : Db
  pub call : PoolCall

-- What a transaction leaves: the store as it was, where it raises.
abbrev pub stored : ProxyStore → PoolResult ProxyStore → ProxyStore
stored db (ok after) = after
stored db (err e) = db

abbrev pub stored_with : {A : Type 0} → ProxyStore → PoolResult (ProxyStore × A) → ProxyStore
stored_with db (ok (after, a)) = after
stored_with db (err e) = db

module _ (tools : ProxyTools) (configured : List ConfiguredProxy) where
  abbrev pub run_call : ProxyStore → ℕ → Db → PoolCall → ProxyStore
  run_call db now crawl (register_call id endpoint regions expires) =
      stored db (register tools configured db now id endpoint regions expires)
  run_call db now crawl (heartbeat_call id) = (heartbeat db now id).0
  run_call db now crawl (failure_call id outcome seconds limit fence) =
      (mark_failure db crawl now id outcome seconds limit fence).0
  run_call db now crawl (select_call origin region fence) =
      stored_with db (select tools configured db crawl now origin region fence)
  run_call db now crawl (connect_call task token id address) =
      (record_connected_ip tools configured db crawl now task token id address).0
  run_call db now crawl (release_call task token) = release_proxy db task token

  unfoldable pub run_calls : ProxyStore → List PoolStep → ProxyStore
  run_calls db [] = db
  run_calls db (s ∷ steps) = run_calls (run_call db s.now s.crawl s.call) steps
