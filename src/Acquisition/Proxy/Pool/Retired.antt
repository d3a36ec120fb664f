-- ===== src/Acquisition/Proxy/Pool/Retired.antt =====
-- Nodes that the pool of app/acquisition/proxy.py gives no lease on, whatever is called.
use crawltrove.Base.{
  ℕ, ◌≡◌, ◌≢◌, refl, sym, ◌∙◌, subst, String, Bool, if◌then◌else◌, true, false, not, Option, none,
  some, List, [], ◌∷◌, ap, All, All-weaken, All-Row, arith, eq_iff,
}
use crawltrove.Queue.Rows.{Db}
use crawltrove.Acquisition.Proxy.{
  value_error, NodeState, revoked, is_active, is_revoked, ProxyNode, ProxyStore, ProxyTools,
  ConfiguredProxy,
}
use crawltrove.Acquisition.Proxy.Pool.{reactivated, PoolResult, ok, err, merge_configured, Fence}
use crawltrove.Acquisition.Proxy.Pool.Select.{
  ProxyLease, select, select_merged, is_eligible, are_valid,
}
use crawltrove.Acquisition.Proxy.Pool.Calls.{
  PoolCall, register_call, heartbeat_call, failure_call, select_call, connect_call, release_call,
  PoolStep, run_calls,
}
use crawltrove.Acquisition.Proxy.Pool.Kept.{
  IsKept, Survives, Allowed, run_calls-IsKept, merge_configured-IsKept,
}
use crawltrove.Acquisition.Proxy.Pool.Selected.{select-IsChosen}
use crawltrove.Acquisition.Proxy.Pool.Nodes.{Leaves}

abbrev pub IsRevokedState : NodeState → Type 0
IsRevokedState s = s ≡ revoked

abbrev pub IsInactive : NodeState → Type 0
IsInactive s = is_active s ≡ false

IsRevokedState-Survives : Survives IsRevokedState
IsRevokedState-Survives = record {
  cools = λ s n e. absurd (apart s n e);
  ends = λ s n e. absurd (apart s n e);
}
  where
    apart : (s : NodeState) → not (is_revoked s) ≡ true → s ≡ revoked → ⊥
    apart s n e = cc (subst (λ t. not (is_revoked t) ≡ true) e n)

IsInactive-Survives : Survives IsInactive
IsInactive-Survives = record { cools = λ s n e. refl; ends = λ s n e. refl }

-- A call of `select` that returns has merged the configured nodes.
merged_of :
    (tools : ProxyTools) (configured : List ConfiguredProxy) (db : ProxyStore) (crawl : Db)
    (now : ℕ) (origin : String) (region : Option String) (fence : Fence) {after : ProxyStore}
    {l : ProxyLease}
    → select tools configured db crawl now origin region fence ≡ ok (after, some l)
    → (merged : ProxyStore) × (merge_configured configured db ≡ ok merged)
unfolding select
merged_of tools configured db crawl now origin region fence {after} {l} e =
    parts (are_valid tools configured origin region) (merge_configured configured db) refl e
  where
    parts :
        (valid : Bool) (r : PoolResult ProxyStore)
        → merge_configured configured db ≡ r
        → (if valid
            then select_merged tools configured crawl now origin region fence r
            else err value_error)
          ≡ ok (after, some l)
        → (merged : ProxyStore) × (merge_configured configured db ≡ ok merged)
    parts valid (ok merged) m h = (merged, m)
    parts true (err x) m h = cc
    parts false (err x) m h = cc

-- No lease is on a node that is not active.
inactive-unselected :
    (tools : ProxyTools) (configured : List ConfiguredProxy) (id : String) (db after : ProxyStore)
    (crawl : Db) (now : ℕ) (origin : String) (region : Option String) (fence : Fence)
    (l : ProxyLease)
    → IsKept IsInactive id db.nodes
    → select tools configured db crawl now origin region fence ≡ ok (after, some l)
    → l.node_id ≢ id
inactive-unselected tools configured id db after crawl now origin region fence l h e same =
    let (merged, m) = merged_of tools configured db crawl now origin region fence e in
    let (chosen, recorded) =
      select-IsChosen tools configured db merged after crawl now origin region fence l m e in
    let kept : IsKept IsInactive id merged.nodes =
      subst (Leaves (IsKept IsInactive id)) m
        (merge_configured-IsKept IsInactive IsInactive-Survives id configured db h) in
    idle chosen.node
      (All-Row _ chosen.node merged.nodes chosen.row kept.rows
        ((eq_iff chosen.node.id id).1 (sym chosen.id ∙ same)))
      chosen.eligible
  where
    idle : (n : ProxyNode) → is_active n.state ≡ false → is_eligible now region n ≡ true → ⊥
    idle n i k = ground (arith, k, i)

-- A lease that a call returns is not on the node.
abbrev pub OffNode : String → PoolResult (ProxyStore × Option ProxyLease) → Type 0
OffNode id (ok (db, some l)) = l.node_id ≢ id
OffNode id (ok (db, none)) = Unit
OffNode id (err e) = Unit

inactive-OffNode :
    (tools : ProxyTools) (configured : List ConfiguredProxy) (id : String) (db : ProxyStore)
    (crawl : Db) (now : ℕ) (origin : String) (region : Option String) (fence : Fence)
    → IsKept IsInactive id db.nodes
    → OffNode id (select tools configured db crawl now origin region fence)
inactive-OffNode tools configured id db crawl now origin region fence h =
    off (select tools configured db crawl now origin region fence) refl
  where
    off :
        (r : PoolResult (ProxyStore × Option ProxyLease))
        → select tools configured db crawl now origin region fence ≡ r
        → OffNode id r
    off (ok (after, some l)) e =
        inactive-unselected tools configured id db after crawl now origin region fence l h e
    off (ok (after, none)) e = tt
    off (err x) e = tt

-- The call does not register the node.
abbrev pub Unregistered : String → PoolCall → Type 0
Unregistered id (register_call node endpoint regions expires) = node ≢ id
Unregistered id _ = Unit

All-all : {A : Type 0} {P : A → Type 0} (xs : List A) → ((x : A) → P x) → All P xs
All-all [] k = tt
All-all (x ∷ xs) k = (k x, All-all xs k)

-- A node that is revoked is still there and revoked after any calls of the pool, registrations of it
-- and merges of the operator's file included, and a lease that a `select` returns after them is not
-- on it.
pub revoked-IsFinal :
    (tools : ProxyTools) (configured : List ConfiguredProxy) (id : String) (db : ProxyStore)
    (steps : List PoolStep) (crawl : Db) (now : ℕ) (origin : String) (region : Option String)
    (fence : Fence)
    → IsKept IsRevokedState id db.nodes
    → IsKept IsRevokedState id (run_calls tools configured db steps).nodes
      × OffNode id (
          select tools configured
            (run_calls tools configured db steps)
            crawl
            now
            origin
            region
            fence)
revoked-IsFinal tools configured id db steps crawl now origin region fence h =
    let kept =
      run_calls-IsKept IsRevokedState IsRevokedState-Survives id tools configured steps db
        (All-all steps (λ s. allowed s.call)) h in
    (
      kept,
      inactive-OffNode tools configured id (run_calls tools configured db steps) crawl now origin
          region fence
          (record {
            known = kept.known;
            rows = All-weaken _ (λ n k named. subst IsInactive (sym (k named)) refl) kept.rows;
          }),
    )
  where
    allowed : (c : PoolCall) → Allowed IsRevokedState id c
    allowed (register_call n u r x) = λ same s e. subst IsRevokedState (sym (ap reactivated e)) refl
    allowed (heartbeat_call n) = tt
    allowed (failure_call n o s l f) = tt
    allowed (select_call o r f) = tt
    allowed (connect_call t k n a) = tt
    allowed (release_call t k) = tt

-- A node that is not active, also one whose cooldown ends, is still there and not active after any
-- calls of the pool but a registration of it, and a lease that a `select` returns after them is not
-- on it.
pub IsInactive-IsFinal :
    (tools : ProxyTools) (configured : List ConfiguredProxy) (id : String) (db : ProxyStore)
    (steps : List PoolStep) (crawl : Db) (now : ℕ) (origin : String) (region : Option String)
    (fence : Fence)
    → IsKept IsInactive id db.nodes
    → All (λ s. Unregistered id s.call) steps
    → IsKept IsInactive id (run_calls tools configured db steps).nodes
      × OffNode id (
          select tools configured
            (run_calls tools configured db steps)
            crawl
            now
            origin
            region
            fence)
IsInactive-IsFinal tools configured id db steps crawl now origin region fence h u =
    let kept =
      run_calls-IsKept IsInactive IsInactive-Survives id tools configured steps db
        (All-weaken steps (λ s. allowed s.call) u) h in
    (
      kept,
      inactive-OffNode tools configured id (run_calls tools configured db steps) crawl now origin
          region fence kept,
    )
  where
    allowed : (c : PoolCall) → Unregistered id c → Allowed IsInactive id c
    allowed (register_call n u r x) k = λ same. absurd (k same)
    allowed (heartbeat_call n) k = tt
    allowed (failure_call n o s l f) k = tt
    allowed (select_call o r f) k = tt
    allowed (connect_call t v n a) k = tt
    allowed (release_call t v) k = tt
