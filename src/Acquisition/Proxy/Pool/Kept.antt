-- ===== src/Acquisition/Proxy/Pool/Kept.antt =====
-- What any calls of the pool in app/acquisition/proxy.py keep of the state of a node.
use crawltrove.Base.{
  ℕ, ◌+◌, ◌≡◌, ◌==◌, refl, String, Bool, true, false, not, ◌&&◌, ◌||◌, if◌then◌else◌, Option, none,
  some, List, [], ◌∷◌, ◌++◌, arith, str_eq, ltb, leb, if_cases, All, All-append, All-update_where,
  update_where, find_where, exists_where, exists_where-update_where, exists_where-append_item, ap,
  sym, subst, eq_iff, ◌∙◌,
}
use crawltrove.Queue.Rows.{Db, Task}
use crawltrove.Acquisition.Proxy.{
  value_error, is_node_id, are_regions, constraint_violation, NodeState, cooldown, offline,
  is_revoked, ProxyNode, ProxyStore, node_named, ProxyTools, ConfiguredProxy, endpoint_of,
}
use crawltrove.Acquisition.Proxy.Pool.{
  PoolResult, ok, err, node_exists, endpoint_taken, update_node, insert_node, upsert_node, new_node,
  reactivated, register_node, configure_node, merge_configured, region_list, see_node, heartbeat,
  Outcome, blocked, transport, other, Fence, may_fail, cool_node, count_failure, mark_failure,
  release_proxy, apply_failure, is_fenced,
}
use crawltrove.Acquisition.Proxy.Pool.Calls.{
  PoolCall, register_call, heartbeat_call, failure_call, select_call, connect_call, release_call,
  PoolStep, stored, stored_with, run_call, run_calls,
}
use crawltrove.Acquisition.Proxy.Pool.Nodes.{Leaves, LeavesWith, Leaves-after, select-nodes}
use crawltrove.Acquisition.Proxy.Pool.Select.{
  register, register_checked, expiry, select, record_connected_ip, record_address, set_address,
  connect_node,
}

-- The node is in the table, in a state with the property.
pub record IsKept (Q : NodeState → Type 0) (id : String) (nodes : List ProxyNode) : Type 0 where
  pub known : exists_where (node_named id) nodes ≡ true
  pub rows : All (λ n. node_named id n ≡ true → Q n.state) nodes

-- The property of states survives the failures that are counted for a node.
pub record Survives (Q : NodeState → Type 0) : Type 0 where
  pub cools : (s : NodeState) → not (is_revoked s) ≡ true → Q s → Q cooldown
  pub ends : (s : NodeState) → not (is_revoked s) ≡ true → Q s → Q offline

-- A call registers no node of the name, unless the property survives that too.
abbrev pub Allowed : (NodeState → Type 0) → String → PoolCall → Type 0
Allowed Q id (register_call node endpoint regions expires) =
    node ≡ id → (s : NodeState) → Q s → Q (reactivated s)
Allowed Q id _ = Unit

stored-Leaves :
    (P : List ProxyNode → Type 0) (db : ProxyStore) (r : PoolResult ProxyStore)
    → P db.nodes
    → Leaves P r
    → P (stored db r).nodes
stored-Leaves P db (ok d) h k = k
stored-Leaves P db (err e) h k = h

stored_with-Leaves :
    {A : Type 0} (P : List ProxyNode → Type 0) (db : ProxyStore) (r : PoolResult (ProxyStore × A))
    → P db.nodes
    → LeavesWith P r
    → P (stored_with db r).nodes
stored_with-Leaves P db (ok (d, a)) h k = k
stored_with-Leaves P db (err e) h k = h

and_left : (a b : Bool) → (a && b) ≡ true → a ≡ true
and_left a b h = ground arith

one_id :
    (m : ProxyNode) (node id : String)
    → node_named node m ≡ true
    → node_named id m ≡ true
    → node ≡ id
one_id m node id p q = sym ((eq_iff m.id node).0 p) ∙ (eq_iff m.id id).0 q

module _ (Q : NodeState → Type 0) (survives : Survives Q) (id : String) where
  -- An UPDATE that changes no id and keeps the property of the rows of the node.
  update-IsKept :
      (p : ProxyNode → Bool) (f : ProxyNode → ProxyNode) (nodes : List ProxyNode)
      → ((n : ProxyNode) → (f n).id ≡ n.id)
      → ((n : ProxyNode) → node_named id n ≡ true → p n ≡ true → Q n.state → Q (f n).state)
      → IsKept Q id nodes
      → IsKept Q id (update_where p f nodes)
  update-IsKept p f nodes same keeps h = record {
    known =
        exists_where-update_where (node_named id) p f nodes (λ n. ap (λ i. str_eq i id) (same n))
        ∙ h.known;
    rows =
        All-update_where p f nodes
          (λ n k e named.
            let here = ap (λ i. str_eq i id) (sym (same n)) ∙ named in keeps n here e (k here))
          (λ n k e. k) h.rows;
  }

  -- The INSERT of a node: where it has the id, the conflict makes it an UPDATE.
  upsert-IsKept :
      (db : ProxyStore) (n : ProxyNode) (p : ProxyNode → Bool) (f : ProxyNode → ProxyNode)
      → ((m : ProxyNode) → (f m).id ≡ m.id)
      → ((m : ProxyNode) → n.id ≡ id → Q m.state → Q (f m).state)
      → IsKept Q id db.nodes
      → Leaves (IsKept Q id) (upsert_node db n p f)
  upsert-IsKept db n p f same keeps h =
      if_cases (Leaves (IsKept Q id)) (node_exists db n.id) (update_node db n p f)
        (insert_node db n)
        (λ _.
          if_cases (Leaves (IsKept Q id))
            (not (exists_where (λ m. node_named n.id m && p m) db.nodes)) (ok db) _ (λ _. h)
            (λ _. unless_taken _ (
              update-IsKept _ f db.nodes same
                (λ m here e. keeps m (one_id m n.id id (and_left _ _ e) here)) h)))
        (λ absent.
          unless_taken (record db { nodes = db.nodes ++ n ∷ [] })
            (record {
              known = exists_where-append_item (node_named id) db.nodes n h.known;
              rows = All-append _ db.nodes n h.rows (λ named. cc (
                subst (λ i. node_exists db i ≡ false) ((eq_iff n.id id).0 named) absent,
                h.known,
              ));
            }))
    where
      unless_taken :
          (d : ProxyStore)
          → IsKept Q id d.nodes
          → Leaves
              (IsKept Q id)
              (if endpoint_taken db n.id n.endpoint then err constraint_violation else ok d)
      unless_taken d k =
          if_cases (Leaves (IsKept Q id)) (endpoint_taken db n.id n.endpoint)
            (err constraint_violation) (ok d) (λ _. tt) (λ _. k)

  pub merge_configured-IsKept :
      (cs : List ConfiguredProxy) (db : ProxyStore)
      → IsKept Q id db.nodes
      → Leaves (IsKept Q id) (merge_configured cs db)
  unfolding merge_configured configure_node
  merge_configured-IsKept [] db h = h
  merge_configured-IsKept (c ∷ cs) db h =
      Leaves-after (IsKept Q id) (merge_configured cs)
        (upsert_node db (new_node c.id c.endpoint (region_list c.region) none none)
          (λ m. not (is_revoked m.state)) (configure_node c.endpoint (region_list c.region)))
        (upsert-IsKept db _ _ _ (λ m. refl) (λ m e q. q) h) (merge_configured-IsKept cs)

  mark_failure-IsKept :
      (db : ProxyStore) (crawl : Db) (now : ℕ) (node : String) (outcome : Outcome)
      (seconds limit : ℕ) (fence : Fence)
      → IsKept Q id db.nodes
      → IsKept Q id (mark_failure db crawl now node outcome seconds limit fence).0.nodes
  unfolding mark_failure
  mark_failure-IsKept db crawl now node outcome seconds limit fence h =
      if_cases (λ (r : ProxyStore × PoolResult Bool). IsKept Q id r.0.nodes)
        (ltb seconds 1 || ltb limit 1) (db, err value_error) _ (λ _. h) (λ _. failed outcome)
    where
      spared :
          (n : ProxyNode)
          → may_fail db crawl now fence node n ≡ true
          → not (is_revoked n.state) ≡ true
      spared n p = ground (arith, p)

      failed :
          (o : Outcome)
          → IsKept Q id
              (apply_failure db now o seconds limit (may_fail db crawl now fence node)).0.nodes
      failed blocked =
          update-IsKept _ (cool_node now seconds) db.nodes (λ n. refl)
            (λ n here p q. survives.cools n.state (spared n p) q) h
      failed transport =
          update-IsKept _ (count_failure limit) db.nodes (λ n. refl)
            (λ n here p q.
              if_cases Q (leb limit (n.failure_count + 1)) offline n.state
                (λ _. survives.ends n.state (spared n p) q) (λ _. q))
            h
      failed other = h

  module _ (tools : ProxyTools) (configured : List ConfiguredProxy) where
    register-IsKept :
        (db : ProxyStore) (now : ℕ) (node endpoint : String) (regions : List String)
        (expires : Option ℕ)
        → (node ≡ id → (s : NodeState) → Q s → Q (reactivated s))
        → IsKept Q id db.nodes
        → Leaves (IsKept Q id) (register tools configured db now node endpoint regions expires)
    unfolding register register_node
    register-IsKept db now node endpoint regions expires allowed h =
        if_cases (Leaves (IsKept Q id))
          (not (is_node_id node)
            || leb (expiry tools configured now expires) now
            || not (are_regions regions))
          (err value_error) _ (λ _. tt) (λ _. checked (endpoint_of tools false endpoint))
      where
        checked :
            (url : Option String)
            → Leaves (IsKept Q id) (
                register_checked tools configured db now node regions
                  (expiry tools configured now expires)
                  url)
        checked none = tt
        checked (some url) =
            upsert-IsKept db _ (λ m. true) _ (λ m. refl) (λ m e q. allowed e m.state q) h

    connect-IsKept :
        (db : ProxyStore) (crawl : Db) (now task token : ℕ) (node address : String)
        → IsKept Q id db.nodes
        → IsKept Q id
            (record_connected_ip tools configured db crawl now task token node address).0.nodes
    unfolding record_connected_ip connect_node
    connect-IsKept db crawl now task token node address h = addressed (tools.public_address address)
      where
        set :
            (d : ProxyStore) (a : String) (t : Option Task)
            → IsKept Q id d.nodes
            → IsKept Q id (set_address tools configured crawl d node a t).nodes
        set d a none k = k
        set d a (some t) k = k

        addressed :
            (a : Option String)
            → IsKept Q id (record_address tools configured db crawl now task token node a).0.nodes
        addressed none = h
        addressed (some a) =
            if_cases (λ (r : ProxyStore × Bool). IsKept Q id r.0.nodes)
              (exists_where
                (λ (n : ProxyNode). node_named node n && is_fenced db crawl now task token n)
                db.nodes)
              _ (db, false)
              (λ _. set _ a (find_where (λ (t : Task). t.id == task) crawl.tasks) (
                update-IsKept _ (connect_node tools configured now a) db.nodes (λ n. refl)
                  (λ n here p q. q) h))
              (λ _. h)

    run_call-IsKept :
        (db : ProxyStore) (now : ℕ) (crawl : Db) (call : PoolCall)
        → Allowed Q id call
        → IsKept Q id db.nodes
        → IsKept Q id (run_call tools configured db now crawl call).nodes
    run_call-IsKept db now crawl (register_call node endpoint regions expires) a h =
        stored-Leaves (IsKept Q id) db
          (register tools configured db now node endpoint regions expires) h
          (register-IsKept db now node endpoint regions expires a h)
    run_call-IsKept db now crawl (heartbeat_call node) a h =
        unfold heartbeat in
        update-IsKept _ (see_node now) db.nodes (unfold see_node in λ n. refl)
          (unfold see_node in λ n here p q. q) h
    run_call-IsKept db now crawl (failure_call node outcome seconds limit fence) a h =
        mark_failure-IsKept db crawl now node outcome seconds limit fence h
    run_call-IsKept db now crawl (select_call origin region fence) a h =
        stored_with-Leaves (IsKept Q id) db
          (select tools configured db crawl now origin region fence) h
          (select-nodes (IsKept Q id) tools configured db crawl now origin region fence
            (merge_configured-IsKept configured db h))
    run_call-IsKept db now crawl (connect_call task token node address) a h =
        connect-IsKept db crawl now task token node address h
    run_call-IsKept db now crawl (release_call task token) a h = unfold release_proxy in h

    pub run_calls-IsKept :
        (steps : List PoolStep) (db : ProxyStore)
        → All (λ s. Allowed Q id s.call) steps
        → IsKept Q id db.nodes
        → IsKept Q id (run_calls tools configured db steps).nodes
    unfolding run_calls
    run_calls-IsKept [] db a h = h
    run_calls-IsKept (s ∷ steps) db a h =
        run_calls-IsKept steps _ a.1 (run_call-IsKept db s.now s.crawl s.call a.0 h)
