-- ===== src/Acquisition/Proxy/Pool/Selected.antt =====
-- Which node `ProxyPool.select` of app/acquisition/proxy.py gives a lease on.
use crawltrove.Base.{
  ℕ, ◌≤◌, ◌≡◌, ◌==◌, refl, ap, sym, subst, String, Bool, true, false, not, ◌&&◌, Option, none, some,
  List, [], ◌∷◌, arith, inl, inr, Bool-cases, Option-cases, if_cases, All, All-weaken, Row,
  least_where, least_where-Row, find_where-Row, Any-last, ltb, ◌||◌, ◌+◌, exists_where, find_where,
}
use crawltrove.Queue.Rows.{Db, Task}
use crawltrove.Acquisition.Proxy.{
  ProxyNode, ProxyRow, ProxyStore, value_error, ProxyTools, ConfiguredProxy,
}
use crawltrove.Acquisition.Proxy.Pool.{
  PoolResult, ok, err, merge_configured, Fence, unfenced, fenced, is_leased_task,
}
use crawltrove.Acquisition.Proxy.Pool.Select.{
  ProxyLease, live_leases, is_eligible, stands_before, select, choose, choose_for, select_for,
  select_fenced, select_merged, assign, granted, insert_lease, is_configured, drop_expired,
  are_valid, is_open_attempt,
}

-- ORDER BY … LIMIT 1 by an order that goes by a rank gives a row of the least rank.
module _ {A : Type 0} (p : A → Bool) (less : A → A → Bool) (rank : A → ℕ)
    (under : (x y : A) → less x y ≡ true → rank x ≤ rank y)
    (over : (x y : A) → less x y ≡ false → rank y ≤ rank x) where
  least_where-none : (xs : List A) → least_where p less xs ≡ none → All (λ x. p x ≡ false) xs
  unfolding least_where
  least_where-none [] h = tt
  least_where-none (x ∷ xs) h = elim (Bool-cases (p x)) [
    | inl e ↦ ground arith
    | inr e ↦ (e, least_where-none xs (ground arith))
  ]

  excluded : {B : Type 0} (x : A) → p x ≡ false → p x ≡ true → B
  excluded x e q = cc

  -- The row x before the others is taken, or the least of the others is below it.
  least_where-rank :
      (xs : List A) (t : A)
      → least_where p less xs ≡ some t
      → All (λ x. p x ≡ true → rank t ≤ rank x) xs
  unfolding least_where
  least_where-rank [] t h = tt
  least_where-rank (x ∷ xs) t h = elim (Bool-cases (p x)) [
    | inl e ↦ elim (Option-cases (least_where p less xs)) [
      | inl n ↦
          let same : x ≡ t = ground arith in
          (
            λ _. omega (arith, ap rank same),
            All-weaken xs (λ z k q. excluded z k q) (least_where-none xs n),
          )
      | inr (y, n) ↦ elim (Bool-cases (less y x)) [
        | inl l ↦
            let same : y ≡ t = ground arith in
            (
              λ _. omega (arith, ap rank same, under y x l),
              All-weaken xs (λ z k q. omega (arith, ap rank same, k q)) (least_where-rank xs y n),
            )
        | inr l ↦
            let same : x ≡ t = ground arith in
            (
              λ _. omega (arith, ap rank same),
              All-weaken xs (λ z k q. omega (arith, ap rank same, over y x l, k q))
                  (least_where-rank xs y n),
            )
      ]
    ]
    | inr e ↦ (λ q. excluded x e q, least_where-rank xs t (ground arith))
  ]

-- The lease is on a node that may be used now, and no other such node has fewer live leases.
pub record IsChosen (now : ℕ) (region : Option String) (db : ProxyStore) (l : ProxyLease)
    : Type 0 where
  pub node : ProxyNode
  pub row : Row node db.nodes
  pub id : l.node_id ≡ node.id
  pub endpoint : l.endpoint ≡ node.endpoint
  pub eligible : is_eligible now region node ≡ true
  pub least :
      All
        (λ m.
          is_eligible now region m ≡ true
          → live_leases now db.leases node ≤ live_leases now db.leases m)
        db.nodes

rank_under : (m n : ℕ) (b : Bool) → (ltb m n || m == n && b) ≡ true → m ≤ n
rank_under m n b h = ground arith

rank_over : (m n : ℕ) (b : Bool) → (ltb m n || m == n && b) ≡ false → n ≤ m
rank_over m n b h = ground arith

choose-IsChosen :
    (tools : ProxyTools) (configured : List ConfiguredProxy) (db : ProxyStore) (now : ℕ)
    (origin : String) (region : Option String) (n : ProxyNode)
    → choose tools configured db now region ≡ some n
    → IsChosen now region db (record { node_id = n.id; endpoint = n.endpoint; origin_key = origin })
choose-IsChosen tools configured db now origin region n e =
    let found =
      least_where-Row (is_eligible now region) (stands_before tools configured now db.leases)
        db.nodes n e in
    record {
      node = n;
      row = found.0;
      id = refl;
      endpoint = refl;
      eligible = found.1;
      least =
          least_where-rank (is_eligible now region) (stands_before tools configured now db.leases)
            (live_leases now db.leases)
            (λ x y.
              rank_under (live_leases now db.leases x) (live_leases now db.leases y)
                (tools.before x.id y.id))
            (λ x y.
              rank_over (live_leases now db.leases x) (live_leases now db.leases y)
                (tools.before x.id y.id))
            db.nodes n e;
    }

-- The row of a lease of 120 seconds for the task under its token.
abbrev pub lease_row : ℕ → ℕ → ℕ → ProxyLease → ProxyRow
lease_row now task token l = record {
  node_id = l.node_id;
  task_id = task;
  origin_key = l.origin_key;
  lease_token = token;
  expires_at = now + 120_000;
}

-- What the table has of the lease: its row, if the task had none before.
abbrev pub IsRecorded : ℕ → Fence → List ProxyRow → List ProxyRow → ProxyLease → Type 0
IsRecorded now unfenced before after l = after ≡ before
IsRecorded now (fenced task token) before after l =
    exists_where (λ r. r.task_id == task) before ≡ false → Row (lease_row now task token l) after

-- A lease that a transaction returns has the property, with the store that it leaves.
abbrev OnLease :
    (ProxyStore → ProxyLease → Type 0) → PoolResult (ProxyStore × Option ProxyLease) → Type 0
OnLease P (ok (db, some l)) = P db l
OnLease P (ok (db, none)) = Unit
OnLease P (err e) = Unit

module _ (tools : ProxyTools) (configured : List ConfiguredProxy)
    (P : ProxyStore → ProxyLease → Type 0) where
  granted-OnLease :
      (db : ProxyStore) (origin : String) (n : ProxyNode)
      → P db (record { node_id = n.id; endpoint = n.endpoint; origin_key = origin })
      → OnLease P (granted tools configured db origin n)
  granted-OnLease db origin n h =
      if_cases (OnLease P) (is_configured tools configured n.id && not (tools.has_secrets n.id))
        (err value_error) _ (λ _. tt) (λ _. h)

leased_id : (task token : ℕ) (t : Task) → is_leased_task task token t ≡ true → t.id ≡ task
leased_id task token t h = ground arith

module _ (tools : ProxyTools) (configured : List ConfiguredProxy) (db : ProxyStore) (crawl : Db)
    (now : ℕ) (origin : String) (region : Option String) where
  -- What is shown of the lease: its node was chosen well, and its row is in the table.
  abbrev Given : Fence → ProxyStore → ProxyLease → Type 0
  Given fence after l = IsChosen now region db l × IsRecorded now fence db.leases after.leases l

  assign-Given :
      (task token : ℕ) (t : Task) (n : ProxyNode)
      → t.id ≡ task
      → choose tools configured db now region ≡ some n
      → OnLease (Given (fenced task token)) (assign tools configured db crawl now origin t token n)
  unfolding assign
  assign-Given task token t n same e =
      if_cases (OnLease (Given (fenced task token)))
        (exists_where (is_open_attempt t) crawl.attempts) _ _
        (λ _.
          granted-OnLease tools configured (Given (fenced task token)) _ origin n
            (choose-IsChosen tools configured db now origin region n e, recorded))
        (λ _. tt)
    where
      recorded :
          exists_where (λ r. r.task_id == task) db.leases ≡ false
          → Row
              (lease_row now task token
                (record { node_id = n.id; endpoint = n.endpoint; origin_key = origin }))
              (insert_lease tools configured db now origin t token n).leases
      recorded free =
          if_cases
            (λ (d : ProxyStore).
              Row
                (lease_row now task token
                  (record { node_id = n.id; endpoint = n.endpoint; origin_key = origin }))
                d.leases)
            (exists_where (λ r. r.task_id == t.id) db.leases) db _
            (λ taken. cc (
              subst (λ k. exists_where (λ r. r.task_id == k) db.leases ≡ false) (sym same) free,
              taken,
            ))
            (λ _. Any-last _ db.leases _ (
              ap
                (λ k.
                  lease_row now k token
                    (record { node_id = n.id; endpoint = n.endpoint; origin_key = origin }))
                same))

  choose_for-Given :
      (node : Option ProxyNode)
      → choose tools configured db now region ≡ node
      → OnLease (Given unfenced) (choose_for tools configured db crawl now origin none node)
  choose_for-Given none e = tt
  choose_for-Given (some n) e =
      granted-OnLease tools configured (Given unfenced) db origin n
        (choose-IsChosen tools configured db now origin region n e, refl)

  choose_for_task-Given :
      (task token : ℕ) (t : Task) (node : Option ProxyNode)
      → t.id ≡ task
      → choose tools configured db now region ≡ node
      → OnLease
          (Given (fenced task token))
          (choose_for tools configured db crawl now origin (some (t, token)) node)
  choose_for_task-Given task token t none same e = tt
  choose_for_task-Given task token t (some n) same e = assign-Given task token t n same e

  select_for-Given :
      (task token : ℕ) (found : Option Task)
      → find_where (is_leased_task task token) crawl.tasks ≡ found
      → OnLease
          (Given (fenced task token))
          (select_for tools configured db crawl now origin region token found)
  select_for-Given task token none e = tt
  select_for-Given task token (some t) e =
      choose_for_task-Given task token t (choose tools configured db now region)
        (leased_id task token t (find_where-Row (is_leased_task task token) crawl.tasks t e).1) refl

  select_fenced-Given :
      (fence : Fence)
      → OnLease (Given fence) (select_fenced tools configured db crawl now origin region fence)
  select_fenced-Given unfenced = choose_for-Given (choose tools configured db now region) refl
  select_fenced-Given (fenced task token) =
      select_for-Given task token (find_where (is_leased_task task token) crawl.tasks) refl

OnLease-ok :
    (P : ProxyStore → ProxyLease → Type 0) (r : PoolResult (ProxyStore × Option ProxyLease))
    {db : ProxyStore} {l : ProxyLease}
    → OnLease P r
    → r ≡ ok (db, some l)
    → P db l
OnLease-ok P r h e = subst (OnLease P) e h

-- A lease that `select` returns is on a node that is active, with live credentials, not cooling down
-- and in the region; no such node has fewer live leases; and if the call names a leased task that
-- had no lease on a proxy, then the row of this lease is in the table, for 120 seconds. The nodes
-- are those after the configured ones are merged, the leases those that have not expired.
pub select-IsChosen :
    (tools : ProxyTools) (configured : List ConfiguredProxy) (db merged after : ProxyStore)
    (crawl : Db) (now : ℕ) (origin : String) (region : Option String) (fence : Fence)
    (l : ProxyLease)
    → merge_configured configured db ≡ ok merged
    → select tools configured db crawl now origin region fence ≡ ok (after, some l)
    → IsChosen now region (drop_expired tools configured now merged) l
      × IsRecorded now fence (drop_expired tools configured now merged).leases after.leases l
unfolding select
select-IsChosen tools configured db merged after crawl now origin region fence l m e =
    let given =
      Given tools configured (drop_expired tools configured now merged) crawl now origin region
        fence in
    OnLease-ok given (select tools configured db crawl now origin region fence)
      (if_cases (OnLease given) (are_valid tools configured origin region)
        (select_merged tools configured crawl now origin region fence
          (merge_configured configured db))
        (err value_error)
        (λ _.
          subst
            (λ r. OnLease given (select_merged tools configured crawl now origin region fence r))
            (sym m)
            (select_fenced-Given tools configured (drop_expired tools configured now merged) crawl
              now origin region fence))
        (λ _. tt))
      e
