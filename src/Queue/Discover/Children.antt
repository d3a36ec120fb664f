-- ===== src/Queue/Discover/Children.antt =====
-- What `_insert_discovered` of app/crawl/repository.py inserts.
use crawltrove.Base.{
  ℕ, ◌+◌, ◌-◌, ◌≤◌, ◌≡◌, refl, sym, ap, ◌∙◌, max, String, true, false, some, List, [], ◌∷◌, ◌++◌,
  ◌||◌, ◌==◌, if_cases, eq_iff, ltb, leb, arith, exists_where, length, sum_of, inl, inr, ◌⊎◌,
  sum_of-append, All, All-append,
}
use crawltrove.Queue.States.{TaskState}
use crawltrove.Queue.Rows.{Task, Db}
use crawltrove.Queue.Results.{ok, err, Yields, Yields-bind, constraint_violation}
use crawltrove.Queue.Ledger.{task_named}
use crawltrove.Queue.Settle.{Fenced}
use crawltrove.Queue.Discover.{
  UrlTools, new_task, same_url, insert_task, child_task, is_foreign, count_inserted, discover_url,
  discover_urls, with_discovered, insert_discovered,
}

append_assoc : {A : Type 0} (xs ys zs : List A) → (xs ++ ys) ++ zs ≡ xs ++ (ys ++ zs)
append_assoc [] ys zs = refl
append_assoc (x ∷ xs) ys zs = ap (λ l. x ∷ l) (append_assoc xs ys zs)

append_nil : {A : Type 0} (xs : List A) → xs ++ [] ≡ xs
append_nil [] = refl
append_nil (x ∷ xs) = ap (λ l. x ∷ l) (append_nil xs)

-- A task that a page led to: on the page's origin, one level deeper, waiting in the same job.
pub record IsChild (f : Fenced) (t : Task) : Type 0 where
  job : t.job_id ≡ f.task.job_id
  origin : t.origin_key ≡ f.task.origin_key
  depth : t.depth ≡ f.task.depth + 1
  parent : t.discovered_from_task_id ≡ some f.task.id
  pending : t.state ≡ TaskState.pending

-- The table grew by `n` children of the page.
pub record Grown (f : Fenced) (old tasks : List Task) (n : ℕ) : Type 0 where
  new : List Task
  grown : tasks ≡ old ++ new
  children : All (IsChild f) new
  counted : length new ≡ n

Grown-none : (f : Fenced) (tasks : List Task) → Grown f tasks tasks 0
Grown-none f tasks = record {
  new = [];
  grown = sym (append_nil tasks);
  children = tt;
  counted = unfold sum_of in refl;
}

Grown-one :
    (f : Fenced) (old tasks : List Task) (n : ℕ) (t : Task)
    → IsChild f t
    → Grown f old tasks n
    → Grown f old (tasks ++ t ∷ []) (n + 1)
Grown-one f old tasks n t child h = record {
  new = h.new ++ t ∷ [];
  grown = ap (λ l. l ++ t ∷ []) h.grown ∙ append_assoc old h.new (t ∷ []);
  children = All-append (IsChild f) h.new t h.children child;
  counted = sum_of-append (λ x. 1) h.new t ∙ ap (λ k. k + 1) h.counted;
}

module _ (tools : UrlTools) (uuids : ℕ → ℕ) (now : ℕ) (f : Fenced) (remaining : ℕ)
    (old : List Task) where
  abbrev Bounded : List Task × ℕ → Type 0
  Bounded r = Grown f old r.0 r.1 × (r.1 ≤ remaining)

  child_task-IsChild :
      (url : String) (n : ℕ)
      → is_foreign tools uuids f url ≡ false
      → IsChild f (child_task tools uuids now f url n)
  unfolding child_task new_task
  child_task-IsChild url n h = record {
    job = refl;
    origin =
        (eq_iff (tools.origin_key (tools.normalize_url url)) f.task.origin_key).0 (ground arith);
    depth = refl;
    parent = refl;
    pending = refl;
  }

  insert_task-Bounded :
      (tasks : List Task) (n : ℕ) (t : Task)
      → IsChild f t
      → leb remaining n ≡ false
      → Bounded (tasks, n)
      → Yields (λ r. Bounded (count_inserted tools uuids n r)) (insert_task tasks t)
  unfolding insert_task
  insert_task-Bounded tasks n t child room h =
      if_cases (Yields (λ r. Bounded (count_inserted tools uuids n r)))
        (exists_where (same_url t) tasks) (ok (tasks, false)) _ (λ _. h)
        (λ _.
          if_cases (Yields (λ r. Bounded (count_inserted tools uuids n r)))
            (exists_where (task_named t.id) tasks) (err constraint_violation)
            (ok (tasks ++ t ∷ [], true)) (λ _. tt)
            (λ _. (Grown-one f old tasks n t child h.0, ground arith)))

  discover_url-Bounded :
      (url : String) (tasks : List Task) (n : ℕ)
      → Bounded (tasks, n)
      → Yields Bounded (discover_url tools uuids now f remaining url tasks n)
  unfolding discover_url
  discover_url-Bounded url tasks n h =
      if_cases (Yields Bounded) (leb remaining n || is_foreign tools uuids f url) (ok (tasks, n)) _
        (λ _. h)
        (λ e.
          Yields-bind (λ r. Bounded (count_inserted tools uuids n r)) Bounded
            (insert_task tasks (child_task tools uuids now f url n)) _
            (insert_task-Bounded tasks n (child_task tools uuids now f url n)
              (child_task-IsChild url n (ground (arith, e))) (ground (arith, e)) h)
            (λ r k. k))

  discover_urls-Bounded :
      (urls : List String) (tasks : List Task) (n : ℕ)
      → Bounded (tasks, n)
      → Yields Bounded (discover_urls tools uuids now f remaining urls tasks n)
  unfolding discover_urls
  discover_urls-Bounded [] tasks n h = h
  discover_urls-Bounded (url ∷ urls) tasks n h =
      Yields-bind Bounded Bounded (discover_url tools uuids now f remaining url tasks n) _
        (discover_url-Bounded url tasks n h) (λ r k. discover_urls-Bounded urls r.0 r.1 k)

-- What the discovery leaves: children only, at most as many as the job may still have pages, and
-- only within the job's depth.
pub record IsDiscovered (db : Db) (f : Fenced) (r : Db × ℕ) : Type 0 where
  grown : Grown f db.tasks r.0.tasks r.1
  pages : f.job.discovered_count + r.1 ≤ max f.job.discovered_count f.job.max_pages
  deep : (r.1 ≡ 0) ⊎ (f.task.depth + 1 ≤ f.job.config.max_depth)

-- insert_discovered adds to the tasks, after the rows that are there, exactly as many rows as it
-- returns, all of them pending tasks of the page's job and origin, one level below it; the job's
-- discovered pages stay within its page limit, and below the job's depth nothing is added.
pub insert_discovered-IsDiscovered :
    (tools : UrlTools) (uuids : ℕ → ℕ) (db : Db) (now : ℕ) (f : Fenced) (urls : List String)
    → Yields (IsDiscovered db f) (insert_discovered tools uuids db now f urls)
unfolding insert_discovered
insert_discovered-IsDiscovered tools uuids db now f urls =
    if_cases (Yields (IsDiscovered db f))
      (ltb f.job.config.max_depth (f.task.depth + 1)
        || f.job.max_pages - f.job.discovered_count == 0)
      (ok (db, 0)) _
      (λ _. record { grown = Grown-none f db.tasks; pages = omega arith; deep = inl refl })
      (λ e.
        Yields-bind (Bounded tools uuids now f (f.job.max_pages - f.job.discovered_count) db.tasks)
          (IsDiscovered db f)
          (discover_urls tools uuids now f (f.job.max_pages - f.job.discovered_count) urls db.tasks
            0)
          _
          (discover_urls-Bounded tools uuids now f _ db.tasks urls db.tasks 0
            (Grown-none f db.tasks, omega arith))
          (λ r k. with_discovered-IsDiscovered r k (ground (arith, e))))
  where
    with_discovered-IsDiscovered :
        (r : List Task × ℕ)
        → Bounded tools uuids now f (f.job.max_pages - f.job.discovered_count) db.tasks r
        → f.task.depth + 1 ≤ f.job.config.max_depth
        → IsDiscovered db f (with_discovered tools uuids db f r)
    with_discovered-IsDiscovered (tasks, n) k deep =
        if_cases (λ (d : Db). IsDiscovered db f (d, n)) (n == 0) _ _
          (λ _. record { grown = k.0; pages = omega (arith, k.1); deep = inr deep })
          (λ _. record { grown = k.0; pages = omega (arith, k.1); deep = inr deep })
