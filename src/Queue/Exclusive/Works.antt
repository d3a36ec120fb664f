-- ===== src/Queue/Exclusive/Works.antt =====
-- The leases of the queue under `complete_task` of app/crawl/repository.py, which inserts the tasks
-- that a page led to.
use crawltrove.Base.{
  ℕ, ◌+◌, ◌-◌, ◌≡◌, refl, String, false, List, [], ◌∷◌, ◌||◌, if_cases, ◌==◌, ltb, leb,
  exists_where,
}
use crawltrove.Queue.States.{is_leased}
use crawltrove.Queue.Rows.{Task, OriginLease, Db}
use crawltrove.Queue.Results.{ok, err, Yields, Keeps, Yields-bind, constraint_violation}
use crawltrove.Queue.Ledger.{task_named}
use crawltrove.Queue.Settle.{Fenced, fenced_task, finish_attempt}
use crawltrove.Queue.Discover.{
  UrlTools, insert_discovered, insert_task, same_url, child_task, discover_url, discover_urls,
  is_foreign, new_task,
}
use crawltrove.Queue.Finish.{
  TaskResult, complete_task, succeed_task, settle_success, store_result, complete_active,
  is_over_budget,
}
use crawltrove.Queue.Exclusive.{Exclusive, IsExclusive, Exclusive-insert}
use crawltrove.Queue.Exclusive.Ends.{
  fenced-Exclusive, release_lease-Exclusive, reject_over_budget-Exclusive,
}

module _ (leases : List OriginLease) where
  pub insert_task-Exclusive :
      (tasks : List Task) (t : Task)
      → is_leased t.state ≡ false
      → IsExclusive tasks leases
      → Yields (λ r. IsExclusive r.0 leases) (insert_task tasks t)
  unfolding insert_task
  insert_task-Exclusive tasks t free h =
      if_cases (Yields (λ r. IsExclusive r.0 leases)) (exists_where (same_url t) tasks) _ _ (λ _. h)
        (λ _.
          if_cases (Yields (λ r. IsExclusive r.0 leases)) (exists_where (task_named t.id) tasks)
            (err constraint_violation) _ (λ _. tt) (λ _. Exclusive-insert t free h))

  module _ (tools : UrlTools) (uuids : ℕ → ℕ) (now : ℕ) (f : Fenced) (remaining : ℕ) where
    discover_url-Exclusive :
        (url : String) (tasks : List Task) (n : ℕ)
        → IsExclusive tasks leases
        → Yields
            (λ r. IsExclusive r.0 leases)
            (discover_url tools uuids now f remaining url tasks n)
    unfolding discover_url child_task new_task
    discover_url-Exclusive url tasks n h =
        if_cases (Yields (λ r. IsExclusive r.0 leases))
          (leb remaining n || is_foreign tools uuids f url) (ok (tasks, n)) _ (λ _. h)
          (λ _.
            Yields-bind (λ r. IsExclusive r.0 leases) (λ r. IsExclusive r.0 leases)
              (insert_task tasks (child_task tools uuids now f url n)) _
              (insert_task-Exclusive tasks (child_task tools uuids now f url n) refl h) (λ r k. k))

    discover_urls-Exclusive :
        (urls : List String) (tasks : List Task) (n : ℕ)
        → IsExclusive tasks leases
        → Yields
            (λ r. IsExclusive r.0 leases)
            (discover_urls tools uuids now f remaining urls tasks n)
    unfolding discover_urls
    discover_urls-Exclusive [] tasks n h = h
    discover_urls-Exclusive (url ∷ urls) tasks n h =
        Yields-bind (λ r. IsExclusive r.0 leases) (λ r. IsExclusive r.0 leases)
          (discover_url tools uuids now f remaining url tasks n) _
          (discover_url-Exclusive url tasks n h) (λ r k. discover_urls-Exclusive urls r.0 r.1 k)

module _ (tools : UrlTools) (uuids : ℕ → ℕ) where
  insert_discovered-Exclusive :
      (db : Db) (now : ℕ) (f : Fenced) (urls : List String)
      → Exclusive db
      → Keeps Exclusive (insert_discovered tools uuids db now f urls)
  unfolding insert_discovered
  insert_discovered-Exclusive db now f urls h =
      if_cases (Keeps Exclusive)
        (ltb f.job.config.max_depth (f.task.depth + 1)
          || f.job.max_pages - f.job.discovered_count == 0)
        _ _ (λ _. h)
        (λ _.
          Yields-bind (λ r. IsExclusive r.0 db.leases) (λ r. Exclusive r.0)
            (discover_urls tools uuids now f (f.job.max_pages - f.job.discovered_count) urls
              db.tasks 0)
            _ (discover_urls-Exclusive db.leases tools uuids now f _ urls db.tasks 0 h)
            (λ r k. if_cases Exclusive (r.1 == 0) _ _ (λ _. k) (λ _. k)))

  store_result-Exclusive :
      (db : Db) (now : ℕ) (f : Fenced) (r : TaskResult) (result : ℕ)
      → Exclusive db
      → Keeps Exclusive (store_result tools uuids db now f r result)
  unfolding store_result settle_success finish_attempt succeed_task
  store_result-Exclusive db now f r result h =
      if_cases (Keeps Exclusive) (exists_where (λ x. x.task_id == f.task.id) db.results) _ _
        (λ _. h)
        (λ _.
          Yields-bind (λ x. Exclusive x.0) (λ x. Exclusive x.0)
            (insert_discovered tools uuids _ now f r.discovered_urls) _
            (insert_discovered-Exclusive _ now f r.discovered_urls h)
            (λ x k. release_lease-Exclusive x.0 f.task (succeed_task now result) (λ t. refl) k))

  pub complete_task-Exclusive :
      (db : Db) (now id token : ℕ) (r : TaskResult) (result : ℕ)
      → Exclusive db
      → Keeps Exclusive (complete_task tools uuids db now id token r result)
  unfolding complete_task complete_active
  complete_task-Exclusive db now id token r result h =
      fenced-Exclusive db now (fenced_task db id token) false
        (complete_active tools uuids db now r result) h
        (λ f.
          if_cases (Keeps Exclusive) (is_over_budget f.task r) _
            (store_result tools uuids db now f r result)
            (λ _. reject_over_budget-Exclusive db now f.task r.metadata _ h)
            (λ _. store_result-Exclusive db now f r result h))
