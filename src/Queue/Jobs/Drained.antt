-- ===== src/Queue/Jobs/Drained.antt =====
-- `finalize_jobs` of app/crawl/repository.py leaves no job open that has no task left to do.
use crawltrove.Base.{
  is_some, ℕ, ◌+◌, ◌≡◌, refl, sym, subst, Bool, true, false, List, [], ◌∷◌, ◌==◌, ==_iff, leb,
  if◌then◌else◌, if_cases, arith, Bool-cases, inl, inr, ◌⊎◌, update_where, select_where,
  exists_where, count_where, All, Any, All-update_where, All-weaken,
}
use crawltrove.Queue.States.{is_open, is_succeeded, is_blocked, is_failure}
use crawltrove.Queue.Rows.{Job, Task, Db}
use crawltrove.Queue.Ledger.{job_named}
use crawltrove.Queue.Settle.{is_queued_of}
use crawltrove.Queue.Jobs.{
  job_tasks_where, cancel_task, count_expired, cancel_expired, is_nonterminal, final_state,
  job_outcome, finish_job, close_job, finalize_job, finalize_rows, finalize_jobs,
}

-- The job has a task that is not in a terminal state.
abbrev pub has_work : List Task → ℕ → Bool
has_work tasks job = exists_where (is_nonterminal job) tasks

abbrev Listed : List Job → Job → Type 0
Listed rows j = Any (λ (r : Job). r.id ≡ j.id) rows

-- An open job is one of the rows still to visit, or it has work.
abbrev Accounted : List Job → List Task → Job → Type 0
Accounted rows tasks j = is_open j.state ≡ true → Listed rows j ⊎ (has_work tasks j.id ≡ true)

-- The end of a job's queued tasks leaves the work of the other jobs.
has_work-cancel_task :
    (now job other : ℕ) (tasks : List Task)
    → other == job ≡ false
    → has_work (update_where (is_queued_of job) (cancel_task now) tasks) other
      ≡ has_work tasks other
unfolding update_where exists_where cancel_task
has_work-cancel_task now job other [] h = refl
has_work-cancel_task now job other (t ∷ rest) h = elim (Bool-cases (is_queued_of job t)) [
  | inl e ↦ rw (e, has_work-cancel_task now job other rest h) (ground (arith, h, e))
  | inr e ↦ rw (e, has_work-cancel_task now job other rest h) refl
]

final_state-closed :
    (cancelled expired : Bool) (succeeded blocked failures : ℕ)
    → is_open (final_state cancelled expired succeeded blocked failures) ≡ false
unfolding final_state
final_state-closed cancelled expired succeeded blocked failures = ground arith

job_outcome-closed :
    (db : Db) (j : Job) (expired : Bool) → is_open (job_outcome db j expired) ≡ false
unfolding job_outcome
job_outcome-closed db j expired =
    final_state-closed (is_some j.cancel_requested_at) expired
      (count_where (job_tasks_where j.id is_succeeded) db.tasks)
      (count_where (job_tasks_where j.id is_blocked) db.tasks)
      (count_where (job_tasks_where j.id is_failure) db.tasks)

select_where-Listed :
    (p : Job → Bool) (xs : List Job) → All (λ x. p x ≡ true → Listed (select_where p xs) x) xs
unfolding select_where
select_where-Listed p [] = tt
select_where-Listed p (x ∷ xs) = (
  λ q.
      subst (λ b. Listed (if b then x ∷ select_where p xs else select_where p xs) x) (sym q)
        (inl refl),
  All-weaken xs (λ y k q. kept (p x) y (k q)) (select_where-Listed p xs),
)
  where
    kept :
        (b : Bool) (y : Job)
        → Listed (select_where p xs) y
        → Listed (if b then x ∷ select_where p xs else select_where p xs) y
    kept true y k = inr k
    kept false y k = k

impossible : {b : Bool} → b ≡ false → b ≡ true → ⊥
impossible e q = cc

-- A row to visit that is not the job itself is among the rest.
drop_row :
    (j : Job) (rest : List Job) (tasks : List Task) (x : Job)
    → x.id == j.id ≡ false
    → Listed (j ∷ rest) x ⊎ (has_work tasks x.id ≡ true)
    → Listed rest x ⊎ (has_work tasks x.id ≡ true)
drop_row j rest tasks x h (inl (inl e)) = absurd (impossible h ((==_iff x.id j.id).1 (sym e)))
drop_row j rest tasks x h (inl (inr a)) = inl a
drop_row j rest tasks x h (inr w) = inr w

-- The end of an expired job's queued tasks.
cancel_expired-Accounted :
    (now : ℕ) (j : Job) (rest : List Job) (db : Db)
    → All (Accounted (j ∷ rest) db.tasks) db.jobs
    → All
        (λ x. x.id == j.id ≡ false → Accounted rest (cancel_expired db now j.id).tasks x)
        (cancel_expired db now j.id).jobs
unfolding cancel_expired count_expired
cancel_expired-Accounted now j rest db h =
    if_cases
      (λ jobs.
        All
          (λ x.
            x.id == j.id ≡ false
            → Accounted rest (update_where (is_queued_of j.id) (cancel_task now) db.tasks) x)
          jobs)
      (count_where (is_queued_of j.id) db.tasks == 0) db.jobs _ (λ _. kept)
      (λ _.
        All-update_where (job_named j.id) _ db.jobs (λ x k e q. absurd (impossible q e))
          (λ x k e. k) kept)
  where
    still :
        (x : Job)
        → x.id == j.id ≡ false
        → Listed (j ∷ rest) x ⊎ (has_work db.tasks x.id ≡ true)
        → Listed rest x
          ⊎ (has_work (update_where (is_queued_of j.id) (cancel_task now) db.tasks) x.id ≡ true)
    still x q a =
        subst (λ b. Listed rest x ⊎ (b ≡ true))
          (sym (has_work-cancel_task now j.id x.id db.tasks q)) (drop_row j rest db.tasks x q a)

    kept :
        All
          (λ x.
            x.id == j.id ≡ false
            → Accounted rest (update_where (is_queued_of j.id) (cancel_task now) db.tasks) x)
          db.jobs
    kept = All-weaken db.jobs (λ x k q going. still x q (k going)) h

finalize_job-Accounted :
    (now : ℕ) (j : Job) (rest : List Job) (db : Db)
    → All (Accounted (j ∷ rest) db.tasks) db.jobs
    → All (Accounted rest (finalize_job now j db).0.tasks) (finalize_job now j db).0.jobs
unfolding finalize_job close_job finish_job
finalize_job-Accounted now j rest db h =
    if_cases (λ (r : Db × ℕ). All (Accounted rest r.0.tasks) r.0.jobs)
      (exists_where (is_nonterminal j.id) drained.tasks) _ _
      (λ work.
        All-weaken drained.jobs
          (λ x k going. elim (Bool-cases (x.id == j.id)) [
            | inl e ↦
                inr
                  (subst (λ i. has_work drained.tasks i ≡ true) (sym ((==_iff x.id j.id).0 e)) work)
            | inr e ↦ k e going
          ])
          others)
      (λ _.
        All-update_where (job_named j.id) _ drained.jobs
          (λ x k e going.
            absurd (impossible (job_outcome-closed drained j (leb j.deadline_at now)) going))
          (λ x k e. k e) others)
  where
    drained : Db
    drained = if leb j.deadline_at now then cancel_expired db now j.id else db

    others : All (λ x. x.id == j.id ≡ false → Accounted rest drained.tasks x) drained.jobs
    others =
        if_cases (λ (d : Db). All (λ x. x.id == j.id ≡ false → Accounted rest d.tasks x) d.jobs)
          (leb j.deadline_at now) _ db (λ _. cancel_expired-Accounted now j rest db h)
          (λ _. All-weaken db.jobs (λ x k q going. drop_row j rest db.tasks x q (k going)) h)

finalize_rows-Accounted :
    (now : ℕ) (rows : List Job) (db : Db) (n : ℕ)
    → All (Accounted rows db.tasks) db.jobs
    → All (Accounted [] (finalize_rows now rows db n).0.tasks) (finalize_rows now rows db n).0.jobs
unfolding finalize_rows
finalize_rows-Accounted now [] db n h = h
finalize_rows-Accounted now (j ∷ rest) db n h =
    finalize_rows-Accounted now rest (finalize_job now j db).0 (n + (finalize_job now j db).1)
      (finalize_job-Accounted now j rest db h)

-- After finalize_jobs every job that is still pending or running has a task that is not in a
-- terminal state: no job that has nothing left to do stays going.
pub finalize_jobs-has_work :
    (db : Db) (now : ℕ)
    → All
        (λ j. is_open j.state ≡ true → has_work (finalize_jobs db now).0.tasks j.id ≡ true)
        (finalize_jobs db now).0.jobs
unfolding finalize_jobs
finalize_jobs-has_work db now =
    All-weaken _ (λ j k going. worked j (k going))
      (finalize_rows-Accounted now (select_where (λ j. is_open j.state) db.jobs) db 0 (
        All-weaken db.jobs (λ j k going. inl (k going))
          (select_where-Listed (λ j. is_open j.state) db.jobs)))
  where
    worked :
        (j : Job)
        → Listed [] j
          ⊎ (has_work
                (finalize_rows now (select_where (λ j. is_open j.state) db.jobs) db 0).0.tasks
                j.id
              ≡ true)
        → has_work
            (finalize_rows now (select_where (λ j. is_open j.state) db.jobs) db 0).0.tasks
            j.id
          ≡ true
    worked j (inl a) = absurd a
    worked j (inr w) = w
