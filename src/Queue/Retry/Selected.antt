-- ===== src/Queue/Retry/Selected.antt =====
-- The query of `retry_failures` in app/crawl/repository.py: WHERE, ORDER BY and LIMIT.
use crawltrove.Base.{
  ℕ, ◌-◌, ◌≤◌, ◌≡◌, Bool, true, false, List, [], ◌∷◌, if_cases, ◌==◌, leb, arith, length,
  select_where, All, All-weaken, All-Row, Row, inl, inr, ◌⊎◌, ap, sum_of, select_where-All,
}
use crawltrove.Queue.Rows.{Task, Db}
use crawltrove.Queue.Retry.Repeatable.{
  IsRetryable, is_retryable-IsRetryable, IsRetryable-is_retryable,
}
use crawltrove.Queue.Retry.{is_retryable, insert_by_seq, sort_by_seq, limit_rows, retryable_rows}

abbrev Before : Task → Task → Type 0
Before s t = s.discovery_seq ≤ t.discovery_seq

abbrev Ordered : List Task → Type 0
Ordered [] = Unit
Ordered (t ∷ rest) = All (Before t) rest × Ordered rest

-- A row is among the first that were taken, or comes after all of `n` others.
abbrev IsTakenOrLater : ℕ → Task → List Task → Type 0
IsTakenOrLater n t rows = Row t rows ⊎ ((length rows ≡ n) × All (λ x. Before x t) rows)

insert_by_seq-All :
    (P : Task → Type 0) (t : Task) (rows : List Task)
    → P t
    → All P rows
    → All P (insert_by_seq t rows)
unfolding insert_by_seq
insert_by_seq-All P t [] p h = (p, tt)
insert_by_seq-All P t (x ∷ rest) p h =
    if_cases (All P) (leb t.discovery_seq x.discovery_seq) (t ∷ x ∷ rest) (x ∷ insert_by_seq t rest)
      (λ _. (p, h)) (λ _. (h.0, insert_by_seq-All P t rest p h.1))

insert_by_seq-Ordered :
    (t : Task) (rows : List Task) → Ordered rows → Ordered (insert_by_seq t rows)
unfolding insert_by_seq
insert_by_seq-Ordered t [] h = (tt, tt)
insert_by_seq-Ordered t (x ∷ rest) h =
    if_cases Ordered (leb t.discovery_seq x.discovery_seq) (t ∷ x ∷ rest) (x ∷ insert_by_seq t rest)
      (λ e. ((ground (arith, e), All-weaken rest (λ y k. omega (arith, k, before e)) h.0), h))
      (λ e. (
        insert_by_seq-All (Before x) t rest (ground (arith, e)) h.0,
        insert_by_seq-Ordered t rest h.1,
      ))
  where
    before : leb t.discovery_seq x.discovery_seq ≡ true → Before t x
    before e = ground (arith, e)

insert_by_seq-Row :
    (t s : Task) (rows : List Task) → (t ≡ s) ⊎ Row s rows → Row s (insert_by_seq t rows)
unfolding insert_by_seq
insert_by_seq-Row t s [] h = h
insert_by_seq-Row t s (x ∷ rest) (inl e) =
    if_cases (Row s) (leb t.discovery_seq x.discovery_seq) (t ∷ x ∷ rest) (x ∷ insert_by_seq t rest)
      (λ _. inl e) (λ _. inr (insert_by_seq-Row t s rest (inl e)))
insert_by_seq-Row t s (x ∷ rest) (inr (inl e)) =
    if_cases (Row s) (leb t.discovery_seq x.discovery_seq) (t ∷ x ∷ rest) (x ∷ insert_by_seq t rest)
      (λ _. inr (inl e)) (λ _. inl e)
insert_by_seq-Row t s (x ∷ rest) (inr (inr r)) =
    if_cases (Row s) (leb t.discovery_seq x.discovery_seq) (t ∷ x ∷ rest) (x ∷ insert_by_seq t rest)
      (λ _. inr (inr r)) (λ _. inr (insert_by_seq-Row t s rest (inr r)))

sort_by_seq-All : (P : Task → Type 0) (rows : List Task) → All P rows → All P (sort_by_seq rows)
unfolding sort_by_seq
sort_by_seq-All P [] h = tt
sort_by_seq-All P (t ∷ rest) h =
    insert_by_seq-All P t (sort_by_seq rest) h.0 (sort_by_seq-All P rest h.1)

sort_by_seq-Ordered : (rows : List Task) → Ordered (sort_by_seq rows)
unfolding sort_by_seq
sort_by_seq-Ordered [] = tt
sort_by_seq-Ordered (t ∷ rest) =
    insert_by_seq-Ordered t (sort_by_seq rest) (sort_by_seq-Ordered rest)

sort_by_seq-Row : (s : Task) (rows : List Task) → Row s rows → Row s (sort_by_seq rows)
unfolding sort_by_seq
sort_by_seq-Row s [] r = elim r [ ]
sort_by_seq-Row s (t ∷ rest) (inl e) = insert_by_seq-Row t s (sort_by_seq rest) (inl e)
sort_by_seq-Row s (t ∷ rest) (inr r) =
    insert_by_seq-Row t s (sort_by_seq rest) (inr (sort_by_seq-Row s rest r))

limit_rows-All :
    (P : Task → Type 0) (n : ℕ) (rows : List Task) → All P rows → All P (limit_rows n rows)
unfolding limit_rows
limit_rows-All P n [] h = tt
limit_rows-All P n (t ∷ rest) h =
    if_cases (All P) (n == 0) [] (t ∷ limit_rows (n - 1) rest) (λ _. tt)
      (λ _. (h.0, limit_rows-All P (n - 1) rest h.1))

limit_rows-Ordered : (n : ℕ) (rows : List Task) → Ordered rows → Ordered (limit_rows n rows)
unfolding limit_rows
limit_rows-Ordered n [] h = tt
limit_rows-Ordered n (t ∷ rest) h =
    if_cases Ordered (n == 0) [] (t ∷ limit_rows (n - 1) rest) (λ _. tt)
      (λ _. (limit_rows-All (Before t) (n - 1) rest h.0, limit_rows-Ordered (n - 1) rest h.1))

length-limit_rows : (n : ℕ) (rows : List Task) → length (limit_rows n rows) ≤ n
unfolding limit_rows sum_of
length-limit_rows n [] = ground arith
length-limit_rows n (t ∷ rest) =
    if_cases (λ (r : List Task). length r ≤ n) (n == 0) [] (t ∷ limit_rows (n - 1) rest)
      (λ _. ground arith) (λ e. ground (arith, e, length-limit_rows (n - 1) rest))

taken_later :
    (n : ℕ) (s t : Task) (rows : List Task)
    → n == 0 ≡ false
    → Before t s
    → IsTakenOrLater (n - 1) s rows
    → IsTakenOrLater n s (t ∷ rows)
unfolding sum_of
taken_later n s t rows e b (inl r) = inl (inr r)
taken_later n s t rows e b (inr k) = inr (ground (arith, e, k.0), (b, k.1))

limit_rows-taken :
    (n : ℕ) (s : Task) (rows : List Task)
    → Ordered rows
    → Row s rows
    → IsTakenOrLater n s (limit_rows n rows)
unfolding limit_rows sum_of
limit_rows-taken n s [] h r = elim r [ ]
limit_rows-taken n s (t ∷ rest) h (inl q) =
    if_cases (IsTakenOrLater n s) (n == 0) [] (t ∷ limit_rows (n - 1) rest)
      (λ e. inr (ground (arith, e), tt)) (λ _. inl (inl q))
limit_rows-taken n s (t ∷ rest) h (inr q) =
    if_cases (IsTakenOrLater n s) (n == 0) [] (t ∷ limit_rows (n - 1) rest)
      (λ e. inr (ground (arith, e), tt))
      (λ e.
        taken_later n s t _ e (All-Row (Before t) s rest q h.0)
          (limit_rows-taken (n - 1) s rest h.1 q))

select_where-Row :
    (p : Task → Bool) (s : Task) (rows : List Task)
    → p s ≡ true
    → Row s rows
    → Row s (select_where p rows)
unfolding select_where
select_where-Row p s [] h r = elim r [ ]
select_where-Row p s (t ∷ rest) h (inl q) =
    if_cases (Row s) (p t) (t ∷ select_where p rest) (select_where p rest) (λ _. inl q)
      (λ e. absurd (ground (arith, e, ap p q, h)))
select_where-Row p s (t ∷ rest) h (inr q) =
    if_cases (Row s) (p t) (t ∷ select_where p rest) (select_where p rest)
      (λ _. inr (select_where-Row p s rest h q)) (λ _. select_where-Row p s rest h q)

-- Rows that are the first hundred retryable failures of a job, in the order of their discovery.
pub record IsSelection (db : Db) (job : ℕ) (selected : List ℕ) (rows : List Task) : Type 0 where
  retryable : All (IsRetryable job selected) rows
  ordered : Ordered rows
  at_most : length rows ≤ 100
  first : (t : Task) → Row t db.tasks → IsRetryable job selected t → IsTakenOrLater 100 t rows

-- The rows that `retry_failures` reads are tasks of the job that ended as http_error,
-- extraction_failed or permanent_failed with an error of class transport, http or extraction, and
-- that are in the selection unless it is empty; they are in the order of their discovery and at most
-- a hundred; and every such task is one of them, unless there are a hundred of them and none was
-- discovered after it.
pub retryable_rows-IsSelection :
    (db : Db) (job : ℕ) (selected : List ℕ)
    → IsSelection db job selected (retryable_rows db job selected)
unfolding retryable_rows
retryable_rows-IsSelection db job selected =
    let matching = select_where (is_retryable job selected) db.tasks in
    record {
      retryable =
          All-weaken (limit_rows 100 (sort_by_seq matching)) (is_retryable-IsRetryable job selected)
            (limit_rows-All _ 100 (sort_by_seq matching)
              (sort_by_seq-All _ matching (select_where-All (is_retryable job selected) db.tasks)));
      ordered = limit_rows-Ordered 100 (sort_by_seq matching) (sort_by_seq-Ordered matching);
      at_most = length-limit_rows 100 (sort_by_seq matching);
      first = λ t r e.
          limit_rows-taken 100 t (sort_by_seq matching) (sort_by_seq-Ordered matching) (
            sort_by_seq-Row t matching (
              select_where-Row (is_retryable job selected) t db.tasks
                (IsRetryable-is_retryable job selected t e) r));
    }
