-- ===== src/Queue/Retry/Repeatable.antt =====
-- The failures that `retry_failures` of app/crawl/repository.py takes.
use crawltrove.Base.{
  ℕ, ◌≡◌, refl, Bool-cases, true, ◌||◌, Option, none, some, is_empty, List, [], ◌∷◌, ◌==◌, arith,
  Row, inl, inr, ◌⊎◌, ap,
}
use crawltrove.Queue.States.{
  TaskState, ErrorClass, http_error, extraction_failed, permanent_failed, is_failure, transport,
  http, extraction,
}
use crawltrove.Queue.Rows.{Task}
use crawltrove.Queue.Retry.{is_retryable, is_retryable_class, member}

-- A failure of the job that may be tried again: its page answered with an error, gave nothing or
-- failed for good, the error is one of the transport, of HTTP or of the extraction, and the caller
-- selected the task or selected none.
pub record IsRetryable (job : ℕ) (selected : List ℕ) (t : Task) : Type 0 where
  pub of_job : t.job_id ≡ job
  pub failed :
      (t.state ≡ http_error) ⊎ ((t.state ≡ extraction_failed) ⊎ (t.state ≡ permanent_failed))
  pub repeatable :
      (t.error_class ≡ some transport)
      ⊎ ((t.error_class ≡ some http) ⊎ (t.error_class ≡ some extraction))
  pub chosen : (selected ≡ []) ⊎ Row t.id selected

is_failure-cases :
    (s : TaskState)
    → is_failure s ≡ true
    → (s ≡ http_error) ⊎ ((s ≡ extraction_failed) ⊎ (s ≡ permanent_failed))
is_failure-cases http_error h = inl refl
is_failure-cases extraction_failed h = inr (inl refl)
is_failure-cases permanent_failed h = inr (inr refl)
is_failure-cases _ h = cc

is_retryable_class-cases :
    (c : Option ErrorClass)
    → is_retryable_class c ≡ true
    → (c ≡ some transport) ⊎ ((c ≡ some http) ⊎ (c ≡ some extraction))
is_retryable_class-cases none h = cc
is_retryable_class-cases (some transport) h = inl refl
is_retryable_class-cases (some http) h = inr (inl refl)
is_retryable_class-cases (some extraction) h = inr (inr refl)
is_retryable_class-cases (some _) h = cc

member-Row : (n : ℕ) (xs : List ℕ) → member n xs ≡ true → Row n xs
member-Row n [] h = cc
member-Row n (m ∷ xs) h = elim (Bool-cases (m == n)) [
  | inl e ↦ inl (ground (arith, e))
  | inr e ↦ inr (member-Row n xs (ground (arith, e, h)))
]

Row-member : (n : ℕ) (xs : List ℕ) → Row n xs → member n xs ≡ true
Row-member n [] r = elim r [ ]
Row-member n (m ∷ xs) (inl e) = ground (arith, e)
Row-member n (m ∷ xs) (inr r) = ground (arith, Row-member n xs r)

chosen-cases : (n : ℕ) (xs : List ℕ) → (is_empty xs || member n xs) ≡ true → (xs ≡ []) ⊎ Row n xs
chosen-cases n [] h = inl refl
chosen-cases n (x ∷ xs) h = inr (member-Row n (x ∷ xs) h)

pub is_retryable-IsRetryable :
    (job : ℕ) (selected : List ℕ) (t : Task)
    → is_retryable job selected t ≡ true
    → IsRetryable job selected t
is_retryable-IsRetryable job selected t h = record {
  of_job = ground (arith, h);
  failed = is_failure-cases t.state (ground (arith, h));
  repeatable = is_retryable_class-cases t.error_class (ground (arith, h));
  chosen = chosen-cases t.id selected (ground (arith, h));
}

pub IsRetryable-is_retryable :
    (job : ℕ) (selected : List ℕ) (t : Task)
    → IsRetryable job selected t
    → is_retryable job selected t ≡ true
IsRetryable-is_retryable job selected t h =
    rw
      (h.of_job, state t.state h.failed, class t.error_class h.repeatable, chosen selected h.chosen)
      (ground arith)
  where
    state :
        (s : TaskState)
        → (s ≡ http_error) ⊎ ((s ≡ extraction_failed) ⊎ (s ≡ permanent_failed))
        → is_failure s ≡ true
    state s (inl e) = ap is_failure e
    state s (inr (inl e)) = ap is_failure e
    state s (inr (inr e)) = ap is_failure e

    class :
        (c : Option ErrorClass)
        → (c ≡ some transport) ⊎ ((c ≡ some http) ⊎ (c ≡ some extraction))
        → is_retryable_class c ≡ true
    class c (inl e) = ap is_retryable_class e
    class c (inr (inl e)) = ap is_retryable_class e
    class c (inr (inr e)) = ap is_retryable_class e

    chosen : (xs : List ℕ) → (xs ≡ []) ⊎ Row t.id xs → (is_empty xs || member t.id xs) ≡ true
    chosen xs (inl e) = ap (λ ys. is_empty ys || member t.id ys) e
    chosen xs (inr r) = ground (arith, Row-member t.id xs r)
