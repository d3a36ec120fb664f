-- ===== src/Classify/Retry.antt =====
-- app/crawl/classify.py: exactly which failures are tried again, and the bounds of the delay.
use crawltrove.Base.{
  ℕ, zero, suc, ◌+◌, ◌-◌, ◌*◌, ◌/◌, ◌^◌, ◌≤◌, ◌<◌, ◌≡◌, refl, ap, min, String, Bool, true, false,
  Option, none, not, ◌&&◌, ◌||◌, Bool-cases, inl, inr, arith,
}
use native.Mathlib.Nat.{two-pow-succ, le_dest, mul-add, mul-suc}
use crawltrove.Queue.States.{ErrorClass, http, transport}
use crawltrove.Classify.{
  classify_failure, reason_in, policy_reasons, internal_reasons, transport_reasons, is_status,
  status_between, backoff_ms, backoff_ceiling, samples,
}

-- The failures that are tried again, and the class that each failure gets.
abbrev pub is_retried : Option String → Option ℕ → Bool
is_retried reason status =
    not (reason_in reason policy_reasons)
    && not (reason_in reason internal_reasons)
    && (is_status 429 status || status_between 500 599 status || reason_in reason transport_reasons)

abbrev pub is_retriable_class : ErrorClass → Bool
is_retriable_class http = true
is_retriable_class transport = true
is_retriable_class _ = false

-- A failure is tried again exactly when its reason names neither a policy nor an internal failure
-- and its status is 429 or 5xx or its reason names a transport failure; and a failure that is tried
-- again is of class http or transport, the two that count against the origin's circuit.
pub classify_failure-is_retried :
    (reason : Option String) (status : Option ℕ)
    → ((classify_failure reason status).retry ≡ is_retried reason status)
      × (is_retried reason status
            && not (is_retriable_class (classify_failure reason status).error_class)
          ≡ false)
unfolding classify_failure
classify_failure-is_retried reason status = elim (Bool-cases (reason_in reason policy_reasons)) [
  | inl a ↦ rw (a, classify_failure) (refl, refl)
  | inr a ↦ elim (Bool-cases (reason_in reason internal_reasons)) [
    | inl b ↦ rw (a, b, classify_failure) (refl, refl)
    | inr b ↦ elim (Bool-cases (is_status 429 status || status_between 500 599 status)) [
      | inl c ↦ rw (a, b, c, classify_failure) (refl, refl)
      | inr c ↦ elim (Bool-cases (reason_in reason transport_reasons)) [
        | inl d ↦ rw (a, b, c, d, classify_failure) (refl, refl)
        | inr d ↦ elim (Bool-cases (status_between 400 499 status)) [
          | inl e ↦ rw (a, b, c, d, e, classify_failure) (refl, refl)
          | inr e ↦ rw (a, b, c, d, e, classify_failure) (refl, refl)
        ]
      ]
    ]
  ]
]

pow-pos : (n : ℕ) → 0 < 2 ^ n
pow-pos zero = omega arith
pow-pos (suc n) = omega (arith, two-pow-succ n, pow-pos n)

-- A fraction below 1 of a positive number is below it.
scale_lt : (x s : ℕ) → 0 < x → s < samples → x * s / samples < x
scale_lt x s pos h =
    let (e, k) = le_dest h in
    let split : x * samples ≡ x * s + (x * e + x) =
      omega (arith, ap (λ n. x * n) k, mul-add x (suc s) e, mul-suc x s) in
    omega (arith, split, pos)

-- Without a Retry-After the delay before an attempt is at most 60 seconds and below the ceiling of
-- that attempt for a sample below 1, and the ceiling doubles from attempt to attempt until it is 60.
pub backoff_ms-bounds :
    (attempt sample : ℕ)
    → sample < samples
    → (backoff_ms (attempt + 1) none sample < backoff_ceiling (attempt + 1) * 1000)
      × ((backoff_ceiling (attempt + 1) ≤ 60)
          × (backoff_ceiling (attempt + 2) ≡ min 60 (2 * backoff_ceiling (attempt + 1))))
unfolding backoff_ms backoff_ceiling
backoff_ms-bounds attempt sample h = (
  scale_lt (backoff_ceiling (attempt + 1) * 1000) sample (omega (arith, pow-pos (attempt + 1 - 1)))
      h,
  (omega arith, doubles),
)
  where
    later : attempt + 2 - 1 ≡ suc attempt
    later = omega arith

    now : attempt + 1 - 1 ≡ attempt
    now = omega arith

    doubles : min 60 (2 ^ (attempt + 2 - 1)) ≡ min 60 (2 * min 60 (2 ^ (attempt + 1 - 1)))
    doubles = rw (later, now) (omega (arith, two-pow-succ attempt))
