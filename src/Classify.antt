-- ===== src/Classify.antt =====
-- app/crawl/classify.py: which failures of a crawl task are tried again, and how long to wait.
pub mod Retry
use crawltrove.Base.{
  ℕ, ◌+◌, ◌-◌, ◌*◌, ◌/◌, ◌%◌, ◌^◌, min, max, String, Bool, true, false, Option, none, some, List,
  [], ◌∷◌, ◌&&◌, ◌||◌, if◌then◌else◌, str_eq, str_append, ◌==◌, leb, ℤ, pos_part,
}
use crawltrove.Queue.States.{ErrorClass, policy, internal, http, transport, permanent}

pub record FailureDecision : Type 0 where
  pub retry : Bool
  pub error_class : ErrorClass
  pub error_code : String

-- `reason in {…}`
abbrev pub reason_in : Option String → List String → Bool
reason_in none names = false
reason_in (some r) names = member r names
  where
    member : String → List String → Bool
    member r [] = false
    member r (n ∷ names) = str_eq n r || member r names

abbrev pub policy_reasons : List String
policy_reasons =
    "unsafe_url" ∷ "blocked_robots" ∷ "policy_error" ∷ "invalid_input" ∷ "browser_budget_exhausted"
    ∷ []

abbrev pub internal_reasons : List String
internal_reasons = "worker_exception" ∷ "internal_error" ∷ []

abbrev pub transport_reasons : List String
transport_reasons = "transport_error" ∷ "timeout" ∷ "dns_error" ∷ "tls_error" ∷ "lease_expired" ∷ []

abbrev pub status_between : ℕ → ℕ → Option ℕ → Bool
status_between lo hi none = false
status_between lo hi (some s) = leb lo s && leb s hi

abbrev pub is_status : ℕ → Option ℕ → Bool
is_status code none = false
is_status code (some s) = s == code

-- `reason or default`
abbrev pub reason_or : Option String → String → String
reason_or none default = default
reason_or (some r) default = if str_eq r "" then default else r

abbrev pub digit : ℕ → String
digit n =
    if n == 0
    then "0"
    else if n == 1
    then "1"
    else if n == 2
    then "2"
    else if n == 3
    then "3"
    else if n == 4
    then "4"
    else if n == 5
    then "5"
    else if n == 6
    then "6"
    else if n == 7
    then "7"
    else if n == 8
    then "8"
    else "9"

-- `f"http_{status}"`, which is only made of a status of three digits
unfoldable pub http_code : Option ℕ → String
http_code none = "http_None"
http_code (some s) =
    str_append "http_"
      (str_append (digit (s / 100)) (str_append (digit (s / 10 % 10)) (digit (s % 10))))

-- `classify_failure`
unfoldable pub classify_failure : Option String → Option ℕ → FailureDecision
classify_failure reason status =
    if reason_in reason policy_reasons
    then record {
      retry = false;
      error_class = policy;
      error_code = reason_or reason "policy_error";
    }
    else if reason_in reason internal_reasons
    then record { retry = false; error_class = internal; error_code = reason_or reason "" }
    else if is_status 429 status || status_between 500 599 status
    then record { retry = true; error_class = http; error_code = http_code status }
    else if reason_in reason transport_reasons
    then record { retry = true; error_class = transport; error_code = reason_or reason "" }
    else if status_between 400 499 status
    then record { retry = false; error_class = http; error_code = http_code status }
    else record {
      retry = false;
      error_class = permanent;
      error_code = reason_or reason "unknown_failure";
    }

-- `min(60.0, 2 ** max(0, attempt - 1))`, in seconds
unfoldable pub backoff_ceiling : ℕ → ℕ
backoff_ceiling attempt = min 60 (2 ^ (attempt - 1))

-- The number of values of `random.random()`, which are the fractions sample / 2 ** 53.
abbrev pub samples : ℕ
samples = 2 ^ 53

-- `backoff_seconds`, in whole milliseconds; `retry_after` is in milliseconds, and `sample` is what
-- the random generator drew.
unfoldable pub backoff_ms : ℕ → Option ℤ → ℕ → ℕ
unfolding backoff_ceiling
backoff_ms attempt (some retry_after) sample = pos_part retry_after
backoff_ms attempt none sample = backoff_ceiling attempt * 1000 * sample / samples
