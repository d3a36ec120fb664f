-- ===== src/Queue/Fence/Once.antt =====
-- The lease token of app/crawl/repository.py as a fence: what an operation does under a token that
-- no leased task carries, and that a token is void once its task is settled.
use crawltrove.Base.{
  ℕ, ◌≡◌, ◌≢◌, refl, String, Bool, Bool-cases, inl, inr, true, false, Option, none, some, List, [],
  ◌∷◌, find_where, All, All-weaken, arith, is_some_eq-some,
}
use crawltrove.Queue.States.{TaskState, leased, pending, retry_wait, is_leased}
use crawltrove.Queue.Rows.{Task, Db}
use crawltrove.Queue.Results.{ok}
use crawltrove.Queue.Settle.{Metadata, holds, fenced_task}
use crawltrove.Queue.Discover.{UrlTools}
use crawltrove.Queue.Finish.{TaskResult, complete_task, retry_task, fail_task, block_robots}
use crawltrove.Queue.Lease.{heartbeat, reserve_browser_navigation}
use crawltrove.Classify.{FailureDecision}

-- No task is leased under the token.
abbrev pub IsVoid : ℕ → ℕ → List Task → Type 0
IsVoid id token tasks = All (λ t. holds id token t ≡ false) tasks

-- The operations of a worker all refuse, and leave the store as it is.
pub record Refuses (db : Db) (id token : ℕ) : Type 0 where
  complete :
      (tools : UrlTools) (uuids : ℕ → ℕ) (now : ℕ) (r : TaskResult) (row : ℕ)
      → complete_task tools uuids db now id token r row ≡ ok (db, false)
  retry :
      (now : ℕ) (decision : FailureDecision) (available : ℕ) (m : Metadata)
      → retry_task db now id token decision available m ≡ ok (db, false)
  fail :
      (now : ℕ) (decision : FailureDecision) (m : Metadata)
      → fail_task db now id token decision m ≡ ok (db, false)
  block : (now : ℕ) (code : String) → block_robots db now id token code ≡ ok (db, false)
  beat : (now : ℕ) → heartbeat db now id token ≡ ok (db, false)
  navigate : (now : ℕ) → reserve_browser_navigation db now id token ≡ ok (db, false)

find_where-void :
    {A : Type 0} (p : A → Bool) (xs : List A) → All (λ x. p x ≡ false) xs → find_where p xs ≡ none
unfolding find_where
find_where-void p [] h = refl
find_where-void p (x ∷ xs) (h, k) = rw (h, find_where-void p xs k) refl

void-Refuses : (db : Db) (id token : ℕ) → fenced_task db id token ≡ none → Refuses db id token
unfolding complete_task retry_task fail_task block_robots heartbeat reserve_browser_navigation
void-Refuses db id token e = record {
  complete = λ tools uuids now r row. rw e refl;
  retry = λ now decision available m. rw e refl;
  fail = λ now decision m. rw e refl;
  block = λ now code. rw e refl;
  beat = λ now. rw e refl;
  navigate = λ now. rw e refl;
}

IsVoid-fenced_task :
    (db : Db) (id token : ℕ) → IsVoid id token db.tasks → fenced_task db id token ≡ none
unfolding fenced_task
IsVoid-fenced_task db id token h = rw (find_where-void (holds id token) db.tasks h) refl

pub IsVoid-Refuses : (db : Db) (id token : ℕ) → IsVoid id token db.tasks → Refuses db id token
IsVoid-Refuses db id token h = void-Refuses db id token (IsVoid-fenced_task db id token h)

-- The task is not leased under the token: it has another state, another token or none.
abbrev pub NotHeld : ℕ → ℕ → Task → Type 0
NotHeld id token t = t.id ≡ id → t.state ≡ leased → ◌≢◌ {A = Option ℕ} t.lease_token (some token)

is_leased-leased : (s : TaskState) → is_leased s ≡ true → s ≡ leased
is_leased-leased leased h = refl
is_leased-leased pending h = cc
is_leased-leased retry_wait h = cc
is_leased-leased _ h = cc

NotHeld-holds : (id token : ℕ) (t : Task) → NotHeld id token t → holds id token t ≡ false
NotHeld-holds id token t h = elim (Bool-cases (holds id token t)) [
  | inl e ↦ absurd (
      h (ground (arith, e)) (is_leased-leased t.state (ground (arith, e)))
        (is_some_eq-some t.lease_token token (ground (arith, e))))
  | inr e ↦ e
]

-- A worker whose lease is gone can change nothing: if no task with the given id is leased under the
-- given token, then complete_task, retry_task, fail_task, block_robots, heartbeat and
-- reserve_browser_navigation return false and leave every table as it is.
pub NotHeld-Refuses :
    (db : Db) (id token : ℕ) → All (NotHeld id token) db.tasks → Refuses db id token
NotHeld-Refuses db id token h =
    IsVoid-Refuses db id token (All-weaken db.tasks (NotHeld-holds id token) h)
