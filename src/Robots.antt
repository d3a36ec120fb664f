-- ===== src/Robots.antt =====
-- app/crawl/policy.py: what a robots.txt and its HTTP response mean for a URL. The objects of
-- urllib.robotparser enter as records with their methods as fields; a rule's path is quoted, so its
-- length is its number of bytes. parse_retry_after (HTTP dates) is an argument.
pub mod Longest
use crawltrove.Base.{
  ℕ, max, String, Bool, true, false, Option, none, some, List, [], ◌∷◌, ◌||◌, ◌&&◌, len, ◌==◌, leb,
  if◌then◌else◌, find_where, select_where, exists_where, or_else,
}

-- robotparser.RuleLine
pub record RuleLine : Type 0 where
  pub path : String
  pub allowance : Bool
  pub applies_to : String → Bool

-- robotparser.Entry
pub record Entry : Type 0 where
  pub applies_to : String → Bool
  pub rulelines : List RuleLine

-- a RobotFileParser after `parse`
pub record RobotFileParser : Type 0 where
  pub entries : List Entry
  pub default_entry : Option Entry

-- `max(len(rule.path) for rule in matches)`
unfoldable pub longest : List RuleLine → ℕ
longest [] = 0
longest (r ∷ rest) = max (len r.path) (longest rest)

abbrev pub is_longest : ℕ → RuleLine → Bool
is_longest n r = len r.path == n

unfoldable pub decide : List RuleLine → Bool
unfolding longest
decide [] = true
decide (r ∷ rest) =
    let matches = r ∷ rest in
    exists_where (λ x. x.allowance) (select_where (is_longest (longest matches)) matches)

abbrev pub decide_entry : Option Entry → String → Bool
decide_entry none path = true
decide_entry (some e) path = decide (select_where (λ r. r.applies_to path) e.rulelines)

-- `robots_decision`, on the parsed body and the quoted path of the URL
unfoldable pub robots_decision : RobotFileParser → String → String → Bool
unfolding decide
robots_decision parser user_agent path =
    decide_entry
      (or_else (find_where (λ e. e.applies_to user_agent) parser.entries) parser.default_entry) path

pub record RobotsOutcome : Type 0 where
  pub allowed : Bool
  pub state : String
  pub code : Option String

-- `robots_outcome`
unfoldable pub robots_outcome : Bool → Bool → RobotsOutcome
robots_outcome allowed is_seed =
    if allowed
    then record { allowed = true; state = "allowed"; code = none }
    else if is_seed
    then record {
      allowed = false;
      state = "permanent_failed";
      code = some "seed_blocked_by_robots";
    }
    else record { allowed = false; state = "blocked_robots"; code = some "blocked_robots" }

pub data RobotsAction : Type 0 where
  parse refresh allow deny defer retry : RobotsAction

pub record RobotsResponseOutcome : Type 0 where
  pub action : RobotsAction
  pub retry_at : Option ℕ

abbrev pub answer : RobotsAction → RobotsResponseOutcome
answer a = record { action = a; retry_at = none }

-- `classify_robots_response`; `retry_at` is what parse_retry_after makes of the header
unfoldable pub classify_robots_response : Option ℕ → Option ℕ → RobotsResponseOutcome
classify_robots_response none retry_at = answer retry
classify_robots_response (some status) retry_at =
    if leb 200 status && leb status 299
    then answer parse
    else if status == 304
    then answer refresh
    else if status == 401 || status == 403
    then answer deny
    else if status == 404 || status == 410
    then answer allow
    else if status == 429
    then record { action = defer; retry_at = retry_at }
    else answer retry
