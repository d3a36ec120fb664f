-- ===== src/Worker/Policy.antt =====
-- `_robots_allowed` of app/crawl/worker.py.
use crawltrove.Base.{ℕ, ◌+◌, String, not, Option, none, some, ◌==◌, leb, if◌then◌else◌}
use crawltrove.Classify.{classify_failure}
use crawltrove.Robots.{
  robots_decision, robots_outcome, RobotsAction, parse, allow, deny, RobotsResponseOutcome,
  classify_robots_response,
}
use crawltrove.Queue.Settle.{no_metadata}
use crawltrove.Queue.Claim.{ClaimedTask}
use crawltrove.Worker.{
  retries, blocks, WorkerConfig, RobotsCache, RobotsReply, World, Setup, Body, pure, reads, call,
  leave, ◌>>=◌, ◌>>◌,
}
use crawltrove.Worker.Failure.{transport_error, settle}

-- A cached robots.txt that has not expired.
abbrev pub cached_body : ℕ → Option RobotsCache → Option String
cached_body now none = none
cached_body now (some c) = unexpired c.body c.expires_at
  where
    unexpired : Option String → Option ℕ → Option String
    unexpired (some body) (some expires) = if leb expires now then none else some body
    unexpired _ _ = none

abbrev pub status_of : Option RobotsReply → Option ℕ
status_of none = none
status_of (some r) = r.status

abbrev pub retry_at_of : Option RobotsReply → Option ℕ
retry_at_of none = none
retry_at_of (some r) = r.retry_at

abbrev pub html_of : Option RobotsReply → String
html_of none = ""
html_of (some r) = r.html

abbrev pub deny_all : String
deny_all = "User-agent: *\nDisallow: /\n"

abbrev pub code_of : Option String → String
code_of none = ""
code_of (some c) = c

abbrev pub or_minute_later : ℕ → Option ℕ → ℕ
or_minute_later now none = now + 60_000
or_minute_later now (some t) = t

module _ {S : Type 0} (w : World S) (s : Setup) where
  abbrev pub stored : ClaimedTask → String → Option ℕ → Body S String
  stored t body status = call (w.store_robots t body status) >> pure body

  -- The robots.txt by what its response means.
  abbrev pub robots_body :
      ClaimedTask
      → WorkerConfig
      → ℕ
      → Option RobotsReply
      → RobotsResponseOutcome
      → RobotsAction
      → Body S String
  robots_body t c now r o parse = stored t (html_of r) (status_of r)
  robots_body t c now r o allow = stored t "" (status_of r)
  robots_body t c now r o deny = stored t deny_all (status_of r)
  robots_body t c now r o other =
      if c.robots_fail_open
      then pure ""
      else settle w s retries (
          w.retry t (classify_failure transport_error (status_of r))
            (or_minute_later now o.retry_at) no_metadata)
        >> leave

  abbrev pub fetch_robots : ClaimedTask → WorkerConfig → ℕ → Body S String
  fetch_robots t c now = do
    r ← call (w.robots_fetch t)
    let o = classify_robots_response (status_of r) (retry_at_of r)
    body ← robots_body t c now r o o.action
    if c.min_delay_ms == 0 then pure body else call (w.sleep c.min_delay_ms) >> pure body

  abbrev pub robots_text : ClaimedTask → WorkerConfig → ℕ → Option String → Body S String
  robots_text t c now none = fetch_robots t c now
  robots_text t c now (some body) = pure body

  -- `_robots_allowed`; it goes on where the URL is allowed
  abbrev pub robots_allowed : ClaimedTask → WorkerConfig → Body S Unit
  robots_allowed t c = if not s.has_robots_cache then pure tt else do
    cache ← call (w.robots_cache t)
    now ← reads (λ st. w.now st.world)
    body ← robots_text t c now (cached_body now cache)
    let decision =
        robots_outcome (robots_decision (s.parse_robots body) "CrawlTrove" (s.quoted_path t.url))
          (t.depth == 0)
    if decision.allowed
        then pure tt
        else settle w s blocks (w.block t (code_of decision.code)) >> leave
