-- ===== src/Worker/Run.antt =====
-- `run_once` of app/crawl/worker.py.
pub mod Trace
pub mod Safe
pub mod Opens
pub mod Statements
pub mod Answered
use crawltrove.Base.{
  ℕ, ◌+◌, String, Bool, true, false, not, ◌&&◌, ◌||◌, Option, none, some, List, [], ◌∷◌, ◌==◌, leb,
  if◌then◌else◌, str_eq, pos, ℤ, or_else, is_some,
}
use crawltrove.Classify.{FailureDecision, classify_failure, backoff_ms}
use crawltrove.Robots.{
  robots_decision, robots_outcome, RobotsOutcome, RobotsAction, parse, allow, deny,
  RobotsResponseOutcome, classify_robots_response,
}
use crawltrove.Queue.States.{ErrorClass, transport, permanent}
use crawltrove.Queue.Meters.{contains}
use crawltrove.Queue.Settle.{Metadata, no_metadata}
use crawltrove.Queue.Claim.{ClaimedTask}
use crawltrove.Queue.Finish.{TaskResult}
use crawltrove.Worker.{
  Fault, transient, defect, Reply, replies, throws, Answer, completes, retries, fails, blocks,
  parks, beats, loses, WorkerConfig, ProviderFailure, Page, Waited, unfinished, acquired,
  needs_human, provider_failed, crashed, RobotsCache, RobotsReply, World, Setup, State, Step, goes,
  returns, raises, Body, next, pure, throw, reads, assigns, call, waits, note, leave, acquires,
  ◌>>=◌, ◌>>◌,
}
use crawltrove.Worker.Failure.{
  is_transport, transport_error, provider_decision, settle, record_failure, give_up, check_deadline,
  check_lease,
}
use crawltrove.Worker.Policy.{robots_allowed}

-- `acquired.final_url or task.url`
abbrev pub page_url : ClaimedTask → Page → String
page_url t p = if str_eq p.final_url "" then t.url else p.final_url

abbrev pub result_of : ClaimedTask → Page → List String → TaskResult
result_of t p links = record {
  final_url = page_url t p;
  status_code = or_else p.status_code p.metadata_status;
  title = p.title;
  markdown = p.markdown;
  metadata = p.metadata;
  discovered_urls = links;
}

abbrev pub fault_reason : Fault → String
fault_reason transient = "transport_error"
fault_reason defect = "worker_exception"

module _ {S : Type 0} (w : World S) (s : Setup) where
  abbrev pub start_proxy : ClaimedTask → Option String → Body S Unit
  start_proxy t none =
      record_failure w s t "transport_error" none (classify_failure transport_error none)
  start_proxy t (some node) = do
    assigns (λ st. record st { proxy_lease = some node })
    call (w.start_proxy t node)
    assigns (λ st. record st { active_proxy_lease = some node })

  abbrev pub take_proxy : ClaimedTask → Body S Unit
  take_proxy t =
      if s.has_proxy_pool && contains "proxy" t.required_capabilities
      then call (w.select_proxy t) >>= start_proxy t
      else pure tt

  abbrev pub complete : {A : Type 0} → ClaimedTask → Page → Body S A
  complete t p = do
    lost ← reads (λ st. w.is_lost st.world)
    if lost then note loses >> leave else do
      links ← call (w.discover p (page_url t p))
      gone ← reads (λ st. w.is_lost st.world)
      if gone
          then note loses >> leave
          else settle w s completes (w.complete t (result_of t p links)) >> leave

  abbrev pub park : {A : Type 0} → ClaimedTask → Body S A
  park t = do
    started ← call (w.start_session t)
    if started then note parks >> leave else throw defect

  -- What the router's task came to.
  abbrev pub handle : {A : Type 0} → ClaimedTask → Waited → Body S A
  handle t unfinished = give_up w s t
  handle t (acquired p) = complete t p
  handle t (needs_human backend) =
      if not (str_eq backend "owned")
        || not (contains "browser" s.capabilities)
        || not s.has_session_handler
      then throw defect
      else park t
  handle t (provider_failed f) = record_failure w s t f.code f.retry_after (provider_decision f)
  handle t (crashed e) = throw e

  -- the try block of `run_once`, which does not fall through
  unfoldable pub attempt : {A : Type 0} → ClaimedTask → WorkerConfig → Body S A
  unfolding classify_failure backoff_ms contains robots_outcome robots_decision
      classify_robots_response pure throw reads assigns call waits note leave ◌>>=◌
  attempt t c = do
    check_deadline w s t
    if c.respect_robots then robots_allowed w s t c else pure tt
    check_lease w s t
    take_proxy t
    if s.has_router then pure tt else throw defect
    note acquires
    waited ← waits (w.acquire t)
    handle t waited

  -- `except Exception`
  unfoldable pub recover : {A : Type 0} → ClaimedTask → Fault → Body S A
  unfolding classify_failure backoff_ms throw reads call note leave ◌>>=◌
  recover t e = do
    lost ← reads (λ st. w.is_lost st.world)
    if lost
        then note loses >> leave
        else record_failure w s t (fault_reason e) none
            (classify_failure (some (fault_reason e)) none)

  abbrev pub caught : {A : Type 0} → ClaimedTask → State S × Step A → State S × Step A
  caught t (st, raises e) = recover t e st
  caught t (st, goes a) = (st, goes a)
  caught t (st, returns) = (st, returns)

  abbrev pub release : ClaimedTask → Option String → Body S Unit
  release t none = pure tt
  release t (some node) = call (w.close_proxy node) >> call (w.release_proxy t)

  -- the finally block
  unfoldable pub clean_up : ClaimedTask → Body S Unit
  unfolding pure reads assigns call ◌>>=◌
  clean_up t = do
    call w.stop_heartbeat
    assigns (λ st. record st { active_lease = none; active_proxy_lease = none })
    proxy ← reads (λ st. st.proxy_lease)
    release t proxy

  -- What `run_once` returns or raises.
  pub data Outcome : Type 0 where
    idle : Outcome
    ran : Outcome
    raised : Fault → Outcome

  abbrev pub ended : State S × Step Unit → State S × Outcome
  ended (st, raises e) = (st, raised e)
  ended (st, goes u) = (st, ran)
  ended (st, returns) = (st, ran)

  -- An exception of the handler waits for the finally block, and one of that block replaces it.
  abbrev pub finally : ClaimedTask → State S × Step ⊥ → State S × Outcome
  finally t (st, raises e) = ended (next (clean_up t st) (λ u. throw e))
  finally t (st, goes a) = absurd a
  finally t (st, returns) = ended (clean_up t st)

  abbrev pub run_task : ClaimedTask → Option WorkerConfig → State S → State S × Outcome
  run_task t none st = (st, raised defect)
  run_task t (some c) st = finally t (caught t (attempt t c st))

  abbrev pub run_claim : State S → Reply (Option ClaimedTask) → State S × Outcome
  run_claim st (throws e) = (st, raised e)
  run_claim st (replies none) = (st, idle)
  run_claim st (replies (some t)) =
      run_task t (s.read_config t) (record st { active_lease = some (t.id, t.lease_token) })

  -- `run_once`
  unfoldable pub run_once : State S → State S × Outcome
  unfolding attempt recover clean_up
  run_once st =
      let r = w.claim st.world in
      run_claim (record st { world = r.0; answers = []; proxy_lease = none }) r.1
