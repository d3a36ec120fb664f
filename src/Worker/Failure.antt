-- ===== src/Worker/Failure.antt =====
-- How a run of app/crawl/worker.py records a failure or gives its task up.
use crawltrove.Base.{
  ℕ, ◌+◌, String, Bool, true, false, ◌||◌, Option, none, some, leb, if◌then◌else◌, str_eq, pos, ℤ,
}
use crawltrove.Classify.{FailureDecision, backoff_ms}
use crawltrove.Queue.States.{ErrorClass, transport, permanent}
use crawltrove.Queue.Settle.{Metadata, no_metadata}
use crawltrove.Queue.Claim.{ClaimedTask}
use crawltrove.Worker.{
  Reply, Answer, retries, fails, beats, loses, ProviderFailure, World, Setup, Body, pure, reads,
  call, note, leave, ◌>>=◌, ◌>>◌,
}

abbrev pub is_transport : ErrorClass → Bool
is_transport transport = true
is_transport _ = false

abbrev pub transport_error : Option String
transport_error = some "transport_error"

abbrev pub reported : String → Metadata
reported reason = record no_metadata { reason = some reason }

abbrev pub provider_decision : ProviderFailure → FailureDecision
provider_decision f = record {
  retry = f.retryable;
  error_class = if f.retryable then transport else permanent;
  error_code = f.code;
}

abbrev pub milliseconds : Option ℕ → Option ℤ
milliseconds none = none
milliseconds (some n) = some (pos n)

module _ {S : Type 0} (w : World S) (s : Setup) where
  -- A call that settles the task, or beats for it the last time.
  abbrev pub settle : Answer → (S → S × Reply Bool) → Body S Unit
  settle e f = call f >> note e

  -- The call of the pool about a failure, if the run has a proxy.
  abbrev pub mark_proxy : ClaimedTask → String → ErrorClass → Option String → Body S Bool
  mark_proxy t reason cls none = pure false
  mark_proxy t reason cls (some node) =
      if str_eq reason "blocked" || str_eq reason "blocked_challenge"
      then call (w.mark_failure t node "blocked")
      else if is_transport cls
      then call (w.mark_failure t node "transport")
      else pure false

  -- `_record_failure` and the return after it; the reason is the metadata's
  abbrev pub record_failure :
      {A : Type 0} → ClaimedTask → String → Option ℕ → FailureDecision → Body S A
  record_failure t reason retry_after d = do
    proxy ← reads (λ st. st.proxy_lease)
    mark_proxy t reason d.error_class proxy
    delay ← reads (λ st. backoff_ms t.attempt (milliseconds retry_after) (w.sample st.world))
    now ← reads (λ st. w.now st.world)
    if d.retry
        then settle retries (w.retry t d (now + delay) (reported reason)) >> leave
        else settle fails (w.fail t d (reported reason)) >> leave

  -- The end of a run whose lease is lost or whose deadline has passed.
  abbrev pub give_up : {A : Type 0} → ClaimedTask → Body S A
  give_up t = do
    lost ← reads (λ st. w.is_lost st.world)
    if lost then note loses >> leave else settle beats (w.heartbeat t) >> leave

  abbrev pub check_deadline : ClaimedTask → Body S Unit
  check_deadline t = do
    now ← reads (λ st. w.now st.world)
    if leb t.deadline_at now then settle beats (w.heartbeat t) >> leave else pure tt

  abbrev pub check_lease : ClaimedTask → Body S Unit
  check_lease t = do
    over ← reads (λ st. w.is_lost st.world || leb t.deadline_at (w.now st.world))
    if over then give_up t else pure tt
