-- ===== src/Worker/Run/Statements.antt =====
-- The statements of app/crawl/worker.py that record a failure, give a task up or ask for robots.txt keep
-- what each call keeps.
use crawltrove.Base.{
  ℕ, ◌+◌, ◌≡◌, refl, true, List, String, Bool, false, not, ◌||◌, Option, none, some, [], ◌==◌, leb,
  str_eq,
}
use crawltrove.Classify.{FailureDecision}
use crawltrove.Robots.{
  RobotsAction, parse, refresh, allow, deny, defer, retry, RobotsResponseOutcome,
  classify_robots_response,
}
use crawltrove.Queue.States.{ErrorClass}
use crawltrove.Queue.Settle.{no_metadata}
use crawltrove.Queue.Claim.{ClaimedTask}
use crawltrove.Worker.{
  Reply, Answer, retries, fails, blocks, beats, loses, WorkerConfig, RobotsReply, World, Setup,
  Body, note, leave, ◌>>◌,
}
use crawltrove.Worker.Failure.{
  is_transport, reported, settle, mark_proxy, record_failure, give_up, check_deadline, check_lease,
}
use crawltrove.Worker.Policy.{
  cached_body, status_of, retry_at_of, html_of, deny_all, stored, robots_body, robots_text,
  robots_allowed,
}
use crawltrove.Worker.Run.Trace.{ends_early, ends_late, IsOpen, either-IsRun}
use crawltrove.Worker.Run.Safe.{
  Rules, Done, Safe, pure-Safe, note-leave-Safe, call_leave-Safe, bind-Safe, reads-Safe, call-Safe,
  if-Safe,
}

module _ {S : Type 0} (w : World S) (s : Setup) (I : S → Type 0) (rules : Rules w I)
    (answers : List Answer) (opened : IsOpen answers) where
  -- The statement does nothing for the task unless it returns.
  abbrev pub Settles : {A : Type 0} → Body S A → Type 0
  Settles = Safe I answers (Done I)

  pub loses-Safe : {A : Type 0} → Settles {A = A} (note loses >> leave)
  loses-Safe = note-leave-Safe loses (either-IsRun answers loses opened refl refl)

  -- A settlement that a run may end with at any time.
  pub settle-Safe :
      {A : Type 0} (e : Answer) (f : S → S × Reply Bool)
      → ends_early e ≡ true
      → ends_late e ≡ true
      → ((x : S) → I x → I (f x).0)
      → Settles {A = A} (settle w s e f >> leave)
  settle-Safe e f early late k = call_leave-Safe e f (either-IsRun answers e opened early late) k

  pub mark_proxy-Safe :
      (t : ClaimedTask) (reason : String) (cls : ErrorClass) (proxy : Option String)
      → Settles (mark_proxy w s t reason cls proxy)
  mark_proxy-Safe t reason cls none = pure-Safe false
  mark_proxy-Safe t reason cls (some node) =
      if-Safe (str_eq reason "blocked" || str_eq reason "blocked_challenge")
        (call-Safe _ (rules.mark_failure t node "blocked"))
        (if-Safe (is_transport cls) (call-Safe _ (rules.mark_failure t node "transport"))
          (pure-Safe false))

  pub record_failure-Safe :
      {A : Type 0} (t : ClaimedTask) (reason : String) (retry_after : Option ℕ)
      (d : FailureDecision)
      → Settles {A = A} (record_failure w s t reason retry_after d)
  record_failure-Safe t reason retry_after d = bind-Safe (reads-Safe _) λ proxy.
      bind-Safe (mark_proxy-Safe t reason d.error_class proxy) λ _.
        bind-Safe (reads-Safe _) λ delay. bind-Safe (reads-Safe _) λ now.
          if-Safe d.retry
            (settle-Safe retries _ refl refl (rules.retry t d (now + delay) (reported reason)))
            (settle-Safe fails _ refl refl (rules.fail t d (reported reason)))

  pub give_up-Safe : {A : Type 0} (t : ClaimedTask) → Settles {A = A} (give_up w s t)
  give_up-Safe t =
      bind-Safe (reads-Safe _)
        λ lost. if-Safe lost loses-Safe (settle-Safe beats _ refl refl (rules.heartbeat t))

  pub check_deadline-Safe : (t : ClaimedTask) → Settles (check_deadline w s t)
  check_deadline-Safe t = bind-Safe (reads-Safe _) λ now.
      if-Safe (leb t.deadline_at now) (settle-Safe beats _ refl refl (rules.heartbeat t))
        (pure-Safe tt)

  pub check_lease-Safe : (t : ClaimedTask) → Settles (check_lease w s t)
  check_lease-Safe t = bind-Safe (reads-Safe _) λ over. if-Safe over (give_up-Safe t) (pure-Safe tt)

module _ {S : Type 0} (w : World S) (s : Setup) (I : S → Type 0) (rules : Rules w I) where
  -- A statement before the page is asked for.
  abbrev pub SettlesEarly : {A : Type 0} → Body S A → Type 0
  SettlesEarly = Safe I [] (Done I)

  pub stored-Safe :
      (t : ClaimedTask) (body : String) (status : Option ℕ)
      → SettlesEarly (stored w s t body status)
  stored-Safe t body status =
      bind-Safe (call-Safe _ (rules.store_robots t body status)) (λ _. pure-Safe body)

  -- Where the robots.txt cannot be had.
  pub robots_missing-Safe :
      (t : ClaimedTask) (c : WorkerConfig) (now : ℕ) (r : Option RobotsReply)
      (o : RobotsResponseOutcome)
      → SettlesEarly (robots_body w s t c now r o refresh)
  robots_missing-Safe t c now r o =
      if-Safe c.robots_fail_open (pure-Safe "")
        (call_leave-Safe retries _ refl (rules.retry t _ _ no_metadata))

  pub robots_body-Safe :
      (t : ClaimedTask) (c : WorkerConfig) (now : ℕ) (r : Option RobotsReply)
      (o : RobotsResponseOutcome) (a : RobotsAction)
      → SettlesEarly (robots_body w s t c now r o a)
  robots_body-Safe t c now r o parse = stored-Safe t (html_of r) (status_of r)
  robots_body-Safe t c now r o allow = stored-Safe t "" (status_of r)
  robots_body-Safe t c now r o deny = stored-Safe t deny_all (status_of r)
  robots_body-Safe t c now r o refresh = robots_missing-Safe t c now r o
  robots_body-Safe t c now r o defer = robots_missing-Safe t c now r o
  robots_body-Safe t c now r o retry = robots_missing-Safe t c now r o

  pub robots_text-Safe :
      (t : ClaimedTask) (c : WorkerConfig) (now : ℕ) (body : Option String)
      → SettlesEarly (robots_text w s t c now body)
  robots_text-Safe t c now (some body) = pure-Safe body
  robots_text-Safe t c now none = bind-Safe (call-Safe _ (rules.robots_fetch t)) λ r.
      bind-Safe
        (robots_body-Safe t c now r (classify_robots_response (status_of r) (retry_at_of r))
          (classify_robots_response (status_of r) (retry_at_of r)).action)
        λ body.
          if-Safe (c.min_delay_ms == 0) (pure-Safe body)
            (bind-Safe (call-Safe _ (rules.sleep c.min_delay_ms)) (λ _. pure-Safe body))

  pub robots_allowed-Safe :
      (t : ClaimedTask) (c : WorkerConfig) → SettlesEarly (robots_allowed w s t c)
  robots_allowed-Safe t c = if-Safe (not s.has_robots_cache) (pure-Safe tt) (
      bind-Safe (call-Safe _ (rules.robots_cache t)) λ cache. bind-Safe (reads-Safe _) λ now.
        bind-Safe (robots_text-Safe t c now (cached_body now cache))
          λ body. if-Safe _ (pure-Safe tt) (call_leave-Safe blocks _ refl (rules.block t _)))
