-- ===== src/Tests/Runs.antt =====
-- The theorems on the worker applied to the crawl of one page.
use crawltrove.Base.{◌+◌, true, false, none, some, [], ◌∷◌}
use crawltrove.Queue.Settle.{no_metadata}
use crawltrove.Acquisition.Registry.{new_registry, local}
use crawltrove.Worker.{replies, defect, Setup, State}
use crawltrove.Worker.Run.{run_once}
use crawltrove.Worker.Run.Answered.{IsAnswered, run_once-IsAnswered}
use crawltrove.Worker.Durable.{Surroundings, Bench, queue}
use crawltrove.Tests.Crawl.{tools, submitted}
use crawltrove.Tests.Acquisitions.{surroundings}

-- The robots.txt is not found, the page is read, the connection to the database holds.
abbrev calm : Surroundings
calm = record {
  router = surroundings;
  worker = "worker";
  capabilities = "http" ∷ [];
  now = λ n. 10 + n;
  uuid = λ n. 40 + n;
  ids = λ n k. 100 + (n + n + n + n) + k;
  sample = λ n. 0;
  is_due = λ n. false;
  connection = λ n. none;
  outside = λ n. replies tt;
  fetch_robots = λ n. replies (some (record { status = some 404; html = ""; retry_at = none }));
  select_proxy = λ n. replies none;
  mark_failure = λ n. replies true;
  links = λ n p. replies [];
  is_cancelled = λ n. false;
  page = λ n url. record {
    final_url = url;
    status_code = some 200;
    title = "Home";
    markdown = "# Home";
    metadata = no_metadata;
    metadata_status = none;
    discovery_html = "";
  };
  failure = λ n code retryable. record {
    code = code;
    retryable = retryable;
    status_code = none;
    retry_after = none;
  };
  fault = λ n. defect;
  session_ttl = 900;
}

abbrev setup : Setup
setup = record {
  capabilities = "http" ∷ [];
  has_robots_cache = true;
  has_proxy_pool = false;
  has_router = true;
  has_session_handler = false;
  read_config =
      λ t. some (record { respect_robots = true; robots_fail_open = false; min_delay_ms = 0 });
  parse_robots = λ text. record { entries = []; default_entry = none };
  quoted_path = λ url. url;
}

abbrev worker : State Bench
worker = record {
  world = record {
    db = submitted;
    calls = 0;
    registry =
        new_registry (record { name = local; available = true; has_route = λ r. true } ∷ []) none;
    is_lost = false;
  };
  answers = [];
  proxy_lease = none;
  active_lease = none;
  active_proxy_lease = none;
}

run_once-IsAnswered_example : IsAnswered (run_once (queue tools calm) setup worker)
run_once-IsAnswered_example = run_once-IsAnswered (queue tools calm) setup worker
