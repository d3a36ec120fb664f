-- ===== src/Queue/Claim/Caps.antt =====
-- The caps of app/crawl/repository.py on what one response may spend, and the claim that a worker
-- gets (app/crawl/types.py).
use crawltrove.Base.{
  ℕ, ◌*◌, String, List, [], ◌∷◌, if◌then◌else◌, codes, lower, before, ends_with_any,
}
use crawltrove.Queue.Rows.{CrawlConfig, Engine, Provider}

abbrev pub lease_ms : ℕ
lease_ms = 120 * 1000

abbrev pub html_response_cap : ℕ
html_response_cap = 10 * 1024 * 1024

abbrev pub document_response_cap : ℕ
document_response_cap = 50 * 1024 * 1024

abbrev pub image_response_cap : ℕ
image_response_cap = 25 * 1024 * 1024

abbrev pub inline_artifact_cap : ℕ
inline_artifact_cap = 30 * 1024 * 1024

abbrev pub document_suffixes : List String
document_suffixes = ".pdf" ∷ ".epub" ∷ []

abbrev pub image_suffixes : List String
image_suffixes = ".avif" ∷ ".gif" ∷ ".jpeg" ∷ ".jpg" ∷ ".png" ∷ ".webp" ∷ []

-- `_response_cap`
unfoldable pub response_cap : String → ℕ
unfolding lower before ends_with_any
response_cap url =
    let path = before b'?' (lower (codes url)) in
    if ends_with_any path document_suffixes
    then document_response_cap
    else if ends_with_any path image_suffixes
    then image_response_cap
    else html_response_cap

abbrev pub engine_name : Engine → String
engine_name Engine.auto = "auto"
engine_name Engine.http = "http"
engine_name Engine.browser = "browser"

abbrev pub provider_name : Provider → String
provider_name Provider.auto = "auto"
provider_name Provider.local = "local"
provider_name Provider.firecrawl = "firecrawl"
provider_name Provider.brightdata = "brightdata"
provider_name Provider.browserbase = "browserbase"

-- types.ClaimedTask
pub record ClaimedTask : Type 0 where
  pub id : ℕ
  pub job_id : ℕ
  pub url : String
  pub normalized_url : String
  pub origin_key : String
  pub depth : ℕ
  pub attempt : ℕ
  pub lease_token : ℕ
  pub deadline_at : ℕ
  pub config : CrawlConfig
  pub byte_allowance : ℕ
  pub artifact_allowance : ℕ
  pub required_capabilities : List String
