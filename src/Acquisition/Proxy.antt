-- ===== src/Acquisition/Proxy.antt =====
-- app/acquisition/proxy.py: the pool of proxy nodes. `urlsplit` and the text order of the database
-- are parameters, and so is the reading of an address by the ipaddress module.
pub mod Pool
use crawltrove.Base.{
  ℕ, ◌+◌, ◌*◌, ◌≡◌, String, Bool, true, false, not, ◌&&◌, ◌||◌, Option, none, some, List, [], ◌∷◌,
  ◌++◌, ◌==◌, ltb, leb, if◌then◌else◌, str_eq, str_append, codes, length, is_some, is_some_eq,
  is_empty, count_where, update_where, delete_where, select_where, find_where, exists_where, strip,
  same_codes,
}
use crawltrove.Queue.States.{is_leased}
use crawltrove.Queue.Rows.{Task, Attempt, Db}

pub data NodeState : Type 0 where
  active : NodeState
  cooldown : NodeState
  revoked : NodeState
  offline : NodeState

abbrev pub is_active : NodeState → Bool
is_active active = true
is_active _ = false

abbrev pub is_revoked : NodeState → Bool
is_revoked revoked = true
is_revoked _ = false

-- proxy_nodes; a credential of a configured node never expires
pub record ProxyNode : Type 0 where
  pub id : String
  pub endpoint : String
  pub regions : List String
  pub state : NodeState
  pub credential_expires_at : Option ℕ
  pub cooldown_until : Option ℕ
  pub last_connected_ip : Option String
  pub last_seen_at : Option ℕ
  pub failure_count : ℕ

-- proxy_leases
pub record ProxyRow : Type 0 where
  pub node_id : String
  pub task_id : ℕ
  pub origin_key : String
  pub lease_token : ℕ
  pub expires_at : ℕ

-- The proxy tables beside those of the queue, and the columns proxy_id and proxy_connected_ip of
-- acquisition_attempts by the attempt's id.
pub record ProxyStore : Type 0 where
  pub nodes : List ProxyNode
  pub leases : List ProxyRow
  pub proxy_id : ℕ → Option String
  pub connected_ip : ℕ → Option String

pub data ProxyError : Type 0 where
  value_error : ProxyError
  constraint_violation : ProxyError

abbrev pub node_named : String → ProxyNode → Bool
node_named id n = str_eq n.id id

abbrev pub is_alnum : ℕ → Bool
is_alnum c = leb b'0' c && leb c b'9' || leb b'A' c && leb c b'Z' || leb b'a' c && leb c b'z'

abbrev all_codes : (ℕ → Bool) → List ℕ → Bool
all_codes p s = not (exists_where (λ c. not (p c)) s)

abbrev label : (ℕ → Bool) → (ℕ → Bool) → ℕ → List ℕ → Bool
label first more n [] = false
label first more n (c ∷ s) = first c && all_codes more s && leb (length s) n

-- `_NODE_ID.fullmatch`
unfoldable pub is_node_id : String → Bool
is_node_id id = label is_alnum (λ c. is_alnum c || c == b'_' || c == b'-') 63 (codes id)

abbrev is_lower_alnum : ℕ → Bool
is_lower_alnum c = leb b'0' c && leb c b'9' || leb b'a' c && leb c b'z'

-- `_REGION.fullmatch`
unfoldable pub is_region : String → Bool
is_region r = label is_lower_alnum (λ c. is_lower_alnum c || c == b'-') 31 (codes r)

abbrev member : String → List String → Bool
member r = exists_where (λ s. str_eq s r)

unfoldable pub all_distinct : List String → Bool
all_distinct [] = true
all_distinct (r ∷ rs) = not (member r rs) && all_distinct rs

-- `_regions` accepts the regions.
unfoldable pub are_regions : List String → Bool
unfolding is_region all_distinct
are_regions rs = all_distinct rs && not (exists_where (λ r. not (is_region r)) rs)

-- What `urlsplit` gives; the port is `none` if it is missing or not a number below 65536.
pub record SplitUrl : Type 0 where
  pub scheme : String
  pub netloc : String
  pub path : String
  pub query : String
  pub fragment : String
  pub username : Option String
  pub password : Option String
  pub hostname : Option String
  pub port : Option ℕ

abbrev has_text : Option String → Bool
has_text none = false
has_text (some s) = not (str_eq s "")

abbrev is_port : Option ℕ → Bool
is_port none = false
is_port (some n) = leb 1 n && leb n 65535

-- `_endpoint`, on the split value; `none` is a ValueError
unfoldable pub checked_endpoint : Bool → SplitUrl → Option String
checked_endpoint configured parsed =
    if configured && not (str_eq parsed.scheme "https")
      || not configured && not (str_eq parsed.scheme "" || str_eq parsed.scheme "https")
      || not (has_text parsed.hostname)
      || has_text parsed.username
      || has_text parsed.password
      || not (str_eq parsed.query "")
      || not (str_eq parsed.fragment "")
      || not (is_port parsed.port)
      || not (str_eq parsed.path "" || str_eq parsed.path "/")
    then none
    else some (str_append "https://" parsed.netloc)

-- `urlsplit`, on the text as `_endpoint` completes it with slashes
pub record ProxyTools : Type 0 where
  pub urlsplit : String → SplitUrl
  -- `ORDER BY n.id`: whether a text stands before another in the database's order
  pub before : String → String → Bool
  -- `str(ipaddress.ip_address(address))`, if the address is global, unicast and specified
  pub public_address : String → Option String
  -- whether the secret files of a configured node can be read
  pub has_secrets : String → Bool

-- `_endpoint`
unfoldable pub endpoint_of : ProxyTools → Bool → String → Option String
unfolding checked_endpoint strip same_codes
endpoint_of tools configured value =
    if is_empty (codes value) || not (same_codes (strip (codes value)) (codes value))
    then none
    else checked_endpoint configured (tools.urlsplit value)

-- An entry of the operator's file, after `load_configured_proxies`.
pub record ConfiguredProxy : Type 0 where
  pub id : String
  pub endpoint : String
  pub region : Option String
