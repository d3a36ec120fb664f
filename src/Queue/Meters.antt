-- ===== src/Queue/Meters.antt =====
-- ROUTE_NATIVE_METERS of app/acquisition/providers.py and `_native_cost` of
-- app/crawl/repository.py: what a managed route may report as its native usage.
pub mod Stored
use crawltrove.Base.{
  ℕ, String, Bool, true, false, Option, none, some, List, [], ◌∷◌, ◌&&◌, ◌||◌, not, ℤ, pos, negsuc,
  if◌then◌else◌, str_eq, ◌==◌,
}
use crawltrove.Queue.Rows.{Amount}
use crawltrove.Queue.Results.{Result, ok, err, protocol_error, ◌>>=◌, ◌>>◌, raise_if}

-- A reported value: an int or a float in the meter's smallest unit, or what the code rejects.
pub data Number : Type 0 where
  number : ℤ → Number
  not_finite : Number
  boolean : Bool → Number
  other : Number

pub record Reported : Type 0 where
  pub meter : String
  pub value : Number

pub record NativeMeters : Type 0 where
  pub provider : String
  pub expected : List String

abbrev pub local_meters : NativeMeters
local_meters = record { provider = "local"; expected = [] }

abbrev pub route_native_meters : String → Option NativeMeters
route_native_meters route =
    if str_eq route "local_http" || str_eq route "owned_proxy_http" || str_eq route "local_browser"
    then some local_meters
    else if str_eq route "brightdata_unlocker"
    then some (record { provider = "brightdata"; expected = "requests" ∷ [] })
    else if str_eq route "firecrawl_scrape" || str_eq route "firecrawl_interact"
    then some (record { provider = "firecrawl"; expected = "credits" ∷ [] })
    else if str_eq route "browserbase_session"
    then some (record { provider = "browserbase"; expected = "browserMinutes" ∷ "proxyBytes" ∷ [] })
    else none

unfoldable pub contains : String → List String → Bool
contains k [] = false
contains k (x ∷ xs) = str_eq x k || contains k xs

-- every element of the first list is in the second
unfoldable pub subset : List String → List String → Bool
unfolding contains
subset [] ys = true
subset (x ∷ xs) ys = contains x ys && subset xs ys

unfoldable pub meters_of : List Reported → List String
meters_of [] = []
meters_of (r ∷ rs) = r.meter ∷ meters_of rs

unfoldable pub value_of : Number → Result ℕ
value_of (number (pos n)) = ok n
value_of (number (negsuc n)) = err protocol_error
value_of not_finite = err protocol_error
value_of (boolean b) = err protocol_error
value_of other = err protocol_error

unfoldable pub normalized : List Reported → Result (List Amount)
unfolding value_of
normalized [] = ok []
normalized (r ∷ rs) = do
  v ← value_of r.value
  rest ← normalized rs
  ok (record { meter = r.meter; value = v } ∷ rest)

-- `cost[meter]`; the code looks up only meters that are there
unfoldable pub amount_of : String → List Amount → ℕ
amount_of m [] = 0
amount_of m (a ∷ rest) = let later = amount_of m rest in if str_eq a.meter m then a.value else later

unfoldable pub checked : String → NativeMeters → List Reported → Result (String × List Amount)
unfolding subset meters_of normalized amount_of
checked route entry values = do
  raise_if
      (not (subset (meters_of values) entry.expected && subset entry.expected (meters_of values)))
      protocol_error
  costs ← normalized values
  raise_if (str_eq route "browserbase_session" && not (amount_of "proxyBytes" costs == 0))
      protocol_error
  ok (entry.provider, costs)

-- `_native_cost(route, values)`: the provider and the normalized costs
unfoldable pub native_cost : String → List Reported → Result (String × List Amount)
unfolding checked
native_cost route values = elim (route_native_meters route) [
  | none ↦ err protocol_error
  | some entry ↦ checked route entry values
]

-- A normalized cost as a report: what `_loads` makes of the stored JSON object, where every number is
-- finite and none is a boolean.
unfoldable pub reported : List Amount → List Reported
reported [] = []
reported (a ∷ rest) = record { meter = a.meter; value = number (pos a.value) } ∷ reported rest
