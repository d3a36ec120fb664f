-- ===== src/Acquisition/Registry.antt =====
-- app/acquisition/registry.py: which providers and routes may be used. What an adapter says of
-- itself (`available`, `route_available`) is a field of its record.
use crawltrove.Base.{
  Bool, true, false, ◌&&◌, Option, none, some, List, [], ◌∷◌, ◌++◌, if◌then◌else◌, map,
  select_where, find_where, exists_where, update_where,
}

pub data Provider : Type 0 where
  local : Provider
  brightdata : Provider
  firecrawl : Provider
  browserbase : Provider

pub data Route : Type 0 where
  local_http : Route
  owned_proxy_http : Route
  local_browser : Route
  brightdata_unlocker : Route
  firecrawl_scrape : Route
  firecrawl_interact : Route
  browserbase_session : Route

pub data HealthState : Type 0 where
  configured : HealthState
  disabled : HealthState
  degraded : HealthState
  unhealthy : HealthState

abbrev pub same_provider : Provider → Provider → Bool
same_provider local local = true
same_provider brightdata brightdata = true
same_provider firecrawl firecrawl = true
same_provider browserbase browserbase = true
same_provider _ _ = false

abbrev pub same_route : Route → Route → Bool
same_route local_http local_http = true
same_route owned_proxy_http owned_proxy_http = true
same_route local_browser local_browser = true
same_route brightdata_unlocker brightdata_unlocker = true
same_route firecrawl_scrape firecrawl_scrape = true
same_route firecrawl_interact firecrawl_interact = true
same_route browserbase_session browserbase_session = true
same_route _ _ = false

abbrev pub is_configured : HealthState → Bool
is_configured configured = true
is_configured _ = false

-- `ROUTE_PROVIDER`
abbrev pub route_provider : Route → Provider
route_provider local_http = local
route_provider owned_proxy_http = local
route_provider local_browser = local
route_provider brightdata_unlocker = brightdata
route_provider firecrawl_scrape = firecrawl
route_provider firecrawl_interact = firecrawl
route_provider browserbase_session = browserbase

-- `PROVIDER_ROUTES`
abbrev pub provider_routes : Provider → List Route
provider_routes local = local_http ∷ owned_proxy_http ∷ local_browser ∷ []
provider_routes brightdata = brightdata_unlocker ∷ []
provider_routes firecrawl = firecrawl_scrape ∷ firecrawl_interact ∷ []
provider_routes browserbase = browserbase_session ∷ []

abbrev pub providers : List Provider
providers = local ∷ brightdata ∷ firecrawl ∷ browserbase ∷ []

pub record Adapter : Type 0 where
  pub name : Provider
  pub available : Bool
  pub has_route : Route → Bool

-- The health of a provider.
pub record Health : Type 0 where
  pub provider : Provider
  pub state : HealthState

pub record Registry : Type 0 where
  pub adapters : List Adapter
  pub allowed_routes : Option (List Route)
  pub health : List Health

abbrev pub first_health : Adapter → Health
first_health a = record { provider = a.name; state = if a.available then configured else disabled }

-- `ProviderRegistry(adapters, allowed_routes)`
unfoldable pub new_registry : List Adapter → Option (List Route) → Registry
new_registry adapters allowed = record {
  adapters = adapters;
  allowed_routes = allowed;
  health = map first_health adapters;
}

abbrev pub adapter_of : Registry → Provider → Option Adapter
adapter_of r p = find_where (λ (a : Adapter). same_provider a.name p) r.adapters

-- `_require_known`: the provider has an adapter.
abbrev pub is_known : Registry → Provider → Bool
is_known r p = exists_where (λ (a : Adapter). same_provider a.name p) r.adapters

unfoldable pub set_health : HealthState → Health → Health
set_health s h = record h { state = s }

-- `disable`, `degrade` and `unhealthy`; `none` is ProviderUnavailable
unfoldable pub mark_health : HealthState → Registry → Provider → Option Registry
unfolding set_health
mark_health s r p =
    if is_known r p
    then some (record r {
      health = update_where (λ h. same_provider h.provider p) (set_health s) r.health;
    })
    else none

-- `self._health.get(provider) == ProviderHealth("configured")`
unfoldable pub is_healthy : Registry → Provider → Bool
is_healthy r p = exists_where (λ h. same_provider h.provider p && is_configured h.state) r.health

abbrev pub is_allowed : Option (List Route) → Route → Bool
is_allowed none route = true
is_allowed (some routes) route = exists_where (λ x. same_route x route) routes

abbrev pub serves : Option Adapter → Route → Bool
serves none route = false
serves (some a) route = a.available && a.has_route route

-- `route_available`
unfoldable pub route_available : Registry → Route → Bool
unfolding is_healthy
route_available r route =
    is_allowed r.allowed_routes route
    && is_healthy r (route_provider route)
    && serves (adapter_of r (route_provider route)) route

-- `available_routes` of one provider; `none` is ProviderUnavailable
unfoldable pub available_routes : Registry → Provider → Option (List Route)
unfolding route_available
available_routes r p =
    if is_known r p && is_healthy r p
    then some (select_where (route_available r) (provider_routes p))
    else none

unfoldable pub join_routes : (Provider → List Route) → List Provider → List Route
join_routes f [] = []
join_routes f (p ∷ ps) = f p ++ join_routes f ps

-- `available_routes("auto")`
unfoldable pub all_available_routes : Registry → List Route
unfolding route_available join_routes
all_available_routes r =
    join_routes (λ p. select_where (route_available r) (provider_routes p)) providers
