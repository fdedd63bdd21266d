-- ===== src/Routing/Select.antt =====
-- `ModelRouter.getModelEndpointProvider` and `GetOpenRouterAPIKey` of
-- internal/routing/model_router.go. The counter is a uint64.
use enchanted_proxy.Prelude.{
  ℕ, ◌+◌, ◌%◌, ◌^◌, Bool, true, false, List, [], ◌∷◌, Option, none, some, Text, codes,
  if◌then◌else◌, lookup, insert, text_key, length, get_elem?,
}
use enchanted_proxy.Routing.Types.{
  ProviderConfig, ModelEndpoint, ModelRoute, ModelRouter, open_router, is_open_router,
}
use enchanted_proxy.Routing.Build.{is_empty}

-- A read of a Go map: a missing key reads as the empty string.
abbrev pub read_key : Text → List (Text × Text) → Text
read_key k m = elim (lookup k m) [ none ↦ [] | some v ↦ v ]

-- The last resort of `GetOpenRouterAPIKey`: the order of the list is the order of the iteration.
abbrev pub any_key : List (Text × Text) → Text
any_key [] = []
any_key ((_, key) ∷ m) = if is_empty key then any_key m else key

unfoldable pub get_open_router_api_key : ModelRouter → Text → Text
get_open_router_api_key mr platform = elim (lookup open_router mr.api_keys) [
  | none ↦ []
  | some keys ↦
      if is_empty (read_key platform keys)
      then (if is_empty (read_key (codes "mobile") keys)
          then any_key keys
          else read_key (codes "mobile") keys)
      else read_key platform keys
]

-- Where an endpoint stands in its route.
pub data Place : Type 0 where
  active_at : ℕ → Place
  inactive_at : ℕ → Place

-- With no active endpoint the choice is among the inactive ones.
unfoldable pub place_of : ModelRoute → Option Place
place_of r = elim r.active_endpoints [
  | [] ↦ elim r.inactive_endpoints [
    | [] ↦ none
    | e ∷ es ↦ some (inactive_at (r.round_robin_counter % length (e ∷ es)))
  ]
  | e ∷ es ↦ some (active_at (r.round_robin_counter % length (e ∷ es)))
]

abbrev pub endpoint_at : ModelRoute → Place → Option ModelEndpoint
endpoint_at r (active_at i) = get_elem? r.active_endpoints i
endpoint_at r (inactive_at i) = get_elem? r.inactive_endpoints i

abbrev pub uint64 : ℕ
uint64 = 2 ^ 64

abbrev pub count_up : ModelRoute → ModelRoute
count_up r = record r { round_robin_counter = (r.round_robin_counter + 1) % uint64 }

-- The provider that is returned. It is the one of the table itself unless `copied`.
pub record Selected : Type 0 where
  pub provider : ProviderConfig
  pub place : Place
  pub copied : Bool

unfoldable pub with_key : Text → ProviderConfig → Place → Option Selected
with_key key p place =
    if is_open_router p.name
    then (if is_empty key
        then none
        else some (record { provider = record p { api_key = key }; place = place; copied = true }))
    else some (record { provider = p; place = place; copied = false })

abbrev pub select_at : Text → ModelRoute → Option Place → Option Selected
select_at key r none = none
select_at key r (some place) = elim (endpoint_at r place) [
  | none ↦ none
  | some e ↦ with_key key e.provider place
]

-- The counter moves whenever the route has an endpoint, also if the key is missing.
abbrev pub counted : ModelRoute → Option Place → ModelRoute
counted r none = r
counted r (some _) = count_up r

unfoldable pub get_model_endpoint_provider :
    ModelRouter → Text → Text → ModelRouter × Option Selected
unfolding get_open_router_api_key place_of with_key
get_model_endpoint_provider mr model platform = elim (lookup model mr.routes) [
  | none ↦ (mr, none)
  | some r ↦ (
    record mr { routes = insert model (counted r (place_of r)) mr.routes },
    select_at (get_open_router_api_key mr platform) r (place_of r),
  )
]
