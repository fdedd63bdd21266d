-- ===== src/Routing/Route.antt =====
-- `ModelRouter.RouteModel` and `ResolveAlias` of internal/routing/model_router.go.
use enchanted_proxy.Prelude.{
  ℕ, zero, suc, List, [], ◌∷◌, Option, none, some, Text, codes, text_eq, if◌then◌else◌, lookup,
  insert, text_key, has_prefix,
}
use enchanted_proxy.Routing.Types.{
  ProviderConfig, ModelEndpoint, ModelRoute, ModelRouter, normalize,
}
use enchanted_proxy.Routing.Select.{
  Place, active_at, inactive_at, Selected, get_model_endpoint_provider,
}

abbrev pub wildcard : Text
wildcard = codes "*"

unfoldable pub resolve_alias : ModelRouter → Text → Text
resolve_alias mr [] = []
resolve_alias mr (c ∷ s) = elim (lookup (normalize (c ∷ s)) mr.aliases) [
  | none ↦ c ∷ s
  | some canonical ↦ canonical
]

pub data RouteResult : Type 0 where
  routed : ProviderConfig → RouteResult
  model_required : RouteResult
  no_provider : RouteResult

-- `provider.Model = modelID`, through the pointer that the table holds.
abbrev pub rename : Text → ModelEndpoint → ModelEndpoint
rename m e = let p = e.provider in record e { provider = record p { model = m } }

abbrev pub rename_nth : Text → List ModelEndpoint → ℕ → List ModelEndpoint
rename_nth m [] i = []
rename_nth m (e ∷ es) zero = rename m e ∷ es
rename_nth m (e ∷ es) (suc i) = e ∷ rename_nth m es i

abbrev pub rename_at : Text → ModelRoute → Place → ModelRoute
rename_at m r (active_at i) = record r { active_endpoints = rename_nth m r.active_endpoints i }
rename_at m r (inactive_at i) = record r {
  inactive_endpoints = rename_nth m r.inactive_endpoints i;
}

abbrev pub write_model : Text → Text → Place → ModelRouter → ModelRouter
write_model model m place mr = elim (lookup model mr.routes) [
  | none ↦ mr
  | some r ↦ record mr { routes = insert model (rename_at m r place) mr.routes }
]

abbrev pub finish_wildcard : Text → ModelRouter × Option Selected → ModelRouter × RouteResult
finish_wildcard model_id (mr, none) = (mr, no_provider)
finish_wildcard model_id (mr, some s) =
    let p = s.provider in
    (
      (if s.copied then mr else write_model wildcard model_id s.place mr),
      routed (record p { model = model_id }),
    )

unfoldable pub route_wildcard : ModelRouter → Text → Text → ModelRouter × RouteResult
route_wildcard mr model_id platform =
    finish_wildcard model_id (get_model_endpoint_provider mr wildcard platform)

-- The provider that was found, or else the rest of the search, on the router as it is by then.
abbrev pub or_search {ℓ} :
    {A : Type ℓ}
    → (ProviderConfig → A)
    → (ModelRouter → ModelRouter × A)
    → ModelRouter × Option Selected
    → ModelRouter × A
or_search found search_on (mr, none) = search_on mr
or_search found search_on (mr, some s) = (mr, found s.provider)

-- The loop over the aliases; `order` is the order in which Go iterates over the map this time.
unfoldable pub route_prefix :
    List (Text × Text) → ModelRouter → Text → Text → ModelRouter × Option ProviderConfig
route_prefix [] mr normalized platform = (mr, none)
route_prefix ((prefix, canonical) ∷ order) mr normalized platform =
    if text_eq prefix wildcard
    then route_prefix order mr normalized platform
    else if has_prefix normalized prefix
    then or_search some (λ mr'. route_prefix order mr' normalized platform)
        (get_model_endpoint_provider mr canonical platform)
    else route_prefix order mr normalized platform

abbrev pub or_wildcard :
    Text → Text → ModelRouter × Option ProviderConfig → ModelRouter × RouteResult
or_wildcard model_id platform (mr, none) = route_wildcard mr model_id platform
or_wildcard model_id platform (mr, some p) = (mr, routed p)

unfoldable pub route_inexact :
    List (Text × Text) → Text → Text → ModelRouter → ModelRouter × RouteResult
unfolding route_prefix route_wildcard
route_inexact order model_id platform mr =
    or_wildcard model_id platform (route_prefix order mr (normalize model_id) platform)

unfoldable pub route_model :
    List (Text × Text) → ModelRouter → Text → Text → ModelRouter × RouteResult
unfolding route_inexact
route_model order mr [] platform = (mr, model_required)
route_model order mr (c ∷ s) platform = elim (lookup (normalize (c ∷ s)) mr.aliases) [
  | none ↦ route_inexact order (c ∷ s) platform mr
  | some canonical ↦
      or_search routed (route_inexact order (c ∷ s) platform)
        (get_model_endpoint_provider mr canonical platform)
]
