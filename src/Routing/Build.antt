-- ===== src/Routing/Build.antt =====
-- `ModelRouter.RebuildRoutes` of internal/routing/model_router.go.
use enchanted_proxy.Prelude.{
  Bool, true, false, not, ◌&&◌, List, [], ◌∷◌, ◌++◌, Option, none, some, Text, if◌then◌else◌,
  lookup, insert, text_key, is_some,
}
use enchanted_proxy.Routing.Types.{
  ModelEndpoint, ModelRoute, Routes, is_primary, ModelProviderConfig, ModelEndpointProvider,
  ModelConfig, ModelRouterConfig, ModelRouter, is_open_router, normalize,
}

abbrev pub Providers : Type 0
Providers = List (Text × ModelProviderConfig)

-- The first entry of a name stays.
unfoldable pub index_providers : Providers → List ModelProviderConfig → Providers
index_providers m [] = m
index_providers m (p ∷ ps) =
    index_providers (if is_some (lookup p.name m) then m else insert p.name p m) ps

abbrev pub override : Text → Text → Text
override [] base = base
override (c ∷ s) base = c ∷ s

abbrev pub is_empty : Text → Bool
is_empty [] = true
is_empty (_ ∷ _) = false

unfoldable pub make_endpoint :
    ModelConfig → ModelEndpointProvider → ModelProviderConfig → ModelEndpoint
make_endpoint model e p = record {
  provider = record {
    base_url = override e.base_url p.base_url;
    api_key = p.api_key;
    name = p.name;
    model = override e.model model.name;
    api_type = e.api_type;
    token_multiplier = model.token_multiplier;
  };
  fallback = e.fallback;
}

-- A provider that is unknown, or has no API key, gives no endpoint.
unfoldable pub build_endpoint :
    Providers → ModelConfig → ModelEndpointProvider → Option ModelEndpoint
build_endpoint providers model e = elim (lookup e.name providers) [
  | none ↦ none
  | some p ↦
      if is_empty p.api_key && not (is_open_router p.name)
      then none
      else some (make_endpoint model e p)
]

pub record Split : Type 0 where
  pub active : List ModelEndpoint
  pub inactive : List ModelEndpoint

abbrev pub add_endpoint : Split → Option ModelEndpoint → Split
add_endpoint s none = s
add_endpoint s (some e) =
    if is_primary e
    then record s { active = s.active ++ e ∷ [] }
    else record s { inactive = s.inactive ++ e ∷ [] }

unfoldable pub build_endpoints :
    Providers → ModelConfig → Split → List ModelEndpointProvider → Split
build_endpoints providers model s [] = s
build_endpoints providers model s (e ∷ es) =
    build_endpoints providers model (add_endpoint s (build_endpoint providers model e)) es

-- With no primary endpoint all endpoints are active; with none at all there is no route.
unfoldable pub make_route : Split → Option ModelRoute
make_route s = elim s.active [
  | [] ↦ elim s.inactive [
    | [] ↦ none
    | e ∷ es ↦
        some
          (record { active_endpoints = e ∷ es; inactive_endpoints = []; round_robin_counter = 0 })
  ]
  | e ∷ es ↦ some (record {
    active_endpoints = e ∷ es;
    inactive_endpoints = s.inactive;
    round_robin_counter = 0;
  })
]

unfoldable pub add_aliases : Text → List Text → List (Text × Text) → List (Text × Text)
add_aliases model [] m = m
add_aliases model (a ∷ as') m = add_aliases model as' (insert (normalize a) model m)

pub record Tables : Type 0 where
  pub aliases : List (Text × Text)
  pub routes : Routes

-- The body of the loop over the models.
unfoldable pub add_model : Providers → Tables → ModelConfig → Tables
add_model providers t model =
    if is_some (lookup model.name t.routes)
    then t
    else elim (make_route
        (build_endpoints providers model (record { active = []; inactive = [] }) model.providers)) [
          | none ↦ t
          | some route ↦ record {
            aliases =
                add_aliases model.name model.aliases
                  (insert (normalize model.name) model.name t.aliases);
            routes = insert model.name route t.routes;
          }
        ]

unfoldable pub add_models : Providers → Tables → List ModelConfig → Tables
add_models providers t [] = t
add_models providers t (m ∷ ms) = add_models providers (add_model providers t m) ms

unfoldable pub build_tables : ModelRouterConfig → Tables
build_tables cfg =
    add_models (index_providers [] cfg.providers) (record { aliases = []; routes = [] }) cfg.models

unfoldable pub rebuild_routes : ModelRouter → Option ModelRouterConfig → ModelRouter
unfolding build_tables
rebuild_routes mr none = mr
rebuild_routes mr (some cfg) =
    let t = build_tables cfg in record mr { aliases = t.aliases; routes = t.routes }
