-- ===== src/Routing/Tests.antt =====
-- Runs of internal/routing/model_router.go on a small configuration.
use enchanted_proxy.Routing.Described.{described_route}
use enchanted_proxy.Routing.Configured.{validated_route}
use enchanted_proxy.Routing.Validate.{
  duplicate_model, unknown_of, check_models, provider_names, validate,
}
use enchanted_proxy.Routing.Requests.{route_wildcard_writes, rebuilt_route_model}
use enchanted_proxy.Routing.RoundRobin.{round_robin_fair, after_calls}
use enchanted_proxy.Routing.Choice.{answer, for_platform}
use enchanted_proxy.Routing.Build.{
  index_providers, make_endpoint, build_endpoint, build_endpoints, make_route, add_aliases,
  add_model, add_models, is_empty, build_tables, rebuild_routes,
}
use enchanted_proxy.Routing.Table.{rebuild_routes-IsTable, IsTable}
use enchanted_proxy.Routing.Select.{
  count_up, active_at, with_key, endpoint_at, get_model_endpoint_provider, place_of, Place,
  get_open_router_api_key,
}
use enchanted_proxy.Routing.Route.{rename, routed, wildcard, route_model, route_wildcard}
use enchanted_proxy.Routing.Types.{normalize, is_open_router, ModelRoute, ModelEndpoint}
use enchanted_proxy.Prelude.{
  ◌%◌, ◌+◌, if◌then◌else◌, insert, get_elem?, ◌<◌, ℕ, false, [], ◌∷◌, ◌≡◌, refl, none, some, codes,
  lookup, text_key, arith,
}
use enchanted_proxy.Routing.Sample.{
  configured, empty_router, glm_route, any_endpoint, any_route, built, glm_model, far_model,
}

-- The endpoint without a key is left out, and the ones without a fallback policy wait.
rebuild_routes-configured : rebuild_routes empty_router (some configured) ≡ built
unfolding rebuild_routes build_tables add_models add_model add_aliases make_route build_endpoints
    build_endpoint make_endpoint index_providers
rebuild_routes-configured = refl

key_present : is_empty (get_open_router_api_key built (codes "web")) ≡ false
unfolding get_open_router_api_key
key_present = refl

key_after :
    is_empty (get_open_router_api_key (rebuild_routes empty_router (some configured)) (codes "web"))
    ≡ false
unfolding get_open_router_api_key rebuild_routes build_tables
key_after = refl

alias_after :
    lookup (normalize (codes " GLM 5")) (rebuild_routes empty_router (some configured)).aliases
    ≡ some (codes "glm")
unfolding rebuild_routes build_tables add_models add_model add_aliases make_route build_endpoints
    build_endpoint make_endpoint index_providers
alias_after = refl

rebuild_routes-IsTable_example :
    IsTable
      (rebuild_routes empty_router (some configured)).aliases
      (rebuild_routes empty_router (some configured)).routes
rebuild_routes-IsTable_example = rebuild_routes-IsTable empty_router configured

rebuilt_route_model_example :
    let mr' = rebuild_routes empty_router (some configured) in
    (r : ModelRoute) × (i : ℕ) × (x : ModelEndpoint) × (lookup (codes "glm") mr'.routes ≡ some r)
    × (get_elem? r.active_endpoints i ≡ some x)
    × ((route_model [] mr' (codes " GLM 5") (codes "web")).1
        ≡ routed (for_platform (get_open_router_api_key mr' (codes "web")) x.provider))
rebuilt_route_model_example =
    rebuilt_route_model [] empty_router configured b' ' (codes "GLM 5") (codes "web") (codes "glm")
      alias_after key_after

round_robin_fair_example :
    (k : ℕ) × (x : ModelEndpoint) × (k < 1)
    × ((glm_route.round_robin_counter + k) % 1 ≡ 0)
    × (get_elem? glm_route.active_endpoints 0 ≡ some x)
    × ((get_model_endpoint_provider
          (after_calls k built (codes "glm") (codes "web"))
          (codes "glm")
          (codes "web")).1
        ≡ answer (get_open_router_api_key built (codes "web")) x (active_at 0))
round_robin_fair_example =
    round_robin_fair built (codes "glm") (codes "web") glm_route 0 refl (omega arith) (omega arith)

route_wildcard_writes_example :
    (p : Place) × (x : ModelEndpoint) × (after : ModelRoute) × (place_of any_route ≡ some p)
    × (endpoint_at any_route p ≡ some x)
    × (lookup wildcard (route_wildcard built (codes "gpt") (codes "web")).0.routes ≡ some after)
    × (endpoint_at after p
        ≡ some (if is_open_router x.provider.name then x else rename (codes "gpt") x))
route_wildcard_writes_example =
    route_wildcard_writes built (codes "gpt") (codes "web") any_route refl (λ z. cc) key_present

-- The same request is sent on to another client's model name by the table.
wildcard_leaks :
    (route_wildcard built (codes "gpt") (codes "web")).0.routes
    ≡ insert wildcard
        (record (count_up any_route) { active_endpoints = rename (codes "gpt") any_endpoint ∷ [] })
        built.routes
unfolding route_wildcard get_model_endpoint_provider place_of with_key
wildcard_leaks = refl

validate-twice :
    validate
      (record { providers = configured.providers; models = glm_model ∷ far_model ∷ glm_model ∷ [] })
    ≡ some (duplicate_model (codes "glm"))
unfolding validate provider_names check_models unknown_of
validate-twice = refl

validate-passes :
    validate (record { providers = configured.providers; models = far_model ∷ glm_model ∷ [] })
    ≡ none
unfolding validate provider_names check_models unknown_of
validate-passes = refl

validated_route_example :
    lookup
      (codes "glm")
      (rebuild_routes empty_router (
        some (record {
          providers = configured.providers;
          models = far_model ∷ glm_model ∷ [];
        }))).routes
    ≡ described_route configured.providers glm_model
validated_route_example =
    validated_route empty_router configured.providers (far_model ∷ []) [] glm_model validate-passes
