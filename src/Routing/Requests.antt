-- ===== src/Routing/Requests.antt =====
-- The routing of a request (`RouteModel`, internal/routing/model_router.go).
use mathlib.Core.Option.{some-injective}
use enchanted_proxy.Prelude.{
  ℕ, zero, suc, Bool, true, false, List, [], ◌∷◌, ◌++◌, ◌≡◌, ◌≢◌, refl, sym, ap, ◌∙◌, Option, some,
  Text, text_eq, if◌then◌else◌, text_key, lookup, insert, lookup-insert_self, has_prefix, get_elem?,
}
use enchanted_proxy.Routing.Types.{
  ModelEndpoint, ModelRoute, ModelRouter, ModelRouterConfig, is_open_router, normalize,
}
use enchanted_proxy.Routing.Build.{is_empty, rebuild_routes}
use enchanted_proxy.Routing.Table.{rebuild_routes-IsTable}
use enchanted_proxy.Routing.Select.{
  Place, active_at, inactive_at, place_of, endpoint_at, Selected, count_up, select_at, counted,
  get_model_endpoint_provider, get_open_router_api_key,
}
use enchanted_proxy.Routing.Choice.{
  counted-active, for_platform, place_of-in, select_at-some, get_model_endpoint_provider-known,
}
use enchanted_proxy.Routing.Route.{
  route_inexact, finish_wildcard, write_model, or_search, wildcard, RouteResult, routed, rename,
  rename_nth, rename_at, route_wildcard, route_prefix, route_model,
}

append-ne-nil : (xs ys : List ModelEndpoint) → xs ≢ [] → xs ++ ys ≢ []
append-ne-nil [] ys h e = h refl
append-ne-nil (x ∷ xs) ys h e = cc

-- The choice of an endpoint, all at once.
get_model_endpoint_provider-served :
    (mr : ModelRouter) (model platform : Text) (r : ModelRoute)
    → lookup model mr.routes ≡ some r
    → r.active_endpoints ++ r.inactive_endpoints ≢ []
    → is_empty (get_open_router_api_key mr platform) ≡ false
    → (p : Place) × (x : ModelEndpoint) × (place_of r ≡ some p)
      × (endpoint_at r p ≡ some x)
      × (get_model_endpoint_provider mr model platform ≡ (
        record mr { routes = insert model (count_up r) mr.routes },
        some (record {
          provider = for_platform (get_open_router_api_key mr platform) x.provider;
          place = p;
          copied = is_open_router x.provider.name;
        }),
      ))
get_model_endpoint_provider-served mr model platform r e h k =
    let (p, x, q, a) =
      place_of-in r.active_endpoints r.inactive_endpoints r.round_robin_counter h in
    let key = get_open_router_api_key mr platform in
    (
      p,
      x,
      q,
      a,
      get_model_endpoint_provider-known mr model platform r e
          ∙ ap (λ (z : Option Place). outcome z) q
          ∙ ap (λ (z : Option Selected). next z) (select_at-some key r p x a k),
    )
  where
    outcome : Option Place → ModelRouter × Option Selected
    outcome z = (
      record mr { routes = insert model (counted r z) mr.routes },
      select_at (get_open_router_api_key mr platform) r z,
    )

    next : Option Selected → ModelRouter × Option Selected
    next z = (record mr { routes = insert model (count_up r) mr.routes }, z)

-- A model ID that is an alias, up to case and surrounding space, goes to the model of the alias,
-- whatever prefixes match it: the request is sent to an endpoint of that model's route, an active
-- one if there is any, and of the router only the counter of that route changes.
pub route_model_alias :
    (order : List (Text × Text)) (mr : ModelRouter) (c : ℕ) (id platform canonical : Text)
    (r : ModelRoute)
    → lookup (normalize (c ∷ id)) mr.aliases ≡ some canonical
    → lookup canonical mr.routes ≡ some r
    → r.active_endpoints ++ r.inactive_endpoints ≢ []
    → is_empty (get_open_router_api_key mr platform) ≡ false
    → (p : Place) × (x : ModelEndpoint) × (place_of r ≡ some p)
      × (endpoint_at r p ≡ some x)
      × (route_model order mr (c ∷ id) platform ≡ (
        record mr { routes = insert canonical (count_up r) mr.routes },
        routed (for_platform (get_open_router_api_key mr platform) x.provider),
      ))
unfolding route_model
route_model_alias order mr c id platform canonical r a e h k =
    let (p, x, q, b, g) = get_model_endpoint_provider-served mr canonical platform r e h k in
    (
      p,
      x,
      q,
      b,
      rw (a, route_model) (ap (or_search routed (route_inexact order (c ∷ id) platform)) g),
    )

-- With a table built from any configuration, and an OpenRouter key, every alias of the table can be
-- routed: the request goes to an active endpoint of the model that the alias leads to.
pub rebuilt_route_model :
    (order : List (Text × Text)) (mr : ModelRouter) (cfg : ModelRouterConfig) (c : ℕ)
    (id platform canonical : Text)
    → lookup (normalize (c ∷ id)) (rebuild_routes mr (some cfg)).aliases ≡ some canonical
    → is_empty (get_open_router_api_key (rebuild_routes mr (some cfg)) platform) ≡ false
    → let mr' = rebuild_routes mr (some cfg) in
      (r : ModelRoute) × (i : ℕ) × (x : ModelEndpoint) × (lookup canonical mr'.routes ≡ some r)
      × (get_elem? r.active_endpoints i ≡ some x)
      × ((route_model order mr' (c ∷ id) platform).1
          ≡ routed (for_platform (get_open_router_api_key mr' platform) x.provider))
rebuilt_route_model order mr cfg c id platform canonical a k =
    let mr' = rebuild_routes mr (some cfg) in
    let table = rebuild_routes-IsTable mr cfg in
    let (r, e) = table.targets _ canonical a in
    let s = table.sound canonical r e in
    let (p, x, q, b, g) =
      route_model_alias order mr' c id platform canonical r a e
        (append-ne-nil r.active_endpoints r.inactive_endpoints s.served) k in
    let chosen =
      counted-active r.active_endpoints r.inactive_endpoints r.round_robin_counter s.served in
    (
      r,
      _,
      x,
      e,
      ap (endpoint_at r) (some-injective _ _ (sym chosen.1 ∙ q)) ∙ b,
      ap (λ (z : ModelRouter × RouteResult). z.1) g,
    )

get_elem?-rename_nth :
    (m : Text) (es : List ModelEndpoint) (i : ℕ) (x : ModelEndpoint)
    → get_elem? es i ≡ some x
    → get_elem? (rename_nth m es i) i ≡ some (rename m x)
get_elem?-rename_nth m [] i x h = cc
get_elem?-rename_nth m (e ∷ es) zero x h = ap (λ z. some (rename m z)) (some-injective e x h)
get_elem?-rename_nth m (e ∷ es) (suc i) x h = get_elem?-rename_nth m es i x h

endpoint_at-rename_at :
    (m : Text) (r : ModelRoute) (p : Place) (x : ModelEndpoint)
    → endpoint_at r p ≡ some x
    → endpoint_at (rename_at m (count_up r) p) p ≡ some (rename m x)
endpoint_at-rename_at m r (active_at i) x h = get_elem?-rename_nth m r.active_endpoints i x h
endpoint_at-rename_at m r (inactive_at i) x h = get_elem?-rename_nth m r.inactive_endpoints i x h

-- The wildcard route sends any model name on, but for a provider other than OpenRouter the name is
-- written into the routing table itself: the endpoint that served one client's request keeps that
-- client's model name. OpenRouter's endpoints are copied first and stay as they are.
pub route_wildcard_writes :
    (mr : ModelRouter) (id platform : Text) (r : ModelRoute)
    → lookup wildcard mr.routes ≡ some r
    → r.active_endpoints ++ r.inactive_endpoints ≢ []
    → is_empty (get_open_router_api_key mr platform) ≡ false
    → (p : Place) × (x : ModelEndpoint) × (after : ModelRoute) × (place_of r ≡ some p)
      × (endpoint_at r p ≡ some x)
      × (lookup wildcard (route_wildcard mr id platform).0.routes ≡ some after)
      × (endpoint_at after p ≡ some (if is_open_router x.provider.name then x else rename id x))
unfolding route_wildcard
route_wildcard_writes mr id platform r e h k =
    let (p, x, q, b, g) = get_model_endpoint_provider-served mr wildcard platform r e h k in
    let copied = is_open_router x.provider.name in
    (
      p,
      x,
      (if copied then count_up r else rename_at id (count_up r) p),
      q,
      b,
      ap (λ (z : ModelRouter × Option Selected). lookup wildcard (finish_wildcard id z).0.routes) g
          ∙ written copied p,
      kept copied p x b,
    )
  where
    counted_up : ModelRouter
    counted_up = record mr { routes = insert wildcard (count_up r) mr.routes }

    written :
        (copied : Bool) (p : Place)
        → lookup wildcard
            (if copied then counted_up else write_model wildcard id p counted_up).routes
          ≡ some (if copied then count_up r else rename_at id (count_up r) p)
    written true p = lookup-insert_self wildcard (count_up r) mr.routes
    written false p =
        rw (lookup-insert_self wildcard (count_up r) mr.routes, write_model)
          (lookup-insert_self wildcard (rename_at id (count_up r) p) counted_up.routes)

    kept :
        (copied : Bool) (p : Place) (x : ModelEndpoint)
        → endpoint_at r p ≡ some x
        → endpoint_at (if copied then count_up r else rename_at id (count_up r) p) p
          ≡ some (if copied then x else rename id x)
    kept true (active_at i) x b = b
    kept true (inactive_at i) x b = b
    kept false p x b = endpoint_at-rename_at id r p x b

-- Of several aliases that are prefixes of a model ID, the one that Go's iteration over the map meets
-- first decides, and not the longest: the same request on the same table goes to the model of either
-- alias.
pub route_prefix_first :
    (prefix canonical : Text) (order : List (Text × Text)) (mr : ModelRouter)
    (normalized platform : Text) (r : ModelRoute)
    → text_eq prefix wildcard ≡ false
    → has_prefix normalized prefix ≡ true
    → lookup canonical mr.routes ≡ some r
    → r.active_endpoints ++ r.inactive_endpoints ≢ []
    → is_empty (get_open_router_api_key mr platform) ≡ false
    → (p : Place) × (x : ModelEndpoint) × (place_of r ≡ some p)
      × (endpoint_at r p ≡ some x)
      × (route_prefix ((prefix, canonical) ∷ order) mr normalized platform ≡ (
        record mr { routes = insert canonical (count_up r) mr.routes },
        some (for_platform (get_open_router_api_key mr platform) x.provider),
      ))
unfolding route_prefix
route_prefix_first prefix canonical order mr normalized platform r w m e h k =
    let (p, x, q, b, g) = get_model_endpoint_provider-served mr canonical platform r e h k in
    (
      p,
      x,
      q,
      b,
      rw (w, m) (ap (or_search some (λ mr'. route_prefix order mr' normalized platform)) g),
    )
