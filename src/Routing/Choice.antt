-- ===== src/Routing/Choice.antt =====
-- What one request for a model gets: the endpoint at the counter of its route
-- (`getModelEndpointProvider`, internal/routing/model_router.go).
use enchanted_proxy.Prelude.{
  ◌&&◌, none, ℕ, zero, suc, ◌%◌, ◌<◌, false, List, [], ◌∷◌, ◌++◌, ◌≡◌, ◌≢◌, refl, ap, ◌∙◌, Option,
  some, Text, if◌then◌else◌, arith, text_key, lookup, insert, lookup-insert_self, length, get_elem?,
}
use native.Mathlib.Nat.{mod-lt}
use enchanted_proxy.Routing.Types.{
  ProviderConfig, ModelEndpoint, ModelRoute, ModelRouter, is_open_router,
}
use enchanted_proxy.Routing.Build.{is_empty}
use enchanted_proxy.Routing.Select.{
  Place, active_at, inactive_at, place_of, endpoint_at, Selected, count_up, with_key, select_at,
  counted, get_model_endpoint_provider, get_open_router_api_key,
}

pub get_elem?-lt :
    (es : List ModelEndpoint) (i : ℕ)
    → i < length es
    → (e : ModelEndpoint) × (get_elem? es i ≡ some e)
get_elem?-lt [] i h = elim h [ ]
get_elem?-lt (x ∷ es) zero h = (x, refl)
get_elem?-lt (x ∷ es) (suc i) h = get_elem?-lt es i (omega arith)

-- The chosen place is in the route.
pub place_of-in :
    (active inactive : List ModelEndpoint) (c : ℕ)
    → let r : ModelRoute = record {
      active_endpoints = active;
      inactive_endpoints = inactive;
      round_robin_counter = c;
    } in
      active ++ inactive ≢ []
      → (p : Place) × (e : ModelEndpoint) × (place_of r ≡ some p) × (endpoint_at r p ≡ some e)
unfolding place_of
place_of-in [] [] c h = absurd (h refl)
place_of-in [] (x ∷ xs) c h =
    let (e, q) = get_elem?-lt (x ∷ xs) (c % length (x ∷ xs)) (mod-lt c (omega arith)) in
    (inactive_at (c % length (x ∷ xs)), e, refl, q)
place_of-in (x ∷ xs) ys c h =
    let (e, q) = get_elem?-lt (x ∷ xs) (c % length (x ∷ xs)) (mod-lt c (omega arith)) in
    (active_at (c % length (x ∷ xs)), e, refl, q)

module _ (mr : ModelRouter) (model platform : Text) (r : ModelRoute)
    (e : lookup model mr.routes ≡ some r) where
  pub get_model_endpoint_provider-known : get_model_endpoint_provider mr model platform ≡ (
    record mr { routes = insert model (counted r (place_of r)) mr.routes },
    select_at (get_open_router_api_key mr platform) r (place_of r),
  )
  unfolding get_model_endpoint_provider
  get_model_endpoint_provider-known = rw (e, get_model_endpoint_provider)

  pub lookup-get_model_endpoint_provider :
      lookup model (get_model_endpoint_provider mr model platform).0.routes
      ≡ some (counted r (place_of r))
  lookup-get_model_endpoint_provider =
      rw get_model_endpoint_provider-known
        (lookup-insert_self model (counted r (place_of r)) mr.routes)

pub counted-active :
    (active inactive : List ModelEndpoint) (c : ℕ)
    → active ≢ []
    → let r : ModelRoute = record {
      active_endpoints = active;
      inactive_endpoints = inactive;
      round_robin_counter = c;
    } in
      (counted r (place_of r) ≡ count_up r) × (place_of r ≡ some (active_at (c % length active)))
unfolding place_of
counted-active [] ys c h = absurd (h refl)
counted-active (x ∷ xs) ys c h = (refl, refl)

-- A copy of a provider with the given API key.
abbrev pub keyed : Text → ProviderConfig → ProviderConfig
keyed key p = record p { api_key = key }

-- The provider that a request gets: OpenRouter's with the key of the platform, any other as it is.
abbrev pub for_platform : Text → ProviderConfig → ProviderConfig
for_platform key p = if is_open_router p.name then keyed key p else p

-- What a request gets that is sent to an endpoint: OpenRouter's needs a key.
abbrev pub answer : Text → ModelEndpoint → Place → Option Selected
answer key x place =
    if is_open_router x.provider.name && is_empty key
    then none
    else some (record {
      provider = for_platform key x.provider;
      place = place;
      copied = is_open_router x.provider.name;
    })

pub select_at-answer :
    (key : Text) (r : ModelRoute) (p : Place) (x : ModelEndpoint)
    → endpoint_at r p ≡ some x
    → select_at key r (some p) ≡ answer key x p
unfolding with_key
select_at-answer key r p x a = rw (a, select_at) (ground arith)

pub select_at-some :
    (key : Text) (r : ModelRoute) (p : Place) (x : ModelEndpoint)
    → endpoint_at r p ≡ some x
    → is_empty key ≡ false
    → select_at key r (some p)
      ≡ some (record {
        provider = for_platform key x.provider;
        place = p;
        copied = is_open_router x.provider.name;
      })
unfolding with_key
select_at-some key r p x a k = rw (a, select_at) (ground arith)

-- If an OpenRouter key is configured, a model whose route has an endpoint, active or not, is
-- served: the provider returned is that of an endpoint of the route, an active one if there is any,
-- and OpenRouter's carries the key of the platform.
pub select_total :
    (mr : ModelRouter) (model platform : Text) (r : ModelRoute)
    → lookup model mr.routes ≡ some r
    → r.active_endpoints ++ r.inactive_endpoints ≢ []
    → is_empty (get_open_router_api_key mr platform) ≡ false
    → (s : Selected) × (x : ModelEndpoint) × ((get_model_endpoint_provider mr model platform).1
        ≡ some s)
      × (place_of r ≡ some s.place)
      × (endpoint_at r s.place ≡ some x)
      × (s.provider ≡ for_platform (get_open_router_api_key mr platform) x.provider)
select_total mr model platform r e h k =
    let (p, x, q, a) =
      place_of-in r.active_endpoints r.inactive_endpoints r.round_robin_counter h in
    let key = get_open_router_api_key mr platform in
    (
      record {
        provider = for_platform key x.provider;
        place = p;
        copied = is_open_router x.provider.name;
      },
      x,
      ap (λ (z : ModelRouter × Option Selected). z.1)
            (get_model_endpoint_provider-known mr model platform r e)
          ∙ ap (select_at key r) q
          ∙ select_at-some key r p x a k,
      q,
      a,
      refl,
    )
