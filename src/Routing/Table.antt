-- ===== src/Routing/Table.antt =====
-- What `RebuildRoutes` (internal/routing/model_router.go) builds.
use mathlib.Core.Option.{some-injective}
use enchanted_proxy.Prelude.{
  subst, lookup-insert_self, Bool, true, false, not, ◌&&◌, List, [], ◌∷◌, ◌≡◌, ◌≢◌, refl, ◌⊎◌, inl,
  inr, Option, none, some, Text, text_eq, arith, Bool-cases, text_key, All, All-append, is_some,
  lookup, insert, lookup-insert, Option-cases,
}
use enchanted_proxy.Routing.Types.{
  ModelEndpoint, ModelRoute, Routes, is_primary, ModelEndpointProvider, ModelConfig,
  ModelRouterConfig, ModelRouter, is_open_router, normalize,
}
use enchanted_proxy.Routing.Build.{
  Providers, is_empty, make_endpoint, build_endpoint, Split, add_endpoint, build_endpoints,
  make_route, add_aliases, Tables, add_model, add_models, index_providers, rebuild_routes,
}

-- An endpoint can be called: it has an API key, or its key depends on the platform.
abbrev pub is_usable : ModelEndpoint → Bool
is_usable e = not (is_empty e.provider.api_key && not (is_open_router e.provider.name))

-- A route as it is built: some endpoint is active, every endpoint can be called, an inactive
-- endpoint is a fallback one beside active primary ones, and the counter is new.
pub record IsSound (r : ModelRoute) : Type 0 where
  pub served : r.active_endpoints ≢ []
  pub usable_active : All (λ e. is_usable e ≡ true) r.active_endpoints
  pub usable_inactive : All (λ e. is_usable e ≡ true) r.inactive_endpoints
  pub waiting : All (λ e. is_primary e ≡ false) r.inactive_endpoints
  pub primary : (r.inactive_endpoints ≡ []) ⊎ All (λ e. is_primary e ≡ true) r.active_endpoints
  pub fresh : r.round_robin_counter ≡ 0

record IsSplit (s : Split) : Type 0 where
  usable_active : All (λ e. is_usable e ≡ true) s.active
  usable_inactive : All (λ e. is_usable e ≡ true) s.inactive
  waiting : All (λ e. is_primary e ≡ false) s.inactive
  primary : All (λ e. is_primary e ≡ true) s.active

build_endpoint-is_usable :
    (ps : Providers) (m : ModelConfig) (e : ModelEndpointProvider) (x : ModelEndpoint)
    → build_endpoint ps m e ≡ some x
    → is_usable x ≡ true
unfolding build_endpoint make_endpoint
build_endpoint-is_usable ps m e x h = ground arith

add_endpoint-IsSplit :
    (s : Split) (o : Option ModelEndpoint)
    → ((x : ModelEndpoint) → o ≡ some x → is_usable x ≡ true)
    → IsSplit s
    → IsSplit (add_endpoint s o)
add_endpoint-IsSplit s none u h = h
add_endpoint-IsSplit s (some e) u h = elim (Bool-cases (is_primary e)) [
  | inl p ↦ rw p (record {
    usable_active = All-append _ s.active (e ∷ []) h.usable_active (u e refl, tt);
    usable_inactive = h.usable_inactive;
    waiting = h.waiting;
    primary = All-append _ s.active (e ∷ []) h.primary (p, tt);
  })
  | inr p ↦ rw p (record {
    usable_active = h.usable_active;
    usable_inactive = All-append _ s.inactive (e ∷ []) h.usable_inactive (u e refl, tt);
    waiting = All-append _ s.inactive (e ∷ []) h.waiting (p, tt);
    primary = h.primary;
  })
]

build_endpoints-IsSplit :
    (ps : Providers) (m : ModelConfig) (es : List ModelEndpointProvider) (s : Split)
    → IsSplit s
    → IsSplit (build_endpoints ps m s es)
unfolding build_endpoints
build_endpoints-IsSplit ps m [] s h = h
build_endpoints-IsSplit ps m (e ∷ es) s h =
    build_endpoints-IsSplit ps m es _ (add_endpoint-IsSplit s _ (build_endpoint-is_usable ps m e) h)

make_route-IsSound :
    (active inactive : List ModelEndpoint) (r : ModelRoute)
    → IsSplit (record { active = active; inactive = inactive })
    → make_route (record { active = active; inactive = inactive }) ≡ some r
    → IsSound r
unfolding make_route
make_route-IsSound [] [] r h e = cc
make_route-IsSound [] (x ∷ xs) r h e = subst IsSound (some-injective _ _ e) (record {
  served = λ z. cc;
  usable_active = h.usable_inactive;
  usable_inactive = tt;
  waiting = tt;
  primary = inl refl;
  fresh = refl;
})
make_route-IsSound (x ∷ xs) ys r h e = subst IsSound (some-injective _ _ e) (record {
  served = λ z. cc;
  usable_active = h.usable_active;
  usable_inactive = h.usable_inactive;
  waiting = h.waiting;
  primary = inr h.primary;
  fresh = refl;
})

-- A table: every route is sound, and every alias leads to a route.
pub record IsTable (aliases : List (Text × Text)) (routes : Routes) : Type 0 where
  pub sound : (m : Text) (r : ModelRoute) → lookup m routes ≡ some r → IsSound r
  pub targets :
      (a m : Text) → lookup a aliases ≡ some m → (r : ModelRoute) × (lookup m routes ≡ some r)

insert-IsSound :
    (k m : Text) (v r : ModelRoute) (routes : Routes)
    → IsSound v
    → ((m : Text) (r : ModelRoute) → lookup m routes ≡ some r → IsSound r)
    → lookup m (insert k v routes) ≡ some r
    → IsSound r
insert-IsSound k m v r routes hv h e = elim (Bool-cases (text_eq k m)) [
  | inl same ↦ subst IsSound (some-injective v r (ground (arith, lookup-insert k m v routes))) hv
  | inr other ↦ h m r (ground (arith, lookup-insert k m v routes))
]

-- An alias that is added leads to the model; the others lead where they led.
insert-targets :
    (k model : Text) (routes : Routes) (aliases : List (Text × Text)) (v : ModelRoute)
    → lookup model routes ≡ some v
    → ((a m : Text) → lookup a aliases ≡ some m → (r : ModelRoute) × (lookup m routes ≡ some r))
    → (a m : Text) → lookup a (insert k model aliases) ≡ some m
    → (r : ModelRoute) × (lookup m routes ≡ some r)
insert-targets k model routes aliases v e h a m q = elim (Bool-cases (text_eq k a)) [
  | inl same ↦ (v, ground (arith, lookup-insert k a model aliases))
  | inr other ↦ h a m (ground (arith, lookup-insert k a model aliases))
]

add_aliases-targets :
    (model : Text) (as' : List Text) (aliases : List (Text × Text)) (routes : Routes)
    (v : ModelRoute)
    → lookup model routes ≡ some v
    → ((a m : Text) → lookup a aliases ≡ some m → (r : ModelRoute) × (lookup m routes ≡ some r))
    → (a m : Text) → lookup a (add_aliases model as' aliases) ≡ some m
    → (r : ModelRoute) × (lookup m routes ≡ some r)
unfolding add_aliases
add_aliases-targets model [] aliases routes v e h = h
add_aliases-targets model (a ∷ as') aliases routes v e h =
    add_aliases-targets model as' (insert (normalize a) model aliases) routes v e
      (insert-targets (normalize a) model routes aliases v e h)

-- A new route hides none that was there.
insert-kept :
    (k : Text) (v : ModelRoute) (routes : Routes) (m : Text) (r : ModelRoute)
    → lookup m routes ≡ some r
    → (r' : ModelRoute) × (lookup m (insert k v routes) ≡ some r')
insert-kept k v routes m r e = elim (Bool-cases (text_eq k m)) [
  | inl same ↦ (v, ground (arith, lookup-insert k m v routes))
  | inr other ↦ (r, ground (arith, lookup-insert k m v routes))
]

add_model-IsTable :
    (ps : Providers) (t : Tables) (m : ModelConfig)
    → IsTable t.aliases t.routes
    → IsTable (add_model ps t m).aliases (add_model ps t m).routes
unfolding add_model
add_model-IsTable ps t m h = elim (Bool-cases (is_some (lookup m.name t.routes))) [
  | inl known ↦ rw (known, add_model) h
  | inr unknown ↦ elim (Option-cases (make_route split)) [
    | inl e ↦ rw (unknown, add_model) (rw (e, add_model) h)
    | inr (r, e) ↦
        rw (unknown, add_model)
          (rw (e, add_model)
            (record {
              sound = λ k s q. insert-IsSound m.name k r s t.routes (sound r e) h.sound q;
              targets =
                  add_aliases-targets m.name m.aliases _ _ r (lookup-insert_self m.name r t.routes)
                    (insert-targets (normalize m.name) m.name _ t.aliases r
                      (lookup-insert_self m.name r t.routes)
                      (λ a k q.
                        let (r', e') = h.targets a k q in insert-kept m.name r t.routes k r' e'));
            }))
  ]
]
  where
    split : Split
    split = build_endpoints ps m (record { active = []; inactive = [] }) m.providers

    sound : (r : ModelRoute) → make_route split ≡ some r → IsSound r
    sound r e =
        make_route-IsSound split.active split.inactive r
          (build_endpoints-IsSplit ps m m.providers (record { active = []; inactive = [] })
            (record { usable_active = tt; usable_inactive = tt; waiting = tt; primary = tt }))
          e

add_models-IsTable :
    (ps : Providers) (ms : List ModelConfig) (t : Tables)
    → IsTable t.aliases t.routes
    → IsTable (add_models ps t ms).aliases (add_models ps t ms).routes
unfolding add_models
add_models-IsTable ps [] t h = h
add_models-IsTable ps (m ∷ ms) t h =
    add_models-IsTable ps ms (add_model ps t m) (add_model-IsTable ps t m h)

-- Whatever the configuration, the table that it gives is one whose routes are sound and whose
-- aliases all lead to a route.
pub rebuild_routes-IsTable :
    (mr : ModelRouter) (cfg : ModelRouterConfig)
    → IsTable (rebuild_routes mr (some cfg)).aliases (rebuild_routes mr (some cfg)).routes
unfolding rebuild_routes
rebuild_routes-IsTable mr cfg =
    add_models-IsTable (index_providers [] cfg.providers) cfg.models
      (record { aliases = []; routes = [] }) (record { sound = λ m r e. cc; targets = λ a m e. cc })
