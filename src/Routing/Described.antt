-- ===== src/Routing/Described.antt =====
-- What the entry of a model in the configuration (internal/config/routing.go) describes, read off the configuration
-- without the tables that internal/routing/model_router.go builds of it.
use enchanted_proxy.Prelude.{
  not, ◌&&◌, List, [], ◌∷◌, ◌++◌, append-nil, append_assoc, Option, none, some, is_some, Text,
  text_eq, text_eq_iff, text_key, if◌then◌else◌, lookup, insert, lookup-insert, select, ◌≡◌, refl,
  sym, ap, ◌∙◌, arith, Bool-cases, Option-cases, inl, inr,
}
use enchanted_proxy.Routing.Types.{
  ModelEndpoint, ModelRoute, ModelProviderConfig, ModelEndpointProvider, ModelConfig,
  is_open_router,
}
use enchanted_proxy.Routing.Build.{
  Providers, Split, index_providers, override, is_empty, make_endpoint, build_endpoint,
  add_endpoint, build_endpoints, make_route,
}

-- The first provider of a name.
abbrev pub provider_named : Text → List ModelProviderConfig → Option ModelProviderConfig
provider_named name [] = none
provider_named name (p ∷ ps) = if text_eq p.name name then some p else provider_named name ps

abbrev pub unless_empty : Text → Text → Text
unless_empty own base = if text_eq own [] then base else own

-- An endpoint of an entry: it can be used if its provider is OpenRouter or has a key.
abbrev pub usable :
    ModelConfig → ModelEndpointProvider → Option ModelProviderConfig → List ModelEndpoint
usable m e none = []
usable m e (some p) =
    if text_eq p.api_key [] && not (is_open_router p.name)
    then []
    else record {
      provider = record {
        base_url = unless_empty e.base_url p.base_url;
        api_key = p.api_key;
        name = p.name;
        model = unless_empty e.model m.name;
        api_type = e.api_type;
        token_multiplier = m.token_multiplier;
      };
      fallback = e.fallback;
    }
      ∷ []

abbrev pub usable_endpoints :
    List ModelProviderConfig → ModelConfig → List ModelEndpointProvider → List ModelEndpoint
usable_endpoints ps m [] = []
usable_endpoints ps m (e ∷ es) = usable m e (provider_named e.name ps) ++ usable_endpoints ps m es

abbrev pub in_service : List ModelEndpoint → List ModelEndpoint → Option ModelRoute
in_service [] [] = none
in_service [] (e ∷ es) =
    some (record { active_endpoints = e ∷ es; inactive_endpoints = []; round_robin_counter = 0 })
in_service (e ∷ es) others =
    some
      (record { active_endpoints = e ∷ es; inactive_endpoints = others; round_robin_counter = 0 })

-- The usable endpoints with a fallback policy are active and the others are not, unless no endpoint has one.
abbrev pub described_route : List ModelProviderConfig → ModelConfig → Option ModelRoute
described_route ps m =
    let es = usable_endpoints ps m m.providers in
    in_service (select (λ e. is_some e.fallback) es) (select (λ e. not (is_some e.fallback)) es)

abbrev or_else :
    Option ModelProviderConfig → Option ModelProviderConfig → Option ModelProviderConfig
or_else none o = o
or_else (some p) o = some p

index-step :
    (name : Text) (p : ModelProviderConfig) (m : Providers) (o : Option ModelProviderConfig)
    → or_else (lookup name (if is_some (lookup p.name m) then m else insert p.name p m)) o
      ≡ or_else (lookup name m) (if text_eq p.name name then some p else o)
index-step name p m o = elim (Bool-cases (text_eq p.name name)) [
  | inl same ↦
      let e : p.name ≡ name = (text_eq_iff p.name name).0 same in
      let there : lookup p.name m ≡ lookup name m = ap (λ (k : Text). lookup k m) e in
      ground (arith, lookup-insert p.name name p m)
  | inr other ↦ ground (arith, lookup-insert p.name name p m)
]

lookup-index_providers :
    (name : Text) (ps : List ModelProviderConfig) (m : Providers)
    → lookup name (index_providers m ps) ≡ or_else (lookup name m) (provider_named name ps)
unfolding index_providers
lookup-index_providers name [] m = elim (Option-cases (lookup name m)) [
  | inl e ↦ rw e refl
  | inr (q, e) ↦ rw e refl
]
lookup-index_providers name (p ∷ ps) m =
    lookup-index_providers name ps (if is_some (lookup p.name m) then m else insert p.name p m)
    ∙ index-step name p m (provider_named name ps)

abbrev listed : Option ModelEndpoint → List ModelEndpoint
listed none = []
listed (some e) = e ∷ []

override_lem : (own base : Text) → override own base ≡ unless_empty own base
override_lem [] base = refl
override_lem (c ∷ s) base = refl

is_empty_lem : (s : Text) → is_empty s ≡ text_eq s []
is_empty_lem [] = refl
is_empty_lem (c ∷ s) = refl

listed-make_endpoint :
    (m : ModelConfig) (e : ModelEndpointProvider) (p : ModelProviderConfig)
    → listed (
        if is_empty p.api_key && not (is_open_router p.name)
        then none
        else some (make_endpoint m e p))
      ≡ usable m e (some p)
unfolding make_endpoint
listed-make_endpoint m e p =
    ground (
      arith,
      is_empty_lem p.api_key,
      override_lem e.base_url p.base_url,
      override_lem e.model m.name,
    )

listed-build_endpoint :
    (ps : List ModelProviderConfig) (m : ModelConfig) (e : ModelEndpointProvider)
    → listed (build_endpoint (index_providers [] ps) m e) ≡ usable m e (provider_named e.name ps)
unfolding build_endpoint
listed-build_endpoint ps m e = elim (Option-cases (provider_named e.name ps)) [
  | inl q ↦ rw (lookup-index_providers e.name ps [] ∙ q, build_endpoint) (rw q refl)
  | inr (p, q) ↦
      rw (lookup-index_providers e.name ps [] ∙ q, build_endpoint)
        (rw q (listed-make_endpoint m e p))
]

split_by : Split → List ModelEndpoint → Split
split_by s es = record {
  active = s.active ++ select (λ e. is_some e.fallback) es;
  inactive = s.inactive ++ select (λ e. not (is_some e.fallback)) es;
}

add_endpoint-split_by :
    (s : Split) (o : Option ModelEndpoint) (es : List ModelEndpoint)
    → split_by (add_endpoint s o) es ≡ split_by s (listed o ++ es)
unfolding split_by
add_endpoint-split_by s none es = refl
add_endpoint-split_by s (some e) es = elim (Bool-cases (is_some e.fallback)) [
  | inl primary ↦ rw primary (
      ap
        (λ (l : List ModelEndpoint). record {
          active = l;
          inactive = s.inactive ++ select (λ e. not (is_some e.fallback)) es;
        })
        (append_assoc s.active (e ∷ []) (select (λ e. is_some e.fallback) es)))
  | inr other ↦ rw other (
      ap
        (λ (l : List ModelEndpoint). record {
          active = s.active ++ select (λ e. is_some e.fallback) es;
          inactive = l;
        })
        (append_assoc s.inactive (e ∷ []) (select (λ e. not (is_some e.fallback)) es)))
]

build_endpoints-split_by :
    (ps : List ModelProviderConfig) (m : ModelConfig) (s : Split) (es : List ModelEndpointProvider)
    → build_endpoints (index_providers [] ps) m s es ≡ split_by s (usable_endpoints ps m es)
unfolding build_endpoints split_by
build_endpoints-split_by ps m s [] =
    ap (λ (l : List ModelEndpoint). record { active = l; inactive = s.inactive })
      (sym (append-nil s.active))
    ∙ ap (λ (l : List ModelEndpoint). record { active = s.active ++ []; inactive = l })
        (sym (append-nil s.inactive))
build_endpoints-split_by ps m s (e ∷ es) =
    let providers = index_providers [] ps in
    let o = build_endpoint providers m e in
    build_endpoints-split_by ps m (add_endpoint s o) es
    ∙ add_endpoint-split_by s o (usable_endpoints ps m es)
    ∙ ap (λ (l : List ModelEndpoint). split_by s (l ++ usable_endpoints ps m es))
        (listed-build_endpoint ps m e)

make_route-in_service : (s : Split) → make_route s ≡ in_service s.active s.inactive
unfolding make_route
make_route-in_service s = by_lists s.active s.inactive
  where
    by_lists :
        (a i : List ModelEndpoint)
        → make_route (record { active = a; inactive = i }) ≡ in_service a i
    by_lists [] [] = refl
    by_lists [] (e ∷ es) = refl
    by_lists (e ∷ es) i = refl

pub make_route-described :
    (ps : List ModelProviderConfig) (m : ModelConfig)
    → make_route (
        build_endpoints
          (index_providers [] ps)
          m
          (record { active = []; inactive = [] })
          m.providers)
      ≡ described_route ps m
unfolding split_by
make_route-described ps m =
    let s : Split = record { active = []; inactive = [] } in
    ap make_route (build_endpoints-split_by ps m s m.providers)
    ∙ make_route-in_service (split_by s (usable_endpoints ps m m.providers))
