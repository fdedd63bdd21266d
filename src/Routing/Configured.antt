-- ===== src/Routing/Configured.antt =====
-- What a valid configuration (internal/config/routing.go) becomes in the routing table
-- (internal/routing/model_router.go).
use enchanted_proxy.Routing.Described.{make_route-described, described_route}
use enchanted_proxy.Routing.Build.{
  index_providers, build_endpoints, make_route, build_tables, Tables, add_models, Providers, Split,
  rebuild_routes, add_model,
}
use enchanted_proxy.Routing.Types.{ModelRouter, ModelRoute, ModelProviderConfig, ModelConfig}
use enchanted_proxy.Routing.Validate.{
  provider_names, check_all_models, validate, unknown_of, duplicate_model, ConfigError, member,
  check_models,
}
use enchanted_proxy.Prelude.{
  text_eq_sym, lookup-insert, is_some, lookup-insert_self, lookup, text_eq_iff, Bool, true, false,
  List, [], ◌∷◌, ◌++◌, Option, none, some, Text, text_eq, if◌then◌else◌, All, text_key, ◌≡◌, refl,
  sym, ap, ◌∙◌, inl, inr, arith, Bool-cases, Option-cases,
}

abbrev pub OthersThan : Text → List ModelConfig → Type 0
OthersThan name = All λ m. text_eq m.name name ≡ false

check_models-step :
    (providers seen : List Text) (m : ModelConfig) (ms : List ModelConfig)
    → check_models providers seen (m ∷ ms) ≡ none
    → (member m.name seen ≡ false) × (check_models providers (m.name ∷ seen) ms ≡ none)
unfolding check_models
check_models-step providers seen m ms h = elim (Option-cases (unknown_of providers m.providers)) [
  | inr (e, known) ↦ absurd (some_none (sym (ap next known) ∙ h))
  | inl e ↦
      let h' = sym (ap next e) ∙ h in
      elim (Bool-cases (member m.name seen)) [
        | inl twice ↦ absurd (some_none (sym (ap last twice) ∙ h'))
        | inr once ↦ (once, sym (ap last once) ∙ h')
      ]
]
  where
    last : Bool → Option ConfigError
    last b = if b then some (duplicate_model m.name) else check_models providers (m.name ∷ seen) ms

    next : Option ConfigError → Option ConfigError
    next (some e) = some e
    next none = last (member m.name seen)

    some_none : {e : ConfigError} → some e ≡ none → ⊥
    some_none q = cc

member-ne :
    (a n : Text) (seen : List Text)
    → member a seen ≡ false
    → member n seen ≡ true
    → text_eq a n ≡ false
member-ne a n [] h k = cc
member-ne a n (x ∷ seen) h k =
    ground (arith, text_eq_iff a n, text_eq_iff n x, text_eq_iff a x, member-ne a n seen)

check_models-OthersThan :
    (providers seen : List Text) (ms : List ModelConfig) (n : Text)
    → check_models providers seen ms ≡ none
    → member n seen ≡ true
    → OthersThan n ms
check_models-OthersThan providers seen [] n h k = tt
check_models-OthersThan providers seen (m ∷ ms) n h k =
    let (new, rest) = check_models-step providers seen m ms h in
    (
      member-ne m.name n seen new k,
      check_models-OthersThan providers (m.name ∷ seen) ms n rest (ground (arith, k)),
    )

All-member :
    (n : Text) (xs ys : List ModelConfig) (m : ModelConfig)
    → OthersThan n (xs ++ m ∷ ys)
    → text_eq m.name n ≡ false
All-member n [] ys m h = h.0
All-member n (x ∷ xs) ys m h = All-member n xs ys m h.1

-- In a valid list of models, all others have other names than one of them.
check_models-distinct :
    (providers seen : List Text) (xs ys : List ModelConfig) (m : ModelConfig)
    → check_models providers seen (xs ++ m ∷ ys) ≡ none
    → OthersThan m.name xs × OthersThan m.name ys
check_models-distinct providers seen [] ys m h = (
  tt,
  check_models-OthersThan providers (m.name ∷ seen) ys m.name
      (check_models-step providers seen m ys h).1 (ground (arith, text_eq_iff m.name m.name)),
)
check_models-distinct providers seen (x ∷ xs) ys m h =
    let rest = (check_models-step providers seen x (xs ++ m ∷ ys) h).1 in
    let (before, after) = check_models-distinct providers (x.name ∷ seen) xs ys m rest in
    let others =
      check_models-OthersThan providers (x.name ∷ seen) (xs ++ m ∷ ys) x.name rest
        (ground (arith, text_eq_iff x.name x.name)) in
    ((text_eq_sym m.name x.name (All-member x.name xs ys m others), before), after)

abbrev empty_split : Split
empty_split = record { active = []; inactive = [] }

-- The route that is made of the entry of a model.
abbrev route_for : Providers → ModelConfig → Option ModelRoute
route_for providers m = make_route (build_endpoints providers m empty_split m.providers)

add_model-other :
    (providers : Providers) (t : Tables) (m : ModelConfig) (n : Text)
    → text_eq m.name n ≡ false
    → lookup n (add_model providers t m).routes ≡ lookup n t.routes
unfolding add_model
add_model-other providers t m n h = elim (Bool-cases (is_some (lookup m.name t.routes))) [
  | inl known ↦ rw (known, add_model)
  | inr unknown ↦
      rw (unknown, add_model)
        (elim (Option-cases (route_for providers m)) [
          | inl e ↦ rw (e, add_model)
          | inr (r, e) ↦ rw (e, add_model) (lookup-insert m.name n r t.routes ∙ rw h)
        ])
]

add_model-own :
    (providers : Providers) (t : Tables) (m : ModelConfig)
    → lookup m.name t.routes ≡ none
    → lookup m.name (add_model providers t m).routes ≡ route_for providers m
unfolding add_model
add_model-own providers t m h = elim (Option-cases (route_for providers m)) [
  | inl e ↦ rw (h, add_model) (rw (e, add_model) h)
  | inr (r, e) ↦ rw (h, add_model) (rw (e, add_model) (lookup-insert_self m.name r t.routes))
]

add_models-other :
    (providers : Providers) (ms : List ModelConfig) (t : Tables) (n : Text)
    → OthersThan n ms
    → lookup n (add_models providers t ms).routes ≡ lookup n t.routes
unfolding add_models
add_models-other providers [] t n h = refl
add_models-other providers (m ∷ ms) t n h =
    add_models-other providers ms (add_model providers t m) n h.1
    ∙ add_model-other providers t m n h.0

add_models-one :
    (providers : Providers) (xs ys : List ModelConfig) (m : ModelConfig) (t : Tables)
    → OthersThan m.name xs
    → OthersThan m.name ys
    → lookup m.name t.routes ≡ none
    → lookup m.name (add_models providers t (xs ++ m ∷ ys)).routes ≡ route_for providers m
unfolding add_models
add_models-one providers [] ys m t h k e =
    add_models-other providers ys (add_model providers t m) m.name k ∙ add_model-own providers t m e
add_models-one providers (x ∷ xs) ys m t h k e =
    add_models-one providers xs ys m (add_model providers t x) h.1 k
      (add_model-other providers t x m.name h.0 ∙ e)

check_all_models-distinct :
    (r : Option ConfigError × List Text) (xs ys : List ModelConfig) (m : ModelConfig)
    → check_all_models r (xs ++ m ∷ ys) ≡ none
    → OthersThan m.name xs × OthersThan m.name ys
check_all_models-distinct (some e, names) xs ys m h = cc
check_all_models-distinct (none, names) [] ys m h = check_models-distinct names [] [] ys m h
check_all_models-distinct (none, names) (x ∷ xs) ys m h =
    check_models-distinct names [] (x ∷ xs) ys m h

validate-distinct :
    (providers : List ModelProviderConfig) (xs ys : List ModelConfig) (m : ModelConfig)
    → validate (record { providers = providers; models = xs ++ m ∷ ys }) ≡ none
    → OthersThan m.name xs × OthersThan m.name ys
unfolding validate
validate-distinct [] xs ys m h = cc
validate-distinct (p ∷ ps) xs ys m h =
    check_all_models-distinct (provider_names [] (p ∷ ps)) xs ys m h

-- In the table that a valid configuration gives, each of its models has exactly the route that its entry
-- describes, and none if no endpoint of the entry can be used: no entry is skipped or overwritten by another. The
-- route has an endpoint for each endpoint of the entry whose provider is OpenRouter or has a key, in order, with
-- the provider's data and the entry's; active are those with a fallback policy, or all if none has one.
pub validated_route :
    (mr : ModelRouter) (providers : List ModelProviderConfig) (xs ys : List ModelConfig)
    (m : ModelConfig)
    → validate (record { providers = providers; models = xs ++ m ∷ ys }) ≡ none
    → lookup m.name
        (rebuild_routes mr (some (record { providers = providers; models = xs ++ m ∷ ys }))).routes
      ≡ described_route providers m
unfolding rebuild_routes build_tables
validated_route mr providers xs ys m h =
    let (before, after) = validate-distinct providers xs ys m h in
    add_models-one (index_providers [] providers) xs ys m (record { aliases = []; routes = [] })
      before after refl
    ∙ make_route-described providers m
