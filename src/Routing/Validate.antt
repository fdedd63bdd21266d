-- ===== src/Routing/Validate.antt =====
-- The validation of a router configuration (internal/config/routing.go). The test of a URL, the environment
-- and the validation of probe settings are parameters.
use enchanted_proxy.Routing.Types.{
  ModelProviderConfig, ModelRouterConfig, ModelConfig, ModelEndpointProvider,
}
use enchanted_proxy.Prelude.{
  Bool, List, [], ◌∷◌, Option, none, some, Text, text_eq, if◌then◌else◌, any,
}

pub data ConfigError : Type 0 where
  no_providers : ConfigError
  duplicate_provider : Text → ConfigError
  no_models : ConfigError
  unknown_provider : Text → ConfigError
  duplicate_model : Text → ConfigError

abbrev pub member : Text → List Text → Bool
member name = any (text_eq name)

-- The loop over the providers: the names, or the first one that is there twice.
unfoldable pub provider_names :
    List Text → List ModelProviderConfig → Option ConfigError × List Text
provider_names seen [] = (none, seen)
provider_names seen (p ∷ ps) =
    let rest = provider_names (p.name ∷ seen) ps in
    if member p.name seen then (some (duplicate_provider p.name), seen) else rest

unfoldable pub unknown_of : List Text → List ModelEndpointProvider → Option ConfigError
unknown_of providers [] = none
unknown_of providers (e ∷ es) =
    let rest = unknown_of providers es in
    if member e.name providers then rest else some (unknown_provider e.name)

unfoldable pub check_models : List Text → List Text → List ModelConfig → Option ConfigError
unfolding unknown_of
check_models providers seen [] = none
check_models providers seen (m ∷ ms) =
    let rest = check_models providers (m.name ∷ seen) ms in
    elim (unknown_of providers m.providers) [
      | some e ↦ some e
      | none ↦ if member m.name seen then some (duplicate_model m.name) else rest
    ]

abbrev pub check_all_models : Option ConfigError × List Text → List ModelConfig → Option ConfigError
check_all_models (some e, names) models = some e
check_all_models (none, names) [] = some no_models
check_all_models (none, names) (m ∷ ms) = check_models names [] (m ∷ ms)

-- `ModelRouterConfig.Validate`; `none` is a valid configuration.
unfoldable pub validate : ModelRouterConfig → Option ConfigError
unfolding provider_names check_models
validate cfg = elim cfg.providers [
  | [] ↦ some no_providers
  | p ∷ ps ↦ check_all_models (provider_names [] (p ∷ ps)) cfg.models
]
