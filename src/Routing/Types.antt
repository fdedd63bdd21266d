-- ===== src/Routing/Types.antt =====
-- The data of internal/routing/model_router.go and of the configuration that it reads,
-- internal/config/routing.go. A pointer to a provider is its value: every endpoint of a table has
-- a provider of its own. Token multipliers are in hundredths; durations are in nanoseconds, and a
-- negative one is 0, since the code tests them by `<= 0` alone.
use enchanted_proxy.Prelude.{
  ℕ, Bool, List, Option, Text, codes, text_eq, is_some, to_lower, trim_space,
}

pub record FallbackStateConfig : Type 0 where
  pub dwell_time : ℕ
  pub query : Text

pub record FallbackConfig : Type 0 where
  pub trigger : FallbackStateConfig
  pub recover : FallbackStateConfig

pub record ProviderConfig : Type 0 where
  pub base_url : Text
  pub api_key : Text
  pub name : Text
  pub model : Text
  pub api_type : Text
  pub token_multiplier : ℕ

pub record ModelEndpoint : Type 0 where
  pub provider : ProviderConfig
  pub fallback : Option FallbackConfig

pub record ModelRoute : Type 0 where
  pub active_endpoints : List ModelEndpoint
  pub inactive_endpoints : List ModelEndpoint
  pub round_robin_counter : ℕ

-- An endpoint with a fallback policy of its own is a primary one.
abbrev pub is_primary : ModelEndpoint → Bool
is_primary e = is_some e.fallback

abbrev pub Routes : Type 0
Routes = List (Text × ModelRoute)

-- The configuration, after it was loaded: `config.ModelProviderConfig` and so on.
pub record ModelProviderConfig : Type 0 where
  pub name : Text
  pub base_url : Text
  pub api_key : Text

pub record ModelEndpointProvider : Type 0 where
  pub name : Text
  pub model : Text
  pub base_url : Text
  pub api_type : Text
  pub fallback : Option FallbackConfig

pub record ModelConfig : Type 0 where
  pub name : Text
  pub aliases : List Text
  pub token_multiplier : ℕ
  pub providers : List ModelEndpointProvider

pub record ModelRouterConfig : Type 0 where
  pub providers : List ModelProviderConfig
  pub models : List ModelConfig

-- The router. `api_keys` holds the keys of each platform, for each provider that has such keys.
pub record ModelRouter : Type 0 where
  pub aliases : List (Text × Text)
  pub api_keys : List (Text × List (Text × Text))
  pub routes : Routes

abbrev pub open_router : Text
open_router = codes "OpenRouter"

abbrev pub is_open_router : Text → Bool
is_open_router name = text_eq name open_router

-- `strings.ToLower(strings.TrimSpace(modelID))`
abbrev pub normalize : Text → Text
normalize s = to_lower (trim_space s)
