-- ===== src/Quota/Tiers.antt =====
-- internal/tiers/tiers.go: the plans and what they allow. A number of runs of -1, which stands for
-- no limit, is `none`.
use enchanted_proxy.Prelude.{
  ℕ, Bool, true, false, not, ◌&&◌, List, [], ◌∷◌, Option, none, some, Text, codes, text_eq,
  if◌then◌else◌, any, ltb,
}

pub data Tier : Type 0 where
  free : Tier
  plus : Tier
  pro : Tier
  unknown : Text → Tier

pub data Feature : Type 0 where
  document_upload : Feature
  other_feature : Text → Feature

pub record Config : Type 0 where
  pub name : Text
  pub display_name : Text
  pub monthly_plan_tokens : ℕ
  pub weekly_plan_tokens : ℕ
  pub daily_plan_tokens : ℕ
  pub fallback_daily_plan_tokens : ℕ
  pub fallback_model : Text
  pub allowed_models : List Text
  pub deep_research_daily_runs : Option ℕ
  pub deep_research_lifetime_runs : Option ℕ
  pub deep_research_token_cap : ℕ
  pub deep_research_max_active_sessions : ℕ
  pub allowed_features : List Feature

abbrev pub free_config : Config
free_config = record {
  name = codes "free";
  display_name = codes "Free";
  monthly_plan_tokens = 20_000;
  weekly_plan_tokens = 0;
  daily_plan_tokens = 0;
  fallback_daily_plan_tokens = 0;
  fallback_model = [];
  allowed_models =
      codes "moonshot/kimi-k2"
      ∷ codes "deepseek-ai/DeepSeek-V4-Pro"
      ∷ codes "meta-llama/Llama-3.3-70B"
      ∷ codes "zai-org/GLM-5-FP8"
      ∷ codes "dphn/Dolphin-Mistral-24B-Venice-Edition"
      ∷ codes "Qwen/Qwen3-30B-A3B-Instruct-2507"
      ∷ [];
  deep_research_daily_runs = some 0;
  deep_research_lifetime_runs = some 1;
  deep_research_token_cap = 8_000;
  deep_research_max_active_sessions = 1;
  allowed_features = [];
}

abbrev pub plus_config : Config
plus_config = record {
  name = codes "plus";
  display_name = codes "Plus";
  monthly_plan_tokens = 0;
  weekly_plan_tokens = 0;
  daily_plan_tokens = 40_000;
  fallback_daily_plan_tokens = 40_000;
  fallback_model = codes "Qwen/Qwen3-30B-A3B-Instruct-2507";
  allowed_models = [];
  deep_research_daily_runs = none;
  deep_research_lifetime_runs = some 0;
  deep_research_token_cap = 10_000;
  deep_research_max_active_sessions = 0;
  allowed_features = [];
}

abbrev pub pro_config : Config
pro_config = record {
  name = codes "pro";
  display_name = codes "Pro";
  monthly_plan_tokens = 0;
  weekly_plan_tokens = 0;
  daily_plan_tokens = 500_000;
  fallback_daily_plan_tokens = 500_000;
  fallback_model = codes "Qwen/Qwen3-30B-A3B-Instruct-2507";
  allowed_models = [];
  deep_research_daily_runs = some 10;
  deep_research_lifetime_runs = some 0;
  deep_research_token_cap = 10_000;
  deep_research_max_active_sessions = 0;
  allowed_features = document_upload ∷ [];
}

abbrev pub configs : Tier → Option Config
configs free = some free_config
configs plus = some plus_config
configs pro = some pro_config
configs (unknown _) = none

-- The multiplier of the limits is a float; here it is the function that it applies to a daily
-- limit, and `none` where it is not positive or is 1.
unfoldable pub get : Option (ℕ → ℕ) → Tier → Option Config
get multiplier tier = elim (configs tier) [
  | none ↦ none
  | some cfg ↦ elim multiplier [
    | none ↦ some cfg
    | some scale ↦ some (record cfg {
      daily_plan_tokens = if ltb 0 cfg.daily_plan_tokens then scale cfg.daily_plan_tokens else 0;
    })
  ]
]

unfoldable pub is_model_allowed : Config → Text → Bool
is_model_allowed c model = elim c.allowed_models [
  | [] ↦ true
  | m ∷ ms ↦ any (λ allowed. text_eq allowed model) (m ∷ ms)
]

unfoldable pub is_fallback_model : Config → Text → Bool
is_fallback_model c model = not (text_eq c.fallback_model []) && text_eq c.fallback_model model

abbrev pub feature_eq : Feature → Feature → Bool
feature_eq document_upload document_upload = true
feature_eq (other_feature s) (other_feature t) = text_eq s t
feature_eq _ _ = false

unfoldable pub is_feature_allowed : Config → Feature → Bool
is_feature_allowed c feature = elim c.allowed_features [
  | [] ↦ true
  | f ∷ fs ↦ any (λ allowed. feature_eq allowed feature) (f ∷ fs)
]
