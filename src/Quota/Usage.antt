-- ===== src/Quota/Usage.antt =====
-- The request log, internal/storage/pg/queries/request_logs.sql, and the tier of a user,
-- internal/request_tracking/service.go. Times are in seconds since 1970-01-01 00:00 UTC.
use enchanted_proxy.Prelude.{
  ℕ, ◌+◌, ◌*◌, ◌/◌, Bool, true, ◌&&◌, List, [], ◌∷◌, Option, none, some, Text, text_eq,
  if◌then◌else◌, leb, ltb,
}
use enchanted_proxy.Quota.Tiers.{Tier, free, Config, free_config, get}

-- A row of `request_logs`. A row without token counts has no plan tokens.
pub record RequestLog : Type 0 where
  pub user_id : Text
  pub model : Text
  pub plan_tokens : Option ℕ
  pub created_at : ℕ

abbrev pub tokens_of : RequestLog → ℕ
tokens_of l = elim l.plan_tokens [ none ↦ 0 | some n ↦ n ]

-- `SUM(plan_tokens)` over the rows of a user from a time on that pass a test.
unfoldable pub sum_plan_tokens : (RequestLog → Bool) → Text → ℕ → List RequestLog → ℕ
sum_plan_tokens keep user since [] = 0
sum_plan_tokens keep user since (l ∷ ls) =
    (if text_eq l.user_id user && leb since l.created_at && keep l then tokens_of l else 0)
    + sum_plan_tokens keep user since ls

abbrev pub day : ℕ
day = 86_400

-- `DATE_TRUNC('day', ...)`
abbrev pub start_of_day : ℕ → ℕ
start_of_day now = now / day * day

abbrev pub get_user_plan_tokens : Text → ℕ → List RequestLog → ℕ
get_user_plan_tokens = sum_plan_tokens (λ l. true)

unfoldable pub get_user_fallback_plan_tokens_today : Text → Text → ℕ → List RequestLog → ℕ
unfolding sum_plan_tokens
get_user_fallback_plan_tokens_today [] user now logs = 0
get_user_fallback_plan_tokens_today (c ∷ model) user now logs =
    sum_plan_tokens (λ l. text_eq l.model (c ∷ model)) user (start_of_day now) logs

-- What the entitlements table says of a user.
pub data TierRow : Type 0 where
  query_failed : TierRow
  no_row : TierRow
  row : Tier → Option ℕ → TierRow

-- The tier and its end; `none` is an error. A tier whose time is over counts as the free one.
unfoldable pub get_user_tier : ℕ → TierRow → Option (Tier × Option ℕ)
get_user_tier now query_failed = none
get_user_tier now no_row = some (free, none)
get_user_tier now (row tier none) = some (tier, none)
get_user_tier now (row tier (some expires_at)) =
    if ltb expires_at now then some (free, none) else some (tier, some expires_at)

unfoldable pub get_user_tier_config : Option (ℕ → ℕ) → ℕ → TierRow → Option (Config × Option ℕ)
unfolding get_user_tier get
get_user_tier_config multiplier now r = elim (get_user_tier now r) [
  | none ↦ none
  | some (tier, expires_at) ↦ elim (get multiplier tier) [
    | none ↦ some (free_config, expires_at)
    | some config ↦ some (config, expires_at)
  ]
]
