-- ===== src/Quota/Middleware.antt =====
-- `RequestTrackingMiddleware` of internal/request_tracking/middleware.go, with the errors of
-- internal/errors/ratelimit.go and `ExtractModelFromRequestBody` of internal/common/utils.go.
-- The JSON library is a parameter: `parse` gives the model field of a body that is an object.
use enchanted_proxy.Prelude.{
  ℕ, Bool, not, ◌&&◌, [], ◌∷◌, ◌++◌, Option, none, some, Text, codes, text_eq, if◌then◌else◌, leb,
  ltb,
}
use enchanted_proxy.Routing.Build.{is_empty}
use enchanted_proxy.Routing.Types.{ModelRouter}
use enchanted_proxy.Routing.Route.{resolve_alias}
use enchanted_proxy.Quota.Tiers.{Config, is_model_allowed, is_fallback_model}

pub data RateLimitType : Type 0 where
  soft : RateLimitType
  hard : RateLimitType

pub record RateLimitError : Type 0 where
  pub error : Text
  pub tier : Text
  pub rate_limit_type : RateLimitType
  pub limit : ℕ
  pub used : ℕ
  pub resets_at : ℕ

unfoldable pub daily_limit_exceeded : Config → ℕ → ℕ → RateLimitType → RateLimitError
daily_limit_exceeded c used resets_at t = record {
  error = c.display_name ++ codes " daily plan token limit exceeded";
  tier = c.name;
  rate_limit_type = t;
  limit = c.daily_plan_tokens;
  used = used;
  resets_at = resets_at;
}

unfoldable pub weekly_limit_exceeded : Config → ℕ → ℕ → RateLimitError
weekly_limit_exceeded c used resets_at = record {
  error = c.display_name ++ codes " weekly plan token limit exceeded";
  tier = c.name;
  rate_limit_type = hard;
  limit = c.weekly_plan_tokens;
  used = used;
  resets_at = resets_at;
}

unfoldable pub monthly_limit_exceeded : Config → ℕ → ℕ → RateLimitError
monthly_limit_exceeded c used resets_at = record {
  error = c.display_name ++ codes " monthly plan token limit exceeded";
  tier = c.name;
  rate_limit_type = hard;
  limit = c.monthly_plan_tokens;
  used = used;
  resets_at = resets_at;
}

unfoldable pub fallback_limit_exceeded : Config → ℕ → ℕ → RateLimitError
fallback_limit_exceeded c used resets_at = record {
  error = c.display_name ++ codes " daily fallback limit exceeded";
  tier = c.name;
  rate_limit_type = hard;
  limit = c.fallback_daily_plan_tokens;
  used = used;
  resets_at = resets_at;
}

-- 503, 403 with the model, and 429.
pub data Rejection : Type 0 where
  unavailable : Rejection
  model_not_allowed : Text → Rejection
  rate_limited : RateLimitError → Rejection

-- What the queries return; `none` is an error.
pub record Usage : Type 0 where
  pub this_month : Option ℕ
  pub this_week : Option ℕ
  pub today : Option ℕ
  pub fallback_today : Option ℕ

pub record Resets : Type 0 where
  pub daily : ℕ
  pub weekly : ℕ
  pub monthly : ℕ

unfoldable pub extract_model : (Text → Option Text) → Text → Text → Text
extract_model parse path body =
    if not (text_eq path (codes "/chat/completions"))
    then []
    else if is_empty body
    then []
    else elim (parse body) [ none ↦ [] | some model ↦ model ]

unfoldable pub resolve : Option ModelRouter → Text → Text
resolve none model = model
resolve (some router) [] = []
resolve (some router) (c ∷ model) = resolve_alias router (c ∷ model)

unfoldable pub check_model : Config → Text → Option Rejection
check_model c [] = none
check_model c (x ∷ model) =
    if is_model_allowed c (x ∷ model) then none else some (model_not_allowed (x ∷ model))

-- A quota is exceeded if it is configured, and the query says that it is used up.
abbrev pub exceeded : ℕ → Option ℕ → Option ℕ
exceeded limit none = none
exceeded limit (some used) = if ltb 0 limit && leb limit used then some used else none

unfoldable pub check_monthly : Config → Resets → Usage → Option Rejection
unfolding monthly_limit_exceeded
check_monthly c resets u = elim (exceeded c.monthly_plan_tokens u.this_month) [
  | none ↦ none
  | some used ↦ some (rate_limited (monthly_limit_exceeded c used resets.monthly))
]

unfoldable pub check_weekly : Config → Resets → Usage → Option Rejection
unfolding weekly_limit_exceeded
check_weekly c resets u = elim (exceeded c.weekly_plan_tokens u.this_week) [
  | none ↦ none
  | some used ↦ some (rate_limited (weekly_limit_exceeded c used resets.weekly))
]

-- Beyond the daily limit: the fallback model has a quota of its own, if the tier has one.
unfoldable pub check_fallback : Config → Resets → Text → ℕ → Option ℕ → Option Rejection
unfolding daily_limit_exceeded fallback_limit_exceeded is_fallback_model
check_fallback c resets model used fallback_used =
    if ltb 0 c.fallback_daily_plan_tokens
    then (if is_fallback_model c model
        then elim fallback_used [
          | none ↦ none
          | some n ↦
              if leb c.fallback_daily_plan_tokens n
              then some (rate_limited (fallback_limit_exceeded c n resets.daily))
              else none
        ]
        else some (rate_limited (daily_limit_exceeded c used resets.daily soft)))
    else some (rate_limited (daily_limit_exceeded c used resets.daily hard))

unfoldable pub check_daily : Config → Resets → Text → Usage → Option Rejection
unfolding check_fallback
check_daily c resets model u = elim (exceeded c.daily_plan_tokens u.today) [
  | none ↦ none
  | some used ↦ check_fallback c resets model used u.fallback_today
]

-- The first check that rejects decides.
infixr 30 ◌then_check◌
abbrev pub ◌then_check◌ : Option Rejection → Option Rejection → Option Rejection
none then_check next = next
some r then_check next = some r

unfoldable pub check_limits : Config → Resets → Text → Usage → Option Rejection
unfolding check_model check_monthly check_weekly check_daily
check_limits c resets model u =
    check_model c model
    then_check check_monthly c resets u
    then_check check_weekly c resets u
    then_check check_daily c resets model u

-- The tracking service as the middleware sees it: none at all, or the tier of the user, which may
-- fail to load, and the usage.
pub record Tracking : Type 0 where
  pub tier_config : Option (Config × Option ℕ)
  pub usage : Usage

pub record Settings : Type 0 where
  pub rate_limit_enabled : Bool
  pub rate_limit_fail_closed : Bool

pub record Request : Type 0 where
  pub user_id : Option Text
  pub path : Text
  pub body : Text

-- The request goes on with the tier in its context, if that was checked; or it is rejected.
pub data Outcome : Type 0 where
  next : Option (Config × Option ℕ) → Outcome
  abort : Rejection → Outcome

unfoldable pub unchecked : Settings → Outcome
unchecked s = if s.rate_limit_fail_closed then abort unavailable else next none

unfoldable pub check_request :
    (Text → Option Text)
    → Option ModelRouter
    → Resets
    → Request
    → Config × Option ℕ
    → Usage
    → Outcome
unfolding check_limits
check_request parse router resets q (c, expires_at) u =
    elim (check_limits c resets (resolve router (extract_model parse q.path q.body)) u) [
      | none ↦ next (some (c, expires_at))
      | some r ↦ abort r
    ]

unfoldable pub request_tracking_middleware :
    (Text → Option Text)
    → Option ModelRouter
    → Settings
    → Resets
    → Option Tracking
    → Request
    → Outcome
unfolding unchecked check_request
request_tracking_middleware parse router s resets tracking q = elim q.user_id [
  | none ↦ next none
  | some user ↦ if not s.rate_limit_enabled then next none else elim tracking [
    | none ↦ unchecked s
    | some t ↦ elim t.tier_config [
      | none ↦ unchecked s
      | some tier ↦ check_request parse router resets q tier t.usage
    ]
  ]
]
