-- ===== src/Quota/Tests.antt =====
-- Runs of the plan checks on small request logs.
use enchanted_proxy.Quota.Reset.{
  days_in, days_until_monday, weekday, add_month, get_weekly_reset_time, get_monthly_reset_time,
}
use enchanted_proxy.Quota.Overshoot.{write, Reach, serve, here, then_step, Reach-bounded}
use enchanted_proxy.Quota.Tiers.{
  is_fallback_model, is_model_allowed, document_upload, free_config, plus_config, Config,
  is_feature_allowed,
}
use enchanted_proxy.Quota.Middleware.{
  next, soft, check_fallback, daily_limit_exceeded, check_weekly, resolve, check_monthly,
  rate_limited, extract_model, check_model, check_request, Resets, Settings,
  request_tracking_middleware, Request, check_limits, Usage, check_daily, Tracking,
}
use enchanted_proxy.Quota.Usage.{
  start_of_day, get_user_fallback_plan_tokens_today, sum_plan_tokens, RequestLog,
  get_user_plan_tokens,
}
use enchanted_proxy.Quota.Admission.{middleware_fail_closed, check_limits_iff, Admits}
use enchanted_proxy.Prelude.{
  ◌*◌, sym, ap, ◌+◌, ◌↔◌, ◌<◌, ℕ, true, List, [], ◌∷◌, ◌≡◌, refl, Option, none, some, Text, codes,
  arith,
}

abbrev resets : Resets
resets = record { daily = 86_400; weekly = 345_600; monthly = 2_678_400 }

abbrev user : Text
user = codes "u"

abbrev small : Text
small = codes "Qwen/Qwen3-30B-A3B-Instruct-2507"

abbrev log_of : Text → ℕ → ℕ → RequestLog
log_of model n at = record { user_id = user; model = model; plan_tokens = some n; created_at = at }

abbrev fresh : Usage
fresh = record {
  this_month = some 10;
  this_week = some 10;
  today = some 10;
  fallback_today = some 0;
}

abbrev spent : Usage
spent = record {
  this_month = some 50_000;
  this_week = some 50_000;
  today = some 50_000;
  fallback_today = some 50_000;
}

-- Beyond the daily limit of the plus plan, another model gets a soft error.
check_limits-soft :
    check_limits plus_config resets (codes "m") spent
    ≡ some (rate_limited (daily_limit_exceeded plus_config 50_000 86_400 soft))
unfolding check_limits check_model check_monthly check_weekly check_daily check_fallback
    is_model_allowed is_fallback_model
check_limits-soft = refl

-- Neither the free nor the plus plan lists features, so that both allow the upload of documents.
free_uploads :
    (is_feature_allowed free_config document_upload ≡ true)
    × (is_feature_allowed plus_config document_upload ≡ true)
unfolding is_feature_allowed
free_uploads = (refl, refl)

check_limits_iff_example :
    (check_limits free_config resets small fresh ≡ none) ↔ Admits free_config small fresh
check_limits_iff_example = check_limits_iff free_config resets small fresh

abbrev tracked : Tracking
tracked = record { tier_config = some (free_config, none); usage = fresh }

abbrev admitted : Option (Config × Option ℕ)
admitted = some (free_config, none)

abbrev strict : Settings
strict = record { rate_limit_enabled = true; rate_limit_fail_closed = true }

abbrev asked : Request
asked = record { user_id = some user; path = codes "/chat/completions"; body = codes "{}" }

abbrev parse_small : Text → Option Text
parse_small body = some small

middleware_passes :
    request_tracking_middleware parse_small none strict resets (some tracked) asked
    ≡ next (some (free_config, none))
unfolding request_tracking_middleware check_request extract_model resolve check_limits check_model
    check_monthly check_weekly check_daily is_model_allowed
middleware_passes = refl

middleware_fail_closed_example :
    (t : Tracking) × (c : Config) × (expires_at : Option ℕ) × (some tracked ≡ some t)
    × (t.tier_config ≡ some (c, expires_at))
    × (admitted ≡ some (c, expires_at))
    × Admits c (resolve none (extract_model parse_small asked.path asked.body)) t.usage
middleware_fail_closed_example =
    middleware_fail_closed parse_small none strict resets (some tracked) asked user admitted refl
      refl refl middleware_passes

served : check_limits free_config resets small (record fresh { this_month = some 19_000 }) ≡ none
unfolding check_limits check_model check_monthly check_weekly check_daily is_model_allowed
served = refl

used_before : get_user_plan_tokens user 0 (log_of small 19_000 5 ∷ []) ≡ 19_000
unfolding sum_plan_tokens
used_before = refl

-- A request is served, and then another one, before either is logged.
two_served : Reach free_config resets user 0 9_000 2 (log_of small 19_000 5 ∷ []) (record {
  logs = log_of small 9_000 7 ∷ log_of small 19_000 5 ∷ [];
  in_flight = log_of small 8_000 8 ∷ [];
  unchecked = 0;
})
two_served =
    then_step
      (then_step
        (then_step here (
          serve small (record fresh { this_month = some 19_000 }) (log_of small 9_000 7)
            (ap some (sym used_before)) served (omega arith) (omega arith)))
        (serve small (record fresh { this_month = some 19_000 }) (log_of small 8_000 8)
          (ap some (sym used_before)) served (omega arith) (omega arith)))
      (write (log_of small 8_000 8 ∷ []) [] (log_of small 9_000 7) refl)

Reach-bounded_example :
    get_user_plan_tokens user 0 (log_of small 9_000 7 ∷ log_of small 19_000 5 ∷ [])
    < 20_000 + 2 * 9_000 + 0 * 9_000
Reach-bounded_example =
    Reach-bounded free_config resets user 0 9_000 2 (omega arith) (omega (arith, used_before))
      two_served

abbrev one_day : List RequestLog
one_day = log_of small 30_000 60 ∷ log_of small 20_000 5 ∷ []

today_used :
    (get_user_plan_tokens user (start_of_day 70) one_day ≡ 50_000)
    × (get_user_fallback_plan_tokens_today small user 70 one_day ≡ 50_000)
unfolding sum_plan_tokens get_user_fallback_plan_tokens_today
today_used = (refl, refl)

abbrev weekly_plan : Config
weekly_plan = record free_config { weekly_plan_tokens = 5_000 }

-- On 31 January 2025 the quota is said to start anew on 1 March.
monthly-january :
    get_monthly_reset_time free_config (record { year = 2025; month = 1; day_of_month = 31 })
    ≡ some (record { year = 2025; month = 3; day_of_month = 1 })
unfolding get_monthly_reset_time add_month days_in
monthly-january = refl

-- On Monday 5 January 1970 it is the Monday after.
weekly-monday : get_weekly_reset_time weekly_plan 345_700 ≡ some 950_400
unfolding get_weekly_reset_time weekday days_until_monday
weekly-monday = refl
