-- ===== src/Quota/Honesty.antt =====
-- What the rejections of internal/request_tracking/middleware.go and internal/errors/ratelimit.go say.
use enchanted_proxy.Quota.Tiers.{is_fallback_model, is_model_allowed, Config}
use enchanted_proxy.Prelude.{
  leb→le, leb, ltb→lt, ltb, ◌≤◌, Option-cases, ◌<◌, ◌≡◌, Bool-cases, ℕ, false, [], ◌∷◌, Option,
  none, some, inl, inr, arith, Text, refl, ◌≡◌,
}
use enchanted_proxy.Quota.Middleware.{
  Usage, fallback_limit_exceeded, RateLimitType, daily_limit_exceeded, Resets,
  monthly_limit_exceeded, weekly_limit_exceeded, Rejection, check_fallback, exceeded, check_daily,
  check_monthly, check_limits, check_model, check_weekly, soft, hard, unavailable,
  model_not_allowed, rate_limited, ◌then_check◌,
}

-- A soft error is for another model than the fallback one, on a plan that has a fallback quota, and
-- beyond the daily limit.
abbrev pub Points : Config → Text → ℕ → RateLimitType → Type 0
Points c model limit hard = Unit
Points c model limit soft =
    (0 < c.fallback_daily_plan_tokens)
    × (is_fallback_model c model ≡ false)
    × (limit ≡ c.daily_plan_tokens)

-- What a rejection says is so.
abbrev pub Honest : Config → Text → Rejection → Type 0
Honest c model unavailable = ⊥
Honest c model (model_not_allowed denied) = (denied ≡ model) × (is_model_allowed c model ≡ false)
Honest c model (rate_limited e) =
    (0 < e.limit)
    × (e.limit ≤ e.used)
    × (e.tier ≡ c.name)
    × Points c model e.limit e.rate_limit_type

abbrev pub AllHonest : Config → Text → Option Rejection → Type 0
AllHonest c model none = Unit
AllHonest c model (some x) = Honest c model x

then_check-AllHonest :
    (c : Config) (model : Text) (a b : Option Rejection)
    → AllHonest c model a
    → AllHonest c model b
    → AllHonest c model (a then_check b)
then_check-AllHonest c model none b h k = k
then_check-AllHonest c model (some x) b h k = h

check_model-AllHonest : (c : Config) (model : Text) → AllHonest c model (check_model c model)
unfolding check_model
check_model-AllHonest c [] = tt
check_model-AllHonest c (x ∷ model) = elim (Bool-cases (is_model_allowed c (x ∷ model))) [
  | inl y ↦ rw y tt
  | inr n ↦ rw n (refl, n)
]

exceeded-some :
    (limit used : ℕ) (o : Option ℕ) → exceeded limit o ≡ some used → (0 < limit) × (limit ≤ used)
exceeded-some limit used none h = cc
exceeded-some limit used (some n) h = ground arith

check_monthly-AllHonest :
    (c : Config) (r : Resets) (model : Text) (u : Usage) → AllHonest c model (check_monthly c r u)
unfolding check_monthly monthly_limit_exceeded
check_monthly-AllHonest c r model u =
    elim (Option-cases (exceeded c.monthly_plan_tokens u.this_month)) [
      | inl e ↦ rw (e, check_monthly, AllHonest) tt
      | inr (used, e) ↦
          let over = exceeded-some _ used u.this_month e in
          rw (e, check_monthly, AllHonest) (over.0, over.1, refl, tt)
    ]

check_weekly-AllHonest :
    (c : Config) (r : Resets) (model : Text) (u : Usage) → AllHonest c model (check_weekly c r u)
unfolding check_weekly weekly_limit_exceeded
check_weekly-AllHonest c r model u =
    elim (Option-cases (exceeded c.weekly_plan_tokens u.this_week)) [
      | inl e ↦ rw (e, check_weekly, AllHonest) tt
      | inr (used, e) ↦
          let over = exceeded-some _ used u.this_week e in
          rw (e, check_weekly, AllHonest) (over.0, over.1, refl, tt)
    ]

check_fallback-AllHonest :
    (c : Config) (r : Resets) (model : Text) (used : ℕ) (o : Option ℕ)
    → 0 < c.daily_plan_tokens
    → c.daily_plan_tokens ≤ used
    → AllHonest c model (check_fallback c r model used o)
unfolding check_fallback daily_limit_exceeded fallback_limit_exceeded
check_fallback-AllHonest c r model used o d h =
    elim (Bool-cases (ltb 0 c.fallback_daily_plan_tokens)) [
      | inr n ↦ rw n (d, h, refl, tt)
      | inl y ↦ rw y (elim (Bool-cases (is_fallback_model c model)) [
        | inr m ↦ rw m (d, h, refl, (ltb→lt _ _ y, m, refl))
        | inl m ↦ rw m (elim (Option-cases o) [
          | inl e ↦ rw e tt
          | inr (n, e) ↦ rw e (elim (Bool-cases (leb c.fallback_daily_plan_tokens n)) [
            | inl over ↦ rw over (ltb→lt _ _ y, leb→le _ _ over, refl, tt)
            | inr below ↦ rw below tt
          ])
        ])
      ])
    ]

check_daily-AllHonest :
    (c : Config) (r : Resets) (model : Text) (u : Usage)
    → AllHonest c model (check_daily c r model u)
unfolding check_daily
check_daily-AllHonest c r model u = elim (Option-cases (exceeded c.daily_plan_tokens u.today)) [
  | inl e ↦ rw (e, check_daily, AllHonest) tt
  | inr (used, e) ↦
      let over = exceeded-some _ used u.today e in
      rw (e, check_daily, AllHonest)
        (check_fallback-AllHonest c r model used u.fallback_today over.0 over.1)
]

-- Every rejection is honest: a refused model is the one asked for, and the plan does not allow it; an
-- error about a limit names the plan, a limit above 0, and a use that has reached it; and it is soft only
-- if the plan has a fallback quota, the request is not for the fallback model, and the daily limit is the
-- one that is reached.
pub check_limits-AllHonest :
    (c : Config) (r : Resets) (model : Text) (u : Usage)
    → AllHonest c model (check_limits c r model u)
unfolding check_limits
check_limits-AllHonest c r model u =
    then_check-AllHonest c model _ _ (check_model-AllHonest c model) (
      then_check-AllHonest c model _ _ (check_monthly-AllHonest c r model u) (
        then_check-AllHonest c model _ _ (check_weekly-AllHonest c r model u)
          (check_daily-AllHonest c r model u)))
