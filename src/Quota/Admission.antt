-- ===== src/Quota/Admission.antt =====
-- Which requests `RequestTrackingMiddleware` (internal/request_tracking/middleware.go) lets through.
use enchanted_proxy.Prelude.{
  Option-cases, ℕ, ◌<◌, true, [], ◌∷◌, ◌≡◌, refl, sym, ◌∙◌, ◌⊎◌, ◌↔◌, inl, inr, Option, none, some,
  Text, arith,
}
use enchanted_proxy.Routing.Types.{ModelRouter}
use enchanted_proxy.Quota.Tiers.{Config, is_model_allowed, is_fallback_model}
use enchanted_proxy.Quota.Middleware.{
  ◌then_check◌, Rejection, Usage, Resets, extract_model, resolve, check_model, exceeded,
  check_monthly, check_weekly, check_fallback, check_daily, check_limits, Tracking, Settings,
  Request, next, request_tracking_middleware,
}

-- A quota is not used up: there is none, its query failed, or less than the limit was used.
abbrev pub Within : ℕ → Option ℕ → Type 0
Within limit none = Unit
Within limit (some used) = (limit ≡ 0) ⊎ (used < limit)

abbrev pub Below : ℕ → Option ℕ → Type 0
Below limit none = Unit
Below limit (some used) = used < limit

-- The fallback quota applies: the tier has one, the request is for its model, and it is not used up.
abbrev pub FallbackApplies : Config → Text → Usage → Type 0
FallbackApplies c model u =
    (0 < c.fallback_daily_plan_tokens)
    × (is_fallback_model c model ≡ true)
    × Below c.fallback_daily_plan_tokens u.fallback_today

-- What a plan allows.
abbrev pub Admits : Config → Text → Usage → Type 0
Admits c model u =
    ((model ≡ []) ⊎ (is_model_allowed c model ≡ true))
    × Within c.monthly_plan_tokens u.this_month
    × Within c.weekly_plan_tokens u.this_week
    × (Within c.daily_plan_tokens u.today ⊎ FallbackApplies c model u)

exceeded_iff : (limit : ℕ) (used : Option ℕ) → (exceeded limit used ≡ none) ↔ Within limit used
exceeded_iff limit none = ((λ _. tt), (λ _. refl))
exceeded_iff limit (some used) = ground arith

check_model_iff :
    (c : Config) (model : Text)
    → (check_model c model ≡ none) ↔ ((model ≡ []) ⊎ (is_model_allowed c model ≡ true))
unfolding check_model
check_model_iff c [] = ((λ _. inl refl), (λ _. refl))
check_model_iff c (x ∷ model) = ground arith

check_monthly_iff :
    (c : Config) (r : Resets) (u : Usage)
    → (check_monthly c r u ≡ none) ↔ (exceeded c.monthly_plan_tokens u.this_month ≡ none)
unfolding check_monthly
check_monthly_iff c r u = ground arith

check_weekly_iff :
    (c : Config) (r : Resets) (u : Usage)
    → (check_weekly c r u ≡ none) ↔ (exceeded c.weekly_plan_tokens u.this_week ≡ none)
unfolding check_weekly
check_weekly_iff c r u = ground arith

check_fallback_iff :
    (c : Config) (r : Resets) (model : Text) (used : ℕ) (u : Usage)
    → (check_fallback c r model used u.fallback_today ≡ none) ↔ FallbackApplies c model u
unfolding check_fallback
check_fallback_iff c r model used u = ground arith

check_daily_iff :
    (c : Config) (r : Resets) (model : Text) (u : Usage)
    → (check_daily c r model u ≡ none)
      ↔ (Within c.daily_plan_tokens u.today ⊎ FallbackApplies c model u)
unfolding check_daily
check_daily_iff c r model u = elim (Option-cases (exceeded c.daily_plan_tokens u.today)) [
  | inl e ↦
      ((λ _. inl ((exceeded_iff c.daily_plan_tokens u.today).0 e)), (λ _. rw (e, check_daily)))
  | inr (used, e) ↦ (
    (λ h. inr ((check_fallback_iff c r model used u).0 (rw (e, check_daily) at h))),
    (λ h. elim h [
      | inl w ↦ absurd (none_some (sym ((exceeded_iff c.daily_plan_tokens u.today).1 w) ∙ e))
      | inr f ↦ rw (e, check_daily) ((check_fallback_iff c r model used u).1 f)
    ]),
  )
]
  where
    none_some : {x : ℕ} → none ≡ some x → ⊥
    none_some h = cc

then_check_iff : (a b : Option Rejection) → ((a then_check b) ≡ none) ↔ ((a ≡ none) × (b ≡ none))
then_check_iff none b = ((λ h. (refl, h)), (λ h. h.1))
then_check_iff (some r) b = ((λ h. cc), (λ h. h.0))

-- A request passes the checks exactly if its plan allows the model and no monthly, weekly or daily
-- quota of the plan is used up, where a used-up daily quota may be replaced by the fallback quota,
-- for the fallback model alone. A quota whose query failed counts as not used up.
pub check_limits_iff :
    (c : Config) (r : Resets) (model : Text) (u : Usage)
    → (check_limits c r model u ≡ none) ↔ Admits c model u
unfolding check_limits
check_limits_iff c r model u = (
  (λ h.
      let (m, h') = (then_check_iff _ _).0 h in
      let (a, h'') = (then_check_iff _ _).0 h' in
      let (b, d) = (then_check_iff _ _).0 h'' in
      (
        (check_model_iff c model).0 m,
        (exceeded_iff _ _).0 ((check_monthly_iff c r u).0 a),
        (exceeded_iff _ _).0 ((check_weekly_iff c r u).0 b),
        (check_daily_iff c r model u).0 d,
      )),
  (λ h. (then_check_iff _ _).1 (
    (check_model_iff c model).1 h.0,
    (then_check_iff _ _).1 (
      (check_monthly_iff c r u).1 ((exceeded_iff c.monthly_plan_tokens u.this_month).1 h.1),
      (then_check_iff _ _).1 (
        (check_weekly_iff c r u).1 ((exceeded_iff c.weekly_plan_tokens u.this_week).1 h.2),
        (check_daily_iff c r model u).1 h.3,
      ),
    ),
  )),
)

-- With rate limiting on and failing closed, an authenticated request goes on only with the tier of
-- its user loaded and in its context, and only if that plan admits it: neither a missing service nor
-- a failed tier query lets one pass.
pub middleware_fail_closed :
    (parse : Text → Option Text) (router : Option ModelRouter) (s : Settings) (r : Resets)
    (tracking : Option Tracking) (q : Request) (user : Text) (tier : Option (Config × Option ℕ))
    → q.user_id ≡ some user
    → s.rate_limit_enabled ≡ true
    → s.rate_limit_fail_closed ≡ true
    → request_tracking_middleware parse router s r tracking q ≡ next tier
    → (t : Tracking) × (c : Config) × (expires_at : Option ℕ) × (tracking ≡ some t)
      × (t.tier_config ≡ some (c, expires_at))
      × (tier ≡ some (c, expires_at))
      × Admits c (resolve router (extract_model parse q.path q.body)) t.usage
unfolding request_tracking_middleware
middleware_fail_closed parse router s r none q user tier e on closed h = ground arith
middleware_fail_closed parse router s r (some t) q user tier e on closed h =
    elim (Option-cases t.tier_config) [
      | inl failed ↦ ground arith
      | inr ((c, expires_at), loaded) ↦
          let model = resolve router (extract_model parse q.path q.body) in
          elim (Option-cases (check_limits c r model t.usage)) [
            | inl passed ↦ (
              t,
              c,
              expires_at,
              refl,
              loaded,
              ground (arith, passed),
              (check_limits_iff c r model t.usage).0 passed,
            )
            | inr (rejection, rejected) ↦ ground (arith, rejected)
          ]
    ]
