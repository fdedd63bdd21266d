-- ===== src/Quota/Overshoot.antt =====
-- How much a user can spend: the checks of internal/request_tracking/middleware.go against the
-- request log that they read.
use native.Mathlib.Nat.{suc-mul, mul-le-mul_right}
use enchanted_proxy.Prelude.{
  ℕ, suc, length, ◌++◌, subst, ap, ◌*◌, ◌+◌, ◌<◌, ◌≤◌, true, false, ◌&&◌, List, [], ◌∷◌, ◌≡◌, refl,
  none, some, Text, text_eq, text_eq_iff, arith, leb, All,
}
use enchanted_proxy.Quota.Tiers.{Config, is_fallback_model}
use enchanted_proxy.Quota.Usage.{
  RequestLog, tokens_of, sum_plan_tokens, get_user_plan_tokens, get_user_fallback_plan_tokens_today,
  start_of_day,
}
use enchanted_proxy.Quota.Middleware.{
  rate_limited, Usage, Resets, check_limits, check_daily, fallback_limit_exceeded,
}
use enchanted_proxy.Quota.Admission.{check_limits_iff}

-- The log of a month, the requests of the user that were served and whose rows are still to be written, and the
-- number of those that were served although the monthly query failed.
pub record Spending : Type 0 where
  pub logs : List RequestLog
  pub in_flight : List RequestLog
  pub unchecked : ℕ

-- What happens in a month that began at `since`. A request of the user is served if it passes the checks after the
-- monthly query has read the log as it stands then, or has failed. It costs at most `cap` plan tokens, and its
-- row is written later, or lost; at most `callers` requests wait for that. Other users' rows are written too.
pub data Step (c : Config) (r : Resets) (user : Text) (since cap callers : ℕ) (s : Spending)
    : Spending → Type 0 where
  serve :
      (model : Text) (u : Usage) (l : RequestLog)
      → u.this_month ≡ some (get_user_plan_tokens user since s.logs)
      → check_limits c r model u ≡ none
      → tokens_of l ≤ cap
      → length s.in_flight < callers
      → Step c r user since cap callers s (record s { in_flight = l ∷ s.in_flight })
  serve_unchecked :
      (model : Text) (u : Usage) (l : RequestLog)
      → u.this_month ≡ none
      → check_limits c r model u ≡ none
      → tokens_of l ≤ cap
      → length s.in_flight < callers
      → Step c r user since cap callers s
          (record s { in_flight = l ∷ s.in_flight; unchecked = suc s.unchecked })
  write :
      (before after : List RequestLog) (l : RequestLog)
      → s.in_flight ≡ before ++ l ∷ after
      → Step c r user since cap callers s
          (record s { logs = l ∷ s.logs; in_flight = before ++ after })
  lose :
      (before after : List RequestLog) (l : RequestLog)
      → s.in_flight ≡ before ++ l ∷ after
      → Step c r user since cap callers s (record s { in_flight = before ++ after })
  other :
      (l : RequestLog)
      → text_eq l.user_id user ≡ false
      → Step c r user since cap callers s (record s { logs = l ∷ s.logs })

pub data Reach (c : Config) (r : Resets) (user : Text) (since cap callers : ℕ)
    (start : List RequestLog) : Spending → Type 0 where
  here :
      Reach c r user since cap callers start
        (record { logs = start; in_flight = []; unchecked = 0 })
  then_step :
      {s later : Spending}
      → Reach c r user since cap callers start s
      → Step c r user since cap callers s later
      → Reach c r user since cap callers start later

abbrev weight : List RequestLog → ℕ
weight [] = 0
weight (l ∷ ls) = tokens_of l + weight ls

weight-middle :
    (before after : List RequestLog) (l : RequestLog)
    → weight (before ++ l ∷ after) ≡ tokens_of l + weight (before ++ after)
weight-middle [] after l = refl
weight-middle (x ∷ before) after l = omega (arith, weight-middle before after l)

abbrev Cheap : ℕ → List RequestLog → Type 0
Cheap cap = All λ l. tokens_of l ≤ cap

Cheap-middle :
    (cap : ℕ) (before after : List RequestLog) (l : RequestLog)
    → Cheap cap (before ++ l ∷ after)
    → Cheap cap (before ++ after)
Cheap-middle cap [] after l h = h.1
Cheap-middle cap (x ∷ before) after l h = (h.0, Cheap-middle cap before after l h.1)

weight-Cheap : (cap : ℕ) (ls : List RequestLog) → Cheap cap ls → weight ls ≤ length ls * cap
weight-Cheap cap [] h = omega arith
weight-Cheap cap (l ∷ ls) h = omega (arith, suc-mul (length ls) cap, weight-Cheap cap ls h.1, h.0)

-- A further row counts for the user at most what it costs.
tokens-cons :
    (user : Text) (since : ℕ) (l : RequestLog) (logs : List RequestLog)
    → get_user_plan_tokens user since (l ∷ logs)
      ≤ tokens_of l + get_user_plan_tokens user since logs
unfolding sum_plan_tokens
tokens-cons user since l logs = ground arith

tokens-other :
    (user : Text) (since : ℕ) (l : RequestLog) (logs : List RequestLog)
    → text_eq l.user_id user ≡ false
    → get_user_plan_tokens user since (l ∷ logs) ≡ get_user_plan_tokens user since logs
unfolding sum_plan_tokens
tokens-other user since l logs foreign = ground (arith, foreign)

module _ (c : Config) (r : Resets) (user : Text) (since cap callers : ℕ) where
  -- What is logged and what is still to be logged, together.
  IsBounded : Spending → Type 0
  IsBounded s =
      Cheap cap s.in_flight
      × (get_user_plan_tokens user since s.logs + weight s.in_flight
          < c.monthly_plan_tokens + callers * cap + s.unchecked * cap)

  Step-IsBounded :
      {s later : Spending}
      → 0 < c.monthly_plan_tokens
      → Step c r user since cap callers s later
      → IsBounded s
      → IsBounded later
  unfolding IsBounded
  Step-IsBounded {s} h (serve model u l read passed cost few) (cheap, b) =
      let within : get_user_plan_tokens user since s.logs < c.monthly_plan_tokens =
        (let w = ((check_limits_iff c r model u).0 passed).1 in ground (arith, read)) in
      let room = mul-le-mul_right cap few in
      (
        (cost, cheap),
        omega (
          arith,
          within,
          cost,
          weight-Cheap cap s.in_flight cheap,
          suc-mul (length s.in_flight) cap,
          room,
        ),
      )
  Step-IsBounded {s} h (serve_unchecked model u l failed passed cost few) (cheap, b) =
      ((cost, cheap), omega (arith, b, cost, suc-mul s.unchecked cap))
  Step-IsBounded {s} h (write before after l e) (cheap, b) = (
    Cheap-middle cap before after l (subst (Cheap cap) e cheap),
    omega (arith, b, ap weight e, weight-middle before after l, tokens-cons user since l s.logs),
  )
  Step-IsBounded {s} h (lose before after l e) (cheap, b) = (
    Cheap-middle cap before after l (subst (Cheap cap) e cheap),
    omega (arith, b, ap weight e, weight-middle before after l),
  )
  Step-IsBounded {s} h (other l foreign) (cheap, b) =
      (cheap, omega (arith, b, tokens-other user since l s.logs foreign))

  Reach-IsBounded :
      {start : List RequestLog} {s : Spending}
      → 0 < c.monthly_plan_tokens
      → get_user_plan_tokens user since start < c.monthly_plan_tokens
      → Reach c r user since cap callers start s
      → IsBounded s
  unfolding IsBounded
  Reach-IsBounded h b here = (tt, omega (arith, b))
  Reach-IsBounded h b (then_step p s) = Step-IsBounded h s (Reach-IsBounded h b p)

  -- Let a plan have a monthly limit, and a user begin below it. The user's requests pass the checks before they
  -- are served, cost at most `cap` plan tokens each, and are logged later, with at most `callers` of them served
  -- and not yet logged at a time. Then, however they interleave with the logging, the plan tokens logged for the
  -- user in a month stay below the limit plus the cost of `callers` requests, plus the cost of those requests
  -- for which the monthly query had failed, which are served without that check.
  pub Reach-bounded :
      {start : List RequestLog} {s : Spending}
      → 0 < c.monthly_plan_tokens
      → get_user_plan_tokens user since start < c.monthly_plan_tokens
      → Reach c r user since cap callers start s
      → get_user_plan_tokens user since s.logs
        < c.monthly_plan_tokens + callers * cap + s.unchecked * cap
  unfolding IsBounded
  Reach-bounded h b p = omega (arith, (Reach-IsBounded h b p).1)

-- All that the user has logged since `since` was on one model.
abbrev pub OnlyOn : Text → Text → ℕ → List RequestLog → Type 0
OnlyOn model user since =
    All λ l. (text_eq l.user_id user && leb since l.created_at) ≡ true → l.model ≡ model

sum-OnlyOn :
    (model user : Text) (since : ℕ) (logs : List RequestLog)
    → OnlyOn model user since logs
    → sum_plan_tokens (λ l. text_eq l.model model) user since logs
      ≡ sum_plan_tokens (λ l. true) user since logs
unfolding sum_plan_tokens
sum-OnlyOn model user since [] h = refl
sum-OnlyOn model user since (l ∷ logs) h =
    ground (arith, h.0, text_eq_iff l.model model, sum-OnlyOn model user since logs h.1)

-- The fallback quota counts all of today's use of the fallback model, also what was within the
-- daily limit. So for a user who used that model alone, a fallback quota no larger than the daily
-- one is used up together with it: the first request beyond the daily limit is refused.
pub fallback_never_extends :
    (c : Config) (r : Resets) (x : ℕ) (name user : Text) (now : ℕ) (logs : List RequestLog)
    (u : Usage)
    → c.fallback_model ≡ x ∷ name
    → 0 < c.fallback_daily_plan_tokens
    → c.fallback_daily_plan_tokens ≤ c.daily_plan_tokens
    → OnlyOn (x ∷ name) user (start_of_day now) logs
    → u.today ≡ some (get_user_plan_tokens user (start_of_day now) logs)
    → u.fallback_today ≡ some (get_user_fallback_plan_tokens_today (x ∷ name) user now logs)
    → c.daily_plan_tokens ≤ get_user_plan_tokens user (start_of_day now) logs
    → check_daily c r (x ∷ name) u
      ≡ some (
          rate_limited
            (fallback_limit_exceeded c (get_user_plan_tokens user (start_of_day now) logs) r.daily))
unfolding check_daily is_fallback_model get_user_fallback_plan_tokens_today
fallback_never_extends c r x name user now logs u m f d only t ft over = ground (
  arith,
  sum-OnlyOn (x ∷ name) user (start_of_day now) logs only,
  text_eq_iff c.fallback_model (x ∷ name),
  text_eq_iff (x ∷ name) (x ∷ name),
)
