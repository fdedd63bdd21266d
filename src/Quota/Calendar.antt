-- ===== src/Quota/Calendar.antt =====
-- When the quotas start anew (internal/tiers/tiers.go).
use enchanted_proxy.Quota.Usage.{day, start_of_day}
use enchanted_proxy.Quota.Tiers.{Config}
use enchanted_proxy.Quota.Reset.{
  days_in, add_month, CivilDate, get_monthly_reset_time, next_month, weekday, days_until_monday,
  get_weekly_reset_time,
}
use mathlib.Core.Option.{some-injective}
use enchanted_proxy.Prelude.{
  le→leb, leb→le, leb, ◌==◌, ℕ, ◌+◌, ◌*◌, ◌/◌, ◌%◌, ◌<◌, ◌≤◌, true, false, some, ◌≡◌, ◌≢◌, ◌↔◌, sym,
  ap, ◌∙◌, inl, inr, arith, Bool-cases,
}

-- A Monday, 00:00 UTC.
abbrev pub IsMonday : ℕ → Type 0
IsMonday t = (t % 86_400 ≡ 0) × ((t / 86_400 + 4) % 7 ≡ 1)

until_monday :
    (d : ℕ) → let k = days_until_monday ((d + 4) % 7) in (0 < k) × (k ≤ 7) × ((d + k + 4) % 7 ≡ 1)
unfolding days_until_monday
until_monday d = ground arith

whole_days :
    (d k : ℕ)
    → ((d * 86_400 + k * 86_400) % 86_400 ≡ 0) × ((d * 86_400 + k * 86_400) / 86_400 ≡ d + k)
whole_days d k = (omega arith, omega arith)

after_now :
    (now k : ℕ)
    → 0 < k
    → k ≤ 7
    → (now < start_of_day now + k * 86_400)
      × (start_of_day now + k * 86_400 ≤ start_of_day now + 604_800)
after_now now k h b = (omega arith, omega arith)

-- A configured weekly quota starts anew on a Monday at 00:00 UTC, after now, and at most a week after the
-- start of today: it is the next such Monday.
pub weekly_reset :
    (c : Config) (now : ℕ)
    → 0 < c.weekly_plan_tokens
    → (t : ℕ) × (get_weekly_reset_time c now ≡ some t)
      × IsMonday t
      × (now < t)
      × (t ≤ start_of_day now + 7 * day)
unfolding get_weekly_reset_time weekday
weekly_reset c now h =
    let d = now / 86_400 in
    let k = days_until_monday ((d + 4) % 7) in
    let (positive, week, monday) = until_monday d in
    let (start, days) = whole_days d k in
    let (later, soon) = after_now now k positive week in
    (
      start_of_day now + k * day,
      rw configured,
      (start, ap (λ (n : ℕ). (n + 4) % 7) days ∙ monday),
      later,
      soon,
    )
  where
    configured : (c.weekly_plan_tokens == 0) ≡ false
    configured = ground arith

-- The first day of the month after a date.
abbrev pub first_of_next : CivilDate → CivilDate
first_of_next d = record {
  year = (next_month d.year d.month).0;
  month = (next_month d.year d.month).1;
  day_of_month = 1;
}

next_month-ne : (y m : ℕ) → (next_month y m).1 ≢ m
next_month-ne y m h = absurd (ground arith)

-- The time that is given for a configured monthly quota is the first of the next month exactly if the next
-- month has a day with the number of today. At the end of a longer month it is not: the time is then a
-- month too late.
pub monthly_reset_iff :
    (c : Config) (today : CivilDate)
    → 0 < c.monthly_plan_tokens
    → (get_monthly_reset_time c today ≡ some (first_of_next today)) ↔ (
        today.day_of_month
        ≤ days_in (next_month today.year today.month).0 (next_month today.year today.month).1)
unfolding get_monthly_reset_time add_month
monthly_reset_iff c today h = elim (Bool-cases (leb today.day_of_month (days_in y m))) [
  | inl fits ↦ ((λ _. leb→le _ _ fits), (λ _. rw (configured, fits)))
  | inr over ↦
      ((λ e. absurd (wrong over e)), (λ le. absurd (false_true (sym over ∙ le→leb _ _ le))))
]
  where
    y : ℕ
    y = (next_month today.year today.month).0

    m : ℕ
    m = (next_month today.year today.month).1

    configured : (c.monthly_plan_tokens == 0) ≡ false
    configured = ground arith

    false_true : false ≡ true → ⊥
    false_true q = cc

    wrong :
        leb today.day_of_month (days_in y m) ≡ false
        → get_monthly_reset_time c today ≡ some (first_of_next today)
        → ⊥
    wrong over e =
        let late : get_monthly_reset_time c today
            ≡ some (first_of_next (record { year = y; month = m; day_of_month = 1 })) =
          rw (configured, over) in
        next_month-ne y m (ap (λ (d : CivilDate). d.month) (some-injective _ _ (sym late ∙ e)))
