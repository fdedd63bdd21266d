-- ===== src/Quota/Reset.antt =====
-- The times at which the quotas start anew: `GetDailyResetTime`, `GetWeeklyResetTime` and
-- `GetMonthlyResetTime` of internal/tiers/tiers.go. Times are in seconds since 1970-01-01 00:00 UTC, a
-- Thursday; the month is computed on dates of the Gregorian calendar. No quota gives no time, `none`.
use enchanted_proxy.Quota.Usage.{day, start_of_day}
use enchanted_proxy.Quota.Tiers.{Config}
use enchanted_proxy.Prelude.{
  leb, ◌==◌, ℕ, ◌+◌, ◌-◌, ◌*◌, ◌/◌, ◌%◌, Bool, not, ◌&&◌, ◌||◌, Option, none, some, if◌then◌else◌,
}

unfoldable pub get_daily_reset_time : Config → ℕ → Option ℕ
get_daily_reset_time c now =
    if c.daily_plan_tokens == 0 then none else some (start_of_day now + day)

-- `time.Time.Weekday`: Sunday is 0.
unfoldable pub weekday : ℕ → ℕ
weekday now = (now / 86_400 + 4) % 7

unfoldable pub days_until_monday : ℕ → ℕ
days_until_monday today = let days = (8 - today) % 7 in if days == 0 then 7 else days

unfoldable pub get_weekly_reset_time : Config → ℕ → Option ℕ
unfolding weekday days_until_monday
get_weekly_reset_time c now =
    if c.weekly_plan_tokens == 0
    then none
    else some (start_of_day now + days_until_monday (weekday now) * day)

-- A date; the months count from 1.
pub record CivilDate : Type 0 where
  pub year : ℕ
  pub month : ℕ
  pub day_of_month : ℕ

abbrev pub is_leap : ℕ → Bool
is_leap y = (y % 4 == 0 && not (y % 100 == 0)) || y % 400 == 0

unfoldable pub days_in : ℕ → ℕ → ℕ
days_in y m =
    if m == 2
    then (if is_leap y then 29 else 28)
    else if m == 4 || m == 6 || m == 9 || m == 11
    then 30
    else 31

abbrev pub next_month : ℕ → ℕ → ℕ × ℕ
next_month y m = if m == 12 then (y + 1, 1) else (y, m + 1)

-- `AddDate(0, 1, 0)`: a day that the next month lacks runs over into the month after it.
unfoldable pub add_month : CivilDate → CivilDate
unfolding days_in
add_month d =
    let (y, m) = next_month d.year d.month in
    if leb d.day_of_month (days_in y m)
    then record { year = y; month = m; day_of_month = d.day_of_month }
    else (let (y', m') = next_month y m in
        record { year = y'; month = m'; day_of_month = d.day_of_month - days_in y m })

unfoldable pub get_monthly_reset_time : Config → CivilDate → Option CivilDate
unfolding add_month
get_monthly_reset_time c today =
    if c.monthly_plan_tokens == 0
    then none
    else (let d = add_month today in some (record d { day_of_month = 1 }))
