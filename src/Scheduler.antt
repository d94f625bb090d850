-- ===== src/Scheduler.antt =====
-- internal/scheduler/scheduler.go: the next time of a schedule. Times are nanoseconds since the
-- zero time; the fields of a local time are those of package time, the parameter `Calendar`.
-- Reading a cron line is not modelled.
pub mod Next
use mirror_sync.Base.{
  ℕ, zero, suc, ◌+◌, ◌*◌, ◌/◌, ◌==◌, Bool, true, false, ◌&&◌, ◌||◌, List, [], ◌∷◌, any_by,
  if◌then◌else◌,
}

-- A local time's fields, in the location of the schedule.
pub record Calendar : Type 0 where
  pub minute_of : ℕ → ℕ
  pub hour_of : ℕ → ℕ
  pub day_of : ℕ → ℕ
  pub month_of : ℕ → ℕ
  pub weekday_of : ℕ → ℕ

-- The sets of a cron line, as lists of their members.
pub record CronExpr : Type 0 where
  pub min : List ℕ
  pub hour : List ℕ
  pub dom : List ℕ
  pub month : List ℕ
  pub dow : List ℕ
  pub dom_any : Bool
  pub dow_any : Bool

unfoldable pub has : List ℕ → ℕ → Bool
has set n = any_by (λ x. x == n) set

abbrev pub day_match : Bool → Bool → Bool → Bool → Bool
day_match true true dom dow = true
day_match true false dom dow = dow
day_match false true dom dow = dom
day_match false false dom dow = dom || dow

abbrev pub minute : ℕ
minute = 60000000000

-- 366 days of minutes.
abbrev pub horizon : ℕ
horizon = 527040

abbrev pub day : ℕ
day = 86400000000000

module _ (cal : Calendar) where
  unfoldable pub matches : CronExpr → ℕ → Bool
  matches e t =
      has e.min (cal.minute_of t)
      && has e.hour (cal.hour_of t)
      && has e.month (cal.month_of t)
      && day_match e.dom_any e.dow_any (has e.dom (cal.day_of t)) (has e.dow (cal.weekday_of t))

  -- The loop over the minutes; the first argument is the number of those left.
  unfoldable pub search_minutes : ℕ → CronExpr → ℕ → ℕ → ℕ
  search_minutes zero e t local = t + day
  search_minutes (suc n) e t local =
      let later = search_minutes n e t (local + minute) in if matches e local then local else later

  abbrev pub first_minute : ℕ → ℕ
  first_minute t = (t + minute) / minute * minute

  unfoldable pub cron_next : CronExpr → ℕ → ℕ
  cron_next e t = search_minutes horizon e t (first_minute t)

unfoldable pub interval_next : ℕ → ℕ → ℕ
interval_next d t = t + d
