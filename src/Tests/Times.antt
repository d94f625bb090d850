-- ===== src/Tests/Times.antt =====
-- A cron schedule in a year of days of one kind.
use mirror_sync.Base.{ℕ, ◌≡◌, ◌<◌, ◌+◌, ◌/◌, ◌%◌, ◌⊎◌, true, [], ◌∷◌}
use mirror_sync.Scheduler.{Calendar, CronExpr, cron_next, first_minute, horizon, minute, day}
use mirror_sync.Scheduler.Next.{FirstDue, NoneDue, cron_next-first}

abbrev cal : Calendar
cal = record {
  minute_of = λ t. t / minute % 60;
  hour_of = λ t. 3;
  day_of = λ t. 1;
  month_of = λ t. 6;
  weekday_of = λ t. 1;
}

abbrev expr : CronExpr
expr = record {
  min = 2 ∷ [];
  hour = 3 ∷ [];
  dom = 1 ∷ [];
  month = 6 ∷ [];
  dow = 1 ∷ [];
  dom_any = true;
  dow_any = true;
}

cron_next-first_example :
    (30 < cron_next cal expr 30)
    × (((i : ℕ) × FirstDue cal expr horizon (first_minute cal 30) i (cron_next cal expr 30))
        ⊎ ((cron_next cal expr 30 ≡ 30 + day) × NoneDue cal expr horizon (first_minute cal 30)))
cron_next-first_example = cron_next-first cal expr 30
