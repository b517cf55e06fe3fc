-- ===== src/Schedules/Crontab/Chosen.antt =====
-- What the next run of a crontab schedule is to be (celery/schedules.py).
use celery.Prelude.{ℕ, ◌+◌, ◌-◌, ◌%◌, ◌≡◌, Bool, true, false, ◌&&◌, ◌||◌, ltb, eqb, if◌then◌else◌}
use celery.Schedules.Parser.Ranges.{is_in}
use celery.Schedules.Crontab.{Crontab, Moment, Delta, this_hour, today, weekly, to_next}

-- the hour and the minute match the fields
abbrev pub matches : Crontab → ℕ → ℕ → Bool
matches c h m = is_in h c.hour && is_in m c.minute

-- the first time of a day is before the second one
abbrev pub before : ℕ → ℕ → ℕ → ℕ → Bool
before h m k n = ltb h k || (eqb h k && ltb m n)

-- the month, the day and the weekday of the last run match the fields
unfoldable pub is_day : Crontab → Moment → Bool
is_day c last =
    is_in last.month c.month_of_year
    && is_in last.day c.day_of_month
    && is_in last.weekday c.day_of_week

-- a time of the day at which the schedule is due after the last run
abbrev pub is_later : Crontab → Moment → ℕ → ℕ → Bool
is_later c last h m = is_day c last && matches c h m && before last.hour last.minute h m

-- the first time at which the schedule is due on the day of the last run
abbrev pub IsFirst : Crontab → Moment → ℕ → ℕ → Type 0
IsFirst c last h m =
    (is_later c last h m ≡ true) × ((k n : ℕ) → (is_later c last k n && before k n h m) ≡ false)

-- the days from the last run to the next weekday `d`, at least one
abbrev pub days_to : Moment → ℕ → ℕ
days_to last d = if ltb last.weekday d then d - last.weekday else d + 7 - last.weekday

-- no hour and no minute of the fields is before these
abbrev pub IsEarliest : Crontab → ℕ → ℕ → Type 0
IsEarliest c h m = (matches c h m ≡ true) × ((k n : ℕ) → (matches c k n && before k n h m) ≡ false)

-- the weekday that comes first after the last run; `ffwd` counts weekdays from Monday on
abbrev pub IsNextWeekday : Crontab → Moment → ℕ → ℕ → Type 0
IsNextWeekday c last weeks weekday =
    (d : ℕ) × (is_in d c.day_of_week ≡ true)
    × ((x : ℕ) → (is_in x c.day_of_week && ltb (days_to last x) (days_to last d)) ≡ false)
    × (weekday ≡ (d + 6) % 7)
    × (weeks ≡ (if eqb d last.weekday then 1 else 0))

-- What is chosen: the first time that is left on the day of the last run. Where no time is left on
-- that day, it is the earliest time of another day.
abbrev pub IsChosen : Crontab → Moment → Delta → Type 0
IsChosen c last (this_hour m) = IsFirst c last last.hour m
IsChosen c last (today h m) = IsFirst c last h m
IsChosen c last (weekly weeks weekday h m) =
    ((k n : ℕ) → is_later c last k n ≡ false)
    × IsEarliest c h m
    × IsNextWeekday c last weeks weekday
IsChosen c last (to_next h m) = ((k n : ℕ) → is_later c last k n ≡ false) × IsEarliest c h m
