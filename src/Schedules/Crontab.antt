-- ===== src/Schedules/Crontab.antt =====
-- celery/schedules.py, class `crontab`: the expansion of its fields, and `remaining_delta`.
pub mod Fields
pub mod Extremes
pub mod Chosen
pub mod Next
use celery.Prelude.{
  ℕ, zero, suc, ◌+◌, ◌%◌, String, ◌==◌, Bool, true, false, ◌&&◌, List, [], ◌∷◌, map, min, max, ltb,
  eqb, if◌then◌else◌,
}
use celery.Schedules.Parser.{
  ℤ, pos, negsuc, Texts, Parsed, ok, value_error, type_error, and_then, check_number, parse,
}
use celery.Schedules.Parser.Ranges.{is_in}

-- the type of a field: `int`, `str`, a set or an iterable of integers, or anything else
pub data Cronspec : Type 0 where
  number : ℤ → Cronspec
  text : String → Cronspec
  numbers : List ℤ → Cronspec
  other : Cronspec

module _ (max_ min_ : ℕ) where
  -- the loop that tests the numbers
  unfoldable pub check_all : List ℤ → Parsed (List ℕ)
  check_all [] = ok []
  check_all (negsuc i ∷ l) = value_error
  check_all (pos i ∷ l) =
      and_then (check_number max_ min_ i) (λ n. and_then (check_all l) (λ ns. ok (n ∷ ns)))

  unfoldable pub expand_cronspec : Texts → Cronspec → Parsed (List ℕ)
  expand_cronspec t (number i) = check_all (i ∷ [])
  expand_cronspec t (text s) = and_then (parse t max_ min_ s) (λ l. check_all (map pos l))
  expand_cronspec t (numbers l) = check_all l
  expand_cronspec t other = type_error

-- `_orig_day_of_month == '*'`
unfoldable pub is_star : Cronspec → Bool
is_star (text s) = s == "*"
is_star _ = false

pub record Crontab : Type 0 where
  pub minute : List ℕ
  pub hour : List ℕ
  pub day_of_week : List ℕ
  pub day_of_month : List ℕ
  pub month_of_year : List ℕ
  -- `all_dom_moy`
  pub all_days : Bool

unfoldable pub init : Texts → Cronspec → Cronspec → Cronspec → Cronspec → Cronspec → Parsed Crontab
init t minute hour day_of_week day_of_month month_of_year =
    and_then (expand_cronspec 24 0 t hour) (λ hs. and_then (expand_cronspec 60 0 t minute) (λ ms.
      and_then (expand_cronspec 7 0 t day_of_week) (λ ws.
        and_then (expand_cronspec 31 1 t day_of_month) (λ ds.
          and_then (expand_cronspec 12 1 t month_of_year) (λ ys. ok (record {
            minute = ms;
            hour = hs;
            day_of_week = ws;
            day_of_month = ds;
            month_of_year = ys;
            all_days = is_star day_of_month && is_star month_of_year;
          }))))))

-- the fields of `last_run_at` in the schedule's time zone; Sunday is day 0
pub record Moment : Type 0 where
  pub month : ℕ
  pub day : ℕ
  pub weekday : ℕ
  pub hour : ℕ
  pub minute : ℕ

-- The `ffwd` that is returned: later in this hour, later on this day, on a weekday after some weeks,
-- or what `_delta_to_next` finds for an hour and a minute.
pub data Delta : Type 0 where
  this_hour : ℕ → Delta
  today : ℕ → ℕ → Delta
  weekly : ℕ → ℕ → ℕ → ℕ → Delta
  to_next : ℕ → ℕ → Delta

-- `min` and `max`, which raise `ValueError` where there is nothing
unfoldable pub least : List ℕ → Parsed ℕ
least [] = value_error
least (x ∷ []) = ok x
least (x ∷ y ∷ l) = and_then (least (y ∷ l)) (λ n. ok (min x n))

unfoldable pub greatest : List ℕ → Parsed ℕ
greatest [] = value_error
greatest (x ∷ []) = ok x
greatest (x ∷ y ∷ l) = and_then (greatest (y ∷ l)) (λ n. ok (max x n))

-- `[n for n in l if n > x]`
unfoldable pub above : ℕ → List ℕ → List ℕ
above x [] = []
above x (n ∷ l) = let rest = above x l in if ltb x n then n ∷ rest else rest

-- `l or m`
unfoldable pub or_all : List ℕ → List ℕ → List ℕ
or_all [] m = m
or_all (x ∷ l) m = x ∷ l

-- `test and x < max(l)`
unfoldable pub and_below : Bool → ℕ → List ℕ → Parsed Bool
and_below false x l = ok false
and_below true x l = and_then (greatest l) (λ m. ok (ltb x m))

module _ (c : Crontab) (last : Moment) where
  unfoldable pub execute_this_date : Bool
  execute_this_date =
      is_in last.month c.month_of_year
      && is_in last.day c.day_of_month
      && is_in last.weekday c.day_of_week

  unfoldable pub another_day : ℕ → Parsed Delta
  another_day next_minute = and_then (least c.hour) (λ next_hour.
      if c.all_days
      then and_then (least (or_all (above last.weekday c.day_of_week) c.day_of_week)) (λ next_day.
        ok (
          weekly (if eqb next_day last.weekday then 1 else 0) ((next_day + 6) % 7) next_hour
            next_minute))
      else ok (to_next next_hour next_minute))

  unfoldable pub another_hour : ℕ → Parsed Delta
  another_hour next_minute =
      and_then (and_below execute_this_date last.hour c.hour) (λ execute_today.
        if execute_today
        then and_then (least (above last.hour c.hour))
            (λ next_hour. ok (today next_hour next_minute))
        else another_day next_minute)

  unfoldable pub remaining_delta : Parsed Delta
  remaining_delta =
      and_then (and_below (execute_this_date && is_in last.hour c.hour) last.minute c.minute)
        (λ execute_this_hour.
          if execute_this_hour
          then and_then (least (above last.minute c.minute))
              (λ next_minute. ok (this_hour next_minute))
          else and_then (least c.minute) another_hour)
