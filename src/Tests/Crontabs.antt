-- ===== src/Tests/Crontabs.antt =====
-- celery/schedules.py, `crontab_parser` and `crontab`, on a small reader of texts.
use celery.Prelude.{
  ℕ, ◌+◌, ◌≡◌, ◌==◌, refl, arith, true, ◌&&◌, ◌||◌, none, some, [], ◌∷◌, ltb, leb, if◌then◌else◌,
}
use celery.Schedules.Parser.{
  pos, Texts, ok, parse_error, value_error, and_then, count_up, thin, every, check_number,
  named_number, read_number, expand_number, between, expand_range, expand_star, take_steps,
  parse_part, parse_parts, parse,
}
use celery.Schedules.Parser.Ranges.{is_in, is_in-between}
use celery.Schedules.Crontab.{
  text, numbers, Crontab, Moment, Delta, this_hour, today, weekly, init, check_all, expand_cronspec,
  is_star, least, greatest, above, or_all, and_below, execute_this_date, another_day, another_hour,
  remaining_delta,
}
use celery.Schedules.Crontab.Fields.{IsValid, init-IsValid}
use celery.Schedules.Crontab.Chosen.{IsChosen}
use celery.Schedules.Crontab.Next.{remaining_delta-IsChosen}

program : Unit {0}
unfolding and_then count_up thin every check_number named_number read_number expand_number between
    expand_range expand_star take_steps parse_part parse_parts parse init check_all expand_cronspec
    is_star least greatest above or_all and_below execute_this_date another_day another_hour
    remaining_delta
program = tt

abbrev reader : Texts
reader = record {
  split = λ s. if s == "22-3,*/12" then "22-3" ∷ "*/12" ∷ [] else s ∷ [];
  range_steps = λ s. none;
  range = λ s. if s == "22-3" then some ("22", "3") else none;
  star_steps = λ s. if s == "*/12" then some (some "12") else none;
  star = λ s. s == "*";
  is_negative = λ s. s == "-1";
  int = λ s.
      if s == "22"
      then some (pos 22)
      else if s == "3"
      then some (pos 3)
      else if s == "12"
      then some (pos 12)
      else none;
  abbreviation = λ s. s;
}

-- around midnight, and each twelve hours
parse-wraps : parse reader 24 0 "22-3,*/12" ≡ ok (22 ∷ 23 ∷ 0 ∷ 1 ∷ 2 ∷ 3 ∷ 0 ∷ 12 ∷ [])
unfolding program
parse-wraps = refl

parse-negative : parse reader 24 0 "-1" ≡ parse_error
unfolding program
parse-negative = refl

-- hour 22 is no weekday
parse-outside : parse reader 7 0 "22" ≡ value_error
unfolding program
parse-outside = refl

-- at 8:15, 8:45, 17:15 and 17:45 on Mondays and Fridays
abbrev office : Crontab
office = record {
  minute = 15 ∷ 45 ∷ [];
  hour = 8 ∷ 17 ∷ [];
  day_of_week = 1 ∷ 5 ∷ [];
  day_of_month = count_up 1 31;
  month_of_year = count_up 1 12;
  all_days = true;
}

abbrev friday : ℕ → ℕ → Moment
friday h m = record { month = 3; day = 14; weekday = 5; hour = h; minute = m }

init-office :
    init reader
      (numbers (pos 15 ∷ pos 45 ∷ []))
      (numbers (pos 8 ∷ pos 17 ∷ []))
      (numbers (pos 1 ∷ pos 5 ∷ []))
      (text "*")
      (text "*")
    ≡ ok office
unfolding program
init-office = refl

office-this_hour : remaining_delta office (friday 8 15) ≡ ok (this_hour 45)
unfolding program
office-this_hour = refl

office-today : remaining_delta office (friday 8 45) ≡ ok (today 17 15)
unfolding program
office-today = refl

-- the Monday after
office-weekly : remaining_delta office (friday 17 45) ≡ ok (weekly 0 0 8 15)
unfolding program
office-weekly = refl

init-IsValid_example : IsValid office
init-IsValid_example =
    init-IsValid reader (numbers (pos 15 ∷ pos 45 ∷ [])) (numbers (pos 8 ∷ pos 17 ∷ []))
      (numbers (pos 1 ∷ pos 5 ∷ [])) (text "*") (text "*") office init-office

remaining_delta-IsChosen_example :
    (d : Delta) × (remaining_delta office (friday 8 45) ≡ ok d) × IsChosen office (friday 8 45) d
remaining_delta-IsChosen_example =
    remaining_delta-IsChosen office (friday 8 45)
      (init-IsValid reader (numbers (pos 15 ∷ pos 45 ∷ [])) (numbers (pos 8 ∷ pos 17 ∷ []))
        (numbers (pos 1 ∷ pos 5 ∷ [])) (text "*") (text "*") office init-office)
      (omega arith) (omega arith) (omega arith) (omega arith)

is_in-between_example : is_in 1 (between 24 0 22 3) ≡ (
    if ltb 3 22 then (leb 22 1 && ltb 1 (0 + 24)) || (leb 0 1 && leb 1 3) else leb 22 1 && leb 1 3)
is_in-between_example = is_in-between 24 0 22 3 1 (omega arith) (omega arith)
