-- ===== src/Schedules/Crontab/Fields.antt =====
-- The fields of a `crontab` that was made (celery/schedules.py, `crontab.__init__`).
use celery.Prelude.{ℕ, ◌≡◌, refl, List, [], ◌∷◌, map, String, arith}
use celery.Schedules.Parser.{
  ℤ, pos, negsuc, Texts, Parsed, ok, and_then, check_number, parse, parse_error, value_error,
  type_error,
}
use celery.Schedules.Parser.Bounds.{
  IsWithin, InField, Returns, Returns-and_then, check_number-InField, parse-IsWithin, parse-Returns,
}
use celery.Schedules.Crontab.{
  Cronspec, number, text, numbers, other, check_all, expand_cronspec, Crontab, init,
}

module _ (max_ min_ : ℕ) where
  check_all-IsWithin : (l : List ℤ) → Returns (IsWithin max_ min_) (check_all max_ min_ l)
  unfolding check_all
  check_all-IsWithin [] = tt
  check_all-IsWithin (negsuc i ∷ l) = tt
  check_all-IsWithin (pos i ∷ l) =
      Returns-and_then (InField max_ min_) (IsWithin max_ min_) (check_number max_ min_ i) _
        (check_number-InField max_ min_ i)
        (λ n f.
          Returns-and_then (IsWithin max_ min_) (IsWithin max_ min_) (check_all max_ min_ l) _
            (check_all-IsWithin l) (λ ns w. (f.0, f.1, w)))

  check_number-ok : (i : ℕ) → InField max_ min_ i → check_number max_ min_ i ≡ ok i
  unfolding check_number
  check_number-ok i f = ground (arith, f.0, f.1)

  check_all-ok : (l : List ℕ) → IsWithin max_ min_ l → check_all max_ min_ (map pos l) ≡ ok l
  unfolding check_all and_then
  check_all-ok [] w = refl
  check_all-ok (x ∷ l) w = rw (check_number-ok x (w.0, w.1), check_all-ok l w.2) refl

  and_then-ok :
      (p : Parsed (List ℕ)) (f : List ℕ → Parsed (List ℕ))
      → ((l : List ℕ) → p ≡ ok l → f l ≡ ok l)
      → and_then p f ≡ p
  unfolding and_then
  and_then-ok (ok l) f h = h l refl
  and_then-ok parse_error f h = refl
  and_then-ok value_error f h = refl
  and_then-ok type_error f h = refl

  -- the test of the numbers never fails on what the parser returns
  expand_cronspec-text :
      (t : Texts) (s : String) → expand_cronspec max_ min_ t (text s) ≡ parse t max_ min_ s
  unfolding expand_cronspec
  expand_cronspec-text t s =
      and_then-ok (parse t max_ min_ s) (λ l. check_all max_ min_ (map pos l))
        (λ l e. check_all-ok l (parse-IsWithin max_ min_ t s l e))

  pub expand_cronspec-IsWithin :
      (t : Texts) (s : Cronspec) → Returns (IsWithin max_ min_) (expand_cronspec max_ min_ t s)
  unfolding expand_cronspec
  expand_cronspec-IsWithin t (number i) = check_all-IsWithin (i ∷ [])
  expand_cronspec-IsWithin t (text s) = rw (expand_cronspec-text t s) (parse-Returns max_ min_ t s)
  expand_cronspec-IsWithin t (numbers l) = check_all-IsWithin l
  expand_cronspec-IsWithin t other = tt

-- each field has only numbers of its range
pub record IsValid (c : Crontab) : Type 0 where
  pub minutes : IsWithin 60 0 c.minute
  pub hours : IsWithin 24 0 c.hour
  pub weekdays : IsWithin 7 0 c.day_of_week
  pub days : IsWithin 31 1 c.day_of_month
  pub months : IsWithin 12 1 c.month_of_year

init-Returns :
    (t : Texts) (minute hour day_of_week day_of_month month_of_year : Cronspec)
    → Returns IsValid (init t minute hour day_of_week day_of_month month_of_year)
unfolding init
init-Returns t minute hour day_of_week day_of_month month_of_year =
    Returns-and_then (IsWithin 24 0) IsValid _ _ (expand_cronspec-IsWithin 24 0 t hour) (λ hs h.
      Returns-and_then (IsWithin 60 0) IsValid _ _ (expand_cronspec-IsWithin 60 0 t minute) (λ ms m.
        Returns-and_then (IsWithin 7 0) IsValid _ _ (expand_cronspec-IsWithin 7 0 t day_of_week)
          (λ ws w.
            Returns-and_then (IsWithin 31 1) IsValid _ _
              (expand_cronspec-IsWithin 31 1 t day_of_month)
              (λ ds d.
                Returns-and_then (IsWithin 12 1) IsValid _ _
                  (expand_cronspec-IsWithin 12 1 t month_of_year)
                  (λ ys y. record {
                    minutes = m;
                    hours = h;
                    weekdays = w;
                    days = d;
                    months = y;
                  })))))

-- A `crontab` that is made has only minutes, hours, weekdays, days and months that exist, whatever
-- texts or numbers are given for them.
pub init-IsValid :
    (t : Texts) (minute hour day_of_week day_of_month month_of_year : Cronspec) (c : Crontab)
    → init t minute hour day_of_week day_of_month month_of_year ≡ ok c
    → IsValid c
init-IsValid t minute hour day_of_week day_of_month month_of_year c e =
    rw e at (init-Returns t minute hour day_of_week day_of_month month_of_year)
