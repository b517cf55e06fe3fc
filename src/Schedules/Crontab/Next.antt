-- ===== src/Schedules/Crontab/Next.antt =====
-- The time that `crontab.remaining_delta` chooses (celery/schedules.py).
use celery.Prelude.{
  ℕ, ◌+◌, ◌⊎◌, sym, ◌%◌, ◌≡◌, ◌<◌, refl, ap, ◌∙◌, Bool, Bool-cases, true, false, ◌&&◌, inl, inr,
  List, [], ◌∷◌, length, ltb, eqb, arith, if◌then◌else◌,
}
use celery.Schedules.Parser.{ok, and_then}
use celery.Schedules.Parser.Ranges.{is_in}
use celery.Schedules.Crontab.{
  Crontab, Moment, Delta, this_hour, today, weekly, to_next, least, above, or_all, and_below,
  execute_this_date, another_day, another_hour, remaining_delta,
}
use celery.Schedules.Crontab.Fields.{IsValid}
use celery.Schedules.Parser.Bounds.{IsWithin}
use celery.Schedules.Crontab.Chosen.{is_day, is_later, IsFirst, days_to, IsEarliest, IsChosen}
use celery.Schedules.Crontab.Extremes.{
  least_lem, greatest_lem, is_in-above, is_in-length, is_in_same,
}

or_all-length : (l m : List ℕ) → 0 < length m → 0 < length (or_all l m)
unfolding or_all
or_all-length [] m h = h
or_all-length (x ∷ l) m h = omega arith

-- `l or m`, where `l` has what is above `x` in `m`
or_all-split :
    (x : ℕ) (m l : List ℕ)
    → l ≡ above x m
    → ((y : ℕ) → is_in y (or_all l m) ≡ (is_in y m && ltb x y))
      ⊎ (((y : ℕ) → is_in y (or_all l m) ≡ is_in y m) × ((y : ℕ) → (is_in y m && ltb x y) ≡ false))
unfolding or_all
or_all-split x m [] e = inr (λ y. refl, λ y. sym (is_in-above x y m) ∙ ap (λ l. is_in y l) (sym e))
or_all-split x m (z ∷ l) e = inl (λ y. ap (λ k. is_in y k) e ∙ is_in-above x y m)

IsWithin-is_in :
    (max_ min_ x : ℕ) (l : List ℕ) → IsWithin max_ min_ l → is_in x l ≡ true → x < min_ + max_
IsWithin-is_in max_ min_ x [] w h = cc
IsWithin-is_in max_ min_ x (y ∷ l) w h = ground (arith, IsWithin-is_in max_ min_ x l w.2)

module _ (c : Crontab) (last : Moment) where
  and_below-lem :
      (b : Bool) (x : ℕ) (l : List ℕ)
      → 0 < length l
      → (r : Bool) × (and_below b x l ≡ ok r)
        × ((r ≡ true) → (b ≡ true) × (0 < length (above x l)))
        × ((r ≡ false) → (y : ℕ) → (b && is_in y l && ltb x y) ≡ false)
  unfolding and_below and_then
  and_below-lem false x l h = (false, refl, λ e. cc, λ e y. refl)
  and_below-lem true x l h =
      let (n, e, i, b) = greatest_lem l h in
      (
        ltb x n,
        rw e refl,
        λ t. (refl, is_in-length n (above x l) (is_in-above x n l ∙ rw (i, t) refl)),
        λ f y. ground (arith, b y),
      )

  -- a later minute of this hour
  this_hour-IsFirst :
      (m : ℕ)
      → (is_day c last && is_in last.hour c.hour) ≡ true
      → is_in m (above last.minute c.minute) ≡ true
      → ((x : ℕ) → (is_in x (above last.minute c.minute) && ltb x m) ≡ false)
      → IsFirst c last last.hour m
  this_hour-IsFirst m t i b = (
    ground (arith, is_in-above last.minute m c.minute),
    λ k n. ground (arith, b n, is_in-above last.minute n c.minute, is_in_same k last.hour c.hour),
  )

  -- a later hour of this day
  today-IsFirst :
      (h m : ℕ)
      → is_day c last ≡ true
      → is_in h (above last.hour c.hour) ≡ true
      → ((x : ℕ) → (is_in x (above last.hour c.hour) && ltb x h) ≡ false)
      → is_in m c.minute ≡ true
      → ((x : ℕ) → (is_in x c.minute && ltb x m) ≡ false)
      → ((y : ℕ)
          → ((is_day c last && is_in last.hour c.hour) && is_in y c.minute && ltb last.minute y)
            ≡ false)
      → IsFirst c last h m
  today-IsFirst h m t i b j d none = (
    ground (arith, is_in-above last.hour h c.hour),
    λ k n.
        ground
          (arith, b k, d n, none n, is_in-above last.hour k c.hour, is_in_same k last.hour c.hour),
  )

  nothing_later :
      ((y : ℕ)
        → ((is_day c last && is_in last.hour c.hour) && is_in y c.minute && ltb last.minute y)
          ≡ false)
      → ((y : ℕ) → (is_day c last && is_in y c.hour && ltb last.hour y) ≡ false)
      → (k n : ℕ) → is_later c last k n ≡ false
  nothing_later none none_today k n =
      ground (arith, none n, none_today k, is_in_same k last.hour c.hour)

  next_weekday :
      IsWithin 7 0 c.day_of_week
      → last.weekday < 7
      → 0 < length c.day_of_week
      → (d : ℕ) × (least (or_all (above last.weekday c.day_of_week) c.day_of_week) ≡ ok d)
        × (is_in d c.day_of_week ≡ true)
        × ((x : ℕ) → (is_in x c.day_of_week && ltb (days_to last x) (days_to last d)) ≡ false)
  next_weekday within now days =
      let ws = c.day_of_week in
      let (d, e, i, b) =
        least_lem (or_all (above last.weekday ws) ws)
          (or_all-length (above last.weekday ws) ws days) in
      elim (or_all-split last.weekday ws (above last.weekday ws) refl) [
        | inl later ↦
            let both : (is_in d ws && ltb last.weekday d) ≡ true = sym (later d) ∙ i in
            let key : is_in d ws ≡ true = ground arith in
            (d, e, key, λ x. ground (arith, later x, b x, IsWithin-is_in 7 0 d ws within key))
        | inr (all, none) ↦
            let key : is_in d ws ≡ true = sym (all d) ∙ i in
            (d, e, key, λ x. ground (arith, all x, b x, none x, none d))
      ]

  earliest :
      (h m : ℕ)
      → is_in h c.hour ≡ true
      → ((x : ℕ) → (is_in x c.hour && ltb x h) ≡ false)
      → is_in m c.minute ≡ true
      → ((x : ℕ) → (is_in x c.minute && ltb x m) ≡ false)
      → IsEarliest c h m
  earliest h m i b j d = (ground arith, λ k n. ground (arith, b k, d n))

  another_day-IsChosen :
      (m : ℕ)
      → IsWithin 7 0 c.day_of_week
      → last.weekday < 7
      → 0 < length c.hour
      → 0 < length c.day_of_week
      → is_in m c.minute ≡ true
      → ((x : ℕ) → (is_in x c.minute && ltb x m) ≡ false)
      → ((k n : ℕ) → is_later c last k n ≡ false)
      → (d : Delta) × (another_day c last m ≡ ok d) × IsChosen c last d
  unfolding another_day and_then
  another_day-IsChosen m within now hours days j n none =
      let (h, e, i, b) = least_lem c.hour hours in
      elim (Bool-cases c.all_days) [
        | inr f ↦ (to_next h m, rw (e, f) refl, (none, earliest h m i b j n))
        | inl t ↦
            let (w, g, k, first) = next_weekday within now days in
            (
              weekly (if eqb w last.weekday then 1 else 0) ((w + 6) % 7) h m,
              rw e (simp (t, g) refl),
              (none, earliest h m i b j n, (w, k, first, refl, refl)),
            )
      ]

  another_hour-IsChosen :
      (m : ℕ)
      → IsWithin 7 0 c.day_of_week
      → last.weekday < 7
      → 0 < length c.hour
      → 0 < length c.day_of_week
      → is_in m c.minute ≡ true
      → ((x : ℕ) → (is_in x c.minute && ltb x m) ≡ false)
      → ((y : ℕ)
          → ((is_day c last && is_in last.hour c.hour) && is_in y c.minute && ltb last.minute y)
            ≡ false)
      → (d : Delta) × (another_hour c last m ≡ ok d) × IsChosen c last d
  unfolding another_hour and_then execute_this_date is_day
  another_hour-IsChosen m within now hours days j d none =
      let (r, e, yes_today, not_today) = and_below-lem (is_day c last) last.hour c.hour hours in
      elim (Bool-cases r) [
        | inl t ↦
            let (h, f, i, b) = least_lem (above last.hour c.hour) (yes_today t).1 in
            (today h m, rw (e, t, f) refl, today-IsFirst h m (yes_today t).0 i b j d none)
        | inr n ↦
            let (x, g, chosen) =
              another_day-IsChosen m within now hours days j d (nothing_later none (not_today n)) in
            (x, rw (e, n) g, chosen)
      ]

-- The next run of a valid crontab schedule whose minutes, hours and weekdays are not empty: finding it
-- does not raise, and it is the first time at which the schedule is due on the day of the last run.
-- Where no such time is left on that day, it is at the earliest time of another day, and for a schedule
-- that allows all days of the month and all months that day is the first allowed weekday.
pub remaining_delta-IsChosen :
    (c : Crontab) (last : Moment)
    → IsValid c
    → last.weekday < 7
    → 0 < length c.minute
    → 0 < length c.hour
    → 0 < length c.day_of_week
    → (d : Delta) × (remaining_delta c last ≡ ok d) × IsChosen c last d
unfolding remaining_delta and_then execute_this_date is_day
remaining_delta-IsChosen c last valid now minutes hours days =
    let (r, e, in_hour, not_in_hour) =
      and_below-lem c last (is_day c last && is_in last.hour c.hour) last.minute c.minute minutes in
    elim (Bool-cases r) [
      | inl t ↦
          let (m, f, i, b) = least_lem (above last.minute c.minute) (in_hour t).1 in
          (this_hour m, rw (e, t, f) refl, this_hour-IsFirst c last m (in_hour t).0 i b)
      | inr n ↦
          let (m, f, i, b) = least_lem c.minute minutes in
          let (x, g, chosen) =
            another_hour-IsChosen c last m valid.weekdays now hours days i b (not_in_hour n) in
          (x, rw (e, n, f) g, chosen)
    ]
