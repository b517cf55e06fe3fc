-- ===== src/Schedules/Parser/Bounds.antt =====
-- The bounds of what the parser of crontab fields returns (celery/schedules.py).
use mathlib.Core.List.{reverse_aux}
use celery.Prelude.{
  ℕ, zero, suc, ◌+◌, ◌-◌, ◌≡◌, ◌<◌, ◌≤◌, Bool-cases, inl, inr, Option, Option-cases, none, some,
  List, [], ◌∷◌, ◌++◌, reverse, String, ◌==◌, ltb, leb, arith, if◌then◌else◌,
}
use celery.Schedules.Parser.{
  ℤ, pos, negsuc, Texts, Parsed, ok, parse_error, value_error, type_error, and_then, count_up, thin,
  every, yearmonth, weekday, check_number, named_number, read_number, expand_number, between,
  expand_range, expand_star, take_steps, parse_part, parse_parts, parse,
}

-- what is returned satisfies `P`
abbrev pub Returns : {A : Type 0} → (A → Type 0) → Parsed A → Type 0
Returns P (ok a) = P a
Returns P parse_error = Unit
Returns P value_error = Unit
Returns P type_error = Unit

pub Returns-and_then :
    {A B : Type 0} (P : A → Type 0) (Q : B → Type 0) (p : Parsed A) (f : A → Parsed B)
    → Returns P p
    → ((a : A) → P a → Returns Q (f a))
    → Returns Q (and_then p f)
unfolding and_then
Returns-and_then P Q (ok a) f h k = k a h
Returns-and_then P Q parse_error f h k = tt
Returns-and_then P Q value_error f h k = tt
Returns-and_then P Q type_error f h k = tt

module _ (max_ min_ : ℕ) where
  -- the numbers of the field
  abbrev pub IsWithin : List ℕ → Type 0
  IsWithin [] = Unit
  IsWithin (x ∷ l) = (min_ ≤ x) × (x < min_ + max_) × IsWithin l

  abbrev pub InField : ℕ → Type 0
  InField x = (min_ ≤ x) × (x < min_ + max_)

  append-IsWithin : (l m : List ℕ) → IsWithin l → IsWithin m → IsWithin (l ++ m)
  append-IsWithin [] m h k = k
  append-IsWithin (x ∷ l) m h k = (h.0, h.1, append-IsWithin l m h.2 k)

  reverse_aux-IsWithin : (l m : List ℕ) → IsWithin l → IsWithin m → IsWithin (reverse_aux l m)
  reverse_aux-IsWithin [] m h k = k
  reverse_aux-IsWithin (x ∷ l) m h k = reverse_aux-IsWithin l (x ∷ m) h.2 (h.0, h.1, k)

  reverse-IsWithin : (l : List ℕ) → IsWithin l → IsWithin (reverse l)
  reverse-IsWithin [] h = tt
  reverse-IsWithin (x ∷ l) h = reverse_aux-IsWithin l (x ∷ []) h.2 (h.0, h.1, tt)

  count_up-IsWithin :
      (start n : ℕ) → min_ ≤ start → start + n ≤ min_ + max_ → IsWithin (count_up start n)
  unfolding count_up
  count_up-IsWithin start zero h k = tt
  count_up-IsWithin start (suc n) h k =
      (h, omega arith, count_up-IsWithin (suc start) n (omega arith) (omega arith))

  thin-IsWithin : (k n : ℕ) (l : List ℕ) → IsWithin l → IsWithin (thin k n l)
  unfolding thin
  thin-IsWithin k n [] h = tt
  thin-IsWithin k zero (x ∷ l) h = (h.0, h.1, thin-IsWithin k k l h.2)
  thin-IsWithin k (suc n) (x ∷ l) h = thin-IsWithin k n l h.2

  every-IsWithin : (step : ℤ) (l : List ℕ) → IsWithin l → Returns IsWithin (every step l)
  unfolding every
  every-IsWithin (pos zero) l h = tt
  every-IsWithin (pos (suc k)) l h = thin-IsWithin k 0 l h
  every-IsWithin (negsuc k) l h = thin-IsWithin k 0 (reverse l) (reverse-IsWithin l h)

  pub check_number-InField : (i : ℕ) → Returns InField (check_number max_ min_ i)
  unfolding check_number
  check_number-InField i = elim (Bool-cases (leb (min_ + max_) i)) [
    | inl above ↦ rw above tt
    | inr upper ↦ elim (Bool-cases (ltb i min_)) [
      | inl below ↦ rw (upper, below) tt
      | inr lower ↦ rw (upper, lower) (ground arith, ground arith)
    ]
  ]

  between-IsWithin : (fr to : ℕ) → InField fr → InField to → IsWithin (between max_ min_ fr to)
  unfolding between
  between-IsWithin fr to f t = elim (Bool-cases (ltb to fr)) [
    | inl wraps ↦ rw wraps (
        append-IsWithin (count_up fr (min_ + max_ - fr)) (count_up min_ (to + 1 - min_))
          (count_up-IsWithin fr (min_ + max_ - fr) f.0 (omega (arith, f.1)))
          (count_up-IsWithin min_ (to + 1 - min_) (omega arith) (omega (arith, t.0, t.1))))
    | inr straight ↦ rw straight (count_up-IsWithin fr (to + 1 - fr) f.0 (ground (arith, f.1, t.1)))
  ]

  module _ (t : Texts) where
    weekday-InField :
        (s : String)
        → Returns InField
            (elim (weekday t s) [ some i ↦ check_number max_ min_ i | none ↦ value_error ])
    weekday-InField s = elim (Option-cases (weekday t s)) [
      | inl e ↦ rw e tt
      | inr (i, e) ↦ rw e (check_number-InField i)
    ]

    named_number-InField : (s : String) → Returns InField (named_number t max_ min_ s)
    unfolding named_number
    named_number-InField s = elim (Option-cases (yearmonth t s)) [
      | inl e ↦ rw (e, named_number) (weekday-InField s)
      | inr (i, e) ↦ rw (e, named_number) (check_number-InField i)
    ]

    read_number-InField :
        (s : String) (i : Option ℤ) → Returns InField (read_number t max_ min_ s i)
    unfolding read_number
    read_number-InField s (some (pos i)) = check_number-InField i
    read_number-InField s (some (negsuc i)) = tt
    read_number-InField s none = named_number-InField s

    expand_number-InField : (s : String) → Returns InField (expand_number t max_ min_ s)
    unfolding expand_number
    expand_number-InField s = elim (Bool-cases (t.is_negative s)) [
      | inl y ↦ rw y tt
      | inr n ↦ rw n (read_number-InField s (t.int s))
    ]

    expand_range-IsWithin : (a b : String) → Returns IsWithin (expand_range t max_ min_ a b)
    unfolding expand_range
    expand_range-IsWithin a b =
        Returns-and_then InField IsWithin (expand_number t max_ min_ a) _ (expand_number-InField a)
          (λ fr f.
            Returns-and_then InField IsWithin (expand_number t max_ min_ b) _
              (expand_number-InField b) (λ to g. between-IsWithin fr to f g))

    expand_star-IsWithin : IsWithin (expand_star max_ min_)
    unfolding expand_star
    expand_star-IsWithin = count_up-IsWithin min_ max_ (omega arith) (omega arith)

    sliced-IsWithin :
        (step : Option ℤ) (l : List ℕ)
        → IsWithin l
        → Returns IsWithin (elim step [ none ↦ value_error | some k ↦ every k l ])
    sliced-IsWithin none l h = tt
    sliced-IsWithin (some k) l h = every-IsWithin k l h

    take_steps-IsWithin :
        (s : Option String) (l : Parsed (List ℕ))
        → Returns IsWithin l
        → Returns IsWithin (take_steps t max_ min_ s l)
    unfolding take_steps
    take_steps-IsWithin none l h = tt
    take_steps-IsWithin (some s) l h = elim (Bool-cases (s == "")) [
      | inl y ↦ rw y tt
      | inr n ↦
          rw n (Returns-and_then IsWithin IsWithin l _ h (λ ns w. sliced-IsWithin (t.int s) ns w))
    ]

    star-IsWithin :
        (part : String)
        → Returns IsWithin (
            if t.star part
            then ok (expand_star max_ min_)
            else and_then (expand_number t max_ min_ part) (λ fr. ok (fr ∷ [])))
    star-IsWithin part = elim (Bool-cases (t.star part)) [
      | inl y ↦ rw y expand_star-IsWithin
      | inr n ↦ rw n (
          Returns-and_then InField IsWithin (expand_number t max_ min_ part) (λ fr. ok (fr ∷ []))
            (expand_number-InField part) (λ fr f. (f.0, f.1, tt)))
    ]

    parse_part-IsWithin : (part : String) → Returns IsWithin (parse_part t max_ min_ part)
    unfolding parse_part
    parse_part-IsWithin part = elim (Option-cases (t.range_steps part)) [
      | inr ((a, b, steps), e) ↦
          rw (e, parse_part)
            (take_steps-IsWithin steps (expand_range t max_ min_ a b) (expand_range-IsWithin a b))
      | inl e ↦ elim (Option-cases (t.range part)) [
        | inr ((a, b), f) ↦ rw (e, f, parse_part) (expand_range-IsWithin a b)
        | inl f ↦ elim (Option-cases (t.star_steps part)) [
          | inr (steps, g) ↦
              rw (e, f, g, parse_part)
                (take_steps-IsWithin steps (ok (expand_star max_ min_)) expand_star-IsWithin)
          | inl g ↦ rw (e, f, g, parse_part) (star-IsWithin part)
        ]
      ]
    ]

    parse_parts-IsWithin :
        (parts : List String) (acc : List ℕ)
        → IsWithin acc
        → Returns IsWithin (parse_parts t max_ min_ parts acc)
    unfolding parse_parts
    parse_parts-IsWithin [] acc h = h
    parse_parts-IsWithin (part ∷ parts) acc h = elim (Bool-cases (part == "")) [
      | inl y ↦ rw y tt
      | inr n ↦ rw n (
          Returns-and_then IsWithin IsWithin (parse_part t max_ min_ part) _
            (parse_part-IsWithin part)
            (λ l w. parse_parts-IsWithin parts (acc ++ l) (append-IsWithin acc l h w)))
    ]

    pub parse-Returns : (spec : String) → Returns IsWithin (parse t max_ min_ spec)
    unfolding parse
    parse-Returns spec = parse_parts-IsWithin (t.split spec) [] tt

    -- All the numbers that the parser returns for a field are at least `min_` and below
    -- `min_ + max_`.
    pub parse-IsWithin : (spec : String) (l : List ℕ) → parse t max_ min_ spec ≡ ok l → IsWithin l
    parse-IsWithin spec l e = rw e at (parse-Returns spec)
