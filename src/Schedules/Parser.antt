-- ===== src/Schedules/Parser.antt =====
-- celery/schedules.py, class `crontab_parser`, with `weekday` and `yearmonth` of celery/utils/time.py.
-- Python's `re`, `int` and the methods of strings are a parameter.
pub mod Ranges
pub mod Bounds
use mathlib.Core.Logic.{ite}
use celery.Prelude.{
  ℕ, zero, suc, ◌+◌, ◌-◌, String, ◌==◌, string_discrete, Bool, true, false, ◌||◌, Option, none,
  some, List, [], ◌∷◌, ◌++◌, reverse, ltb, leb, if◌then◌else◌,
}
use celery.Prelude.Dict
use celery.Prelude.Dict.{Dict}

-- the integers that Python's `int` reads
pub data ℤ : Type 0 where
  pos : ℕ → ℤ
  negsuc : ℕ → ℤ

-- what the parser asks of Python's library
pub record Texts : Type 0 where
  -- `spec.split(',')`
  pub split : String → List String
  -- the groups where one of `pats` matches the start of the text
  pub range_steps : String → Option (String × String × Option String)
  pub range : String → Option (String × String)
  pub star_steps : String → Option (Option String)
  pub star : String → Bool
  -- `s[0] == '-'`
  pub is_negative : String → Bool
  -- `int(s)`, none for `ValueError`
  pub int : String → Option ℤ
  -- `name[0:3].lower()`
  pub abbreviation : String → String

pub data Parsed (A : Type 0) : Type 0 where
  ok : A → Parsed A
  parse_error : Parsed A
  value_error : Parsed A
  type_error : Parsed A

unfoldable pub and_then : {A B : Type 0} → Parsed A → (A → Parsed B) → Parsed B
and_then (ok a) f = f a
and_then parse_error f = parse_error
and_then value_error f = value_error
and_then type_error f = type_error

-- `dict(zip(names, range(n, ...)))`
abbrev pub number_from : ℕ → List String → Dict String ℕ
number_from n [] = []
number_from n (name ∷ names) = (name, n) ∷ number_from (suc n) names

abbrev pub weekdays : Dict String ℕ
weekdays = number_from 0 ("sun" ∷ "mon" ∷ "tue" ∷ "wed" ∷ "thu" ∷ "fri" ∷ "sat" ∷ [])

abbrev pub yearmonths : Dict String ℕ
yearmonths = number_from 1 (
    "jan" ∷ "feb" ∷ "mar" ∷ "apr" ∷ "may" ∷ "jun" ∷ "jul" ∷ "aug" ∷ "sep" ∷ "oct" ∷ "nov" ∷ "dec"
    ∷ [])

-- `list(range(from, from + n))`
unfoldable pub count_up : ℕ → ℕ → List ℕ
count_up start zero = []
count_up start (suc n) = start ∷ count_up (suc start) n

-- every `k + 1`th number, after `n` numbers that are left out
unfoldable pub thin : ℕ → ℕ → List ℕ → List ℕ
thin k n [] = []
thin k zero (x ∷ l) = x ∷ thin k k l
thin k (suc n) (x ∷ l) = thin k n l

-- `l[::step]`
unfoldable pub every : ℤ → List ℕ → Parsed (List ℕ)
every (pos zero) l = value_error
every (pos (suc k)) l = ok (thin k 0 l)
every (negsuc k) l = ok (thin k 0 (reverse l))

-- none for the `KeyError`
unfoldable pub weekday : Texts → String → Option ℕ
weekday t name = Dict.get string_discrete (t.abbreviation name) weekdays

unfoldable pub yearmonth : Texts → String → Option ℕ
yearmonth t name = Dict.get string_discrete (t.abbreviation name) yearmonths

module _ (max_ min_ : ℕ) where
  -- the tests of `_expand_number` on the number itself
  unfoldable pub check_number : ℕ → Parsed ℕ
  check_number i =
      if leb (min_ + max_) i then value_error else if ltb i min_ then value_error else ok i

  -- `_expand_range` on the two ends: it wraps around `max_` where they are the wrong way round
  unfoldable pub between : ℕ → ℕ → List ℕ
  between fr to =
      if ltb to fr
      then count_up fr (min_ + max_ - fr) ++ count_up min_ (to + 1 - min_)
      else count_up fr (to + 1 - fr)

  unfoldable pub expand_star : List ℕ
  expand_star = count_up min_ max_

module _ (t : Texts) (max_ min_ : ℕ) where
  -- a number, or the name of a month or of a weekday
  unfoldable pub named_number : String → Parsed ℕ
  named_number s = elim (yearmonth t s) [
    | some i ↦ check_number max_ min_ i
    | none ↦ elim (weekday t s) [ some i ↦ check_number max_ min_ i | none ↦ value_error ]
  ]

  -- a number below 0 is below `min_` too
  unfoldable pub read_number : String → Option ℤ → Parsed ℕ
  read_number s (some (pos i)) = check_number max_ min_ i
  read_number s (some (negsuc i)) = value_error
  read_number s none = named_number s

  unfoldable pub expand_number : String → Parsed ℕ
  expand_number s = if t.is_negative s then parse_error else read_number s (t.int s)

  unfoldable pub expand_range : String → String → Parsed (List ℕ)
  expand_range a b =
      and_then (expand_number a)
        (λ fr. and_then (expand_number b) (λ to. ok (between max_ min_ fr to)))

  -- `if not toks[i]: raise`, then the slice
  unfoldable pub take_steps : Option String → Parsed (List ℕ) → Parsed (List ℕ)
  take_steps none l = parse_error
  take_steps (some s) l =
      if s == ""
      then parse_error
      else and_then l (λ ns. elim (t.int s) [ none ↦ value_error | some step ↦ every step ns ])

  -- the first pattern that matches
  unfoldable pub parse_part : String → Parsed (List ℕ)
  parse_part part = elim (t.range_steps part) [
    | some (a, b, steps) ↦ take_steps steps (expand_range a b)
    | none ↦ elim (t.range part) [
      | some (a, b) ↦ expand_range a b
      | none ↦ elim (t.star_steps part) [
        | some steps ↦ take_steps steps (ok (expand_star max_ min_))
        | none ↦
            if t.star part
            then ok (expand_star max_ min_)
            else and_then (expand_number part) (λ fr. ok (fr ∷ []))
      ]
    ]
  ]

  -- the loop over the parts; the set is a list, its numbers may stand in it twice
  unfoldable pub parse_parts : List String → List ℕ → Parsed (List ℕ)
  parse_parts [] acc = ok acc
  parse_parts (part ∷ parts) acc =
      if part == ""
      then parse_error
      else and_then (parse_part part) (λ l. parse_parts parts (acc ++ l))

  unfoldable pub parse : String → Parsed (List ℕ)
  parse spec = parse_parts (t.split spec) []
