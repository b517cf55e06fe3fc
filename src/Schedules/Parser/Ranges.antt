-- ===== src/Schedules/Parser/Ranges.antt =====
-- Which numbers a range and a step of a crontab field stand for (celery/schedules.py).
use celery.Prelude.{
  ℕ, zero, suc, ◌+◌, ◌-◌, ◌%◌, ◌≡◌, ◌<◌, ◌≤◌, refl, Bool, ◌&&◌, ◌||◌, any, List, [], ◌∷◌, ◌++◌, ltb,
  leb, eqb, arith, ap, inl, inr, Bool-cases, ltb→lt, ltb-false→le, if◌then◌else◌,
}
use native.Mathlib.Nat.{mod-eq_of_lt, mod-eq-sub-mod}
use celery.Schedules.Parser.{count_up, thin, between, expand_star}

-- `x in l`
abbrev pub is_in : ℕ → List ℕ → Bool
is_in x = any (λ y. eqb y x)

is_in-append : (x : ℕ) (l m : List ℕ) → is_in x (l ++ m) ≡ (is_in x l || is_in x m)
is_in-append x [] m = refl
is_in-append x (y ∷ l) m = ground (arith, is_in-append x l m)

pub is_in-count_up :
    (x start n : ℕ) → is_in x (count_up start n) ≡ (leb start x && ltb x (start + n))
unfolding count_up
is_in-count_up x start zero = ground arith
is_in-count_up x start (suc n) = ground (arith, is_in-count_up x (suc start) n)

-- A range has the numbers from its first end to its last one; where the last end is the lower one,
-- those from the first end up to the greatest number of the field, and those from the least number of
-- the field up to the last end. Both ends are numbers of the field.
pub is_in-between :
    (max_ min_ fr to x : ℕ)
    → fr < min_ + max_
    → min_ ≤ to
    → is_in x (between max_ min_ fr to) ≡ (
        if ltb to fr
        then (leb fr x && ltb x (min_ + max_)) || (leb min_ x && leb x to)
        else leb fr x && leb x to)
unfolding between
is_in-between max_ min_ fr to x h k = ground (
  arith,
  is_in-append x (count_up fr (min_ + max_ - fr)) (count_up min_ (to + 1 - min_)),
  is_in-count_up x fr (min_ + max_ - fr),
  is_in-count_up x min_ (to + 1 - min_),
  is_in-count_up x fr (to + 1 - fr),
)

-- the numbers that are left from a range by steps of `k + 1`
pub is_in-thin :
    (x k n start m : ℕ)
    → is_in x (thin k n (count_up start m))
      ≡ (leb (start + n) x && ltb x (start + m) && eqb ((x - (start + n)) % suc k) 0)
unfolding thin count_up
is_in-thin x k n start zero = ground arith
is_in-thin x k zero start (suc m) =
    let rest = is_in-thin x k k (suc start) m in
    let d = x - start in
    let here : (x - (start + 0)) % suc k ≡ d % suc k = ap (λ v. v % suc k) (omega arith) in
    let there : (x - (suc start + k)) % suc k ≡ (d - suc k) % suc k =
      ap (λ v. v % suc k) (omega arith) in
    elim (Bool-cases (ltb d (suc k))) [
      | inl l ↦ ground (arith, rest, here, mod-eq_of_lt {n = d} {m = suc k} (ltb→lt d (suc k) l))
      | inr g ↦
          ground (
            arith,
            rest,
            here,
            there,
            mod-eq-sub-mod {n = d} {m = suc k} (ltb-false→le d (suc k) g),
          )
    ]
is_in-thin x k (suc n) start (suc m) = ground (arith, is_in-thin x k n (suc start) m)

-- `*/step`: each number of the field whose distance from the least one is a multiple of the step
pub is_in-star_steps :
    (max_ min_ k x : ℕ)
    → is_in x (thin k 0 (expand_star max_ min_))
      ≡ (leb min_ x && ltb x (min_ + max_) && eqb ((x - min_) % suc k) 0)
unfolding expand_star
is_in-star_steps max_ min_ k x =
    let same : min_ + 0 ≡ min_ = omega arith in rw same at (is_in-thin x k 0 min_ max_)
