-- ===== src/Schedules/Crontab/Extremes.antt =====
-- The least and the greatest number of a field, and the numbers above a given one
-- (celery/schedules.py, `crontab.remaining_delta`).
use celery.Prelude.{
  ℕ_discrete, ℕ, ◌≡◌, ◌<◌, ◌≤◌, refl, Bool-cases, true, false, ◌&&◌, inl, inr, List, [], ◌∷◌,
  length, min, max, ltb, eqb, arith, ap, ◌∙◌, ltb→lt, ltb-false→le,
}
use celery.Schedules.Parser.{ok, and_then}
use celery.Schedules.Parser.Ranges.{is_in}
use celery.Schedules.Crontab.{least, greatest, above}

is_in-cons : (y x : ℕ) (l : List ℕ) → is_in y l ≡ true → is_in y (x ∷ l) ≡ true
is_in-cons y x l h = ground arith

is_in-here : (x : ℕ) (l : List ℕ) → is_in x (x ∷ l) ≡ true
is_in-here x l = ground arith

is_in-min : (x n : ℕ) (l : List ℕ) → is_in n l ≡ true → is_in (min x n) (x ∷ l) ≡ true
is_in-min x n l h = elim (Bool-cases (ltb x n)) [
  | inl t ↦
      let e : min x n ≡ x = omega (arith, ltb→lt x n t) in
      ap (λ v. is_in v (x ∷ l)) e ∙ is_in-here x l
  | inr f ↦
      let e : min x n ≡ n = omega (arith, ltb-false→le x n f) in
      ap (λ v. is_in v (x ∷ l)) e ∙ is_in-cons n x l h
]

is_in-max : (x n : ℕ) (l : List ℕ) → is_in n l ≡ true → is_in (max x n) (x ∷ l) ≡ true
is_in-max x n l h = elim (Bool-cases (ltb x n)) [
  | inl t ↦
      let e : max x n ≡ n = omega (arith, ltb→lt x n t) in
      ap (λ v. is_in v (x ∷ l)) e ∙ is_in-cons n x l h
  | inr f ↦
      let e : max x n ≡ x = omega (arith, ltb-false→le x n f) in
      ap (λ v. is_in v (x ∷ l)) e ∙ is_in-here x l
]

none_below :
    (x n z : ℕ) (l : List ℕ)
    → (is_in z l && ltb z n) ≡ false
    → (is_in z (x ∷ l) && ltb z (min x n)) ≡ false
none_below x n z l h =
    let a : min x n ≤ x = omega arith in let b : min x n ≤ n = omega arith in ground arith

none_above :
    (x n z : ℕ) (l : List ℕ)
    → (is_in z l && ltb n z) ≡ false
    → (is_in z (x ∷ l) && ltb (max x n) z) ≡ false
none_above x n z l h =
    let a : x ≤ max x n = omega arith in let b : n ≤ max x n = omega arith in ground arith

-- `n` is the least number of the list: no number of it is below
pub least_lem :
    (l : List ℕ)
    → 0 < length l
    → (n : ℕ) × (least l ≡ ok n) × (is_in n l ≡ true) × ((x : ℕ) → (is_in x l && ltb x n) ≡ false)
unfolding least and_then
least_lem [] h = absurd (omega arith)
least_lem (x ∷ []) h = (x, refl, ground arith, λ y. ground arith)
least_lem (x ∷ y ∷ l) h =
    let (n, e, i, b) = least_lem (y ∷ l) (omega arith) in
    (min x n, rw e refl, is_in-min x n (y ∷ l) i, λ z. none_below x n z (y ∷ l) (b z))

pub greatest_lem :
    (l : List ℕ)
    → 0 < length l
    → (n : ℕ) × (greatest l ≡ ok n)
      × (is_in n l ≡ true)
      × ((x : ℕ) → (is_in x l && ltb n x) ≡ false)
unfolding greatest and_then
greatest_lem [] h = absurd (omega arith)
greatest_lem (x ∷ []) h = (x, refl, ground arith, λ y. ground arith)
greatest_lem (x ∷ y ∷ l) h =
    let (n, e, i, b) = greatest_lem (y ∷ l) (omega arith) in
    (max x n, rw e refl, is_in-max x n (y ∷ l) i, λ z. none_above x n z (y ∷ l) (b z))

pub is_in-above : (x y : ℕ) (l : List ℕ) → is_in y (above x l) ≡ (is_in y l && ltb x y)
unfolding above
is_in-above x y [] = refl
is_in-above x y (n ∷ l) = ground (arith, is_in-above x y l)

pub is_in-length : (x : ℕ) (l : List ℕ) → is_in x l ≡ true → 0 < length l
is_in-length x [] h = cc
is_in-length x (y ∷ l) h = omega arith

pub is_in_same : (x y : ℕ) (l : List ℕ) → (eqb x y && is_in x l) ≡ (eqb x y && is_in y l)
is_in_same x y l = elim (ℕ_discrete x y) [
  | yes p ↦ ap (λ v. eqb x y && v) (ap (λ v. is_in v l) p)
  | no p ↦ ground arith
]
