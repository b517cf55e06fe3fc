-- ===== src/Backends/Chord/Count.antt =====
-- How many parts of a chord are at which stage (celery/backends/base.py).
use celery.Prelude.{
  ℕ, ◌≤◌, ◌<◌, dec_lt, zero, suc, ◌+◌, ◌≡◌, refl, ap, none, some, List, [], ◌∷◌, arith,
}
use celery.Backends.Chord.{Stage, waiting, restored, final, called, cleaned, part, set_part}

-- the sum of a weight over the parts
unfoldable pub count : (Stage → ℕ) → List Stage → ℕ
count f [] = 0
count f (p ∷ l) = f p + count f l

-- what a change of one part does to a sum
pub count-set_part :
    (f : Stage → ℕ) (i : ℕ) (p q : Stage) (l : List Stage)
    → part i l ≡ some p
    → count f (set_part i q l) + f p ≡ count f l + f q
unfolding count part set_part
count-set_part f i p q [] h = cc
count-set_part f zero p q (r ∷ l) h =
    let same : f r ≡ f p = ap (λ o. elim o [ none ↦ f r | some x ↦ f x ]) h in omega arith
count-set_part f (suc i) p q (r ∷ l) h = let rest = count-set_part f i p q l h in omega arith

-- a part is counted
pub part-le-count :
    (f : Stage → ℕ) (i : ℕ) {p : Stage} (l : List Stage) → part i l ≡ some p → f p ≤ count f l
unfolding count part
part-le-count f i [] h = cc
part-le-count f zero {p = p} (r ∷ l) h =
    let same : f r ≡ f p = ap (λ o. elim o [ none ↦ f r | some x ↦ f x ]) h in omega arith
part-le-count f (suc i) (r ∷ l) h = let rest = part-le-count f i l h in omega arith

abbrev pub uncounted : Stage → ℕ
uncounted waiting = 1
uncounted restored = 1
uncounted _ = 0

abbrev pub is_final : Stage → ℕ
is_final final = 1
is_final _ = 0

abbrev pub is_called : Stage → ℕ
is_called called = 1
is_called _ = 0

abbrev pub is_cleaned : Stage → ℕ
is_cleaned cleaned = 1
is_cleaned _ = 0

-- how many parts have not counted, are the last, have sent, and have deleted the group
pub record At (w l c d : ℕ) (parts : List Stage) : Type 0 where
  pub uncounted_are : count uncounted parts ≡ w
  pub final_are : count is_final parts ≡ l
  pub called_are : count is_called parts ≡ c
  pub cleaned_are : count is_cleaned parts ≡ d

pub At-set_part :
    {w l c d w' l' c' d' : ℕ} (i : ℕ) (p q : Stage) (parts : List Stage)
    → part i parts ≡ some p
    → At w l c d parts
    → w' + uncounted p ≡ w + uncounted q
    → l' + is_final p ≡ l + is_final q
    → c' + is_called p ≡ c + is_called q
    → d' + is_cleaned p ≡ d + is_cleaned q
    → At w' l' c' d' (set_part i q parts)
At-set_part i p q parts h a e1 e2 e3 e4 =
    let c1 = count-set_part uncounted i p q parts h in
    let c2 = count-set_part is_final i p q parts h in
    let c3 = count-set_part is_called i p q parts h in
    let c4 = count-set_part is_cleaned i p q parts h in
    let a1 = a.uncounted_are in
    let a2 = a.final_are in
    let a3 = a.called_are in
    let a4 = a.cleaned_are in
    record {
      uncounted_are = omega arith;
      final_are = omega arith;
      called_are = omega arith;
      cleaned_are = omega arith;
    }

-- no part is at a stage of which there is none
pub no_part :
    {w l c d : ℕ} (i : ℕ) {p : Stage} (parts : List Stage)
    → part i parts ≡ some p
    → At w l c d parts
    → (uncounted p ≤ w) × (is_final p ≤ l) × (is_called p ≤ c) × (is_cleaned p ≤ d)
no_part i {p = p} parts h a =
    let a1 = a.uncounted_are in
    let a2 = a.final_are in
    let a3 = a.called_are in
    let a4 = a.cleaned_are in
    let b1 = part-le-count uncounted i parts h in
    let b2 = part-le-count is_final i parts h in
    let b3 = part-le-count is_called i parts h in
    let b4 = part-le-count is_cleaned i parts h in
    (omega arith, omega arith, omega arith, omega arith)

-- a sum that is not 0 has a part of a weight that is not 0
pub count-witness :
    (f : Stage → ℕ) (l : List Stage)
    → 0 < count f l
    → (i : ℕ) × (p : Stage) × (part i l ≡ some p) × (0 < f p)
unfolding count part
count-witness f [] h = absurd (omega arith)
count-witness f (r ∷ l) h = elim (dec_lt 0 (f r)) [
  | yes here ↦ (0, r, refl, here)
  | no not_here ↦ let (i, p, at, more) = count-witness f l (omega arith) in (suc i, p, at, more)
]
