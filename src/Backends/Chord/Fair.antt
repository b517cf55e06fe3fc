-- ===== src/Backends/Chord/Fair.antt =====
-- A chord whose parts get their turns comes to its end (celery/backends/base.py,
-- `on_chord_part_return`).
use celery.Prelude.{
  ℕ, zero, suc, ◌-◌, ◌≡◌, ◌≢◌, ◌≤◌, ◌<◌, refl, sym, ap, ◌∙◌, Bool-cases, true, false, Option-cases,
  inl, inr, none, some, List, [], ◌∷◌, arith, eqb, if◌then◌else◌, ℕ_discrete, dec_lt,
}
use celery.Backends.Chord.{
  Stage, waiting, restored, early, final, called, cleaned, through, Calls, Chord, value_of, part,
  set_part, stage_of, complete, move, send, step_at, step, run, all_waiting, applied,
}
use celery.Backends.Chord.Count.{count, count-witness, uncounted, is_final, is_called, is_cleaned}
use celery.Backends.Chord.Interleaved.{
  Progress, counting, joining, sent_one, group_gone, over, run-Progress, applied-Progress,
}

-- how many turns a part has left at most
abbrev left : Stage → ℕ
left waiting = 5
left restored = 4
left final = 3
left called = 2
left cleaned = 1
left early = 1
left through = 0

-- how often a part has its turn
unfoldable pub turns_of : ℕ → List ℕ → ℕ
turns_of i [] = 0
turns_of i (j ∷ l) = let rest = turns_of i l in if eqb i j then suc rest else rest

part-set_part-same :
    (i : ℕ) {p : Stage} (q : Stage) (l : List Stage)
    → part i l ≡ some p
    → part i (set_part i q l) ≡ some q
unfolding part set_part
part-set_part-same i q [] h = cc
part-set_part-same zero q (r ∷ l) h = refl
part-set_part-same (suc i) q (r ∷ l) h = part-set_part-same i q l h

part-set_part-other :
    (i j : ℕ) (q : Stage) (l : List Stage) → i ≢ j → part j (set_part i q l) ≡ part j l
unfolding part set_part
part-set_part-other i j q [] h = refl
part-set_part-other zero zero q (r ∷ l) h = absurd (h refl)
part-set_part-other zero (suc j) q (r ∷ l) h = refl
part-set_part-other (suc i) zero q (r ∷ l) h = refl
part-set_part-other (suc i) (suc j) q (r ∷ l) h = part-set_part-other i j q l (λ e. h (ap suc e))

-- a part moves on at its own turns alone
module _ (env : Calls) (n : ℕ) where
  stage_of-left : (val : ℕ) → left (stage_of val n) ≤ 3
  unfolding stage_of
  stage_of-left val = ground arith

  step_at-same :
      (i : ℕ) (p : Stage) (s : Chord)
      → part i s.parts ≡ some p
      → (q : Stage) × (part i (step_at env n i p s).parts ≡ some q) × (left q ≤ left p - 1)
  unfolding step_at move send stage_of
  step_at-same i waiting s h = elim (Bool-cases (env.readable i)) [
    | inr no_more ↦ rw no_more (through, part-set_part-same i through s.parts h, omega arith)
    | inl reads ↦ elim (Bool-cases s.group) [
      | inl there ↦
          rw (reads, there) (restored, part-set_part-same i restored s.parts h, omega arith)
      | inr lost ↦ rw (reads, lost) (through, part-set_part-same i through s.parts h, omega arith)
    ]
  ]
  step_at-same i restored s h =
      let q = stage_of (suc (value_of s.counter)) n in
      (q, part-set_part-same i q s.parts h, stage_of-left (suc (value_of s.counter)))
  step_at-same i early s h = (through, part-set_part-same i through s.parts h, omega arith)
  step_at-same i final s h = (called, part-set_part-same i called s.parts h, omega arith)
  step_at-same i called s h = (cleaned, part-set_part-same i cleaned s.parts h, omega arith)
  step_at-same i cleaned s h = (through, part-set_part-same i through s.parts h, omega arith)
  step_at-same i through s h = (through, h, omega arith)

  step_at-other :
      (i j : ℕ) (p : Stage) (s : Chord)
      → i ≢ j
      → part j (step_at env n i p s).parts ≡ part j s.parts
  unfolding step_at move send
  step_at-other i j waiting s ne = elim (Bool-cases (env.readable i)) [
    | inr no_more ↦ rw no_more (part-set_part-other i j through s.parts ne)
    | inl reads ↦ elim (Bool-cases s.group) [
      | inl there ↦ rw (reads, there) (part-set_part-other i j restored s.parts ne)
      | inr lost ↦ rw (reads, lost) (part-set_part-other i j through s.parts ne)
    ]
  ]
  step_at-other i j restored s ne = part-set_part-other i j _ s.parts ne
  step_at-other i j early s ne = part-set_part-other i j _ s.parts ne
  step_at-other i j final s ne = part-set_part-other i j _ s.parts ne
  step_at-other i j called s ne = part-set_part-other i j _ s.parts ne
  step_at-other i j cleaned s ne = part-set_part-other i j _ s.parts ne
  step_at-other i j through s ne = refl

  step-same :
      (i : ℕ) (p : Stage) (s : Chord)
      → part i s.parts ≡ some p
      → (q : Stage) × (part i (step env n i s).parts ≡ some q) × (left q ≤ left p - 1)
  unfolding step
  step-same i p s h = rw (h, step) (step_at-same i p s h)

  step-own :
      (i j : ℕ) (p : Stage) (s : Chord)
      → j ≡ i
      → part i s.parts ≡ some p
      → (q : Stage) × (part i (step env n j s).parts ≡ some q) × (left q ≤ left p - 1)
  step-own i j p s e h = rw e (step-same i p s h)

  step-none : (i : ℕ) (s : Chord) → part i s.parts ≡ none → step env n i s ≡ s
  unfolding step
  step-none i s h = rw (h, step) refl

  step-other : (i j : ℕ) (s : Chord) → i ≢ j → part j (step env n i s).parts ≡ part j s.parts
  unfolding step
  step-other i j s ne = elim (Option-cases (part i s.parts)) [
    | inl e ↦ rw (e, step) refl
    | inr (p, e) ↦ rw (e, step) (step_at-other i j p s ne)
  ]

  run-left :
      (turns : List ℕ) (i : ℕ) (p : Stage) (s : Chord)
      → part i s.parts ≡ some p
      → (q : Stage) × (part i (run env n turns s).parts ≡ some q)
        × (left q ≤ left p - turns_of i turns)
  unfolding run turns_of
  run-left [] i p s h = (p, h, omega arith)
  run-left (j ∷ turns) i p s h = elim (ℕ_discrete j i) [
    | yes e ↦
        let (q, at, less) = step-own i j p s e h in
        let (r, there, rest) = run-left turns i q (step env n j s) at in
        let its : eqb i j ≡ true = ground arith in
        let fewer : left r ≤ left p - suc (turns_of i turns) = omega arith in
        (r, there, rw its fewer)
    | no ne ↦
        let (r, there, rest) = run-left turns i p (step env n j s) (step-other j i s ne ∙ h) in
        let not_its : eqb i j ≡ false = ground arith in (r, there, rw not_its rest)
  ]

  run-none :
      (turns : List ℕ) (i : ℕ) (s : Chord)
      → part i s.parts ≡ none
      → part i (run env n turns s).parts ≡ none
  unfolding run
  run-none [] i s h = h
  run-none (j ∷ turns) i s h = elim (ℕ_discrete j i) [
    | yes e ↦
        let still = step-none j s (ap (λ k. part k s.parts) e ∙ h) in
        ap (λ t. part i (run env n turns t).parts) still ∙ run-none turns i s h
    | no ne ↦ run-none turns i (step env n j s) (step-other j i s ne ∙ h)
  ]

all_waiting-part : (n i : ℕ) → i < n → part i (all_waiting n) ≡ some waiting
unfolding all_waiting part
all_waiting-part zero i h = absurd (omega arith)
all_waiting-part (suc n) zero h = refl
all_waiting-part (suc n) (suc i) h = all_waiting-part n i (omega arith)

all_waiting-none : (n i : ℕ) → n ≤ i → part i (all_waiting n) ≡ none
unfolding all_waiting part
all_waiting-none zero i h = refl
all_waiting-none (suc n) zero h = absurd (omega arith)
all_waiting-none (suc n) (suc i) h = all_waiting-none n i (omega arith)

idle : (p : Stage) → left p ≡ 0 → p ≡ through
idle through h = refl
idle waiting h = absurd (omega arith)
idle restored h = absurd (omega arith)
idle early h = absurd (omega arith)
idle final h = absurd (omega arith)
idle called h = absurd (omega arith)
idle cleaned h = absurd (omega arith)

some≢none : {p : Stage} → some p ≢ none
some≢none h = cc

module _ (env : Calls) (n : ℕ) (turns : List ℕ)
    (fair : (i : ℕ) → i < n → 5 ≤ turns_of i turns) where
  part-through :
      (i : ℕ) (p : Stage) → part i (run env n turns (applied n)).parts ≡ some p → p ≡ through
  unfolding applied
  part-through i p h = elim (dec_lt i n) [
    | no not_one ↦ absurd (
        some≢none (sym h ∙ run-none env n turns i (applied n) (all_waiting-none n i (omega arith))))
    | yes one ↦
        let (q, at, less) = run-left env n turns i waiting (applied n) (all_waiting-part n i one) in
        let enough = fair i one in
        let nothing : left q ≡ 0 = omega arith in
        ap (λ o. elim o [ none ↦ p | some x ↦ x ]) (sym h ∙ at) ∙ idle q nothing
  ]

  none_left : (f : Stage → ℕ) → f through ≡ 0 → count f (run env n turns (applied n)).parts ≡ 0
  none_left f h = elim (dec_lt 0 (count f (run env n turns (applied n)).parts)) [
    | no not_one ↦ omega arith
    | yes one ↦
        let (i, p, at, more) = count-witness f (run env n turns (applied n)).parts one in
        let same = ap f (part-through i p at) in absurd (omega arith)
  ]

Progress-over :
    (env : Calls) (n : ℕ) (s : Chord)
    → ((f : Stage → ℕ) → f through ≡ 0 → count f s.parts ≡ 0)
    → Progress env n s
    → (s.sent ≡ complete env ∷ []) × (s.group ≡ false) × (s.counter ≡ none)
Progress-over env n s idle (counting w a v g t) =
    absurd (let k = idle uncounted refl in let m = a.uncounted_are in omega arith)
Progress-over env n s idle (joining a g t) =
    absurd (let k = idle is_final refl in let m = a.final_are in omega arith)
Progress-over env n s idle (sent_one a g t) =
    absurd (let k = idle is_called refl in let m = a.called_are in omega arith)
Progress-over env n s idle (group_gone a g t) =
    absurd (let k = idle is_cleaned refl in let m = a.cleaned_are in omega arith)
Progress-over env n s idle (over a g v t) = (t, g, v)

-- Where each of the parts of a chord of n tasks, one to a task, gets five turns, in any order among the
-- turns of the others, and the group can be restored, the chord's body, or one failure, is sent exactly
-- once, and the group and the counter are deleted.
pub sent_once :
    (env : Calls) (n : ℕ)
    → ((i : ℕ) → env.readable i ≡ true)
    → 0 < n
    → (turns : List ℕ) → ((i : ℕ) → i < n → 5 ≤ turns_of i turns)
    → let s = run env n turns (applied n) in
      (s.sent ≡ complete env ∷ []) × (s.group ≡ false) × (s.counter ≡ none)
sent_once env n readable h turns fair =
    Progress-over env n (run env n turns (applied n)) (none_left env n turns fair)
      (run-Progress env n readable turns (applied n) (applied-Progress env n h))
