-- ===== src/Backends/Chord/Interleaved.antt =====
-- The parts of a chord in any order (celery/backends/base.py, `on_chord_part_return`).
use Prim.{⊥}
use celery.Prelude.{
  ℕ, zero, suc, ◌+◌, ◌≡◌, ◌≤◌, ◌<◌, refl, true, false, Option-cases, ◌⊎◌, inl, inr, none, some,
  List, [], ◌∷◌, arith, ltb, eqb,
}
use celery.Backends.Chord.{
  Stage, waiting, restored, early, final, called, cleaned, through, Calls, Chord, value_of, part,
  stage_of, complete, move, send, step_at, step, run, all_waiting, applied,
}
use celery.Backends.Chord.Count.{count, At, At-set_part, no_part, uncounted}

-- How far a chord has come as a whole. While a part has not counted, the counter is the number of those
-- that have; then one part, the last, sends, deletes the group, and deletes the counter.
pub data Progress (env : Calls) (n : ℕ) (s : Chord) : Type 0 where
  counting :
      (w : ℕ)
      → At (suc w) 0 0 0 s.parts
      → suc w + value_of s.counter ≡ n
      → s.group ≡ true
      → s.sent ≡ []
      → Progress env n s
  joining : At 0 1 0 0 s.parts → s.group ≡ true → s.sent ≡ [] → Progress env n s
  sent_one : At 0 0 1 0 s.parts → s.group ≡ true → s.sent ≡ complete env ∷ [] → Progress env n s
  group_gone : At 0 0 0 1 s.parts → s.group ≡ false → s.sent ≡ complete env ∷ [] → Progress env n s
  over :
      At 0 0 0 0 s.parts
      → s.group ≡ false
      → s.counter ≡ none
      → s.sent ≡ complete env ∷ []
      → Progress env n s

one≰zero : 1 ≤ 0 → ⊥
one≰zero h = omega arith

module _ (env : Calls) (n : ℕ) (readable : (i : ℕ) → env.readable i ≡ true) where
  module _ (i : ℕ) (s : Chord) where
    step_waiting :
        part i s.parts ≡ some waiting
        → Progress env n s
        → Progress env n (step_at env n i waiting s)
    unfolding step_at move
    step_waiting h (counting w a v g t) =
        rw (readable i, g)
          (counting w (At-set_part i waiting restored s.parts h a refl refl refl refl) v refl t)
    step_waiting h (joining a g t) = absurd (one≰zero (no_part i s.parts h a).0)
    step_waiting h (sent_one a g t) = absurd (one≰zero (no_part i s.parts h a).0)
    step_waiting h (group_gone a g t) = absurd (one≰zero (no_part i s.parts h a).0)
    step_waiting h (over a g v t) = absurd (one≰zero (no_part i s.parts h a).0)

    step_restored :
        part i s.parts ≡ some restored
        → Progress env n s
        → Progress env n (step_at env n i restored s)
    unfolding step_at move stage_of value_of
    step_restored h (counting zero a v g t) =
        let full : ltb n (suc (value_of s.counter)) ≡ false = ground arith in
        let same : eqb (suc (value_of s.counter)) n ≡ true = ground arith in
        rw (full, same) (joining (At-set_part i restored final s.parts h a refl refl refl refl) g t)
    step_restored h (counting (suc w) a v g t) =
        let full : ltb n (suc (value_of s.counter)) ≡ false = ground arith in
        let less : eqb (suc (value_of s.counter)) n ≡ false = ground arith in
        rw (full, less)
          (counting w (At-set_part i restored early s.parts h a (omega arith) refl refl refl)
            (omega arith) g t)
    step_restored h (joining a g t) = absurd (one≰zero (no_part i s.parts h a).0)
    step_restored h (sent_one a g t) = absurd (one≰zero (no_part i s.parts h a).0)
    step_restored h (group_gone a g t) = absurd (one≰zero (no_part i s.parts h a).0)
    step_restored h (over a g v t) = absurd (one≰zero (no_part i s.parts h a).0)

    step_early :
        part i s.parts ≡ some early → Progress env n s → Progress env n (step_at env n i early s)
    unfolding step_at move
    step_early h (counting w a v g t) =
        counting w (At-set_part i early through s.parts h a refl refl refl refl) v g t
    step_early h (joining a g t) =
        joining (At-set_part i early through s.parts h a refl refl refl refl) g t
    step_early h (sent_one a g t) =
        sent_one (At-set_part i early through s.parts h a refl refl refl refl) g t
    step_early h (group_gone a g t) =
        group_gone (At-set_part i early through s.parts h a refl refl refl refl) g t
    step_early h (over a g v t) =
        over (At-set_part i early through s.parts h a refl refl refl refl) g v t

    step_final :
        part i s.parts ≡ some final → Progress env n s → Progress env n (step_at env n i final s)
    unfolding step_at move send
    step_final h (joining a g t) =
        sent_one (At-set_part i final called s.parts h a refl refl refl refl) g (rw t refl)
    step_final h (counting w a v g t) = absurd (one≰zero (no_part i s.parts h a).1)
    step_final h (sent_one a g t) = absurd (one≰zero (no_part i s.parts h a).1)
    step_final h (group_gone a g t) = absurd (one≰zero (no_part i s.parts h a).1)
    step_final h (over a g v t) = absurd (one≰zero (no_part i s.parts h a).1)

    step_called :
        part i s.parts ≡ some called → Progress env n s → Progress env n (step_at env n i called s)
    unfolding step_at move
    step_called h (sent_one a g t) =
        group_gone (At-set_part i called cleaned s.parts h a refl refl refl refl) refl t
    step_called h (counting w a v g t) = absurd (one≰zero (no_part i s.parts h a).2)
    step_called h (joining a g t) = absurd (one≰zero (no_part i s.parts h a).2)
    step_called h (group_gone a g t) = absurd (one≰zero (no_part i s.parts h a).2)
    step_called h (over a g v t) = absurd (one≰zero (no_part i s.parts h a).2)

    step_cleaned :
        part i s.parts ≡ some cleaned
        → Progress env n s
        → Progress env n (step_at env n i cleaned s)
    unfolding step_at move
    step_cleaned h (group_gone a g t) =
        over (At-set_part i cleaned through s.parts h a refl refl refl refl) g refl t
    step_cleaned h (counting w a v g t) = absurd (one≰zero (no_part i s.parts h a).3)
    step_cleaned h (joining a g t) = absurd (one≰zero (no_part i s.parts h a).3)
    step_cleaned h (sent_one a g t) = absurd (one≰zero (no_part i s.parts h a).3)
    step_cleaned h (over a g v t) = absurd (one≰zero (no_part i s.parts h a).3)

    step_at-Progress :
        (p : Stage)
        → part i s.parts ≡ some p
        → Progress env n s
        → Progress env n (step_at env n i p s)
    unfolding step_at
    step_at-Progress waiting = step_waiting
    step_at-Progress restored = step_restored
    step_at-Progress early = step_early
    step_at-Progress final = step_final
    step_at-Progress called = step_called
    step_at-Progress cleaned = step_cleaned
    step_at-Progress through = λ h x. x

    step-Progress : Progress env n s → Progress env n (step env n i s)
    unfolding step
    step-Progress x = elim (Option-cases (part i s.parts)) [
      | inl e ↦ rw (e, step) x
      | inr (p, e) ↦ rw (e, step) (step_at-Progress p e x)
    ]

  pub run-Progress :
      (turns : List ℕ) (s : Chord) → Progress env n s → Progress env n (run env n turns s)
  unfolding run
  run-Progress [] s x = x
  run-Progress (i ∷ turns) s x = run-Progress turns (step env n i s) (step-Progress i s x)

uncounted-all_waiting : (n : ℕ) → At n 0 0 0 (all_waiting n)
unfolding all_waiting count
uncounted-all_waiting zero = record {
  uncounted_are = refl;
  final_are = refl;
  called_are = refl;
  cleaned_are = refl;
}
uncounted-all_waiting (suc n) =
    let a = uncounted-all_waiting n in
    let a1 = a.uncounted_are in
    let a2 = a.final_are in
    let a3 = a.called_are in
    let a4 = a.cleaned_are in
    record {
      uncounted_are = omega arith;
      final_are = omega arith;
      called_are = omega arith;
      cleaned_are = omega arith;
    }

pub applied-Progress : (env : Calls) (n : ℕ) → 0 < n → Progress env n (applied n)
unfolding applied value_of
applied-Progress env zero h = absurd (omega arith)
applied-Progress env (suc n) h = counting n (uncounted-all_waiting (suc n)) (omega arith) refl refl

Progress-once :
    (env : Calls) (n : ℕ) (s : Chord)
    → Progress env n s
    → ((s.sent ≡ []) × (s.group ≡ true))
      ⊎ ((s.sent ≡ complete env ∷ []) × (count uncounted s.parts ≡ 0))
Progress-once env n s (counting w a v g t) = inl (t, g)
Progress-once env n s (joining a g t) = inl (t, g)
Progress-once env n s (sent_one a g t) = inr (t, a.uncounted_are)
Progress-once env n s (group_gone a g t) = inr (t, a.uncounted_are)
Progress-once env n s (over a g v t) = inr (t, a.uncounted_are)

-- While the parts of a chord of n tasks, one to a task, make their calls of the store in any order, and
-- the group can be restored, nothing is sent and the group is there, until every part has counted; then
-- the chord's body, or one failure, is sent, and nothing more, so that it is sent once at most.
pub sent_at_most_once :
    (env : Calls) (n : ℕ)
    → ((i : ℕ) → env.readable i ≡ true)
    → 0 < n
    → (turns : List ℕ)
    → let s = run env n turns (applied n) in
      ((s.sent ≡ []) × (s.group ≡ true))
      ⊎ ((s.sent ≡ complete env ∷ []) × (count uncounted s.parts ≡ 0))
sent_at_most_once env n readable h turns =
    let s = run env n turns (applied n) in
    Progress-once env n s (run-Progress env n readable turns (applied n) (applied-Progress env n h))
