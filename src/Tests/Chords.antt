-- ===== src/Tests/Chords.antt =====
-- Runs of the parts of a chord (celery/backends/base.py, `on_chord_part_return`).
use celery.Prelude.{ℕ, zero, suc, ◌≡◌, ◌≤◌, ◌<◌, ◌⊎◌, refl, true, false, none, List, [], ◌∷◌, arith}
use celery.Backends.Chord.{
  waiting, Calls, Chord, delayed, chord_error, dependency_raised, run, step, step_at, part,
  set_part, move, send, value_of, stage_of, complete, applied, all_waiting,
}
use celery.Backends.Chord.Count.{count, uncounted}
use celery.Backends.Chord.Interleaved.{sent_at_most_once}
use celery.Backends.Chord.Fair.{turns_of, sent_once}

abbrev all_well : Calls
all_well = record { readable = λ i. true; joins = true; delays = true }

abbrev header_fails : Calls
header_fails = record { readable = λ i. true; joins = false; delays = true }

-- two parts, of which the second counts while the first is still at it
abbrev turns : List ℕ
turns = 0 ∷ 1 ∷ 1 ∷ 0 ∷ 1 ∷ 0 ∷ 0 ∷ 1 ∷ 0 ∷ 1 ∷ []

final_part_sends : (run all_well 2 turns (applied 2)).sent ≡ delayed ∷ []
unfolding run step step_at part set_part move send value_of stage_of complete applied all_waiting
final_part_sends = refl

failure_sent : (run header_fails 2 turns (applied 2)).sent ≡ chord_error dependency_raised ∷ []
unfolding run step step_at part set_part move send value_of stage_of complete applied all_waiting
failure_sent = refl

-- a task of a chord of one that is delivered twice, where both runs have the group before one counts
abbrev twice : Chord
twice = record { group = true; counter = none; parts = waiting ∷ waiting ∷ []; sent = [] }

sent_twice :
    (run all_well 1 (0 ∷ 1 ∷ 0 ∷ 0 ∷ 0 ∷ 0 ∷ 1 ∷ 1 ∷ []) twice).sent ≡ delayed ∷ delayed ∷ []
unfolding run step step_at part set_part move send value_of stage_of complete
sent_twice = refl

five_turns : (i : ℕ) → i < 2 → 5 ≤ turns_of i turns
unfolding turns_of
five_turns zero h = omega arith
five_turns (suc zero) h = omega arith
five_turns (suc (suc i)) h = absurd (omega arith)

sent_once_example :
    let s = run all_well 2 turns (applied 2) in
    (s.sent ≡ complete all_well ∷ []) × (s.group ≡ false) × (s.counter ≡ none)
sent_once_example = sent_once all_well 2 (λ i. refl) (omega arith) turns five_turns

sent_at_most_once_example :
    let s = run header_fails 2 (0 ∷ 1 ∷ 0 ∷ []) (applied 2) in
    ((s.sent ≡ []) × (s.group ≡ true))
    ⊎ ((s.sent ≡ complete header_fails ∷ []) × (count uncounted s.parts ≡ 0))
sent_at_most_once_example =
    sent_at_most_once header_fails 2 (λ i. refl) (omega arith) (0 ∷ 1 ∷ 0 ∷ [])
