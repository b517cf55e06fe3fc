-- ===== src/Backends/Chord.antt =====
-- celery/backends/base.py, `BaseKeyValueStoreBackend.on_chord_part_return`, run by each task of a
-- chord's header when it ends: the tasks' calls of the store come in any order. The store does what it
-- is asked, `incr` is one step, and no key expires. The backend has `incr`, and the requests have a group.
pub mod Count
pub mod Interleaved
pub mod Fair
use celery.Prelude.{
  ℕ, zero, suc, ◌+◌, Bool, true, false, Option, none, some, List, [], ◌∷◌, ◌++◌, length, ltb, eqb,
  if◌then◌else◌,
}

-- what is sent for the chord as a whole: its body, or the failure of it
pub data Reason : Type 0 where
  cannot_restore : Reason
  no_longer_exists : Reason
  dependency_raised : Reason
  callback_error : Reason

pub data Effect : Type 0 where
  delayed : Effect
  chord_error : Reason → Effect

-- How far a part has come: it has not begun, has the group, was not the last to count, was the last, has
-- sent the body or the failure, has deleted the group, is through.
pub data Stage : Type 0 where
  waiting : Stage
  restored : Stage
  early : Stage
  final : Stage
  called : Stage
  cleaned : Stage
  through : Stage

-- what the calls that leave the backend do
pub record Calls : Type 0 where
  -- whether `GroupResult.restore` returns, for each part
  pub readable : ℕ → Bool
  -- whether the join of the header returns
  pub joins : Bool
  -- whether `callback.delay` returns
  pub delays : Bool

-- the group and the counter under their keys, the parts, and what was sent
pub record Chord : Type 0 where
  pub group : Bool
  pub counter : Option ℕ
  pub parts : List Stage
  pub sent : List Effect

-- `incr`: a missing key counts from 0
unfoldable pub value_of : Option ℕ → ℕ
value_of none = 0
value_of (some n) = n

unfoldable pub part : ℕ → List Stage → Option Stage
part i [] = none
part zero (p ∷ l) = some p
part (suc i) (p ∷ l) = part i l

unfoldable pub set_part : ℕ → Stage → List Stage → List Stage
set_part i q [] = []
set_part zero q (p ∷ l) = q ∷ l
set_part (suc i) q (p ∷ l) = p ∷ set_part i q l

-- the part that counted up to the size, one above it, and one below it
unfoldable pub stage_of : ℕ → ℕ → Stage
stage_of val size = if ltb size val then through else if eqb val size then final else early

-- what the last part sends
unfoldable pub complete : Calls → Effect
complete env =
    if env.joins
    then (if env.delays then delayed else chord_error callback_error)
    else chord_error dependency_raised

unfoldable pub move : ℕ → Stage → Chord → Chord
unfolding set_part
move i q s = record s { parts = set_part i q s.parts }

unfoldable pub send : Effect → Chord → Chord
send e s = record s { sent = s.sent ++ (e ∷ []) }

-- the next call of a part at a stage
unfoldable pub step_at : Calls → ℕ → ℕ → Stage → Chord → Chord
unfolding move send value_of stage_of complete
step_at env size i waiting s =
    if env.readable i
    then (if s.group
        then move i restored s
        else send (chord_error no_longer_exists) (move i through s))
    else send (chord_error cannot_restore) (move i through s)
step_at env size i restored s =
    let val = suc (value_of s.counter) in
    move i (stage_of val size) (record s { counter = some val })
step_at env size i early s = move i through s
step_at env size i final s = send (complete env) (move i called s)
step_at env size i called s = move i cleaned (record s { group = false })
step_at env size i cleaned s = move i through (record s { counter = none })
step_at env size i through s = s

-- the next call of a part, if there is such a part
unfoldable pub step : Calls → ℕ → ℕ → Chord → Chord
unfolding step_at part
step env size i s = elim (part i s.parts) [ none ↦ s | some p ↦ step_at env size i p s ]

-- the calls of the parts, in the order of the turns
unfoldable pub run : Calls → ℕ → List ℕ → Chord → Chord
unfolding step
run env size [] s = s
run env size (i ∷ turns) s = run env size turns (step env size i s)

unfoldable pub all_waiting : ℕ → List Stage
all_waiting zero = []
all_waiting (suc n) = waiting ∷ all_waiting n

-- a chord whose header was just applied (`_apply_chord_incr`)
unfoldable pub applied : ℕ → Chord
unfolding all_waiting
applied n = record { group = true; counter = none; parts = all_waiting n; sent = [] }
