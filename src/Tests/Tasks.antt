-- ===== src/Tests/Tasks.antt =====
-- celery/events/state.py on small inputs.
use mathlib.Core.List.Perm
use celery.Prelude.{
  ◌≡◌, refl, String, ◌==◌, string_discrete, ◌⊎◌, List, [], ◌∷◌, All, if◌then◌else◌,
}
use celery.Prelude.Dict
use celery.States.{precedence}
use celery.States.Order.{IsCustom}
use celery.Events.Task.{str, number, Attrs, state, event_state, event}
use celery.Events.Task.Merge.{Received, apply_all, IsPlain, state_any_order}

-- `str.upper`, on the one custom event of these tests
abbrev upper : String → String
upper s = if s == "progress" then "PROGRESS" else s

abbrev was_received : Received
was_received = record { type = "received"; timestamp = number 1; fields = ("name", str "add") ∷ [] }

abbrev was_started : Received
was_started = record { type = "started"; timestamp = number 2; fields = ("pid", number 7) ∷ [] }

abbrev has_succeeded : Received
has_succeeded = record {
  type = "succeeded";
  timestamp = number 3;
  fields = ("result", str "4") ∷ [];
}

abbrev in_order : List Received
in_order = was_received ∷ was_started ∷ has_succeeded ∷ []

abbrev swapped : List Received
swapped = was_started ∷ was_received ∷ has_succeeded ∷ []

program : Unit {0}
unfolding apply_all event event_state state precedence string_discrete Dict.get Dict.put Dict.update
    Dict.has
program = tt

in_order-IsPlain : All (IsPlain upper) in_order
unfolding program
in_order-IsPlain = (
  record { no_retry = refl; no_state = refl },
  (record { no_retry = refl; no_state = refl }, (record { no_retry = refl; no_state = refl }, tt)),
)

swapped-IsPlain : All (IsPlain upper) swapped
swapped-IsPlain = (in_order-IsPlain.1.0, (in_order-IsPlain.0, in_order-IsPlain.1.1))

out_of_order : state (apply_all upper swapped []) ≡ "SUCCESS"
unfolding program
out_of_order = refl

state_any_order_example :
    (state (apply_all upper in_order []) ≡ state (apply_all upper swapped []))
    ⊎ (IsCustom (state (apply_all upper in_order []))
        × IsCustom (state (apply_all upper swapped [])))
unfolding program
state_any_order_example =
    state_any_order upper in_order swapped []
      (Perm.swap was_started was_received (has_succeeded ∷ [])) in_order-IsPlain swapped-IsPlain
      refl

-- a task that is known to have started
abbrev running : Attrs
running = ("state", str "STARTED") ∷ ("hostname", str "w1") ∷ []
