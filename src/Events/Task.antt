-- ===== src/Events/Task.antt =====
-- celery/events/state.py, class `Task`: what a monitor knows of a task, merged from its events.
-- A task is its `__dict__`. `upper` is `str.upper`, which names the state of a custom event.
pub mod Merge
use celery.Prelude.{
  ℕ, String, ◌==◌, string_discrete, Bool, true, false, ◌&&◌, not, Option, none, some, List, [], ◌∷◌,
  ltb, if◌then◌else◌,
}
use celery.Prelude.Dict
use celery.Prelude.Dict.{Dict}
use celery.States
use celery.States.{precedence, is_in}

-- the values of attributes, as far as the code tells them apart
pub data Value : Type 0 where
  str : String → Value
  number : ℕ → Value
  object : ℕ → Value

abbrev pub Attrs : Type 0
Attrs = Dict String Value

-- `TASK_EVENT_TO_STATE.get`
unfoldable pub task_event_to_state : String → Option String
task_event_to_state type = Dict.get string_discrete type (
    ("sent", States.pending)
    ∷ ("received", States.received)
    ∷ ("started", States.started)
    ∷ ("failed", States.failure)
    ∷ ("retried", States.retry)
    ∷ ("succeeded", States.success)
    ∷ ("revoked", States.revoked)
    ∷ ("rejected", States.rejected)
    ∷ [])

-- `merge_rules[RECEIVED]`
abbrev pub received_fields : List String
received_fields =
    "name" ∷ "args" ∷ "kwargs" ∷ "parent_id" ∷ "root_id" ∷ "retries" ∷ "eta" ∷ "expires" ∷ []

-- `{k: v for k, v in fields.items() if k in keep}`
unfoldable pub keep_only : List String → Attrs → Attrs
keep_only keep [] = []
keep_only keep ((k, v) ∷ d) =
    let rest = keep_only keep d in if is_in k keep then (k, v) ∷ rest else rest

-- a string, or a value that is no key of `PRECEDENCE_LOOKUP`
abbrev pub state_name : Option Value → String
state_name none = States.pending
state_name (some (str s)) = s
state_name (some _) = ""

-- `self.state`, with the default of the class
unfoldable pub state : Attrs → String
state attrs = state_name (Dict.get string_discrete "state" attrs)

-- the state of the event is before the task's own
unfoldable pub happens_before : String → String → Bool
happens_before new own =
    not (new == States.retry)
    && (not (own == States.retry) && ltb (precedence own) (precedence new))

-- the fields that are written to the task
unfoldable pub merged : String → Value → Attrs → Attrs → Attrs
unfolding happens_before keep_only
merged new timestamp fields attrs =
    if happens_before new (state attrs)
    then (if new == States.received then keep_only received_fields fields else fields)
    else Dict.put string_discrete "timestamp" timestamp
        (Dict.put string_discrete "state" (str new) fields)

-- `setattr(self, type_, timestamp)` for a known event
unfoldable pub stamped : String → Value → Attrs → Attrs
unfolding task_event_to_state
stamped type timestamp attrs = elim (task_event_to_state type) [
  | some _ ↦ Dict.put string_discrete type timestamp attrs
  | none ↦ attrs
]

-- the state that an event stands for
unfoldable pub event_state : (String → String) → String → String
unfolding task_event_to_state
event_state upper type = elim (task_event_to_state type) [ some s ↦ s | none ↦ upper type ]

unfoldable pub event : (String → String) → String → Value → Attrs → Attrs → Attrs
unfolding merged stamped event_state
event upper type timestamp fields attrs =
    let t = stamped type timestamp attrs in
    Dict.update string_discrete t (merged (event_state upper type) timestamp fields t)

-- `ready`
unfoldable pub ready : Attrs → Bool
unfolding state
ready attrs = is_in (state attrs) States.ready_states
