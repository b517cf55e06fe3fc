-- ===== src/App/Trace/Actions.antt =====
-- Actions that may raise, with Python's `try` (celery/app/trace.py).
pub mod Balanced
pub mod Does
use celery.Prelude.{
  ℕ, zero, suc, ◌+◌, ◌-◌, Bool, true, false, Option, none, some, List, [], ◌∷◌, if◌then◌else◌,
}
use celery.Worker.Request.{Exc, Raised}

-- The states that a traced task comes to; `stored_state` is the one that the backend has of a message
-- delivered again, where it is not SUCCESS.
pub data Ending : Type 0 where
  success failure retry ignored rejected stored_state : Ending

-- a callback or a step of a chain: a task, or a group of them
pub data Signature : Type 0 where
  task : ℕ → Signature
  group : ℕ → Signature

pub data Call : Type 0 where
  -- signals
  prerun : Call
  postrun : Option Ending → Call
  success_signal retry_signal failure_signal internal_error_signal : Call
  -- the task and its hooks
  before_start run on_success on_retry on_failure : Call
  after_return : Option Ending → Call
  -- `delivery_info.get("priority")`
  get_priority : Call
  -- the loader
  task_init loader_cleanup : Call
  -- the backend; `mark_as_done` with `publish_result`, `mark_as_failure` with `store_errors` and
  -- `call_errbacks`
  store_started process_cleanup prepare_exception : Call
  mark_as_done : Bool → Call
  mark_as_retry : Call
  mark_as_failure : Bool → Bool → Call
  get_state get_meta : Call
  -- `apply_async` of a callback, of a group of callbacks, and of the next step of a chain with the
  -- steps that are left; each on a value
  apply : Signature → ℕ → Call
  apply_group : List Signature → ℕ → Call
  apply_chain : Signature → List Signature → ℕ → Call
  -- `successful_requests.add`
  add_successful : Call

-- the value that `trace_task` answers with: nothing, a task's value, or an `ExceptionInfo`
pub data Ret : Type 0 where
  nothing : Ret
  result : ℕ → Ret
  error_info : Raised → Ret

pub record World : Type 0 where
  pub calls : List Call
  -- the depths of `_task_stack` and of the task's `request_stack`
  pub tasks : ℕ
  pub requests : ℕ
  -- the locals of `trace_task`
  pub has_request : Bool
  pub ret : Ret
  pub info : Option Ending
  pub state : Option Ending
  -- a `return` was met
  pub returned : Bool

-- what an action leaves, and what it raises
abbrev pub Action : Type 0
Action = World → World × Option Exc

unfoldable pub pass : Action
pass w = (w, none)

unfoldable pub throw : Exc → Action
throw e w = (w, some e)

unfoldable pub assign : (World → World) → Action
assign f w = (f w, none)

abbrev pub or_else : (World → World × Option Exc) → World × Option Exc → World × Option Exc
or_else n (w, none) = n w
or_else n (w, some e) = (w, some e)

infixr 20 ◌then_do◌
-- one after the other
unfoldable pub ◌then_do◌ : Action → Action → Action
(m then_do n) w = or_else n (m w)

abbrev pub handled : (Exc → Action) → Action → World × Option Exc → World × Option Exc
handled h k (w, none) = k w
handled h k (w, some e) = h e w

-- `try: m`, `except: h`, `else: k`
unfoldable pub try_else : Action → (Exc → Action) → Action → Action
try_else m h k w = handled h k (m w)

abbrev pub both : Option Exc → World × Option Exc → World × Option Exc
both o (w, none) = (w, o)
both o (w, some e) = (w, some e)

abbrev pub finished : Action → World × Option Exc → World × Option Exc
finished n (w, o) = both o (n w)

-- `try: m`, `finally: n`
unfoldable pub try_finally : Action → Action → Action
try_finally m n w = finished n (m w)

unfoldable pub only_if : Bool → Action → Action
only_if b m = if b then m else pass

-- `for x in xs: f(x)`
unfoldable pub each : {A : Type 0} → (A → Action) → List A → Action
each f [] = pass
each f (x ∷ xs) = f x then_do each f xs
