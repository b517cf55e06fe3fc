-- ===== src/Bootsteps.antt =====
-- celery/bootsteps.py, class `Blueprint`: starting and stopping the steps of a service in order.
-- What the methods of a step do is given by the step: whether it has the method, and whether a call
-- raises. `Run` is the blueprint with the trace of the calls that were made, in their order. The
-- blueprint's own callbacks are taken to be set and not to raise.
pub mod Send
pub mod Start
pub mod Stop
use celery.Prelude.{
  ℕ, zero, suc, ◌+◌, Bool, true, false, ◌&&◌, ◌||◌, not, Option, none, some, List, [], ◌∷◌, ◌++◌,
  reverse, eqb, length, if◌then◌else◌,
}

pub data Method : Type 0 where
  on_start on_close on_stopped : Method
  step_start step_close step_stop step_terminate : Method

pub record Step : Type 0 where
  pub id : ℕ
  pub has : Method → Bool
  pub raises : Method → Bool

pub data Phase : Type 0 where
  initializing running closing terminating : Phase

-- a call of a method of a step, or of one of the blueprint's own callbacks
pub data Call : Type 0 where
  callback : Method → Call
  call : Method → ℕ → Call

pub record Run : Type 0 where
  pub state : Phase
  pub started : ℕ
  pub shutdown_complete : Bool
  pub calls : List Call

-- the world after a method, and whether it raised
abbrev pub Act : Type 0
Act = Run × Bool

unfoldable pub made : Call → Run → Run
made c r = record r { calls = r.calls ++ c ∷ [] }

-- `s for s in parent.steps if s is not None`
unfoldable pub present : List (Option Step) → List Step
present [] = []
present (none ∷ steps) = present steps
present (some s ∷ steps) = s ∷ present steps

-- the loop of `start`: `i` steps have been started before
unfoldable pub start_from : ℕ → List Step → Run → Act
unfolding made
start_from i [] r = (r, false)
start_from i (s ∷ steps) r =
    let r' = made (call step_start s.id) (record r { started = i + 1 }) in
    let rest = start_from (i + 1) steps r' in if s.raises step_start then (r', true) else rest

unfoldable pub start : List (Option Step) → Run → Act
unfolding start_from present made
start steps r =
    start_from 0 (present steps) (made (callback on_start) (record r { state = running }))

-- the loop of `send_all`, over the steps in the order of the calls
unfoldable pub send_to : Method → Bool → List Step → Run → Act
unfolding made
send_to method propagate [] r = (r, false)
send_to method propagate (s ∷ steps) r =
    let r' = if s.has method then made (call method s.id) r else r in
    let rest = send_to method propagate steps r' in
    if s.has method && s.raises method && propagate then (r', true) else rest

unfoldable pub send_all : Method → Bool → Bool → List (Option Step) → Run → Act
unfolding send_to present
send_all method backwards propagate steps r =
    send_to method propagate (if backwards then reverse (present steps) else present steps) r

unfoldable pub close : List (Option Step) → Run → Act
unfolding send_all made
close steps r = send_all step_close false true steps (made (callback on_close) r)

-- `restart` with its defaults but the method
unfoldable pub restart : Method → List (Option Step) → Run → Act
unfolding send_all
restart method steps r = send_all method true false steps r

-- `self.state in (CLOSE, TERMINATE)` and `self.state != RUN`
abbrev pub is_stopping : Phase → Bool
is_stopping closing = true
is_stopping terminating = true
is_stopping _ = false

abbrev pub is_running : Phase → Bool
is_running running = true
is_running _ = false

-- `self.state = TERMINATE; self.shutdown_complete.set()`
unfoldable pub finish : Run → Run
finish r = record r { state = terminating; shutdown_complete = true }

-- the end of `stop`, after `close`
unfoldable pub stop_closed : Bool → List (Option Step) → Act → Act
unfolding restart made finish
stop_closed terminate steps (r, true) = (r, true)
stop_closed terminate steps (r, false) =
    let method = if terminate then step_terminate else step_stop in
    let (r', raised) = restart method steps (record r { state = closing }) in
    if raised then (r', true) else (finish (made (callback on_stopped) r'), false)

unfoldable pub stop : Bool → List (Option Step) → Run → Act
unfolding stop_closed close finish
stop terminate steps r =
    if is_stopping r.state
    then (r, false)
    else if not (is_running r.state) || not (eqb r.started (length steps))
    then (finish r, false)
    else stop_closed terminate steps (close steps r)
