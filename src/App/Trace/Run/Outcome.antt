-- ===== src/App/Trace/Run/Outcome.antt =====
-- What `trace_task` comes to where nothing but the task raises (celery/app/trace.py).
use celery.Prelude.{
  ◌≡◌, refl, ap, ◌∙◌, Bool, true, false, not, ◌&&◌, Option, none, some, List, if◌then◌else◌,
}
use celery.Worker.Request.{Exc, system_exit, keyboard_interrupt}
use celery.App.Trace.Actions.{
  nothing, Call, World, Action, pass, throw, assign, or_else, ◌then_do◌, handled, try_else, only_if,
}
use celery.App.Trace.Actions.Does.{marks, View, view}
use celery.App.Trace.Dispatch.{Env}
use celery.App.Trace.Run.{
  check_duplicate, trace_pushed, unless_returned, trace_request, internal_error, reset, trace,
  failed_outside, trace_task,
}
use celery.App.Trace.Run.Table.{with_task, ended, escapes}
use celery.App.Trace.Run.Stages.{Does-task}

-- the world as `trace_task` starts on its task
abbrev pub started : World → World
started w = record w {
  has_request = true;
  ret = nothing;
  info = none;
  state = none;
  returned = false;
}

if_else : (b : Bool) (m n : Action) → b ≡ false → (if b then m else n) ≡ n
if_else true m n h = cc
if_else false m n h = refl

only_if-pass : (b : Bool) (m : Action) → b ≡ false → only_if b m ≡ pass
unfolding only_if
only_if-pass true m h = cc
only_if-pass false m h = refl

check_duplicate-pass :
    (x : Env) → (x.deduplicate && x.redelivered) ≡ false → check_duplicate x ≡ pass
unfolding check_duplicate
check_duplicate-pass x d = only_if-pass _ _ d

trace_request_eq :
    (x : Env) (w : World)
    → x.kwargs_are_mapping ≡ true
    → (x.deduplicate && x.redelivered) ≡ false
    → w.returned ≡ false
    → trace_request x w ≡ trace_pushed x (record w { has_request = true })
unfolding ◌then_do◌ assign trace_request pass unless_returned
trace_request_eq x w k d n =
    let next = record w { has_request = true } in
    ap (λ m. m w) (if_else _ _ _ (ap not k))
    ∙ ap (λ m. or_else (unless_returned (trace_pushed x)) (m next)) (check_duplicate-pass x d)
    ∙ (rw n refl)

trace_eq :
    (x : Env) (w : World)
    → x.kwargs_are_mapping ≡ true
    → (x.deduplicate && x.redelivered) ≡ false
    → trace x w ≡ handled (internal_error x) pass (trace_pushed x (started w))
unfolding trace ◌then_do◌ try_else reset assign
trace_eq x w k d = ap (handled (internal_error x) pass) (trace_request_eq x _ k d refl)

-- nothing was raised, or what is no `Exception`
abbrev pub is_fatal : Option Exc → Bool
is_fatal none = true
is_fatal (some system_exit) = true
is_fatal (some keyboard_interrupt) = true
is_fatal (some _) = false

is_fatal-escapes : (o : Option Exc) → is_fatal (escapes o) ≡ true
is_fatal-escapes none = refl
is_fatal-escapes (some system_exit) = refl
is_fatal-escapes (some keyboard_interrupt) = refl
is_fatal-escapes (some _) = refl

internal_error-pass :
    (x : Env) (r : World × Option Exc) → is_fatal r.1 ≡ true → handled (internal_error x) pass r ≡ r
unfolding pass internal_error throw
internal_error-pass x (w, none) h = refl
internal_error-pass x (w, some system_exit) h = refl
internal_error-pass x (w, some keyboard_interrupt) h = refl
internal_error-pass x (w, some _) h = cc

failed_outside-pass :
    (x : Env) (r : World × Option Exc) → is_fatal r.1 ≡ true → handled (failed_outside x) pass r ≡ r
unfolding pass failed_outside throw
failed_outside-pass x (w, none) h = refl
failed_outside-pass x (w, some system_exit) h = refl
failed_outside-pass x (w, some keyboard_interrupt) h = refl
failed_outside-pass x (w, some _) h = cc

-- the view of the world as `trace_task` starts on its task
abbrev pub blank : List Call → View
blank cs = record {
  marked = cs;
  has_request = true;
  ret = nothing;
  info = none;
  state = none;
  returned = false;
}

module _ (base : Env) (w : World) (k : base.kwargs_are_mapping ≡ true)
    (d : (base.deduplicate && base.redelivered) ≡ false) (held : base.propagate ≡ false) where
  -- Where the keyword arguments are a mapping, errors are not propagated, the message is no duplicate
  -- to check for, and nothing but the task itself raises: the results that are stored, the messages
  -- that are sent and what `trace_task` answers are those of the table `ended`, for each way in which
  -- the task can end; and `trace_task` raises exactly what is no `Exception`.
  pub trace_task-ended :
      (o : Option Exc)
      → ((trace_task (with_task o base) w).1 ≡ escapes o)
        × (view (trace_task (with_task o base) w).0
            ≡ ended (with_task o base) o (blank (marks w.calls)))
  unfolding trace_task try_else
  trace_task-ended o =
      let x = with_task o base in
      let task = Does-task base o held in
      let start = started w in
      let ends = task.ends start in
      let fatal : is_fatal (trace_pushed x start).1 ≡ true =
        ap is_fatal ends ∙ is_fatal-escapes o in
      let traced = trace_eq x w k d ∙ internal_error-pass x (trace_pushed x start) fatal in
      let whole =
        ap (handled (failed_outside x) pass) traced
        ∙ failed_outside-pass x (trace_pushed x start) fatal in
      (ap (λ r. r.1) whole ∙ ends, ap (λ r. view r.0) whole ∙ task.sees start)
