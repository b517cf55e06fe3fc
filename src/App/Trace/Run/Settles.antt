-- ===== src/App/Trace/Run/Settles.antt =====
-- What becomes of the message of a task, from its run to the request (celery/app/trace.py,
-- celery/worker/request.py), and what `trace_task` may raise.
use celery.Prelude.{
  ◌≡◌, refl, ap, ◌∙◌, Bool, true, false, ◌&&◌, ◌⊎◌, inl, inr, Option, none, some, List, [], arith,
  if◌then◌else◌,
}
use celery.Worker.Request as Request
use celery.Worker.Request.{
  Exc, Raised, unwrap, reject_task, ignore_task, retry_task, system_exit, keyboard_interrupt,
  memory_error,
}
use celery.Worker.Request.Handlers.{Retval, on_success, on_success_failed, on_failure}
use celery.Worker.Request.Steps.{task_ready, acknowledge, send_event}
use celery.Worker.Request.Failure.{
  Verdict, verdict, settlement, stopped, acked, untouched, verdict-on_failure,
}
use celery.App.Trace.Actions.{
  Ending, nothing, result, error_info, Call, internal_error_signal, prepare_exception, World, pass,
  throw, assign, ◌then_do◌, handled, try_else,
}
use celery.App.Trace.Actions.Does.{marks, View, view}
use celery.App.Trace.Dispatch.{Env, call}
use celery.App.Trace.Run.{retval_of, trace, trace_task, failed_outside, report_error}
use celery.App.Trace.Run.Table.{with_task, ended, escapes}
use celery.App.Trace.Run.Outcome.{blank, is_fatal, trace_task-ended}

abbrev retval_at : View → Retval
retval_at v = elim v.info [
  | none ↦ Retval.value
  | some _ ↦ elim v.ret [
    | nothing ↦ Retval.value
    | result _ ↦ Retval.value
    | error_info e ↦ Retval.failed e
  ]
]

retval_eq : (w : World) → retval_of w ≡ retval_at (view w)
unfolding retval_of
retval_eq w = refl

-- what becomes of the message of a task that acknowledges as `task` says and ends so
abbrev pub settled_as : Request.Task → Bool → Option Exc → Verdict
settled_as task stop none = if task.acks_late then acked else untouched
settled_as task stop (some e) = verdict task stop e

value_settlement :
    (env : Request.Env) (w : Request.World)
    → w.effects ≡ []
    → w.request.acknowledged ≡ false
    → settlement (on_success env Retval.value w).0.effects
      ≡ (if env.task.acks_late then acked else untouched)
unfolding on_success acknowledge send_event task_ready
value_settlement env w fresh unsettled = ground arith

exit_eq :
    (env : Request.Env) (e : Exc) (r : Raised) (w : Request.World)
    → is_fatal (some e) ≡ false
    → on_success_failed env e r w ≡ on_failure env r true true w
unfolding on_success_failed
exit_eq env system_exit r w h = cc
exit_eq env keyboard_interrupt r w h = cc
exit_eq env _ r w h = refl

failed_eq :
    (env : Request.Env) (r : Raised) (w : Request.World)
    → is_fatal (some (unwrap r)) ≡ false
    → on_success env (Retval.failed r) w ≡ on_failure env r true true w
unfolding on_success
failed_eq env r w h = exit_eq env (unwrap r) r w h

-- the value tells of the end of the task
abbrev HasEnded : Option Exc → Retval → Type 0
HasEnded none r = r ≡ Retval.value
HasEnded (some e) r =
    (x : Raised) × (r ≡ Retval.failed x) × (unwrap x ≡ e) × (is_fatal (some e) ≡ false)

ended_settlement :
    (env : Request.Env) (w : Request.World)
    → w.effects ≡ []
    → w.request.acknowledged ≡ false
    → (o : Option Exc) (r : Retval) → HasEnded o r
    → settlement (on_success env r w).0.effects ≡ settled_as env.task (stopped w.request) o
ended_settlement env w fresh unsettled none r h =
    ap (λ x. settlement (on_success env x w).0.effects) h ∙ value_settlement env w fresh unsettled
ended_settlement env w fresh unsettled (some e) r (x, h, same, mild) =
    ap (λ y. settlement (on_success env y w).0.effects) h
    ∙ ap (λ a. settlement a.0.effects) (failed_eq env x w (ap (λ y. is_fatal (some y)) same ∙ mild))
    ∙ verdict-on_failure env w x true true fresh unsettled
    ∙ ap (verdict env.task (stopped w.request)) same

-- the value that goes back to the pool for a task that ends so
retval_ended :
    (env : Env) (o : Option Exc) (cs : List Call)
    → escapes o ≡ none
    → (r : Retval) × (retval_at (ended env o (blank cs)) ≡ r) × HasEnded o r
retval_ended env none cs h = (Retval.value, refl, refl)
retval_ended env (some (reject_task b)) cs h = (_, refl, (_, refl, refl, refl))
retval_ended env (some ignore_task) cs h = (_, refl, (_, refl, refl, refl))
retval_ended env (some retry_task) cs h = (_, refl, (_, refl, refl, refl))
retval_ended env (some system_exit) cs h = cc
retval_ended env (some keyboard_interrupt) cs h = cc
retval_ended env (some _) cs h = (_, refl, (_, refl, refl, refl))

module _ (base : Env) (t : World) (k : base.kwargs_are_mapping ≡ true)
    (d : (base.deduplicate && base.redelivered) ≡ false) (held : base.propagate ≡ false) where
  -- Where the keyword arguments are a mapping, errors are not propagated, the message is no duplicate
  -- to check for, and nothing but the task raises, and that an `Exception` where it does: when the
  -- request gets what `trace_task` answers, on an empty trace and a message not acknowledged, it does
  -- with the message what `verdict` says of the exception that the task raised; where the task
  -- returned, it acknowledges the message where the task acknowledges late, and else leaves it.
  pub settlement-trace_task :
      (o : Option Exc) (env : Request.Env) (w : Request.World)
      → escapes o ≡ none
      → w.effects ≡ []
      → w.request.acknowledged ≡ false
      → settlement (on_success env (retval_of (trace_task (with_task o base) t).0) w).0.effects
        ≡ settled_as env.task (stopped w.request) o
  settlement-trace_task o env w h fresh unsettled =
      let (ends, sees) = trace_task-ended base t k d held o in
      let (r, same, how) = retval_ended (with_task o base) o (marks t.calls) h in
      ap (λ x. settlement (on_success env x w).0.effects) (retval_eq _ ∙ ap retval_at sees ∙ same)
      ∙ ended_settlement env w fresh unsettled o r how

-- a `Reject`, or what is no `Exception`
abbrev pub is_let_through : Exc → Bool
is_let_through (reject_task requeue) = true
is_let_through system_exit = true
is_let_through keyboard_interrupt = true
is_let_through _ = false

report_raises :
    (env : Env) (x : Exc) (w : World) (e : Exc)
    → ((call env internal_error_signal
          then_do report_error env x
          then_do assign (λ v. record v { info = some Ending.failure }))
        w).1
      ≡ some e
    → (env.raises internal_error_signal ≡ some e) ⊎ (env.raises prepare_exception ≡ some e)
unfolding call report_error assign ◌then_do◌
report_raises env x w e h = ground arith

outer_raises :
    (env : Env) (r : World × Option Exc) (e : Exc)
    → (handled (failed_outside env) pass r).1 ≡ some e
    → (is_let_through e ≡ true)
      ⊎ (env.raises internal_error_signal ≡ some e)
      ⊎ (env.raises prepare_exception ≡ some e)
unfolding failed_outside pass throw
outer_raises env (w, none) e h = cc
outer_raises env (w, some (reject_task b)) e h = inl (ground arith)
outer_raises env (w, some system_exit) e h = inl (ground arith)
outer_raises env (w, some keyboard_interrupt) e h = inl (ground arith)
outer_raises env (w, some x) e h = inr (report_raises env x w e h)

-- Whatever is raised where, `trace_task` raises only a `Reject`, what is no `Exception`, or what the
-- report of an internal error raises itself.
pub trace_task-raises :
    (env : Env) (w : World) (e : Exc)
    → (trace_task env w).1 ≡ some e
    → (is_let_through e ≡ true)
      ⊎ (env.raises internal_error_signal ≡ some e)
      ⊎ (env.raises prepare_exception ≡ some e)
unfolding trace_task try_else
trace_task-raises env w e h = outer_raises env (trace env w) e h
