-- ===== src/App/Trace/Run.antt =====
-- `trace_task` (celery/app/trace.py): the function that `build_tracer` returns, the one that calls
-- it, and the answer that goes back to the pool.
pub mod Balance
pub mod Table
pub mod Stages
pub mod Outcome
pub mod Settles
use celery.Prelude.{
  ℕ, suc, ◌-◌, Bool, true, false, not, ◌&&◌, ◌||◌, Option, none, some, List, [], ◌∷◌, if◌then◌else◌,
}
use celery.Worker.Request.{
  Exc, bare, with_traceback, reject_task, system_exit, keyboard_interrupt, memory_error, other,
}
use celery.Worker.Request.Handlers.{Retval}
use celery.App.Trace.Actions.{
  Ending, success, failure, retry, ignored, rejected, stored_state, get_priority, Call, prerun,
  postrun, success_signal, internal_error_signal, before_start, run, on_success, after_return,
  task_init, loader_cleanup, store_started, process_cleanup, prepare_exception, mark_as_done,
  get_state, get_meta, add_successful, Ret, nothing, result, error_info, World, Action, pass, throw,
  assign, ◌then_do◌, try_else, try_finally, only_if,
}
use celery.App.Trace.Dispatch.{Env, call, is_empty, dispatch}
use celery.App.Trace.Handlers.{get_actual_ignore_result, on_error, settle, except}

-- `publish_result` and `track_started`
unfoldable pub publishes : Env → Bool
publishes env =
    if env.eager && not (get_actual_ignore_result env) && env.store_eager_result
    then true
    else not env.eager && not (get_actual_ignore_result env)

unfoldable pub tracks : Env → Bool
tracks env = not env.eager && (env.track_started && not (get_actual_ignore_result env))

-- `except MemoryError: raise`, `except Exception as exc: raise Reject(exc, requeue=True)`
unfoldable pub requeued_error : Exc → Action
requeued_error memory_error = throw memory_error
requeued_error system_exit = throw system_exit
requeued_error keyboard_interrupt = throw keyboard_interrupt
requeued_error exc = throw (reject_task true)

-- a redelivered task whose result is a success already
unfoldable pub dispatch_again : Env → Action
dispatch_again env =
    try_else
      (call env get_meta
        then_do only_if
            ((not (is_empty env.callbacks) || not (is_empty env.chain)) && not env.stored_children)
            (dispatch env env.stored_result env.callbacks env.chain)
        then_do call env add_successful)
      requeued_error pass

unfoldable pub return : Action
return = assign (λ w. record w { returned = true })

-- `except BackendGetMetaError: pass`
unfoldable pub pass_on_get_meta : Env → Exc → Action
pass_on_get_meta env exc = if env.is_get_meta_error exc then pass else throw exc

-- `state = r.state`
unfoldable pub set_state : Env → Action
set_state env =
    assign (λ w. record w { state = some (if env.stored_success then success else stored_state) })

unfoldable pub check_duplicate : Env → Action
check_duplicate env = only_if (env.deduplicate && env.redelivered) (
    if env.in_successful_requests
    then return
    else try_else (call env get_state) (pass_on_get_meta env)
        (set_state env then_do only_if env.stored_success (dispatch_again env then_do return)))

-- the `else` of the call of the task: its callbacks, its result and the hooks of a success
unfoldable pub succeed : Env → Action
succeed env =
    try_else
      (dispatch env env.value env.callbacks env.chain
        then_do call env (mark_as_done (publishes env)))
      (λ exc.
        if env.is_encode_error exc
        then on_error env exc false true then_do settle failure (bare exc)
        else throw exc)
      (only_if env.has_on_success (call env on_success)
        then_do only_if env.success_receivers (call env success_signal))

-- `R = retval = fun(*args, **kwargs)`, `state = SUCCESS`
unfoldable pub run_task : Env → Action
run_task env =
    only_if env.has_before_start (call env before_start)
    then_do call env run
    then_do assign (λ w. record w { ret = result env.value; state = some success })

-- `state not in IGNORE_STATES`
abbrev pub is_ignore_state : Option Ending → Bool
is_ignore_state (some ignored) = true
is_ignore_state (some retry) = true
is_ignore_state (some rejected) = true
is_ignore_state _ = false

unfoldable pub post : Env → Action
post env w =
    if is_ignore_state w.state || not env.has_after_return
    then (w, none)
    else call env (after_return w.state) w

unfoldable pub trace_body : Env → Action
trace_body env =
    only_if env.prerun_receivers (call env prerun)
    then_do call env task_init
    then_do only_if (tracks env) (call env store_started)
    then_do try_else (run_task env) (except env) (succeed env)
    then_do post env

-- `except (KeyboardInterrupt, SystemExit, MemoryError): raise`, `except Exception: log`
unfoldable pub raise_fatal : Exc → Action
raise_fatal keyboard_interrupt = throw keyboard_interrupt
raise_fatal system_exit = throw system_exit
raise_fatal memory_error = throw memory_error
raise_fatal _ = pass

unfoldable pub pop_stacks : Action
pop_stacks = assign (λ w. record w { tasks = w.tasks - 1; requests = w.requests - 1 })

unfoldable pub send_postrun : Env → Action
send_postrun env w = if env.postrun_receivers then call env (postrun w.state) w else (w, none)

unfoldable pub clean_up : Env → Action
clean_up env =
    only_if (not env.eager)
      (try_else (call env process_cleanup then_do call env loader_cleanup) raise_fatal pass)

unfoldable pub push_task : Action
push_task = assign (λ w. record w { tasks = suc w.tasks })

-- `task_priority = ...`
unfoldable pub read_priority : Env → Action
read_priority env = only_if env.inherit_parent_priority (call env get_priority)

unfoldable pub push_request : Action
push_request = assign (λ w. record w { requests = suc w.requests })

-- the part of the task that runs with its request on the stacks
unfoldable pub trace_pushed : Env → Action
trace_pushed env =
    push_task
    then_do read_priority env
    then_do push_request
    then_do try_finally (trace_body env)
        (try_finally (send_postrun env) (pop_stacks then_do clean_up env))

unfoldable pub unless_returned : Action → Action
unless_returned m w = if w.returned then (w, none) else m w

unfoldable pub trace_request : Env → Action
trace_request env =
    if not env.kwargs_are_mapping
    then throw (other 0)
    else assign (λ w. record w { has_request = true })
      then_do check_duplicate env
      then_do unless_returned (trace_pushed env)

-- `I, _, _, _ = on_error(task_request, exc)` where there is a request
unfoldable pub error_of_request : Env → Exc → Action
error_of_request env exc w =
    if w.has_request
    then (on_error env exc false true then_do assign (λ v. record v { info = some failure })) w
    else (w, none)

unfoldable pub report_error : Env → Exc → Action
report_error env exc =
    call env prepare_exception
    then_do assign (λ w. record w { ret = error_info (with_traceback exc) })

-- an error outside the task's own code
unfoldable pub internal_error : Env → Exc → Action
internal_error env (reject_task requeue) = throw (reject_task requeue)
internal_error env memory_error = throw memory_error
internal_error env system_exit = throw system_exit
internal_error env keyboard_interrupt = throw keyboard_interrupt
internal_error env exc =
    call env internal_error_signal
    then_do (if env.eager then throw exc else report_error env exc then_do error_of_request env exc)

-- `R = I = ... = None`
unfoldable pub reset : Action
reset = assign (λ w. record w {
  has_request = false;
  ret = nothing;
  info = none;
  state = none;
  returned = false;
})

-- the function that `build_tracer` returns
unfoldable pub trace : Env → Action
trace env = reset then_do try_else (trace_request env) (internal_error env) pass

unfoldable pub failed_outside : Env → Exc → Action
failed_outside env (reject_task requeue) = throw (reject_task requeue)
failed_outside env system_exit = throw system_exit
failed_outside env keyboard_interrupt = throw keyboard_interrupt
failed_outside env exc =
    call env internal_error_signal
    then_do report_error env exc
    then_do assign (λ w. record w { info = some failure })

unfoldable pub trace_task : Env → Action
trace_task env = try_else (trace env) (failed_outside env) pass

-- `(1, R, T) if I else (0, Rstr, T)` of `trace_task_ret`, as the request reads it
unfoldable pub retval_of : World → Retval
retval_of w = elim w.info [
  | none ↦ Retval.value
  | some _ ↦ elim w.ret [
    | nothing ↦ Retval.value
    | result _ ↦ Retval.value
    | error_info e ↦ Retval.failed e
  ]
]
