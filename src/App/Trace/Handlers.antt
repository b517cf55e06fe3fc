-- ===== src/App/Trace/Handlers.antt =====
-- What is done about a task that did not return: `TraceInfo` and `on_error` (celery/app/trace.py).
use celery.Prelude.{Bool, true, false, not, ◌&&◌, none, some, if◌then◌else◌}
use celery.Worker.Request.{
  Exc, Raised, bare, with_traceback, reject_task, ignore_task, retry_task, system_exit,
  keyboard_interrupt,
}
use celery.App.Trace.Actions.{
  Ending, failure, retry, ignored, rejected, mark_as_retry, mark_as_failure, on_retry, on_failure,
  retry_signal, failure_signal, error_info, Action, throw, assign, ◌then_do◌, only_if,
}
use celery.App.Trace.Dispatch.{Env, call}

-- `get_actual_ignore_result`
unfoldable pub get_actual_ignore_result : Env → Bool
get_actual_ignore_result env = elim env.request_ignore_result [
  | none ↦ env.ignore_result
  | some b ↦ b
]

-- the `store_errors` of `handle_error_state`
unfoldable pub stores_errors : Env → Bool
stores_errors env =
    if get_actual_ignore_result env
    then env.store_errors_even_if_ignored
    else if env.eager && env.store_eager_result
    then true
    else not env.eager

unfoldable pub handle_retry : Env → Bool → Action
handle_retry env store_errors =
    only_if store_errors (call env mark_as_retry)
    then_do call env on_retry
    then_do call env retry_signal

unfoldable pub handle_failure : Env → Bool → Bool → Action
handle_failure env store_errors call_errbacks =
    call env (mark_as_failure store_errors call_errbacks)
    then_do call env on_failure
    then_do call env failure_signal

-- `handle_error_state`: the state is RETRY, or FAILURE
unfoldable pub handle_error_state : Env → Bool → Bool → Action
handle_error_state env is_retry call_errbacks =
    if is_retry
    then handle_retry env (stores_errors env)
    else handle_failure env (stores_errors env) call_errbacks

-- `on_error` up to what it returns
unfoldable pub on_error : Env → Exc → Bool → Bool → Action
on_error env exc is_retry call_errbacks =
    if env.propagate then throw exc else handle_error_state env is_retry call_errbacks

-- `I, R, state, retval = ...`
unfoldable pub settle : Ending → Raised → Action
settle ending raised =
    assign (λ w. record w { ret = error_info raised; info = some ending; state = some ending })

-- `except Reject`, `except Ignore`, `except Retry`, `except Exception`, `except BaseException`. The
-- log of an error unwraps the exception of the `ExceptionInfo` that is answered. There is no such log
-- of a retry, and those of `Reject` and `Ignore` unwrap an `ExceptionInfo` of their own.
unfoldable pub except : Env → Exc → Action
except env (reject_task requeue) = settle rejected (with_traceback (reject_task requeue))
except env ignore_task = settle ignored (with_traceback ignore_task)
except env retry_task =
    on_error env retry_task true false then_do settle retry (with_traceback retry_task)
except env system_exit = throw system_exit
except env keyboard_interrupt = throw keyboard_interrupt
except env exc = on_error env exc false true then_do settle failure (bare exc)
