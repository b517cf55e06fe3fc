-- ===== src/Worker/Request/Handlers.antt =====
-- The callbacks that the pool makes, and the two ways to run a request
-- (celery/worker/request.py).
use celery.Prelude.{ℕ, ◌-◌, Bool, true, false, ◌&&◌, ◌||◌, not, Option, none, some, if◌then◌else◌}
use celery.Worker.State
use celery.Worker.Request.{
  Env, World, Task, Exc, Raised, unwrap, truthy, store_errors, terminated, system_exit,
  keyboard_interrupt, memory_error, reject_task, ignore_task, retry_task, worker_lost,
  time_limit_exceeded, task_revoked, task_started, task_succeeded, task_failed, task_retried,
  mark_as_failure, signal_failure, hook_failure, hook_after_return, apply_async, run_inline,
}
use celery.Worker.Request.Steps.{
  emit, task_ready, acknowledge, send_event, reject, announce_revoked,
}
use celery.Worker.Request.Revoke.{revoked, terminate}

-- what a method that may raise comes to
pub data Outcome : Type 0 where
  done : Outcome
  raise : Exc → Outcome

abbrev pub Act : Type 0
Act = World × Outcome

abbrev pub return : World → Act
return w = (w, done)

-- `self.worker_pid = pid; self.time_start = ...; task_accepted(self)`; `time` is past the time
-- since `time_accepted`
unfoldable pub start : Env → ℕ → ℕ → World → World
start env pid time_accepted w = record w {
  request = record w.request {
    worker_pid = some pid;
    time_start = some (env.time - (env.monotonic - time_accepted));
  };
  state = State.task_accepted w.request.handle w.state;
}

-- `if self._terminate_on_ack is not None: self.terminate(...)`
unfoldable pub terminate_pending : Env → Option ℕ → World → World
terminate_pending env none w = w
terminate_pending env (some signal) w = terminate env signal w

unfoldable pub on_accepted : Env → ℕ → ℕ → World → World
unfolding terminate_pending
on_accepted env pid time_accepted w =
    let w1 = start env pid time_accepted w in
    let w2 = send_event env task_started (if env.task.acks_late then w1 else acknowledge w1) in
    terminate_pending env w.request.terminate_on_ack w2

unfoldable pub run_after_return : Env → Exc → World → World
run_after_return env exc w = if env.task.has_after_return then emit (hook_after_return exc) w else w

-- what a hard time limit reports, where the worker is not being shut down
unfoldable pub report_timeout : Env → World → World
unfolding run_after_return
report_timeout env w =
    let exc = time_limit_exceeded in
    let w1 = emit (hook_failure exc) (emit (mark_as_failure exc (store_errors env w.request)) w) in
    send_event env task_failed (emit (signal_failure exc) (run_after_return env exc w1))

unfoldable pub settle_timeout : Env → World → World
settle_timeout env w =
    if env.task.acks_late
    then (if env.task.acks_on_timeout then acknowledge w else reject env true w)
    else w

unfoldable pub on_timeout : Env → Bool → World → World
unfolding report_timeout settle_timeout
on_timeout env soft w =
    let ready = task_ready env false w in
    if soft
    then w
    else settle_timeout env
        (if truthy w.state.should_terminate then ready else report_timeout env ready)

unfoldable pub on_retry : Env → World → World
on_retry env w = send_event env task_retried (if env.task.acks_late then acknowledge w else w)

-- the end of `on_failure`, for an error that is none of the special ones: whether the message is
-- put back, and the message settled
abbrev pub is_worker_lost : Exc → Bool
is_worker_lost worker_lost = true
is_worker_lost _ = false

abbrev pub is_timeout : Exc → Bool
is_timeout time_limit_exceeded = true
is_timeout _ = false

unfoldable pub ack_flag : Task → Exc → Bool
ack_flag task exc = if is_timeout exc then task.acks_on_timeout else task.acks_on_failure

unfoldable pub requeues : Task → Exc → Bool
unfolding ack_flag
requeues task exc =
    task.acks_late
    && ((task.reject_on_worker_lost && is_worker_lost exc)
        || (is_timeout exc && not (ack_flag task exc)))

unfoldable pub settle_failure : Env → Exc → World → World
unfolding requeues
settle_failure env exc w =
    if requeues env.task exc
    then reject env true w
    else if env.task.acks_late
    then (if ack_flag env.task exc then acknowledge w else reject env false w)
    else w

unfoldable pub mark_failure : Env → Exc → World → World
mark_failure env exc w =
    emit (signal_failure exc) (emit (mark_as_failure exc (store_errors env w.request)) w)

unfoldable pub fail : Env → Exc → Bool → Bool → World → World
unfolding settle_failure mark_failure
fail env exc send_failed_event return_ok w =
    let terminating = truthy w.state.should_terminate in
    let requeue = requeues env.task exc in
    let sends = send_failed_event && not requeue && not terminating in
    let w1 = settle_failure env exc w in
    let w2 =
      if not requeue && (is_worker_lost exc || not (return_ok || terminating))
      then mark_failure env exc w1
      else w1 in
    if sends then send_event env task_failed w2 else w2

-- a task that raised `Reject`
unfoldable pub fail_rejected : Env → Bool → Bool → World → World
unfolding mark_failure
fail_rejected env requeue send_failed_event w =
    let marked = mark_failure env (reject_task requeue) w in
    reject env requeue (
      if requeue
      then w
      else if send_failed_event
      then send_event env task_failed marked
      else marked)

-- a process that left by an exit: our own signal, or a lost worker
unfoldable pub fail_exited : Env → Bool → Bool → World → World
unfolding fail
fail_exited env send_failed_event return_ok w =
    if w.request.already_cancelled || w.request.already_revoked
    then w
    else fail env worker_lost send_failed_event return_ok w

unfoldable pub fail_terminated : Env → World → World
fail_terminated env w =
    if w.request.already_cancelled || w.request.already_revoked
    then w
    else announce_revoked env "terminated" true false w

-- `on_failure` after `task_ready`, by the class of the exception
unfoldable pub dispatch_failure : Env → Exc → Bool → Bool → World → Act
unfolding fail_terminated fail_exited fail_rejected fail
dispatch_failure env terminated sends ok w = return (fail_terminated env w)
dispatch_failure env system_exit sends ok w = return (fail_exited env sends ok w)
dispatch_failure env keyboard_interrupt sends ok w = return (fail_exited env sends ok w)
dispatch_failure env memory_error sends ok w = (w, raise memory_error)
dispatch_failure env (reject_task requeue) sends ok w = return (fail_rejected env requeue sends w)
dispatch_failure env ignore_task sends ok w = return (acknowledge w)
dispatch_failure env retry_task sends ok w = return (on_retry env w)
dispatch_failure env exc sends ok w = return (fail env exc sends ok w)

unfoldable pub on_failure : Env → Raised → Bool → Bool → World → Act
unfolding dispatch_failure
on_failure env raised send_failed_event return_ok w =
    dispatch_failure env (unwrap raised) send_failed_event return_ok (task_ready env false w)

-- `retval` of `on_success`: a value, or the failure that the task came to
pub data Retval : Type 0 where
  value : Retval
  failed : Raised → Retval

unfoldable pub on_success_failed : Env → Exc → Raised → World → Act
unfolding on_failure
on_success_failed env system_exit raised w = (w, raise system_exit)
on_success_failed env keyboard_interrupt raised w = (w, raise keyboard_interrupt)
on_success_failed env exc raised w = on_failure env raised true true w

unfoldable pub on_success : Env → Retval → World → Act
unfolding on_success_failed
on_success env value w =
    let w1 = task_ready env true w in
    return (send_event env task_succeeded (if env.task.acks_late then acknowledge w1 else w1))
on_success env (failed raised) w = on_success_failed env (unwrap raised) raised w

-- `on_success` of the class that `create_request_cls` makes for a task, a pool and a dispatcher; it
-- has read `acks_late` and `events` when it was made
unfoldable pub on_success_for : Bool → Bool → Env → Retval → World → Act
unfolding on_success_failed
on_success_for acks_late events env value w =
    let w1 = task_ready env true w in
    let w2 = if acks_late then acknowledge w1 else w1 in
    return (if events then send_event env task_succeeded w2 else w2)
on_success_for acks_late events env (failed raised) w =
    on_success_failed env (unwrap raised) raised w

-- `a or b` of two limits
unfoldable pub or_limit : Option ℕ → Option ℕ → Option ℕ
or_limit a b = if truthy a then a else b

-- the call of `pool.apply_async`; `has_result` says whether it returned a result
unfoldable pub send_to_pool : Env → Bool → World → World
unfolding or_limit
send_to_pool env has_result w =
    let r = w.request in
    let sent =
      emit
        (apply_async (or_limit r.soft_time_limit env.task.soft_time_limit)
          (or_limit r.time_limit env.task.time_limit))
        w in
    record sent { request = record sent.request { has_result = has_result } }

unfoldable pub execute_using_pool : Env → Bool → World → Act
unfolding send_to_pool
execute_using_pool env has_result w =
    let (w1, discarded) = revoked env w in
    if discarded then (w1, raise task_revoked) else return (send_to_pool env has_result w1)

-- `execute`; `failed_info` is whether `trace_task` comes back with an error
unfoldable pub execute : Env → Bool → World → World
execute env failed_info w =
    let (w1, discarded) = revoked env w in
    let w2 = emit run_inline (if env.task.acks_late then w1 else acknowledge w1) in
    if discarded then w1 else if failed_info then reject env false w2 else acknowledge w2
