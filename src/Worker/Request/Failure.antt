-- ===== src/Worker/Request/Failure.antt =====
-- What `on_failure` does with the message and what it reports, against a table
-- (celery/worker/request.py).
use celery.Prelude.{
  ◌≡◌, Bool, true, false, ◌&&◌, ◌||◌, not, List, [], ◌∷◌, arith, any, if◌then◌else◌,
}
use celery.Worker.State
use celery.Worker.Request.{
  Env, Effect, World, Request, Task, Exc, Raised, unwrap, truthy, ack, nack, event, task_failed,
  mark_as_failure, signal_failure, terminated, system_exit, keyboard_interrupt, memory_error,
  reject_task, ignore_task, retry_task, worker_lost, time_limit_exceeded, task_revoked, other,
}
use celery.Worker.Request.Steps.{task_ready, announce_revoked, reject}
use celery.Worker.Request.Handlers.{dispatch_failure, on_failure, on_retry}

-- what happens to the message
pub data Verdict : Type 0 where
  acked requeued discarded untouched : Verdict

-- a task that fails with an error of its own
abbrev pub failed_verdict : Task → Verdict
failed_verdict t =
    if t.acks_late then (if t.acks_on_failure then acked else discarded) else untouched

-- a task whose process is gone
abbrev pub lost_verdict : Task → Verdict
lost_verdict t = if t.acks_late && t.reject_on_worker_lost then requeued else failed_verdict t

-- the table: `stopped` says that the request was cancelled or revoked already
abbrev pub verdict : Task → Bool → Exc → Verdict
verdict t stopped terminated = if stopped then untouched else acked
verdict t stopped system_exit = if stopped then untouched else lost_verdict t
verdict t stopped keyboard_interrupt = if stopped then untouched else lost_verdict t
verdict t stopped memory_error = untouched
verdict t stopped (reject_task requeue) = if requeue then requeued else discarded
verdict t stopped ignore_task = acked
verdict t stopped retry_task = if t.acks_late then acked else untouched
verdict t stopped worker_lost = lost_verdict t
verdict t stopped time_limit_exceeded =
    if t.acks_late then (if t.acks_on_timeout then acked else requeued) else untouched
verdict t stopped exc = failed_verdict t

-- what the trace says happened to the message
abbrev pub settlement : List Effect → Verdict
settlement [] = untouched
settlement (ack ∷ es) = acked
settlement (nack requeue ∷ es) = if requeue then requeued else discarded
settlement (_ ∷ es) = settlement es

abbrev pub stopped : Request → Bool
stopped r = r.already_cancelled || r.already_revoked

module _ (env : Env) (w : World) (fresh : w.effects ≡ [])
    (unsettled : w.request.acknowledged ≡ false) where
  verdict-dispatch_failure :
      (e : Exc) (sends ok : Bool)
      → settlement (dispatch_failure env e sends ok w).0.effects
        ≡ verdict env.task (stopped w.request) e
  unfolding dispatch_failure announce_revoked reject on_retry
  verdict-dispatch_failure memory_error sends ok = rw fresh
  verdict-dispatch_failure _ sends ok = ground arith

-- On an empty trace and a message that is not acknowledged, `on_failure` does with the message what
-- the table `verdict` says, for every class of exception, wrapped or not, and every flag.
pub verdict-on_failure :
    (env : Env) (w : World) (r : Raised) (sends ok : Bool)
    → w.effects ≡ []
    → w.request.acknowledged ≡ false
    → settlement (on_failure env r sends ok w).0.effects
      ≡ verdict env.task (stopped w.request) (unwrap r)
unfolding on_failure task_ready
verdict-on_failure env w r sends ok fresh unsettled =
    verdict-dispatch_failure env (task_ready env false w) fresh unsettled (unwrap r) sends ok

-- an effect that tells somebody of a failure
abbrev pub is_report : Effect → Bool
is_report (mark_as_failure e store) = true
is_report (signal_failure e) = true
is_report (event task_failed) = true
is_report _ = false

abbrev pub is_requeued : Verdict → Bool
is_requeued requeued = true
is_requeued _ = false

module _ (env : Env) (w : World) (fresh : w.effects ≡ [])
    (unsettled : w.request.acknowledged ≡ false) where
  requeued-dispatch_failure :
      (e : Exc) (sends ok : Bool)
      → is_requeued (verdict env.task (stopped w.request) e) ≡ true
      → any is_report (dispatch_failure env e sends ok w).0.effects ≡ false
  unfolding dispatch_failure announce_revoked reject on_retry
  requeued-dispatch_failure memory_error sends ok h = cc
  requeued-dispatch_failure _ sends ok h = ground arith

-- Where `on_failure` gets an exception, on an empty trace and a message that is not acknowledged, and
-- the table says that the message goes back to the queue, `on_failure` does not report it as failed:
-- it stores no failure, and sends no `task_failure` signal and no `task-failed` event. That is not said
-- of the other callbacks: `on_timeout` reports a failure and may put the message back.
pub requeued_unreported :
    (env : Env) (w : World) (r : Raised) (sends ok : Bool)
    → w.effects ≡ []
    → w.request.acknowledged ≡ false
    → is_requeued (verdict env.task (stopped w.request) (unwrap r)) ≡ true
    → any is_report (on_failure env r sends ok w).0.effects ≡ false
unfolding on_failure task_ready
requeued_unreported env w r sends ok fresh unsettled h =
    requeued-dispatch_failure env (task_ready env false w) fresh unsettled (unwrap r) sends ok h

-- an error that `on_failure` has no branch of its own for, or a lost worker or a time limit
abbrev pub is_error : Exc → Bool
is_error worker_lost = true
is_error time_limit_exceeded = true
is_error task_revoked = true
is_error (other n) = true
is_error _ = false

abbrev pub is_marked : Effect → Bool
is_marked (mark_as_failure e store) = true
is_marked _ = false

module _ (env : Env) (w : World) (fresh : w.effects ≡ [])
    (unsettled : w.request.acknowledged ≡ false) where
  marked-dispatch_failure :
      (e : Exc) (sends : Bool)
      → is_error e ≡ true
      → truthy w.state.should_terminate ≡ false
      → any is_marked (dispatch_failure env e sends false w).0.effects
        ≡ not (is_requeued (verdict env.task (stopped w.request) e))
  unfolding dispatch_failure reject
  marked-dispatch_failure (other n) sends h up = ground arith
  marked-dispatch_failure _ sends h up = ground arith

-- On an empty trace and a message that is not acknowledged, where the worker is not being
-- terminated, `on_failure` stores an error (`is_error`) that it gets without `return_ok` as a failure
-- exactly when the table says that the message does not go back to the queue. That is said of
-- `on_failure` alone.
pub failure_marked :
    (env : Env) (w : World) (r : Raised) (sends : Bool)
    → w.effects ≡ []
    → w.request.acknowledged ≡ false
    → is_error (unwrap r) ≡ true
    → truthy w.state.should_terminate ≡ false
    → any is_marked (on_failure env r sends false w).0.effects
      ≡ not (is_requeued (verdict env.task (stopped w.request) (unwrap r)))
unfolding on_failure task_ready State.task_ready
failure_marked env w r sends fresh unsettled h up =
    marked-dispatch_failure env (task_ready env false w) fresh unsettled (unwrap r) sends h up
