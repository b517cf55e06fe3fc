-- ===== src/Worker/Request/Settled.antt =====
-- A message is acknowledged or rejected at most once (celery/worker/request.py).
use celery.Prelude.{
  ℕ, suc, ◌≡◌, refl, String, Bool, true, false, Option, none, some, List, [], ◌∷◌, arith,
  if◌then◌else◌,
}
use celery.Worker.Request.{
  Env, Effect, EventType, World, Exc, Raised, ack, nack, terminate_job, truthy, unwrap, system_exit,
  keyboard_interrupt, memory_error,
}
use celery.Worker.Request.Steps.{
  emit, task_ready, acknowledge, send_event, reject, set_revoked, announce_revoked, set_cancelled,
  announce_cancelled,
}
use celery.Worker.Request.Revoke.{
  maybe_expire, discard_revoked, revoked, terminate_apply_result, set_terminate_on_ack, terminate,
  cancel,
}
use celery.Worker.Request.Handlers.{
  start, terminate_pending, on_accepted, run_after_return, report_timeout, settle_timeout,
  on_timeout, on_retry, settle_failure, mark_failure, fail, fail_rejected, fail_exited,
  fail_terminated, dispatch_failure, on_failure, Retval, value, failed, on_success_failed,
  on_success, send_to_pool, execute_using_pool, execute,
}

-- the effects that settle the message
abbrev pub is_settlement : Effect → Bool
is_settlement ack = true
is_settlement (nack requeue) = true
is_settlement _ = false

unfoldable pub settlements : List Effect → ℕ
settlements [] = 0
settlements (e ∷ es) = if is_settlement e then suc (settlements es) else settlements es

-- the message was settled once if the request is acknowledged, and else not at all
pub record IsSettled (w : World) : Type 0 where
  pub once : settlements w.effects ≡ (if w.request.acknowledged then 1 else 0)

emit-IsSettled :
    (e : Effect) (w : World) → is_settlement e ≡ false → IsSettled w → IsSettled (emit e w)
unfolding emit settlements
emit-IsSettled e w h s = ground arith

task_ready-IsSettled :
    (env : Env) (b : Bool) (w : World) → IsSettled w → IsSettled (task_ready env b w)
unfolding task_ready
task_ready-IsSettled env b w s = record { once = s.once }

acknowledge-IsSettled : (w : World) → IsSettled w → IsSettled (acknowledge w)
unfolding acknowledge settlements
acknowledge-IsSettled w s = ground arith

send_event-IsSettled :
    (env : Env) (t : EventType) (w : World) → IsSettled w → IsSettled (send_event env t w)
unfolding send_event settlements
send_event-IsSettled env t w s = ground arith

reject-IsSettled :
    (env : Env) (requeue : Bool) (w : World) → IsSettled w → IsSettled (reject env requeue w)
unfolding reject settlements
reject-IsSettled env requeue w s = ground arith

set_revoked-IsSettled : (w : World) → IsSettled w → IsSettled (set_revoked w)
unfolding set_revoked
set_revoked-IsSettled w s = record { once = s.once }

set_cancelled-IsSettled : (w : World) → IsSettled w → IsSettled (set_cancelled w)
unfolding set_cancelled
set_cancelled-IsSettled w s = record { once = s.once }

start-IsSettled :
    (env : Env) (pid time_accepted : ℕ) (w : World)
    → IsSettled w
    → IsSettled (start env pid time_accepted w)
unfolding start
start-IsSettled env pid time_accepted w s = record { once = s.once }

if-IsSettled : (b : Bool) (v w : World) → IsSettled v → IsSettled w → IsSettled (if b then v else w)
if-IsSettled true v w s t = s
if-IsSettled false v w s t = t

ruleset settled_steps = (
  emit-IsSettled, task_ready-IsSettled, acknowledge-IsSettled, send_event-IsSettled,
  reject-IsSettled, set_revoked-IsSettled, set_cancelled-IsSettled, start-IsSettled, if-IsSettled,
  refl,
)

announce_revoked-IsSettled :
    (env : Env) (reason : String) (t x : Bool) (w : World)
    → IsSettled w
    → IsSettled (announce_revoked env reason t x w)
unfolding announce_revoked
announce_revoked-IsSettled env reason t x w s = search settled_steps depth 12

announce_cancelled-IsSettled :
    (env : Env) (b : Bool) (w : World) → IsSettled w → IsSettled (announce_cancelled env b w)
unfolding announce_cancelled
announce_cancelled-IsSettled env b w s = search settled_steps depth 12

maybe_expire-IsSettled : (env : Env) (w : World) → IsSettled w → IsSettled (maybe_expire env w).0
unfolding maybe_expire
maybe_expire-IsSettled env w s = ground arith

discard_revoked-IsSettled :
    (env : Env) (p : World × Bool) → IsSettled p.0 → IsSettled (discard_revoked env p).0
unfolding discard_revoked
discard_revoked-IsSettled env (w, expired) s = ground (
  arith,
  announce_revoked-IsSettled env "expired" false expired w s,
  announce_revoked-IsSettled env "revoked" false expired w s,
)

pub revoked-IsSettled : (env : Env) (w : World) → IsSettled w → IsSettled (revoked env w).0
unfolding revoked
revoked-IsSettled env w s =
    ground
      (arith, discard_revoked-IsSettled env (maybe_expire env w) (maybe_expire-IsSettled env w s))

set_terminate_on_ack-IsSettled :
    (signal : ℕ) (w : World) → IsSettled w → IsSettled (set_terminate_on_ack signal w)
unfolding set_terminate_on_ack
set_terminate_on_ack-IsSettled signal w s = record { once = s.once }

pub terminate-IsSettled :
    (env : Env) (signal : ℕ) (w : World) → IsSettled w → IsSettled (terminate env signal w)
unfolding terminate terminate_apply_result
terminate-IsSettled env signal w s =
    if-IsSettled w'.request.has_result _ w' (emit-IsSettled _ w' refl settled) settled
  where
    w' : World
    w' =
        if truthy w.request.time_start
        then announce_revoked env "terminated" true false
            (emit (terminate_job w.request.worker_pid signal) w)
        else set_terminate_on_ack signal w

    settled : IsSettled w'
    settled =
        search (settled_steps, announce_revoked-IsSettled, set_terminate_on_ack-IsSettled) depth 12

pub cancel-IsSettled :
    (env : Env) (signal : ℕ) (b : Bool) (w : World)
    → IsSettled w
    → IsSettled (cancel env signal b w)
unfolding cancel terminate_apply_result
cancel-IsSettled env signal b w s = search (settled_steps, announce_cancelled-IsSettled) depth 12

terminate_pending-IsSettled :
    (env : Env) (o : Option ℕ) (w : World) → IsSettled w → IsSettled (terminate_pending env o w)
unfolding terminate_pending
terminate_pending-IsSettled env none w s = s
terminate_pending-IsSettled env (some signal) w s = terminate-IsSettled env signal w s

pub on_accepted-IsSettled :
    (env : Env) (pid time_accepted : ℕ) (w : World)
    → IsSettled w
    → IsSettled (on_accepted env pid time_accepted w)
unfolding on_accepted
on_accepted-IsSettled env pid time_accepted w s =
    search (settled_steps, terminate_pending-IsSettled) depth 12

report_timeout-IsSettled : (env : Env) (w : World) → IsSettled w → IsSettled (report_timeout env w)
unfolding report_timeout run_after_return
report_timeout-IsSettled env w s = search settled_steps depth 14

pub on_timeout-IsSettled :
    (env : Env) (soft : Bool) (w : World) → IsSettled w → IsSettled (on_timeout env soft w)
unfolding on_timeout settle_timeout
on_timeout-IsSettled env soft w s = search (settled_steps, report_timeout-IsSettled) depth 12

on_retry-IsSettled : (env : Env) (w : World) → IsSettled w → IsSettled (on_retry env w)
unfolding on_retry
on_retry-IsSettled env w s = search settled_steps depth 8

fail-IsSettled :
    (env : Env) (e : Exc) (sends ok : Bool) (w : World)
    → IsSettled w
    → IsSettled (fail env e sends ok w)
unfolding fail settle_failure mark_failure
fail-IsSettled env e sends ok w s = search settled_steps depth 14

fail_rejected-IsSettled :
    (env : Env) (requeue sends : Bool) (w : World)
    → IsSettled w
    → IsSettled (fail_rejected env requeue sends w)
unfolding fail_rejected mark_failure
fail_rejected-IsSettled env requeue sends w s = search settled_steps depth 14

ruleset settled_parts = (
  settled_steps, announce_revoked-IsSettled, on_retry-IsSettled, fail-IsSettled,
  fail_rejected-IsSettled,
)

dispatch_failure-IsSettled :
    (env : Env) (e : Exc) (sends ok : Bool) (w : World)
    → IsSettled w
    → IsSettled (dispatch_failure env e sends ok w).0
unfolding dispatch_failure fail_exited fail_terminated
dispatch_failure-IsSettled env memory_error sends ok w s = s
dispatch_failure-IsSettled env _ sends ok w s = search settled_parts

pub on_failure-IsSettled :
    (env : Env) (r : Raised) (sends ok : Bool) (w : World)
    → IsSettled w
    → IsSettled (on_failure env r sends ok w).0
unfolding on_failure
on_failure-IsSettled env r sends ok w s =
    dispatch_failure-IsSettled env (unwrap r) sends ok (task_ready env false w)
      (task_ready-IsSettled env false w s)

on_success_failed-IsSettled :
    (env : Env) (e : Exc) (r : Raised) (w : World)
    → IsSettled w
    → IsSettled (on_success_failed env e r w).0
unfolding on_success_failed
on_success_failed-IsSettled env system_exit r w s = s
on_success_failed-IsSettled env keyboard_interrupt r w s = s
on_success_failed-IsSettled env _ r w s = on_failure-IsSettled env r true true w s

pub on_success-IsSettled :
    (env : Env) (r : Retval) (w : World) → IsSettled w → IsSettled (on_success env r w).0
unfolding on_success
on_success-IsSettled env value w s = search settled_steps depth 8
on_success-IsSettled env (failed r) w s = on_success_failed-IsSettled env (unwrap r) r w s

send_to_pool-IsSettled :
    (env : Env) (b : Bool) (w : World) → IsSettled w → IsSettled (send_to_pool env b w)
unfolding send_to_pool settlements emit
send_to_pool-IsSettled env b w s = record { once = s.once }

pub execute_using_pool-IsSettled :
    (env : Env) (b : Bool) (w : World) → IsSettled w → IsSettled (execute_using_pool env b w).0
unfolding execute_using_pool
execute_using_pool-IsSettled env b w s = ground (
  arith,
  revoked-IsSettled env w s,
  send_to_pool-IsSettled env b (revoked env w).0 (revoked-IsSettled env w s),
)

pub execute-IsSettled :
    (env : Env) (b : Bool) (w : World) → IsSettled w → IsSettled (execute env b w)
unfolding execute
execute-IsSettled env b w s = search (settled_steps, revoked-IsSettled) depth 12
