-- ===== src/Worker/Request/Outcome.antt =====
-- What the other methods of a request come to (celery/worker/request.py).
use celery.Prelude.{
  ℕ, String, ◌<◌, ◌-◌, ◌≡◌, refl, Bool, Bool-cases, true, false, ◌&&◌, not, inl, inr, none, some,
  [], arith, any, string_discrete, eqb, if◌then◌else◌,
}
use celery.Prelude.Dict
use celery.Worker.State.{is_member}
use celery.Worker.State.Registry.{task_ready_forgets}
use celery.Worker.Request.{
  Env, Effect, World, truthy, apply_async, run_inline, terminate_job, task_revoked, task_started,
}
use celery.Worker.Request.Steps.{
  emit, task_ready, acknowledge, send_event, reject, announce_revoked,
}
use celery.Worker.Request.Revoke.{maybe_expire, is_revoked, discard_revoked, revoked, terminate}
use celery.Worker.Request.Handlers.{
  done, raise, Retval, value, failed, on_accepted, on_timeout, on_success, on_success_for,
  execute_using_pool, send_to_pool, start,
}
use celery.Worker.Request.Failure.{acked, requeued, untouched, settlement}

-- The class that `create_request_cls` makes answers a success as `Request` does, where whether the
-- task acknowledges late and whether the dispatcher is enabled are as when the class was made.
pub on_success_for-eq :
    (env : Env) (r : Retval) (w : World)
    → on_success_for env.task.acks_late env.events_enabled env r w ≡ on_success env r w
unfolding on_success_for on_success send_event
on_success_for-eq env value w = ground arith
on_success_for-eq env (failed r) w = refl

-- the request is not known to the worker any more
pub record IsForgotten (w : World) : Type 0 where
  pub not_reserved : is_member w.request.handle.ref w.state.reserved ≡ false
  pub not_active : is_member w.request.handle.ref w.state.active ≡ false
  pub not_scheduled : is_member w.request.handle.ref w.state.scheduled ≡ false
  pub not_found : Dict.has string_discrete w.request.handle.id w.state.requests ≡ false

-- the message is settled, the request is marked, and the worker has forgotten it
pub record IsDiscarded (w : World) : Type 0 where
  pub settled : w.request.acknowledged ≡ true
  pub marked : w.request.already_revoked ≡ true
  pub forgotten : IsForgotten w

announce_revoked-IsDiscarded :
    (env : Env) (reason : String) (t x : Bool) (w : World)
    → IsDiscarded (announce_revoked env reason t x w)
unfolding announce_revoked
announce_revoked-IsDiscarded env reason t x w =
    ground
      (arith, task_ready_forgets w.request.handle false env.monotonic env.purge_monotonic w.state)

discard_revoked-IsDiscarded :
    (env : Env) (p : World × Bool)
    → (discard_revoked env p).1 ≡ true
    → IsDiscarded (discard_revoked env p).0
unfolding discard_revoked
discard_revoked-IsDiscarded env (w, x) h = elim (Bool-cases (is_revoked x w)) [
  | inl t ↦ rw t (announce_revoked-IsDiscarded env (if x then "expired" else "revoked") false x w)
  | inr t ↦ absurd (ground arith)
]

revoked_again :
    (env : Env) (w : World) → w.request.already_revoked ≡ true → revoked env w ≡ (w, true)
unfolding revoked
revoked_again env w h = rw h

revoked_new :
    (env : Env) (w : World)
    → w.request.already_revoked ≡ false
    → revoked env w ≡ discard_revoked env (maybe_expire env w)
unfolding revoked
revoked_new env w h = rw h

-- A request that was not revoked before and that `revoked` finds revoked is discarded, and to ask
-- again changes nothing.
pub revoked_discards :
    (env later : Env) (w : World)
    → w.request.already_revoked ≡ false
    → (revoked env w).1 ≡ true
    → IsDiscarded (revoked env w).0 × (revoked later (revoked env w).0 ≡ ((revoked env w).0, true))
revoked_discards env later w h r =
    let e = revoked_new env w h in
    let d = discard_revoked-IsDiscarded env (maybe_expire env w) (rw e at r) in
    rw e (d, revoked_again later (discard_revoked env (maybe_expire env w)).0 d.marked)

-- whether an effect runs the task
abbrev pub is_run : Effect → Bool
is_run (apply_async soft hard) = true
is_run run_inline = true
is_run _ = false

discard_revoked-runs :
    (env : Env) (p : World × Bool)
    → any is_run (discard_revoked env p).0.effects ≡ any is_run p.0.effects
unfolding discard_revoked announce_revoked
discard_revoked-runs env (w, x) = ground arith

revoked-runs : (env : Env) (w : World) → any is_run (revoked env w).0.effects ≡ any is_run w.effects
unfolding revoked maybe_expire
revoked-runs env w = ground (arith, discard_revoked-runs env (maybe_expire env w))

-- On an empty trace, a request is handed to the pool exactly when `revoked` does not find it
-- revoked; `execute_using_pool` raises `TaskRevokedError` exactly when it does.
pub execute_using_pool_lem :
    (env : Env) (has_result : Bool) (w : World)
    → w.effects ≡ []
    → ((execute_using_pool env has_result w).1
        ≡ (if (revoked env w).1 then raise task_revoked else done))
      × (any is_run (execute_using_pool env has_result w).0.effects ≡ not (revoked env w).1)
unfolding execute_using_pool send_to_pool emit
execute_using_pool_lem env has_result w fresh = ground (arith, revoked-runs env w)

-- When the pool accepts a request with an empty trace whose message is not acknowledged and that
-- is not waiting to be terminated, the message is left untouched where the task acknowledges late,
-- and is acknowledged otherwise.
accepted_settlement :
    (env : Env) (pid time_accepted : ℕ) (w : World)
    → w.effects ≡ []
    → w.request.acknowledged ≡ false
    → w.request.terminate_on_ack ≡ none
    → settlement (on_accepted env pid time_accepted w).effects
      ≡ (if env.task.acks_late then untouched else acked)
unfolding on_accepted start send_event acknowledge
accepted_settlement env pid time_accepted w fresh unsettled no_term = ground arith

-- On an empty trace and a message that is not acknowledged, a soft time limit leaves the message
-- untouched, and so does a hard one where the task does not acknowledge late; where it does, the
-- message is acknowledged, or put back where `acks_on_timeout` is off.
pub timeout_settlement :
    (env : Env) (soft : Bool) (w : World)
    → w.effects ≡ []
    → w.request.acknowledged ≡ false
    → settlement (on_timeout env soft w).effects ≡ (
        if not soft && env.task.acks_late
        then (if env.task.acks_on_timeout then acked else requeued)
        else untouched)
unfolding on_timeout acknowledge reject emit send_event task_ready
timeout_settlement env true w fresh unsettled = rw fresh
timeout_settlement env false w fresh unsettled = ground arith

abbrev pub is_termination : ℕ → ℕ → Effect → Bool
is_termination pid signal (terminate_job (some p) s) = eqb p pid && eqb s signal
is_termination pid signal _ = false

emit-IsDiscarded : (e : Effect) (w : World) → IsDiscarded w → IsDiscarded (emit e w)
unfolding emit
emit-IsDiscarded e w d = ground arith

-- a request that runs is terminated and discarded at once
terminate_running :
    (env : Env) (signal pid : ℕ) (w : World)
    → truthy w.request.time_start ≡ true
    → w.request.worker_pid ≡ some pid
    → IsDiscarded (terminate env signal w)
      × (any (is_termination pid signal) (terminate env signal w).effects ≡ true)
unfolding terminate announce_revoked emit
terminate_running env signal pid w run p =
    let killed = emit (terminate_job w.request.worker_pid signal) w in
    ground (arith, announce_revoked-IsDiscarded env "terminated" true false killed)

-- `on_accepted` up to the pending termination
abbrev accepted_world : Env → ℕ → ℕ → World → World
accepted_world env pid time_accepted w =
    let w1 = start env pid time_accepted w in
    send_event env task_started (if env.task.acks_late then w1 else acknowledge w1)

accepted_pending :
    (env : Env) (signal pid time_accepted : ℕ) (w : World)
    → w.request.terminate_on_ack ≡ some signal
    → on_accepted env pid time_accepted w
      ≡ terminate env signal (accepted_world env pid time_accepted w)
unfolding on_accepted
accepted_pending env signal pid time_accepted w h = rw h

pending :
    (env : Env) (signal : ℕ) (w : World)
    → w.request.time_start ≡ none
    → (terminate env signal w).request.terminate_on_ack ≡ some signal
unfolding terminate emit
pending env signal w h = ground arith

accepted_started :
    (env : Env) (pid time_accepted : ℕ) (w : World)
    → 0 < env.time - (env.monotonic - time_accepted)
    → (truthy (accepted_world env pid time_accepted w).request.time_start ≡ true)
      × ((accepted_world env pid time_accepted w).request.worker_pid ≡ some pid)
unfolding start send_event acknowledge
accepted_started env pid time_accepted w pos = ground arith

-- A request with no start time that is terminated, and is then accepted by the pool at a start
-- time past 0, is discarded as it is accepted, and its job is terminated by its process id.
pub terminate_before_accept :
    (env env' : Env) (signal pid time_accepted : ℕ) (w : World)
    → w.request.time_start ≡ none
    → 0 < env'.time - (env'.monotonic - time_accepted)
    → IsDiscarded (on_accepted env' pid time_accepted (terminate env signal w))
      × (any
            (is_termination pid signal)
            (on_accepted env' pid time_accepted (terminate env signal w)).effects
          ≡ true)
terminate_before_accept env env' signal pid time_accepted w h pos =
    rw
      (accepted_pending env' signal pid time_accepted (terminate env signal w)
        (pending env signal w h))
      (let (a, b) = accepted_started env' pid time_accepted (terminate env signal w) pos in
        terminate_running env' signal pid _ a b)
