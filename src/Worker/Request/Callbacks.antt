-- ===== src/Worker/Request/Callbacks.antt =====
-- Any sequence of calls on a request, with other requests served in between
-- (celery/worker/request.py).
use celery.Prelude.{ℕ, ◌≤◌, ◌≡◌, refl, Bool, false, List, [], ◌∷◌, arith, if◌then◌else◌}
use celery.Worker.State.{State}
use celery.Worker.Request.{Env, World, Raised}
use celery.Worker.Request.Revoke.{revoked, terminate, cancel}
use celery.Worker.Request.Handlers.{
  Retval, on_accepted, on_timeout, on_success, on_failure, execute_using_pool, execute,
}
use celery.Worker.Request.Settled.{
  IsSettled, settlements, revoked-IsSettled, terminate-IsSettled, cancel-IsSettled,
  on_accepted-IsSettled, on_timeout-IsSettled, on_success-IsSettled, on_failure-IsSettled,
  execute_using_pool-IsSettled, execute-IsSettled,
}

pub data Callback : Type 0 where
  check_revoked : Callback
  terminated_by : ℕ → Callback
  cancelled_by : ℕ → Bool → Callback
  accepted : ℕ → ℕ → Callback
  timed_out : Bool → Callback
  succeeded : Retval → Callback
  failed_with : Raised → Bool → Bool → Callback
  sent_to_pool : Bool → Callback
  executed : Bool → Callback
  -- what other requests and the remote control do to the state of the worker
  elsewhere : State → Callback

unfoldable pub call : Env → Callback → World → World
call env check_revoked w = (revoked env w).0
call env (terminated_by signal) w = terminate env signal w
call env (cancelled_by signal emit_retry) w = cancel env signal emit_retry w
call env (accepted pid time_accepted) w = on_accepted env pid time_accepted w
call env (timed_out soft) w = on_timeout env soft w
call env (succeeded r) w = (on_success env r w).0
call env (failed_with r sends ok) w = (on_failure env r sends ok w).0
call env (sent_to_pool has_result) w = (execute_using_pool env has_result w).0
call env (executed failed_info) w = execute env failed_info w
call env (elsewhere s) w = record w { state = s }

unfoldable pub call_all : List (Env × Callback) → World → World
call_all [] w = w
call_all ((env, c) ∷ cs) w = call_all cs (call env c w)

call-IsSettled : (env : Env) (c : Callback) (w : World) → IsSettled w → IsSettled (call env c w)
unfolding call
call-IsSettled env check_revoked w s = revoked-IsSettled env w s
call-IsSettled env (terminated_by signal) w s = terminate-IsSettled env signal w s
call-IsSettled env (cancelled_by signal b) w s = cancel-IsSettled env signal b w s
call-IsSettled env (accepted pid t) w s = on_accepted-IsSettled env pid t w s
call-IsSettled env (timed_out soft) w s = on_timeout-IsSettled env soft w s
call-IsSettled env (succeeded r) w s = on_success-IsSettled env r w s
call-IsSettled env (failed_with r sends ok) w s = on_failure-IsSettled env r sends ok w s
call-IsSettled env (sent_to_pool b) w s = execute_using_pool-IsSettled env b w s
call-IsSettled env (executed b) w s = execute-IsSettled env b w s
call-IsSettled env (elsewhere t) w s = record { once = s.once }

call_all-IsSettled :
    (cs : List (Env × Callback)) (w : World) → IsSettled w → IsSettled (call_all cs w)
unfolding call_all
call_all-IsSettled [] w s = s
call_all-IsSettled ((env, c) ∷ cs) w s =
    call_all-IsSettled cs (call env c w) (call-IsSettled env c w s)

-- From a request that is not acknowledged, on an empty trace, any sequence of calls settles the
-- message at most once, and has settled it exactly when the request is marked acknowledged.
pub settled_at_most_once :
    (cs : List (Env × Callback)) (w : World)
    → w.effects ≡ []
    → w.request.acknowledged ≡ false
    → (settlements (call_all cs w).effects ≤ 1)
      × (settlements (call_all cs w).effects
          ≡ (if (call_all cs w).request.acknowledged then 1 else 0))
settled_at_most_once cs w e a =
    let s : IsSettled w = record { once = unfold settlements in rw (e, a) refl } in
    ground (arith, (call_all-IsSettled cs w s).once)
