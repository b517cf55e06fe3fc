-- ===== src/Worker/Request/Revoke.antt =====
-- Revoking, terminating and cancelling a request (celery/worker/request.py).
use celery.Prelude.{
  ℕ, String, ◌==◌, string_discrete, Bool, true, false, ◌||◌, Option, none, some, List, [], ◌∷◌, ltb,
  any, if◌then◌else◌,
}
use celery.Prelude.Dict
use celery.Prelude.Dict.{Dict, is_some}
use celery.Utils.LimitedSet
use celery.Worker.State.{string_lt}
use celery.Worker.Request.{Env, World, Stamp, one, many, truthy, terminate_job, terminate_result}
use celery.Worker.Request.Steps.{emit, announce_revoked, announce_cancelled}

-- `self.expires and datetime.now(...) > self.expires`
unfoldable pub has_expired : Env → Option ℕ → Bool
has_expired env none = false
has_expired env (some expires) = ltb expires env.now

unfoldable pub maybe_expire : Env → World → World × Bool
unfolding has_expired string_lt
maybe_expire env w =
    if has_expired env w.request.expires
    then (
      record w {
        state = record w.state {
          revoked =
              LimitedSet.add string_discrete string_lt w.request.handle.id env.monotonic
                env.purge_monotonic w.state.revoked;
        };
      },
      true,
    )
    else (w, false)

-- whether a stamp has a value that is revoked
unfoldable pub stamp_revoked : List String → Stamp → Bool
stamp_revoked values (one s) = any (λ v. v == s) values
stamp_revoked values (many ss) = any (λ s. any (λ v. v == s) values) ss

-- the loop over the stamped headers, which ends at the first that is flagged
unfoldable pub revoked_by_header : Dict String (List String) → List (String × Stamp) → Bool
unfolding stamp_revoked
revoked_by_header flagged [] = false
revoked_by_header flagged ((header, stamp) ∷ stamps) =
    let rest = revoked_by_header flagged stamps in
    elim (Dict.get string_discrete header flagged) [
      | some values ↦ stamp_revoked values stamp
      | none ↦ rest
    ]

-- the tests of `revoked` after `maybe_expire`
unfoldable pub is_revoked : Bool → World → Bool
unfolding revoked_by_header
is_revoked expired w =
    expired
    || LimitedSet.contains string_discrete w.request.handle.id w.state.revoked
    || revoked_by_header w.state.revoked_stamps w.request.stamps

unfoldable pub discard_revoked : Env → World × Bool → World × Bool
unfolding is_revoked
discard_revoked env (w, expired) =
    if is_revoked expired w
    then (announce_revoked env (if expired then "expired" else "revoked") false expired w, true)
    else (w, false)

unfoldable pub revoked : Env → World → World × Bool
unfolding discard_revoked
revoked env w =
    if w.request.already_revoked then (w, true) else discard_revoked env (maybe_expire env w)

-- `obj.terminate(signal)`, where the result of `apply_async` is alive
unfoldable pub terminate_apply_result : ℕ → World → World
unfolding emit
terminate_apply_result signal w =
    if w.request.has_result then emit (terminate_result signal) w else w

-- `self._terminate_on_ack = pool, signal`
unfoldable pub set_terminate_on_ack : ℕ → World → World
set_terminate_on_ack signal w = record w {
  request = record w.request { terminate_on_ack = some signal };
}

-- `signal` is the number of the signal
unfoldable pub terminate : Env → ℕ → World → World
unfolding terminate_apply_result set_terminate_on_ack
terminate env signal w = terminate_apply_result signal (
    if truthy w.request.time_start
    then announce_revoked env "terminated" true false
        (emit (terminate_job w.request.worker_pid signal) w)
    else set_terminate_on_ack signal w)

unfoldable pub cancel : Env → ℕ → Bool → World → World
unfolding terminate_apply_result
cancel env signal emit_retry w = terminate_apply_result signal (
    if truthy w.request.time_start
    then announce_cancelled env emit_retry (emit (terminate_job w.request.worker_pid signal) w)
    else w)
