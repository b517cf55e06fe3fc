-- ===== src/Worker/Request/Steps.antt =====
-- The steps that the methods of `Request` share (celery/worker/request.py): effects, the
-- acknowledgement of the message, events, and the announcements.
use celery.Prelude.{String, Bool, true, false, ◌&&◌, ◌∷◌, if◌then◌else◌}
use celery.Worker.State
use celery.Worker.State.{State}
use celery.Worker.Request.{
  Env, Effect, EventType, World, store_errors, ack, nack, event, mark_as_revoked, mark_as_retry,
  signal_revoked, signal_retry, hook_retry, task_revoked_event, task_rejected, task_cancelled,
}

unfoldable pub emit : Effect → World → World
emit e w = record w { effects = e ∷ w.effects }

-- `task_ready(self, successful)`
unfoldable pub task_ready : Env → Bool → World → World
task_ready env successful w = record w {
  state = State.task_ready w.request.handle successful env.monotonic env.purge_monotonic w.state;
}

unfoldable pub acknowledge : World → World
acknowledge w =
    if w.request.acknowledged
    then w
    else record w { request = record w.request { acknowledged = true }; effects = ack ∷ w.effects }

unfoldable pub send_event : Env → EventType → World → World
unfolding emit
send_event env type w =
    if env.events_enabled && env.task.send_events then emit (event type) w else w

unfoldable pub mark_rejected : Bool → World → World
mark_rejected requeue w = record w {
  request = record w.request { acknowledged = true };
  effects = nack requeue ∷ w.effects;
}

unfoldable pub reject : Env → Bool → World → World
unfolding mark_rejected send_event
reject env requeue w =
    if w.request.acknowledged then w else send_event env task_rejected (mark_rejected requeue w)

unfoldable pub set_revoked : World → World
set_revoked w = record w { request = record w.request { already_revoked = true } }

-- `signum` reaches the event and the signal only, and is left out of them
unfoldable pub announce_revoked : Env → String → Bool → Bool → World → World
unfolding emit task_ready send_event acknowledge set_revoked
announce_revoked env reason terminated expired w =
    let w1 = send_event env (task_revoked_event terminated expired) (task_ready env false w) in
    let w2 = acknowledge (emit (mark_as_revoked reason (store_errors env w.request)) w1) in
    emit (signal_revoked terminated expired) (set_revoked w2)

unfoldable pub set_cancelled : World → World
set_cancelled w = record w { request = record w.request { already_cancelled = true } }

unfoldable pub announce_cancelled : Env → Bool → World → World
unfolding emit task_ready send_event set_cancelled
announce_cancelled env emit_retry w =
    let w1 = send_event env task_cancelled (task_ready env false w) in
    if emit_retry
    then emit signal_retry (set_cancelled (emit hook_retry (emit mark_as_retry w1)))
    else set_cancelled w1
