-- ===== src/Tests/Requests.antt =====
-- celery/worker/request.py on small inputs.
use celery.Prelude.{
  ◌≤◌, ◌≡◌, refl, String, string_discrete, true, false, not, none, some, List, [], ◌∷◌, any,
  if◌then◌else◌,
}
use celery.Prelude.Dict
use celery.Prelude.Dict.{Dict}
use celery.Utils.LimitedSet.{LimitedSet}
use celery.Worker.State.{State}
use celery.Worker.Request.{
  Task, Env, World, Request, with_traceback, bare, worker_lost, time_limit_exceeded, other, one,
  task_revoked,
}
use celery.Worker.Request.Revoke.{maybe_expire, revoked, revoked_by_header}
use celery.Worker.Request.Stamps.{header_revoked, revoked_by_header_hidden}
use celery.Worker.Request.Handlers.{done, raise, value, on_failure, execute_using_pool}
use celery.Worker.Request.Settled.{settlements}
use celery.Worker.Request.Callbacks.{
  Callback, accepted, succeeded, timed_out, sent_to_pool, call_all, settled_at_most_once,
}
use celery.Worker.Request.Failure.{
  requeued, settlement, is_report, is_marked, verdict-on_failure, requeued_unreported,
  failure_marked,
}
use celery.Worker.Request.Outcome.{IsDiscarded, is_run, revoked_discards, execute_using_pool_lem}

abbrev late_task : Task
late_task = record {
  acks_late = true;
  acks_on_failure = true;
  acks_on_timeout = false;
  reject_on_worker_lost = true;
  send_events = true;
  store_errors_even_if_ignored = false;
  has_after_return = false;
  soft_time_limit = none;
  time_limit = some 30;
}

abbrev pub env : Env
env = record {
  task = late_task;
  events_enabled = true;
  now = 1000;
  time = 1000;
  monotonic = 50;
  purge_monotonic = 50;
}

abbrev no_ids : LimitedSet String
no_ids = record { maxlen = 10; minlen = 0; expires = 100; items = []; heap = []; next_seq = 0 }

abbrev worker : State
worker = record {
  requests = [];
  reserved = [];
  active = [];
  scheduled = [];
  successful = no_ids;
  total_count = [];
  all_total_count = 0;
  revoked = no_ids;
  revoked_stamps = [];
  should_stop = none;
  should_terminate = none;
}

abbrev request : Request
request = record {
  handle = record { ref = 0; id = "a"; name = "tasks.add" };
  acknowledged = false;
  time_start = none;
  worker_pid = none;
  time_limit = none;
  soft_time_limit = none;
  already_revoked = false;
  already_cancelled = false;
  terminate_on_ack = none;
  has_result = false;
  ignore_result = false;
  expires = none;
  stamps = [];
}

abbrev pub fresh : World
fresh = record { request = request; state = worker; effects = [] }

abbrev expired : World
expired = record fresh { request = record request { expires = some 999 } }

abbrev pub calls : List (Env × Callback)
calls =
    (env, sent_to_pool true)
    ∷ (env, accepted 7 49)
    ∷ (env, timed_out false)
    ∷ (env, succeeded value)
    ∷ []

settled_at_most_once_example :
    (settlements (call_all calls fresh).effects ≤ 1)
    × (settlements (call_all calls fresh).effects
        ≡ (if (call_all calls fresh).request.acknowledged then 1 else 0))
settled_at_most_once_example = settled_at_most_once calls fresh refl refl

verdict-on_failure_example :
    settlement (on_failure env (with_traceback worker_lost) true false fresh).0.effects ≡ requeued
verdict-on_failure_example =
    verdict-on_failure env fresh (with_traceback worker_lost) true false refl refl

requeued_unreported_example :
    any is_report (on_failure env (bare time_limit_exceeded) true false fresh).0.effects ≡ false
requeued_unreported_example =
    requeued_unreported env fresh (bare time_limit_exceeded) true false refl refl refl

failure_marked_example :
    any is_marked (on_failure env (bare (other 1)) true false fresh).0.effects ≡ true
failure_marked_example = failure_marked env fresh (bare (other 1)) true refl refl refl refl

revoked_discards_example :
    IsDiscarded (revoked env expired).0
    × (revoked env (revoked env expired).0 ≡ ((revoked env expired).0, true))
unfolding revoked maybe_expire
revoked_discards_example = revoked_discards env env expired refl refl

execute_using_pool_lem_example :
    ((execute_using_pool env true fresh).1
      ≡ (if (revoked env fresh).1 then raise task_revoked else done))
    × (any is_run (execute_using_pool env true fresh).0.effects ≡ not (revoked env fresh).1)
execute_using_pool_lem_example = execute_using_pool_lem env true fresh refl

-- two stamped headers, both flagged: the value of the first is not revoked, that of the second is
abbrev flagged : Dict String (List String)
flagged = ("header_A", "value_1" ∷ []) ∷ ("header_B", "value_2" ∷ "value_3" ∷ []) ∷ []

revoked_by_header_hidden_example :
    (revoked_by_header flagged (("header_A", one "other") ∷ ("header_B", one "value_2") ∷ [])
      ≡ false)
    × (any (header_revoked flagged) (("header_A", one "other") ∷ ("header_B", one "value_2") ∷ [])
        ≡ true)
unfolding revoked_by_header Dict.get string_discrete
revoked_by_header_hidden_example =
    revoked_by_header_hidden flagged "header_A" (one "other") ("value_1" ∷ [])
      (("header_B", one "value_2") ∷ []) refl refl refl
