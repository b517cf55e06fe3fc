-- ===== src/Tests/Traces.antt =====
-- Runs of `trace_task` (celery/app/trace.py) on small inputs.
use celery.Prelude.{◌≡◌, refl, true, false, ◌⊎◌, none, some, Option, [], ◌∷◌}
use celery.Tests.Requests.{env, fresh}
use celery.Worker.Request.{Exc, other, reject_task}
use celery.Worker.Request.Failure.{requeued, settlement}
use celery.Worker.Request.Handlers.{on_success}
use celery.App.Trace.Actions.{
  Call, get_priority, World, nothing, result, task, group, apply_group, apply_chain, apply,
  mark_as_done, internal_error_signal, prepare_exception, success, try_else, ◌then_do◌, assign,
  only_if, pass, try_finally, each, throw,
}
use celery.App.Trace.Actions.Balanced.{depths}
use celery.App.Trace.Actions.Does.{view}
use celery.App.Trace.Dispatch.{Env, call, dispatch, dispatch_callbacks, dispatch_chain}
use celery.App.Trace.Handlers.{
  except, get_actual_ignore_result, handle_error_state, handle_failure, handle_retry, on_error,
  settle, stores_errors,
}
use celery.App.Trace.Run.{
  retval_of, trace_task, trace, reset, trace_request, check_duplicate, unless_returned,
  trace_pushed, push_task, read_priority, push_request, set_state, pop_stacks, clean_up,
  raise_fatal, send_postrun, error_of_request, failed_outside, internal_error, pass_on_get_meta,
  post, publishes, report_error, run_task, succeed, trace_body, tracks,
}
use celery.App.Trace.Run.Balance.{depths-trace_task}
use celery.App.Trace.Run.Table.{with_task}
use celery.App.Trace.Run.Outcome.{trace_task-ended}
use celery.App.Trace.Run.Settles.{is_let_through, settlement-trace_task, trace_task-raises}

abbrev quiet : Env
quiet = record {
  raises = λ c. none;
  is_encode_error = λ e. false;
  is_get_meta_error = λ e. false;
  kwargs_are_mapping = true;
  eager = false;
  propagate = false;
  request_ignore_result = none;
  ignore_result = false;
  track_started = true;
  store_eager_result = false;
  store_errors_even_if_ignored = false;
  deduplicate = true;
  redelivered = false;
  inherit_parent_priority = true;
  in_successful_requests = false;
  stored_success = false;
  stored_result = 0;
  stored_children = false;
  value = 42;
  callbacks = task 1 ∷ group 2 ∷ task 3 ∷ [];
  chain = task 5 ∷ task 4 ∷ [];
  has_before_start = true;
  has_on_success = true;
  has_after_return = true;
  prerun_receivers = true;
  postrun_receivers = true;
  success_receivers = true;
}

abbrev idle_world : World
idle_world = record {
  calls = [];
  tasks = 1;
  requests = 0;
  has_request = false;
  ret = nothing;
  info = none;
  state = none;
  returned = false;
}

-- every call raises, less the read of the priority
abbrev raised_by : Call → Option Exc
raised_by get_priority = none
raised_by _ = some (other 7)

abbrev broken : Env
broken = record quiet { raises = raised_by }

depths-trace_task_example : depths (trace_task broken idle_world).0 ≡ (1, 0)
depths-trace_task_example = depths-trace_task broken idle_world refl

trace_task-ended_example :
    ((trace_task (with_task none quiet) idle_world).1 ≡ none)
    × (view (trace_task (with_task none quiet) idle_world).0 ≡ record {
      marked =
          mark_as_done true
          ∷ apply_chain (task 4) (task 5 ∷ []) 42
          ∷ apply_group (task 1 ∷ task 3 ∷ []) 42
          ∷ apply (group 2) 42
          ∷ [];
      has_request = true;
      ret = result 42;
      info = none;
      state = some success;
      returned = false;
    })
unfolding publishes get_actual_ignore_result
trace_task-ended_example = trace_task-ended quiet idle_world refl refl refl none

settlement-trace_task_example :
    settlement
      (on_success env
        (retval_of (trace_task (with_task (some (reject_task true)) quiet) idle_world).0)
        fresh).0.effects
    ≡ requeued
settlement-trace_task_example =
    settlement-trace_task quiet idle_world refl refl refl (some (reject_task true)) env fresh refl
      refl refl

-- the report of an internal error raises too
trace_task-raises_example :
    (is_let_through (other 7) ≡ true)
    ⊎ (broken.raises internal_error_signal ≡ some (other 7))
    ⊎ (broken.raises prepare_exception ≡ some (other 7))
unfolding try_else ◌then_do◌ assign only_if pass try_finally each throw call dispatch
    dispatch_callbacks dispatch_chain except get_actual_ignore_result handle_error_state
    handle_failure handle_retry on_error settle stores_errors trace_task trace reset trace_request
    check_duplicate unless_returned trace_pushed push_task read_priority push_request set_state
    pop_stacks clean_up raise_fatal send_postrun error_of_request failed_outside internal_error
    pass_on_get_meta post publishes report_error run_task succeed trace_body tracks
trace_task-raises_example = trace_task-raises broken idle_world (other 7) refl
