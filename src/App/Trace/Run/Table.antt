-- ===== src/App/Trace/Run/Table.antt =====
-- What the backend and the broker see of a task that ends in a given way (celery/app/trace.py).
use celery.Prelude.{
  ℕ, true, Bool, ◌&&◌, ◌||◌, not, Option, none, some, List, [], ◌∷◌, if◌then◌else◌,
}
use celery.Worker.Request.{
  Exc, bare, with_traceback, reject_task, ignore_task, retry_task, system_exit, keyboard_interrupt,
}
use celery.App.Trace.Actions.{
  success, failure, retry, ignored, rejected, result, error_info, Call, run, apply, apply_group,
  apply_chain, mark_as_done, mark_as_retry, mark_as_failure, Signature,
}
use celery.App.Trace.Actions.Does.{View}
use celery.App.Trace.Dispatch.{Env, is_empty, groups_of, tasks_of, last_step}

-- of all calls the task alone may raise
abbrev pub only_run : Option Exc → Call → Option Exc
only_run o run = o
only_run o _ = none

abbrev pub with_task : Option Exc → Env → Env
with_task o env = record env { raises = only_run o }

-- the calls that dispatch sends, the latest first, on top of others
abbrev pub sent_groups : ℕ → List Signature → List Call → List Call
sent_groups v [] cs = cs
sent_groups v (s ∷ sigs) cs = sent_groups v sigs (apply s v ∷ cs)

abbrev pub sent_callbacks : ℕ → List Signature → List Call → List Call
sent_callbacks v [] cs = cs
sent_callbacks v (s ∷ []) cs = apply s v ∷ cs
sent_callbacks v (s ∷ t ∷ sigs) cs =
    let groups = sent_groups v (groups_of (s ∷ t ∷ sigs)) cs in
    let tasks = tasks_of (s ∷ t ∷ sigs) in
    if not (is_empty tasks) then apply_group tasks v ∷ groups else groups

abbrev pub sent_chain : ℕ → List Signature → List Call → List Call
sent_chain v [] cs = cs
sent_chain v (s ∷ sigs) cs = let (last, before) = last_step s sigs in apply_chain last before v ∷ cs

-- What the backend and the broker see of a task that ends so, where the value of a task is stored as
-- its result or not, and its error.
abbrev pub ended_with : Bool → Bool → Env → Option Exc → View → View
ended_with value_kept error_kept env none v = record v {
  marked =
      mark_as_done (value_kept)
      ∷ sent_chain env.value env.chain (sent_callbacks env.value env.callbacks v.marked);
  ret = result env.value;
  state = some success;
}
ended_with value_kept error_kept env (some (reject_task requeue)) v = record v {
  ret = error_info (with_traceback (reject_task requeue));
  info = some rejected;
  state = some rejected;
}
ended_with value_kept error_kept env (some ignore_task) v = record v {
  ret = error_info (with_traceback ignore_task);
  info = some ignored;
  state = some ignored;
}
ended_with value_kept error_kept env (some retry_task) v = record v {
  marked = if error_kept then mark_as_retry ∷ v.marked else v.marked;
  ret = error_info (with_traceback retry_task);
  info = some retry;
  state = some retry;
}
ended_with value_kept error_kept env (some system_exit) v = v
ended_with value_kept error_kept env (some keyboard_interrupt) v = v
ended_with value_kept error_kept env (some e) v = record v {
  marked = mark_as_failure (error_kept) true ∷ v.marked;
  ret = error_info (bare e);
  info = some failure;
  state = some failure;
}

-- the request says whether the result is ignored, and else the task
abbrev pub is_ignored : Env → Bool
is_ignored env = elim env.request_ignore_result [ none ↦ env.ignore_result | some b ↦ b ]

-- the task runs in a worker, or eagerly with its results stored all the same
abbrev pub is_storing : Env → Bool
is_storing env = not env.eager || env.store_eager_result

abbrev pub keeps_value : Env → Bool
keeps_value env = is_storing env && not (is_ignored env)

abbrev pub keeps_error : Env → Bool
keeps_error env = if is_ignored env then env.store_errors_even_if_ignored else is_storing env

-- what the backend and the broker see of a task that ends so
abbrev pub ended : Env → Option Exc → View → View
ended env o v = ended_with (keeps_value env) (keeps_error env) env o v

-- what the tracer raises where the task raised it
abbrev pub escapes : Option Exc → Option Exc
escapes (some system_exit) = some system_exit
escapes (some keyboard_interrupt) = some keyboard_interrupt
escapes _ = none
