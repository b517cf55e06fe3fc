-- ===== src/App/Trace/Dispatch.antt =====
-- The callbacks and the chain of a task that is done: `_dispatch_callbacks_and_chain`
-- (celery/app/trace.py). `group(sigs).apply_async` of a list is one call, as is that of a group.
use celery.Prelude.{ℕ, Bool, true, false, not, Option, List, [], ◌∷◌}
use celery.Worker.Request.{Exc}
use celery.App.Trace.Actions.{
  Signature, task, group, Call, apply, apply_group, apply_chain, Action, pass, ◌then_do◌, only_if,
  each,
}

-- What the tracer reads: the task, its request, the settings of the app, which calls raise, and
-- which exceptions are an `EncodeError` or a `BackendGetMetaError`.
pub record Env : Type 0 where
  pub raises : Call → Option Exc
  pub is_encode_error : Exc → Bool
  pub is_get_meta_error : Exc → Bool
  pub kwargs_are_mapping : Bool
  pub eager : Bool
  pub propagate : Bool
  -- of the request, where it is set, and of the task
  pub request_ignore_result : Option Bool
  pub ignore_result : Bool
  pub track_started : Bool
  pub store_eager_result : Bool
  pub store_errors_even_if_ignored : Bool
  -- `deduplicate_successful_tasks`, and whether the message was delivered before
  pub deduplicate : Bool
  pub redelivered : Bool
  pub inherit_parent_priority : Bool
  pub in_successful_requests : Bool
  pub stored_success : Bool
  pub stored_result : ℕ
  pub stored_children : Bool
  -- what the task returns, where it does not raise
  pub value : ℕ
  pub callbacks : List Signature
  pub chain : List Signature
  pub has_before_start : Bool
  pub has_on_success : Bool
  pub has_after_return : Bool
  pub prerun_receivers : Bool
  pub postrun_receivers : Bool
  pub success_receivers : Bool

-- a call, which is made before it raises
unfoldable pub call : Env → Call → Action
call env c w = (record w { calls = c ∷ w.calls }, env.raises c)

-- the callbacks that are groups, and those that are not
abbrev pub groups_of : List Signature → List Signature
groups_of [] = []
groups_of (group n ∷ sigs) = group n ∷ groups_of sigs
groups_of (task n ∷ sigs) = groups_of sigs

abbrev pub tasks_of : List Signature → List Signature
tasks_of [] = []
tasks_of (group n ∷ sigs) = tasks_of sigs
tasks_of (task n ∷ sigs) = task n ∷ tasks_of sigs

abbrev pub is_empty : List Signature → Bool
is_empty [] = true
is_empty (_ ∷ _) = false

-- `chain[-1]`, with the `chain[:-1]` before it
abbrev pub last_step : Signature → List Signature → Signature × List Signature
last_step s [] = (s, [])
last_step s (t ∷ sigs) = let (l, before) = last_step t sigs in (l, s ∷ before)

unfoldable pub dispatch_callbacks : Env → ℕ → List Signature → Action
dispatch_callbacks env value [] = pass
dispatch_callbacks env value (s ∷ []) = call env (apply s value)
dispatch_callbacks env value (s ∷ t ∷ sigs) =
    let all = s ∷ t ∷ sigs in
    each (λ g. call env (apply g value)) (groups_of all)
    then_do only_if (not (is_empty (tasks_of all))) (call env (apply_group (tasks_of all) value))

unfoldable pub dispatch_chain : Env → ℕ → List Signature → Action
dispatch_chain env value [] = pass
dispatch_chain env value (s ∷ sigs) =
    let (last, before) = last_step s sigs in call env (apply_chain last before value)

unfoldable pub dispatch : Env → ℕ → List Signature → List Signature → Action
dispatch env value callbacks chain =
    dispatch_callbacks env value callbacks then_do dispatch_chain env value chain
