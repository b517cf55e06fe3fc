-- ===== src/App/Trace/Run/Balance.antt =====
-- The stacks of tasks and requests are left as they were found (celery/app/trace.py).
use celery.Prelude.{
  ℕ, suc, ◌-◌, ◌≡◌, refl, ap, ◌∙◌, Bool, true, false, none, some, List, [], ◌∷◌, arith,
}
use celery.Worker.Request.{
  Exc, Raised, bare, with_traceback, reject_task, ignore_task, retry_task, system_exit,
  keyboard_interrupt, memory_error,
}
use celery.App.Trace.Actions.{
  Ending, get_priority, failure, retry, internal_error_signal, Call, Signature, World, Action,
  assign, ◌then_do◌, try_finally, only_if, pass,
}
use celery.App.Trace.Actions.Balanced.{
  depths, IsBalanced, IsBalanced-pass, IsBalanced-throw, finished-depths, IsBalanced-then_do,
  IsBalanced-try_else, IsBalanced-only_if, IsBalanced-if, IsBalanced-each,
}
use celery.App.Trace.Actions.Does.{or_else-none}
use celery.App.Trace.Dispatch.{Env, call, dispatch_callbacks, dispatch_chain, dispatch}
use celery.App.Trace.Handlers.{
  handle_retry, handle_failure, handle_error_state, on_error, settle, except,
}
use celery.App.Trace.Run.{
  requeued_error, dispatch_again, return, pass_on_get_meta, check_duplicate, succeed, run_task,
  post, trace_body, raise_fatal, pop_stacks, send_postrun, clean_up, push_task, read_priority,
  push_request, set_state, trace_pushed, unless_returned, trace_request, error_of_request,
  report_error, internal_error, reset, trace, failed_outside, trace_task,
}

IsBalanced-call : (env : Env) (c : Call) → IsBalanced (call env c)
unfolding call
IsBalanced-call env c = record { at = λ w. refl }

pred_suc : (n : ℕ) → suc n - 1 ≡ n
pred_suc n = omega arith

module _ (env : Env) where
  IsBalanced-dispatch_callbacks :
      (v : ℕ) (sigs : List Signature) → IsBalanced (dispatch_callbacks env v sigs)
  unfolding dispatch_callbacks
  IsBalanced-dispatch_callbacks v [] = IsBalanced-pass
  IsBalanced-dispatch_callbacks v (s ∷ []) = IsBalanced-call env _
  IsBalanced-dispatch_callbacks v (s ∷ t ∷ sigs) =
      IsBalanced-then_do _ _ (IsBalanced-each _ _ (λ g. IsBalanced-call env _))
        (IsBalanced-only_if _ _ (IsBalanced-call env _))

  IsBalanced-dispatch_chain :
      (v : ℕ) (sigs : List Signature) → IsBalanced (dispatch_chain env v sigs)
  unfolding dispatch_chain
  IsBalanced-dispatch_chain v [] = IsBalanced-pass
  IsBalanced-dispatch_chain v (s ∷ sigs) = IsBalanced-call env _

  IsBalanced-dispatch :
      (v : ℕ) (callbacks chain : List Signature) → IsBalanced (dispatch env v callbacks chain)
  unfolding dispatch
  IsBalanced-dispatch v callbacks chain =
      IsBalanced-then_do _ _ (IsBalanced-dispatch_callbacks v callbacks)
        (IsBalanced-dispatch_chain v chain)

  -- a call that may be left out
  optional : (b : Bool) (c : Call) → IsBalanced (only_if b (call env c))
  optional b c = IsBalanced-only_if b _ (IsBalanced-call env c)

  IsBalanced-handle_error_state : (b c : Bool) → IsBalanced (handle_error_state env b c)
  unfolding handle_error_state handle_retry handle_failure
  IsBalanced-handle_error_state true c =
      IsBalanced-then_do _ _ (optional _ _)
        (IsBalanced-then_do _ _ (IsBalanced-call env _) (IsBalanced-call env _))
  IsBalanced-handle_error_state false c =
      IsBalanced-then_do _ _ (IsBalanced-call env _)
        (IsBalanced-then_do _ _ (IsBalanced-call env _) (IsBalanced-call env _))

  IsBalanced-on_error : (e : Exc) (b c : Bool) → IsBalanced (on_error env e b c)
  unfolding on_error
  IsBalanced-on_error e b c =
      IsBalanced-if _ _ _ (IsBalanced-throw e) (IsBalanced-handle_error_state b c)

  IsBalanced-settle : (s : Ending) (r : Raised) → IsBalanced (settle s r)
  unfolding settle assign
  IsBalanced-settle s r = record { at = λ w. refl }

  error_settled :
      (e : Exc) (b c : Bool) (s : Ending) (r : Raised)
      → IsBalanced (on_error env e b c then_do settle s r)
  error_settled e b c s r =
      IsBalanced-then_do _ _ (IsBalanced-on_error e b c) (IsBalanced-settle s r)

  IsBalanced-except : (e : Exc) → IsBalanced (except env e)
  unfolding except
  IsBalanced-except (reject_task requeue) = IsBalanced-settle _ _
  IsBalanced-except ignore_task = IsBalanced-settle _ _
  IsBalanced-except retry_task =
      error_settled retry_task true false retry (with_traceback retry_task)
  IsBalanced-except system_exit = IsBalanced-throw _
  IsBalanced-except keyboard_interrupt = IsBalanced-throw _
  IsBalanced-except e = error_settled e false true failure (bare e)

  IsBalanced-succeed : IsBalanced (succeed env)
  unfolding succeed
  IsBalanced-succeed =
      IsBalanced-try_else _ _ _
        (IsBalanced-then_do _ _ (IsBalanced-dispatch _ _ _) (IsBalanced-call env _))
        (λ e.
          IsBalanced-if _ _ _ (error_settled e false true failure (bare e)) (IsBalanced-throw e))
        (IsBalanced-then_do _ _ (optional _ _) (optional _ _))

  IsBalanced-run_task : IsBalanced (run_task env)
  unfolding run_task assign
  IsBalanced-run_task =
      IsBalanced-then_do _ _ (optional _ _)
        (IsBalanced-then_do _ _ (IsBalanced-call env _) (record { at = λ w. refl }))

  IsBalanced-post : IsBalanced (post env)
  unfolding post call
  IsBalanced-post = record { at = λ w. ground arith }

  IsBalanced-trace_body : IsBalanced (trace_body env)
  unfolding trace_body
  IsBalanced-trace_body = IsBalanced-then_do _ _ (optional _ _) (
      IsBalanced-then_do _ _ (IsBalanced-call env _) (
        IsBalanced-then_do _ _ (optional _ _) (
          IsBalanced-then_do _ _
            (IsBalanced-try_else _ _ _ IsBalanced-run_task IsBalanced-except IsBalanced-succeed)
            IsBalanced-post)))

  IsBalanced-raise_fatal : (e : Exc) → IsBalanced (raise_fatal e)
  unfolding raise_fatal
  IsBalanced-raise_fatal keyboard_interrupt = IsBalanced-throw _
  IsBalanced-raise_fatal system_exit = IsBalanced-throw _
  IsBalanced-raise_fatal memory_error = IsBalanced-throw _
  IsBalanced-raise_fatal _ = IsBalanced-pass

  IsBalanced-clean_up : IsBalanced (clean_up env)
  unfolding clean_up
  IsBalanced-clean_up = IsBalanced-only_if _ _ (
      IsBalanced-try_else _ _ _
        (IsBalanced-then_do _ _ (IsBalanced-call env _) (IsBalanced-call env _))
        IsBalanced-raise_fatal IsBalanced-pass)

  IsBalanced-send_postrun : IsBalanced (send_postrun env)
  unfolding send_postrun call
  IsBalanced-send_postrun = record { at = λ w. ground arith }

  pop_depths :
      (w : World) → depths ((pop_stacks then_do clean_up env) w).0 ≡ (w.tasks - 1, w.requests - 1)
  unfolding ◌then_do◌ pop_stacks assign
  pop_depths w =
      IsBalanced-clean_up.at (record w { tasks = w.tasks - 1; requests = w.requests - 1 })

  read : (w : World) → World
  read w = (read_priority env (record w { tasks = suc w.tasks })).0

  read-depths : (w : World) → depths (read w) ≡ (suc w.tasks, w.requests)
  unfolding read read_priority
  read-depths w = (optional env.inherit_parent_priority get_priority).at _

  read_priority-silent :
      env.raises get_priority ≡ none → (w : World) → (read_priority env w).1 ≡ none
  unfolding read_priority only_if call pass
  read_priority-silent readable w = ground arith

  abbrev with_request : Action
  with_request =
      push_request
      then_do try_finally (trace_body env)
          (try_finally (send_postrun env) (pop_stacks then_do clean_up env))

  run_pushed : (w : World) → depths (with_request w).0 ≡ (w.tasks - 1, w.requests)
  unfolding push_request assign ◌then_do◌ try_finally
  run_pushed w =
      let pushed : World = record w { requests = suc w.requests } in
      let ran = (trace_body env pushed).0 in
      let sent = (send_postrun env ran).0 in
      let same : depths sent ≡ (w.tasks, suc w.requests) =
        IsBalanced-send_postrun.at ran ∙ IsBalanced-trace_body.at pushed in
      finished-depths (try_finally (send_postrun env) (pop_stacks then_do clean_up env))
        (trace_body env pushed)
      ∙ finished-depths (pop_stacks then_do clean_up env) (send_postrun env ran)
      ∙ pop_depths sent
      ∙ ap (λ p. (p.0 - 1, p.1 - 1)) same
      ∙ ap (λ n. (w.tasks - 1, n)) (pred_suc w.requests)

  IsBalanced-trace_pushed : env.raises get_priority ≡ none → IsBalanced (trace_pushed env)
  unfolding trace_pushed push_task assign ◌then_do◌ read
  IsBalanced-trace_pushed readable = record {
    at = λ w.
        let one : World = record w { tasks = suc w.tasks } in
        ap (λ r. depths r.0)
          (or_else-none with_request (read_priority env one) (read_priority-silent readable one))
        ∙ run_pushed (read w)
        ∙ ap (λ p. (p.0 - 1, p.1)) (read-depths w)
        ∙ ap (λ n. (n, w.requests)) (pred_suc w.tasks);
  }

  IsBalanced-requeued_error : (e : Exc) → IsBalanced (requeued_error e)
  unfolding requeued_error
  IsBalanced-requeued_error memory_error = IsBalanced-throw _
  IsBalanced-requeued_error system_exit = IsBalanced-throw _
  IsBalanced-requeued_error keyboard_interrupt = IsBalanced-throw _
  IsBalanced-requeued_error _ = IsBalanced-throw _

  IsBalanced-dispatch_again : IsBalanced (dispatch_again env)
  unfolding dispatch_again
  IsBalanced-dispatch_again =
      IsBalanced-try_else _ _ _
        (IsBalanced-then_do _ _ (IsBalanced-call env _) (
          IsBalanced-then_do _ _ (IsBalanced-only_if _ _ (IsBalanced-dispatch _ _ _))
            (IsBalanced-call env _)))
        IsBalanced-requeued_error IsBalanced-pass

  IsBalanced-return : IsBalanced return
  unfolding return assign
  IsBalanced-return = record { at = λ w. refl }

  IsBalanced-pass_on_get_meta : (e : Exc) → IsBalanced (pass_on_get_meta env e)
  unfolding pass_on_get_meta
  IsBalanced-pass_on_get_meta e = IsBalanced-if _ _ _ IsBalanced-pass (IsBalanced-throw e)

  IsBalanced-set_state : IsBalanced (set_state env)
  unfolding set_state assign
  IsBalanced-set_state = record { at = λ w. refl }

  IsBalanced-check_duplicate : IsBalanced (check_duplicate env)
  unfolding check_duplicate
  IsBalanced-check_duplicate = IsBalanced-only_if _ _ (
      IsBalanced-if _ _ _ IsBalanced-return (
        IsBalanced-try_else _ _ _ (IsBalanced-call env _) IsBalanced-pass_on_get_meta (
          IsBalanced-then_do _ _ IsBalanced-set_state (
            IsBalanced-only_if _ _
              (IsBalanced-then_do _ _ IsBalanced-dispatch_again IsBalanced-return)))))

  IsBalanced-unless_returned : (m : Action) → IsBalanced m → IsBalanced (unless_returned m)
  unfolding unless_returned
  IsBalanced-unless_returned m h = record { at = λ w. ground (arith, h.at w) }

  IsBalanced-trace_request : env.raises get_priority ≡ none → IsBalanced (trace_request env)
  unfolding trace_request assign
  IsBalanced-trace_request readable = IsBalanced-if _ _ _ (IsBalanced-throw _) (
      IsBalanced-then_do _ _ (record { at = λ w. refl })
        (IsBalanced-then_do _ _ IsBalanced-check_duplicate
          (IsBalanced-unless_returned _ (IsBalanced-trace_pushed readable))))

  IsBalanced-report_error : (e : Exc) → IsBalanced (report_error env e)
  unfolding report_error assign
  IsBalanced-report_error e =
      IsBalanced-then_do _ _ (IsBalanced-call env _) (record { at = λ w. refl })

  marked_failure : IsBalanced (assign (λ v. record v { info = some failure }))
  unfolding assign
  marked_failure = record { at = λ w. refl }

  IsBalanced-error_of_request : (e : Exc) → IsBalanced (error_of_request env e)
  unfolding error_of_request
  IsBalanced-error_of_request e =
      let m = IsBalanced-then_do _ _ (IsBalanced-on_error e false true) marked_failure in
      record { at = λ w. ground (arith, m.at w) }

  signalled : (m : Action) → IsBalanced m → IsBalanced (call env internal_error_signal then_do m)
  signalled m h = IsBalanced-then_do _ _ (IsBalanced-call env _) h

  IsBalanced-internal_error : (e : Exc) → IsBalanced (internal_error env e)
  unfolding internal_error
  IsBalanced-internal_error (reject_task requeue) = IsBalanced-throw _
  IsBalanced-internal_error memory_error = IsBalanced-throw _
  IsBalanced-internal_error system_exit = IsBalanced-throw _
  IsBalanced-internal_error keyboard_interrupt = IsBalanced-throw _
  IsBalanced-internal_error e = signalled _ (
      IsBalanced-if _ _ _ (IsBalanced-throw e)
        (IsBalanced-then_do _ _ (IsBalanced-report_error e) (IsBalanced-error_of_request e)))

  IsBalanced-failed_outside : (e : Exc) → IsBalanced (failed_outside env e)
  unfolding failed_outside
  IsBalanced-failed_outside (reject_task requeue) = IsBalanced-throw _
  IsBalanced-failed_outside system_exit = IsBalanced-throw _
  IsBalanced-failed_outside keyboard_interrupt = IsBalanced-throw _
  IsBalanced-failed_outside e =
      signalled _ (IsBalanced-then_do _ _ (IsBalanced-report_error e) marked_failure)

  IsBalanced-trace : env.raises get_priority ≡ none → IsBalanced (trace env)
  unfolding trace reset assign
  IsBalanced-trace readable =
      IsBalanced-then_do _ _ (record { at = λ w. refl })
        (IsBalanced-try_else _ _ _ (IsBalanced-trace_request readable) IsBalanced-internal_error
          IsBalanced-pass)

  IsBalanced-trace_task : env.raises get_priority ≡ none → IsBalanced (trace_task env)
  unfolding trace_task
  IsBalanced-trace_task readable =
      IsBalanced-try_else _ _ _ (IsBalanced-trace readable) IsBalanced-failed_outside
        IsBalanced-pass

-- Whatever the task, its hooks, the signals, the backend and the broker raise, where the priority can
-- be read from the message's delivery_info, `trace_task` leaves the stack of tasks and that of requests
-- as deep as it found them, also where it raises itself.
pub depths-trace_task :
    (env : Env) (w : World)
    → env.raises get_priority ≡ none
    → depths (trace_task env w).0 ≡ depths w
depths-trace_task env w readable = (IsBalanced-trace_task env readable).at w
