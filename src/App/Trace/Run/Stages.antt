-- ===== src/App/Trace/Run/Stages.antt =====
-- Each part of `trace_task` where nothing but the task raises (celery/app/trace.py).
use celery.Prelude.{
  ℕ, ◌≡◌, refl, ap, Bool, true, false, not, Option, none, some, List, [], ◌∷◌, arith, if◌then◌else◌,
}
use mathlib.Core.Path.{subst}
use celery.Worker.Request.{
  Exc, Raised, bare, with_traceback, reject_task, ignore_task, retry_task, system_exit,
  keyboard_interrupt,
}
use celery.App.Trace.Actions.{
  Ending, get_priority, success, failure, retry, ignored, rejected, result, error_info, Call, run,
  before_start, on_success, success_signal, prerun, task_init, store_started, process_cleanup,
  loader_cleanup, on_retry, retry_signal, on_failure, failure_signal, apply, apply_group,
  mark_as_done, mark_as_retry, mark_as_failure, Signature, Action, assign, ◌then_do◌, try_else,
  try_finally, only_if, each,
}
use celery.App.Trace.Actions.Does.{
  marks, View, view, Does, Does-pass, Does-throw, Does-then_do, Does-else, Does-finally, Does-stop,
  Does-except as Does-excepted,
}
use celery.App.Trace.Dispatch.{
  Env, call, is_empty, groups_of, tasks_of, dispatch_callbacks, dispatch_chain, dispatch,
}
use celery.App.Trace.Handlers.{
  handle_retry, handle_failure, handle_error_state, stores_errors, get_actual_ignore_result,
  on_error, settle, except,
}
use celery.App.Trace.Run.{
  publishes, tracks, succeed, run_task, post, trace_body, raise_fatal, pop_stacks, send_postrun,
  clean_up, push_task, read_priority, push_request, trace_pushed,
}
use celery.App.Trace.Run.Table.{
  only_run, with_task, sent_groups, sent_callbacks, sent_chain, ended, ended_with, keeps_value,
  keeps_error, escapes,
}

module _ (o : Option Exc) (base : Env) where
  abbrev env : Env
  env = with_task o base

  -- a call that the view shows, or not
  shown :
      (c : Call) (f : List Call → List Call)
      → only_run o c ≡ none
      → ((cs : List Call) → marks (c ∷ cs) ≡ f (marks cs))
      → Does (call env c) none (λ v. record v { marked = f v.marked })
  unfolding call
  shown c f silent m = record {
    ends = λ w. silent;
    sees = λ w. ap (λ l. record (view w) { marked = l }) (m w.calls);
  }

  hook :
      (c : Call)
      → only_run o c ≡ none
      → ((cs : List Call) → marks (c ∷ cs) ≡ marks cs)
      → Does (call env c) none (λ v. v)
  unfolding call
  hook c silent m = record {
    ends = λ w. silent;
    sees = λ w. ap (λ l. record (view w) { marked = l }) (m w.calls);
  }

  optional :
      (b : Bool) (c : Call)
      → only_run o c ≡ none
      → ((cs : List Call) → marks (c ∷ cs) ≡ marks cs)
      → Does (only_if b (call env c)) none (λ v. v)
  unfolding only_if
  optional true c silent m = hook c silent m
  optional false c silent m = Does-pass

  optional_shown :
      (b : Bool) (c : Call) (f : List Call → List Call)
      → only_run o c ≡ none
      → ((cs : List Call) → marks (c ∷ cs) ≡ f (marks cs))
      → Does
          (only_if b (call env c))
          none
          (λ v. record v { marked = if b then f v.marked else v.marked })
  unfolding only_if
  optional_shown true c f silent m = shown c f silent m
  optional_shown false c f silent m = Does-pass

  unseen_if : (b : Bool) (m : Action) → Does m none (λ v. v) → Does (only_if b m) none (λ v. v)
  unfolding only_if
  unseen_if true m d = d
  unseen_if false m d = Does-pass

  Does-groups :
      (v : ℕ) (sigs : List Signature)
      → Does
          (each (λ g. call env (apply g v)) sigs)
          none
          (λ u. record u { marked = sent_groups v sigs u.marked })
  unfolding each
  Does-groups v [] = Does-pass
  Does-groups v (s ∷ sigs) =
      Does-then_do _ _ none (λ u. record u { marked = apply s v ∷ u.marked }) _
        (shown (apply s v) (λ l. apply s v ∷ l) refl (λ cs. refl)) (Does-groups v sigs)

  Does-dispatch_callbacks :
      (v : ℕ) (sigs : List Signature)
      → Does
          (dispatch_callbacks env v sigs)
          none
          (λ u. record u { marked = sent_callbacks v sigs u.marked })
  unfolding dispatch_callbacks
  Does-dispatch_callbacks v [] = Does-pass
  Does-dispatch_callbacks v (s ∷ []) = shown (apply s v) (λ l. apply s v ∷ l) refl (λ cs. refl)
  Does-dispatch_callbacks v (s ∷ t ∷ sigs) =
      let tasks = tasks_of (s ∷ t ∷ sigs) in
      Does-then_do _ _ none _ _ (Does-groups v (groups_of (s ∷ t ∷ sigs))) (
        optional_shown (not (is_empty tasks)) (apply_group tasks v) (λ l. apply_group tasks v ∷ l)
          refl (λ cs. refl))

  Does-dispatch_chain :
      (v : ℕ) (sigs : List Signature)
      → Does
          (dispatch_chain env v sigs)
          none
          (λ u. record u { marked = sent_chain v sigs u.marked })
  unfolding dispatch_chain
  Does-dispatch_chain v [] = Does-pass
  Does-dispatch_chain v (s ∷ sigs) = shown _ (λ l. _ ∷ l) refl (λ cs. refl)

  Does-dispatch :
      (v : ℕ) (callbacks chain : List Signature)
      → Does
          (dispatch env v callbacks chain)
          none
          (λ u. record u { marked = sent_chain v chain (sent_callbacks v callbacks u.marked) })
  unfolding dispatch
  Does-dispatch v callbacks chain =
      Does-then_do _ _ none _ _ (Does-dispatch_callbacks v callbacks) (Does-dispatch_chain v chain)

  Does-post : Does (post env) none (λ v. v)
  unfolding post call
  Does-post = record { ends = λ w. ground arith; sees = λ w. ground arith }

  Does-send_postrun : Does (send_postrun env) none (λ v. v)
  unfolding send_postrun call
  Does-send_postrun = record { ends = λ w. ground arith; sees = λ w. ground arith }

  Does-clean_up : Does (clean_up env) none (λ v. v)
  unfolding clean_up
  Does-clean_up = unseen_if _ _ (
      Does-else _ _ none (λ v. v) (λ v. v) raise_fatal
        (Does-then_do _ _ none (λ v. v) (λ v. v) (hook process_cleanup refl (λ cs. refl))
          (hook loader_cleanup refl (λ cs. refl)))
        Does-pass)

  Does-pop_stacks : Does pop_stacks none (λ v. v)
  unfolding pop_stacks assign
  Does-pop_stacks = record { ends = λ w. refl; sees = λ w. refl }

  Does-push_task : Does push_task none (λ v. v)
  unfolding push_task assign
  Does-push_task = record { ends = λ w. refl; sees = λ w. refl }

  Does-read_priority : Does (read_priority env) none (λ v. v)
  unfolding read_priority
  Does-read_priority = optional _ get_priority refl (λ cs. refl)

  Does-push_request : Does push_request none (λ v. v)
  unfolding push_request assign
  Does-push_request = record { ends = λ w. refl; sees = λ w. refl }

  -- what stands before the task and after it does not show
  enclosed :
      (m : Action) (r : Option Exc) (f : View → View)
      → Does m r f
      → Does
          (push_task
            then_do read_priority env
            then_do push_request
            then_do try_finally
                (only_if env.prerun_receivers (call env prerun)
                  then_do call env task_init
                  then_do only_if (tracks env) (call env store_started)
                  then_do m)
                (try_finally (send_postrun env) (pop_stacks then_do clean_up env)))
          r
          f
  enclosed m r f d =
      Does-then_do _ _ r (λ v. v) f Does-push_task
        (Does-then_do _ _ r (λ v. v) f Does-read_priority
          (Does-then_do _ _ r (λ v. v) f Does-push_request
            (Does-finally _ _ r f (λ v. v)
              (Does-then_do _ _ r (λ v. v) f (optional _ prerun refl (λ cs. refl))
                (Does-then_do _ _ r (λ v. v) f (hook task_init refl (λ cs. refl))
                  (Does-then_do _ _ r (λ v. v) f (optional _ store_started refl (λ cs. refl)) d)))
              (Does-finally _ _ none (λ v. v) (λ v. v) Does-send_postrun
                (Does-then_do _ _ none (λ v. v) (λ v. v) Does-pop_stacks Does-clean_up)))))

  Does-trace_pushed :
      (r : Option Exc) (f : View → View)
      → Does (try_else (run_task env) (except env) (succeed env)) r f
      → Does (trace_pushed env) r f
  unfolding trace_pushed trace_body
  Does-trace_pushed none f d = enclosed _ none f (Does-then_do _ _ none f (λ v. v) d Does-post)
  Does-trace_pushed (some e) f d = enclosed _ (some e) f (Does-stop _ e f (post env) d)

  Does-settle :
      (s : Ending) (x : Raised)
      → Does (settle s x) none (λ v. record v { ret = error_info x; info = some s; state = some s })
  unfolding settle assign
  Does-settle s x = record { ends = λ w. refl; sees = λ w. refl }

  Does-handle_retry :
      (b : Bool)
      → Does
          (handle_retry env b)
          none
          (λ v. record v { marked = if b then mark_as_retry ∷ v.marked else v.marked })
  unfolding handle_retry
  Does-handle_retry b =
      Does-then_do _ _ none _ (λ v. v)
        (optional_shown b mark_as_retry (λ l. mark_as_retry ∷ l) refl (λ cs. refl))
        (Does-then_do _ _ none (λ v. v) (λ v. v) (hook on_retry refl (λ cs. refl))
          (hook retry_signal refl (λ cs. refl)))

  Does-handle_failure :
      (b c : Bool)
      → Does
          (handle_failure env b c)
          none
          (λ v. record v { marked = mark_as_failure b c ∷ v.marked })
  unfolding handle_failure
  Does-handle_failure b c =
      Does-then_do _ _ none _ (λ v. v)
        (shown (mark_as_failure b c) (λ l. mark_as_failure b c ∷ l) refl (λ cs. refl))
        (Does-then_do _ _ none (λ v. v) (λ v. v) (hook on_failure refl (λ cs. refl))
          (hook failure_signal refl (λ cs. refl)))

  held_if :
      (b : Bool) (m n : Action) (r : Option Exc) (f : View → View)
      → b ≡ false
      → Does n r f
      → Does (if b then m else n) r f
  held_if true m n r f h d = cc
  held_if false m n r f h d = d

  module _ (held : base.propagate ≡ false) where
    Does-on_error_retry : Does (on_error env retry_task true false) none (λ v. record v {
      marked = if stores_errors env then mark_as_retry ∷ v.marked else v.marked;
    })
    unfolding on_error handle_error_state
    Does-on_error_retry =
        held_if base.propagate _ _ none _ held (Does-handle_retry (stores_errors env))

    Does-on_error :
        (e : Exc)
        → Does
            (on_error env e false true)
            none
            (λ v. record v { marked = mark_as_failure (stores_errors env) true ∷ v.marked })
    unfolding on_error handle_error_state
    Does-on_error e =
        held_if base.propagate _ _ none _ held (Does-handle_failure (stores_errors env) true)

    Does-except :
        (e : Exc)
        → Does
            (except env e)
            (escapes (some e))
            (ended_with (publishes env) (stores_errors env) env (some e))
    unfolding except
    Does-except (reject_task requeue) = Does-settle rejected (with_traceback (reject_task requeue))
    Does-except ignore_task = Does-settle ignored (with_traceback ignore_task)
    Does-except retry_task =
        Does-then_do _ _ none _ _ Does-on_error_retry
          (Does-settle retry (with_traceback retry_task))
    Does-except system_exit = Does-throw system_exit
    Does-except keyboard_interrupt = Does-throw keyboard_interrupt
    Does-except e = Does-then_do _ _ none _ _ (Does-on_error e) (Does-settle failure (bare e))

  Does-succeed : Does (succeed env) none (λ v. record v {
    marked =
        mark_as_done (publishes env)
        ∷ sent_chain env.value env.chain (sent_callbacks env.value env.callbacks v.marked);
  })
  unfolding succeed
  Does-succeed =
      Does-else _ _ none _ (λ v. v) _
        (Does-then_do _ _ none _ _ (Does-dispatch env.value env.callbacks env.chain) (
          shown (mark_as_done (publishes env)) (λ l. mark_as_done (publishes env) ∷ l) refl
            (λ cs. refl)))
        (Does-then_do _ _ none (λ v. v) (λ v. v) (optional _ on_success refl (λ cs. refl))
          (optional _ success_signal refl (λ cs. refl)))

module _ (base : Env) where
  Does-run_task :
      Does
        (run_task (with_task none base))
        none
        (λ v. record v { ret = result base.value; state = some success })
  unfolding run_task assign
  Does-run_task =
      Does-then_do _ _ none (λ v. v) _ (optional none base _ before_start refl (λ cs. refl))
        (Does-then_do _ _ none (λ v. v) _ (hook none base run refl (λ cs. refl))
          (record { ends = λ w. refl; sees = λ w. refl }))

  Does-run_task_raised : (e : Exc) → Does (run_task (with_task (some e) base)) (some e) (λ v. v)
  unfolding run_task call
  Does-run_task_raised e =
      Does-then_do _ _ (some e) (λ v. v) (λ v. v)
        (optional (some e) base _ before_start refl (λ cs. refl))
        (Does-stop _ e (λ v. v) _ (record { ends = λ w. refl; sees = λ w. refl }))

  Does-task_with :
      (o : Option Exc)
      → base.propagate ≡ false
      → (let env = with_task o base in
          Does
            (trace_pushed env)
            (escapes o)
            (ended_with (publishes env) (stores_errors env) env o))
  Does-task_with none held =
      Does-trace_pushed none base none _
        (Does-else _ _ none _ _ _ Does-run_task (Does-succeed none base))
  Does-task_with (some e) held = Does-trace_pushed (some e) base _ _ (
      Does-excepted _ e (λ v. v) _ _ _ _ (Does-run_task_raised e)
        (Does-except (some e) base held e))

publishes_eq : (env : Env) → publishes env ≡ keeps_value env
unfolding publishes get_actual_ignore_result
publishes_eq env = ground arith

stores_errors_eq : (env : Env) → stores_errors env ≡ keeps_error env
unfolding stores_errors get_actual_ignore_result
stores_errors_eq env = ground arith

pub Does-task :
    (base : Env) (o : Option Exc)
    → base.propagate ≡ false
    → Does (trace_pushed (with_task o base)) (escapes o) (ended (with_task o base) o)
Does-task base o held =
    let env = with_task o base in
    subst (λ b. Does (trace_pushed env) (escapes o) (ended_with b (keeps_error env) env o))
      (publishes_eq env)
      (subst (λ b. Does (trace_pushed env) (escapes o) (ended_with (publishes env) b env o))
        (stores_errors_eq env) (Does-task_with base o held))
