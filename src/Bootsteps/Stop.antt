-- ===== src/Bootsteps/Stop.antt =====
-- What `Blueprint.stop` does (celery/bootsteps.py).
use mathlib.Core.List.{append_assoc}
use celery.Prelude.{
  ◌≡◌, refl, ap, ◌∙◌, Bool, Bool-cases, true, false, ◌&&◌, not, inl, inr, Option, List, [], ◌∷◌,
  ◌++◌, reverse, arith, length, eqb, ◌||◌, if◌then◌else◌,
}
use celery.Bootsteps.{
  Step, Run, Act, Call, callback, on_start, on_close, on_stopped, step_close, step_stop,
  step_terminate, running, closing, terminating, made, present, send_all, close, restart, finish,
  stop_closed, stop, is_stopping, is_running, start,
}
use celery.Bootsteps.Send.{calls_of, breaks, Sends, send_to_ok, breaks-false}
use celery.Bootsteps.Start.{all_start, starts, start_ok}

-- the calls of a whole stop, in their order
abbrev pub stop_calls : Bool → List Step → List Call
stop_calls terminate steps =
    (callback on_close ∷ calls_of step_close steps)
    ++ (calls_of (if terminate then step_terminate else step_stop) (reverse steps)
        ++ callback on_stopped ∷ [])

-- what a stop leaves
pub record IsStopped (r : Run) : Type 0 where
  pub state : r.state ≡ terminating
  pub complete : r.shutdown_complete ≡ true

close_ok :
    (steps : List (Option Step)) (r : Run)
    → breaks step_close true (present steps) ≡ false
    → ((close steps r).1 ≡ false)
      × Sends (callback on_close ∷ calls_of step_close (present steps)) r (close steps r).0
unfolding close send_all
close_ok steps r h =
    let (ok, rest) = send_to_ok step_close true (present steps) (made (callback on_close) r) h in
    (
      ok,
      record {
        state = rest.state ∙ (unfold made in refl);
        started = rest.started ∙ (unfold made in refl);
        complete = rest.complete ∙ (unfold made in refl);
        calls =
            rest.calls
            ∙ (unfold made in
                append_assoc r.calls (callback on_close ∷ [])
                  (calls_of step_close (present steps)));
      },
    )

stop_closed_ok :
    (terminate : Bool) (steps : List (Option Step)) (r : Run)
    → ((stop_closed terminate steps (r, false)).1 ≡ false)
      × IsStopped (stop_closed terminate steps (r, false)).0
      × ((stop_closed terminate steps (r, false)).0.calls
          ≡ r.calls
            ++ (calls_of (if terminate then step_terminate else step_stop) (reverse (present steps))
                ++ callback on_stopped ∷ []))
unfolding stop_closed restart send_all
stop_closed_ok terminate steps r =
    let m = if terminate then step_terminate else step_stop in
    let order = reverse (present steps) in
    let (ok, rest) =
      send_to_ok m false order (record r { state = closing }) (breaks-false m order) in
    rw ok (
      refl,
      record { state = (unfold finish in refl); complete = (unfold finish in refl) },
      (unfold finish made in
          ap (λ l. l ++ callback on_stopped ∷ []) rest.calls
          ∙ append_assoc r.calls (calls_of m order) (callback on_stopped ∷ [])),
    )

stop_stopping :
    (terminate : Bool) (steps : List (Option Step)) (r : Run)
    → is_stopping r.state ≡ true
    → stop terminate steps r ≡ (r, false)
unfolding stop
stop_stopping terminate steps r e = rw e refl

-- the blueprint is fully started
abbrev pub is_full : List (Option Step) → Run → Bool
is_full steps r = is_running r.state && eqb r.started (length steps)

stop_not_full :
    (terminate : Bool) (steps : List (Option Step)) (r : Run)
    → is_stopping r.state ≡ false
    → is_full steps r ≡ false
    → stop terminate steps r ≡ (finish r, false)
unfolding stop
stop_not_full terminate steps r e h =
    let t : (not (is_running r.state) || not (eqb r.started (length steps))) ≡ true =
      ground arith in
    rw (e, t) refl

stop_full :
    (terminate : Bool) (steps : List (Option Step)) (r : Run)
    → is_stopping r.state ≡ false
    → is_full steps r ≡ true
    → stop terminate steps r ≡ stop_closed terminate steps (close steps r)
unfolding stop
stop_full terminate steps r e h =
    let t : (not (is_running r.state) || not (eqb r.started (length steps))) ≡ false =
      ground arith in
    rw (e, t) refl

-- Stopping a running blueprint whose `started` is the number of steps, where no `close` that is
-- called raises: every `close` is called in order, then `stop` (or `terminate`) in the reverse
-- order on every step that has it, whichever of them raise, and the blueprint ends terminated,
-- with its shutdown complete and nothing raised.
pub stop_ok :
    (terminate : Bool) (steps : List (Option Step)) (r : Run)
    → r.state ≡ running
    → r.started ≡ length steps
    → breaks step_close true (present steps) ≡ false
    → ((stop terminate steps r).1 ≡ false)
      × IsStopped (stop terminate steps r).0
      × ((stop terminate steps r).0.calls ≡ r.calls ++ stop_calls terminate (present steps))
stop_ok terminate steps r e n h =
    let (ok, rest) = close_ok steps r h in
    let after : close steps r ≡ ((close steps r).0, false) = ap (λ b. ((close steps r).0, b)) ok in
    let (done, stopped, calls) = stop_closed_ok terminate steps (close steps r).0 in
    let going : is_stopping r.state ≡ false = ap is_stopping e in
    let full : is_full steps r ≡ true = rw (ap is_running e) (ground arith) in
    let ran = stop_full terminate steps r going full ∙ ap (stop_closed terminate steps) after in
    rw ran (
      done,
      stopped,
      calls
          ∙ (ap
                (λ l.
                  l
                  ++ (calls_of (if terminate then step_terminate else step_stop)
                        (reverse (present steps))
                      ++ callback on_stopped ∷ []))
                rest.calls
              ∙ append_assoc r.calls (callback on_close ∷ calls_of step_close (present steps)) _),
    )

-- Stopping a blueprint that is not closing, not terminated and not fully started (it does not run,
-- or has started another number of steps than the parent holds) calls nothing: it is terminated,
-- with its shutdown complete.
stop_unfinished :
    (terminate : Bool) (steps : List (Option Step)) (r : Run)
    → is_stopping r.state ≡ false
    → is_full steps r ≡ false
    → ((stop terminate steps r).1 ≡ false)
      × IsStopped (stop terminate steps r).0
      × ((stop terminate steps r).0.calls ≡ r.calls)
stop_unfinished terminate steps r e h = rw (stop_not_full terminate steps r e h) (
  refl,
  record { state = (unfold finish in refl); complete = (unfold finish in refl) },
  (unfold finish in refl),
)

stop_closed-IsStopped :
    (terminate : Bool) (steps : List (Option Step)) (a : Act)
    → (stop_closed terminate steps a).1 ≡ false
    → IsStopped (stop_closed terminate steps a).0
stop_closed-IsStopped terminate steps (r, true) h = absurd (unfold stop_closed in ground arith)
stop_closed-IsStopped terminate steps (r, false) h = (stop_closed_ok terminate steps r).1

stopping : (r : Run) → IsStopped r → is_stopping r.state ≡ true
stopping r h = ap is_stopping h.state

-- A stop that raises nothing leaves a blueprint that a further stop does not change.
pub stop_again :
    (terminate again : Bool) (steps : List (Option Step)) (r : Run)
    → (stop terminate steps r).1 ≡ false
    → stop again steps (stop terminate steps r).0 ≡ ((stop terminate steps r).0, false)
stop_again terminate again steps r h =
    stop_stopping again steps (stop terminate steps r).0 (elim (Bool-cases (is_stopping r.state)) [
      | inl e ↦ rw (stop_stopping terminate steps r e) e
      | inr e ↦ elim (Bool-cases (is_full steps r)) [
        | inl f ↦
            let ran = stop_full terminate steps r e f in
            rw ran (stopping _ (stop_closed-IsStopped terminate steps (close steps r) (rw⁻¹ ran h)))
        | inr f ↦ stopping _ (stop_unfinished terminate steps r e f).1
      ]
    ])

-- Where no step raises when it is started, no `close` raises and the parent holds no `None`, a
-- blueprint that is started and then stopped has started its steps in order, closed them in order,
-- and stopped (or terminated) in the reverse order those that have the method, and nothing raised.
pub start-stop :
    (terminate : Bool) (steps : List (Option Step)) (r : Run)
    → r.started ≡ 0
    → length (present steps) ≡ length steps
    → all_start (present steps) ≡ true
    → breaks step_close true (present steps) ≡ false
    → ((start steps r).1 ≡ false)
      × ((stop terminate steps (start steps r).0).1 ≡ false)
      × IsStopped (stop terminate steps (start steps r).0).0
      × ((stop terminate steps (start steps r).0).0.calls
          ≡ (r.calls ++ callback on_start ∷ starts (present steps))
            ++ stop_calls terminate (present steps))
start-stop terminate steps r e n h c =
    let (ok, state, count, calls) = start_ok steps r e h in
    let (stopped, done, all) = stop_ok terminate steps (start steps r).0 state (count ∙ n) c in
    (ok, stopped, done, all ∙ ap (λ l. l ++ stop_calls terminate (present steps)) calls)
