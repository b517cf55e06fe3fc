-- ===== src/Bootsteps/Start.antt =====
-- What `Blueprint.start` does (celery/bootsteps.py).
use mathlib.Core.List.{append_assoc, append-nil}
use celery.Prelude.{
  ℕ, ◌+◌, ◌≡◌, refl, sym, ◌∙◌, Bool, Bool-cases, true, false, inl, inr, Option, List, [], ◌∷◌, ◌++◌,
  map, arith, length, if◌then◌else◌,
}
use celery.Bootsteps.{
  Step, Run, Call, call, callback, on_start, step_start, running, made, present, start_from, start,
}

-- no step of the list raises when it is started
abbrev pub all_start : List Step → Bool
all_start [] = true
all_start (s ∷ steps) = if s.raises step_start then false else all_start steps

abbrev pub starts : List Step → List Call
starts = map (λ s. call step_start s.id)

-- the run that a start comes to, with `n` steps started and `new` calls made
pub record IsStarted (n : ℕ) (new : List Call) (r r' : Run) : Type 0 where
  pub counted : r'.started ≡ n
  pub state : r'.state ≡ r.state
  pub complete : r'.shutdown_complete ≡ r.shutdown_complete
  pub calls : r'.calls ≡ r.calls ++ new

start_from_ok :
    (i : ℕ) (steps : List Step) (r : Run)
    → all_start steps ≡ true
    → r.started ≡ i
    → ((start_from i steps r).1 ≡ false)
      × IsStarted (i + length steps) (starts steps) r (start_from i steps r).0
unfolding start_from
start_from_ok i [] r h e = (
  refl,
  record { counted = omega arith; state = refl; complete = refl; calls = sym (append-nil r.calls) },
)
start_from_ok i (s ∷ steps) r h e = elim (Bool-cases (s.raises step_start)) [
  | inl t ↦ absurd (ground arith)
  | inr t ↦
      let r' = made (call step_start s.id) (record r { started = i + 1 }) in
      let (ok, rest) = start_from_ok (i + 1) steps r' (ground arith) (unfold made in refl) in
      rw t (
        ok,
        record {
          counted = omega (arith, rest.counted);
          state = rest.state ∙ (unfold made in refl);
          complete = rest.complete ∙ (unfold made in refl);
          calls =
              rest.calls
              ∙ (unfold made in append_assoc r.calls (call step_start s.id ∷ []) (starts steps));
        },
      )
]

-- Where no step raises, `start` on a blueprint that was not started calls every step that is there,
-- in their order, counts them, and leaves the blueprint running.
pub start_ok :
    (steps : List (Option Step)) (r : Run)
    → r.started ≡ 0
    → all_start (present steps) ≡ true
    → ((start steps r).1 ≡ false)
      × ((start steps r).0.state ≡ running)
      × ((start steps r).0.started ≡ length (present steps))
      × ((start steps r).0.calls ≡ r.calls ++ callback on_start ∷ starts (present steps))
unfolding start
start_ok steps r e h =
    let r' = made (callback on_start) (record r { state = running }) in
    let (ok, rest) = start_from_ok 0 (present steps) r' h (unfold made in e) in
    (
      ok,
      rest.state ∙ (unfold made in refl),
      omega (arith, rest.counted),
      rest.calls
          ∙ (unfold made in append_assoc r.calls (callback on_start ∷ []) (starts (present steps))),
    )
