-- ===== src/Bootsteps/Send.antt =====
-- What `Blueprint.send_all` does (celery/bootsteps.py).
use mathlib.Core.List.{append_assoc, append-nil}
use celery.Prelude.{
  ◌≡◌, refl, sym, ◌∙◌, Bool, Bool-cases, false, ◌&&◌, inl, inr, List, [], ◌∷◌, ◌++◌, arith, any,
  if◌then◌else◌,
}
use celery.Bootsteps.{Step, Run, Call, Method, call, made, send_to}

-- the calls of a method to the steps that have it
abbrev pub calls_of : Method → List Step → List Call
calls_of m [] = []
calls_of m (s ∷ steps) = if s.has m then call m s.id ∷ calls_of m steps else calls_of m steps

-- a call of the method raises, and is not held back
abbrev pub breaks : Method → Bool → List Step → Bool
breaks m propagate = any (λ s. s.has m && s.raises m && propagate)

-- nothing but the trace has changed, by the calls `new`
pub record Sends (new : List Call) (r r' : Run) : Type 0 where
  pub state : r'.state ≡ r.state
  pub started : r'.started ≡ r.started
  pub complete : r'.shutdown_complete ≡ r.shutdown_complete
  pub calls : r'.calls ≡ r.calls ++ new

pub send_to_ok :
    (m : Method) (propagate : Bool) (steps : List Step) (r : Run)
    → breaks m propagate steps ≡ false
    → ((send_to m propagate steps r).1 ≡ false)
      × Sends (calls_of m steps) r (send_to m propagate steps r).0
unfolding send_to
send_to_ok m propagate [] r h = (
  refl,
  record { state = refl; started = refl; complete = refl; calls = sym (append-nil r.calls) },
)
send_to_ok m propagate (s ∷ steps) r h =
    let t : (s.has m && s.raises m && propagate) ≡ false = ground arith in
    let later : breaks m propagate steps ≡ false = ground arith in
    elim (Bool-cases (s.has m)) [
      | inl u ↦
          let r' = made (call m s.id) r in
          let (ok, rest) = send_to_ok m propagate steps r' later in
          rw (t, u)
            (
              ok,
              record {
                state = rest.state ∙ (unfold made in refl);
                started = rest.started ∙ (unfold made in refl);
                complete = rest.complete ∙ (unfold made in refl);
                calls =
                    rest.calls
                    ∙ (unfold made in append_assoc r.calls (call m s.id ∷ []) (calls_of m steps));
              },
            )
      | inr u ↦ rw (t, u) (send_to_ok m propagate steps r later)
    ]

pub breaks-false : (m : Method) (steps : List Step) → breaks m false steps ≡ false
breaks-false m [] = refl
breaks-false m (s ∷ steps) = let later = breaks-false m steps in ground arith
