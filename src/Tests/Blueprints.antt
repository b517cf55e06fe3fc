-- ===== src/Tests/Blueprints.antt =====
-- celery/bootsteps.py on small inputs.
use celery.Prelude.{◌≡◌, refl, Bool, true, false, Option, some, List, [], ◌∷◌}
use celery.Bootsteps.{
  Step, Method, Run, call, callback, on_start, on_close, on_stopped, step_start, step_close,
  step_stop, step_terminate, initializing, running, present, start, stop,
}
use celery.Bootsteps.Stop.{IsStopped, start-stop}

abbrev has_all : Method → Bool
has_all _ = true

abbrev has_some : Method → Bool
has_some step_start = true
has_some step_stop = true
has_some _ = false

abbrev raises_on_stop : Method → Bool
raises_on_stop step_stop = true
raises_on_stop _ = false

-- a step whose `stop` raises
abbrev pool : Step
pool = record { id = 1; has = has_all; raises = raises_on_stop }

-- a step that cannot be closed or terminated
abbrev timer : Step
timer = record { id = 2; has = has_some; raises = λ m. false }

abbrev blueprint : Run
blueprint = record { state = initializing; started = 0; shutdown_complete = false; calls = [] }

abbrev steps : List (Option Step)
steps = some pool ∷ some timer ∷ []

abbrev up : Run
up = record { state = running; started = 2; shutdown_complete = false; calls = [] }

start-stop_example :
    ((start steps blueprint).1 ≡ false)
    × ((stop true steps (start steps blueprint).0).1 ≡ false)
    × IsStopped (stop true steps (start steps blueprint).0).0
    × ((stop true steps (start steps blueprint).0).0.calls
        ≡ callback on_start
          ∷ call step_start 1
          ∷ call step_start 2
          ∷ callback on_close
          ∷ call step_close 1
          ∷ call step_terminate 1
          ∷ callback on_stopped
          ∷ [])
unfolding present
start-stop_example = start-stop true steps blueprint refl refl refl refl
