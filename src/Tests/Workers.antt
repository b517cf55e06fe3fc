-- ===== src/Tests/Workers.antt =====
-- The heartbeats of a worker on small inputs (celery/events/state.py).
use celery.Prelude.{ℕ, ◌+◌, ◌*◌, ◌≡◌, refl, none, some, [], ◌∷◌, arith, ltb}
use celery.Events.Worker.{Worker, Fields, alive}
use celery.Events.Worker.Alive.{IsSound, Received, receive_all, IsBeat, newest, alive-receive_all}

abbrev no_fields : Fields
no_fields = record { new_freq = none; new_others = [] }

abbrev beat_at : ℕ → Received
beat_at n = record {
  type = "heartbeat";
  timestamp = some n;
  local_received = some n;
  fields = no_fields;
}

abbrev worker : Worker
worker = record { freq = 2; heartbeats = 10 ∷ 12 ∷ 14 ∷ 16 ∷ []; others = [] }

worker-IsSound : IsSound worker
worker-IsSound = record {
  sorted = (omega arith, (omega arith, (omega arith, (omega arith, tt))));
  short = omega arith;
}

beat_at-IsBeat : IsBeat (beat_at 18) × IsBeat (beat_at 11)
beat_at-IsBeat = (
  record { online = refl; sent = refl; came = refl },
  record { online = refl; sent = refl; came = refl },
)

alive-receive_all_example :
    alive 21 (receive_all (beat_at 18 ∷ beat_at 11 ∷ []) worker)
    ≡ ltb 2100 (
        newest (beat_at 18 ∷ beat_at 11 ∷ []) 16 * 100
        + (receive_all (beat_at 18 ∷ beat_at 11 ∷ []) worker).freq * 200)
alive-receive_all_example =
    alive-receive_all 21 (beat_at 18) (beat_at 11 ∷ []) worker
      (beat_at-IsBeat.0, (beat_at-IsBeat.1, tt)) worker-IsSound
