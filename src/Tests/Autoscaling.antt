-- ===== src/Tests/Autoscaling.antt =====
-- celery/worker/autoscale.py with a pool that is known by its size.
use celery.Prelude.{ℕ, ◌+◌, ◌-◌, refl, true, false, some, [], ◌∷◌, leb, arith, min, if◌then◌else◌}
use celery.Worker.State.{State}
use celery.Tests.States.{idle}
use celery.Worker.Autoscale.{Pool, IsPool, Autoscaler, processes}
use celery.Worker.Autoscale.Bounds.{IsWithin, scale_all, scale_all-IsWithin}

-- the size of a pool, with two processes that are always busy
abbrev sized : Pool ℕ
sized = record {
  num_processes = λ p. p;
  grow = λ n p. p + n;
  shrink = λ n p. if leb (n + 2) p then (p - n, false) else (min p 2, true);
  maintain_pool = λ p. p;
}

sized-IsPool : IsPool sized
sized-IsPool = record {
  grow_num = λ n p. refl;
  shrink_num = λ n p h. (ground arith);
  shrink_least = λ n p. (ground arith);
  shrink_most = λ n p. (ground arith);
  maintain_num = λ p. refl;
}

abbrev scaler : Autoscaler ℕ
scaler = record {
  pool = 4;
  max_concurrency = 8;
  min_concurrency = 3;
  keepalive = 30;
  last_scale_up = some 100;
  prefetch_changes = [];
}

-- a registry with six reserved requests
abbrev busy : State
busy = record idle { reserved = 5 ∷ 4 ∷ 3 ∷ 2 ∷ 1 ∷ 0 ∷ [] }

scaler-IsWithin : IsWithin sized sized-IsPool scaler
unfolding processes
scaler-IsWithin = record { least = omega arith; most = omega arith }

scale_all-IsWithin_example :
    IsWithin sized sized-IsPool
      (scale_all sized sized-IsPool ((110, busy) ∷ (120, idle) ∷ (150, idle) ∷ []) scaler)
scale_all-IsWithin_example =
    scale_all-IsWithin sized sized-IsPool ((110, busy) ∷ (120, idle) ∷ (150, idle) ∷ []) scaler
      scaler-IsWithin
