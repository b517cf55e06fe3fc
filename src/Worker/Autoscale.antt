-- ===== src/Worker/Autoscale.antt =====
-- celery/worker/autoscale.py, class `Autoscaler`: growing and shrinking the pool of the worker.
-- The pool is an interface, as its code is billiard's; its `grow` is taken not to raise. Times are
-- ticks of `time.monotonic`; a call takes the clock value that it reads.
pub mod Bounds
pub mod Update
use celery.Prelude.{
  ℕ, zero, suc, ◌+◌, ◌-◌, ◌≤◌, ◌≡◌, Bool, true, false, not, ◌&&◌, Option, none, some, List, [], ◌∷◌,
  ◌++◌, length, ltb, eqb, if◌then◌else◌, min, max,
}
use celery.Worker.State.{State}

-- the operations of a pool; `shrink` returns whether it raised beside the pool that it leaves
pub record Pool (P : Type 0) : Type 0 where
  pub num_processes : P → ℕ
  pub grow : ℕ → P → P
  pub shrink : ℕ → P → P × Bool
  pub maintain_pool : P → P

-- What the code relies on: `grow` adds that many processes, `shrink` takes at most that many out,
-- and just that many where it does not raise, and maintaining a pool keeps its size.
pub record IsPool {P : Type 0} (ops : Pool P) : Type 0 where
  pub grow_num : (n : ℕ) (p : P) → ops.num_processes (ops.grow n p) ≡ ops.num_processes p + n
  pub shrink_num :
      (n : ℕ) (p : P)
      → (ops.shrink n p).1 ≡ false
      → ops.num_processes (ops.shrink n p).0 ≡ ops.num_processes p - n
  pub shrink_least :
      (n : ℕ) (p : P) → ops.num_processes p - n ≤ ops.num_processes (ops.shrink n p).0
  pub shrink_most : (n : ℕ) (p : P) → ops.num_processes (ops.shrink n p).0 ≤ ops.num_processes p
  pub maintain_num : (p : P) → ops.num_processes (ops.maintain_pool p) ≡ ops.num_processes p

-- the `diff` of a call of `consumer._update_prefetch_count`
pub data Change : Type 0 where
  more : ℕ → Change
  fewer : ℕ → Change

pub record Autoscaler (P : Type 0) : Type 0 where
  pub pool : P
  pub max_concurrency : ℕ
  pub min_concurrency : ℕ
  pub keepalive : ℕ
  pub last_scale_up : Option ℕ
  pub prefetch_changes : List Change

unfoldable pub qty : State → ℕ
qty s = length s.reserved

-- `self._last_scale_up and (monotonic() - self._last_scale_up > self.keepalive)`
unfoldable pub may_scale_down : ℕ → ℕ → Option ℕ → Bool
may_scale_down now keepalive none = false
may_scale_down now keepalive (some t) = not (eqb t 0) && ltb (t + keepalive) now

module _ {P : Type 0} (ops : Pool P) where
  unfoldable pub processes : Autoscaler P → ℕ
  processes a = ops.num_processes a.pool

  unfoldable pub grow : ℕ → Autoscaler P → Autoscaler P
  grow n a = record a { pool = ops.grow n a.pool }

  -- every exception of the pool is logged and held back
  unfoldable pub shrink : ℕ → Autoscaler P → Autoscaler P
  shrink n a = record a { pool = (ops.shrink n a.pool).0 }

  unfoldable pub scale_up : ℕ → ℕ → Autoscaler P → Autoscaler P
  unfolding grow
  scale_up now n a = grow n (record a { last_scale_up = some now })

  unfoldable pub scale_down : ℕ → ℕ → Autoscaler P → Autoscaler P
  unfolding shrink may_scale_down
  scale_down now n a = if may_scale_down now a.keepalive a.last_scale_up then shrink n a else a

  -- `_maybe_scale`, with the value that it returns (`true`, or `None`)
  unfoldable pub try_scale : ℕ → State → Autoscaler P → Autoscaler P × Bool
  unfolding scale_up scale_down processes qty
  try_scale now s a =
      let procs = processes a in
      let least = min (qty s) a.max_concurrency in
      let most = max (qty s) a.min_concurrency in
      if ltb procs least
      then (scale_up now (least - procs) a, true)
      else if ltb most procs
      then (scale_down now (procs - most) a, true)
      else (a, false)

  unfoldable pub maybe_scale : ℕ → State → Autoscaler P → Autoscaler P
  unfolding try_scale
  maybe_scale now s a =
      let (a', scaled) = try_scale now s a in
      if scaled then record a' { pool = ops.maintain_pool a'.pool } else a'

  unfoldable pub update_consumer_prefetch_count : ℕ → Autoscaler P → Autoscaler P
  update_consumer_prefetch_count new_max a =
      if ltb a.max_concurrency new_max
      then record a { prefetch_changes = more (new_max - a.max_concurrency) ∷ a.prefetch_changes }
      else if ltb new_max a.max_concurrency
      then record a { prefetch_changes = fewer (a.max_concurrency - new_max) ∷ a.prefetch_changes }
      else a

  unfoldable pub update_max : Option ℕ → Autoscaler P → Autoscaler P
  unfolding shrink processes update_consumer_prefetch_count
  update_max none a = a
  update_max (some n) a =
      let a1 = if ltb n (processes a) then shrink (processes a - n) a else a in
      record (update_consumer_prefetch_count n a1) { max_concurrency = n }

  unfoldable pub update_min : Option ℕ → Autoscaler P → Autoscaler P
  unfolding grow processes
  update_min none a = a
  update_min (some n) a =
      let a1 = if ltb (processes a) n then grow (n - processes a) a else a in
      record a1 { min_concurrency = n }

  -- `update`, with the pair that it returns
  unfoldable pub update : Option ℕ → Option ℕ → Autoscaler P → Autoscaler P × ℕ × ℕ
  unfolding update_max update_min
  update new_max new_min a =
      let a' = update_min new_min (update_max new_max a) in
      (a', a'.max_concurrency, a'.min_concurrency)
