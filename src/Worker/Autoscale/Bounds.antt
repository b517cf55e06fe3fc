-- ===== src/Worker/Autoscale/Bounds.antt =====
-- The bounds that `Autoscaler.maybe_scale` keeps, and where it leads (celery/worker/autoscale.py).
use celery.Prelude.{
  ℕ, ◌+◌, ◌-◌, ◌≤◌, ◌<◌, ◌≡◌, refl, ◌∙◌, Bool-cases, true, false, inl, inr, List, [], ◌∷◌, ltb,
  ltb→lt, arith, if◌then◌else◌, min, max,
}
use celery.Worker.State.{State}
use celery.Worker.Autoscale.{
  Pool, IsPool, Autoscaler, qty, may_scale_down, processes, scale_down, maybe_scale,
}

filled : (p n : ℕ) → p < n → p + (n - p) ≡ n
filled p n h = omega arith

module _ {P : Type 0} (ops : Pool P) (laws : IsPool ops) where
  -- the size of the pool is within the configured bounds
  pub record IsWithin (a : Autoscaler P) : Type 0 where
    pub least : a.min_concurrency ≤ processes ops a
    pub most : processes ops a ≤ a.max_concurrency

  -- the size that `maybe_scale` leaves, by what it does
  processes-maybe_scale :
      (now : ℕ) (s : State) (a : Autoscaler P)
      → processes ops (maybe_scale ops now s a) ≡ (
          if ltb (processes ops a) (min (qty s) a.max_concurrency)
          then min (qty s) a.max_concurrency
          else if ltb (max (qty s) a.min_concurrency) (processes ops a)
          then processes ops
              (scale_down ops now (processes ops a - max (qty s) a.min_concurrency) a)
          else processes ops a)
  unfolding maybe_scale processes
  processes-maybe_scale now s a =
      let least = min (qty s) a.max_concurrency in
      let most = max (qty s) a.min_concurrency in
      elim (Bool-cases (ltb (processes ops a) least)) [
        | inl up ↦
            rw (up, laws.maintain_num (ops.grow (least - processes ops a) a.pool))
              (laws.grow_num (least - processes ops a) a.pool
                ∙ filled (processes ops a) least (ltb→lt (processes ops a) least up))
        | inr t ↦ elim (Bool-cases (ltb most (processes ops a))) [
          | inl down ↦ rw (t, down) (laws.maintain_num _)
          | inr same ↦ rw (t, same) refl
        ]
      ]

  processes-scale_down :
      (now n : ℕ) (a : Autoscaler P)
      → (processes ops a - n ≤ processes ops (scale_down ops now n a))
        × (processes ops (scale_down ops now n a) ≤ processes ops a)
  unfolding scale_down processes
  processes-scale_down now n a =
      elim (Bool-cases (may_scale_down now a.keepalive a.last_scale_up)) [
        | inl t ↦ rw t (laws.shrink_least n a.pool, laws.shrink_most n a.pool)
        | inr t ↦ rw t (omega arith, omega arith)
      ]

  -- `maybe_scale` changes no setting
  pub record Keeps (a a' : Autoscaler P) : Type 0 where
    pub max_kept : a'.max_concurrency ≡ a.max_concurrency
    pub min_kept : a'.min_concurrency ≡ a.min_concurrency
    pub keepalive_kept : a'.keepalive ≡ a.keepalive

  scale_down-Keeps : (now n : ℕ) (a : Autoscaler P) → Keeps a (scale_down ops now n a)
  unfolding scale_down
  scale_down-Keeps now n a = elim (Bool-cases (may_scale_down now a.keepalive a.last_scale_up)) [
    | inl t ↦ rw t (record { max_kept = refl; min_kept = refl; keepalive_kept = refl })
    | inr t ↦ rw t (record { max_kept = refl; min_kept = refl; keepalive_kept = refl })
  ]

  maybe_scale-Keeps : (now : ℕ) (s : State) (a : Autoscaler P) → Keeps a (maybe_scale ops now s a)
  unfolding maybe_scale
  maybe_scale-Keeps now s a =
      let most = max (qty s) a.min_concurrency in
      elim (Bool-cases (ltb (processes ops a) (min (qty s) a.max_concurrency))) [
        | inl up ↦ rw up (record { max_kept = refl; min_kept = refl; keepalive_kept = refl })
        | inr t ↦ elim (Bool-cases (ltb most (processes ops a))) [
          | inl down ↦
              let k = scale_down-Keeps now (processes ops a - most) a in
              rw (t, down)
                (record {
                  max_kept = k.max_kept;
                  min_kept = k.min_kept;
                  keepalive_kept = k.keepalive_kept;
                })
          | inr same ↦
              rw (t, same) (record { max_kept = refl; min_kept = refl; keepalive_kept = refl })
        ]
      ]

  maybe_scale-IsWithin :
      (now : ℕ) (s : State) (a : Autoscaler P) → IsWithin a → IsWithin (maybe_scale ops now s a)
  maybe_scale-IsWithin now s a w =
      let k = maybe_scale-Keeps now s a in
      let most = max (qty s) a.min_concurrency in
      let (least_left, most_left) = processes-scale_down now (processes ops a - most) a in
      let size = processes-maybe_scale now s a in
      record {
        least = ground (arith, k.min_kept, size, w.least, least_left);
        most = ground (arith, k.max_kept, size, w.most, most_left);
      }

  -- a run of calls of `maybe_scale`, each with the clock value and the registry that it reads
  unfoldable pub scale_all : List (ℕ × State) → Autoscaler P → Autoscaler P
  scale_all [] a = a
  scale_all ((now, s) ∷ calls) a = scale_all calls (maybe_scale ops now s a)

  -- Where the pool keeps its laws, any run of `maybe_scale` keeps the size of the pool within
  -- `min_concurrency` and `max_concurrency`, whatever tasks are reserved at each call.
  pub scale_all-IsWithin :
      (calls : List (ℕ × State)) (a : Autoscaler P) → IsWithin a → IsWithin (scale_all calls a)
  unfolding scale_all
  scale_all-IsWithin [] a w = w
  scale_all-IsWithin ((now, s) ∷ calls) a w =
      scale_all-IsWithin calls (maybe_scale ops now s a) (maybe_scale-IsWithin now s a w)

  processes-scale_down_allowed :
      (now n : ℕ) (a : Autoscaler P)
      → may_scale_down now a.keepalive a.last_scale_up ≡ true
      → (ops.shrink n a.pool).1 ≡ false
      → processes ops (scale_down ops now n a) ≡ processes ops a - n
  unfolding scale_down processes
  processes-scale_down_allowed now n a t h = rw t (laws.shrink_num n a.pool h)

  -- Where the pool keeps its laws and its size is within the bounds, the keepalive has passed since
  -- the last scaling up, and shrinking to the wanted size does not raise, one `maybe_scale` makes
  -- the pool as large as the number of reserved tasks, cut to the bounds.
  pub maybe_scale-settles :
      (now : ℕ) (s : State) (a : Autoscaler P)
      → IsWithin a
      → may_scale_down now a.keepalive a.last_scale_up ≡ true
      → (ops.shrink (processes ops a - max (qty s) a.min_concurrency) a.pool).1 ≡ false
      → processes ops (maybe_scale ops now s a)
        ≡ max a.min_concurrency (min (qty s) a.max_concurrency)
  maybe_scale-settles now s a w t h =
      let most = max (qty s) a.min_concurrency in
      let left = processes-scale_down_allowed now (processes ops a - most) a t h in
      rw (processes-maybe_scale now s a) (ground (arith, w.least, w.most, left))

  -- Where the pool keeps its laws, `maybe_scale` takes no process away while the keepalive since
  -- the last scaling up has not passed, or when the pool was never scaled up.
  pub maybe_scale-holds :
      (now : ℕ) (s : State) (a : Autoscaler P)
      → may_scale_down now a.keepalive a.last_scale_up ≡ false
      → processes ops (maybe_scale ops now s a)
        ≡ max (processes ops a) (min (qty s) a.max_concurrency)
  unfolding scale_down
  maybe_scale-holds now s a t = rw (processes-maybe_scale now s a, t) (ground arith)
