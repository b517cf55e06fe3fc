-- ===== src/Worker/Autoscale/Update.antt =====
-- What `Autoscaler.update` does (celery/worker/autoscale.py).
use celery.Prelude.{
  ℕ, ◌+◌, ◌-◌, ◌≤◌, ◌<◌, ◌≡◌, refl, ap, ◌∙◌, Bool-cases, false, inl, inr, some, ltb, ltb→lt, arith,
  min, max,
}
use celery.Worker.Autoscale.{
  Pool, IsPool, Autoscaler, processes, shrink, update_consumer_prefetch_count, update_max,
  update_min, update,
}
use celery.Worker.Autoscale.Bounds.{IsWithin}

taken : (p n : ℕ) → n < p → p - (p - n) ≡ min n p
taken p n h = ground arith

added : (p n : ℕ) → p < n → p + (n - p) ≡ max n p
added p n h = ground arith

module _ {P : Type 0} (ops : Pool P) (laws : IsPool ops) where
  prefetch_kept :
      (n : ℕ) (a : Autoscaler P)
      → ((update_consumer_prefetch_count ops n a).pool ≡ a.pool)
        × ((update_consumer_prefetch_count ops n a).min_concurrency ≡ a.min_concurrency)
  unfolding update_consumer_prefetch_count
  prefetch_kept n a = elim (Bool-cases (ltb a.max_concurrency n)) [
    | inl t ↦ rw t (refl, refl)
    | inr t ↦ elim (Bool-cases (ltb n a.max_concurrency)) [
      | inl u ↦ rw (t, u) (refl, refl)
      | inr u ↦ rw (t, u) (refl, refl)
    ]
  ]

  processes-update_max :
      (n : ℕ) (a : Autoscaler P)
      → (ops.shrink (processes ops a - n) a.pool).1 ≡ false
      → processes ops (update_max ops (some n) a) ≡ min n (processes ops a)
  unfolding update_max processes
  processes-update_max n a h = elim (Bool-cases (ltb n (processes ops a))) [
    | inl t ↦
        rw
          (
            t,
            (prefetch_kept n (shrink ops (processes ops a - n) a)).0,
            laws.shrink_num (processes ops a - n) a.pool h,
          )
          (taken (processes ops a) n (ltb→lt n (processes ops a) t))
    | inr t ↦ rw (t, (prefetch_kept n a).0) (ground arith)
  ]

  processes-update_min :
      (n : ℕ) (a : Autoscaler P)
      → processes ops (update_min ops (some n) a) ≡ max n (processes ops a)
  unfolding update_min processes
  processes-update_min n a = elim (Bool-cases (ltb (processes ops a) n)) [
    | inl t ↦
        rw (t, laws.grow_num (n - processes ops a) a.pool)
          (added (processes ops a) n (ltb→lt (processes ops a) n t))
    | inr t ↦ rw t (ground arith)
  ]

  max-update_min :
      (n : ℕ) (a : Autoscaler P) → (update_min ops (some n) a).max_concurrency ≡ a.max_concurrency
  unfolding update_min
  max-update_min n a = elim (Bool-cases (ltb (processes ops a) n)) [
    | inl t ↦ rw t refl
    | inr t ↦ rw t refl
  ]

  -- Where the pool keeps its laws, the new least size is not above the new most, and shrinking to
  -- the new most does not raise, `update` of both cuts the size of the pool to the new bounds,
  -- answers with them, and leaves the pool within them, whatever the bounds were before.
  pub update-IsWithin :
      (m n : ℕ) (a : Autoscaler P)
      → n ≤ m
      → (ops.shrink (processes ops a - m) a.pool).1 ≡ false
      → IsWithin ops laws (update ops (some m) (some n) a).0
        × (processes ops (update ops (some m) (some n) a).0 ≡ max n (min m (processes ops a)))
        × ((update ops (some m) (some n) a).1 ≡ m)
        × ((update ops (some m) (some n) a).2 ≡ n)
  unfolding update
  update-IsWithin m n a h ok =
      let b = update_max ops (some m) a in
      let shrunk : processes ops b ≡ min m (processes ops a) = processes-update_max m a ok in
      let size = processes-update_min n b ∙ ap (max n) shrunk in
      let most : (update_min ops (some n) b).max_concurrency ≡ m = max-update_min n b in
      let least : (update_min ops (some n) b).min_concurrency ≡ n = refl in
      (
        record { least = ground (arith, size, least); most = ground (arith, size, most) },
        size,
        most,
        least,
      )
