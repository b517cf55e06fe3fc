-- ===== src/Utils/LimitedSet/Bounds.antt =====
-- The size of a set after `pop`, `purge` and `add`, and that their loops end
-- (celery/utils/collections.py, `LimitedSet`).
use celery.Prelude.{
  ℕ, zero, suc, ◌+◌, ◌<◌, ◌≤◌, ◌≡◌, refl, Bool, Bool-cases, inl, inr, List, [], ◌∷◌, arith, length,
}
use celery.Prelude.Dict
use celery.Utils.LimitedSet.{
  Entry, LimitedSet, pop_from, pop, shrink, expire, purge, insert, discard, add,
}
use celery.Utils.LimitedSet.Covers.{Covers, pop-Covers, insert-Covers, shrink-Covers, Covers-skip}

module _ {ℓ} {A : Type ℓ} (dec : Discrete A) where
  pub record SameLimits (s t : LimitedSet A) : Type 0 where
    pub maxlen : t.maxlen ≡ s.maxlen
    pub minlen : t.minlen ≡ s.minlen
    pub expires : t.expires ≡ s.expires

  pop_from-limits : (h : List (Entry A)) (s : LimitedSet A) → SameLimits s (pop_from dec h s).0
  unfolding pop_from
  pop_from-limits [] s = record { maxlen = refl; minlen = refl; expires = refl }
  pop_from-limits (e ∷ h) s = ground (arith, pop_from-limits h s)

  pub pop-limits : (s : LimitedSet A) → SameLimits s (pop dec s).0
  unfolding pop
  pop-limits s = pop_from-limits s.heap s

  pop_from-length :
      (h : List (Entry A)) (s : LimitedSet A)
      → Covers dec s.items h
      → 0 < length s.items
      → length (pop_from dec h s).0.items < length s.items
  unfolding pop_from
  pop_from-length [] s c pos =
      let (k, e, p) = Dict.first_key dec s.items pos in elim (c.held k e p) [ ]
  pop_from-length (e ∷ h) s c pos = elim (Bool-cases (Dict.has dec e.item s.items)) [
    | inl t ↦ rw t (Dict.length-remove-lt dec e.item s.items t)
    | inr t ↦ rw t (pop_from-length h s (Covers-skip dec e h s.items t c) pos)
  ]

  pub pop-length :
      (s : LimitedSet A)
      → Covers dec s.items s.heap
      → 0 < length s.items
      → length (pop dec s).0.items < length s.items
  unfolding pop
  pop-length s = pop_from-length s.heap s

  pub shrink-limits : (n : ℕ) (s : LimitedSet A) → SameLimits s (shrink dec n s)
  unfolding shrink
  shrink-limits zero s = record { maxlen = refl; minlen = refl; expires = refl }
  shrink-limits (suc n) s = ground (arith, pop-limits s, shrink-limits n (pop dec s).0)

  pub expire-limits : (n now : ℕ) (s : LimitedSet A) → SameLimits s (expire dec n now s)
  unfolding expire
  expire-limits zero now s = record { maxlen = refl; minlen = refl; expires = refl }
  expire-limits (suc n) now s = ground (arith, pop-limits s, expire-limits n now (pop dec s).0)

  pub shrink-le :
      (n : ℕ) (s : LimitedSet A)
      → Covers dec s.items s.heap
      → length s.items ≤ n + s.maxlen
      → length (shrink dec n s).items ≤ s.maxlen
  unfolding shrink
  shrink-le zero s c h = omega arith
  shrink-le (suc n) s c h =
      ground (arith, pop-limits s, pop-length s c, shrink-le n (pop dec s).0 (pop-Covers dec s c))

  pub expire-le :
      (n now : ℕ) (s : LimitedSet A)
      → Covers dec s.items s.heap
      → length (expire dec n now s).items ≤ length s.items
  unfolding expire
  expire-le zero now s c = omega arith
  expire-le (suc n) now s c =
      ground (arith, pop-length s c, expire-le n now (pop dec s).0 (pop-Covers dec s c))

  pub purge-limits : (now : ℕ) (s : LimitedSet A) → SameLimits s (purge dec now s)
  unfolding purge
  purge-limits now s =
      let t = shrink dec (length s.items) s in
      ground (
        arith,
        shrink-limits (length s.items) s,
        expire-limits (length s.items) now s,
        expire-limits (length t.items) now t,
      )

  -- After `purge` a set with a limit is within it.
  pub purge-le :
      (now : ℕ) (s : LimitedSet A)
      → Covers dec s.items s.heap
      → 0 < s.maxlen
      → length (purge dec now s).items ≤ s.maxlen
  unfolding purge
  purge-le now s c pos =
      let t = shrink dec (length s.items) s in
      ground (
        arith,
        shrink-le (length s.items) s c,
        expire-le (length t.items) now t (shrink-Covers dec (length s.items) s c),
      )

  module _ (item_lt : A → A → Bool) where
    pub discard-limits : (x : A) (s : LimitedSet A) → SameLimits s (discard dec item_lt x s)
    unfolding discard
    discard-limits x s = ground arith

    discard-items :
        (x : A) (s : LimitedSet A) → (discard dec item_lt x s).items ≡ Dict.remove dec x s.items
    unfolding discard
    discard-items x s = ground arith

    pub insert-limits :
        (x : A) (now : ℕ) (s : LimitedSet A) → SameLimits s (insert dec item_lt x now s)
    unfolding insert
    insert-limits x now s = ground (arith, discard-limits x s)

    pub add-limits :
        (x : A) (now purge_now : ℕ) (s : LimitedSet A)
        → SameLimits s (add dec item_lt x now purge_now s)
    unfolding add
    add-limits x now purge_now s =
        let t = insert dec item_lt x now s in
        ground (arith, insert-limits x now s, purge-limits purge_now t)

    pub add-le :
        (x : A) (now purge_now : ℕ) (s : LimitedSet A)
        → Covers dec s.items s.heap
        → 0 < s.maxlen
        → length (add dec item_lt x now purge_now s).items ≤ s.maxlen
    unfolding add
    add-le x now purge_now s c pos =
        let t = insert dec item_lt x now s in
        ground
          (arith, insert-limits x now s, purge-le purge_now t (insert-Covers dec item_lt x now s c))

    pub discard-length-le :
        (x : A) (s : LimitedSet A) → length (discard dec item_lt x s).items ≤ length s.items
    discard-length-le x s = rw (discard-items x s) (Dict.length-remove-le dec x s.items)

module _ {ℓ} {A : Type ℓ} (dec : Discrete A) where
  pop_from-length-le :
      (h : List (Entry A)) (s : LimitedSet A) → length (pop_from dec h s).0.items ≤ length s.items
  unfolding pop_from
  pop_from-length-le [] s = omega arith
  pop_from-length-le (e ∷ h) s =
      ground (arith, pop_from-length-le h s, Dict.length-remove-le dec e.item s.items)

  pub pop-length-le : (s : LimitedSet A) → length (pop dec s).0.items ≤ length s.items
  unfolding pop
  pop-length-le s = pop_from-length-le s.heap s
