-- ===== src/Utils/LimitedSet/Expiry.antt =====
-- What is left after `purge` (celery/utils/collections.py, `LimitedSet`).
use mathlib.Core.List.{Memᴰ}
use celery.Prelude.{
  ℕ, zero, suc, ◌+◌, ◌-◌, ◌<◌, ◌≤◌, ◌≡◌, Bool-cases, true, false, ◌⊎◌, inl, inr, some, List, [],
  ◌∷◌, arith, length, ltb, eqb,
}
use celery.Prelude.Dict
use celery.Utils.LimitedSet.{
  Entry, LimitedSet, pop_from, pop, shrink, expire, fresh_head, purge, contains,
}
use celery.Utils.LimitedSet.Covers.{Covers, pop-Covers, shrink-Covers, purge-Covers}
use celery.Utils.LimitedSet.Bounds.{
  pop-length, pop-limits, purge-limits, shrink-limits, expire-limits,
}
use celery.Utils.LimitedSet.Order.{IsSorted, head_le, purge-IsSorted}

module _ {ℓ} {A : Type ℓ} (dec : Discrete A) where
  -- the loop ends by its own test: the set is small enough, or its least entry is fresh
  expire_ends :
      (n now : ℕ) (s : LimitedSet A)
      → Covers dec s.items s.heap
      → length s.items ≤ n
      → (length (expire dec n now s).items ≤ s.minlen)
        ⊎ (fresh_head dec now (expire dec n now s) (expire dec n now s).heap ≡ true)
  unfolding expire
  expire_ends zero now s c le = inl (omega arith)
  expire_ends (suc n) now s c le = elim (Bool-cases (ltb s.minlen (length s.items))) [
    | inr t ↦ rw t (inl (ground arith))
    | inl t ↦ elim (Bool-cases (fresh_head dec now s s.heap)) [
      | inl u ↦ rw (t, u) (inr u)
      | inr u ↦
          rw (t, u)
            (ground (
              arith,
              pop-length dec s c,
              pop-limits dec s,
              expire_ends n now (pop dec s).0 (pop-Covers dec s c),
            ))
    ]
  ]

  fresh_head_le :
      (now : ℕ) (s : LimitedSet A) (h : List (Entry A)) (e : Entry A)
      → IsSorted h
      → fresh_head dec now s h ≡ true
      → Memᴰ e h
      → now < e.inserted + s.expires
  unfolding fresh_head
  fresh_head_le now s [] e p t m = elim m [ ]
  fresh_head_le now s (f ∷ h) e p t m = ground (arith, head_le f e h p m)

  purge_ends :
      (now : ℕ) (s : LimitedSet A)
      → Covers dec s.items s.heap
      → 0 < s.expires
      → (length (purge dec now s).items ≤ (purge dec now s).minlen)
        ⊎ (fresh_head dec now (purge dec now s) (purge dec now s).heap ≡ true)
  unfolding purge
  purge_ends now s c pos = elim (Bool-cases (eqb s.maxlen 0)) [
    | inl u ↦
        let v : eqb s.expires 0 ≡ false = ground arith in
        rw (u, v)
          (ground (
            arith,
            expire_ends (length s.items) now s c (omega arith),
            expire-limits dec (length s.items) now s,
          ))
    | inr u ↦
        let t = shrink dec (length s.items) s in
        let v : eqb t.expires 0 ≡ false = ground (arith, shrink-limits dec (length s.items) s) in
        rw (u, v)
          (ground (
            arith,
            expire_ends (length t.items) now t (shrink-Covers dec (length s.items) s c)
                (omega arith),
            expire-limits dec (length t.items) now t,
          ))
  ]

  -- On a set that expires its items, whose heap is sorted and covers them, `purge` leaves at most
  -- `minlen` items, or none whose own time is up.
  pub purge_fresh :
      (now : ℕ) (s : LimitedSet A)
      → Covers dec s.items s.heap
      → IsSorted s.heap
      → 0 < s.expires
      → (length (purge dec now s).items ≤ s.minlen)
        ⊎ ((k : A) (e : Entry A)
            → Dict.get dec k (purge dec now s).items ≡ some e
            → now < e.inserted + s.expires)
  purge_fresh now s c p pos = elim ends [
    | inl le ↦ inl (ground (arith, purge-limits dec now s))
    | inr fresh ↦ inr (λ k e q. ground (
      arith,
      purge-limits dec now s,
      fresh_head_le now t t.heap e (purge-IsSorted dec now s p) fresh
          ((purge-Covers dec now s c).held k e q),
    ))
  ]
    where
      t : LimitedSet A
      t = purge dec now s

      ends : (length t.items ≤ t.minlen) ⊎ (fresh_head dec now t t.heap ≡ true)
      ends = purge_ends now s c pos

  -- an item that is not in a set is not in it after `pop`
  pop_from-absent :
      (x : A) (h : List (Entry A)) (s : LimitedSet A)
      → contains dec x s ≡ false
      → contains dec x (pop_from dec h s).0 ≡ false
  unfolding pop_from contains Dict.has
  pop_from-absent x [] s a = a
  pop_from-absent x (e ∷ h) s a =
      ground (arith, pop_from-absent x h s, Dict.get-remove dec e.item x s.items)

  expire-absent :
      (x : A) (n now : ℕ) (s : LimitedSet A)
      → contains dec x s ≡ false
      → contains dec x (expire dec n now s) ≡ false
  unfolding expire pop
  expire-absent x zero now s a = a
  expire-absent x (suc n) now s a =
      ground (arith, pop_from-absent x s.heap s, expire-absent x n now (pop dec s).0)

  pop_drops_head :
      (s : LimitedSet A) (e own : Entry A) (h : List (Entry A))
      → s.heap ≡ e ∷ h
      → Dict.get dec e.item s.items ≡ some own
      → contains dec e.item (pop dec s).0 ≡ false
  unfolding pop pop_from contains Dict.has
  pop_drops_head s e own h p q =
      rw (p, pop_from) (ground (arith, Dict.get-remove dec e.item e.item s.items))

  expire_drops_head :
      (n now : ℕ) (s : LimitedSet A) (e own : Entry A) (h : List (Entry A))
      → s.heap ≡ e ∷ h
      → Dict.get dec e.item s.items ≡ some own
      → e.inserted + s.expires ≤ now
      → s.minlen < length s.items
      → contains dec e.item (expire dec (suc n) now s) ≡ false
  unfolding expire fresh_head
  expire_drops_head n now s e own h p q due len =
      let t : ltb s.minlen (length s.items) ≡ true = ground arith in
      let u : fresh_head dec now s s.heap ≡ false = rw p (ground arith) in
      rw (t, u) (expire-absent e.item n now (pop dec s).0 (pop_drops_head s e own h p q))

  -- On a set of more than `minlen` items that expires its items and has no `maxlen`, where the time
  -- of the least heap entry is up, `purge` drops its item, though the item has an entry of its own
  -- whose time is not up.
  pub purge_drops_refreshed :
      (now : ℕ) (s : LimitedSet A) (stale own : Entry A) (h : List (Entry A))
      → s.heap ≡ stale ∷ h
      → Dict.get dec stale.item s.items ≡ some own
      → s.maxlen ≡ 0
      → 0 < s.expires
      → stale.inserted + s.expires ≤ now
      → now < own.inserted + s.expires
      → s.minlen < length s.items
      → contains dec stale.item (purge dec now s) ≡ false
  unfolding purge
  purge_drops_refreshed now s stale own h p q m x due fresh len =
      let t : eqb s.maxlen 0 ≡ true = ground arith in
      let u : eqb s.expires 0 ≡ false = ground arith in
      let l : length s.items ≡ suc (length s.items - 1) = omega arith in
      rw (t, u, l) (expire_drops_head (length s.items - 1) now s stale own h p q due len)
