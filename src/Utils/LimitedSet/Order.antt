-- ===== src/Utils/LimitedSet/Order.antt =====
-- The heap is in the order of insertion times, so that what `purge` leaves has not expired
-- (celery/utils/collections.py, `LimitedSet`).
use mathlib.Core.List.{Memᴰ}
use celery.Prelude.{
  ℕ, zero, suc, ◌≤◌, ◌≡◌, Bool, Bool-cases, true, false, inl, inr, List, [], ◌∷◌, arith,
  if◌then◌else◌, length, ltb, leb, eqb, All,
}
use celery.Prelude.Dict
use celery.Utils.LimitedSet.{
  Entry, LimitedSet, entry_lt, heappush, heapify, values, pop_from, pop, shrink, expire, fresh_head,
  purge, insert, discard, add, contains, overloaded, refresh_heap,
}

module _ {ℓ} {A : Type ℓ} where
  abbrev pub IsSorted : List (Entry A) → Type 0
  IsSorted [] = Unit
  IsSorted (e ∷ h) = All (λ f. e.inserted ≤ f.inserted) h × IsSorted h

  module _ (item_lt : A → A → Bool) where
    All-heappush :
        (n : ℕ) (e : Entry A) (h : List (Entry A))
        → n ≤ e.inserted
        → All (λ f. n ≤ f.inserted) h
        → All (λ f. n ≤ f.inserted) (heappush item_lt e h)
    unfolding heappush
    All-heappush n e [] le a = (le, tt)
    All-heappush n e (f ∷ h) le a = ground (arith, All-heappush n e h le a.1)

    All-mono :
        (m n : ℕ) (h : List (Entry A))
        → m ≤ n
        → All (λ f. n ≤ f.inserted) h
        → All (λ f. m ≤ f.inserted) h
    All-mono m n [] le a = tt
    All-mono m n (f ∷ h) le a = (omega arith, All-mono m n h le a.1)

    entry_lt→le : (e f : Entry A) → entry_lt item_lt f e ≡ true → f.inserted ≤ e.inserted
    unfolding entry_lt
    entry_lt→le e f h = ground arith

    entry_lt-false→le : (e f : Entry A) → entry_lt item_lt f e ≡ false → e.inserted ≤ f.inserted
    unfolding entry_lt
    entry_lt-false→le e f h = ground arith

    heappush-IsSorted :
        (e : Entry A) (h : List (Entry A)) → IsSorted h → IsSorted (heappush item_lt e h)
    unfolding heappush
    heappush-IsSorted e [] s = (tt, tt)
    heappush-IsSorted e (f ∷ h) s = elim (Bool-cases (entry_lt item_lt f e)) [
      | inl t ↦
          rw t (All-heappush f.inserted e h (entry_lt→le e f t) s.0, heappush-IsSorted e h s.1)
      | inr t ↦
          let le = entry_lt-false→le e f t in
          rw t ((le, All-mono e.inserted f.inserted h le s.0), s)
    ]

    heapify-IsSorted : (es : List (Entry A)) → IsSorted (heapify item_lt es)
    unfolding heapify
    heapify-IsSorted [] = tt
    heapify-IsSorted (e ∷ es) = heappush-IsSorted e (heapify item_lt es) (heapify-IsSorted es)

  pub head_le :
      (e f : Entry A) (h : List (Entry A))
      → IsSorted (e ∷ h)
      → Memᴰ f (e ∷ h)
      → e.inserted ≤ f.inserted
  head_le e f h s (Memᴰ.head p) = ground (arith, p)
  head_le e f h s (Memᴰ.tail m) = go h s.0 m
    where
      go :
          (h : List (Entry A))
          → All (λ g. e.inserted ≤ g.inserted) h
          → Memᴰ f h
          → e.inserted ≤ f.inserted
      go [] a m = elim m [ ]
      go (g ∷ h) a (Memᴰ.head p) = ground (arith, p)
      go (g ∷ h) a (Memᴰ.tail m) = go h a.1 m

  if-IsSorted :
      (b : Bool) (s t : LimitedSet A)
      → IsSorted s.heap
      → IsSorted t.heap
      → IsSorted (if b then s else t).heap
  if-IsSorted true s t p q = p
  if-IsSorted false s t p q = q

module _ {ℓ} {A : Type ℓ} (dec : Discrete A) where
  pop_from-IsSorted :
      (h : List (Entry A)) (s : LimitedSet A) → IsSorted h → IsSorted (pop_from dec h s).0.heap
  unfolding pop_from
  pop_from-IsSorted [] s p = tt
  pop_from-IsSorted (e ∷ h) s p = elim (Bool-cases (Dict.has dec e.item s.items)) [
    | inl t ↦ rw t p.1
    | inr t ↦ rw t (pop_from-IsSorted h s p.1)
  ]

  pub pop-IsSorted : (s : LimitedSet A) → IsSorted s.heap → IsSorted (pop dec s).0.heap
  unfolding pop
  pop-IsSorted s p = pop_from-IsSorted s.heap s p

  shrink-IsSorted : (n : ℕ) (s : LimitedSet A) → IsSorted s.heap → IsSorted (shrink dec n s).heap
  unfolding shrink
  shrink-IsSorted zero s p = p
  shrink-IsSorted (suc n) s p =
      if-IsSorted (ltb s.maxlen (length s.items)) _ s
        (shrink-IsSorted n (pop dec s).0 (pop-IsSorted s p)) p

  expire-IsSorted :
      (n now : ℕ) (s : LimitedSet A) → IsSorted s.heap → IsSorted (expire dec n now s).heap
  unfolding expire
  expire-IsSorted zero now s p = p
  expire-IsSorted (suc n) now s p =
      if-IsSorted (ltb s.minlen (length s.items)) _ s
        (if-IsSorted (fresh_head dec now s s.heap) s _ p
          (expire-IsSorted n now (pop dec s).0 (pop-IsSorted s p)))
        p

  pub purge-IsSorted :
      (now : ℕ) (s : LimitedSet A) → IsSorted s.heap → IsSorted (purge dec now s).heap
  unfolding purge
  purge-IsSorted now s p =
      let t = if eqb s.maxlen 0 then s else shrink dec (length s.items) s in
      let pt = if-IsSorted (eqb s.maxlen 0) s _ p (shrink-IsSorted (length s.items) s p) in
      if-IsSorted (eqb t.expires 0) t _ pt (expire-IsSorted (length t.items) now t pt)

  module _ (item_lt : A → A → Bool) where
    pub refresh_heap-IsSorted : (s : LimitedSet A) → IsSorted (refresh_heap dec item_lt s).heap
    unfolding refresh_heap
    refresh_heap-IsSorted s = heapify-IsSorted item_lt (values s.items)

    pub discard-IsSorted :
        (x : A) (s : LimitedSet A) → IsSorted s.heap → IsSorted (discard dec item_lt x s).heap
    unfolding discard
    discard-IsSorted x s p =
        let t : LimitedSet A = record s { items = Dict.remove dec x s.items } in
        if-IsSorted (overloaded t) (refresh_heap dec item_lt t) t
          (heapify-IsSorted item_lt (values t.items)) p

    insert-IsSorted :
        (x : A) (now : ℕ) (s : LimitedSet A)
        → IsSorted s.heap
        → IsSorted (insert dec item_lt x now s).heap
    unfolding insert
    insert-IsSorted x now s p =
        heappush-IsSorted item_lt _ _
          (if-IsSorted (contains dec x s) _ s (discard-IsSorted x s p) p)

    pub add-IsSorted :
        (x : A) (now purge_now : ℕ) (s : LimitedSet A)
        → IsSorted s.heap
        → IsSorted (add dec item_lt x now purge_now s).heap
    unfolding add
    add-IsSorted x now purge_now s p =
        let t = insert dec item_lt x now s in
        let pt = insert-IsSorted x now s p in
        if-IsSorted (eqb t.maxlen 0) t _ pt
          (if-IsSorted (leb t.maxlen (length t.items)) _ t (purge-IsSorted purge_now t pt) pt)
