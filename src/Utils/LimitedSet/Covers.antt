-- ===== src/Utils/LimitedSet/Covers.antt =====
-- The heap holds the entry of each item of the set, after every operation
-- (celery/utils/collections.py, `LimitedSet`).
use mathlib.Core.List.{Memᴰ}
use celery.Prelude.{
  ℕ, zero, suc, ◌≡◌, ap, Bool, Bool-cases, true, false, some, List, [], ◌∷◌, inl, inr, arith,
  if◌then◌else◌, length, ltb, leb, eqb,
}
use celery.Prelude.Dict
use celery.Prelude.Dict.{Dict}
use celery.Utils.LimitedSet.{
  Entry, LimitedSet, values, pop_from, pop, shrink, expire, fresh_head, purge, heappush,
  refresh_heap, overloaded, discard, insert, contains, add,
}
use celery.Utils.LimitedSet.Heap.{mem-heapify, mem-heappush, mem-heappush_self}

module _ {ℓ} {A : Type ℓ} (dec : Discrete A) where
  -- each item of the set is the item of its entry, and the entry is in the heap
  pub record Covers (items : Dict A (Entry A)) (heap : List (Entry A)) : Type ℓ where
    pub keyed : (k : A) (e : Entry A) → Dict.get dec k items ≡ some e → e.item ≡ k
    pub held : (k : A) (e : Entry A) → Dict.get dec k items ≡ some e → Memᴰ e heap

  pub Covers-nil : Covers [] []
  unfolding Dict.get
  Covers-nil = record { keyed = λ k e p. cc; held = λ k e p. cc }

  mem_drop : {e f : Entry A} {h : List (Entry A)} → Memᴰ f (e ∷ h) → ¬ (f ≡ e) → Memᴰ f h
  mem_drop (Memᴰ.head p) n = absurd (n p)
  mem_drop (Memᴰ.tail m) n = m

  -- a head whose item is not in the set is the entry of no item
  pub Covers-skip :
      (e : Entry A) (h : List (Entry A)) (d : Dict A (Entry A))
      → Dict.has dec e.item d ≡ false
      → Covers d (e ∷ h)
      → Covers d h
  unfolding Dict.has
  Covers-skip e h d miss c = record {
    keyed = c.keyed;
    held = λ k f p.
        mem_drop (c.held k f p) λ q. ground (arith, c.keyed k f p, ap (λ (x : Entry A). x.item) q);
  }

  -- removing the item of the head leaves the entries of the others in the rest
  Covers-hit :
      (e : Entry A) (h : List (Entry A)) (d : Dict A (Entry A))
      → Covers d (e ∷ h)
      → Covers (Dict.remove dec e.item d) h
  Covers-hit e h d c = record {
    keyed = λ k f p. c.keyed k f (ground (arith, Dict.get-remove dec e.item k d));
    held = λ k f p. mem_drop (c.held k f (ground (arith, Dict.get-remove dec e.item k d))) λ q.
        ground (arith, Dict.get-remove dec e.item k d, c.keyed k f, ap (λ (x : Entry A). x.item) q);
  }

  pop_from-Covers :
      (h : List (Entry A)) (s : LimitedSet A)
      → Covers s.items h
      → Covers (pop_from dec h s).0.items (pop_from dec h s).0.heap
  unfolding pop_from
  pop_from-Covers [] s c = c
  pop_from-Covers (e ∷ h) s c = elim (Bool-cases (Dict.has dec e.item s.items)) [
    | inl t ↦ rw t (Covers-hit e h s.items c)
    | inr t ↦ rw t (pop_from-Covers h s (Covers-skip e h s.items t c))
  ]

  pub pop-Covers :
      (s : LimitedSet A) → Covers s.items s.heap → Covers (pop dec s).0.items (pop dec s).0.heap
  unfolding pop
  pop-Covers s c = pop_from-Covers s.heap s c

  mem-values :
      (k : A) (e : Entry A) (d : Dict A (Entry A)) → Dict.get dec k d ≡ some e → Memᴰ e (values d)
  unfolding Dict.get
  mem-values k e [] h = cc
  mem-values k e ((j, w) ∷ d) h = elim (dec j k) [
    | yes p ↦ Memᴰ.head (ground arith)
    | no p ↦ Memᴰ.tail (mem-values k e d (ground arith))
  ]

  pub shrink-Covers :
      (n : ℕ) (s : LimitedSet A)
      → Covers s.items s.heap
      → Covers (shrink dec n s).items (shrink dec n s).heap
  unfolding shrink
  shrink-Covers zero s c = c
  shrink-Covers (suc n) s c = elim (Bool-cases (ltb s.maxlen (length s.items))) [
    | inl t ↦ rw t (shrink-Covers n (pop dec s).0 (pop-Covers s c))
    | inr t ↦ rw t c
  ]

  pub expire-Covers :
      (n now : ℕ) (s : LimitedSet A)
      → Covers s.items s.heap
      → Covers (expire dec n now s).items (expire dec n now s).heap
  unfolding expire
  expire-Covers zero now s c = c
  expire-Covers (suc n) now s c = elim (Bool-cases (ltb s.minlen (length s.items))) [
    | inl t ↦ elim (Bool-cases (fresh_head dec now s s.heap)) [
      | inl u ↦ rw (t, u) c
      | inr u ↦ rw (t, u) (expire-Covers n now (pop dec s).0 (pop-Covers s c))
    ]
    | inr t ↦ rw t c
  ]

  if-Covers :
      (b : Bool) (s t : LimitedSet A)
      → Covers s.items s.heap
      → Covers t.items t.heap
      → Covers (if b then s else t).items (if b then s else t).heap
  if-Covers true s t c d = c
  if-Covers false s t c d = d

  pub purge-Covers :
      (now : ℕ) (s : LimitedSet A)
      → Covers s.items s.heap
      → Covers (purge dec now s).items (purge dec now s).heap
  unfolding purge
  purge-Covers now s c =
      let t = if eqb s.maxlen 0 then s else shrink dec (length s.items) s in
      let ct = if-Covers (eqb s.maxlen 0) s _ c (shrink-Covers (length s.items) s c) in
      if-Covers (eqb t.expires 0) t _ ct (expire-Covers (length t.items) now t ct)

  module _ (item_lt : A → A → Bool) where
    -- a heap made anew of the items, each of which is that of its entry
    pub refresh_heap-keyed :
        (s : LimitedSet A)
        → ((k : A) (e : Entry A) → Dict.get dec k s.items ≡ some e → e.item ≡ k)
        → Covers (refresh_heap dec item_lt s).items (refresh_heap dec item_lt s).heap
    unfolding refresh_heap
    refresh_heap-keyed s keyed = record {
      keyed = keyed;
      held = λ k e p. mem-heapify item_lt e (values s.items) (mem-values k e s.items p);
    }

    refresh_heap-Covers :
        (s : LimitedSet A) (h : List (Entry A))
        → Covers s.items h
        → Covers s.items (refresh_heap dec item_lt s).heap
    unfolding refresh_heap
    refresh_heap-Covers s h c = refresh_heap-keyed s c.keyed

    pub discard-Covers :
        (x : A) (s : LimitedSet A)
        → Covers s.items s.heap
        → Covers (discard dec item_lt x s).items (discard dec item_lt x s).heap
    unfolding discard
    discard-Covers x s c =
        let t : LimitedSet A = record s { items = Dict.remove dec x s.items } in
        if-Covers (overloaded t) (refresh_heap dec item_lt t) t (refresh_heap-Covers t s.heap ct) ct
      where
        ct : Covers (Dict.remove dec x s.items) s.heap
        ct = record {
          keyed = λ k e p. c.keyed k e (ground (arith, Dict.get-remove dec x k s.items));
          held = λ k e p. c.held k e (ground (arith, Dict.get-remove dec x k s.items));
        }

    pub insert-Covers :
        (x : A) (now : ℕ) (s : LimitedSet A)
        → Covers s.items s.heap
        → Covers (insert dec item_lt x now s).items (insert dec item_lt x now s).heap
    unfolding insert
    insert-Covers x now s c =
        let t = if contains dec x s then discard dec item_lt x s else s in
        let ct = if-Covers (contains dec x s) _ s (discard-Covers x s c) c in
        with_entry t.items t.heap (record { inserted = now; seq = t.next_seq; item = x }) ct
      where
        with_entry :
            (items : Dict A (Entry A)) (heap : List (Entry A)) (e : Entry A)
            → Covers items heap
            → Covers (Dict.put dec e.item e items) (heappush item_lt e heap)
        with_entry items heap e ct = record {
          keyed = λ k f p. ground (arith, Dict.get-put dec e.item k e items, ct.keyed k f);
          held = λ k f p. elim (dec e.item k) [
            | yes q ↦
                let same : e ≡ f = ground (arith, Dict.get-put dec e.item k e items) in
                rw (← same) (mem-heappush_self item_lt e heap)
            | no q ↦
                mem-heappush item_lt e f heap
                  (ct.held k f (ground (arith, Dict.get-put dec e.item k e items)))
          ];
        }

    pub add-Covers :
        (x : A) (now purge_now : ℕ) (s : LimitedSet A)
        → Covers s.items s.heap
        → Covers (add dec item_lt x now purge_now s).items (add dec item_lt x now purge_now s).heap
    unfolding add
    add-Covers x now purge_now s c =
        let t = insert dec item_lt x now s in
        let ct = insert-Covers x now s c in
        if-Covers (eqb t.maxlen 0) t _ ct
          (if-Covers (leb t.maxlen (length t.items)) _ t (purge-Covers purge_now t ct) ct)
