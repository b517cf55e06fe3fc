-- ===== src/Utils/LimitedSet/Heap.antt =====
-- Membership in the entry lists that stand for heaps (celery/utils/collections.py, `LimitedSet`).
use mathlib.Core.List.{Memᴰ}
use celery.Prelude.{Bool, refl, Bool-cases, List, [], ◌∷◌, inl, inr}
use celery.Utils.LimitedSet.{Entry, entry_lt, heappush, heapify}

module _ {ℓ} {A : Type ℓ} (item_lt : A → A → Bool) where
  -- `heappush` adds the entry,
  pub mem-heappush_self : (e : Entry A) (h : List (Entry A)) → Memᴰ e (heappush item_lt e h)
  unfolding heappush
  mem-heappush_self e [] = Memᴰ.head refl
  mem-heappush_self e (g ∷ h) = elim (Bool-cases (entry_lt item_lt g e)) [
    | inl t ↦ rw t (Memᴰ.tail (mem-heappush_self e h))
    | inr t ↦ rw t (Memᴰ.head refl)
  ]

  -- and loses none.
  pub mem-heappush : (e f : Entry A) (h : List (Entry A)) → Memᴰ f h → Memᴰ f (heappush item_lt e h)
  unfolding heappush
  mem-heappush e f [] m = elim m [ ]
  mem-heappush e f (g ∷ h) (Memᴰ.head p) = elim (Bool-cases (entry_lt item_lt g e)) [
    | inl t ↦ rw t (Memᴰ.head p)
    | inr t ↦ rw t (Memᴰ.tail (Memᴰ.head p))
  ]
  mem-heappush e f (g ∷ h) (Memᴰ.tail m) = elim (Bool-cases (entry_lt item_lt g e)) [
    | inl t ↦ rw t (Memᴰ.tail (mem-heappush e f h m))
    | inr t ↦ rw t (Memᴰ.tail (Memᴰ.tail m))
  ]

  -- `heapify` loses no entry.
  pub mem-heapify : (f : Entry A) (es : List (Entry A)) → Memᴰ f es → Memᴰ f (heapify item_lt es)
  unfolding heapify
  mem-heapify f [] m = elim m [ ]
  mem-heapify f (e ∷ es) (Memᴰ.head p) = rw p (mem-heappush_self e (heapify item_lt es))
  mem-heapify f (e ∷ es) (Memᴰ.tail m) = mem-heappush e f (heapify item_lt es) (mem-heapify f es m)
