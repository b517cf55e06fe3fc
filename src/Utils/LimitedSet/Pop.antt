-- ===== src/Utils/LimitedSet/Pop.antt =====
-- What `pop` returns and removes (celery/utils/collections.py, `LimitedSet.pop`).
use mathlib.Core.Logic.{ite}
use celery.Prelude.{◌<◌, ◌≡◌, refl, Bool-cases, true, inl, inr, some, none, List, [], ◌∷◌, length}
use celery.Prelude.Dict
use celery.Utils.LimitedSet.{Entry, LimitedSet, contains, pop_from, pop}
use celery.Utils.LimitedSet.Covers.{Covers, Covers-skip}

module _ {ℓ} {A : Type ℓ} (dec : Discrete A) where
  -- `x` was taken out of `s`, and nothing else
  pub record Takes (s t : LimitedSet A) (x : A) : Type ℓ where
    pub member : contains dec x s ≡ true
    pub others : (k : A) → Dict.get dec k t.items ≡ ite (dec x k) none (Dict.get dec k s.items)

  pop_from-Takes :
      (h : List (Entry A)) (s : LimitedSet A)
      → Covers dec s.items h
      → 0 < length s.items
      → (x : A) × ((pop_from dec h s).1 ≡ some x) × Takes s (pop_from dec h s).0 x
  unfolding pop_from contains
  pop_from-Takes [] s c pos =
      let (k, e, p) = Dict.first_key dec s.items pos in elim (c.held k e p) [ ]
  pop_from-Takes (e ∷ h) s c pos = elim (Bool-cases (Dict.has dec e.item s.items)) [
    | inl t ↦
        rw t
          (e.item, refl, record { member = t; others = λ k. Dict.get-remove dec e.item k s.items })
    | inr t ↦ rw t (pop_from-Takes h s (Covers-skip dec e h s.items t c) pos)
  ]

  -- On a set that is not empty and whose heap covers its items, `pop` returns a member and takes out
  -- just that one.
  pub pop-Takes :
      (s : LimitedSet A)
      → Covers dec s.items s.heap
      → 0 < length s.items
      → (x : A) × ((pop dec s).1 ≡ some x) × Takes s (pop dec s).0 x
  unfolding pop
  pop-Takes s c pos = pop_from-Takes s.heap s c pos
