-- ===== src/Prelude/Dict.antt =====
-- Python's `dict` as an association list in insertion order, over a key with decidable equality.
use mathlib.Core.Path.{◌≡◌, Path, refl, sym, ap, ◌∙◌}
use mathlib.Core.Logic.{ite, if_pos, if_neg}
use mathlib.Core.Bool.{Bool, true, false, false≢true}
use Prim.Native.Nat.{suc, ◌≤◌, ◌<◌}
use celery.Prelude.Lists.{length}
use mathlib.Core.List.{List, [], ◌∷◌, ◌++◌, append-nil, append_assoc}
use mathlib.Core.Option.{Option, none, some}
use native.Mathlib.Omega.{arith}

abbrev pub Dict {ℓ} : Type ℓ → Type ℓ → Type ℓ
Dict K V = List (K × V)

abbrev pub is_some {ℓ} : {A : Type ℓ} → Option A → Bool
is_some none = false
is_some (some _) = true

module _ {ℓ} {K V : Type ℓ} (dec : Discrete K) where
  -- `d.get(k)`
  unfoldable pub get : K → Dict K V → Option V
  get k [] = none
  get k ((j, v) ∷ d) = ite (dec j k) (some v) (get k d)

  -- `d[k] = v`: a present key keeps its place, a new one goes last
  unfoldable pub put : K → V → Dict K V → Dict K V
  put k v [] = (k, v) ∷ []
  put k v ((j, w) ∷ d) = ite (dec j k) ((k, v) ∷ d) ((j, w) ∷ put k v d)

  -- `d.pop(k, None)`
  unfoldable pub remove : K → Dict K V → Dict K V
  remove k [] = []
  remove k ((j, w) ∷ d) = ite (dec j k) (remove k d) ((j, w) ∷ remove k d)

  -- `k in d`
  unfoldable pub has : K → Dict K V → Bool
  unfolding get
  has k d = is_some (get k d)

  -- `d.update(e)`
  unfoldable pub update : Dict K V → Dict K V → Dict K V
  unfolding put
  update d [] = d
  update d ((k, v) ∷ e) = update (put k v d) e

  pub get-put :
      (k j : K) (v : V) (d : Dict K V) → get j (put k v d) ≡ ite (dec k j) (some v) (get j d)
  unfolding get put
  get-put k j v [] = refl
  get-put k j v ((i, w) ∷ d) = ground (arith, get-put k j v d)

  pub get-remove : (k j : K) (d : Dict K V) → get j (remove k d) ≡ ite (dec k j) none (get j d)
  unfolding get remove
  get-remove k j [] = ground arith
  get-remove k j ((i, w) ∷ d) = ground (arith, get-remove k j d)

  pub length-put-le : (k : K) (v : V) (d : Dict K V) → length (put k v d) ≤ suc (length d)
  unfolding put
  length-put-le k v [] = omega arith
  length-put-le k v ((j, w) ∷ d) = ground (arith, length-put-le k v d)

  pub length-remove-le : (k : K) (d : Dict K V) → length (remove k d) ≤ length d
  unfolding remove
  length-remove-le k [] = omega arith
  length-remove-le k ((j, w) ∷ d) = ground (arith, length-remove-le k d)

  pub length-remove-lt : (k : K) (d : Dict K V) → has k d ≡ true → length (remove k d) < length d
  unfolding has remove
  length-remove-lt k [] h = cc
  length-remove-lt k ((j, w) ∷ d) h = ground (arith, length-remove-lt k d, length-remove-le k d)

  -- a dictionary that is not empty has a key
  pub first_key : (d : Dict K V) → 0 < length d → (k : K) × (v : V) × (get k d ≡ some v)
  unfolding get
  first_key [] h = absurd (omega arith)
  first_key ((j, w) ∷ d) h = (j, w, ground arith)

  get-update_cong :
      (k : K) (d d' e : Dict K V) → get k d ≡ get k d' → get k (update d e) ≡ get k (update d' e)
  unfolding update
  get-update_cong k d d' [] h = h
  get-update_cong k d d' ((j, w) ∷ e) h =
      get-update_cong k (put j w d) (put j w d') e
        (ground (arith, get-put j k w d, get-put j k w d'))

  pub get-update_absent : (k : K) (d e : Dict K V) → has k e ≡ false → get k (update d e) ≡ get k d
  unfolding update has get
  get-update_absent k d [] h = refl
  get-update_absent k d ((j, w) ∷ e) h =
      ground (arith, get-update_absent k (put j w d) e, get-put j k w d)

  pub get-update-put_ne :
      (k j : K) (w : V) (d e : Dict K V)
      → ¬ (j ≡ k)
      → get k (update d (put j w e)) ≡ get k (update d e)
  unfolding update put
  get-update-put_ne k j w d [] h = ground (arith, get-put j k w d)
  get-update-put_ne k j w d ((i, u) ∷ e) h = elim (dec i j) [
    | yes p ↦ rw (if_pos _ p) (
        get-update_cong k (put j w d) (put i u d) e
          (ground (arith, get-put j k w d, get-put i k u d)))
    | no p ↦ rw (if_neg _ p) (get-update-put_ne k j w (put i u d) e h)
  ]

  pub get-update-put_self :
      (k : K) (v : V) (d e : Dict K V) → has k e ≡ false → get k (update d (put k v e)) ≡ some v
  unfolding update put has get
  get-update-put_self k v d [] h = ground (arith, get-put k k v d)
  get-update-put_self k v d ((j, w) ∷ e) h = elim (dec j k) [
    | yes p ↦ absurd (ground arith)
    | no p ↦ rw (if_neg _ p) (get-update-put_self k v (put j w d) e (ground arith))
  ]

  -- no key stands twice
  abbrev pub AreDistinct : Dict K V → Type ℓ
  AreDistinct [] = Unit
  AreDistinct ((j, w) ∷ d) = Path Bool (has j d) false × AreDistinct d

  pub has-cons_self : (k j : K) (v : V) (d : Dict K V) → Path K k j → has j ((k, v) ∷ d) ≡ true
  unfolding has get
  has-cons_self k j v d p = rw (if_pos (dec k j) p) refl

  pub has-cons_ne : (k j : K) (v : V) (d : Dict K V) → ¬ Path K k j → has j ((k, v) ∷ d) ≡ has j d
  unfolding has get
  has-cons_ne k j v d p = rw (if_neg (dec k j) p) refl

  pub has-put_self : (k j : K) (v : V) (d : Dict K V) → Path K k j → has j (put k v d) ≡ true
  unfolding has
  has-put_self k j v d p = rw (get-put k j v d, if_pos (dec k j) p) refl

  pub has-put_ne : (k j : K) (v : V) (d : Dict K V) → ¬ Path K k j → has j (put k v d) ≡ has j d
  unfolding has
  has-put_ne k j v d p = rw (get-put k j v d, if_neg (dec k j) p) refl

  pub has-put : (k j : K) (v : V) (d : Dict K V) → has j (put k v d) ≡ ite (dec k j) true (has j d)
  has-put k j v d = elim (dec k j) [
    | yes p ↦ rw (if_pos (dec k j) p) (has-put_self k j v d p)
    | no p ↦ rw (if_neg (dec k j) p) (has-put_ne k j v d p)
  ]

  pub put-AreDistinct : (k : K) (v : V) (d : Dict K V) → AreDistinct d → AreDistinct (put k v d)
  unfolding put
  put-AreDistinct k v [] a = (unfold has get in refl, tt)
  put-AreDistinct k v ((j, w) ∷ d) a = elim (dec j k) [
    | yes p ↦ rw (if_pos _ p) (ap (λ x. has x d) (sym p) ∙ a.0, a.1)
    | no p ↦ rw (if_neg _ p) (has-put_ne k j v d (λ q. p (sym q)) ∙ a.0, put-AreDistinct k v d a.1)
  ]

  pub put_fresh : (k : K) (v : V) (d : Dict K V) → has k d ≡ false → put k v d ≡ d ++ (k, v) ∷ []
  unfolding put
  put_fresh k v [] h = refl
  put_fresh k v ((j, w) ∷ d) h = elim (dec j k) [
    | yes p ↦ absurd (false≢true (sym h ∙ has-cons_self j k w d p))
    | no p ↦
        rw (if_neg _ p)
          (ap {B = Dict K V} (λ r. (j, w) ∷ r) (put_fresh k v d (sym (has-cons_ne j k w d p) ∙ h)))
  ]

module _ {ℓ} {K V W : Type ℓ} (dec : Discrete K) where
  pub put_apart :
      (k : K) (v : V) (w : W) (d : Dict K W) (e : Dict K V)
      → has dec k e ≡ false
      → ((j : K) → has dec j ((k, v) ∷ e) ≡ true → has dec j d ≡ false)
      → (j : K) → has dec j e ≡ true
      → has dec j (put dec k w d) ≡ false
  put_apart k v w d e a h j m = elim (dec k j) [
    | yes p ↦ absurd (false≢true (sym a ∙ (ap (λ x. has dec x e) p ∙ m)))
    | no p ↦ has-put_ne dec k j w d p ∙ h j (has-cons_ne dec k j v e p ∙ m)
  ]

module _ {ℓ} {K V : Type ℓ} (dec : Discrete K) where
  -- `d.update(e)` where no key of `e` is in `d`
  pub update_fresh :
      (d e : Dict K V)
      → AreDistinct dec e
      → ((j : K) → has dec j e ≡ true → has dec j d ≡ false)
      → update dec d e ≡ d ++ e
  unfolding update
  update_fresh d [] a h = sym (append-nil d)
  update_fresh d ((k, v) ∷ e) a h =
      update_fresh (put dec k v d) e a.1 (put_apart dec k v v d e a.0 h)
      ∙ (ap (λ r. r ++ e) (put_fresh dec k v d (h k (has-cons_self dec k k v e refl)))
          ∙ append_assoc d ((k, v) ∷ []) e)
