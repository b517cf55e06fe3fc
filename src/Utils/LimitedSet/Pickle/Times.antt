-- ===== src/Utils/LimitedSet/Pickle/Times.antt =====
-- When the items of a set were inserted, before and after a serialisation
-- (celery/utils/collections.py, `as_dict`, `update`).
use mathlib.Core.Logic.{ite, if_pos, if_neg}
use celery.Prelude.{ℕ, ◌≡◌, refl, ap, sym, ◌∙◌, false, Option, none, some, [], ◌∷◌, arith}
use celery.Prelude.Dict
use celery.Prelude.Dict.{Dict}
use celery.Utils.LimitedSet.{Entry, LimitedSet, values}
use celery.Utils.LimitedSet.Pickle.{collect, as_dict}

module _ {A : Type 0} (dec : Discrete A) where
  -- when the item was inserted, where it is there
  abbrev pub time_of : A → Dict A (Entry A) → Option ℕ
  time_of x d = elim (Dict.get dec x d) [ none ↦ none | some e ↦ some e.inserted ]

  -- the first of two, and else the second
  abbrev pub or : Option ℕ → Option ℕ → Option ℕ
  or none o = o
  or (some t) o = some t

  -- each item is that of its entry, and there once
  abbrev pub AreOwn : Dict A (Entry A) → Type 0
  AreOwn [] = Unit
  AreOwn ((k, e) ∷ d) = (Dict.has dec k d ≡ false) × (e.item ≡ k) × AreOwn d

  time_of-cons :
      (x k : A) (e : Entry A) (d : Dict A (Entry A))
      → time_of x ((k, e) ∷ d) ≡ ite (dec k x) (some e.inserted) (time_of x d)
  unfolding Dict.get
  time_of-cons x k e d = ground arith

  pub time_of-put :
      (x k : A) (e : Entry A) (d : Dict A (Entry A))
      → time_of x (Dict.put dec k e d) ≡ ite (dec k x) (some e.inserted) (time_of x d)
  time_of-put x k e d = ground (arith, Dict.get-put dec k x e d)

  absent : (x : A) (d : Dict A (Entry A)) → Dict.has dec x d ≡ false → time_of x d ≡ none
  unfolding Dict.has
  absent x d h = ground arith

  pub or_none : (o : Option ℕ) → or o none ≡ o
  or_none none = refl
  or_none (some t) = refl

  get-collect :
      (x : A) (items : Dict A (Entry A)) (d : Dict A ℕ)
      → AreOwn items
      → Dict.get dec x (collect dec (values items) d) ≡ or (time_of x items) (Dict.get dec x d)
  unfolding collect Dict.get
  get-collect x [] d own = refl
  get-collect x ((k, e) ∷ items) d (free, keyed, own) =
      let rest = get-collect x items (Dict.put dec e.item e.inserted d) own in
      let put =
        Dict.get-put dec e.item x e.inserted d
        ∙ ap (λ j. ite (dec j x) (some e.inserted) (Dict.get dec x d)) keyed in
      let here = time_of-cons x k e items in
      elim (dec k x) [
        | yes p ↦
            let gone = absent x items (ap (λ j. Dict.has dec j items) (sym p) ∙ free) in
            rest
            ∙ ap (λ o. or o (Dict.get dec x (Dict.put dec e.item e.inserted d))) gone
            ∙ put
            ∙ if_pos (dec k x) p _ _
            ∙ sym (ap (λ o. or o (Dict.get dec x d)) (here ∙ if_pos (dec k x) p _ _))
        | no p ↦
            rest
            ∙ ap (or (time_of x items)) (put ∙ if_neg (dec k x) p _ _)
            ∙ sym (ap (λ o. or o (Dict.get dec x d)) (here ∙ if_neg (dec k x) p _ _))
      ]

  -- `as_dict` loses no item and no time
  pub get-as_dict :
      (x : A) (s : LimitedSet A)
      → AreOwn s.items
      → Dict.get dec x (as_dict dec s) ≡ time_of x s.items
  unfolding as_dict Dict.get
  get-as_dict x s own = get-collect x s.items [] own ∙ or_none (time_of x s.items)

  -- an item that goes from the front of a dictionary of times to a set
  pub moved :
      (x k : A) (e : Entry A) (d : Dict A ℕ) (items : Dict A (Entry A))
      → Dict.has dec k d ≡ false
      → or (Dict.get dec x d) (time_of x (Dict.put dec k e items))
        ≡ or (Dict.get dec x ((k, e.inserted) ∷ d)) (time_of x items)
  unfolding Dict.get Dict.has
  moved x k e d items free = elim (dec k x) [
    | yes p ↦ ground (arith, time_of-put x k e items)
    | no p ↦ ground (arith, time_of-put x k e items)
  ]
