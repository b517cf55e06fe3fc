-- ===== src/Tests/Stores.antt =====
-- Tests of the backends' store of keys and values (celery/backends/base.py), on a store in memory whose
-- calls fail by a script.
use Prim.{tt}
use celery.Prelude.{
  String, ◌≡◌, ◌≢◌, refl, ap, sym, ◌∙◌, ◌⊎◌, inl, inr, Bool, true, false, none, some, List, [], ◌∷◌,
  string_discrete,
}
use celery.Prelude.Dict.{Dict, get, put, remove, get-put, get-remove}
use mathlib.Core.Logic.{if_pos, if_neg}
use celery.Backends.Meta.{Meta}
use celery.Backends.Calls.{
  Result, returned, raised, raised≢returned, returned-inj, KeyValue, IsStore,
}

pub record Memory : Type 0 where
  pub dict : Dict String (Meta String)
  -- for each call to come, whether it fails
  pub faults : List Bool

abbrev pub Contents : Type 0
Contents = Dict String (Meta String)

-- a call on the contents, which fails where the script says so
unfoldable pub scripted :
    {A : Type 0} → List Bool → Contents → Contents → A → Memory × Result String A
scripted [] before after a = (record { dict = after; faults = [] }, returned a)
scripted (true ∷ l) before after a = (record { dict = before; faults = l }, raised "down")
scripted (false ∷ l) before after a = (record { dict = after; faults = l }, returned a)

unfoldable pub memory : KeyValue Memory String (Meta String)
unfolding scripted
memory = record {
  get = λ k s. scripted s.faults s.dict s.dict (get string_discrete k s.dict);
  set = λ k v s. scripted s.faults s.dict (put string_discrete k v s.dict) tt;
  delete = λ k s. scripted s.faults s.dict (remove string_discrete k s.dict) tt;
}

scripted-cases :
    {A : Type 0} (l : List Bool) (before after : Contents) (a : A)
    → (((scripted l before after a).0.dict ≡ after) × ((scripted l before after a).1 ≡ returned a))
      ⊎ (((scripted l before after a).0.dict ≡ before)
          × ((scripted l before after a).1 ≡ raised "down"))
unfolding scripted
scripted-cases [] before after a = inl (refl, refl)
scripted-cases (true ∷ l) before after a = inr (refl, refl)
scripted-cases (false ∷ l) before after a = inl (refl, refl)

pub at_or_as_before :
    {A : Type 0} (k : String) (l : List Bool) (before after : Contents) (a : A)
    → (get string_discrete k (scripted l before after a).0.dict ≡ get string_discrete k after)
      ⊎ (get string_discrete k (scripted l before after a).0.dict ≡ get string_discrete k before)
at_or_as_before k l before after a = elim (scripted-cases l before after a) [
  | inl (e, _) ↦ inl (ap (get string_discrete k) e)
  | inr (e, _) ↦ inr (ap (get string_discrete k) e)
]

pub unchanged :
    {A : Type 0} (k : String) (l : List Bool) (before after : Contents) (a : A)
    → get string_discrete k after ≡ get string_discrete k before
    → get string_discrete k (scripted l before after a).0.dict ≡ get string_discrete k before
unchanged k l before after a same = elim (at_or_as_before k l before after a) [
  | inl e ↦ e ∙ same
  | inr e ↦ e
]

pub came_through :
    {A : Type 0} (l : List Bool) (before after : Contents) (a : A) {x : A}
    → (scripted l before after a).1 ≡ returned x
    → ((scripted l before after a).0.dict ≡ after) × (x ≡ a)
came_through l before after a h = elim (scripted-cases l before after a) [
  | inl (e, r) ↦ (e, returned-inj (sym h ∙ r))
  | inr (_, r) ↦ absurd (raised≢returned (sym r ∙ h))
]

pub get-put-same :
    (k : String) (v : Meta String) (d : Contents)
    → get string_discrete k (put string_discrete k v d) ≡ some v
get-put-same k v d = get-put string_discrete k k v d ∙ if_pos (string_discrete k k) refl _ _

pub get-put-other :
    (k j : String) (v : Meta String) (d : Contents)
    → k ≢ j
    → get string_discrete j (put string_discrete k v d) ≡ get string_discrete j d
get-put-other k j v d ne = get-put string_discrete k j v d ∙ if_neg (string_discrete k j) ne _ _

pub get-remove-same :
    (k : String) (d : Contents) → get string_discrete k (remove string_discrete k d) ≡ none
get-remove-same k d = get-remove string_discrete k k d ∙ if_pos (string_discrete k k) refl _ _

pub get-remove-other :
    (k j : String) (d : Contents)
    → k ≢ j
    → get string_discrete j (remove string_discrete k d) ≡ get string_discrete j d
get-remove-other k j d ne = get-remove string_discrete k j d ∙ if_neg (string_discrete k j) ne _ _

unfoldable pub memory-IsStore : IsStore memory
unfolding memory
memory-IsStore = record {
  view = λ k s. get string_discrete k s.dict;
  get-view = λ k j s. unchanged j s.faults s.dict s.dict (get string_discrete k s.dict) refl;
  get-returned =
      λ k s o h. (came_through s.faults s.dict s.dict (get string_discrete k s.dict) h).1;
  set-other = λ k j v s ne. unchanged j s.faults s.dict _ tt (get-put-other k j v s.dict ne);
  set-either = λ k v s.
      elim (at_or_as_before k s.faults s.dict (put string_discrete k v s.dict) tt) [
        | inl e ↦ inl (e ∙ get-put-same k v s.dict)
        | inr e ↦ inr e
      ];
  set-returned = λ k v s u h.
      ap (get string_discrete k)
        (came_through s.faults s.dict (put string_discrete k v s.dict) tt h).0
      ∙ get-put-same k v s.dict;
  delete-other = λ k j s ne. unchanged j s.faults s.dict _ tt (get-remove-other k j s.dict ne);
  delete-either = λ k s.
      elim (at_or_as_before k s.faults s.dict (remove string_discrete k s.dict) tt) [
        | inl e ↦ inl (e ∙ get-remove-same k s.dict)
        | inr e ↦ inr e
      ];
  delete-returned = λ k s u h.
      ap (get string_discrete k)
        (came_through s.faults s.dict (remove string_discrete k s.dict) tt h).0
      ∙ get-remove-same k s.dict;
}
