-- ===== src/Utils/LimitedSet/Pickle.antt =====
-- A `LimitedSet` as a dictionary of insertion times and back (celery/utils/collections.py,
-- `as_dict`, `update` on a dictionary, `__reduce__`).
pub mod Times
pub mod RoundTrip
use mathlib.Core.Logic.{ite}
use celery.Prelude.{
  ℕ, ◌≡◌, Bool, true, false, Option, none, some, List, [], ◌∷◌, leb, if◌then◌else◌,
}
use celery.Prelude.Dict
use celery.Prelude.Dict.{Dict}
use celery.Utils.LimitedSet.{Entry, LimitedSet, values, add}

-- the values of a dictionary that `update` gets: a float, a tuple or list with its first value, or
-- something else
pub data Stamp : Type 0 where
  float : ℕ → Stamp
  first_of : Stamp → Stamp
  other : Stamp

-- `if isinstance(inserted, (tuple, list)): inserted = inserted[0]`
unfoldable pub unwrapped : Stamp → Stamp
unwrapped (first_of s) = s
unwrapped s = s

-- a float, or none for the `ValueError`
unfoldable pub seconds : Stamp → Option ℕ
seconds (float t) = some t
seconds s = none

-- the arguments that `__reduce__` gives the class
pub record Reduced (A : Type 0) : Type 0 where
  pub maxlen : ℕ
  pub expires : ℕ
  pub times : Dict A ℕ
  pub minlen : ℕ

module _ {A : Type 0} (dec : Discrete A) where
  -- the comprehension of `as_dict`
  unfoldable pub collect : List (Entry A) → Dict A ℕ → Dict A ℕ
  collect [] d = d
  collect (e ∷ es) d = collect es (Dict.put dec e.item e.inserted d)

  unfoldable pub as_dict : LimitedSet A → Dict A ℕ
  unfolding collect
  as_dict s = collect (values s.items) []

  unfoldable pub reduce : LimitedSet A → Reduced A
  unfolding as_dict
  reduce s = record { maxlen = s.maxlen; expires = s.expires; times = as_dict s; minlen = s.minlen }

  module _ (item_lt : A → A → Bool) (clock : A → ℕ) where
    -- `update` on a dictionary, `true` where it raises; `clock` has what the `purge` of an item reads
    unfoldable pub update_dict : Dict A Stamp → LimitedSet A → LimitedSet A × Bool
    unfolding unwrapped seconds add
    update_dict [] s = (s, false)
    update_dict ((item, stamp) ∷ rest) s = elim (seconds (unwrapped stamp)) [
      | none ↦ (s, true)
      | some inserted ↦ update_dict rest (add dec item_lt item inserted (clock item) s)
    ]

    -- `__init__` with a dictionary, none where it raises
    unfoldable pub init_from : ℕ → ℕ → ℕ → Dict A Stamp → Option (LimitedSet A)
    unfolding update_dict
    init_from maxlen expires minlen given =
        let (s, raised) = update_dict given (record {
          maxlen = maxlen;
          minlen = minlen;
          expires = expires;
          items = [];
          heap = [];
          next_seq = 0;
        }) in
        if raised then none else if leb minlen maxlen then some s else none

  abbrev pub stamped : Dict A ℕ → Dict A Stamp
  stamped [] = []
  stamped ((item, t) ∷ d) = (item, float t) ∷ stamped d

  -- what unpickling makes of the reduced set
  unfoldable pub rebuild : (A → A → Bool) → (A → ℕ) → Reduced A → Option (LimitedSet A)
  unfolding init_from
  rebuild item_lt clock r = init_from item_lt clock r.maxlen r.expires r.minlen (stamped r.times)
