-- ===== src/Utils/LimitedSet/Calls.antt =====
-- Sequences of method calls on a `LimitedSet` (celery/utils/collections.py).
use celery.Prelude.{
  ℕ, ◌<◌, ◌≤◌, ◌≡◌, Bool, Bool-cases, Option-cases, inl, inr, eqb, some, List, [], ◌∷◌, arith,
  length,
}
use mathlib.Core.Path.{subst, ap, sym, ◌∙◌}
use mathlib.Core.Option.{some-injective}
use mathlib.Core.Logic.{if_neg}
use celery.Prelude.Dict
use celery.Prelude.Dict.{Dict}
use celery.Utils.LimitedSet.{
  Entry, LimitedSet, pop, purge, add, discard, clear, update_items, update_set, refresh_heap,
}
use celery.Utils.LimitedSet.Pickle.{Stamp, seconds, unwrapped, update_dict, init_from}
use celery.Utils.LimitedSet.Covers.{
  Covers, pop-Covers, purge-Covers, discard-Covers, refresh_heap-keyed, add-Covers, Covers-nil,
}
use celery.Utils.LimitedSet.Bounds.{
  add-le, add-limits, purge-le, purge-limits, pop-limits, pop-length-le, discard-limits,
  discard-length-le,
}
use celery.Utils.LimitedSet.Order.{
  IsSorted, pop-IsSorted, purge-IsSorted, discard-IsSorted, refresh_heap-IsSorted, add-IsSorted,
}

-- A call with the clock values that it reads: those of `update` on items for each of them, those of
-- `update` on a dictionary as a function of the item.
pub data Call (A : Type 0) : Type 0 where
  add_item : A → ℕ → ℕ → Call A
  discard_item : A → Call A
  purge_at : ℕ → Call A
  pop_oldest : Call A
  clear_all : Call A
  update_from_items : List (A × ℕ × ℕ) → Call A
  update_from_dict : (A → ℕ) → Dict A Stamp → Call A
  update_from_set : LimitedSet A → ℕ → Call A

module _ {A : Type 0} (dec : Discrete A) (item_lt : A → A → Bool) where
  unfoldable pub call : Call A → LimitedSet A → LimitedSet A
  call (add_item x now purge_now) s = add dec item_lt x now purge_now s
  call (discard_item x) s = discard dec item_lt x s
  call (purge_at now) s = purge dec now s
  call pop_oldest s = (pop dec s).0
  call clear_all s = clear s
  call (update_from_items items) s = update_items dec item_lt items s
  call (update_from_dict clock times) s = (update_dict dec item_lt clock times s).0
  call (update_from_set other now) s = update_set dec item_lt other now s

  unfoldable pub run : List (Call A) → LimitedSet A → LimitedSet A
  unfolding call
  run [] s = s
  run (c ∷ cs) s = run cs (call c s)

  pub record IsSound (s : LimitedSet A) : Type 0 where
    pub covers : Covers dec s.items s.heap
    pub sorted : IsSorted s.heap
    pub within : 0 < s.maxlen → length s.items ≤ s.maxlen

  -- each item is that of its entry
  abbrev pub AreKeyed : Dict A (Entry A) → Type 0
  AreKeyed [] = Unit
  AreKeyed ((k, e) ∷ d) = (e.item ≡ k) × AreKeyed d

  -- so it is in another set that is given to `update`
  abbrev pub IsGiven : Call A → Type 0
  IsGiven (update_from_set other now) = AreKeyed other.items
  IsGiven _ = Unit

  abbrev pub AreGiven : List (Call A) → Type 0
  AreGiven [] = Unit
  AreGiven (c ∷ cs) = IsGiven c × AreGiven cs

  add-IsSound :
      (x : A) (now purge_now : ℕ) (s : LimitedSet A)
      → IsSound s
      → IsSound (add dec item_lt x now purge_now s)
  add-IsSound x now purge_now s v = record {
    covers = add-Covers dec item_lt x now purge_now s v.covers;
    sorted = add-IsSorted dec item_lt x now purge_now s v.sorted;
    within = λ pos. omega (
      arith,
      add-limits dec item_lt x now purge_now s,
      add-le dec item_lt x now purge_now s v.covers
          (omega (arith, add-limits dec item_lt x now purge_now s)),
    );
  }

  purge-IsSound :
      (now : ℕ) (s : LimitedSet A)
      → Covers dec s.items s.heap
      → IsSorted s.heap
      → IsSound (purge dec now s)
  purge-IsSound now s c o = record {
    covers = purge-Covers dec now s c;
    sorted = purge-IsSorted dec now s o;
    within = λ pos. omega (
      arith,
      purge-limits dec now s,
      purge-le dec now s c (omega (arith, purge-limits dec now s)),
    );
  }

  update_items-IsSound :
      (l : List (A × ℕ × ℕ)) (s : LimitedSet A) → IsSound s → IsSound (update_items dec item_lt l s)
  unfolding update_items
  update_items-IsSound [] s v = v
  update_items-IsSound ((x, now, purge_now) ∷ l) s v =
      update_items-IsSound l _ (add-IsSound x now purge_now s v)

  update_dict-IsSound :
      (clock : A → ℕ) (d : Dict A Stamp) (s : LimitedSet A)
      → IsSound s
      → IsSound (update_dict dec item_lt clock d s).0
  unfolding update_dict
  update_dict-IsSound clock [] s v = v
  update_dict-IsSound clock ((x, stamp) ∷ d) s v = elim (Option-cases (seconds (unwrapped stamp))) [
    | inl e ↦ rw (e, update_dict) v
    | inr (now, e) ↦
        rw (e, update_dict) (update_dict-IsSound clock d _ (add-IsSound x now (clock x) s v))
  ]

  put-keyed :
      (j : A) (w : Entry A) (d : Dict A (Entry A))
      → w.item ≡ j
      → ((k : A) (x : Entry A) → Dict.get dec k d ≡ some x → x.item ≡ k)
      → (k : A) (x : Entry A) → Dict.get dec k (Dict.put dec j w d) ≡ some x
      → x.item ≡ k
  put-keyed j w d own keyed k x h = elim (dec j k) [
    | yes p ↦
        let found : some w ≡ some x = ground (arith, Dict.get-put dec j k w d) in
        ap (λ y. y.item) (sym (some-injective w x found)) ∙ own ∙ p
    | no p ↦
        keyed k x (
          sym (if_neg (dec j k) p (some w) (Dict.get dec k d)) ∙ sym (Dict.get-put dec j k w d) ∙ h)
  ]

  -- the entries of another set put in
  update-keyed :
      (d e : Dict A (Entry A))
      → ((k : A) (x : Entry A) → Dict.get dec k d ≡ some x → x.item ≡ k)
      → AreKeyed e
      → (k : A) (x : Entry A) → Dict.get dec k (Dict.update dec d e) ≡ some x
      → x.item ≡ k
  unfolding Dict.update
  update-keyed d [] keyed a = keyed
  update-keyed d ((j, w) ∷ e) keyed a =
      update-keyed (Dict.put dec j w d) e (put-keyed j w d a.0 keyed) a.1

  update_set-IsSound :
      (other : LimitedSet A) (now : ℕ) (s : LimitedSet A)
      → AreKeyed other.items
      → IsSound s
      → IsSound (update_set dec item_lt other now s)
  unfolding update_set
  update_set-IsSound other now s keyed v = elim (Bool-cases (eqb (length other.items) 0)) [
    | inl empty ↦ rw empty v
    | inr some_items ↦
        let t : LimitedSet A = record s { items = Dict.update dec s.items other.items } in
        rw some_items (
          purge-IsSound now (refresh_heap dec item_lt t)
            (refresh_heap-keyed dec item_lt t
              (update-keyed s.items other.items v.covers.keyed keyed))
            (refresh_heap-IsSorted dec item_lt t))
  ]

  call-IsSound : (c : Call A) (s : LimitedSet A) → IsGiven c → IsSound s → IsSound (call c s)
  unfolding call clear
  call-IsSound (add_item x now purge_now) s g v = add-IsSound x now purge_now s v
  call-IsSound (discard_item x) s g v = record {
    covers = discard-Covers dec item_lt x s v.covers;
    sorted = discard-IsSorted dec item_lt x s v.sorted;
    within = λ pos.
        omega (arith, v.within, discard-limits dec item_lt x s, discard-length-le dec item_lt x s);
  }
  call-IsSound (purge_at now) s g v = purge-IsSound now s v.covers v.sorted
  call-IsSound pop_oldest s g v = record {
    covers = pop-Covers dec s v.covers;
    sorted = pop-IsSorted dec s v.sorted;
    within = λ pos. omega (arith, v.within, pop-limits dec s, pop-length-le dec s);
  }
  call-IsSound clear_all s g v = record {
    covers = Covers-nil dec;
    sorted = tt;
    within = λ pos. omega arith;
  }
  call-IsSound (update_from_items l) s g v = update_items-IsSound l s v
  call-IsSound (update_from_dict clock d) s g v = update_dict-IsSound clock d s v
  call-IsSound (update_from_set other now) s g v = update_set-IsSound other now s g v

  run-IsSound :
      (cs : List (Call A)) (s : LimitedSet A) → AreGiven cs → IsSound s → IsSound (run cs s)
  unfolding run
  run-IsSound [] s g v = v
  run-IsSound (c ∷ cs) s g v = run-IsSound cs (call c s) g.1 (call-IsSound c s g.0 v)

  empty-IsSound :
      (maxlen expires minlen : ℕ)
      → IsSound (record {
        maxlen = maxlen;
        minlen = minlen;
        expires = expires;
        items = [];
        heap = [];
        next_seq = 0;
      })
  empty-IsSound maxlen expires minlen = record {
    covers = Covers-nil dec;
    sorted = tt;
    within = λ pos. omega arith;
  }

  pub init_from-IsSound :
      (clock : A → ℕ) (maxlen expires minlen : ℕ) (given : Dict A Stamp) {s : LimitedSet A}
      → init_from dec item_lt clock maxlen expires minlen given ≡ some s
      → IsSound s
  unfolding init_from
  init_from-IsSound clock maxlen expires minlen given {s} p =
      let filled = update_dict dec item_lt clock given (record {
        maxlen = maxlen;
        minlen = minlen;
        expires = expires;
        items = [];
        heap = [];
        next_seq = 0;
      }) in
      let same : filled.0 ≡ s = ground arith in
      subst IsSound same (update_dict-IsSound clock given _ (empty-IsSound maxlen expires minlen))

  -- On a set that the constructor returns, with no data or with a dictionary of times, after any
  -- calls of `add`, `discard`, `purge`, `pop`, `clear` and `update` (with items, with a dictionary of
  -- times, also one that it fails on halfway, or with another set, each item of which is that of its
  -- entry): the heap is sorted and covers the items, and there are never more than `maxlen` items
  -- where `maxlen` is set.
  pub run-init-IsSound :
      (clock : A → ℕ) (maxlen expires minlen : ℕ) (given : Dict A Stamp) (cs : List (Call A))
      {s : LimitedSet A}
      → init_from dec item_lt clock maxlen expires minlen given ≡ some s
      → AreGiven cs
      → IsSound (run cs s)
  run-init-IsSound clock maxlen expires minlen given cs {s} p g =
      run-IsSound cs s g (init_from-IsSound clock maxlen expires minlen given p)
