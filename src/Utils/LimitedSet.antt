-- ===== src/Utils/LimitedSet.antt =====
-- celery/utils/collections.py, class `LimitedSet`. Times are ticks of `time.monotonic`; a method
-- takes the clock values that it reads. `heapq` is kept as the sorted list of its entries: the
-- code reads no more of a heap than its least entry and its length.
pub mod Heap
pub mod Covers
pub mod Bounds
pub mod Order
pub mod Expiry
pub mod Calls
pub mod Pop
pub mod Pickle
use mathlib.Core.Logic.{ite}
use celery.Prelude.{
  ℕ, zero, suc, ◌+◌, ◌*◌, ◌≡◌, Bool, true, false, ◌&&◌, ◌||◌, Option, none, some, List, [], ◌∷◌,
  map, length, ltb, leb, eqb, if◌then◌else◌, max,
}
use celery.Prelude.Dict
use celery.Prelude.Dict.{Dict, is_some}

-- `(inserted, sequence number, item)`
pub record Entry {ℓ} (A : Type ℓ) : Type ℓ where
  pub inserted : ℕ
  pub seq : ℕ
  pub item : A

pub record LimitedSet {ℓ} (A : Type ℓ) : Type ℓ where
  pub maxlen : ℕ
  pub minlen : ℕ
  pub expires : ℕ
  pub items : Dict A (Entry A)
  pub heap : List (Entry A)
  pub next_seq : ℕ

-- `max_heap_percent_overload`
abbrev pub max_heap_percent_overload : ℕ
max_heap_percent_overload = 15

module _ {ℓ} {A : Type ℓ} where
  -- the order of the tuples of two entries, the items compared last by `item_lt`
  unfoldable pub entry_lt : (A → A → Bool) → Entry A → Entry A → Bool
  entry_lt item_lt a b =
      if ltb a.inserted b.inserted
      then true
      else if ltb b.inserted a.inserted
      then false
      else if ltb a.seq b.seq
      then true
      else if ltb b.seq a.seq
      then false
      else item_lt a.item b.item

  -- `heappush`
  unfoldable pub heappush : (A → A → Bool) → Entry A → List (Entry A) → List (Entry A)
  unfolding entry_lt
  heappush item_lt e [] = e ∷ []
  heappush item_lt e (f ∷ h) =
      let rest = heappush item_lt e h in if entry_lt item_lt f e then f ∷ rest else e ∷ f ∷ h

  -- `heapify`
  unfoldable pub heapify : (A → A → Bool) → List (Entry A) → List (Entry A)
  unfolding heappush
  heapify item_lt [] = []
  heapify item_lt (e ∷ es) = heappush item_lt e (heapify item_lt es)

  -- `self._data.values()`
  abbrev pub values : Dict A (Entry A) → List (Entry A)
  values = map (λ p. p.1)

  -- `len(self._heap) * 100 / max(len(self._data), 1) - 100 >= 15`, multiplied out
  unfoldable pub overloaded : LimitedSet A → Bool
  overloaded s =
      leb ((100 + max_heap_percent_overload) * max (length s.items) 1) (length s.heap * 100)

  unfoldable pub clear : LimitedSet A → LimitedSet A
  clear s = record s { items = []; heap = [] }

module _ {ℓ} {A : Type ℓ} (dec : Discrete A) where
  unfoldable pub contains : A → LimitedSet A → Bool
  contains item s = Dict.has dec item s.items

  -- the loop of `pop`
  unfoldable pub pop_from : List (Entry A) → LimitedSet A → LimitedSet A × Option A
  pop_from [] s = (record s { heap = [] }, none)
  pop_from (e ∷ h) s =
      let rest = pop_from h s in
      if Dict.has dec e.item s.items
      then (record s { items = Dict.remove dec e.item s.items; heap = h }, some e.item)
      else rest

  unfoldable pub pop : LimitedSet A → LimitedSet A × Option A
  unfolding pop_from
  pop s = pop_from s.heap s

  -- `while len(self._data) > self.maxlen: self.pop()`, the fuel at least the size
  unfoldable pub shrink : ℕ → LimitedSet A → LimitedSet A
  unfolding pop
  shrink zero s = s
  shrink (suc n) s =
      let rest = shrink n (pop s).0 in if ltb s.maxlen (length s.items) then rest else s

  -- `self._heap[0][0] + self.expires > now`; an empty heap does not arise (`Covers`)
  unfoldable pub fresh_head : ℕ → LimitedSet A → List (Entry A) → Bool
  fresh_head now s [] = true
  fresh_head now s (e ∷ h) = ltb now (e.inserted + s.expires)

  -- the loop of the time based expiring, the fuel at least the size
  unfoldable pub expire : ℕ → ℕ → LimitedSet A → LimitedSet A
  unfolding pop fresh_head
  expire zero now s = s
  expire (suc n) now s =
      let rest = expire n now (pop s).0 in
      if ltb s.minlen (length s.items) then (if fresh_head now s s.heap then s else rest) else s

  unfoldable pub purge : ℕ → LimitedSet A → LimitedSet A
  unfolding shrink expire
  purge now s =
      let t = if eqb s.maxlen 0 then s else shrink (length s.items) s in
      if eqb t.expires 0 then t else expire (length t.items) now t

  module _ (item_lt : A → A → Bool) where
    unfoldable pub refresh_heap : LimitedSet A → LimitedSet A
    unfolding heapify
    refresh_heap s = record s { heap = heapify item_lt (values s.items) }

    unfoldable pub maybe_refresh_heap : LimitedSet A → LimitedSet A
    unfolding refresh_heap overloaded
    maybe_refresh_heap s = if overloaded s then refresh_heap s else s

    unfoldable pub discard : A → LimitedSet A → LimitedSet A
    unfolding maybe_refresh_heap
    discard item s = maybe_refresh_heap (record s { items = Dict.remove dec item s.items })

    -- the part of `add` before the length test
    unfoldable pub insert : A → ℕ → LimitedSet A → LimitedSet A
    unfolding contains discard heappush
    insert item now s =
        let t = if contains item s then discard item s else s in
        let e : Entry A = record { inserted = now; seq = t.next_seq; item = item } in
        record t {
          items = Dict.put dec item e t.items;
          heap = heappush item_lt e t.heap;
          next_seq = t.next_seq + 1;
        }

    -- `purge_now` is the clock value that the call of `purge` reads
    unfoldable pub add : A → ℕ → ℕ → LimitedSet A → LimitedSet A
    unfolding insert purge
    add item now purge_now s =
        let t = insert item now s in
        if eqb t.maxlen 0 then t else if leb t.maxlen (length t.items) then purge purge_now t else t

    -- `update` on an iterable: the items with the clock values that each `add` reads
    unfoldable pub update_items : List (A × ℕ × ℕ) → LimitedSet A → LimitedSet A
    unfolding add
    update_items [] s = s
    update_items ((item, now, purge_now) ∷ rest) s = update_items rest (add item now purge_now s)

    -- `update` on another `LimitedSet`
    unfoldable pub update_set : LimitedSet A → ℕ → LimitedSet A → LimitedSet A
    unfolding refresh_heap purge
    update_set other now s =
        if eqb (length other.items) 0
        then s
        else purge now (refresh_heap (record s { items = Dict.update dec s.items other.items }))

    -- `__init__` with no data; `none` is the `ValueError` (the arguments are not negative here)
    unfoldable pub init : ℕ → ℕ → ℕ → Option (LimitedSet A)
    init maxlen expires minlen =
        if leb minlen maxlen
        then some (record {
          maxlen = maxlen;
          minlen = minlen;
          expires = expires;
          items = [];
          heap = [];
          next_seq = 0;
        })
        else none
