-- ===== src/Tests/LimitedSets.antt =====
-- celery/utils/collections.py, `LimitedSet`, on small sets of numbers.
use celery.Prelude.{ℕ, ◌≡◌, refl, true, false, inr, some, List, [], ◌∷◌, arith, ltb, ℕ_discrete}
use celery.Prelude.Dict
use celery.Utils.LimitedSet.{
  Entry, LimitedSet, contains, pop, purge, add, discard, update_items, update_set, refresh_heap,
  heapify, init,
}
use celery.Utils.LimitedSet.Calls.{
  Call, add_item, update_from_set, update_from_dict, update_from_items, call, run, IsSound,
  run-init-IsSound,
}
use celery.Utils.LimitedSet.Expiry.{purge_drops_refreshed}
use celery.Utils.LimitedSet.Bounds.{SameLimits}
use celery.Utils.LimitedSet.Pickle.{
  Stamp, float, first_of, other, as_dict, collect, reduce, rebuild, unwrapped, seconds, update_dict,
  init_from,
}
use celery.Utils.LimitedSet.Pickle.Times.{time_of}
use celery.Utils.LimitedSet.Pickle.RoundTrip.{rebuild-reduce}
use celery.Utils.LimitedSet.Pop.{Takes, pop-Takes}

program : Unit {0}
unfolding run call init contains update_items update_set refresh_heap heapify Dict.update pop purge
    add discard ℕ_discrete Dict.get Dict.put Dict.remove Dict.has as_dict collect reduce rebuild
    unwrapped seconds update_dict init_from
program = tt

abbrev empty : ℕ → ℕ → LimitedSet ℕ
empty maxlen expires = record {
  maxlen = maxlen;
  minlen = 0;
  expires = expires;
  items = [];
  heap = [];
  next_seq = 0;
}

abbrev entry : ℕ → ℕ → ℕ → Entry ℕ
entry t n x = record { inserted = t; seq = n; item = x }

-- three items in a set of two: the oldest goes
abbrev three_adds : List (Call ℕ)
three_adds = add_item 7 1 1 ∷ add_item 8 2 2 ∷ add_item 9 3 3 ∷ []

abbrev two_items : LimitedSet ℕ
two_items = record (empty 2 100) {
  items = (8, entry 2 1 8) ∷ (9, entry 3 2 9) ∷ [];
  heap = entry 2 1 8 ∷ entry 3 2 9 ∷ [];
  next_seq = 3;
}

three_adds-run : run ℕ_discrete ltb three_adds (empty 2 100) ≡ two_items
unfolding program
three_adds-run = refl

-- built from a dictionary, then filled from another set and with items
abbrev updates : List (Call ℕ)
updates =
    update_from_set two_items 50
    ∷ update_from_dict (λ x. 55) ((4, first_of (float 54)) ∷ (5, other) ∷ [])
    ∷ update_from_items ((6, 60, 60) ∷ [])
    ∷ []

updates-run :
    (run ℕ_discrete ltb updates (record (empty 2 100) {
      items = (3, entry 40 0 3) ∷ [];
      heap = entry 40 0 3 ∷ [];
      next_seq = 1;
    })).items
    ≡ (4, entry 54 1 4) ∷ (6, entry 60 2 6) ∷ []
unfolding program
updates-run = refl

run-init-IsSound_example : IsSound ℕ_discrete ltb (
    run ℕ_discrete ltb updates (record (empty 2 100) {
      items = (3, entry 40 0 3) ∷ [];
      heap = entry 40 0 3 ∷ [];
      next_seq = 1;
    }))
unfolding program
run-init-IsSound_example =
    run-init-IsSound ℕ_discrete ltb (λ x. 41) 2 100 0 ((3, float 40) ∷ []) updates refl
      ((refl, (refl, tt)), (tt, (tt, tt)))

two_items-IsSound : IsSound ℕ_discrete ltb two_items
unfolding program
two_items-IsSound =
    run-init-IsSound ℕ_discrete ltb (λ x. 0) 2 100 0 [] three_adds refl (tt, (tt, (tt, tt)))

-- an item that is up is purged, and the other is kept
purge-two_items : (purge ℕ_discrete 102 two_items).items ≡ (9, entry 3 2 9) ∷ []
unfolding program
purge-two_items = refl

pop-Takes_example :
    (x : ℕ) × ((pop ℕ_discrete two_items).1 ≡ some x)
    × Takes ℕ_discrete two_items (pop ℕ_discrete two_items).0 x
pop-Takes_example = pop-Takes ℕ_discrete two_items two_items-IsSound.covers (omega arith)

-- ten items, the first of which is added again later
abbrev ten_adds : List (Call ℕ)
ten_adds =
    add_item 1 0 0
    ∷ add_item 2 1 1
    ∷ add_item 3 2 2
    ∷ add_item 4 3 3
    ∷ add_item 5 4 4
    ∷ add_item 6 5 5
    ∷ add_item 7 6 6
    ∷ add_item 8 7 7
    ∷ add_item 9 8 8
    ∷ add_item 10 9 9
    ∷ add_item 1 50 50
    ∷ []

abbrev readded : LimitedSet ℕ
readded = record (empty 0 100) {
  items =
      (2, entry 1 1 2)
      ∷ (3, entry 2 2 3)
      ∷ (4, entry 3 3 4)
      ∷ (5, entry 4 4 5)
      ∷ (6, entry 5 5 6)
      ∷ (7, entry 6 6 7)
      ∷ (8, entry 7 7 8)
      ∷ (9, entry 8 8 9)
      ∷ (10, entry 9 9 10)
      ∷ (1, entry 50 10 1)
      ∷ [];
  heap =
      entry 0 0 1
      ∷ entry 1 1 2
      ∷ entry 2 2 3
      ∷ entry 3 3 4
      ∷ entry 4 4 5
      ∷ entry 5 5 6
      ∷ entry 6 6 7
      ∷ entry 7 7 8
      ∷ entry 8 8 9
      ∷ entry 9 9 10
      ∷ entry 50 10 1
      ∷ [];
  next_seq = 11;
}

ten_adds-run : run ℕ_discrete ltb ten_adds (empty 0 100) ≡ readded
unfolding program
ten_adds-run = refl

purge_drops_refreshed_example : contains ℕ_discrete 1 (purge ℕ_discrete 100 readded) ≡ false
unfolding program
purge_drops_refreshed_example =
    purge_drops_refreshed ℕ_discrete 100 readded (entry 0 0 1) (entry 50 10 1)
      (entry 1 1 2
        ∷ entry 2 2 3
        ∷ entry 3 3 4
        ∷ entry 4 4 5
        ∷ entry 5 5 6
        ∷ entry 6 6 7
        ∷ entry 7 7 8
        ∷ entry 8 8 9
        ∷ entry 9 9 10
        ∷ entry 50 10 1
        ∷ [])
      refl refl refl (omega arith) (omega arith) (omega arith) (omega arith)

-- two items of a set that does not expire
abbrev lasting : LimitedSet ℕ
lasting = record two_items { expires = 0 }

lasting-as_dict : as_dict ℕ_discrete lasting ≡ (8, 2) ∷ (9, 3) ∷ []
unfolding program
lasting-as_dict = refl

abbrev bad_stamps : Dict.Dict ℕ Stamp
bad_stamps = (4, first_of (float 1)) ∷ (5, other) ∷ (6, float 2) ∷ []

-- the first value of a tuple is taken; anything but a float raises, what came before it stays
update_dict-raises :
    let (s, raised) = update_dict ℕ_discrete ltb (λ x. 0) bad_stamps (empty 0 0) in
    (as_dict ℕ_discrete s ≡ (4, 1) ∷ []) × (raised ≡ true)
unfolding program
update_dict-raises = (refl, refl)

rebuild-reduce_example :
    (t : LimitedSet ℕ) × (rebuild ℕ_discrete ltb (λ x. 70) (reduce ℕ_discrete lasting) ≡ some t)
    × ((x : ℕ) → time_of ℕ_discrete x t.items ≡ time_of ℕ_discrete x lasting.items)
    × SameLimits ℕ_discrete lasting t
    × IsSound ℕ_discrete ltb t
unfolding program
rebuild-reduce_example =
    rebuild-reduce ℕ_discrete ltb (λ x. 70) lasting (refl, refl, (refl, refl, tt)) (omega arith)
      (inr (inr (refl, omega arith)))
