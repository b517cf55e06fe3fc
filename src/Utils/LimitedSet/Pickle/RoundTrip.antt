-- ===== src/Utils/LimitedSet/Pickle/RoundTrip.antt =====
-- A `LimitedSet` that is reduced and built again (celery/utils/collections.py).
use celery.Prelude.{
  ℕ, zero, suc, ◌+◌, ◌≡◌, ◌<◌, ◌≤◌, refl, ap, ◌∙◌, Bool, true, false, ◌⊎◌, inl, inr, some, List, [],
  ◌∷◌, ◌++◌, length, length-append, arith,
}
use celery.Prelude.Dict
use celery.Prelude.Dict.{Dict}
use celery.Utils.LimitedSet.{Entry, LimitedSet, values, contains, insert, add, purge, shrink}
use celery.Utils.LimitedSet.Bounds.{SameLimits, insert-limits}
use celery.Utils.LimitedSet.Calls.{IsSound, init_from-IsSound}
use celery.Utils.LimitedSet.Pickle.Times.{time_of, or, AreOwn, or_none, moved, get-as_dict}
use celery.Utils.LimitedSet.Pickle.{
  unwrapped, seconds, collect, as_dict, reduce, update_dict, init_from, stamped, rebuild,
}

module _ {A : Type 0} (dec : Discrete A) where
  collect-append :
      (es fs : List (Entry A)) (d : Dict A ℕ)
      → collect dec (es ++ fs) d ≡ collect dec fs (collect dec es d)
  unfolding collect
  collect-append [] fs d = refl
  collect-append (e ∷ es) fs d = collect-append es fs (Dict.put dec e.item e.inserted d)

  collect-AreDistinct :
      (es : List (Entry A)) (d : Dict A ℕ)
      → Dict.AreDistinct dec d
      → Dict.AreDistinct dec (collect dec es d)
  unfolding collect
  collect-AreDistinct [] d a = a
  collect-AreDistinct (e ∷ es) d a =
      collect-AreDistinct es (Dict.put dec e.item e.inserted d)
        (Dict.put-AreDistinct dec e.item e.inserted d a)

  length-collect :
      (es : List (Entry A)) (d : Dict A ℕ) → length (collect dec es d) ≤ length es + length d
  unfolding collect
  length-collect [] d = omega arith
  length-collect (e ∷ es) d = omega (
    arith,
    length-collect es (Dict.put dec e.item e.inserted d),
    Dict.length-put-le dec e.item e.inserted d,
  )

  values-append : (d e : Dict A (Entry A)) → values (d ++ e) ≡ values d ++ values e
  values-append [] e = refl
  values-append ((k, v) ∷ d) e = ap {B = List (Entry A)} (λ r. v ∷ r) (values-append d e)

  length-values : (d : Dict A (Entry A)) → length (values d) ≡ length d
  length-values [] = refl
  length-values ((k, v) ∷ d) = omega (arith, length-values d)

  -- the set can take `n` items more without a purge that drops any
  abbrev pub HasRoom : ℕ → LimitedSet A → Type 0
  HasRoom n s =
      (s.maxlen ≡ 0)
      ⊎ ((length s.items + n < s.maxlen) ⊎ ((s.expires ≡ 0) × (length s.items + n ≤ s.maxlen)))

  shrink-within : (n : ℕ) (s : LimitedSet A) → length s.items ≤ s.maxlen → shrink dec n s ≡ s
  unfolding shrink
  shrink-within zero s h = refl
  shrink-within (suc n) s h = ground arith

  purge-within :
      (now : ℕ) (s : LimitedSet A) → s.expires ≡ 0 → length s.items ≤ s.maxlen → purge dec now s ≡ s
  unfolding purge
  purge-within now s e h = ground (arith, shrink-within (length s.items) s h)

  SameLimits-trans :
      (s t u : LimitedSet A) → SameLimits dec s t → SameLimits dec t u → SameLimits dec s u
  SameLimits-trans s t u p q = record {
    maxlen = q.maxlen ∙ p.maxlen;
    minlen = q.minlen ∙ p.minlen;
    expires = q.expires ∙ p.expires;
  }

  module _ (item_lt : A → A → Bool) (clock : A → ℕ) where
    insert-put :
        (x : A) (now : ℕ) (s : LimitedSet A)
        → Dict.has dec x s.items ≡ false
        → (insert dec item_lt x now s).items
          ≡ Dict.put dec x (record { inserted = now; seq = s.next_seq; item = x }) s.items
    unfolding insert contains
    insert-put x now s h = ground arith

    insert-items :
        (x : A) (now : ℕ) (s : LimitedSet A)
        → Dict.has dec x s.items ≡ false
        → (insert dec item_lt x now s).items
          ≡ s.items ++ (x, record { inserted = now; seq = s.next_seq; item = x }) ∷ []
    insert-items x now s h =
        insert-put x now s h
        ∙ Dict.put_fresh dec x (record { inserted = now; seq = s.next_seq; item = x }) s.items h

    insert-length :
        (x : A) (now : ℕ) (s : LimitedSet A)
        → Dict.has dec x s.items ≡ false
        → length (insert dec item_lt x now s).items ≡ suc (length s.items)
    insert-length x now s h =
        let e : Entry A = record { inserted = now; seq = s.next_seq; item = x } in
        rw (insert-items x now s h) (omega (arith, length-append s.items ((x, e) ∷ [])))

    add-room :
        (n now purge_now : ℕ) (x : A) (s : LimitedSet A)
        → Dict.has dec x s.items ≡ false
        → HasRoom (suc n) s
        → add dec item_lt x now purge_now s ≡ insert dec item_lt x now s
    unfolding add
    add-room n now purge_now x s h r =
        let limits = insert-limits dec item_lt x now s in
        let len = insert-length x now s h in
        let m = limits.maxlen in
        elim r [
          | inl z ↦ rw (m, z) refl
          | inr (inl less) ↦ ground (arith, m, len, less)
          | inr (inr (z, le)) ↦ ground (
            arith,
            m,
            len,
            purge-within purge_now (insert dec item_lt x now s) (limits.expires ∙ z)
                (omega (arith, len, m, le)),
          )
        ]

    room-next :
        (n now : ℕ) (x : A) (s : LimitedSet A)
        → Dict.has dec x s.items ≡ false
        → HasRoom (suc n) s
        → HasRoom n (insert dec item_lt x now s)
    room-next n now x s h r =
        let limits = insert-limits dec item_lt x now s in
        let len = insert-length x now s h in
        let m = limits.maxlen in
        elim r [
          | inl z ↦ inl (m ∙ z)
          | inr (inl less) ↦ inr (inl (omega (arith, len, m, less)))
          | inr (inr (z, le)) ↦ inr (inr (limits.expires ∙ z, omega (arith, len, m, le)))
        ]

    -- adding the items of a dictionary to a set that has none of them
    update_dict-fresh :
        (d : Dict A ℕ) (s : LimitedSet A)
        → Dict.AreDistinct dec d
        → ((x : A) → Dict.has dec x d ≡ true → Dict.has dec x s.items ≡ false)
        → HasRoom (length d) s
        → (t : LimitedSet A) × (update_dict dec item_lt clock (stamped dec d) s ≡ (t, false))
          × ((x : A) → time_of dec x t.items ≡ or dec (Dict.get dec x d) (time_of dec x s.items))
          × SameLimits dec s t
    unfolding update_dict Dict.get seconds unwrapped
    update_dict-fresh [] s a h r =
        (s, refl, λ x. refl, record { maxlen = refl; minlen = refl; expires = refl })
    update_dict-fresh ((x, now) ∷ d) s a h r =
        let free = h x (Dict.has-cons_self dec x x now d refl) in
        let u = insert dec item_lt x now s in
        let e : Entry A = record { inserted = now; seq = s.next_seq; item = x } in
        let next =
          update_dict-fresh d u a.1
            (λ y m.
              ap (λ i. Dict.has dec y i) (insert-put x now s free)
              ∙ Dict.put_apart dec x now e s.items d a.0 h y m)
            (room-next (length d) now x s free r) in
        let (t, eq, grown, limits) = next in
        (
          t,
          ap (update_dict dec item_lt clock (stamped dec d))
                (add-room (length d) now (clock x) x s free r)
              ∙ eq,
          λ y.
              (grown y
                ∙ ap (λ i. or dec (Dict.get dec y d) (time_of dec y i)) (insert-put x now s free)
                ∙ moved dec y x e d s.items a.0),
          SameLimits-trans s u t (insert-limits dec item_lt x now s) limits,
        )

module _ {A : Type 0} (dec : Discrete A) where
  has-nil : (V : Type 0) (x : A) → Dict.has {V = V} dec x [] ≡ false
  unfolding Dict.has Dict.get
  has-nil V x = refl

  as_dict-AreDistinct : (s : LimitedSet A) → Dict.AreDistinct dec (as_dict dec s)
  unfolding as_dict
  as_dict-AreDistinct s = collect-AreDistinct dec (values s.items) [] tt

  length-as_dict : (s : LimitedSet A) → length (as_dict dec s) ≤ length s.items
  unfolding as_dict
  length-as_dict s =
      omega (arith, length-collect dec (values s.items) [], length-values dec s.items)

  room-empty :
      (s : LimitedSet A)
      → HasRoom dec 0 s
      → HasRoom dec (length (as_dict dec s)) (record s { items = []; heap = []; next_seq = 0 })
  room-empty s r = elim r [
    | inl z ↦ inl z
    | inr (inl less) ↦ inr (inl (omega (arith, less, length-as_dict s)))
    | inr (inr (z, le)) ↦ inr (inr (z, omega (arith, le, length-as_dict s)))
  ]

-- A set that is pickled and built again has the same limits and the same items, each inserted at the
-- same time, and is sound: its heap is sorted and covers the items. The set holds each item once, as
-- that of its entry; it is within its length, `minlen` is at most `maxlen`, and no time based expiring
-- strikes: there is none, or no length limit, or the set is not full. The clock may read anything.
pub rebuild-reduce :
    {A : Type 0} (dec : Discrete A) (item_lt : A → A → Bool) (clock : A → ℕ) (s : LimitedSet A)
    → AreOwn dec s.items
    → s.minlen ≤ s.maxlen
    → HasRoom dec 0 s
    → (t : LimitedSet A) × (rebuild dec item_lt clock (reduce dec s) ≡ some t)
      × ((x : A) → time_of dec x t.items ≡ time_of dec x s.items)
      × SameLimits dec s t
      × IsSound dec item_lt t
unfolding rebuild reduce init_from Dict.get
rebuild-reduce {A = A} dec item_lt clock s own ok room =
    let empty : LimitedSet A = record {
      maxlen = s.maxlen;
      minlen = s.minlen;
      expires = s.expires;
      items = [];
      heap = [];
      next_seq = 0;
    } in
    let d = as_dict dec s in
    let distinct = as_dict-AreDistinct dec s in
    let (t, eq, grown, limits) =
      update_dict-fresh dec item_lt clock d empty distinct (λ x m. has-nil dec _ x)
        (room-empty dec s room) in
    let built : rebuild dec item_lt clock (reduce dec s) ≡ some t =
      ground (arith, ap (λ p. p.0) eq, ap (λ p. p.1) eq) in
    (
      t,
      built,
      λ x. (grown x ∙ or_none dec (Dict.get dec x d) ∙ get-as_dict dec x s own),
      record { maxlen = limits.maxlen; minlen = limits.minlen; expires = limits.expires },
      init_from-IsSound dec item_lt clock s.maxlen s.expires s.minlen (stamped dec d) built,
    )
