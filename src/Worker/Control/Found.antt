-- ===== src/Worker/Control/Found.antt =====
-- The requests that `_find_requests_by_id` finds (celery/worker/control.py).
use mathlib.Core.Logic.{if_pos, if_neg}
use celery.Prelude.{
  ◌≡◌, ◌≤◌, refl, sym, ap, ◌∙◌, String, ◌==◌, eq_iff, string_discrete, Bool-cases, Option-cases,
  true, false, false≢true, inl, inr, none, some, List, [], ◌∷◌, map, length, arith, if◌then◌else◌,
}
use celery.Prelude.Dict
use celery.Prelude.Dict.{Dict}
use celery.States.{is_in}
use celery.Worker.State.{Handle}
use celery.Worker.Control.{index_by_id, find_requests_by_id}

-- no id stands twice
abbrev pub AreDistinct : List String → Type 0
AreDistinct [] = Unit
AreDistinct (id ∷ ids) = (is_in id ids ≡ false) × AreDistinct ids

-- each request of the registry stands under its own id
abbrev pub IsKeyed : Dict String Handle → Type 0
IsKeyed requests =
    (id : String) (r : Handle) → Dict.get string_discrete id requests ≡ some r → r.id ≡ id

abbrev pub ids_of : List Handle → List String
ids_of = map (λ (r : Handle). r.id)

found-is_in :
    (ids : List String) (requests : Dict String Handle) (x : String)
    → IsKeyed requests
    → is_in x ids ≡ false
    → is_in x (ids_of (find_requests_by_id ids requests)) ≡ false
unfolding find_requests_by_id
found-is_in [] requests x keyed h = refl
found-is_in (id ∷ ids) requests x keyed h =
    elim (Option-cases (Dict.get string_discrete id requests)) [
      | inl e ↦ rw (e, find_requests_by_id) (found-is_in ids requests x keyed (ground arith))
      | inr (r, e) ↦
          rw (e, find_requests_by_id)
            (ground (arith, found-is_in ids requests x keyed, ap (λ i. i == x) (keyed id r e)))
    ]

pub found-AreDistinct :
    (ids : List String) (requests : Dict String Handle)
    → IsKeyed requests
    → AreDistinct ids
    → AreDistinct (ids_of (find_requests_by_id ids requests))
unfolding find_requests_by_id
found-AreDistinct [] requests keyed d = tt
found-AreDistinct (id ∷ ids) requests keyed d =
    elim (Option-cases (Dict.get string_discrete id requests)) [
      | inl e ↦ rw (e, find_requests_by_id) (found-AreDistinct ids requests keyed d.1)
      | inr (r, e) ↦
          rw (e, find_requests_by_id)
            (
              found-is_in ids requests r.id keyed (ap (λ i. is_in i ids) (keyed id r e) ∙ d.0),
              found-AreDistinct ids requests keyed d.1,
            )
    ]

pub length-found :
    (ids : List String) (requests : Dict String Handle)
    → length (find_requests_by_id ids requests) ≤ length ids
unfolding find_requests_by_id
length-found [] requests = omega arith
length-found (id ∷ ids) requests = ground (arith, length-found ids requests)

find-none :
    (id : String) (ids : List String) (requests : Dict String Handle)
    → Dict.get string_discrete id requests ≡ none
    → find_requests_by_id (id ∷ ids) requests ≡ find_requests_by_id ids requests
unfolding find_requests_by_id
find-none id ids requests e = rw (e, find_requests_by_id) refl

find-some :
    (id : String) (ids : List String) (requests : Dict String Handle) {r : Handle}
    → Dict.get string_discrete id requests ≡ some r
    → find_requests_by_id (id ∷ ids) requests ≡ r ∷ find_requests_by_id ids requests
unfolding find_requests_by_id
find-some id ids requests e = rw (e, find_requests_by_id) refl

get-index :
    (ids : List String) (requests : Dict String Handle) (d : Dict String Handle) (x : String)
    → IsKeyed requests
    → Dict.get string_discrete x (index_by_id (find_requests_by_id ids requests) d) ≡ (
        if is_in x ids
        then elim (Dict.get string_discrete x requests) [
          | none ↦ Dict.get string_discrete x d
          | some r ↦ some r
        ]
        else Dict.get string_discrete x d)
unfolding index_by_id find_requests_by_id
get-index [] requests d x keyed = refl
get-index (id ∷ ids) requests d x keyed =
    elim (Option-cases (Dict.get string_discrete id requests)) [
      | inl e ↦ elim (Bool-cases (id == x)) [
        | inl q ↦
            let same : Dict.get string_discrete x requests ≡ none =
              ap (λ j. Dict.get string_discrete j requests) (sym ((eq_iff id x).0 q)) ∙ e in
            rw (find-none id ids requests e, q) (ground (arith, get-index ids requests d x keyed))
        | inr n ↦ rw (find-none id ids requests e, n) (get-index ids requests d x keyed)
      ]
      | inr (r, e) ↦
          let more = Dict.put string_discrete r.id r d in
          let put = Dict.get-put string_discrete r.id x r d in
          let rest = get-index ids requests more x keyed in
          elim (Bool-cases (id == x)) [
            | inl q ↦
                let at_id : Path String id x = (eq_iff id x).0 q in
                let found : Dict.get string_discrete x requests ≡ some r =
                  ap (λ j. Dict.get string_discrete j requests) (sym at_id) ∙ e in
                let here : Dict.get string_discrete x more ≡ some r =
                  put ∙ if_pos (string_discrete r.id x) (keyed id r e ∙ at_id) _ _ in
                rw (find-some id ids requests e, q) (ground (arith, rest, here, found))
            | inr n ↦
                let apart : ¬ Path String r.id x =
                  λ p. false≢true (sym n ∙ (eq_iff id x).1 (sym (keyed id r e) ∙ p)) in
                let there : Dict.get string_discrete x more ≡ Dict.get string_discrete x d =
                  put ∙ if_neg (string_discrete r.id x) apart _ _ in
                rw (find-some id ids requests e, n) (ground (arith, rest, there))
          ]
    ]

pub index_known :
    (ids : List String) (requests : Dict String Handle) (x : String)
    → IsKeyed requests
    → is_in x ids ≡ true
    → Dict.get string_discrete x (index_by_id (find_requests_by_id ids requests) [])
      ≡ Dict.get string_discrete x requests
unfolding Dict.get
index_known ids requests x keyed h = ground (arith, get-index ids requests [] x keyed)
