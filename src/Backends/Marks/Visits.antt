-- ===== src/Backends/Marks/Visits.antt =====
-- The elements of a chain that a failure is passed on to (celery/backends/base.py, `mark_as_failure`).
use celery.Prelude.{
  none, true, false, if◌then◌else◌, ℕ, zero, suc, ◌+◌, String, ◌≡◌, ◌<◌, refl, ap, ◌∙◌, Bool, ◌&&◌,
  ◌||◌, ◌==◌, Option, some, List, [], ◌∷◌, ◌++◌, arith,
}
use celery.Backends.Marks.{
  Element, Link, plain, chord, MarkedRequest, Mark, stored, part_returned, element_stored,
  element_returned, errbacks_called, mark_if, element, with_body, visit, walk, link_size,
  chain_size, mark_request, finish_failure, mark_as_failure,
}

-- the sum of a weight over elements
abbrev pub total : (Element → ℕ) → List Element → ℕ
total f [] = 0
total f (e ∷ l) = f e + total f l

-- over the elements of a link, the bodies included
abbrev pub link_total : (Element → ℕ) → Link → ℕ
link_total f (plain e) = f e
link_total f (chord e body) = f e + link_total f body

abbrev pub chain_total : (Element → ℕ) → List Link → ℕ
chain_total f [] = 0
chain_total f (l ∷ queue) = link_total f l + chain_total f queue

-- the elements have, under each weight, the sum of those of the chain: they are the same, as often
abbrev pub AreOf : List Element → List Link → Type 0
AreOf l queue = (f : Element → ℕ) → total f l ≡ chain_total f queue

-- What an element gets: the failure as its result, where results are stored, the state is one that is
-- passed on (FAILURE or REVOKED), and it has an id; and a call for the chord that it is a part of.
abbrev pub passed_to : Bool → String → Element → List Mark
passed_to store_result state e =
    let passed_on = ("FAILURE" == state) || ("REVOKED" == state) in
    (elim e.id [
      | none ↦ []
      | some id ↦ if store_result && passed_on then element_stored id state ∷ [] else []
    ])
    ++ (if e.in_chord then element_returned e state ∷ [] else [])

visit-passed_to :
    (store_result : Bool) (state : String) (e : Element)
    → visit store_result state e ≡ passed_to store_result state e
unfolding visit mark_if
visit-passed_to true state e = ground arith
visit-passed_to false state e = ground arith

-- what elements get, one after the other
abbrev pub visits : Bool → String → List Element → List Mark
visits store_result state [] = []
visits store_result state (e ∷ l) = passed_to store_result state e ++ visits store_result state l

chain_size-append : (q r : List Link) → chain_size (q ++ r) ≡ chain_size q + chain_size r
unfolding chain_size
chain_size-append [] r = omega arith
chain_size-append (l ∷ q) r = let rest = chain_size-append q r in omega arith

chain_total-append :
    (f : Element → ℕ) (q r : List Link) → chain_total f (q ++ r) ≡ chain_total f q + chain_total f r
chain_total-append f [] r = omega arith
chain_total-append f (l ∷ q) r = let rest = chain_total-append f q r in omega arith

-- a round takes one element off
with_body-size : (l : Link) (q : List Link) → suc (chain_size (with_body l q)) ≡ chain_size (l ∷ q)
unfolding with_body chain_size link_size
with_body-size (plain e) q = omega arith
with_body-size (chord e body) q = let rest = chain_size-append q (body ∷ []) in omega arith

with_body-total :
    (f : Element → ℕ) (l : Link) (q : List Link)
    → f (element l) + chain_total f (with_body l q) ≡ chain_total f (l ∷ q)
unfolding with_body element
with_body-total f (plain e) q = refl
with_body-total f (chord e body) q = let rest = chain_total-append f q (body ∷ []) in omega arith

walk_lem :
    (store_result : Bool) (state : String) (fuel : ℕ) (q : List Link)
    → chain_size q < fuel
    → (l : List Element) × AreOf l q
      × (walk store_result state fuel q ≡ some (visits store_result state l))
unfolding walk
walk_lem store_result state zero q h = absurd (omega arith)
walk_lem store_result state (suc fuel) [] h = ([], λ f. refl, refl)
walk_lem store_result state (suc fuel) (x ∷ q) h =
    let smaller = with_body-size x q in
    let (l, are, e) = walk_lem store_result state fuel (with_body x q) (omega arith) in
    (
      element x ∷ l,
      λ f. (ap (λ n. f (element x) + n) (are f) ∙ with_body-total f x q),
      rw (e, walk)
          (ap (λ m. some (m ++ visits store_result state l))
            (visit-passed_to store_result state (element x))),
    )

-- A failure of a task that has a request is stored where results are to be stored, and passed on to the
-- chord that the task is a part of; then each element of its chain is come to exactly once, the bodies
-- of chords that are steps of the chain included, however deep, and gets the failure stored as its
-- result (`passed_to`: where results are to be stored, the state is FAILURE or REVOKED and it has an
-- id) and passed on to the chord that it is a part of; and last come the errbacks, where they are asked
-- for and there are any. The loop over the chain ends.
pub mark_as_failure_lem :
    (task_id : Option String) (r : MarkedRequest) (store_result call_errbacks : Bool)
    (state : String)
    → (l : List Element) × AreOf l r.chain
      × (mark_as_failure task_id (some r) store_result call_errbacks state
          ≡ some (
              mark_if store_result (stored task_id state)
              ++ (mark_if r.has_chord (part_returned state)
                  ++ (visits store_result state l
                      ++ mark_if (call_errbacks && r.has_errbacks) errbacks_called))))
unfolding mark_as_failure mark_request finish_failure
mark_as_failure_lem task_id r store_result call_errbacks state =
    let (l, are, e) =
      walk_lem store_result state (suc (chain_size r.chain)) r.chain (omega arith) in
    (l, are, rw (e, mark_as_failure, mark_request) refl)
