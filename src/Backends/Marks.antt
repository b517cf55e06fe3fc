-- ===== src/Backends/Marks.antt =====
-- celery/backends/base.py: `mark_as_started`, `mark_as_done`, `mark_as_failure`, `mark_as_revoked` and
-- `mark_as_retry`. What they call is a trace, in which nothing raises.
pub mod Visits
use celery.Prelude.{
  ℕ, zero, suc, ◌+◌, String, ◌==◌, Bool, true, false, ◌&&◌, not, Option, none, some, List, [], ◌∷◌,
  ◌++◌, any, if◌then◌else◌,
}
use celery.States.{started, success, failure, revoked, retry, propagate_states}

-- what is read of an element of a chain: its own id, and whether it is a part of a chord
pub record Element : Type 0 where
  pub id : Option String
  pub in_chord : Bool

-- an element, or one that is a chord itself, with the chord's body
pub data Link : Type 0 where
  plain : Element → Link
  chord : Element → Link → Link

-- what is read of a request
pub record MarkedRequest : Type 0 where
  pub ignore_result : Bool
  pub has_chord : Bool
  pub chain : List Link
  pub has_errbacks : Bool

-- Of the task itself, or of an element of its chain: a result is stored, or `on_chord_part_return` is
-- called. Then the errbacks.
pub data Mark : Type 0 where
  stored : Option String → String → Mark
  part_returned : String → Mark
  element_stored : String → String → Mark
  element_returned : Element → String → Mark
  errbacks_called : Mark

unfoldable pub mark_if : Bool → Mark → List Mark
mark_if true m = m ∷ []
mark_if false m = []

-- `request and request.chord`
unfoldable pub in_a_chord : Option MarkedRequest → Bool
in_a_chord none = false
in_a_chord (some r) = r.has_chord

-- `_is_request_ignore_result`
unfoldable pub is_request_ignore_result : Option MarkedRequest → Bool
is_request_ignore_result none = false
is_request_ignore_result (some r) = r.ignore_result

unfoldable pub mark_as_started : Option String → List Mark
mark_as_started task_id = stored task_id started ∷ []

unfoldable pub mark_as_done : Option String → Option MarkedRequest → Bool → String → List Mark
unfolding mark_if in_a_chord is_request_ignore_result
mark_as_done task_id request store_result state =
    mark_if (store_result && not (is_request_ignore_result request)) (stored task_id state)
    ++ mark_if (in_a_chord request) (part_returned state)

unfoldable pub mark_as_revoked : Option String → Option MarkedRequest → Bool → String → List Mark
unfolding mark_if in_a_chord
mark_as_revoked task_id request store_result state =
    mark_if store_result (stored task_id state)
    ++ mark_if (in_a_chord request) (part_returned state)

-- Here `store_result` is not asked.
unfoldable pub mark_as_retry : Option String → String → List Mark
mark_as_retry task_id state = stored task_id state ∷ []

unfoldable pub element : Link → Element
element (plain e) = e
element (chord e body) = e

-- `chain_elems.append(chord_body)`
unfoldable pub with_body : Link → List Link → List Link
with_body (plain e) queue = queue
with_body (chord e body) queue = queue ++ (body ∷ [])

-- what is done for an element
unfoldable pub visit : Bool → String → Element → List Mark
unfolding mark_if
visit store_result state e =
    (elim e.id [
      | none ↦ []
      | some id ↦
          mark_if (store_result && any (λ t. t == state) propagate_states) (element_stored id state)
    ])
    ++ mark_if e.in_chord (element_returned e state)

-- the loop over `chain_elems`, with what is done; none where the fuel runs out
unfoldable pub walk : Bool → String → ℕ → List Link → Option (List Mark)
unfolding visit with_body element
walk store_result state zero queue = none
walk store_result state (suc fuel) [] = some []
walk store_result state (suc fuel) (l ∷ queue) =
    let rest = walk store_result state fuel (with_body l queue) in
    elim rest [ none ↦ none | some marks ↦ some (visit store_result state (element l) ++ marks) ]

-- how many elements there are, bodies included
unfoldable pub link_size : Link → ℕ
link_size (plain e) = 1
link_size (chord e body) = suc (link_size body)

unfoldable pub chain_size : List Link → ℕ
unfolding link_size
chain_size [] = 0
chain_size (l ∷ queue) = link_size l + chain_size queue

-- `if call_errbacks and request.errbacks`, after the loop
unfoldable pub finish_failure :
    Bool → MarkedRequest → String → Option (List Mark) → Option (List Mark)
unfolding mark_if
finish_failure call_errbacks r state none = none
finish_failure call_errbacks r state (some marks) = some (
    mark_if r.has_chord (part_returned state)
    ++ (marks ++ mark_if (call_errbacks && r.has_errbacks) errbacks_called))

-- what is done of the request
unfoldable pub mark_request : Option MarkedRequest → Bool → Bool → String → Option (List Mark)
unfolding walk chain_size finish_failure
mark_request none store_result call_errbacks state = some []
mark_request (some r) store_result call_errbacks state =
    finish_failure call_errbacks r state
      (walk store_result state (suc (chain_size r.chain)) r.chain)

unfoldable pub mark_as_failure :
    Option String → Option MarkedRequest → Bool → Bool → String → Option (List Mark)
unfolding mark_request mark_if
mark_as_failure task_id request store_result call_errbacks state =
    let rest = mark_request request store_result call_errbacks state in
    elim rest [
      | none ↦ none
      | some marks ↦ some (mark_if store_result (stored task_id state) ++ marks)
    ]
