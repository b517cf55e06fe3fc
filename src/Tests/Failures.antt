-- ===== src/Tests/Failures.antt =====
-- A failure that is passed on along a chain (celery/backends/base.py, `mark_as_failure`).
use celery.Prelude.{String, ◌≡◌, refl, true, false, some, List, [], ◌∷◌, ◌++◌}
use celery.States.{failure}
use celery.Backends.Marks.{
  Element, plain, chord, MarkedRequest, stored, part_returned, element_stored, element_returned,
  errbacks_called, mark_if, element, with_body, visit, walk, chain_size, link_size, mark_request,
  finish_failure, mark_as_failure,
}
use celery.Backends.Marks.Visits.{AreOf, visits, mark_as_failure_lem}

abbrev named : String → Element
named id = record { id = some id; in_chord = false }

abbrev part_of_chord : Element
part_of_chord = record { id = some "body"; in_chord = true }

-- a chain of a task, and of a chord whose body is a chord
abbrev failing : MarkedRequest
failing = record {
  ignore_result = false;
  has_chord = true;
  chain =
      chord (named "first") (chord (named "inner") (plain part_of_chord))
      ∷ plain (named "second")
      ∷ [];
  has_errbacks = true;
}

passed_on :
    mark_as_failure (some "task") (some failing) true true failure
    ≡ some (
        stored (some "task") failure
        ∷ part_returned failure
        ∷ element_stored "first" failure
        ∷ element_stored "second" failure
        ∷ element_stored "inner" failure
        ∷ element_stored "body" failure
        ∷ element_returned part_of_chord failure
        ∷ errbacks_called
        ∷ [])
unfolding mark_as_failure mark_request finish_failure walk visit with_body element chain_size
    link_size mark_if
passed_on = refl

mark_as_failure_lem_example :
    (l : List Element) × AreOf l failing.chain
    × (mark_as_failure (some "task") (some failing) true true failure
        ≡ some (
            mark_if true (stored (some "task") failure)
            ++ (mark_if true (part_returned failure)
                ++ (visits true failure l ++ mark_if true errbacks_called))))
mark_as_failure_lem_example = mark_as_failure_lem (some "task") failing true true failure
