-- ===== src/Tests/Graphs.antt =====
-- celery/utils/graph.py, `DependencyGraph`, on small graphs of numbers.
use celery.Prelude.{ℕ, ◌≡◌, ◌++◌, ◌||◌, refl, true, none, some, List, [], ◌∷◌, arith, ℕ_discrete}
use celery.Prelude.Dict
use celery.Utils.Graph.{
  Graph, add_arc, add_edge, add_arcs, add_deps, add_edges, update, count_of, tally, tally_all,
  unneeded, release, khan_loop, khan62, sorted, key_error,
}
use celery.Utils.Graph.Waiting.{is_in}
use celery.Utils.Graph.Round.{IsNoDup}
use celery.Utils.Graph.Sorted.{IsClosed}
use celery.Utils.Graph.Update.{deps_of, is_object, asked, update_lem}
use celery.Utils.Graph.Khan.{IsDepth, is_ordered, khan62_lem}

program : Unit {0}
unfolding add_arc add_edge add_arcs add_deps add_edges update count_of tally tally_all unneeded
    release khan_loop khan62 ℕ_discrete Dict.get Dict.put Dict.has
program = tt

abbrev diamond : Graph ℕ
diamond = (0, 1 ∷ 2 ∷ []) ∷ (1, 3 ∷ []) ∷ (2, 3 ∷ []) ∷ (3, []) ∷ []

update-diamond :
    update ℕ_discrete ((0, 1 ∷ 2 ∷ []) ∷ (1, 3 ∷ []) ∷ (2, 3 ∷ []) ∷ (3, []) ∷ []) [] ≡ some diamond
unfolding program
update-diamond = refl

khan62-diamond : khan62 ℕ_discrete diamond ≡ sorted (3 ∷ 1 ∷ 2 ∷ 0 ∷ [])
unfolding program
khan62-diamond = refl

-- a node on a cycle gets lost
khan62-cycle : khan62 ℕ_discrete ((0, 1 ∷ []) ∷ (1, 0 ∷ []) ∷ (2, []) ∷ []) ≡ sorted (2 ∷ [])
unfolding program
khan62-cycle = refl

-- a successor that is no node
khan62-unknown : khan62 ℕ_discrete ((0, 1 ∷ []) ∷ []) ≡ key_error
unfolding program
khan62-unknown = refl

add_edge-unknown : add_edge ℕ_discrete 5 0 diamond ≡ none
unfolding program
add_edge-unknown = refl

diamond-AreDistinct : Dict.AreDistinct ℕ_discrete diamond
unfolding program
diamond-AreDistinct = (refl, (refl, (refl, (refl, tt))))

diamond-IsClosed : IsClosed ℕ_discrete diamond
unfolding program
diamond-IsClosed a adj e x h = ground arith

diamond-IsDepth : IsDepth ℕ_discrete diamond (λ x. x)
unfolding program
diamond-IsDepth a adj e b h = ground arith

khan62_example :
    (r : List ℕ) × (khan62 ℕ_discrete diamond ≡ sorted r)
    × (is_ordered ℕ_discrete diamond r ≡ true)
    × IsNoDup ℕ_discrete diamond r
    × ((x : ℕ) → is_in ℕ_discrete x r ≡ Dict.has ℕ_discrete x diamond)
khan62_example =
    khan62_lem ℕ_discrete diamond (λ x. x) diamond-AreDistinct diamond-IsClosed diamond-IsDepth

abbrev pairs : List (ℕ × List ℕ)
pairs = (4, 0 ∷ []) ∷ (0, 3 ∷ []) ∷ []

update_example :
    (h : Graph ℕ) × (update ℕ_discrete pairs diamond ≡ some h)
    × Dict.AreDistinct ℕ_discrete h
    × ((x : ℕ)
        → Dict.has ℕ_discrete x h ≡ (is_object ℕ_discrete x pairs || Dict.has ℕ_discrete x diamond))
    × ((x : ℕ) → deps_of ℕ_discrete x h ≡ deps_of ℕ_discrete x diamond ++ asked ℕ_discrete x pairs)
update_example = update_lem ℕ_discrete pairs diamond diamond-AreDistinct
