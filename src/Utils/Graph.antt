-- ===== src/Utils/Graph.antt =====
-- celery/utils/graph.py, class `DependencyGraph`: an adjacency dictionary, its operations, and Khan's
-- topological sort. A node that is no key raises `KeyError`.
pub mod Waiting
pub mod Round
pub mod Sorted
pub mod Khan
pub mod Update
use mathlib.Core.Logic.{ite}
use celery.Prelude.{
  ℕ, zero, suc, ◌+◌, ◌-◌, Bool, true, false, not, Option, none, some, List, [], ◌∷◌, ◌++◌, length,
  eqb, if◌then◌else◌,
}
use celery.Prelude.Dict
use celery.Prelude.Dict.{Dict}

abbrev pub Graph : Type 0 → Type 0
Graph K = Dict K (List K)

-- what a sort comes to
pub data Outcome (K : Type 0) : Type 0 where
  sorted : List K → Outcome K
  key_error : Outcome K
  out_of_fuel : Outcome K

module _ {K : Type 0} (dec : Discrete K) where
  -- `self.adjacent.setdefault(obj, [])`
  unfoldable pub add_arc : K → Graph K → Graph K
  add_arc obj g = if Dict.has dec obj g then g else Dict.put dec obj [] g

  -- `self[a].append(b)`, none where it raises
  unfoldable pub add_edge : K → K → Graph K → Option (Graph K)
  add_edge a b g = elim (Dict.get dec a g) [
    | none ↦ none
    | some bs ↦ some (Dict.put dec a (bs ++ b ∷ []) g)
  ]

  unfoldable pub add_arcs : List (K × List K) → Graph K → Graph K
  add_arcs [] g = g
  add_arcs ((obj, deps) ∷ tups) g = add_arcs tups (add_arc obj g)

  unfoldable pub add_deps : K → List K → Graph K → Option (Graph K)
  add_deps obj [] g = some g
  add_deps obj (dep ∷ deps) g = elim (add_edge obj dep g) [
    | none ↦ none
    | some h ↦ add_deps obj deps h
  ]

  unfoldable pub add_edges : List (K × List K) → Graph K → Option (Graph K)
  add_edges [] g = some g
  add_edges ((obj, deps) ∷ tups) g = elim (add_deps obj deps g) [
    | none ↦ none
    | some h ↦ add_edges tups h
  ]

  unfoldable pub update : List (K × List K) → Graph K → Option (Graph K)
  update tups g = add_edges tups (add_arcs tups g)

  -- a `Counter`
  unfoldable pub count_of : K → Dict K ℕ → ℕ
  count_of k count = elim (Dict.get dec k count) [ none ↦ 0 | some n ↦ n ]

  -- `count[successor] += 1` for each
  unfoldable pub tally : List K → Dict K ℕ → Dict K ℕ
  tally [] count = count
  tally (s ∷ ss) count = tally ss (Dict.put dec s (count_of s count + 1) count)

  unfoldable pub tally_all : Graph K → Dict K ℕ → Dict K ℕ
  tally_all [] count = count
  tally_all ((n, adj) ∷ g) count = tally_all g (tally adj count)

  -- `[node for node in self if not count[node]]`
  unfoldable pub unneeded : Dict K ℕ → Graph K → List K
  unneeded count [] = []
  unneeded count ((n, adj) ∷ g) =
      let rest = unneeded count g in if eqb (count_of n count) 0 then n ∷ rest else rest

  -- The loop over the successors of a node: each count is lowered, and a successor whose count gets
  -- to 0 is put on the stack `ready`. A count below 0 is kept as 0, and is not put there either.
  unfoldable pub release : List K → List K × Dict K ℕ → List K × Dict K ℕ
  release [] (ready, count) = (ready, count)
  release (s ∷ ss) (ready, count) =
      let n = count_of s count in
      release ss ((if eqb n 1 then s ∷ ready else ready), Dict.put dec s (n - 1) count)

  -- the `while` loop; `done` is `result` reversed
  unfoldable pub khan_loop : ℕ → Graph K → List K → List K × Dict K ℕ → Outcome K
  khan_loop fuel g done ([], count) = sorted done
  khan_loop zero g done (node ∷ ready, count) = out_of_fuel
  khan_loop (suc fuel) g done (node ∷ ready, count) = elim (Dict.get dec node g) [
    | none ↦ key_error
    | some adj ↦ khan_loop fuel g (node ∷ done) (release adj (ready, count))
  ]

  -- `l` reversed before `r`
  abbrev pub onto : List K → List K → List K
  onto [] r = r
  onto (x ∷ l) r = onto l (x ∷ r)

  -- no node is put on the stack twice, so the loop has at most one round for each node, and one more for a
  -- successor that is no node
  unfoldable pub khan62 : Graph K → Outcome K
  khan62 g =
      let count = tally_all g [] in
      khan_loop (suc (length g)) g [] (onto (unneeded count g) [], count)
