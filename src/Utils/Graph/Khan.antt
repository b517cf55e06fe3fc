-- ===== src/Utils/Graph/Khan.antt =====
-- Khan's sort as a whole, from the counts of all edges (celery/utils/graph.py,
-- `DependencyGraph._khan62`).
use mathlib.Core.Logic.{if_pos}
use celery.Prelude.{
  ℕ, zero, suc, ◌≡◌, ◌<◌, refl, sym, Bool, Bool-cases, true, false, not, ◌||◌, ◌&&◌, inl, inr, List,
  [], ◌∷◌, length, some, eqb, arith,
}
use celery.Prelude.Dict
use celery.Prelude.Dict.{Dict}
use celery.Utils.Graph.{Graph, sorted, count_of, tally_all, unneeded, onto, khan62}
use celery.Utils.Graph.Waiting.{
  is_in, waiting, remaining_start, waiting-some, count_of-tally_all, is_in-occ, get-differs,
}
use celery.Utils.Graph.Round.{IsNoDup, Inv}
use celery.Utils.Graph.Sorted.{
  IsOrdered, IsClosed, Sorts, khan_loop-Sorts, is_in-onto, IsNoDup-onto, is_in-unneeded,
  IsNoDup-unneeded,
}

module _ {K : Type 0} (dec : Discrete K) where
  -- each node of `g` with an edge to `b` is in `rest`
  abbrev pub dependents_in : Graph K → K → List K → Bool
  dependents_in [] b rest = true
  dependents_in ((n, adj) ∷ g) b rest =
      (not (is_in dec b adj) || is_in dec n rest) && dependents_in g b rest

  -- a node stands before the nodes that depend on it
  abbrev pub is_ordered : Graph K → List K → Bool
  is_ordered g [] = true
  is_ordered g (b ∷ rest) = dependents_in g b rest && is_ordered g rest

  dependents_in_lem :
      (g : Graph K) (b : K) (rest : List K)
      → Dict.AreDistinct dec g
      → ((a : K) (adj : List K)
          → Dict.get dec a g ≡ some adj
          → is_in dec b adj ≡ true
          → is_in dec a rest ≡ true)
      → dependents_in g b rest ≡ true
  dependents_in_lem [] b rest d h = refl
  dependents_in_lem ((n, adj) ∷ g) b rest d h =
      let first : Dict.get dec n ((n, adj) ∷ g) ≡ some adj =
        unfold Dict.get in rw (if_pos _ refl) refl in
      let here = h n adj first in
      let more =
        dependents_in_lem g b rest d.1 (λ a l e. h a l (get-differs dec n a adj l g d.0 e)) in
      ground arith

  is_ordered_lem :
      (g : Graph K) (r : List K)
      → Dict.AreDistinct dec g
      → IsOrdered dec g r
      → is_ordered g r ≡ true
  is_ordered_lem g [] d o = refl
  is_ordered_lem g (b ∷ rest) d o =
      let here = dependents_in_lem g b rest d o.0 in
      let more = is_ordered_lem g rest d o.1 in ground arith

module _ {K : Type 0} (dec : Discrete K) (g : Graph K) where
  is_in-start :
      (x : K)
      → let count = tally_all dec g [] in
        is_in dec x (onto dec (unneeded dec count g) [])
        ≡ (Dict.has dec x g && eqb (count_of dec x count) 0)
  is_in-start x = ground (
    arith,
    is_in-onto dec g x (unneeded dec (tally_all dec g []) g) [],
    is_in-unneeded dec (tally_all dec g []) g x,
  )

  count_of-empty : (x : K) → count_of dec x [] ≡ 0
  unfolding count_of Dict.get
  count_of-empty x = refl

  start-Inv :
      Dict.AreDistinct dec g
      → Inv dec g [] [] (onto dec (unneeded dec (tally_all dec g []) g) []) (tally_all dec g [])
  start-Inv d = record {
    counted = λ x. omega (arith, count_of-tally_all dec x g [], count_of-empty x);
    ready_free = λ x h. ground (arith, is_in-start x);
    done_free = λ x h. cc;
    apart = λ x h. refl;
    no_dup =
        IsNoDup-onto dec g (unneeded dec (tally_all dec g []) g) []
          (IsNoDup-unneeded dec (tally_all dec g []) g g d) tt (λ x h. refl);
    keys = λ x h. ground (arith, is_in-start x);
    kept = λ x h z. ground (arith, is_in-start x);
  }

  khan62-Sorts : Dict.AreDistinct dec g → IsClosed dec g → Sorts dec g (khan62 dec g)
  unfolding khan62
  khan62-Sorts d c =
      khan_loop-Sorts dec g (suc (length g)) []
        (onto dec (unneeded dec (tally_all dec g []) g) [], tally_all dec g []) d c (start-Inv d) tt
        tt (λ x h. cc) (omega (arith, remaining_start dec g))

  -- a node that is left over waits for another one
  left_over :
      (r : List K) (count : Dict K ℕ) (x : K)
      → Dict.AreDistinct dec g
      → Inv dec g r [] [] count
      → Dict.has dec x g ≡ true
      → is_in dec x r ≡ false
      → 0 < waiting dec g r x
  left_over r count x d inv k f = elim (Bool-cases (eqb (count_of dec x count) 0)) [
    | inl z ↦ absurd (ground (arith, inv.kept x k))
    | inr p ↦ ground (arith, inv.counted x)
  ]

  -- the depth of a node is above the depth of each node that depends on it
  abbrev pub IsDepth : (K → ℕ) → Type 0
  IsDepth depth =
      (a : K) (adj : List K)
      → Dict.get dec a g ≡ some adj
      → (b : K) → is_in dec b adj ≡ true
      → depth a < depth b

  all_done :
      (depth : K → ℕ) (r : List K) (count : Dict K ℕ)
      → Dict.AreDistinct dec g
      → IsDepth depth
      → Inv dec g r [] [] count
      → (bound : ℕ) (x : K) → depth x < bound
      → Dict.has dec x g ≡ true
      → is_in dec x r ≡ true
  all_done depth r count d below inv zero x less k = absurd (omega arith)
  all_done depth r count d below inv (suc bound) x less k = elim (Bool-cases (is_in dec x r)) [
    | inl t ↦ t
    | inr f ↦
        let (a, adj, e, u, o) = waiting-some dec g r x d (left_over r count x d inv k f) in
        let edge : depth a < depth x = below a adj e x (is_in-occ dec x adj o) in
        let key : Dict.has dec a g ≡ true = unfold Dict.has in ground arith in
        let contra = all_done depth r count d below inv bound a (omega arith) key in
        absurd (ground arith)
  ]

iff-eq : (a b : Bool) → (a ≡ true → b ≡ true) → (b ≡ true → a ≡ true) → a ≡ b
iff-eq true b h k = sym (h refl)
iff-eq false true h k = k refl
iff-eq false false h k = refl

-- Khan's sort of a graph without cycles: it ends, and its result has each node exactly once, and
-- before all the nodes that depend on it. The keys of the graph are distinct, each successor is a key, and a depth
-- that grows along the edges shows that there is no cycle.
pub khan62_lem :
    {K : Type 0} (dec : Discrete K) (g : Graph K) (depth : K → ℕ)
    → Dict.AreDistinct dec g
    → IsClosed dec g
    → IsDepth dec g depth
    → (r : List K) × (khan62 dec g ≡ sorted r)
      × (is_ordered dec g r ≡ true)
      × IsNoDup dec g r
      × ((x : K) → is_in dec x r ≡ Dict.has dec x g)
khan62_lem dec g depth d c below =
    let (r, e, o, n, k, left) = khan62-Sorts dec g d c in
    (
      r,
      e,
      is_ordered_lem dec g r d o,
      n,
      λ x.
          iff-eq (is_in dec x r) (Dict.has dec x g) (k x)
            (all_done dec g depth r left.0 d below left.1 (suc (depth x)) x (omega arith)),
    )
