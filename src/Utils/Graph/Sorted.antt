-- ===== src/Utils/Graph/Sorted.antt =====
-- The loop of Khan's sort, and the order of what it returns
-- (celery/utils/graph.py, `DependencyGraph._khan62`).
use mathlib.Core.Logic.{if_pos, if_neg}
use celery.Prelude.{
  ℕ, zero, suc, ◌≡◌, ◌≤◌, refl, sym, ap, ◌∙◌, Bool-cases, Option-cases, true, false, ◌||◌, ◌&&◌,
  inl, inr, some, List, [], ◌∷◌, eqb, arith,
}
use celery.Prelude.Dict
use celery.Prelude.Dict.{Dict}
use celery.Utils.Graph.{Graph, Outcome, sorted, count_of, unneeded, release, khan_loop, onto}
use celery.Utils.Graph.Waiting.{is_in, waiting, remaining, occ-is_in, remaining_done, waiting-zero}
use celery.Utils.Graph.Round.{IsNoDup, Inv, release-Inv, pop-Inv}

module _ {K : Type 0} (dec : Discrete K) (g : Graph K) where
  -- each node stands before all nodes that have an edge to it
  abbrev pub IsOrdered : List K → Type 0
  IsOrdered [] = Unit
  IsOrdered (b ∷ rest) =
      ((a : K) (adj : List K)
        → Dict.get dec a g ≡ some adj
        → is_in dec b adj ≡ true
        → is_in dec a rest ≡ true)
      × IsOrdered rest

  -- every successor is a node of the graph
  abbrev pub IsClosed : Type 0
  IsClosed =
      (a : K) (adj : List K)
      → Dict.get dec a g ≡ some adj
      → (x : K) → is_in dec x adj ≡ true
      → Dict.has dec x g ≡ true

  abbrev pub AreKeys : List K → Type 0
  AreKeys l = (x : K) → is_in dec x l ≡ true → Dict.has dec x g ≡ true

  -- what the loop comes to
  abbrev pub Sorts : Outcome K → Type 0
  Sorts o =
      (r : List K) × (o ≡ sorted r)
      × IsOrdered r
      × IsNoDup dec g r
      × AreKeys r
      × ((count : Dict K ℕ) × Inv dec g r [] [] count)

  pub head : (node : K) (l : List K) → is_in dec node (node ∷ l) ≡ true
  head node l = rw (if_pos (dec node node) refl) refl

  ordered_pop :
      (node : K) (done ready : List K) (count : Dict K ℕ)
      → Inv dec g done [] (node ∷ ready) count
      → (a : K) (adj : List K) → Dict.get dec a g ≡ some adj
      → is_in dec node adj ≡ true
      → is_in dec a done ≡ true
  ordered_pop node done ready count inv a adj e h = elim (Bool-cases (is_in dec a done)) [
    | inl t ↦ t
    | inr f ↦
        let zero_count = inv.ready_free node (head node ready) in
        let none_waiting : waiting dec g done node ≡ 0 =
          omega (arith, inv.counted node, zero_count) in
        absurd (
          omega
            (arith, waiting-zero dec g done adj a node none_waiting e f, occ-is_in dec node adj h))
  ]

  pub get-has : (x : K) → Dict.has dec x g ≡ true → (adj : List K) × (Dict.get dec x g ≡ some adj)
  unfolding Dict.has
  get-has x h = elim (Option-cases (Dict.get dec x g)) [
    | inl e ↦ absurd (ground arith)
    | inr (adj, e) ↦ (adj, e)
  ]

  AreKeys-cons :
      (node : K) (done : List K) → Dict.has dec node g ≡ true → AreKeys done → AreKeys (node ∷ done)
  AreKeys-cons node done e k x h = elim (dec x node) [
    | yes p ↦ ap (λ y. Dict.has dec y g) p ∙ e
    | no p ↦ k x (rw (if_neg _ p) at h)
  ]

  pub khan_loop-Sorts :
      (fuel : ℕ) (done : List K) (p : List K × Dict K ℕ)
      → Dict.AreDistinct dec g
      → IsClosed
      → Inv dec g done [] p.0 p.1
      → IsOrdered done
      → IsNoDup dec g done
      → AreKeys done
      → remaining dec g done ≤ fuel
      → Sorts (khan_loop dec fuel g done p)
  unfolding khan_loop
  khan_loop-Sorts fuel done ([], count) d c inv o n k h = (done, refl, o, n, k, (count, inv))
  khan_loop-Sorts zero done (node ∷ ready, count) d c inv o n k h =
      let (adj, e) = get-has node (inv.keys node (head node ready)) in
      absurd (
        omega (arith, h, remaining_done dec g done adj node d e (inv.apart node (head node ready))))
  khan_loop-Sorts (suc fuel) done (node ∷ ready, count) d c inv o n k h =
      let (adj, e) = get-has node (inv.keys node (head node ready)) in
      let free = inv.apart node (head node ready) in
      let fewer : remaining dec g (node ∷ done) ≤ fuel =
        omega (arith, h, remaining_done dec g done adj node d e free) in
      let next =
        release-Inv dec g adj (node ∷ done) ready count (c node adj e)
          (pop-Inv dec g node adj done ready count d e inv) in
      rw (e, khan_loop)
        (khan_loop-Sorts fuel (node ∷ done) (release dec adj (ready, count)) d c next
          (ordered_pop node done ready count inv, o) (free, n)
          (AreKeys-cons node done (inv.keys node (head node ready)) k) fewer)

  pub is_in-onto :
      (x : K) (l r : List K) → is_in dec x (onto dec l r) ≡ (is_in dec x l || is_in dec x r)
  is_in-onto x [] r = refl
  is_in-onto x (y ∷ l) r = ground (arith, is_in-onto x l (y ∷ r))

  pub IsNoDup-onto :
      (l r : List K)
      → IsNoDup dec g l
      → IsNoDup dec g r
      → ((x : K) → is_in dec x l ≡ true → is_in dec x r ≡ false)
      → IsNoDup dec g (onto dec l r)
  IsNoDup-onto [] r nl nr h = nr
  IsNoDup-onto (y ∷ l) r nl nr h =
      IsNoDup-onto l (y ∷ r) nl.1 (h y (head y l), nr)
        (λ x m. elim (dec x y) [
          | yes p ↦ absurd (ground (arith, nl.0, ap (λ k. is_in dec k l) p))
          | no p ↦ rw (if_neg _ p) (h x (rw (if_neg _ p) m))
        ])

module _ {K : Type 0} (dec : Discrete K) where
  pub is_in-unneeded :
      (count : Dict K ℕ) (g : Graph K) (x : K)
      → is_in dec x (unneeded dec count g) ≡ (Dict.has dec x g && eqb (count_of dec x count) 0)
  unfolding unneeded Dict.has Dict.get
  is_in-unneeded count [] x = refl
  is_in-unneeded count ((n, adj) ∷ g) x = elim (dec n x) [
    | yes p ↦
        let same = ap (λ k. count_of dec k count) p in
        let back : Path K x n = sym p in ground (arith, is_in-unneeded count g x)
    | no p ↦ let back : ¬ Path K x n = λ q. p (sym q) in ground (arith, is_in-unneeded count g x)
  ]

  pub IsNoDup-unneeded :
      (count : Dict K ℕ) (g : Graph K) (h : Graph K)
      → Dict.AreDistinct dec g
      → IsNoDup dec h (unneeded dec count g)
  unfolding unneeded
  IsNoDup-unneeded count [] h d = tt
  IsNoDup-unneeded count ((n, adj) ∷ g) h d =
      let rest = IsNoDup-unneeded count g h d.1 in
      let fresh : is_in dec n (unneeded dec count g) ≡ false =
        ground (arith, is_in-unneeded count g n, d.0) in
      ground (arith)
