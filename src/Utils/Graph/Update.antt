-- ===== src/Utils/Graph/Update.antt =====
-- The graph that `DependencyGraph.update` builds from pairs (celery/utils/graph.py).
use mathlib.Core.Logic.{ite, if_pos}
use celery.Prelude.{
  ◌≡◌, refl, sym, ap, ◌∙◌, Bool, true, false, ◌||◌, none, some, List, [], ◌∷◌, ◌++◌, arith,
}
use celery.Prelude.Dict
use celery.Prelude.Dict.{Dict}
use celery.Utils.Graph.{Graph, add_arc, add_edge, add_arcs, add_deps, add_edges, update}
use celery.Utils.Graph.Sorted.{get-has}
use celery.Prelude.{append-nil, append_assoc}

module _ {K : Type 0} (dec : Discrete K) where
  abbrev pub deps_of : K → Graph K → List K
  deps_of x g = elim (Dict.get dec x g) [ none ↦ [] | some l ↦ l ]

  -- `x` is an object of the pairs
  abbrev pub is_object : K → List (K × List K) → Bool
  is_object x [] = false
  is_object x ((obj, deps) ∷ tups) = ite (dec obj x) true (is_object x tups)

  -- the dependencies that the pairs give `x`
  abbrev pub asked : K → List (K × List K) → List K
  asked x [] = []
  asked x ((obj, deps) ∷ tups) = ite (dec obj x) (deps ++ asked x tups) (asked x tups)

  -- what a step of `update` keeps and adds
  record Grown (g h : Graph K) (objs : K → Bool) (more : K → List K) : Type 0 where
    distinct : Dict.AreDistinct dec g → Dict.AreDistinct dec h
    keys : (x : K) → Dict.has dec x h ≡ (objs x || Dict.has dec x g)
    deps : (x : K) → deps_of x h ≡ deps_of x g ++ more x

  add_arc-Grown :
      (obj : K) (g : Graph K)
      → Grown g (add_arc dec obj g) (λ x. ite (dec obj x) true false) (λ x. [])
  unfolding add_arc Dict.has
  add_arc-Grown obj g = record {
    distinct = λ d. ground (arith, d, Dict.put-AreDistinct dec obj [] g d);
    keys = λ x. ground (arith, Dict.has-put dec obj x [] g);
    deps = λ x. elim (dec obj x) [
      | yes p ↦ ground (
        arith,
        Dict.get-put dec obj x [] g,
        ap (λ y. Dict.has dec y g) p,
        append-nil (deps_of x g),
      )
      | no p ↦ ground (arith, Dict.get-put dec obj x [] g, append-nil (deps_of x g))
    ];
  }

  add_edge-Grown :
      (a b : K) (g : Graph K)
      → Dict.has dec a g ≡ true
      → (h : Graph K) × (add_edge dec a b g ≡ some h)
        × Grown g h (λ x. false) (λ x. ite (dec a x) (b ∷ []) [])
  unfolding add_edge Dict.has
  add_edge-Grown a b g k =
      let (bs, e) = get-has dec g a k in
      let put = λ (x : K). Dict.get-put dec a x (bs ++ b ∷ []) g in
      (
        Dict.put dec a (bs ++ b ∷ []) g,
        ground arith,
        record {
          distinct = Dict.put-AreDistinct dec a (bs ++ b ∷ []) g;
          keys = λ x. elim (dec a x) [
            | yes p ↦
                ground (arith, Dict.has-put dec a x (bs ++ b ∷ []) g, ap (λ y. Dict.has dec y g) p)
            | no p ↦ ground (arith, Dict.has-put dec a x (bs ++ b ∷ []) g)
          ];
          deps = λ x. elim (dec a x) [
            | yes p ↦ ground (arith, put x, e, ap (λ y. deps_of y g) p)
            | no p ↦ ground (arith, put x, append-nil (deps_of x g))
          ];
        },
      )

  compose-Grown :
      (g h i : Graph K) (o p q : K → Bool) (m n r : K → List K)
      → Grown g h o m
      → Grown h i p n
      → ((x : K) → (p x || (o x)) ≡ q x)
      → ((x : K) → m x ++ n x ≡ r x)
      → Grown g i q r
  compose-Grown g h i o p q m n r s t e f = record {
    distinct = λ d. t.distinct (s.distinct d);
    keys = λ x. ground (arith, t.keys x, s.keys x, e x);
    deps = λ x.
        t.deps x
        ∙ (ap (λ l. l ++ n x) (s.deps x)
            ∙ (append_assoc (deps_of x g) (m x) (n x) ∙ ap (λ l. deps_of x g ++ l) (f x)));
  }

  same-Grown : (g : Graph K) (m : K → List K) → ((x : K) → m x ≡ []) → Grown g g (λ x. false) m
  same-Grown g m e = record {
    distinct = λ d. d;
    keys = λ x. refl;
    deps = λ x. sym (ap (λ l. deps_of x g ++ l) (e x) ∙ append-nil (deps_of x g));
  }

  add_arcs-Grown :
      (tups : List (K × List K)) (g : Graph K)
      → Grown g (add_arcs dec tups g) (λ x. is_object x tups) (λ x. [])
  unfolding add_arcs
  add_arcs-Grown [] g = same-Grown g (λ x. []) (λ x. refl)
  add_arcs-Grown ((obj, deps) ∷ tups) g =
      compose-Grown _ _ _ _ _ _ _ _ _ (add_arc-Grown obj g)
        (add_arcs-Grown tups (add_arc dec obj g)) (λ x. ground arith) (λ x. refl)

  add_deps-Grown :
      (obj : K) (deps : List K) (g : Graph K)
      → Dict.has dec obj g ≡ true
      → (h : Graph K) × (add_deps dec obj deps g ≡ some h)
        × Grown g h (λ x. false) (λ x. ite (dec obj x) deps [])
  unfolding add_deps
  add_deps-Grown obj [] g k =
      (g, refl, same-Grown g (λ x. ite (dec obj x) [] []) (λ x. ground arith))
  add_deps-Grown obj (dep ∷ deps) g k =
      let (h, e, s) = add_edge-Grown obj dep g k in
      let (i, f, t) = add_deps-Grown obj deps h (s.keys obj ∙ k) in
      (i, ground arith, compose-Grown _ _ _ _ _ _ _ _ _ s t (λ x. refl) (λ x. ground arith))

  -- the objects of the pairs are keys
  abbrev HaveKeys : List (K × List K) → Graph K → Type 0
  HaveKeys tups g = (x : K) → is_object x tups ≡ true → Dict.has dec x g ≡ true

  add_edges-Grown :
      (tups : List (K × List K)) (g : Graph K)
      → HaveKeys tups g
      → (h : Graph K) × (add_edges dec tups g ≡ some h) × Grown g h (λ x. false) (λ x. asked x tups)
  unfolding add_edges
  add_edges-Grown [] g k = (g, refl, same-Grown g (λ x. []) (λ x. refl))
  add_edges-Grown ((obj, deps) ∷ tups) g k =
      let (h, e, s) = add_deps-Grown obj deps g (k obj (rw (if_pos (dec obj obj) refl) refl)) in
      let (i, f, t) = add_edges-Grown tups h (λ x o. s.keys x ∙ k x (ground arith)) in
      (i, ground arith, compose-Grown _ _ _ _ _ _ _ _ _ s t (λ x. refl) (λ x. ground arith))

  -- `update` never raises. Its keys stay distinct, the objects of the pairs become keys, and the
  -- dependencies of each node are those that it had, then those that the pairs give it, in order.
  pub update_lem :
      (tups : List (K × List K)) (g : Graph K)
      → Dict.AreDistinct dec g
      → (h : Graph K) × (update dec tups g ≡ some h)
        × Dict.AreDistinct dec h
        × ((x : K) → Dict.has dec x h ≡ (is_object x tups || Dict.has dec x g))
        × ((x : K) → deps_of x h ≡ deps_of x g ++ asked x tups)
  unfolding update
  update_lem tups g d =
      let s = add_arcs-Grown tups g in
      let (h, e, t) =
        add_edges-Grown tups (add_arcs dec tups g) (λ x o. ground (arith, s.keys x)) in
      let both : Grown g h (λ x. is_object x tups) (λ x. asked x tups) =
        compose-Grown _ _ _ _ _ _ _ _ _ s t (λ x. refl) (λ x. refl) in
      (h, e, both.distinct d, both.keys, both.deps)
