-- ===== src/Utils/Graph/Waiting.antt =====
-- What a node still waits for in Khan's sort (celery/utils/graph.py).
use mathlib.Core.Logic.{ite, if_pos, if_neg}
use celery.Prelude.{
  ℕ, suc, ◌+◌, ◌≡◌, ◌<◌, refl, sym, ap, ◌∙◌, Bool, Bool-cases, true, false, inl, inr, some, List,
  [], ◌∷◌, length, eqb, arith, if◌then◌else◌,
}
use celery.Prelude.Dict
use celery.Prelude.Dict.{Dict}
use celery.Utils.Graph.{Graph, count_of, tally, tally_all}

module _ {K : Type 0} (dec : Discrete K) where
  abbrev pub is_in : K → List K → Bool
  is_in x [] = false
  is_in x (y ∷ l) = ite (dec x y) true (is_in x l)

  abbrev pub occ : K → List K → ℕ
  occ x [] = 0
  occ x (y ∷ l) = ite (dec y x) 1 0 + occ x l

  -- the edges into `x` from nodes that are not done
  unfoldable pub waiting : Graph K → List K → K → ℕ
  waiting [] done x = 0
  waiting ((n, adj) ∷ g) done x = (if is_in n done then 0 else occ x adj) + waiting g done x

  -- the nodes that are not done
  unfoldable pub remaining : Graph K → List K → ℕ
  remaining [] done = 0
  remaining ((n, adj) ∷ g) done = (if is_in n done then 0 else 1) + remaining g done

  pub occ-is_in : (x : K) (l : List K) → is_in x l ≡ true → 0 < occ x l
  occ-is_in x [] h = cc
  occ-is_in x (y ∷ l) h = ground (arith, occ-is_in x l)

  pub is_in-occ : (x : K) (l : List K) → 0 < occ x l → is_in x l ≡ true
  is_in-occ x [] h = absurd (omega arith)
  is_in-occ x (y ∷ l) h = elim (dec x y) [
    | yes p ↦ rw (if_pos _ p) refl
    | no p ↦ let back : ¬ Path K y x = λ q. p (sym q) in ground (arith, is_in-occ x l)
  ]

  waiting_absent :
      (g : Graph K) (done : List K) (n x : K)
      → Dict.has dec n g ≡ false
      → waiting g (n ∷ done) x ≡ waiting g done x
  unfolding waiting Dict.has Dict.get
  waiting_absent [] done n x h = refl
  waiting_absent ((m, adj) ∷ g) done n x h = ground (arith, waiting_absent g done n x)

  -- a node that gets done
  pub waiting_done :
      (g : Graph K) (done adj : List K) (n x : K)
      → Dict.AreDistinct dec g
      → Dict.get dec n g ≡ some adj
      → is_in n done ≡ false
      → waiting g done x ≡ waiting g (n ∷ done) x + occ x adj
  unfolding waiting Dict.get
  waiting_done [] done adj n x d h u = cc
  waiting_done ((m, ms) ∷ g) done adj n x d h u = elim (dec m n) [
    | yes p ↦
        let absent : Dict.has dec n g ≡ false = ap (λ k. Dict.has dec k g) (sym p) ∙ d.0 in
        let fresh : is_in m done ≡ false = ap (λ k. is_in k done) p ∙ u in
        ground (arith, waiting_absent g done n x absent)
    | no p ↦ ground (arith, waiting_done g done adj n x d.1 (rw (if_neg _ p) at h) u)
  ]

  remaining_absent :
      (g : Graph K) (done : List K) (n : K)
      → Dict.has dec n g ≡ false
      → remaining g (n ∷ done) ≡ remaining g done
  unfolding remaining Dict.has Dict.get
  remaining_absent [] done n h = refl
  remaining_absent ((m, adj) ∷ g) done n h = ground (arith, remaining_absent g done n)

  pub remaining_done :
      (g : Graph K) (done adj : List K) (n : K)
      → Dict.AreDistinct dec g
      → Dict.get dec n g ≡ some adj
      → is_in n done ≡ false
      → remaining g done ≡ suc (remaining g (n ∷ done))
  unfolding remaining Dict.get
  remaining_done [] done adj n d h u = cc
  remaining_done ((m, ms) ∷ g) done adj n d h u = elim (dec m n) [
    | yes p ↦
        let absent : Dict.has dec n g ≡ false = ap (λ k. Dict.has dec k g) (sym p) ∙ d.0 in
        let fresh : is_in m done ≡ false = ap (λ k. is_in k done) p ∙ u in
        ground (arith, remaining_absent g done n absent)
    | no p ↦ ground (arith, remaining_done g done adj n d.1 (rw (if_neg _ p) at h) u)
  ]

  pub remaining_start : (g : Graph K) → remaining g [] ≡ length g
  unfolding remaining
  remaining_start [] = refl
  remaining_start ((m, ms) ∷ g) = ground (arith, remaining_start g)

  -- a node that waits for nothing has no edge from a node that is not done
  pub waiting-zero :
      (g : Graph K) (done adj : List K) (a x : K)
      → waiting g done x ≡ 0
      → Dict.get dec a g ≡ some adj
      → is_in a done ≡ false
      → occ x adj ≡ 0
  unfolding waiting Dict.get
  waiting-zero [] done adj a x w h u = cc
  waiting-zero ((m, ms) ∷ g) done adj a x w h u = elim (dec m a) [
    | yes p ↦ let fresh : is_in m done ≡ false = ap (λ k. is_in k done) p ∙ u in ground arith
    | no p ↦
        let less : waiting g done x ≡ 0 = ground arith in
        waiting-zero g done adj a x less (rw (if_neg _ p) at h) u
  ]

  pub get-differs :
      (m a : K) (ms adj : List K) (g : Graph K)
      → Dict.has dec m g ≡ false
      → Dict.get dec a g ≡ some adj
      → Dict.get dec a ((m, ms) ∷ g) ≡ some adj
  unfolding Dict.get Dict.has
  get-differs m a ms adj g d h = elim (dec m a) [
    | yes p ↦
        let absent : Dict.has dec a g ≡ false = ap (λ k. Dict.has dec k g) (sym p) ∙ d in
        absurd (ground arith)
    | no p ↦ rw (if_neg _ p) h
  ]

  -- a node that waits has an edge from a node that is not done
  pub waiting-some :
      (g : Graph K) (done : List K) (x : K)
      → Dict.AreDistinct dec g
      → 0 < waiting g done x
      → (a : K) × (adj : List K) × (Dict.get dec a g ≡ some adj)
        × (is_in a done ≡ false)
        × (0 < occ x adj)
  unfolding waiting
  waiting-some [] done x d w = absurd (omega arith)
  waiting-some ((m, ms) ∷ g) done x d w = elim (Bool-cases (is_in m done)) [
    | inl t ↦
        let more : 0 < waiting g done x = ground arith in
        let (a, adj, h, u, o) = waiting-some g done x d.1 more in
        (a, adj, get-differs m a ms adj g d.0 h, u, o)
    | inr f ↦ elim (Bool-cases (eqb (occ x ms) 0)) [
      | inl z ↦
          let more : 0 < waiting g done x = ground arith in
          let (a, adj, h, u, o) = waiting-some g done x d.1 more in
          (a, adj, get-differs m a ms adj g d.0 h, u, o)
      | inr p ↦ (m, ms, (unfold Dict.get in rw (if_pos _ refl) refl), f, ground arith)
    ]
  ]

  pub count_of-put :
      (k x : K) (n : ℕ) (count : Dict K ℕ)
      → count_of dec x (Dict.put dec k n count) ≡ ite (dec k x) n (count_of dec x count)
  unfolding count_of
  count_of-put k x n count = ground (arith, Dict.get-put dec k x n count)

  count_of-tally :
      (x : K) (l : List K) (count : Dict K ℕ)
      → count_of dec x (tally dec l count) ≡ count_of dec x count + occ x l
  unfolding tally
  count_of-tally x [] count = omega arith
  count_of-tally x (s ∷ ss) count =
      let n = count_of dec s count + 1 in
      let rest = count_of-tally x ss (Dict.put dec s n count) in
      elim (dec s x) [
        | yes p ↦
            let same = ap (λ k. count_of dec k count) p in
            ground (arith, rest, count_of-put s x n count)
        | no p ↦ ground (arith, rest, count_of-put s x n count)
      ]

  pub count_of-tally_all :
      (x : K) (g : Graph K) (count : Dict K ℕ)
      → count_of dec x (tally_all dec g count) ≡ count_of dec x count + waiting g [] x
  unfolding tally_all waiting
  count_of-tally_all x [] count = omega arith
  count_of-tally_all x ((n, adj) ∷ g) count =
      omega (arith, count_of-tally_all x g (tally dec adj count), count_of-tally x adj count)
