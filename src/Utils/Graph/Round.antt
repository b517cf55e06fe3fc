-- ===== src/Utils/Graph/Round.antt =====
-- What each round of Khan's sort keeps (celery/utils/graph.py).
use mathlib.Core.Logic.{if_pos, if_neg}
use celery.Prelude.{
  ℕ, ◌+◌, ◌-◌, ◌≡◌, ◌<◌, refl, ap, ◌∙◌, true, false, ◌||◌, some, List, [], ◌∷◌, eqb, arith,
  if◌then◌else◌,
}
use celery.Prelude.Dict
use celery.Prelude.Dict.{Dict}
use celery.Utils.Graph.{Graph, count_of, release}
use celery.Utils.Graph.Waiting.{is_in, occ, waiting, waiting_done, count_of-put}

module _ {K : Type 0} (dec : Discrete K) (g : Graph K) where
  abbrev pub IsNoDup : List K → Type 0
  IsNoDup [] = Unit
  IsNoDup (x ∷ l) = (is_in dec x l ≡ false) × IsNoDup l

  -- `left` are the successors whose counts are still to be lowered
  pub record Inv (done left ready : List K) (count : Dict K ℕ) : Type 0 where
    pub counted : (x : K) → count_of dec x count ≡ waiting dec g done x + occ dec x left
    pub ready_free : (x : K) → is_in dec x ready ≡ true → count_of dec x count ≡ 0
    pub done_free : (x : K) → is_in dec x done ≡ true → count_of dec x count ≡ 0
    pub apart : (x : K) → is_in dec x ready ≡ true → is_in dec x done ≡ false
    pub no_dup : IsNoDup ready
    pub keys : (x : K) → is_in dec x ready ≡ true → Dict.has dec x g ≡ true
    pub kept :
        (x : K)
        → Dict.has dec x g ≡ true
        → count_of dec x count ≡ 0
        → (is_in dec x ready || is_in dec x done) ≡ true

  pos-step :
      (done left ready : List K) (count : Dict K ℕ) (s : K)
      → Inv done (s ∷ left) ready count
      → 0 < count_of dec s count
  pos-step done left ready count s inv = ground (arith, inv.counted s)

  -- one successor
  step-Inv :
      (done left ready : List K) (count : Dict K ℕ) (s : K)
      → Dict.has dec s g ≡ true
      → Inv done (s ∷ left) ready count
      → Inv done left
          (if eqb (count_of dec s count) 1 then s ∷ ready else ready)
          (Dict.put dec s (count_of dec s count - 1) count)
  step-Inv done left ready count s key inv =
      let n = count_of dec s count in
      let put = λ (x : K). count_of-put dec s x (n - 1) count in
      let pos : 0 < n = pos-step done left ready count s inv in
      record {
        counted = λ x. elim (dec s x) [
          | yes p ↦ ground (arith, put x, inv.counted x, ap (λ k. count_of dec k count) p)
          | no p ↦ ground (arith, put x, inv.counted x)
        ];
        ready_free = λ x h. elim (dec s x) [
          | yes p ↦ ground (arith, put x, inv.ready_free s, ap (λ k. is_in dec k ready) p)
          | no p ↦ ground (arith, put x, inv.ready_free x)
        ];
        done_free = λ x h. elim (dec s x) [
          | yes p ↦ ground (arith, put x, inv.done_free s, ap (λ k. is_in dec k done) p)
          | no p ↦ ground (arith, put x, inv.done_free x)
        ];
        apart = λ x h. elim (dec x s) [
          | yes p ↦ ground (
            arith,
            inv.done_free s,
            inv.ready_free s,
            ap (λ k. is_in dec k done) p,
            ap (λ k. is_in dec k ready) p,
          )
          | no p ↦ ground (arith, inv.apart x)
        ];
        no_dup = ground (arith, inv.no_dup, inv.ready_free s);
        keys = λ x h. elim (dec x s) [
          | yes p ↦ ap (λ k. Dict.has dec k g) p ∙ key
          | no p ↦ ground (arith, inv.keys x)
        ];
        kept = λ x h z. elim (dec s x) [
          | yes p ↦ ground (arith, put x, ap (λ k. count_of dec k count) p)
          | no p ↦ ground (arith, put x, inv.kept x)
        ];
      }

  is_in_head : (s : K) (l : List K) → is_in dec s (s ∷ l) ≡ true
  is_in_head s l = rw (if_pos (dec s s) refl) refl

  is_in_tail : (x s : K) (l : List K) → is_in dec x l ≡ true → is_in dec x (s ∷ l) ≡ true
  is_in_tail x s l h = ground arith

  -- all the successors of a node
  pub release-Inv :
      (left done ready : List K) (count : Dict K ℕ)
      → ((x : K) → is_in dec x left ≡ true → Dict.has dec x g ≡ true)
      → Inv done left ready count
      → Inv done [] (release dec left (ready, count)).0 (release dec left (ready, count)).1
  unfolding release
  release-Inv [] done ready count keys inv = inv
  release-Inv (s ∷ left) done ready count keys inv =
      release-Inv left done _ _ (λ x h. keys x (is_in_tail x s left h))
        (step-Inv done left ready count s (keys s (is_in_head s left)) inv)

  -- the node that is popped
  pub pop-Inv :
      (node : K) (adj done ready : List K) (count : Dict K ℕ)
      → Dict.AreDistinct dec g
      → Dict.get dec node g ≡ some adj
      → Inv done [] (node ∷ ready) count
      → Inv (node ∷ done) adj ready count
  pop-Inv node adj done ready count d e inv =
      let free : is_in dec node done ≡ false = inv.apart node (is_in_head node ready) in
      record {
        counted = λ x.
            inv.counted x
            ∙ ap (λ n. n + 0) (waiting_done dec g done adj node x d e free)
            ∙ omega arith;
        ready_free = λ x h. inv.ready_free x (is_in_tail x node ready h);
        done_free = λ x h. elim (dec x node) [
          | yes p ↦ ap (λ k. count_of dec k count) p ∙ inv.ready_free node (is_in_head node ready)
          | no p ↦ inv.done_free x (rw (if_neg _ p) at h)
        ];
        apart = λ x h. elim (dec x node) [
          | yes p ↦ absurd (ground (arith, inv.no_dup.0, ap (λ k. is_in dec k ready) p))
          | no p ↦ rw (if_neg _ p) (inv.apart x (is_in_tail x node ready h))
        ];
        no_dup = inv.no_dup.1;
        keys = λ x h. inv.keys x (is_in_tail x node ready h);
        kept = λ x h z. ground (arith, inv.kept x h z);
      }
