-- ===== src/States/Order.antt =====
-- The order of the task states (celery/states.py).
use celery.Prelude.{
  ℕ, ◌≡◌, refl, sym, ap, ◌∙◌, String, ◌==◌, eq_iff, true, false, ◌⊎◌, inl, inr, [], ◌∷◌, All, arith,
  eqb, ltb, if◌then◌else◌,
}
use celery.States.{
  pending, received, started, success, failure, revoked, rejected, retry, precedence, gt,
}

-- a state that `PRECEDENCE` does not name
pub record IsCustom (s : String) : Type 0 where
  pub not_success : (success == s) ≡ false
  pub not_failure : (failure == s) ≡ false
  pub not_revoked : (revoked == s) ≡ false
  pub not_started : (started == s) ≡ false
  pub not_received : (received == s) ≡ false
  pub not_rejected : (rejected == s) ≡ false
  pub not_retry : (retry == s) ≡ false
  pub not_pending : (pending == s) ≡ false

precedence_custom : {s : String} → IsCustom s → precedence s ≡ 2
unfolding precedence
precedence_custom c = ground arith

-- A custom state is below SUCCESS and FAILURE, and above every other state that `PRECEDENCE` names.
custom_between :
    (s : String)
    → IsCustom s
    → All (λ t. gt t s ≡ true) (success ∷ failure ∷ [])
      × All (λ t. gt s t ≡ true) (revoked ∷ started ∷ received ∷ rejected ∷ retry ∷ pending ∷ [])
unfolding gt precedence
custom_between s c = ground (arith, precedence_custom c)

-- the state at an index of `PRECEDENCE`
abbrev name_at : ℕ → String
name_at i =
    if eqb i 0
    then success
    else if eqb i 1
    then failure
    else if eqb i 3
    then revoked
    else if eqb i 4
    then started
    else if eqb i 5
    then received
    else if eqb i 6
    then rejected
    else if eqb i 7
    then retry
    else pending

precedence_name : (a : String) → IsCustom a ⊎ (name_at (precedence a) ≡ a)
unfolding precedence
precedence_name a = ground (
  arith,
  eq_iff success a,
  eq_iff failure a,
  eq_iff revoked a,
  eq_iff started a,
  eq_iff received a,
  eq_iff rejected a,
  eq_iff retry a,
  eq_iff pending a,
)

-- a state that is named does not have the precedence of the custom ones
named_ne : (a : String) → name_at (precedence a) ≡ a → precedence a ≡ 2 → ⊥
named_ne a p q =
    let e : a ≡ pending = sym p ∙ ap name_at q in
    let f : precedence pending ≡ 8 = unfold precedence in refl in ground (arith, ap precedence e)

pub same_precedence :
    (a b : String) → precedence a ≡ precedence b → (a ≡ b) ⊎ (IsCustom a × IsCustom b)
same_precedence a b h = elim (precedence_name a) [
  | inr p ↦ elim (precedence_name b) [
    | inr q ↦ inl (sym p ∙ ap name_at h ∙ q)
    | inl cb ↦ absurd (named_ne a p (h ∙ precedence_custom cb))
  ]
  | inl ca ↦ elim (precedence_name b) [
    | inr q ↦ absurd (named_ne b q (sym h ∙ precedence_custom ca))
    | inl cb ↦ inr (ca, cb)
  ]
]

trichotomy : (m n : ℕ) → (ltb m n ≡ true) ⊎ (ltb n m ≡ true) ⊎ (m ≡ n)
trichotomy m n = ground arith

-- Of two states one is above the other, or they are equal, or both are custom.
pub gt_total :
    (a b : String) → (gt a b ≡ true) ⊎ (gt b a ≡ true) ⊎ (a ≡ b) ⊎ (IsCustom a × IsCustom b)
unfolding gt
gt_total a b = elim (trichotomy (precedence a) (precedence b)) [
  | inl t ↦ inl t
  | inr (inl t) ↦ inr (inl t)
  | inr (inr e) ↦ inr (inr (same_precedence a b e))
]
