-- ===== src/Backends/Retry/Attempts.antt =====
-- The tries of a call of the store (celery/backends/base.py, `_ensure_retryable`).
use celery.Prelude.{
  ℕ, zero, suc, ◌+◌, ◌≡◌, ◌≤◌, ◌<◌, refl, ap, ◌∙◌, Bool, Bool-cases, true, false, ◌&&◌, inl, inr,
  some, List, [], ◌∷◌, arith, ltb, ltb→lt, false≢true, if◌then◌else◌,
}
use celery.Backends.Calls.{Result-cases, Result, returned, raised}
use celery.Backends.Retry.{
  Outcome, done, error, fallback, Policy, below_limit, is_retryable, give_up, ensure_retryable,
}

-- the numbers from `k + 1` on
abbrev pub numbers : ℕ → ℕ → List ℕ
numbers k zero = []
numbers k (suc n) = suc k ∷ numbers (suc k) n

module _ {S E A : Type 0} (p : Policy S E) (call : S → S × Result E A) where
  -- what may be tried again
  abbrev pub may_retry : E → Bool
  may_retry e = p.always_retry && p.safe_to_retry e

  -- from `s` there are `n` calls that raise what may be tried again, which leave `t`
  abbrev pub Tried : ℕ → S → S → Type 0
  Tried zero s t = s ≡ t
  Tried (suc n) s t =
      (e : E) × ((call s).1 ≡ raised e) × (may_retry e ≡ true) × Tried n (p.on_error e (call s).0) t

  -- what a call that is not tried again comes to
  abbrev pub concluded : Result E A → Outcome E A
  concluded (returned a) = done a
  concluded (raised e) = if may_retry e && p.has_fallback then fallback else error e

  -- whether a call may be tried again
  abbrev pub goes_on : Result E A → Bool
  goes_on (returned a) = false
  goes_on (raised e) = may_retry e

  abbrev pub Concludes : ℕ → ℕ → ℕ → S → S × Outcome E A × List ℕ → Type 0
  Concludes m r n t (u, o, sleeps) =
      (n + r ≤ m)
      × ((goes_on (call t).1 && ltb (n + r) m) ≡ false)
      × (u ≡ (call t).0)
      × (o ≡ concluded (call t).1)
      × (sleeps ≡ numbers r n)

  below_some : (r m : ℕ) → below_limit r (some m) ≡ ltb r m
  unfolding below_limit
  below_some r m = refl

  pub step_stops :
      (fuel r : ℕ) (s : S)
      → (goes_on (call s).1 && below_limit r p.max_retries) ≡ false
      → ensure_retryable p call (suc fuel) r s ≡ ((call s).0, concluded (call s).1, [])
  unfolding ensure_retryable is_retryable give_up
  step_stops fuel r s h = elim (Result-cases (call s).1) [
    | inl (a, e) ↦ rw (e, ensure_retryable) refl
    | inr (x, e) ↦ elim (Bool-cases (may_retry x)) [
      | inr no_more ↦ rw (e, no_more, ensure_retryable) refl
      | inl again ↦
          let used_up : below_limit r p.max_retries ≡ false = (rw (e, again) at h) in
          rw (e, again, used_up, ensure_retryable) refl
    ]
  ]

  pub step_again :
      (fuel r : ℕ) (s : S) {e : E}
      → (call s).1 ≡ raised e
      → may_retry e ≡ true
      → below_limit r p.max_retries ≡ true
      → let (u, o, sleeps) = ensure_retryable p call fuel (suc r) (p.on_error e (call s).0) in
        ensure_retryable p call (suc fuel) r s ≡ (u, o, suc r ∷ sleeps)
  unfolding ensure_retryable is_retryable give_up
  step_again fuel r s e again below = rw (e, again, below, ensure_retryable) refl

  ensure_from :
      (fuel m r : ℕ) (s : S)
      → p.max_retries ≡ some m
      → r ≤ m
      → m < fuel + r
      → (n : ℕ) × (t : S) × Tried n s t × Concludes m r n t (ensure_retryable p call fuel r s)
  ensure_from zero m r s limit h k = absurd (omega arith)
  ensure_from (suc fuel) m r s limit h k =
      let below : below_limit r p.max_retries ≡ ltb r m =
        ap (below_limit r) limit ∙ below_some r m in
      elim (Bool-cases (goes_on (call s).1 && ltb r m)) [
        | inr stop ↦
            let here : 0 + r ≡ r = omega arith in
            let ends = step_stops fuel r s (ap (λ b. goes_on (call s).1 && b) below ∙ stop) in
            (
              0,
              s,
              refl,
              (rw here h, rw here stop, ap (λ w. w.0) ends, ap (λ w. w.1) ends, ap (λ w. w.2) ends),
            )
        | inl on ↦ elim (Result-cases (call s).1) [
          | inl (a, e) ↦ absurd (false≢true (rw e at on))
          | inr (x, e) ↦
              let both : (may_retry x && ltb r m) ≡ true = (rw e at on) in
              let again : may_retry x ≡ true = ground arith in
              let left : ltb r m ≡ true = ground arith in
              let (n, t, tried, (le, fin, u, o, sleeps)) =
                ensure_from fuel m (suc r) (p.on_error x (call s).0) limit (ltb→lt r m left)
                  (omega arith) in
              let same : suc n + r ≡ n + suc r = omega arith in
              let step = step_again fuel r s e again (below ∙ left) in
              (
                suc n,
                t,
                (x, e, again, tried),
                (
                  rw same le,
                  rw same fin,
                  ap (λ w. w.0) step ∙ u,
                  ap (λ w. w.1) step ∙ o,
                  ap (λ w. w.2) step ∙ ap {B = List ℕ} (λ l. suc r ∷ l) sleeps,
                ),
              )
        ]
      ]

module _ {S E A : Type 0} (p : Policy S E) (call : S → S × Result E A) where
  pub concluded-done : (r : Result E A) (a : A) → concluded p call r ≡ done a → r ≡ returned a
  unfolding give_up
  concluded-done (returned x) a h = cc
  concluded-done (raised x) a h = ground arith

-- With a finite limit of retries `_ensure_retryable` ends: there are at most that many calls that raise
-- what may be tried again, each followed by the hook and the next longer sleep, and then one call that
-- is not tried again, since it returns, or raises something else, or no try is left. Its result or
-- exception is the answer, and the fallback where no try is left and there is one.
pub ensure_retryable_lem :
    {S E A : Type 0} (p : Policy S E) (call : S → S × Result E A) (m : ℕ) (s : S)
    → p.max_retries ≡ some m
    → (n : ℕ) × (t : S) × Tried p call n s t
      × Concludes p call m 0 n t (ensure_retryable p call (suc m) 0 s)
ensure_retryable_lem p call m s limit =
    ensure_from p call (suc m) m 0 s limit (omega arith) (omega arith)
