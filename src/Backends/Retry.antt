-- ===== src/Backends/Retry.antt =====
-- celery/backends/base.py, `Backend._ensure_retryable`: a call of the store that is tried again where
-- it raises. The call and the hook before the next try are functions on a state; the sleeps are a
-- trace.
pub mod Attempts
use celery.Prelude.{
  ℕ, zero, suc, ◌+◌, Bool, true, false, ◌&&◌, not, Option, none, some, List, [], ◌∷◌, ltb,
  if◌then◌else◌,
}
use celery.Backends.Calls.{Result, returned, raised, Action}

-- What the whole comes to: as the call, or the exception that stands for it (`fallback_exc`). A limit
-- that is `none` stands for infinity, where the loop need not end.
pub data Outcome (E A : Type 0) : Type 0 where
  done : A → Outcome E A
  error : E → Outcome E A
  fallback : Outcome E A
  out_of_fuel : Outcome E A

pub record Policy (S E : Type 0) : Type 0 where
  pub always_retry : Bool
  pub max_retries : Option ℕ
  pub safe_to_retry : E → Bool
  -- whether the caller gives a `fallback_exc`
  pub has_fallback : Bool
  -- `on_backend_retryable_error`, whose own exceptions are dropped
  pub on_error : E → S → S

-- `retries < self.max_retries`
unfoldable pub below_limit : ℕ → Option ℕ → Bool
below_limit n none = true
below_limit n (some m) = ltb n m

module _ {S E A : Type 0} (p : Policy S E) (call : S → S × Result E A) where
  unfoldable pub is_retryable : E → Bool
  is_retryable e = p.always_retry && p.safe_to_retry e

  -- where no try is left
  unfoldable pub give_up : E → Outcome E A
  give_up e = if p.has_fallback then fallback else error e

  -- Each sleep is put down as the number of the retry that it comes before, of which
  -- `get_exponential_backoff_interval` makes the time.
  unfoldable pub ensure_retryable : ℕ → ℕ → S → S × Outcome E A × List ℕ
  ensure_retryable zero retries s = (s, out_of_fuel, [])
  ensure_retryable (suc fuel) retries s =
      let (t, r) = call s in
      elim r [
        | returned a ↦ (t, done a, [])
        | raised e ↦
            let rest = ensure_retryable fuel (suc retries) (p.on_error e t) in
            if is_retryable e
            then (if below_limit retries p.max_retries
                then (rest.0, rest.1, suc retries ∷ rest.2)
                else (t, give_up e, []))
            else (t, error e, [])
      ]
