-- ===== src/App/Retry/Backoff.antt =====
-- The countdowns of `get_exponential_backoff_interval` (celery/utils/time.py).
use celery.Prelude.{
  ℕ, ◌+◌, ◌*◌, ◌^◌, ◌≤◌, ◌<◌, ◌≡◌, refl, Bool, true, false, none, some, arith, min,
}
use celery.App.Retry.{pos, negsuc, get_exponential_backoff_interval}

-- For a factor and a maximum that are not negative, where `randrange` answers below its argument,
-- there is a countdown, which exceeds neither the maximum nor the factor doubled once per retry;
-- without jitter it is the lesser of the two.
pub get_exponential_backoff_interval_lem :
    (randrange : ℕ → ℕ) (factor retries maximum : ℕ) (full_jitter : Bool)
    → ((n : ℕ) → randrange (n + 1) < n + 1)
    → (n : ℕ) × (get_exponential_backoff_interval randrange
          (pos factor)
          retries
          (pos maximum)
          full_jitter
        ≡ some n)
      × (n ≤ min maximum (factor * 2 ^ retries))
      × (full_jitter ≡ false → n ≡ min maximum (factor * 2 ^ retries))
unfolding get_exponential_backoff_interval
get_exponential_backoff_interval_lem randrange factor retries maximum true h =
    let top = min maximum (factor * 2 ^ retries) in
    (randrange (top + 1), refl, omega (arith, h top), λ e. absurd (ground arith))
get_exponential_backoff_interval_lem randrange factor retries maximum false h =
    (min maximum (factor * 2 ^ retries), refl, omega arith, λ e. refl)

pub interval_there :
    (randrange : ℕ → ℕ) (factor retries maximum : ℕ) (full_jitter : Bool)
    → (n : ℕ) × (get_exponential_backoff_interval randrange
          (pos factor)
          retries
          (pos maximum)
          full_jitter
        ≡ some n)
unfolding get_exponential_backoff_interval
interval_there randrange factor retries maximum true =
    (randrange (min maximum (factor * 2 ^ retries) + 1), refl)
interval_there randrange factor retries maximum false = (min maximum (factor * 2 ^ retries), refl)

-- A maximum below 0 with a factor that is not negative gives 0 without jitter, and with jitter no
-- countdown, as `randrange` raises before the negative value is cut to 0.
interval_negative :
    (randrange : ℕ → ℕ) (factor retries excess : ℕ)
    → (get_exponential_backoff_interval randrange (pos factor) retries (negsuc excess) false
        ≡ some 0)
      × (get_exponential_backoff_interval randrange (pos factor) retries (negsuc excess) true
          ≡ none)
unfolding get_exponential_backoff_interval
interval_negative randrange factor retries excess = (refl, refl)
