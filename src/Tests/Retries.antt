-- ===== src/Tests/Retries.antt =====
-- Retries of a task on small inputs (celery/app/task.py, celery/app/autoretry.py).
use celery.Prelude.{ℕ, ◌+◌, ◌≤◌, ◌≡◌, refl, true, false, none, some, [], length, arith}
use celery.App.Retry.{
  pos, Task, Context, Options, raised, Autoretry, get_exponential_backoff_interval, retry,
}
use celery.App.Retry.Backoff.{get_exponential_backoff_interval_lem}
use celery.App.Retry.Attempts.{IsPlain, lifetime, lifetime_lem, override_lem}

-- a source of numbers that draws the least
abbrev draw : ℕ → ℕ
draw n = 0

get_exponential_backoff_interval_lem_example :
    (n : ℕ) × (get_exponential_backoff_interval draw (pos 3) 2 (pos 600) true ≡ some n)
    × (n ≤ 12)
    × (true ≡ false → n ≡ 12)
get_exponential_backoff_interval_lem_example =
    get_exponential_backoff_interval_lem draw 3 2 600 true (λ n. omega arith)

abbrev plain_kwargs : Options
plain_kwargs = record { throw = true; eta = none; countdown = none; max_retries = some 2 }

-- retries on every error; an exception is a number
abbrev auto : Autoretry ℕ
auto = record {
  autoretry_for = λ e. true;
  dont_autoretry_for = λ e. false;
  retry_kwargs = plain_kwargs;
  retry_backoff = some 2;
  retry_backoff_max = pos 600;
  retry_jitter = true;
  reject_exception = 100;
  max_retries_exception = 101;
  backoff_exception = 102;
}

auto-IsPlain : IsPlain auto
auto-IsPlain = record { throws = refl; most = 600; backoff = refl }

abbrev add : Task
add = record {
  max_retries = some 3;
  override_max_retries = none;
  default_retry_delay = 180;
  sent = [];
}

lifetime_lem_example :
    (t : Task) × (lifetime ℕ draw auto 3 0 (λ n. n + 7) add ≡ some (t, raised 9, 3))
    × (length t.sent ≡ 2)
lifetime_lem_example =
    lifetime_lem ℕ draw auto 2 (λ n. n + 7) add auto-IsPlain (λ n. refl) (λ n. refl) refl

abbrev first_request : Context
first_request = record { retries = 0; called_directly = false; is_eager = false }

override_lem_example :
    (t : Task) × (lifetime ℕ draw auto 6 0
        (λ n. n)
        (retry {E = ℕ} false first_request none
          (record plain_kwargs { max_retries = some 5 })
          add).0
      ≡ some (t, raised 5, 6))
override_lem_example =
    override_lem ℕ draw auto 5 false first_request none
      (record plain_kwargs { max_retries = some 5 }) (λ n. n) add auto-IsPlain (λ n. refl)
      (λ n. refl) refl
