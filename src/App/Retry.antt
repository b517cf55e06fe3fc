-- ===== src/App/Retry.antt =====
-- Trying a task again: `Task.retry` (celery/app/task.py), `add_autoretry_behaviour`
-- (celery/app/autoretry.py) and `get_exponential_backoff_interval` (celery/utils/time.py). The
-- exceptions are a type `E`; `apply_async` of the new message is taken to raise or not.
-- `retry_backoff` is the integer `int(max(1.0, retry_backoff))`, or none where it is 0.
pub mod Backoff
pub mod Attempts
use celery.Prelude.{
  ℕ, zero, suc, ◌+◌, ◌-◌, ◌*◌, ◌^◌, Bool, true, false, not, ◌&&◌, Option, none, some, List, [], ◌∷◌,
  ltb, if◌then◌else◌, min,
}

-- the integers over the native numbers
pub data ℤ : Type 0 where
  pos : ℕ → ℤ
  negsuc : ℕ → ℤ

-- `- n`
abbrev pub neg : ℕ → ℤ
neg zero = pos 0
neg (suc n) = negsuc n

abbrev pub times : ℤ → ℕ → ℤ
times (pos n) k = pos (n * k)
times (negsuc n) k = neg ((n + 1) * k)

abbrev pub least : ℤ → ℤ → ℤ
least (pos a) (pos b) = pos (min a b)
least (pos a) (negsuc b) = negsuc b
least (negsuc a) (pos b) = negsuc a
least (negsuc a) (negsuc b) = if ltb a b then negsuc b else negsuc a

-- `max(0, n)`
abbrev pub cut : ℤ → ℕ
cut (pos n) = n
cut (negsuc n) = 0

-- `random.randrange(n + 1)`, which raises where `n` is negative
unfoldable pub jitter : (ℕ → ℕ) → ℤ → Option ℤ
jitter randrange (pos n) = some (pos (randrange (n + 1)))
jitter randrange (negsuc n) = none

unfoldable pub get_exponential_backoff_interval : (ℕ → ℕ) → ℤ → ℕ → ℤ → Bool → Option ℕ
unfolding jitter
get_exponential_backoff_interval randrange factor retries maximum full_jitter =
    let countdown = least maximum (times factor (2 ^ retries)) in
    elim (if full_jitter then jitter randrange countdown else some countdown) [
      | some n ↦ some (cut n)
      | none ↦ none
    ]

-- the attributes of a task that a retry reads and writes, and the messages it has sent
pub record Sent : Type 0 where
  pub retries : ℕ
  pub eta : Option ℕ
  pub countdown : Option ℕ

pub record Task : Type 0 where
  pub max_retries : Option ℕ
  pub override_max_retries : Option ℕ
  pub default_retry_delay : ℕ
  pub sent : List Sent

pub record Context : Type 0 where
  pub retries : ℕ
  pub called_directly : Bool
  pub is_eager : Bool

-- the arguments of `retry`, less `exc`
pub record Options : Type 0 where
  pub throw : Bool
  pub eta : Option ℕ
  pub countdown : Option ℕ
  pub max_retries : Option ℕ

-- what a call of `retry`, or a run, ends with: an exception or a value
pub data Result (E R : Type 0) : Type 0 where
  returned : R → Result E R
  raised : E → Result E R
  ignored : Result E R
  retried : Result E R
  rejected : Result E R
  backoff_failed : Result E R
  max_retries_exceeded : Result E R

abbrev pub or_else : Option ℕ → Option ℕ → Option ℕ
or_else none d = d
or_else (some n) d = some n

abbrev pub exceeds : ℕ → Option ℕ → Bool
exceeds retries none = false
exceeds retries (some m) = ltb m retries

-- `if not eta and countdown is None: countdown = self.default_retry_delay`
abbrev pub delay : Task → Options → Option ℕ
delay task options = elim options.eta [
  | some t ↦ options.countdown
  | none ↦ or_else options.countdown (some task.default_retry_delay)
]

abbrev pub raise_or : {E R : Type 0} → Option E → Result E R → Result E R
raise_or none other = other
raise_or (some exc) other = raised exc

-- `if max_retries is not None: self.override_max_retries = max_retries`
unfoldable pub overridden : Options → Task → Task
overridden options task = record task {
  override_max_retries = or_else options.max_retries task.override_max_retries;
}

-- The value that `retry` returns where it does not throw is the `Retry` itself; it is `none` here.
unfoldable pub retry :
    {E : Type 0} → Bool → Context → Option E → Options → Task → Task × Result E (Option E)
unfolding overridden
retry send_raises request exc options task =
    let retries = request.retries + 1 in
    let t = overridden options task in
    let limit = or_else options.max_retries task.max_retries in
    let message : Sent = record {
      retries = retries;
      eta = options.eta;
      countdown = delay task options;
    } in
    let done = if options.throw then retried else returned none in
    if request.called_directly
    then (t, raise_or exc retried)
    else if exceeds retries limit
    then (t, raise_or exc max_retries_exceeded)
    else if request.is_eager
    then (t, done)
    else if send_raises
    then (t, rejected)
    else (record t { sent = message ∷ t.sent }, done)

pub record Autoretry (E : Type 0) : Type 0 where
  pub autoretry_for : E → Bool
  pub dont_autoretry_for : E → Bool
  -- the exceptions that a `Reject`, a `MaxRetriesExceededError` and the error of an interval are
  pub reject_exception : E
  pub max_retries_exception : E
  pub backoff_exception : E
  pub retry_kwargs : Options
  pub retry_backoff : Option ℕ
  pub retry_backoff_max : ℤ
  pub retry_jitter : Bool

-- `retry_kwargs_for_attempt`, or none where the interval raises
unfoldable pub attempt_kwargs :
    {E : Type 0} → (ℕ → ℕ) → Autoretry E → Context → Task → Option Options
unfolding get_exponential_backoff_interval
attempt_kwargs randrange auto request task =
    let kwargs = record auto.retry_kwargs {
      max_retries = or_else task.override_max_retries auto.retry_kwargs.max_retries;
    } in
    elim auto.retry_backoff [
      | none ↦ some kwargs
      | some factor ↦
          elim (get_exponential_backoff_interval randrange (pos factor) request.retries
            auto.retry_backoff_max auto.retry_jitter) [
              | some n ↦ some (record kwargs { countdown = some n })
              | none ↦ none
            ]
    ]

-- the `Retry` that `retry` returned is raised, after the override is deleted
unfoldable pub stop_propagation : {E R : Type 0} → Task × Result E (Option E) → Task × Result E R
stop_propagation (t, returned _) = (record t { override_max_retries = none }, retried)
stop_propagation (t, raised exc) = (t, raised exc)
stop_propagation (t, ignored) = (t, ignored)
stop_propagation (t, retried) = (t, retried)
stop_propagation (t, rejected) = (t, rejected)
stop_propagation (t, backoff_failed) = (t, backoff_failed)
stop_propagation (t, max_retries_exceeded) = (t, max_retries_exceeded)

-- `except autoretry_for as exc`
unfoldable pub retry_for :
    {E R : Type 0} → (ℕ → ℕ) → Bool → Autoretry E → Context → E → Task → Task × Result E R
unfolding attempt_kwargs retry stop_propagation
retry_for randrange send_raises auto request exc task =
    elim (attempt_kwargs randrange auto request task) [
      | none ↦ (task, backoff_failed)
      | some kwargs ↦ stop_propagation (retry send_raises request (some exc) kwargs task)
    ]

-- the clauses of the wrapped `run` on an exception that is no `Ignore` and no `Retry`
unfoldable pub run_caught :
    {E R : Type 0}
    → (ℕ → ℕ)
    → Bool
    → Autoretry E
    → Context
    → E
    → Task
    → Result E R
    → Task × Result E R
unfolding retry_for
run_caught randrange send_raises auto request exc task other =
    if auto.dont_autoretry_for exc
    then (task, other)
    else if auto.autoretry_for exc
    then retry_for randrange send_raises auto request exc task
    else (task, other)

-- the wrapped `run`, on what `_orig_run` has come to
unfoldable pub run :
    {E R : Type 0} → (ℕ → ℕ) → Bool → Autoretry E → Context → Task × Result E R → Task × Result E R
unfolding retry_for run_caught
run randrange send_raises auto request (task, raised exc) =
    if auto.dont_autoretry_for exc
    then (task, raised exc)
    else if auto.autoretry_for exc
    then retry_for randrange send_raises auto request exc task
    else (task, raised exc)
run randrange send_raises auto request (task, rejected) =
    run_caught randrange send_raises auto request auto.reject_exception task rejected
run randrange send_raises auto request (task, max_retries_exceeded) =
    run_caught randrange send_raises auto request auto.max_retries_exception task
      max_retries_exceeded
run randrange send_raises auto request (task, backoff_failed) =
    run_caught randrange send_raises auto request auto.backoff_exception task backoff_failed
run randrange send_raises auto request (task, other) = (task, other)
