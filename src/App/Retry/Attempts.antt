-- ===== src/App/Retry/Attempts.antt =====
-- How often a task that keeps failing is tried (celery/app/autoretry.py, celery/app/task.py).
use celery.Prelude.{
  ℕ, zero, suc, ◌+◌, ◌≡◌, refl, ap, ◌∙◌, Bool, Bool-cases, true, false, inl, inr, Option,
  Option-cases, none, some, length, ltb, arith, if◌then◌else◌,
}
use celery.App.Retry.Backoff.{interval_there}
use celery.App.Retry.{
  pos, Task, Context, Options, Result, raised, retried, or_else, retry, Autoretry, attempt_kwargs,
  retry_for, run,
}

-- the limit that the next automatic retry of the task goes by
abbrev pub limit : {E : Type 0} → Autoretry E → Task → Option ℕ
limit auto task =
    or_else task.override_max_retries (or_else auto.retry_kwargs.max_retries task.max_retries)

abbrev pub from_worker : ℕ → Context
from_worker retries = record { retries = retries; called_directly = false; is_eager = false }

-- what the options must be for an automatic retry to send a message
pub record IsPlain {E : Type 0} (auto : Autoretry E) : Type 0 where
  pub throws : auto.retry_kwargs.throw ≡ true
  pub most : ℕ
  pub backoff : auto.retry_backoff_max ≡ pos most

module _ {E : Type 0} (randrange : ℕ → ℕ) (auto : Autoretry E) where
  -- Where the options are plain, the arguments of the retry are there, and its limit is theirs.
  kwargs_there :
      (request : Context) (task : Task)
      → IsPlain auto
      → (kwargs : Options) × (attempt_kwargs randrange auto request task ≡ some kwargs)
        × (kwargs.throw ≡ true)
        × (kwargs.max_retries ≡ or_else task.override_max_retries auto.retry_kwargs.max_retries)
  unfolding attempt_kwargs
  kwargs_there request task h = elim (Option-cases auto.retry_backoff) [
    | inl e ↦ rw e (_, refl, h.throws, refl)
    | inr (factor, e) ↦
        let (n, there) = interval_there randrange factor request.retries h.most auto.retry_jitter in
        rw (e, h.backoff, attempt_kwargs, there) (_, refl, h.throws, refl)
  ]

limit_used : (o k m : Option ℕ) → or_else (or_else o k) m ≡ or_else o (or_else k m)
limit_used none k m = refl
limit_used (some n) k m = refl

limit_kept :
    (o k m : Option ℕ) → or_else (or_else (or_else o k) o) (or_else k m) ≡ or_else o (or_else k m)
limit_kept none none m = refl
limit_kept none (some n) m = refl
limit_kept (some n) k m = refl

-- `retry` on a message from a worker, by the limit
retry_at :
    {E : Type 0} (retries m : ℕ) (exc : E) (kwargs : Options) (task : Task)
    → kwargs.throw ≡ true
    → or_else kwargs.max_retries task.max_retries ≡ some m
    → (t : Task) × (retry false (from_worker retries) (some exc) kwargs task
        ≡ (t, (if ltb retries m then retried else raised exc)))
      × (t.override_max_retries ≡ or_else kwargs.max_retries task.override_max_retries)
      × (t.max_retries ≡ task.max_retries)
      × (length t.sent ≡ length task.sent + (if ltb retries m then 1 else 0))
unfolding retry
retry_at retries m exc kwargs task throws l = elim (Bool-cases (ltb retries m)) [
  | inl below ↦
      let t : ltb m (retries + 1) ≡ false = ground arith in
      rw (l, t, throws, below) (_, refl, refl, refl, omega arith)
  | inr over ↦
      let t : ltb m (retries + 1) ≡ true = ground arith in
      rw (l, t, over) (_, refl, refl, refl, omega arith)
]

-- the worker gets a further message
abbrev pub goes_on : {E R : Type 0} → Result E R → Bool
goes_on retried = true
goes_on _ = false

retry_override :
    {E : Type 0} (send_raises : Bool) (request : Context) (exc : Option E) (options : Options)
    (task : Task)
    → (retry send_raises request exc options task).0.override_max_retries
      ≡ or_else options.max_retries task.override_max_retries
unfolding retry
retry_override send_raises request exc options task = ground arith

module _ {E : Type 0} (R : Type 0) (randrange : ℕ → ℕ) (auto : Autoretry E) where
  -- The runs of one message and of those that its retries send, each on what the task raises at
  -- that number of retries: the task, how the last run ended, and the number of runs.
  unfoldable pub lifetime : ℕ → ℕ → (ℕ → E) → Task → Option (Task × Result E R × ℕ)
  lifetime zero retries fails task = none
  lifetime (suc fuel) retries fails task =
      let (t, result) =
        run {R = R} randrange false auto (from_worker retries) (task, raised (fails retries)) in
      let rest = lifetime fuel (retries + 1) fails t in
      if goes_on result
      then elim rest [ none ↦ none | some (t', r, n) ↦ some (t', r, suc n) ]
      else some (t, result, 1)

  -- One more failure, where the exception is retried for: below the limit a message with one more
  -- retry is sent, at the limit the exception is raised; the limit stays as it is.
  pub run_again :
      (retries m : ℕ) (exc : E) (task : Task)
      → IsPlain auto
      → auto.autoretry_for exc ≡ true
      → auto.dont_autoretry_for exc ≡ false
      → limit auto task ≡ some m
      → (t : Task) × (run {R = R} randrange false auto (from_worker retries) (task, raised exc)
          ≡ (t, (if ltb retries m then retried else raised exc)))
        × (limit auto t ≡ some m)
        × (length t.sent ≡ length task.sent + (if ltb retries m then 1 else 0))
  unfolding run retry_for retry
  run_again retries m exc task h yes_for no_for l =
      let (kwargs, there, throws, max) = kwargs_there randrange auto (from_worker retries) task h in
      let used =
        ap (λ o. or_else o task.max_retries) max
        ∙ limit_used task.override_max_retries auto.retry_kwargs.max_retries task.max_retries
        ∙ l in
      let (t, came, override, kept, sent) = retry_at retries m exc kwargs task throws used in
      let k = auto.retry_kwargs.max_retries in
      let same : limit auto t ≡ some m =
        ap (λ o. or_else o (or_else k t.max_retries)) override
        ∙ ap (λ x. or_else (or_else kwargs.max_retries task.override_max_retries) (or_else k x))
            kept
        ∙ ap (λ x. or_else (or_else x task.override_max_retries) (or_else k task.max_retries)) max
        ∙ limit_kept task.override_max_retries k task.max_retries
        ∙ l in
      elim (Bool-cases (ltb retries m)) [
        | inl below ↦
            let came' = came ∙ ap (λ b. (t, (if b then retried else raised exc))) below in
            let sent' = sent ∙ ap (λ b. length task.sent + (if b then 1 else 0)) below in
            rw (no_for, yes_for, retry_for, there, came', below) (t, refl, same, sent')
        | inr over ↦
            let came' = came ∙ ap (λ b. (t, (if b then retried else raised exc))) over in
            let sent' = sent ∙ ap (λ b. length task.sent + (if b then 1 else 0)) over in
            rw (no_for, yes_for, retry_for, there, came', over) (t, refl, same, sent')
      ]

  lifetime_ends :
      (fuel retries : ℕ) (fails : ℕ → E) (task t : Task) (exc : E)
      → run {R = R} randrange false auto (from_worker retries) (task, raised (fails retries))
        ≡ (t, raised exc)
      → lifetime (suc fuel) retries fails task ≡ some (t, raised exc, 1)
  unfolding lifetime
  lifetime_ends fuel retries fails task t exc e = rw e refl

  lifetime_goes :
      (fuel retries : ℕ) (fails : ℕ → E) (task t t' : Task) (r : Result E R) (n : ℕ)
      → run {R = R} randrange false auto (from_worker retries) (task, raised (fails retries))
        ≡ (t, retried)
      → lifetime fuel (retries + 1) fails t ≡ some (t', r, n)
      → lifetime (suc fuel) retries fails task ≡ some (t', r, suc n)
  unfolding lifetime
  lifetime_goes fuel retries fails task t t' r n e rest = rw (e, rest) refl

  lifetime_from :
      (left retries m : ℕ) (fails : ℕ → E) (task : Task)
      → IsPlain auto
      → ((n : ℕ) → auto.autoretry_for (fails n) ≡ true)
      → ((n : ℕ) → auto.dont_autoretry_for (fails n) ≡ false)
      → limit auto task ≡ some m
      → retries + left ≡ m
      → (t : Task) × (lifetime (suc left) retries fails task ≡ some (t, raised (fails m), suc left))
        × (length t.sent ≡ length task.sent + left)
  lifetime_from zero retries m fails task h yes_for no_for l e =
      let (t, came, kept, sent) =
        run_again retries m (fails retries) task h (yes_for retries) (no_for retries) l in
      let over : ltb retries m ≡ false = ground arith in
      let last : fails retries ≡ fails m = ap fails (omega (arith, e)) in
      let came' =
        came
        ∙ ap (λ b. (t, (if b then retried else raised (fails retries)))) over
        ∙ ap (λ x. (t, raised x)) last in
      (
        t,
        lifetime_ends zero retries fails task t (fails m) came',
        sent ∙ ap (λ b. length task.sent + (if b then 1 else 0)) over,
      )
  lifetime_from (suc left) retries m fails task h yes_for no_for l e =
      let (t, came, kept, sent) =
        run_again retries m (fails retries) task h (yes_for retries) (no_for retries) l in
      let below : ltb retries m ≡ true = ground arith in
      let came' = came ∙ ap (λ b. (t, (if b then retried else raised (fails retries)))) below in
      let sent' = sent ∙ ap (λ b. length task.sent + (if b then 1 else 0)) below in
      let (t', rest, all) =
        lifetime_from left (retries + 1) m fails t h yes_for no_for kept (omega (arith, e)) in
      (
        t',
        lifetime_goes (suc left) retries fails task t t' (raised (fails m)) (suc left) came' rest,
        omega (arith, all, sent'),
      )

  -- Where `retry` throws by the options, the most backoff is not negative, and every exception that
  -- the task raises is retried for, a message that was not retried before, of a task that goes by
  -- the limit `m`, is run `m + 1` times in all with its retries, and no more: `m` further messages
  -- are sent, and what the last run raised is raised.
  pub lifetime_lem :
      (m : ℕ) (fails : ℕ → E) (task : Task)
      → IsPlain auto
      → ((n : ℕ) → auto.autoretry_for (fails n) ≡ true)
      → ((n : ℕ) → auto.dont_autoretry_for (fails n) ≡ false)
      → limit auto task ≡ some m
      → (t : Task) × (lifetime (suc m) 0 fails task ≡ some (t, raised (fails m), suc m))
        × (length t.sent ≡ length task.sent + m)
  lifetime_lem m fails task h yes_for no_for l =
      lifetime_from m 0 m fails task h yes_for no_for l (omega arith)

  -- Where the options throw, the most backoff is not negative, and every exception that the task
  -- raises is retried for: after a call of `retry` with `max_retries` set to `n`, for any request, a
  -- new message of the task that keeps failing is run `n + 1` times, whatever limit the task or its
  -- `retry_kwargs` have.
  pub override_lem :
      (n : ℕ) (send_raises : Bool) (request : Context) (exc : Option E) (options : Options)
      (fails : ℕ → E) (task : Task)
      → IsPlain auto
      → ((k : ℕ) → auto.autoretry_for (fails k) ≡ true)
      → ((k : ℕ) → auto.dont_autoretry_for (fails k) ≡ false)
      → options.max_retries ≡ some n
      → (t : Task) × (lifetime (suc n) 0 fails (retry send_raises request exc options task).0
          ≡ some (t, raised (fails n), suc n))
  override_lem n send_raises request exc options fails task h yes_for no_for o =
      let used = retry send_raises request exc options task in
      let k = or_else auto.retry_kwargs.max_retries used.0.max_retries in
      let goes_by : limit auto used.0 ≡ some n =
        ap (λ x. or_else x k) (retry_override send_raises request exc options task)
        ∙ ap (λ x. or_else (or_else x task.override_max_retries) k) o in
      let (t, came, sent) = lifetime_lem n fails used.0 h yes_for no_for goes_by in (t, came)
