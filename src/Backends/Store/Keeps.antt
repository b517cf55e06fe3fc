-- ===== src/Backends/Store/Keeps.antt =====
-- What the ways to build a call of the store keep (celery/backends/base.py).
use Prim.Native.String.{◌++◌}
use celery.Prelude.{ℕ, zero, suc, String, ◌==◌, ◌≡◌, refl, Bool, Bool-cases, true, false, inl, inr}
use celery.Backends.Keys.{get_key_for}
use celery.Backends.Calls.{Result-cases, Result, raised, Action, pure, lift, ◌>>=◌, rethrow}
use celery.Backends.Retry.{Policy, ensure_retryable, is_retryable, below_limit}
use celery.Backends.Store.{Setup, Backend, key_or_error, retried}

-- `call` keeps `I`, whether it returns or raises
pub record Keeps {S E A : Type 0} (I : S → Type 0) (call : Action S E A) : Type 0 where
  pub keeps : (s : S) → I s → I (call s).0

module _ {S E A : Type 0} {I : S → Type 0} where
  pub Keeps-pure : (a : A) → Keeps {E = E} I (pure a)
  unfolding pure
  Keeps-pure a = record { keeps = λ s i. i }

  pub Keeps-lift : (r : Result E A) → Keeps I (lift r)
  unfolding lift
  Keeps-lift r = record { keeps = λ s i. i }

  pub Keeps-rethrow : (f : E → E) (m : Action S E A) → Keeps I m → Keeps I (rethrow f m)
  unfolding rethrow
  Keeps-rethrow f m k = record {
    keeps = λ s i. elim (Result-cases (m s).1) [
      | inl (a, e) ↦ rw (e, rethrow) (k.keeps s i)
      | inr (x, e) ↦ rw (e, rethrow) (k.keeps s i)
    ];
  }

module _ {S E A B : Type 0} {I : S → Type 0} where
  pub Keeps-bind :
      (m : Action S E A) (f : A → Action S E B)
      → Keeps I m
      → ((a : A) → Keeps I (f a))
      → Keeps I (m >>= f)
  unfolding ◌>>=◌
  Keeps-bind m f k l = record {
    keeps = λ s i. elim (Result-cases (m s).1) [
      | inl (a, e) ↦ rw (e, ◌>>=◌) ((l a).keeps (m s).0 (k.keeps s i))
      | inr (x, e) ↦ rw (e, ◌>>=◌) (k.keeps s i)
    ];
  }

pub ruleset keeps_rules = (Keeps-pure, Keeps-lift, Keeps-rethrow, Keeps-bind)

module _ {S E A : Type 0} {I : S → Type 0} (p : Policy S E) (call : Action S E A) where
  pub ensure_retryable-keeps :
      Keeps I call
      → ((e : E) (s : S) → I s → I (p.on_error e s))
      → (fuel r : ℕ) (s : S) → I s
      → I (ensure_retryable p call fuel r s).0
  unfolding ensure_retryable
  ensure_retryable-keeps k hook zero r s i = i
  ensure_retryable-keeps k hook (suc fuel) r s i =
      let here = k.keeps s i in
      let again = λ (e : E).
        ensure_retryable-keeps k hook fuel (suc r) (p.on_error e (call s).0)
          (hook e (call s).0 here) in
      elim (Result-cases (call s).1) [
        | inl (a, e) ↦ rw (e, ensure_retryable) here
        | inr (x, e) ↦ elim (Bool-cases (is_retryable p call x)) [
          | inr no_more ↦ rw (e, no_more, ensure_retryable) here
          | inl retry ↦ elim (Bool-cases (below_limit r p.max_retries)) [
            | inl below ↦ rw (e, retry, below, ensure_retryable) (again x)
            | inr used_up ↦ rw (e, retry, used_up, ensure_retryable) here
          ]
        ]
      ]

module _ {S C E B V : Type 0} (b : Setup S C E B V) {A : Type 0} where
  pub at_key :
      (prefix id : String) (f : String → Action S E A) (s : S)
      → (id == "") ≡ false
      → (key_or_error b (get_key_for prefix id) >>= f) s ≡ f (prefix ++ id) s
  unfolding get_key_for ◌>>=◌
  at_key prefix id f s full = rw full refl

  pub no_key :
      (prefix id : String) (f : String → Action S E A) (s : S)
      → (id == "") ≡ true
      → (key_or_error b (get_key_for prefix id) >>= f) s ≡ (s, raised b.value_error)
  unfolding get_key_for ◌>>=◌
  no_key prefix id f s empty = rw empty refl

module _ {S C E B V : Type 0} (b : Setup S C E B V) {A : Type 0} {I : S → Type 0} where
  pub Keeps-key :
      (prefix id : String) (f : String → Action S E A)
      → Keeps I (f (prefix ++ id))
      → Keeps I (key_or_error b (get_key_for prefix id) >>= f)
  unfolding get_key_for ◌>>=◌
  Keeps-key prefix id f k = record {
    keeps = λ s i. elim (Bool-cases (id == "")) [
      | inl empty ↦ rw empty i
      | inr full ↦ rw full (k.keeps s i)
    ];
  }

  pub retried-keeps :
      (has_fallback : Bool) (call : Action S E A)
      → Keeps I call
      → ((e : E) (s : S) → I s → I (b.policy.on_error e s))
      → (x : Backend S C) → I x.store
      → I (retried b has_fallback call x).0.store
  unfolding retried
  retried-keeps has_fallback call k hook x i =
      ensure_retryable-keeps (record b.policy { has_fallback = has_fallback }) call k hook b.fuel 0
        x.store i
