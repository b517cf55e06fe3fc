-- ===== src/Backends/Calls.antt =====
-- Calls that change a state and return or raise, and what a store of keys and values offers
-- (celery/backends/base.py, the methods that `BaseKeyValueStoreBackend` leaves to its subclasses).
use Prim.{Unit}
use celery.Prelude.{String, ◌≡◌, ◌≢◌, ◌⊎◌, inl, inr, refl, sym, ap, ◌∙◌, Option, none, some}

-- what a call does
pub data Result (E A : Type 0) : Type 0 where
  returned : A → Result E A
  raised : E → Result E A

abbrev pub Action : Type 0 → Type 0 → Type 0 → Type 0
Action S E A = S → S × Result E A

unfoldable pub pure : {S E A : Type 0} → A → Action S E A
pure a s = (s, returned a)

-- a computation that does not touch the state
unfoldable pub lift : {S E A : Type 0} → Result E A → Action S E A
lift r s = (s, r)

infixl 10 ◌>>=◌
unfoldable pub ◌>>=◌ : {S E A B : Type 0} → Action S E A → (A → Action S E B) → Action S E B
(m >>= f) s = elim ((m s).1) [ returned a ↦ f a (m s).0 | raised e ↦ ((m s).0, raised e) ]

-- `except BackendStoreError as ex: raise BackendStoreError(…) from ex`
unfoldable pub rethrow : {S E A : Type 0} → (E → E) → Action S E A → Action S E A
rethrow f m s = elim ((m s).1) [
  | returned a ↦ ((m s).0, returned a)
  | raised e ↦ ((m s).0, raised (f e))
]

-- `get`, `set` and `delete`; a missing key and an empty payload are both none
pub record KeyValue (S E B : Type 0) : Type 0 where
  pub get : String → Action S E (Option B)
  pub set : String → B → Action S E Unit
  pub delete : String → Action S E Unit

-- What the code relies on in a store. A call that raises may have come through or not.
pub record IsStore {S E B : Type 0} (kv : KeyValue S E B) : Type 0 where
  -- what stands under a key
  pub view : String → S → Option B
  pub get-view : (k j : String) (s : S) → view j (kv.get k s).0 ≡ view j s
  pub get-returned :
      (k : String) (s : S) (o : Option B) → (kv.get k s).1 ≡ returned o → o ≡ view k s
  pub set-other : (k j : String) (b : B) (s : S) → k ≢ j → view j (kv.set k b s).0 ≡ view j s
  pub set-either :
      (k : String) (b : B) (s : S)
      → (view k (kv.set k b s).0 ≡ some b) ⊎ (view k (kv.set k b s).0 ≡ view k s)
  pub set-returned :
      (k : String) (b : B) (s : S) (u : Unit)
      → (kv.set k b s).1 ≡ returned u
      → view k (kv.set k b s).0 ≡ some b
  pub delete-other : (k j : String) (s : S) → k ≢ j → view j (kv.delete k s).0 ≡ view j s
  pub delete-either :
      (k : String) (s : S)
      → (view k (kv.delete k s).0 ≡ none) ⊎ (view k (kv.delete k s).0 ≡ view k s)
  pub delete-returned :
      (k : String) (s : S) (u : Unit)
      → (kv.delete k s).1 ≡ returned u
      → view k (kv.delete k s).0 ≡ none

pub Result-cases :
    {E A : Type 0} (r : Result E A) → ((a : A) × (r ≡ returned a)) ⊎ ((e : E) × (r ≡ raised e))
Result-cases (returned a) = inl (a, refl)
Result-cases (raised e) = inr (e, refl)

pub raised≢returned : {E A : Type 0} {e : E} {a : A} → raised e ≢ returned a
raised≢returned h = cc

pub returned-inj : {E A : Type 0} {a b : A} → ◌≡◌ {A = Result E A} (returned a) (returned b) → a ≡ b
returned-inj h = cc

module _ {S E A B : Type 0} (m : Action S E A) (f : A → Action S E B) (s : S) where
  pub bind-returned : {a : A} → (m s).1 ≡ returned a → (m >>= f) s ≡ f a (m s).0
  unfolding ◌>>=◌
  bind-returned e = rw (e, ◌>>=◌) refl

  pub bind-raised : {e : E} → (m s).1 ≡ raised e → (m >>= f) s ≡ ((m s).0, raised e)
  unfolding ◌>>=◌
  bind-raised e = rw (e, ◌>>=◌) refl

-- a block that returned came through its first call
pub bind-inv :
    {S E A B : Type 0} (m : Action S E A) (f : A → Action S E B) (s : S) {u : S} {v : B}
    → (m >>= f) s ≡ (u, returned v)
    → (a : A) × ((m s).1 ≡ returned a) × (f a (m s).0 ≡ (u, returned v))
bind-inv m f s h = elim (Result-cases (m s).1) [
  | inl (a, e) ↦ (a, e, sym (bind-returned m f s e) ∙ h)
  | inr (x, e) ↦ absurd (raised≢returned (ap (λ w. w.1) (sym (bind-raised m f s e) ∙ h)))
]

pub rethrow-inv :
    {S E A : Type 0} {u : S} {v : A} (g : E → E) (m : Action S E A) (s : S)
    → rethrow g m s ≡ (u, returned v)
    → m s ≡ (u, returned v)
unfolding rethrow
rethrow-inv {u = u} {v = v} g m s h = elim (Result-cases (m s).1) [
  | inl (a, e) ↦
      let back : ((m s).0, returned a) ≡ (u, returned v) = (rw (e, rethrow) at h) in
      ap (λ r. ((m s).0, r)) e ∙ back
  | inr (x, e) ↦
      let back : ((m s).0, raised (g x)) ≡ (u, returned v) = (rw (e, rethrow) at h) in
      absurd (raised≢returned (ap (λ w. w.1) back))
]
