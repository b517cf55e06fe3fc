-- ===== src/Events/Task/Merge.antt =====
-- How events are merged, in order or out of order (celery/events/state.py, `Task.event`).
use mathlib.Core.Logic.{if_neg, ∥∥₁_elim}
use native.Mathlib.Nat.{ℕ_set}
use mathlib.Core.List.{Permᴰ, Perm}
use celery.Prelude.{
  ℕ, min, String, ◌==◌, eq_iff, string_discrete, ◌≡◌, refl, sym, ◌∙◌, ap, Bool-cases, true, false,
  false≢true, ◌⊎◌, inl, inr, none, some, List, [], ◌∷◌, if◌then◌else◌, arith, All,
}
use celery.Prelude.Dict
use celery.States
use celery.States.{precedence, is_in}
use celery.States.Order.{IsCustom, same_precedence}
use celery.Events.Task.{
  Value, str, Attrs, task_event_to_state, received_fields, keep_only, state_name, state,
  happens_before, merged, stamped, event_state, event,
}

state-stamped :
    (type : String) (ts : Value) (attrs : Attrs) → state (stamped type ts attrs) ≡ state attrs
unfolding state stamped
state-stamped type ts attrs = elim (string_discrete type "state") [
  | yes p ↦
      let e : task_event_to_state type ≡ none =
        ap task_event_to_state p ∙ (unfold task_event_to_state Dict.get string_discrete in refl) in
      rw (e, stamped)
  | no p ↦ ground (arith, Dict.get-put string_discrete type "state" ts attrs)
]

-- writing fields that bring no `state` keeps the state
state-update :
    (attrs fields : Attrs)
    → Dict.has string_discrete "state" fields ≡ false
    → state (Dict.update string_discrete attrs fields) ≡ state attrs
unfolding state
state-update attrs fields h =
    ap state_name (Dict.get-update_absent string_discrete "state" attrs fields h)

has-keep_only :
    (keep : List String) (k : String) (fields : Attrs)
    → Dict.has string_discrete k fields ≡ false
    → Dict.has string_discrete k (keep_only keep fields) ≡ false
unfolding keep_only Dict.has Dict.get
has-keep_only keep k [] h = refl
has-keep_only keep k ((j, v) ∷ fields) h = ground (arith, has-keep_only keep k fields)

-- The state after an event whose fields bring no `state`: the task's own, where that of the event
-- is before it, and otherwise that of the event.
state-event :
    (upper : String → String) (type : String) (ts : Value) (fields attrs : Attrs)
    → Dict.has string_discrete "state" fields ≡ false
    → state (event upper type ts fields attrs) ≡ (
        if happens_before (event_state upper type) (state attrs)
        then state attrs
        else event_state upper type)
unfolding event merged state
state-event upper type ts fields attrs h =
    let t = stamped type ts attrs in
    let new = event_state upper type in
    rw (← state-stamped type ts attrs) (elim (Bool-cases (happens_before new (state t))) [
      | inl b ↦ elim (Bool-cases (new == States.received)) [
        | inl c ↦ rw (b, c) (state-update t _ (has-keep_only received_fields "state" fields h))
        | inr c ↦ rw (b, c) (state-update t fields h)
      ]
      | inr b ↦ rw b (written t new)
    ])
  where
    written :
        (t : Attrs) (new : String)
        → state (
            Dict.update string_discrete t (
              Dict.put string_discrete "timestamp" ts
                (Dict.put string_discrete "state" (str new) fields)))
          ≡ new
    written t new = ap state_name (
        Dict.get-update-put_ne string_discrete "state" "timestamp" ts t
          (Dict.put string_discrete "state" (str new) fields)
          (λ p. false≢true ((eq_iff "timestamp" "state").1 p))
        ∙ Dict.get-update-put_self string_discrete "state" (str new) t fields h)

-- an event as the monitor receives it
pub record Received : Type 0 where
  pub type : String
  pub timestamp : Value
  pub fields : Attrs

module _ (upper : String → String) where
  unfoldable pub apply_all : List Received → Attrs → Attrs
  apply_all [] attrs = attrs
  apply_all (e ∷ es) attrs = apply_all es (event upper e.type e.timestamp e.fields attrs)

  -- an event that is no retry, and whose fields bring no `state`
  pub record IsPlain (e : Received) : Type 0 where
    pub no_retry : (event_state upper e.type == States.retry) ≡ false
    pub no_state : Dict.has string_discrete "state" e.fields ≡ false

  -- the least precedence index of a state and of the events
  unfoldable pub best : List Received → ℕ → ℕ
  best [] n = n
  best (e ∷ es) n = best es (min n (precedence (event_state upper e.type)))

  plain_step :
      (e : Received) (attrs : Attrs)
      → IsPlain e
      → (state attrs == States.retry) ≡ false
      → (precedence (state (event upper e.type e.timestamp e.fields attrs))
          ≡ min (precedence (state attrs)) (precedence (event_state upper e.type)))
        × ((state (event upper e.type e.timestamp e.fields attrs) == States.retry) ≡ false)
  unfolding happens_before
  plain_step e attrs p q =
      rw (state-event upper e.type e.timestamp e.fields attrs p.no_state)
        (ground (arith, p.no_retry))

  -- Where the task is not in RETRY, and no event is a retry or brings a `state`, the state after a run
  -- of events is of the least precedence index among the task's own and those of the events.
  pub precedence-apply_all :
      (es : List Received) (attrs : Attrs)
      → All IsPlain es
      → (state attrs == States.retry) ≡ false
      → precedence (state (apply_all es attrs)) ≡ best es (precedence (state attrs))
  unfolding apply_all best
  precedence-apply_all [] attrs a q = refl
  precedence-apply_all (e ∷ es) attrs a q =
      let (p, r) = plain_step e attrs a.0 q in precedence-apply_all es _ a.1 r ∙ ap (best es) p

  best-perm : {es fs : List Received} (n : ℕ) → Permᴰ es fs → best es n ≡ best fs n
  unfolding best
  best-perm n Permᴰ.nil = refl
  best-perm n (Permᴰ.cons {a = e} {b = f} {l₂ = l} p r) =
      best-perm (min n (precedence (event_state upper e.type))) r
      ∙ ap (λ (x : Received). best l (min n (precedence (event_state upper x.type)))) p
  best-perm n (Permᴰ.swap {l = l} p q) =
      let rank = λ (x : Received). precedence (event_state upper x.type) in
      ap (best l) (omega (arith, ap rank p, ap rank q))
  best-perm n (Permᴰ.trans r r') = best-perm n r ∙ best-perm n r'

  -- Two runs of the same events in different orders, none a retry and none bringing a `state`, leave
  -- a task that is not in RETRY in the same state, or in two custom states.
  pub state_any_order :
      (es fs : List Received) (attrs : Attrs)
      → Perm es fs
      → All IsPlain es
      → All IsPlain fs
      → (state attrs == States.retry) ≡ false
      → (state (apply_all es attrs) ≡ state (apply_all fs attrs))
        ⊎ (IsCustom (state (apply_all es attrs)) × IsCustom (state (apply_all fs attrs)))
  state_any_order es fs attrs r a b q = same_precedence _ _ (
      precedence-apply_all es attrs a q
      ∙ ∥∥₁_elim r (ℕ_set _ _) (best-perm (precedence (state attrs)))
      ∙ sym (precedence-apply_all fs attrs b q))

get-keep_only_absent :
    (keep : List String) (k : String) (fields : Attrs)
    → is_in k keep ≡ false
    → Dict.has string_discrete k (keep_only keep fields) ≡ false
unfolding keep_only Dict.has Dict.get
get-keep_only_absent keep k [] h = refl
get-keep_only_absent keep k ((j, v) ∷ fields) h = elim (string_discrete j k) [
  | yes p ↦ rw (p, h) (get-keep_only_absent keep k fields h)
  | no p ↦ ground (arith, get-keep_only_absent keep k fields h)
]

merged_late :
    (ts : Value) (fields attrs : Attrs)
    → happens_before States.received (state attrs) ≡ true
    → merged States.received ts fields attrs ≡ keep_only received_fields fields
unfolding merged
merged_late ts fields attrs h = rw h

event-received :
    (upper : String → String) (ts : Value) (fields attrs : Attrs)
    → event upper "received" ts fields attrs
      ≡ Dict.update string_discrete
          (stamped "received" ts attrs)
          (merged States.received ts fields (stamped "received" ts attrs))
unfolding event string_discrete Dict.get
event-received upper ts fields attrs = refl

stamped_received :
    (ts : Value) (attrs : Attrs)
    → stamped "received" ts attrs ≡ Dict.put string_discrete "received" ts attrs
unfolding stamped string_discrete Dict.get
stamped_received ts attrs = refl

get-stamped_received :
    (ts : Value) (attrs : Attrs) (k : String)
    → ("received" == k) ≡ false
    → Dict.get string_discrete k (stamped "received" ts attrs) ≡ Dict.get string_discrete k attrs
get-stamped_received ts attrs k h =
    ap (Dict.get string_discrete k) (stamped_received ts attrs)
    ∙ Dict.get-put string_discrete "received" k ts attrs
    ∙ if_neg (string_discrete "received" k) (λ p. false≢true (sym h ∙ (eq_iff "received" k).1 p))
        (some ts) (Dict.get string_discrete k attrs)

-- A `task-received` event that comes when RECEIVED happens before the state of the task leaves every
-- attribute as it was that is none of the fields merged for RECEIVED and not `received`.
pub late_received :
    (upper : String → String) (ts : Value) (fields attrs : Attrs) (k : String)
    → happens_before States.received (state attrs) ≡ true
    → is_in k received_fields ≡ false
    → ("received" == k) ≡ false
    → Dict.get string_discrete k (event upper "received" ts fields attrs)
      ≡ Dict.get string_discrete k attrs
late_received upper ts fields attrs k late out other =
    let t = stamped "received" ts attrs in
    rw (event-received upper ts fields attrs, merged_late ts fields t (rw state-stamped late))
      (Dict.get-update_absent string_discrete k t (keep_only received_fields fields)
          (get-keep_only_absent received_fields k fields out)
        ∙ get-stamped_received ts attrs k other)
