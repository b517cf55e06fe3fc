-- ===== src/Backends/Store/Written.antt =====
-- What a result that was stored is read as (celery/backends/base.py, `store_result`, `get_task_meta`).
use Prim.{⊥, Unit, tt}
use Prim.Native.String.{◌++◌}
use celery.Prelude.{
  ℕ, zero, suc, String, ◌==◌, eq_iff, ◌≡◌, ap, sym, ◌∙◌, Bool-cases, Option-cases, ◌⊎◌, ◌&&◌, true,
  false, false≢true, inl, inr, Option, none, some, arith, if◌then◌else◌,
}
use mathlib.Core.Path.{subst}
use celery.States.{success}
use celery.Backends.Keys.{get_key_for_task}
use celery.Backends.Calls.{
  Result-cases, returned, Action, ◌>>=◌, IsStore, lift, pure, bind-inv, rethrow-inv,
  raised≢returned, returned-inj,
}
use celery.Backends.Retry.{done, Policy, ensure_retryable, below_limit}
use celery.Backends.Retry.Attempts.{goes_on, may_retry, step_stops, step_again, concluded-done}
use celery.Backends.Meta.{
  Meta, MetaRequest, decode_result, meta_from_decoded, encode_result, get_result_meta, pending_meta,
}
use celery.Backends.Store.{
  Setup, Backend, retried, store_result, key_or_error, read_meta, get_task_meta_for, write_meta,
  unless_success, store_result_once, fetch_task_meta,
}
use celery.Backends.Store.Guard.{HookKeeps, Stored, get_task_meta_for-Keeps}
use celery.Backends.Store.Kept.{
  as_encoded, kept, IsRead, encode_result-as_encoded, get_result_meta-kept, meta_from_decoded-kept,
}
use celery.Backends.Store.Keeps.{Keeps, at_key, no_key}

-- A call that came back, after whatever tries, did so from a state that the tries kept `I` of.
module _ {S E A : Type 0} (I : S → Type 0) (p : Policy S E) (call : Action S E A) where
  ensure_retryable-done :
      Keeps I call
      → ((e : E) (s : S) → I s → I (p.on_error e s))
      → (fuel r : ℕ) (s : S) (a : A) → I s
      → (ensure_retryable p call fuel r s).1 ≡ done a
      → (t : S) × I t × (call t ≡ ((ensure_retryable p call fuel r s).0, returned a))
  unfolding ensure_retryable
  ensure_retryable-done k hook zero r s a i h = absurd (grind arith)
  ensure_retryable-done k hook (suc fuel) r s a i h =
      elim (Bool-cases (goes_on p call (call s).1 && below_limit r p.max_retries)) [
        | inr stop ↦
            let e = step_stops p call fuel r s stop in
            let c = concluded-done p call (call s).1 a (sym (ap (λ w. w.1) e) ∙ h) in
            (s, i, ap (λ r. ((call s).0, r)) c ∙ ap (λ u. (u, returned a)) (sym (ap (λ w. w.0) e)))
        | inl on ↦ elim (Result-cases (call s).1) [
          | inl (x, e) ↦ absurd (false≢true (rw e at on))
          | inr (x, e) ↦
              let both : (may_retry p call x && below_limit r p.max_retries) ≡ true =
                (rw e at on) in
              let q = step_again p call fuel r s e (ground arith) (ground arith) in
              let (t, j, w) =
                ensure_retryable-done k hook fuel (suc r) (p.on_error x (call s).0) a
                  (hook x (call s).0 (k.keeps s i)) (sym (ap (λ w. w.1) q) ∙ h) in
              (t, j, w ∙ ap (λ u. (u, returned a)) (sym (ap (λ w. w.0) q)))
        ]
      ]

module _ {S C E B V : Type 0} (b : Setup S C E B V) where
  key-inv :
      {A : Type 0} {u : S} {v : A} (id : String) (f : String → Action S E A) (s : S)
      → (key_or_error b (get_key_for_task b.prefixes id) >>= f) s ≡ (u, returned v)
      → f (b.prefixes.task ++ id) s ≡ (u, returned v)
  unfolding get_key_for_task
  key-inv id f s h = elim (Bool-cases (id == "")) [
    | inl empty ↦
        absurd (raised≢returned (ap (λ w. w.1) (sym (no_key b b.prefixes.task id f s empty) ∙ h)))
    | inr full ↦ sym (at_key b b.prefixes.task id f s full) ∙ h
  ]

  pending≢success : (m : Meta V) → read_meta b none ≡ returned m → m.status ≡ some success → ⊥
  unfolding read_meta pending_meta
  pending≢success m h e = false≢true (
      ap (λ o. elim o [ none ↦ false | some t ↦ t == success ])
        (ap (λ n. n.status) (returned-inj h) ∙ e))

  module _ (st : IsStore b.kv) where
    get_task_meta_for-inv :
        {u : S} {m : Meta V} (id : String) (s : S)
        → get_task_meta_for b id s ≡ (u, returned m)
        → read_meta b (st.view (b.prefixes.task ++ id) u) ≡ returned m
    unfolding get_task_meta_for lift
    get_task_meta_for-inv id s h =
        let key = b.prefixes.task ++ id in
        let at = key-inv id (λ k. b.kv.get k >>= λ o. lift (read_meta b o)) s h in
        let (o, e, back) = bind-inv (b.kv.get key) (λ o. lift (read_meta b o)) s at in
        let same = st.get-returned key s o e in
        let left = ap (λ w. w.0) back in
        ap (λ t. read_meta b (st.view key t)) (sym left)
        ∙ (ap (read_meta b) (st.get-view key key s ∙ sym same) ∙ ap (λ w. w.1) back)

    write_meta-inv :
        {u : S} {v : V} (id : String) (meta : Meta V) (state : String) (r : V) (s : S)
        → write_meta b id meta state r s ≡ (u, returned v)
        → (payload : B) × (b.codec.encode meta ≡ returned payload)
          × (st.view (b.prefixes.task ++ id) u ≡ some payload)
          × (v ≡ r)
    unfolding write_meta lift pure
    write_meta-inv id meta state r s h =
        let key = b.prefixes.task ++ id in
        let write = λ (k : String) (payload : B). b.kv.set k payload >>= λ _. pure r in
        let block = λ (k : String). lift (b.codec.encode meta) >>= write k in
        let at = key-inv id block s (rethrow-inv (b.with_task state id) _ s h) in
        let (payload, e, back) = bind-inv (lift (b.codec.encode meta)) (write key) s at in
        let (o, f, last) = bind-inv (b.kv.set key payload) (λ _. pure r) s back in
        (
          payload,
          e,
          ap (λ t. st.view key t) (sym (ap (λ w. w.0) last)) ∙ st.set-returned key payload s o f,
          returned-inj (ap (λ w. w.1) (sym last)),
        )

    unless_success-inv :
        {u : S} {v : V} (status : Option String) (id : String) (meta : Meta V) (state : String)
        (r : V) (s : S)
        → unless_success b status id meta state r s ≡ (u, returned v)
        → ((status ≡ some success) × (s ≡ u) × (v ≡ r))
          ⊎ (write_meta b id meta state r s ≡ (u, returned v))
    unfolding unless_success pure
    unless_success-inv none id meta state r s h = absurd (raised≢returned (ap (λ w. w.1) h))
    unless_success-inv (some status) id meta state r s h = elim (Bool-cases (status == success)) [
      | inr differ ↦ inr (rw (differ, unless_success) at h)
      | inl same ↦
          let stop =
            (ap (λ c. (if c then pure r s else write_meta b id meta state r s)) (sym same) ∙ h) in
          inl (
            ap (λ t. some t) ((eq_iff status success).0 same),
            ap (λ w. w.0) stop,
            returned-inj (ap (λ w. w.1) (sym stop)),
          )
    ]

    -- under the key of the task there is a success, or what is made of the result
    abbrev pub Holds : String → Meta V → S → Type 0
    Holds id meta u =
        (payload : B) × (st.view (b.prefixes.task ++ id) u ≡ some payload)
        × (((m : Meta V) × (decode_result b.codec payload ≡ returned m) × (m.status ≡ some success))
            ⊎ (b.codec.encode meta ≡ returned payload))

    read_success :
        {m : Meta V} (meta : Meta V) (id : String) (u : S)
        → read_meta b (st.view (b.prefixes.task ++ id) u) ≡ returned m
        → m.status ≡ some success
        → Holds id meta u
    unfolding read_meta
    read_success {m = m} meta id u h e = elim (Option-cases (st.view (b.prefixes.task ++ id) u)) [
      | inl o ↦ absurd (pending≢success m (ap (read_meta b) (sym o) ∙ h) e)
      | inr (payload, o) ↦ (payload, o, inl (m, ap (read_meta b) (sym o) ∙ h, e))
    ]

    after_read :
        {u : S} {v : V} (m : Meta V) (id : String) (meta : Meta V) (state : String) (r : V) (s : S)
        → read_meta b (st.view (b.prefixes.task ++ id) s) ≡ returned m
        → unless_success b m.status id meta state r s ≡ (u, returned v)
        → (v ≡ r) × Holds id meta u
    after_read m id meta state r s read h = elim (unless_success-inv m.status id meta state r s h) [
      | inl (good, same, back) ↦
          (back, subst (Holds id meta) same (read_success meta id s read good))
      | inr wrote ↦
          let (payload, e, here, back) = write_meta-inv id meta state r s wrote in
          (back, (payload, here, inr e))
    ]

    -- what an attempt to store that came back leaves under the key of the task
    store_result_once-inv :
        {u : S} {v : V} (id : String) (r : V) (state : String) (traceback : Option String)
        (request : Option (MetaRequest V)) (s : S)
        → store_result_once b id r state traceback request s ≡ (u, returned v)
        → (v ≡ r)
          × Holds id
              (record (get_result_meta b.codec (b.now s) b.current r state traceback request) {
                task_id = some id;
              })
              u
    unfolding store_result_once
    store_result_once-inv id r state traceback request s h =
        let meta : Meta V =
          record (get_result_meta b.codec (b.now s) b.current r state traceback request) {
            task_id = some id;
          } in
        let t = (get_task_meta_for b id s).0 in
        let (m, e, back) =
          bind-inv (get_task_meta_for b id) (λ m. unless_success b m.status id meta state r) s h in
        after_read m id meta state r t (get_task_meta_for-inv id s (ap (λ w. (t, w)) e)) back

    decode_result-encoded :
        {m : Meta V} (meta : Meta V) (payload : B)
        → b.codec.decode payload ≡ returned meta
        → decode_result b.codec payload ≡ returned m
        → meta_from_decoded b.codec meta ≡ returned m
    unfolding decode_result
    decode_result-encoded meta payload d h = (rw (d, decode_result) at h)

    -- what a read past the cache answers
    fetched :
        (id : String) (meta : Meta V)
        → ((payload : B)
            → b.codec.encode meta ≡ returned payload
            → b.codec.decode payload ≡ returned meta)
        → HookKeeps b st
        → (y : Backend S C) → Holds id meta y.store
        → (m : Meta V) → (fetch_task_meta b id y).1 ≡ done m
        → (m.status ≡ some success) ⊎ (meta_from_decoded b.codec meta ≡ returned m)
    unfolding fetch_task_meta retried read_meta
    fetched id meta codec hook y (payload, here, what) m g =
        let key = b.prefixes.task ++ id in
        let policy = record b.policy { has_fallback = true } in
        let call = get_task_meta_for b id in
        let keeps = get_task_meta_for-Keeps b st id payload id in
        let (t, same, w) =
          ensure_retryable-done (Stored b st id payload) policy call keeps
            (λ e s i. hook e s key ∙ i) b.fuel 0 y.store m here g in
        let there = ap (λ s. st.view key s) (sym (ap (λ w. w.0) w)) ∙ keeps.keeps t same in
        let read = ap (read_meta b) (sym there) ∙ get_task_meta_for-inv id t w in
        elim what [
          | inl (n, d, good) ↦ inl (ap (λ k. k.status) (returned-inj (sym read ∙ d)) ∙ good)
          | inr e ↦ inr (decode_result-encoded meta payload (codec payload e) read)
        ]

    -- Where `store_result` comes back, after whatever tries, it answers the encoded result, and where the
    -- store is then read, past the cache, and answers, that is a success or what `kept` says of this
    -- result, at some time: its state, its traceback, the children, the date of a final state, the
    -- group, the parent and the id, with the encoded result, which is turned to an exception again in
    -- an error state. The serialiser is one that gives back the meta data of this result, and the hook
    -- between two tries leaves the store as it is.
    pub store_result-fetch_task_meta :
        (id : String) (r : V) (state : String) (traceback : Option String)
        (request : Option (MetaRequest V)) (x : Backend S C) (v : V) (m : Meta V)
        → let encoded = as_encoded b.codec r state in
          let meta_of = λ (s : S) (value : V).
            kept b.codec (b.now s) b.current id value state traceback request in
          ((s : S) (payload : B)
            → b.codec.encode (meta_of s encoded) ≡ returned payload
            → b.codec.decode payload ≡ returned (meta_of s encoded))
          → HookKeeps b st
          → (store_result b id r state traceback request x).1 ≡ done v
          → (fetch_task_meta b id (store_result b id r state traceback request x).0).1 ≡ done m
          → (v ≡ encoded)
            × ((m.status ≡ some success)
                ⊎ ((s : S) × (value : V) × IsRead b.codec state encoded value
                    × (m ≡ meta_of s value)))
    unfolding store_result retried
    store_result-fetch_task_meta id r state traceback request x v m codec hook h g =
        let stored = encode_result b.codec r state in
        let encoded = as_encoded b.codec r state in
        let same = encode_result-as_encoded b.codec r state in
        let policy = record b.policy { has_fallback = true } in
        let call = store_result_once b id stored state traceback request in
        let (s, _, q) =
          ensure_retryable-done (λ _. Unit {0}) policy call (record { keeps = λ s i. tt })
            (λ e s i. tt) b.fuel 0 x.store v tt h in
        let (back, holds) = store_result_once-inv id stored state traceback request s q in
        let meta_of =
          λ (value : V). kept b.codec (b.now s) b.current id value state traceback request in
        let spelled =
          get_result_meta-kept b.codec (b.now s) b.current id stored state traceback request
          ∙ ap meta_of same in
        let y = (store_result b id r state traceback request x).0 in
        let held = subst (λ n. Holds id n y.store) spelled holds in
        (
          back ∙ same,
          elim (fetched id (meta_of encoded) (codec s) hook y held m g) [
            | inl good ↦ inl good
            | inr read ↦
                let (value, how, is) =
                  meta_from_decoded-kept b.codec (b.now s) b.current id encoded state traceback
                    request m read in
                inr (s, value, how, is)
          ],
        )
