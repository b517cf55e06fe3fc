-- ===== src/Backends/Store/Guard.antt =====
-- What stands in the store of a task that succeeded is left by each call of the store
-- (celery/backends/base.py, `_store_result` and the calls beside it).
use Prim.Native.String.{◌++◌}
use celery.Prelude.{
  String, ◌==◌, ◌≡◌, ◌≢◌, ap, sym, ◌∙◌, Bool-cases, ◌⊎◌, inl, inr, Option, none, some,
}
use text.Mathlib.TextLemmas.{append_cancel_left}
use mathlib.Core.Path.{subst}
use celery.Prelude.{string_discrete}
use celery.States.{success}
use celery.Backends.Keys.{get_key_for_task, get_key_for_group}
use celery.Backends.Keys.Apart.{AreApart}
use celery.Backends.Calls.{
  bind-returned, bind-raised, Result-cases, returned, raised, ◌>>=◌, IsStore, lift, pure,
}
use celery.Backends.Meta.{Meta, MetaRequest, decode_result, meta_from_decoded, one_of}
use celery.Backends.Store.{
  Setup, read_meta, get_task_meta_for, write_meta, unless_success, store_result_once, forget_once,
  save_group_once, delete_group_once, restore_group_once,
}
use celery.Backends.Store.Keeps.{Keeps, Keeps-bind, keeps_rules, Keeps-key, at_key, no_key}

module _ {S C E B V : Type 0} (b : Setup S C E B V) where
  -- a payload of a success
  abbrev pub IsSuccess : B → Type 0
  IsSuccess payload =
      (meta : Meta V) × (b.codec.decode payload ≡ returned meta) × (meta.status ≡ some success)

  pub decode_result-success :
      (payload : B) (meta : Meta V)
      → b.codec.decode payload ≡ returned meta
      → meta.status ≡ some success
      → decode_result b.codec payload ≡ returned meta
  unfolding decode_result meta_from_decoded one_of
  decode_result-success payload meta d e = simp (d, decode_result, e, meta_from_decoded)

  module _ (st : IsStore b.kv) where
    -- what is needed of `on_backend_retryable_error`
    abbrev pub HookKeeps : Type 0
    HookKeeps = (e : E) (s : S) (k : String) → st.view k (b.policy.on_error e s) ≡ st.view k s

    module _ (id : String) (payload : B) where
      -- what is stored of the task
      abbrev pub Stored : S → Type 0
      Stored s = st.view (b.prefixes.task ++ id) s ≡ some payload

      Keeps-get : (k : String) → Keeps Stored (b.kv.get k)
      Keeps-get k = record { keeps = λ s i. st.get-view k (b.prefixes.task ++ id) s ∙ i }

      Keeps-set : (k : String) (v : B) → k ≢ b.prefixes.task ++ id → Keeps Stored (b.kv.set k v)
      Keeps-set k v ne = record { keeps = λ s i. st.set-other k (b.prefixes.task ++ id) v s ne ∙ i }

      Keeps-delete : (k : String) → k ≢ b.prefixes.task ++ id → Keeps Stored (b.kv.delete k)
      Keeps-delete k ne = record {
        keeps = λ s i. st.delete-other k (b.prefixes.task ++ id) s ne ∙ i;
      }

      other_task : (j : String) → j ≢ id → b.prefixes.task ++ j ≢ b.prefixes.task ++ id
      other_task j ne e = ne (append_cancel_left b.prefixes.task j id e)

      pub get_task_meta_for-Keeps : (j : String) → Keeps Stored (get_task_meta_for b j)
      unfolding get_task_meta_for get_key_for_task
      get_task_meta_for-Keeps j = search (keeps_rules, Keeps-key, Keeps-get)

      write_meta-Keeps :
          (j : String) (meta : Meta V) (state : String) (r : V)
          → j ≢ id
          → Keeps Stored (write_meta b j meta state r)
      unfolding write_meta get_key_for_task
      write_meta-Keeps j meta state r ne =
          search (keeps_rules, Keeps-key, Keeps-set, other_task) depth 9

      unless_success-Keeps :
          (status : Option String) (j : String) (meta : Meta V) (state : String) (r : V)
          → j ≢ id
          → Keeps Stored (unless_success b status j meta state r)
      unfolding unless_success pure
      unless_success-Keeps none j meta state r ne = record { keeps = λ s i. i }
      unless_success-Keeps (some status) j meta state r ne = record {
        keeps = λ s i. elim (Bool-cases (status == success)) [
          | inl same ↦ rw same i
          | inr differ ↦ rw differ ((write_meta-Keeps j meta state r ne).keeps s i)
        ];
      }

      pub forget_once-Keeps : (j : String) → j ≢ id → Keeps Stored (forget_once b j)
      unfolding forget_once get_key_for_task
      forget_once-Keeps j ne = search (keeps_rules, Keeps-key, Keeps-delete, other_task)

      pub restore_group_once-Keeps : (j : String) → Keeps Stored (restore_group_once b j)
      unfolding restore_group_once get_key_for_group
      restore_group_once-Keeps j = search (keeps_rules, Keeps-key, Keeps-get)

      -- what is read of the task
      reads_success :
          (s : S)
          → Stored s
          → IsSuccess payload
          → ((m : Meta V) × (m.status ≡ some success) × ((get_task_meta_for b id s).1 ≡ returned m))
            ⊎ ((x : E) × ((get_task_meta_for b id s).1 ≡ raised x))
      unfolding get_task_meta_for get_key_for_task lift read_meta
      reads_success s i (m, d, f) =
          let key = b.prefixes.task ++ id in
          let call = λ (k : String). b.kv.get k >>= λ o. lift (read_meta b o) in
          elim (Bool-cases (id == "")) [
            | inl empty ↦
                inr (b.value_error, ap (λ w. w.1) (no_key b b.prefixes.task id call s empty))
            | inr full ↦
                let here = at_key b b.prefixes.task id call s full in
                elim (Result-cases (b.kv.get key s).1) [
                  | inr (x, e) ↦ inr (
                    x,
                    ap (λ w. w.1)
                        (here ∙ bind-raised (b.kv.get key) (λ o. lift (read_meta b o)) s e),
                  )
                  | inl (o, e) ↦
                      let same : o ≡ some payload = st.get-returned key s o e ∙ i in
                      inl (
                        m,
                        f,
                        ap (λ w. w.1)
                              (here ∙ bind-returned (b.kv.get key) (λ o. lift (read_meta b o)) s e)
                            ∙ (ap (read_meta b) same ∙ decode_result-success payload m d f),
                      )
                ]
          ]

      -- a store of the task reads the success, and leaves it
      store_same :
          (r : V) (state : String) (traceback : Option String) (request : Option (MetaRequest V))
          → IsSuccess payload
          → Keeps Stored (store_result_once b id r state traceback request)
      unfolding store_result_once unless_success pure
      store_same r state traceback request good = record {
        keeps = λ s i.
            let here = (get_task_meta_for-Keeps id).keeps s i in
            elim (reads_success s i good) [
              | inl (m, f, e) ↦ rw (bind-returned (get_task_meta_for b id) _ s e, f) here
              | inr (x, e) ↦ rw (bind-raised (get_task_meta_for b id) _ s e) here
            ];
      }

      pub store_result_once-Keeps :
          (j : String) (r : V) (state : String) (traceback : Option String)
          (request : Option (MetaRequest V))
          → IsSuccess payload
          → Keeps Stored (store_result_once b j r state traceback request)
      unfolding store_result_once ◌>>=◌
      store_result_once-Keeps j r state traceback request good = elim (string_discrete j id) [
        | yes e ↦
            subst (λ j. Keeps Stored (store_result_once b j r state traceback request)) (sym e)
              (store_same r state traceback request good)
        | no ne ↦ record {
          keeps = λ s i.
              (Keeps-bind (get_task_meta_for b j) _ (get_task_meta_for-Keeps j)
                  (λ m. unless_success-Keeps m.status j _ state r ne)).keeps
                s i;
        }
      ]

      module _ (apart : AreApart b.prefixes) where
        group_apart : (j : String) → b.prefixes.group ++ j ≢ b.prefixes.task ++ id
        group_apart j e = apart.task_group id j (sym e)

        pub save_group_once-Keeps : (j : String) (r : V) → Keeps Stored (save_group_once b j r)
        unfolding save_group_once get_key_for_group
        save_group_once-Keeps j r = search (keeps_rules, Keeps-key, Keeps-set, group_apart)

        pub delete_group_once-Keeps : (j : String) → Keeps Stored (delete_group_once b j)
        unfolding delete_group_once get_key_for_group
        delete_group_once-Keeps j = search (keeps_rules, Keeps-key, Keeps-delete, group_apart)
