-- ===== src/Backends/Store.antt =====
-- celery/backends/base.py: the results of tasks and groups in a store of keys and values
-- (`BaseKeyValueStoreBackend`), behind the retries and the cache of `Backend`. The store, the cache of
-- kombu, the serialiser and the clock are parameters.
pub mod Session
pub mod Keeps
pub mod Kept
pub mod Guard
pub mod Written
pub mod Sticky
use Prim.{Unit}
use celery.Prelude.{
  ℕ, String, ◌==◌, ◌≡◌, ◌⊎◌, ◌&&◌, not, Bool, true, false, Option, none, some, if◌then◌else◌,
}
use celery.Prelude.Dict.{is_some}
use celery.States.{success, pending}
use celery.Backends.Keys.{Prefixes, get_key_for_task, get_key_for_group}
use celery.Backends.Calls.{Result, returned, raised, Action, pure, lift, ◌>>=◌, rethrow, KeyValue}
use celery.Backends.Retry.{Outcome, done, error, fallback, out_of_fuel, Policy, ensure_retryable}
use celery.Backends.Meta.{
  Meta, MetaRequest, Codec, encode_result, get_result_meta, decode_result, pending_meta, group_meta,
}

-- `kombu.utils.functional.LRUCache`, where a look-up counts as a use
pub record Cache (C M : Type 0) : Type 0 where
  pub find : String → C → C × Option M
  pub put : String → M → C → C
  pub pop : String → C → C

-- what a backend is built of
pub record Setup (S C E B V : Type 0) : Type 0 where
  pub kv : KeyValue S E B
  pub cache : Cache C (Meta V)
  pub codec : Codec E B V
  pub prefixes : Prefixes
  pub policy : Policy S E
  -- of the loop of retries
  pub fuel : ℕ
  -- `app.now().isoformat()`
  pub now : S → String
  -- the request of the task that runs now
  pub current : Option (MetaRequest V)
  pub value_error : E
  pub key_error : E
  -- a `BackendStoreError` with the state and the id put in, any other exception as it is
  pub with_task : String → String → E → E

pub record Backend (S C : Type 0) : Type 0 where
  pub cache : C
  pub store : S

module _ {S C E B V : Type 0} (b : Setup S C E B V) where
  -- a key, or the `ValueError` of an empty id
  abbrev pub key_or_error : Option String → Action S E String
  key_or_error none s = (s, raised b.value_error)
  key_or_error (some k) s = (s, returned k)

  -- what is made of what the store has of a task
  unfoldable pub read_meta : Option B → Result E (Meta V)
  read_meta none = returned (pending_meta b.codec)
  read_meta (some payload) = decode_result b.codec payload

  unfoldable pub get_task_meta_for : String → Action S E (Meta V)
  unfolding read_meta
  get_task_meta_for task_id = do
    key ← key_or_error (get_key_for_task b.prefixes task_id)
    meta ← b.kv.get key
    lift (read_meta meta)

  -- the write of `_store_result`
  unfoldable pub write_meta : String → Meta V → String → V → Action S E V
  write_meta task_id meta state result = rethrow (b.with_task state task_id) (do
    key ← key_or_error (get_key_for_task b.prefixes task_id)
    payload ← lift (b.codec.encode meta)
    written ← b.kv.set key payload
    pure result)

  -- `current_meta['status']`, then the write unless that is SUCCESS
  unfoldable pub unless_success : Option String → String → Meta V → String → V → Action S E V
  unfolding write_meta
  unless_success none task_id meta state result s = (s, raised b.key_error)
  unless_success (some status) task_id meta state result s =
      if status == success then pure result s else write_meta task_id meta state result s

  -- `_store_result`
  unfoldable pub store_result_once :
      String → V → String → Option String → Option (MetaRequest V) → Action S E V
  unfolding get_task_meta_for unless_success
  store_result_once task_id result state traceback request s =
      let before = get_result_meta b.codec (b.now s) b.current result state traceback request in
      let meta = record before { task_id = some task_id } in
      (get_task_meta_for task_id >>= λ current_meta.
      unless_success current_meta.status task_id meta state result)
        s

  -- `_forget`
  unfoldable pub forget_once : String → Action S E Unit
  forget_once task_id = do key ← key_or_error (get_key_for_task b.prefixes task_id); b.kv.delete key

  -- `_save_group`
  unfoldable pub save_group_once : String → V → Action S E V
  save_group_once group_id result = do
    key ← key_or_error (get_key_for_group b.prefixes group_id)
    payload ← lift (b.codec.encode (group_meta b.codec result))
    written ← b.kv.set key payload
    pure result

  -- `_delete_group`
  unfoldable pub delete_group_once : String → Action S E Unit
  delete_group_once group_id = do
    key ← key_or_error (get_key_for_group b.prefixes group_id)
    b.kv.delete key

  -- what is made of what the store has of a group
  unfoldable pub read_group : Option B → Result E (Option (Meta V))
  read_group none = returned none
  read_group (some payload) = elim (b.codec.decode payload) [
    | returned meta ↦
        returned (some (record meta { result = b.codec.result_from_tuple meta.result }))
    | raised e ↦ raised e
  ]

  unfoldable pub restore_group_once : String → Action S E (Option (Meta V))
  unfolding read_group
  restore_group_once group_id = do
    key ← key_or_error (get_key_for_group b.prefixes group_id)
    meta ← b.kv.get key
    lift (read_group meta)

  -- A call of the store that is tried again, which leaves the cache alone. The test says whether there
  -- is a `fallback_exc`.
  unfoldable pub retried :
      {A : Type 0} → Bool → Action S E A → Backend S C → Backend S C × Outcome E A
  retried has_fallback call x =
      let policy = record b.policy { has_fallback = has_fallback } in
      let run = ensure_retryable policy call b.fuel 0 x.store in (record x { store = run.0 }, run.1)

  -- `store_result`, with what is stored of an exception or a result as the answer
  unfoldable pub store_result :
      String
      → V
      → String
      → Option String
      → Option (MetaRequest V)
      → Backend S C
      → Backend S C × Outcome E V
  unfolding store_result_once retried
  store_result task_id result state traceback request x =
      let encoded = encode_result b.codec result state in
      retried true (store_result_once task_id encoded state traceback request) x

  unfoldable pub forget : String → Backend S C → Backend S C × Outcome E Unit
  unfolding forget_once retried
  forget task_id x =
      retried false (forget_once task_id) (record x { cache = b.cache.pop task_id x.cache })

  unfoldable pub save_group : String → V → Backend S C → Backend S C × Outcome E V
  unfolding save_group_once retried
  save_group group_id result x = retried false (save_group_once group_id result) x

  unfoldable pub delete_group : String → Backend S C → Backend S C × Outcome E Unit
  unfolding delete_group_once retried
  delete_group group_id x =
      retried false (delete_group_once group_id) (record x { cache = b.cache.pop group_id x.cache })

  -- `if cache and meta.get('status') == states.SUCCESS: self._cache[task_id] = meta`
  unfoldable pub keep_success : String → Outcome E (Meta V) → C → C
  keep_success task_id (done meta) c = elim meta.status [
    | none ↦ c
    | some status ↦ if status == success then b.cache.put task_id meta c else c
  ]
  keep_success task_id (error e) c = c
  keep_success task_id fallback c = c
  keep_success task_id out_of_fuel c = c

  -- `get_task_meta(cache=False)`
  unfoldable pub fetch_task_meta : String → Backend S C → Backend S C × Outcome E (Meta V)
  unfolding get_task_meta_for retried
  fetch_task_meta task_id x = retried true (get_task_meta_for task_id) x

  unfoldable pub get_task_meta : String → Backend S C → Backend S C × Outcome E (Meta V)
  unfolding fetch_task_meta keep_success
  get_task_meta task_id x =
      let (c, found) = b.cache.find task_id x.cache in
      let (y, meta) = fetch_task_meta task_id (record x { cache = c }) in
      elim found [
        | some m ↦ (record x { cache = c }, done m)
        | none ↦ (record y { cache = keep_success task_id meta y.cache }, meta)
      ]

  -- `self._cache[…] = …` of what a call answers
  unfoldable pub keep_answer : String → Outcome E (Meta V) → C → C
  keep_answer id (done meta) c = b.cache.put id meta c
  keep_answer id (error e) c = c
  keep_answer id fallback c = c
  keep_answer id out_of_fuel c = c

  unfoldable pub reload_task_result : String → Backend S C → Backend S C × Outcome E (Meta V)
  unfolding fetch_task_meta keep_answer
  reload_task_result task_id x =
      let (y, meta) = fetch_task_meta task_id x in
      (record y { cache = keep_answer task_id meta y.cache }, meta)

  -- `if cache and meta is not None: self._cache[group_id] = meta`
  unfoldable pub keep_group : String → Outcome E (Option (Meta V)) → C → C
  keep_group group_id (done none) c = c
  keep_group group_id (done (some meta)) c = b.cache.put group_id meta c
  keep_group group_id (error e) c = c
  keep_group group_id fallback c = c
  keep_group group_id out_of_fuel c = c

  -- Tasks and groups are in the same cache.
  unfoldable pub get_group_meta : String → Backend S C → Backend S C × Outcome E (Option (Meta V))
  unfolding restore_group_once retried keep_group
  get_group_meta group_id x =
      let (c, found) = b.cache.find group_id x.cache in
      let (y, meta) = retried false (restore_group_once group_id) (record x { cache = c }) in
      elim found [
        | some m ↦ (record x { cache = c }, done (some m))
        | none ↦ (record y { cache = keep_group group_id meta y.cache }, meta)
      ]

  -- the override for stores of keys and values, which asks for the key alone
  unfoldable pub task_result_exists : String → Action S E Bool
  task_result_exists task_id = do
    key ← key_or_error (get_key_for_task b.prefixes task_id)
    meta ← b.kv.get key
    pure (is_some meta)
