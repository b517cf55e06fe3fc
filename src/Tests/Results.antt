-- ===== src/Tests/Results.antt =====
-- Tests of the results of tasks in a store that fails now and then (celery/backends/base.py).
use Prim.{Unit, tt}
use celery.Prelude.{
  ℕ, String, ◌==◌, eq_iff, false≢true, ◌≢◌, ◌⊎◌, sym, ◌≡◌, refl, true, false, Option, none, some,
  List, [], ◌∷◌, string_discrete,
}
use celery.Prelude.Dict.{get, put, remove}
use celery.States.{success, failure}
use celery.Backends.Keys.{
  add_global_keyprefix, get_key_for_task, get_key_for, get_key_for_group, marked_prefix,
  strip_prefix,
}
use celery.Backends.Keys.Apart.{add_global_keyprefix-AreApart, strip_prefix-get_key_for}
use celery.Backends.Calls
use celery.Backends.Calls.{Result, returned, raised}
use celery.Backends.Retry.{done, ensure_retryable, is_retryable, below_limit}
use celery.Backends.Retry.Attempts.{Tried, Concludes, ensure_retryable_lem}
use celery.Backends.Meta.{Meta, Codec, pending_meta, encode_result, decode_result, get_result_meta}
use celery.Backends.Store.{
  delete_group, save_group, forget, Setup, Cache, Backend, store_result, fetch_task_meta,
  get_task_meta,
}
use celery.Backends.Store.Session.{
  Call, storing, getting, forgetting, saving_group, deleting_group, perform_all,
}
use celery.Backends.Store.Sticky.{success_stays}
use celery.Backends.Store.Kept.{as_encoded, kept, IsRead}
use celery.Backends.Store.Written.{store_result-fetch_task_meta}
use celery.Tests.Stores.{Memory, memory, memory-IsStore, Contents}

abbrev plain : Codec String (Meta String) String
plain = record {
  encode = λ m. returned m;
  decode = λ m. returned m;
  is_exception = λ v. false;
  prepare_exception = λ v. v;
  prepare_value = λ v. v;
  exception_to_python = λ v. returned v;
  as_tuple = λ v. v;
  result_from_tuple = λ v. v;
  none_value = "None";
}

-- a cache that forgets nothing
abbrev endless : Cache Contents (Meta String)
endless = record {
  find = λ k c. (c, get string_discrete k c);
  put = put string_discrete;
  pop = remove string_discrete;
}

abbrev setup : Setup Memory Contents String (Meta String) String
setup = record {
  kv = memory;
  cache = endless;
  codec = plain;
  prefixes = add_global_keyprefix "";
  policy = record {
    always_retry = true;
    max_retries = some 2;
    safe_to_retry = λ e. e == "down";
    has_fallback = false;
    on_error = λ e s. s;
  };
  fuel = 3;
  now = λ s. "now";
  current = none;
  value_error = "ValueError";
  key_error = "KeyError";
  with_task = λ state id e. e;
}

abbrev of_task : String → String → Option String → Meta String
of_task state result date = record {
  status = some state;
  result = result;
  traceback = none;
  children = none;
  date_done = date;
  group_id = none;
  parent_id = none;
  task_id = some "a";
}

abbrev succeeded : Meta String
succeeded = of_task success "42" (some "now")

abbrev held : Backend Memory Contents
held = record {
  cache = [];
  store = record {
    dict = ("celery-task-meta-a", succeeded) ∷ [];
    faults = true ∷ false ∷ true ∷ [];
  };
}

abbrev empty : Backend Memory Contents
empty = record { cache = []; store = record { dict = []; faults = true ∷ false ∷ true ∷ [] } }

program : Unit {0}
unfolding store_result ensure_retryable Calls.◌>>=◌ get_key_for_task memory is_retryable below_limit
    Calls.lift get pending_meta Calls.rethrow Calls.pure encode_result perform_all get_key_for
    memory-IsStore add_global_keyprefix put fetch_task_meta delete_group get_key_for_group
    get_task_meta save_group forget remove string_discrete marked_prefix decode_result
    get_result_meta
program = tt

stores_after_faults : (store_result setup "a" "42" success none none empty).1 ≡ done "42"
unfolding program
stores_after_faults = refl

-- a failure of the same task that comes late, calls of other tasks and groups, and reads
abbrev later : List (Call String)
later =
    storing "a" "boom" failure none none
    ∷ forgetting "b"
    ∷ saving_group "a" "members"
    ∷ getting "a"
    ∷ deleting_group "a"
    ∷ []

late_failure_ignored : (fetch_task_meta setup "a" (perform_all setup later held)).1 ≡ done succeeded
unfolding program
late_failure_ignored = refl

held_stored : memory-IsStore.view "celery-task-meta-a" held.store ≡ some succeeded
unfolding program
held_stored = refl

b≢a : ◌≢◌ {A = String} "b" "a"
b≢a e = false≢true ((eq_iff "b" "a").1 e)

success_stays_example :
    memory-IsStore.view "celery-task-meta-a" (perform_all setup later held).store ≡ some succeeded
unfolding add_global_keyprefix marked_prefix
success_stays_example =
    success_stays setup memory-IsStore (add_global_keyprefix-AreApart "") "a" succeeded
      (λ e s k. refl) (succeeded, refl, refl) later (tt, (b≢a, (tt, (tt, (tt, tt))))) held
      held_stored

read_back :
    (fetch_task_meta setup "a" (store_result setup "a" "42" success none none empty).0).1
    ≡ done succeeded
unfolding program
read_back = refl

store_result-fetch_task_meta_example :
    ("42" ≡ as_encoded plain "42" success)
    × ((succeeded.status ≡ some success)
        ⊎ ((s : Memory) × (value : String) × IsRead plain success
              (as_encoded plain "42" success)
              value
            × (succeeded ≡ kept plain "now" none "a" value success none none)))
store_result-fetch_task_meta_example =
    store_result-fetch_task_meta setup memory-IsStore "a" "42" success none none empty "42"
      succeeded (λ s payload e. sym e) (λ e s k. refl) stores_after_faults read_back

strip_prefix-get_key_for_example :
    let p = add_global_keyprefix "prod" in
    ((k : String) × (get_key_for_task p "a1" ≡ some k) × (strip_prefix p k ≡ "a1"))
    × ((k : String) × (get_key_for_group p "a1" ≡ some k) × (strip_prefix p k ≡ "a1"))
strip_prefix-get_key_for_example = strip_prefix-get_key_for "prod" "a1" refl

-- a call that fails by the script
abbrev ping : Memory → Memory × Result String (Option (Meta String))
ping = memory.get "celery-task-meta-a"

ensure_retryable_lem_example :
    (n : ℕ) × (t : Memory) × Tried setup.policy ping n empty.store t
    × Concludes setup.policy ping 2 0 n t (ensure_retryable setup.policy ping 3 0 empty.store)
ensure_retryable_lem_example = ensure_retryable_lem setup.policy ping 2 empty.store refl

two_tries : (ensure_retryable setup.policy ping 3 0 empty.store).2 ≡ 1 ∷ []
unfolding program
two_tries = refl
