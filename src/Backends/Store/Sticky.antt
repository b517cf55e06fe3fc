-- ===== src/Backends/Store/Sticky.antt =====
-- A success that is stored is not stored over (celery/backends/base.py).
use Prim.Native.String.{◌++◌}
use celery.Prelude.{
  String, ◌≡◌, ◌∙◌, Option-cases, Bool, true, false, inl, inr, some, List, [], ◌∷◌,
}
use celery.Backends.Keys.Apart.{AreApart}
use celery.Backends.Calls.{Action, IsStore}
use celery.Backends.Store.{
  Setup, retried, Backend, store_result, get_task_meta, reload_task_result, forget, save_group,
  delete_group, get_group_meta, fetch_task_meta,
}
use celery.Backends.Store.Keeps.{Keeps, retried-keeps}
use celery.Backends.Store.Session.{
  Call, storing, getting, reloading, forgetting, saving_group, getting_group, deleting_group,
  Spares, AllSpare, perform, perform_all,
}
use celery.Backends.Store.Guard.{
  IsSuccess, HookKeeps, Stored, get_task_meta_for-Keeps, store_result_once-Keeps, forget_once-Keeps,
  save_group_once-Keeps, delete_group_once-Keeps, restore_group_once-Keeps,
}

module _ {S C E B V : Type 0} (b : Setup S C E B V) (st : IsStore b.kv)
    (apart : AreApart b.prefixes) where
  module _ (id : String) (payload : B) where
    kept :
        {A : Type 0} (has_fallback : Bool) {call : Action S E A}
        → HookKeeps b st
        → Keeps (Stored b st id payload) call
        → (x : Backend S C) → Stored b st id payload x.store
        → Stored b st id payload (retried b has_fallback call x).0.store
    kept has_fallback {call = call} hook k x i =
        retried-keeps b has_fallback call k (λ e s h. hook e s (b.prefixes.task ++ id) ∙ h) x i

    perform-keeps :
        HookKeeps b st
        → IsSuccess b payload
        → (c : Call V) → Spares id c
        → (x : Backend S C) → Stored b st id payload x.store
        → Stored b st id payload (perform b c x).store
    unfolding perform store_result forget save_group delete_group get_task_meta fetch_task_meta
        reload_task_result get_group_meta
    perform-keeps hook good (storing j r state traceback request) sp x i =
        kept true hook (store_result_once-Keeps b st id payload j _ state traceback request good) x
          i
    perform-keeps hook good (getting j) sp x i =
        let c = (b.cache.find j x.cache).0 in
        let later =
          kept true hook (get_task_meta_for-Keeps b st id payload j) (record x { cache = c }) i in
        elim (Option-cases (b.cache.find j x.cache).1) [
          | inl e ↦ rw (e, perform, get_task_meta) later
          | inr (m, e) ↦ rw (e, perform, get_task_meta) i
        ]
    perform-keeps hook good (reloading j) sp x i =
        kept true hook (get_task_meta_for-Keeps b st id payload j) x i
    perform-keeps hook good (forgetting j) sp x i =
        kept false hook (forget_once-Keeps b st id payload j sp)
          (record x { cache = b.cache.pop j x.cache }) i
    perform-keeps hook good (saving_group j r) sp x i =
        kept false hook (save_group_once-Keeps b st id payload apart j r) x i
    perform-keeps hook good (getting_group j) sp x i =
        let c = (b.cache.find j x.cache).0 in
        let later =
          kept false hook (restore_group_once-Keeps b st id payload j) (record x { cache = c }) i in
        elim (Option-cases (b.cache.find j x.cache).1) [
          | inl e ↦ rw (e, perform, get_group_meta) later
          | inr (m, e) ↦ rw (e, perform, get_group_meta) i
        ]
    perform-keeps hook good (deleting_group j) sp x i =
        kept false hook (delete_group_once-Keeps b st id payload apart j)
          (record x { cache = b.cache.pop j x.cache }) i

    -- A success that is stored of a task stays stored as it is through any calls of the backend but
    -- `forget` of that task: results and states of this task and others, groups, and reads, of which
    -- each may fail and be tried again.
    pub success_stays :
        HookKeeps b st
        → IsSuccess b payload
        → (calls : List (Call V)) → AllSpare id calls
        → (x : Backend S C) → st.view (b.prefixes.task ++ id) x.store ≡ some payload
        → st.view (b.prefixes.task ++ id) (perform_all b calls x).store ≡ some payload
    unfolding perform_all
    success_stays hook good [] sp x i = i
    success_stays hook good (c ∷ l) (first, rest) x i =
        success_stays hook good l rest (perform b c x) (perform-keeps hook good c first x i)
