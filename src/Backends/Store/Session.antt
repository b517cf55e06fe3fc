-- ===== src/Backends/Store/Session.antt =====
-- The calls that are made of a backend (celery/backends/base.py).
use Prim.{Unit}
use celery.Prelude.{String, ◌≢◌, Option, List, [], ◌∷◌}
use celery.Backends.Meta.{MetaRequest}
use celery.Backends.Store.{
  Setup, Backend, store_result, get_task_meta, reload_task_result, forget, save_group, delete_group,
  get_group_meta,
}

-- the calls of a backend
pub data Call (V : Type 0) : Type 0 where
  storing : String → V → String → Option String → Option (MetaRequest V) → Call V
  getting : String → Call V
  reloading : String → Call V
  forgetting : String → Call V
  saving_group : String → V → Call V
  getting_group : String → Call V
  deleting_group : String → Call V

-- the calls but `forget` of the task
abbrev pub Spares : {V : Type 0} → String → Call V → Type 0
Spares id (forgetting other) = other ≢ id
Spares id (storing other result state traceback request) = Unit
Spares id (getting other) = Unit
Spares id (reloading other) = Unit
Spares id (saving_group group result) = Unit
Spares id (getting_group group) = Unit
Spares id (deleting_group group) = Unit

abbrev pub AllSpare : {V : Type 0} → String → List (Call V) → Type 0
AllSpare id [] = Unit
AllSpare id (c ∷ l) = Spares id c × AllSpare id l

module _ {S C E B V : Type 0} (b : Setup S C E B V) where
  unfoldable pub perform : Call V → Backend S C → Backend S C
  perform (storing id result state traceback request) x =
      (store_result b id result state traceback request x).0
  perform (getting id) x = (get_task_meta b id x).0
  perform (reloading id) x = (reload_task_result b id x).0
  perform (forgetting id) x = (forget b id x).0
  perform (saving_group id result) x = (save_group b id result x).0
  perform (getting_group id) x = (get_group_meta b id x).0
  perform (deleting_group id) x = (delete_group b id x).0

  unfoldable pub perform_all : List (Call V) → Backend S C → Backend S C
  unfolding perform
  perform_all [] x = x
  perform_all (c ∷ l) x = perform_all l (perform c x)
