-- ===== src/Worker/State.antt =====
-- celery/worker/state.py: the worker's registry of requests and of revoked tasks.
pub mod Registry
use mathlib.Core.Logic.{ite}
use Prim.Native.Nat.{Ordering}
use Prim.Native.String.{compare}
use celery.Prelude.{
  ℕ, ◌+◌, String, ◌==◌, string_discrete, ℕ_discrete, Bool, true, false, ◌||◌, Option, none, some,
  List, [], ◌∷◌, eqb, any, if◌then◌else◌,
}
use celery.Prelude.Dict
use celery.Prelude.Dict.{Dict}
use celery.Utils.LimitedSet
use celery.Utils.LimitedSet.{LimitedSet}

-- A `Request` object as the registry sees it: `ref` is its identity, by which the `WeakSet`s know
-- it. Requests that the garbage collector drops are not modelled.
pub record Handle : Type 0 where
  pub ref : ℕ
  pub id : String
  pub name : String

pub record State : Type 0 where
  pub requests : Dict String Handle
  pub reserved : List ℕ
  pub active : List ℕ
  pub scheduled : List ℕ
  pub successful : LimitedSet String
  pub total_count : Dict String ℕ
  pub all_total_count : ℕ
  pub revoked : LimitedSet String
  pub revoked_stamps : Dict String (List String)
  pub should_stop : Option ℕ
  pub should_terminate : Option ℕ

-- `r in s`, `s.add(r)` and `s.discard(r)` of a set of requests
unfoldable pub is_member : ℕ → List ℕ → Bool
is_member r = any (λ q. eqb q r)

unfoldable pub include : ℕ → List ℕ → List ℕ
unfolding is_member
include r s = if is_member r s then s else r ∷ s

unfoldable pub exclude : ℕ → List ℕ → List ℕ
exclude r [] = []
exclude r (q ∷ s) = let rest = exclude r s in if eqb q r then rest else q ∷ rest

-- the order of strings, which the entries of a `LimitedSet` fall back on
unfoldable pub string_lt : String → String → Bool
string_lt s t = elim (compare s t) [ Ordering.lt ↦ true | _ ↦ false ]

unfoldable pub task_reserved : Handle → State → State
task_reserved r s = record s {
  requests = Dict.put string_discrete r.id r s.requests;
  reserved = include r.ref s.reserved;
  scheduled = exclude r.ref s.scheduled;
}

unfoldable pub task_scheduled : Handle → State → State
task_scheduled r s =
    if is_member r.ref s.reserved || is_member r.ref s.active then s else record s {
      requests = Dict.put string_discrete r.id r s.requests;
      scheduled = include r.ref s.scheduled;
    }

-- `total_count.update({name: 1})` of a `Counter`
unfoldable pub count_one : String → Dict String ℕ → Dict String ℕ
count_one name d =
    Dict.put string_discrete name
      (elim (Dict.get string_discrete name d) [ some n ↦ n + 1 | none ↦ 1 ]) d

unfoldable pub task_accepted : Handle → State → State
unfolding count_one
task_accepted r s = record s {
  requests = Dict.put string_discrete r.id r s.requests;
  active = include r.ref s.active;
  total_count = count_one r.name s.total_count;
  all_total_count = s.all_total_count + 1;
}

-- `now` and `purge_now` are the clock values that `successful_requests.add` reads
unfoldable pub task_ready : Handle → Bool → ℕ → ℕ → State → State
unfolding string_lt
task_ready r was_successful now purge_now s = record s {
  successful =
      if was_successful
      then LimitedSet.add string_discrete string_lt r.id now purge_now s.successful
      else s.successful;
  requests = Dict.remove string_discrete r.id s.requests;
  active = exclude r.ref s.active;
  reserved = exclude r.ref s.reserved;
  scheduled = exclude r.ref s.scheduled;
}

-- each id comes with the clock values that its `add` reads
unfoldable pub merge_revoked : List (String × ℕ × ℕ) → State → State
unfolding string_lt
merge_revoked ids s = record s {
  revoked = LimitedSet.update_items string_discrete string_lt ids s.revoked;
}

pub data Shutdown : Type 0 where
  worker_terminate : ℕ → Shutdown
  worker_shutdown : ℕ → Shutdown

-- `some` is the exception that is raised; the flags hold exit codes, and `none` stands for `None`
-- and `False`
unfoldable pub maybe_shutdown : State → Option Shutdown
maybe_shutdown s = elim s.should_terminate [
  | some code ↦ some (worker_terminate code)
  | none ↦ elim s.should_stop [ some code ↦ some (worker_shutdown code) | none ↦ none ]
]

unfoldable pub reset_state : State → State
reset_state s = record s {
  requests = [];
  reserved = [];
  active = [];
  scheduled = [];
  successful = LimitedSet.clear s.successful;
  total_count = [];
  all_total_count = 0;
  revoked = LimitedSet.clear s.revoked;
  revoked_stamps = [];
}
