-- ===== src/Worker/Control.antt =====
-- celery/worker/control.py: the remote control command `revoke`. The result backend is a parameter,
-- and what is sent to it and to requests is a trace.
pub mod Found
pub mod Effects
pub mod Targets
use celery.Prelude.{
  ℕ, suc, ◌+◌, String, ◌==◌, string_discrete, Bool, true, false, ◌||◌, Option, none, some, List, [],
  ◌∷◌, ◌++◌, map, length, any, leb, eqb, if◌then◌else◌,
}
use celery.Prelude.Dict
use celery.Prelude.Dict.{Dict}
use celery.States.{ready_states, is_in}
use celery.Worker.State.{Handle, State, is_member, merge_revoked}

-- The backend of a request, or the application's: none in `get_state` and `false` in `can_mark` stand
-- for an `Exception`.
pub record Backend : Type 0 where
  pub get_state : Option Handle → String → Option String
  pub can_mark : Option Handle → String → Bool

pub data Effect : Type 0 where
  mark_as_revoked : String → Effect
  warning : String → Effect
  terminate_request : Handle → Effect

-- what the command answers
pub data Reply : Type 0 where
  tasks_unknown : Reply
  terminated : List String → Reply
  flagged : List String → Reply

-- `_find_requests_by_id`
unfoldable pub find_requests_by_id : List String → Dict String Handle → List Handle
find_requests_by_id [] requests = []
find_requests_by_id (id ∷ ids) requests =
    let rest = find_requests_by_id ids requests in
    elim (Dict.get string_discrete id requests) [ none ↦ rest | some r ↦ r ∷ rest ]

-- `requests_by_id`
unfoldable pub index_by_id : List Handle → Dict String Handle → Dict String Handle
index_by_id [] d = d
index_by_id (r ∷ rs) d = index_by_id rs (Dict.put string_discrete r.id r d)

-- `request and request in active_requests`
abbrev pub is_active : List ℕ → Option Handle → Bool
is_active active none = false
is_active active (some r) = is_member r.ref active

-- the body of the loop over the ids for a task that is not active
unfoldable pub mark_one : Backend → Option Handle → String → List Effect
mark_one b request id = elim (b.get_state request id) [
  | none ↦ warning id ∷ []
  | some state ↦
      if is_in state ready_states
      then []
      else if b.can_mark request id
      then mark_as_revoked id ∷ []
      else mark_as_revoked id ∷ warning id ∷ []
]

unfoldable pub mark_all : Backend → List ℕ → Dict String Handle → List String → List Effect
mark_all b active by_id [] = []
mark_all b active by_id (id ∷ ids) =
    let rest = mark_all b active by_id ids in
    let request = Dict.get string_discrete id by_id in
    if is_active active request then rest else mark_one b request id ++ rest

-- the loop that terminates; `done` are the ids of `terminated`
unfoldable pub terminate_all : ℕ → List String → List Handle → List String × List Effect
terminate_all size done [] = (done, [])
terminate_all size done (r ∷ rs) =
    let skipped = terminate_all size done rs in
    let (last, effects) = terminate_all size (r.id ∷ done) rs in
    if is_in r.id done
    then skipped
    else if leb size (suc (length done))
    then (r.id ∷ done, terminate_request r ∷ [])
    else (last, terminate_request r ∷ effects)

-- the part under `if terminate`
unfoldable pub terminate_known : List String → State → Reply × List Effect
terminate_known ids s =
    let (done, effects) = terminate_all (length ids) [] (find_requests_by_id ids s.requests) in
    ((if eqb (length done) 0 then tasks_unknown else terminated done), effects)

-- `_revoke`; each id comes with the clock values that `revoked.update` reads
unfoldable pub revoke : Backend → List (String × ℕ × ℕ) → Bool → State → State × Reply × List Effect
revoke b stamped terminating s =
    let ids = map (λ p. p.0) stamped in
    let t = merge_revoked stamped s in
    let by_id = index_by_id (find_requests_by_id ids t.requests) [] in
    let marks = mark_all b t.active by_id ids in
    let (reply, effects) = terminate_known ids t in
    if terminating then (t, reply, marks ++ effects) else (t, flagged ids, marks)
