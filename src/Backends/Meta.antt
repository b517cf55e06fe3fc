-- ===== src/Backends/Meta.antt =====
-- celery/backends/base.py: the meta data that a result is stored as (`encode_result`,
-- `_get_result_meta`, `meta_from_decoded`, `decode_result`, `current_task_children`), without the
-- further fields of `result_extended`.
use celery.Prelude.{String, ◌==◌, Bool, ◌&&◌, Option, none, some, List, map, any, if◌then◌else◌}
use celery.Backends.Calls.{Result, returned, raised}
use celery.States.{pending, ready_states, exception_states}

-- The dictionaries that the store holds of tasks and of groups; those of groups have a result alone.
pub record Meta (V : Type 0) : Type 0 where
  pub status : Option String
  pub result : V
  pub traceback : Option String
  pub children : Option (List V)
  pub date_done : Option String
  pub group_id : Option String
  pub parent_id : Option String
  pub task_id : Option String

-- what is read of a request
pub record MetaRequest (V : Type 0) : Type 0 where
  pub group : Option String
  pub parent_id : Option String
  pub children : List V

-- The serialiser, and the turning of Python's objects into values that it takes. Payloads are of type
-- `B`, values of type `V`.
pub record Codec (E B V : Type 0) : Type 0 where
  pub encode : Meta V → Result E B
  pub decode : B → Result E (Meta V)
  pub is_exception : V → Bool
  pub prepare_exception : V → V
  pub prepare_value : V → V
  pub exception_to_python : V → Result E V
  pub as_tuple : V → V
  pub result_from_tuple : V → V
  pub none_value : V

-- `state in …`
unfoldable pub one_of : String → List String → Bool
one_of s l = any (λ t. t == s) l

-- `if getattr(request, …, None)`
unfoldable pub not_empty : Option String → Option String
not_empty none = none
not_empty (some s) = if s == "" then none else some s

-- `request or getattr(get_current_task(), 'request', None)`
unfoldable pub request_or :
    {V : Type 0} → Option (MetaRequest V) → Option (MetaRequest V) → Option (MetaRequest V)
request_or none current = current
request_or (some r) current = some r

module _ {E B V : Type 0} (codec : Codec E B V) where
  unfoldable pub encode_result : V → String → V
  unfolding one_of
  encode_result result state =
      if one_of state exception_states && codec.is_exception result
      then codec.prepare_exception result
      else codec.prepare_value result

  -- the second request is the one of the task that runs now
  unfoldable pub current_task_children :
      Option (MetaRequest V) → Option (MetaRequest V) → Option (List V)
  unfolding request_or
  current_task_children request current = elim (request_or request current) [
    | none ↦ none
    | some r ↦ some (map codec.as_tuple r.children)
  ]

  -- Of the time, `now`, only states that are final take note.
  unfoldable pub get_result_meta :
      (now : String) (current : Option (MetaRequest V))
      → V
      → String
      → Option String
      → Option (MetaRequest V)
      → Meta V
  unfolding current_task_children one_of not_empty
  get_result_meta now current result state traceback request = record {
    status = some state;
    result = result;
    traceback = traceback;
    children = current_task_children request current;
    date_done = if one_of state ready_states then some now else none;
    group_id = elim request [ none ↦ none | some r ↦ not_empty r.group ];
    parent_id = elim request [ none ↦ none | some r ↦ not_empty r.parent_id ];
    task_id = none;
  }

  -- what `exception_to_python` makes of the result
  unfoldable pub with_exception : Meta V → Result E V → Result E (Meta V)
  with_exception meta (returned v) = returned (record meta { result = v })
  with_exception meta (raised e) = raised e

  unfoldable pub meta_from_decoded : Meta V → Result E (Meta V)
  unfolding one_of with_exception
  meta_from_decoded meta = elim meta.status [
    | none ↦ returned meta
    | some state ↦
        if one_of state exception_states
        then with_exception meta (codec.exception_to_python meta.result)
        else returned meta
  ]

  unfoldable pub decode_result : B → Result E (Meta V)
  unfolding meta_from_decoded
  decode_result payload = elim (codec.decode payload) [
    | returned meta ↦ meta_from_decoded meta
    | raised e ↦ raised e
  ]

  -- `{'status': states.PENDING, 'result': None}`
  unfoldable pub pending_meta : Meta V
  pending_meta = record {
    status = some pending;
    result = codec.none_value;
    traceback = none;
    children = none;
    date_done = none;
    group_id = none;
    parent_id = none;
    task_id = none;
  }

  -- `{'result': result.as_tuple()}`
  unfoldable pub group_meta : V → Meta V
  group_meta result = record {
    status = none;
    result = codec.as_tuple result;
    traceback = none;
    children = none;
    date_done = none;
    group_id = none;
    parent_id = none;
    task_id = none;
  }
