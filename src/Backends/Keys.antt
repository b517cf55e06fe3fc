-- ===== src/Backends/Keys.antt =====
-- celery/backends/base.py, the keys of `BaseKeyValueStoreBackend`. Keys are texts; `key_t` only encodes
-- them. Ids are texts already.
pub mod Apart
use Prim.Native.String.{String, [], ◌∷◌, ◌++◌}
use celery.Prelude.{Bool, true, false, ◌||◌, Option, none, some, ◌==◌, if◌then◌else◌}

-- `task_keyprefix`, `group_keyprefix` and `chord_keyprefix`
pub record Prefixes : Type 0 where
  pub task : String
  pub group : String
  pub chord : String

-- `global_keyprefix[-1] in ':_-.'`
unfoldable pub ends_in_mark : String → Bool
ends_in_mark [] = false
ends_in_mark (c ∷ s) =
    let rest = ends_in_mark s in
    let last = c ∷ "" in
    if s == "" then (last == ":" || (last == "_" || (last == "-" || last == "."))) else rest

-- the prefix that stands before the others; "" where none is configured
unfoldable pub marked_prefix : String → String
marked_prefix g = if g == "" then "" else if ends_in_mark g then g else g ++ "_"

-- `_add_global_keyprefix`
unfoldable pub add_global_keyprefix : String → Prefixes
add_global_keyprefix configured =
    let g = marked_prefix configured in
    record {
      task = g ++ "celery-task-meta-";
      group = g ++ "celery-taskset-meta-";
      chord = g ++ "chord-unlock-";
    }

-- `_get_key_for`, and none for the `ValueError` of an empty id
unfoldable pub get_key_for : String → String → Option String
get_key_for prefix id = if id == "" then none else some (prefix ++ id)

unfoldable pub get_key_for_task : Prefixes → String → Option String
unfolding get_key_for
get_key_for_task p id = get_key_for p.task id

unfoldable pub get_key_for_group : Prefixes → String → Option String
unfolding get_key_for
get_key_for_group p id = get_key_for p.group id

unfoldable pub get_key_for_chord : Prefixes → String → Option String
unfolding get_key_for
get_key_for_chord p id = get_key_for p.chord id

-- `key.startswith(prefix)`, with what is left
unfoldable pub after_prefix : String → String → Option String
after_prefix [] s = some s
after_prefix (c ∷ p) [] = none
after_prefix (c ∷ p) (d ∷ s) =
    let rest = after_prefix p s in if (c ∷ "") == (d ∷ "") then rest else none

unfoldable pub strip_prefix : Prefixes → String → String
strip_prefix p key = elim (after_prefix p.task key) [
  | some id ↦ id
  | none ↦ elim (after_prefix p.group key) [ some id ↦ id | none ↦ key ]
]
