-- ===== src/States.antt =====
-- celery/states.py: the built-in task states and their precedence.
pub mod Order
use celery.Prelude.{
  ℕ, zero, suc, String, ◌==◌, Bool, true, false, ◌||◌, Option, none, some, List, [], ◌∷◌, ltb, leb,
  any, if◌then◌else◌,
}

abbrev pub pending : String
pending = "PENDING"

abbrev pub received : String
received = "RECEIVED"

abbrev pub started : String
started = "STARTED"

abbrev pub success : String
success = "SUCCESS"

abbrev pub failure : String
failure = "FAILURE"

abbrev pub revoked : String
revoked = "REVOKED"

abbrev pub rejected : String
rejected = "REJECTED"

abbrev pub retry : String
retry = "RETRY"

abbrev pub ignored : String
ignored = "IGNORED"

-- `PRECEDENCE`
abbrev pub precedence_list : List (Option String)
precedence_list =
    some success
    ∷ some failure
    ∷ none
    ∷ some revoked
    ∷ some started
    ∷ some received
    ∷ some rejected
    ∷ some retry
    ∷ some pending
    ∷ []

-- an entry of `PRECEDENCE_LOOKUP`: the index of a name
index_from : ℕ → String → List (Option String) → Option ℕ
index_from i s [] = none
index_from i s (none ∷ l) = index_from (suc i) s l
index_from i s (some t ∷ l) = if t == s then some i else index_from (suc i) s l

-- `PRECEDENCE_LOOKUP[None]`
none_index : ℕ → List (Option String) → ℕ
none_index i [] = i
none_index i (none ∷ l) = i
none_index i (some t ∷ l) = none_index (suc i) l

unfoldable pub none_precedence : ℕ
unfolding none_index
none_precedence = none_index 0 precedence_list

unfoldable pub precedence : String → ℕ
unfolding index_from none_precedence
precedence s = elim (index_from 0 s precedence_list) [ some i ↦ i | none ↦ none_precedence ]

-- the comparison methods of `state`
unfoldable pub gt : String → String → Bool
gt a b = ltb (precedence a) (precedence b)

unfoldable pub ge : String → String → Bool
ge a b = leb (precedence a) (precedence b)

unfoldable pub lt : String → String → Bool
lt a b = ltb (precedence b) (precedence a)

unfoldable pub le : String → String → Bool
le a b = leb (precedence b) (precedence a)

abbrev pub is_in : String → List String → Bool
is_in s = any (λ t. t == s)

abbrev pub ready_states : List String
ready_states = success ∷ failure ∷ revoked ∷ []

abbrev pub unready_states : List String
unready_states = pending ∷ received ∷ started ∷ rejected ∷ retry ∷ []

abbrev pub exception_states : List String
exception_states = retry ∷ failure ∷ revoked ∷ []

abbrev pub propagate_states : List String
propagate_states = failure ∷ revoked ∷ []

abbrev pub all_states : List String
all_states = pending ∷ received ∷ started ∷ success ∷ failure ∷ retry ∷ revoked ∷ []
