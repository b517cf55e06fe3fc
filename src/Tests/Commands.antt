-- ===== src/Tests/Commands.antt =====
-- celery/worker/control.py, `revoke`, on a small registry.
use celery.Prelude.{
  ℕ, ◌≡◌, refl, ap, ◌∙◌, arith, String, string_discrete, true, none, some, List, [], ◌∷◌, map,
}
use celery.Prelude.Dict
use celery.States.{success}
use celery.Worker.State.{Handle, State, merge_revoked, is_member}
use celery.Worker.Control.{
  Backend, mark_as_revoked, terminate_request, revoke, find_requests_by_id, index_by_id, mark_one,
  mark_all, terminate_all, terminate_known,
}
use celery.Worker.Control.Found.{IsKeyed}
use celery.Worker.Control.Effects.{terminations, marked}
use celery.Worker.Control.Targets.{to_mark, revoke_lem}

program : Unit {0}
unfolding revoke find_requests_by_id index_by_id mark_one mark_all terminate_all terminate_known
    merge_revoked is_member string_discrete Dict.get Dict.put
program = tt

abbrev handle : ℕ → String → Handle
handle ref id = record { ref = ref; id = id; name = "add" }

-- one task waits, one is active
abbrev registry : State
registry = record {
  requests = ("a", handle 1 "a") ∷ ("b", handle 2 "b") ∷ [];
  reserved = 1 ∷ 2 ∷ [];
  active = 2 ∷ [];
  scheduled = [];
  successful = record { maxlen = 10; minlen = 0; expires = 0; items = []; heap = []; next_seq = 0 };
  total_count = [];
  all_total_count = 0;
  revoked = record { maxlen = 10; minlen = 0; expires = 0; items = []; heap = []; next_seq = 0 };
  revoked_stamps = [];
  should_stop = none;
  should_terminate = none;
}

-- the task "c" has a result
abbrev backend : Backend
backend = record {
  get_state =
      λ r id. elim (string_discrete id "c") [ yes p ↦ some success | no p ↦ some "PENDING" ];
  can_mark = λ r id. true;
}

abbrev three : List (String × ℕ × ℕ)
three = ("a", 5, 5) ∷ ("b", 5, 5) ∷ ("c", 5, 5) ∷ []

revoke-three :
    (revoke backend three true registry).2
    ≡ mark_as_revoked "a" ∷ terminate_request (handle 1 "a") ∷ terminate_request (handle 2 "b") ∷ []
unfolding program
revoke-three = refl

registry-IsKeyed : IsKeyed registry.requests
unfolding program
registry-IsKeyed id r e = elim (string_discrete "a" id) [
  | yes p ↦ let first : r ≡ handle 1 "a" = ground arith in ap (λ (h : Handle). h.id) first ∙ p
  | no n ↦ elim (string_discrete "b" id) [
    | yes p ↦ let second : r ≡ handle 2 "b" = ground arith in ap (λ (h : Handle). h.id) second ∙ p
    | no m ↦ absurd (ground arith)
  ]
]

revoke_lem_example :
    (terminations (revoke backend three true registry).2
      ≡ find_requests_by_id (map (λ p. p.0) three) registry.requests)
    × (marked (revoke backend three true registry).2
        ≡ to_mark backend registry (map (λ p. p.0) three))
revoke_lem_example = revoke_lem backend three registry (refl, (refl, (refl, tt))) registry-IsKeyed
