-- ===== src/Worker/Control/Targets.antt =====
-- Which requests the command `revoke` terminates (celery/worker/control.py).
use celery.Prelude.{
  ℕ, suc, ◌+◌, ◌≡◌, ◌≤◌, refl, sym, ap, ◌∙◌, String, ◌==◌, eq_iff, string_discrete, Bool,
  Bool-cases, true, false, false≢true, not, ◌&&◌, inl, inr, Option, none, some, List, [], ◌∷◌, ◌++◌,
  map, length, append-nil, leb, arith, if◌then◌else◌,
}
use celery.Prelude.Dict
use celery.Prelude.Dict.{Dict}
use celery.States.{ready_states, is_in}
use celery.Worker.State.{Handle, State, merge_revoked}
use celery.Worker.Control.{
  Backend, Effect, terminate_request, mark_one, mark_all, index_by_id, is_active,
  find_requests_by_id, terminate_all, terminate_known, revoke,
}
use celery.Worker.Control.Found.{
  AreDistinct, IsKeyed, ids_of, found-AreDistinct, length-found, index_known,
}
use celery.Worker.Control.Effects.{
  terminations, marked, terminations-append, marked-append, terminations-map, marked-map,
}

pub is_in-here : (x : String) (l : List String) → is_in x (x ∷ l) ≡ true
is_in-here x l = rw ((eq_iff x x).1 refl) refl

pub is_in-later : (x y : String) (l : List String) → is_in x l ≡ true → is_in x (y ∷ l) ≡ true
is_in-later x y l h = ground arith

pub new_next :
    (i : String) (l done : List String)
    → is_in i l ≡ false
    → ((x : String) → is_in x (i ∷ l) ≡ true → is_in x done ≡ false)
    → (x : String) → is_in x l ≡ true
    → is_in x (i ∷ done) ≡ false
new_next i l done f new x h = elim (Bool-cases (i == x)) [
  | inl e ↦ absurd (false≢true (sym f ∙ (ap (λ j. is_in j l) ((eq_iff i x).0 e) ∙ h)))
  | inr n ↦ ground (arith, new x)
]

-- the ids of the loop are new, and its limit is not below the number of all
terminate_all-all :
    (size : ℕ) (done : List String) (rs : List Handle)
    → AreDistinct (ids_of rs)
    → ((x : String) → is_in x (ids_of rs) ≡ true → is_in x done ≡ false)
    → length done + length rs ≤ size
    → (terminate_all size done rs).1 ≡ map terminate_request rs
unfolding terminate_all
terminate_all-all size done [] d new h = refl
terminate_all-all size done (r ∷ []) d new h =
    let free = new r.id (is_in-here r.id []) in ground (arith, free)
terminate_all-all size done (r ∷ s ∷ rs) d new h =
    let free = new r.id (is_in-here r.id (ids_of (s ∷ rs))) in
    let below : leb size (suc (length done)) ≡ false = ground arith in
    let rest =
      terminate_all-all size (r.id ∷ done) (s ∷ rs) d.1
        (new_next r.id (ids_of (s ∷ rs)) done d.0 new) (omega (arith, h)) in
    rw (free, below, terminate_all) (ap {B = List Effect} (λ l. terminate_request r ∷ l) rest)

-- A task is marked unless it is active, its state is that of a task that is ready, or its state
-- cannot be read.
abbrev pub is_marked : Backend → List ℕ → Option Handle → String → Bool
is_marked b active request id =
    not (is_active active request)
    && elim (b.get_state request id) [ none ↦ false | some state ↦ not (is_in state ready_states) ]

abbrev pub to_mark : Backend → State → List String → List String
to_mark b s [] = []
to_mark b s (id ∷ ids) =
    if is_marked b s.active (Dict.get string_discrete id s.requests) id
    then id ∷ to_mark b s ids
    else to_mark b s ids

mark_one-terminations :
    (b : Backend) (request : Option Handle) (id : String)
    → terminations (mark_one b request id) ≡ []
unfolding mark_one
mark_one-terminations b request id = ground arith

mark_one-marked :
    (b : Backend) (request : Option Handle) (id : String)
    → marked (mark_one b request id) ≡ (
        if elim (b.get_state request id) [
          | none ↦ false
          | some state ↦ not (is_in state ready_states)
        ]
        then id ∷ []
        else [])
unfolding mark_one
mark_one-marked b request id = ground arith

if-append :
    (v : Bool) (id : String) (l : List String)
    → (if v then id ∷ [] else []) ++ l ≡ (if v then id ∷ l else l)
if-append true id l = refl
if-append false id l = refl

mark_all-marked :
    (b : Backend) (s : State) (by_id : Dict String Handle) (ids : List String)
    → ((x : String)
        → is_in x ids ≡ true
        → Dict.get string_discrete x by_id ≡ Dict.get string_discrete x s.requests)
    → (marked (mark_all b s.active by_id ids) ≡ to_mark b s ids)
      × (terminations (mark_all b s.active by_id ids) ≡ [])
unfolding mark_all
mark_all-marked b s by_id [] same = (refl, refl)
mark_all-marked b s by_id (id ∷ ids) same =
    let rest = mark_all-marked b s by_id ids (λ x h. same x (is_in-later x id ids h)) in
    let request = Dict.get string_discrete id s.requests in
    let one = mark_one b request id in
    let later = mark_all b s.active by_id ids in
    let fresh : Bool = elim (b.get_state request id) [
      | none ↦ false
      | some state ↦ not (is_in state ready_states)
    ] in
    rw (same id (is_in-here id ids), mark_all)
      (elim (Bool-cases (is_active s.active request)) [
        | inl y ↦ rw (y, mark_all) rest
        | inr n ↦
            rw (n, mark_all)
              (
                marked-append one later
                    ∙ (ap (λ l. l ++ marked later) (mark_one-marked b request id)
                        ∙ (ap (λ l. (if fresh then id ∷ [] else []) ++ l) rest.0
                            ∙ if-append fresh id (to_mark b s ids))),
                terminations-append one later
                    ∙ (ap (λ l. l ++ terminations later) (mark_one-terminations b request id)
                        ∙ rest.1),
              )
      ])

-- The command `revoke` on distinct ids, with `terminate`, where each request stands under its id: the
-- requests of the registry with these ids are told to terminate_request, each once, and the tasks that are marked
-- as revoked are those that are not active and have no result yet.
pub revoke_lem :
    (b : Backend) (stamped : List (String × ℕ × ℕ)) (s : State)
    → AreDistinct (map (λ p. p.0) stamped)
    → IsKeyed s.requests
    → let (t, reply, effects) = revoke b stamped true s in
      (terminations effects ≡ find_requests_by_id (map (λ p. p.0) stamped) s.requests)
      × (marked effects ≡ to_mark b s (map (λ p. p.0) stamped))
unfolding revoke terminate_known merge_revoked
revoke_lem b stamped s d keyed =
    let ids = map (λ (p : String × ℕ × ℕ). p.0) stamped in
    let found = find_requests_by_id ids s.requests in
    let marks = mark_all b s.active (index_by_id found []) ids in
    let ended = (terminate_all (length ids) [] found).1 in
    let all : ended ≡ map terminate_request found =
      terminate_all-all (length ids) [] found (found-AreDistinct ids s.requests keyed d)
        (λ x h. refl) (omega (arith, length-found ids s.requests)) in
    let known =
      mark_all-marked b s (index_by_id found []) ids
        (λ x h. index_known ids s.requests x keyed h) in
    (
      terminations-append marks ended
          ∙ (ap (λ l. l ++ terminations ended) known.1
              ∙ (ap (λ l. terminations l) all ∙ terminations-map found)),
      marked-append marks ended
          ∙ (ap (λ l. l ++ marked ended) known.0
              ∙ (ap (λ l. to_mark b s ids ++ marked l) all
                  ∙ (ap (λ l. to_mark b s ids ++ l) (marked-map found)
                      ∙ append-nil (to_mark b s ids)))),
    )
