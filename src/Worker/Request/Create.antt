-- ===== src/Worker/Request/Create.antt =====
-- celery/worker/request.py, `Request.__init__`: what of a message a request keeps, and what is raised
-- of one that makes no request. The parsing of dates, the registry of tasks and the decoding of the
-- message's payload are parameters.
use celery.Prelude.{
  ℕ, ◌≤◌, ◌≡◌, refl, ap, sym, ◌∙◌, Bool, true, false, ◌&&◌, ◌||◌, ◌⊎◌, inl, inr, Option, none, some,
  List, [], String, ◌==◌, eqb, arith, if◌then◌else◌,
}
use celery.Prelude.Dict.{is_some}
use celery.Worker.State.{State}
use celery.Worker.Request.{Env, Request, Stamp}
use celery.Worker.Request.Callbacks.{Callback, call_all, settled_at_most_once}
use celery.Worker.Request.Settled.{settlements}

-- the headers of a message, less those that a request only hands on
pub record Headers : Type 0 where
  pub id : Option String
  pub task : Option String
  pub shadow : Option String
  -- the hard and the soft limit
  pub timelimit : Option (Option ℕ × Option ℕ)
  pub ignore_result : Option Bool
  pub eta : Option String
  pub expires : Option String
  pub stamps : List (String × Stamp)

-- what the body of a message is decoded to: a sequence of so many values, or no sequence
pub data Payload : Type 0 where
  sequence : ℕ → Payload
  no_sequence : Payload

-- What the constructor raises: what `message.payload` does, `KeyError` of the header or `NotRegistered`
-- of the task that is missing, `InvalidTaskError` of the date, or what the unpacking of the payload in
-- three does (`ValueError` or `TypeError`).
pub data InitError : Type 0 where
  decode_error missing_id missing_task not_registered invalid_eta invalid_expires : InitError
  unpack_error : InitError

-- `self._request_dict['shadow'] or self.name`
unfoldable pub name_of : String → Option String → String
name_of task shadow = elim shadow [ none ↦ task | some s ↦ if s == "" then task else s ]

-- a date that may be missing, and whether it is there and no date
unfoldable pub date_of : (String → Option ℕ) → Option String → Option (Option ℕ)
date_of parse none = some none
date_of parse (some s) = elim (parse s) [ none ↦ none | some t ↦ some (some t) ]

-- the request of a message with this id and task, at its end
unfoldable pub create : ℕ → String → String → Bool → Headers → Option ℕ → Request
unfolding name_of
create ref id task task_ignores_result h expires = record {
  handle = record { ref = ref; id = id; name = name_of task h.shadow };
  acknowledged = false;
  time_start = none;
  worker_pid = none;
  time_limit = elim h.timelimit [ none ↦ none | some l ↦ l.0 ];
  soft_time_limit = elim h.timelimit [ none ↦ none | some l ↦ l.1 ];
  already_revoked = false;
  already_cancelled = false;
  terminate_on_ack = none;
  has_result = false;
  ignore_result = elim h.ignore_result [ none ↦ task_ignores_result | some b ↦ b ];
  expires = expires;
  stamps = h.stamps;
}

-- The parameters: `maybe_iso8601`, none where it raises; `app.tasks`, with the `ignore_result` of each
-- task; the `task` argument, where there is one; and the payload, none where its decoding raises.
pub record Setting : Type 0 where
  pub parse : String → Option ℕ
  pub find_task : String → Option Bool
  pub given_task : Option Bool
  pub payload : Option Payload

-- `task or self._app.tasks[self._type]`
unfoldable pub task_of : Setting → String → Option Bool
task_of env name = elim env.given_task [ none ↦ env.find_task name | some b ↦ some b ]

unfoldable pub unpacked : Payload → Request → InitError ⊎ Request
unpacked (sequence n) r = if eqb n 3 then inr r else inl unpack_error
unpacked no_sequence r = inl unpack_error

-- from the dates on
unfoldable pub init_dates :
    Setting → ℕ → Payload → String → String → Bool → Headers → InitError ⊎ Request
unfolding date_of create unpacked
init_dates env ref payload id task ignores h = elim (date_of env.parse h.eta) [
  | none ↦ inl invalid_eta
  | some eta ↦ elim (date_of env.parse h.expires) [
    | none ↦ inl invalid_expires
    | some expires ↦ unpacked payload (create ref id task ignores h expires)
  ]
]

-- `ref` is the identity of the new object
unfoldable pub init : Setting → ℕ → Headers → InitError ⊎ Request
unfolding task_of init_dates
init env ref h = elim env.payload [
  | none ↦ inl decode_error
  | some payload ↦ elim h.id [
    | none ↦ inl missing_id
    | some id ↦ elim h.task [
      | none ↦ inl missing_task
      | some task ↦ elim (task_of env task) [
        | none ↦ inl not_registered
        | some ignores ↦ init_dates env ref payload id task ignores h
      ]
    ]
  ]
]

abbrev pub is_made : InitError ⊎ Request → Bool
is_made (inl e) = false
is_made (inr r) = true

-- a header that is not there, or can be parsed
abbrev pub is_date : (String → Option ℕ) → Option String → Bool
is_date parse none = true
is_date parse (some s) = is_some (parse s)

-- what a message must have
abbrev pub is_triple : Option Payload → Bool
is_triple (some (sequence n)) = eqb n 3
is_triple _ = false

abbrev pub is_known : Setting → Option String → Bool
is_known env none = false
is_known env (some task) = is_some env.given_task || is_some (env.find_task task)

abbrev pub is_proper : Setting → Headers → Bool
is_proper env h =
    is_some h.id
    && is_known env h.task
    && is_date env.parse h.eta
    && is_date env.parse h.expires
    && is_triple env.payload

init-is_made : (env : Setting) (ref : ℕ) (h : Headers) → is_made (init env ref h) ≡ is_proper env h
unfolding init init_dates task_of unpacked date_of
init-is_made env ref h = ground arith

init-fresh :
    (env : Setting) (ref : ℕ) (h : Headers) (r : Request)
    → init env ref h ≡ inr r
    → (r.acknowledged ≡ false) × (h.id ≡ some r.handle.id)
unfolding init init_dates task_of unpacked date_of create
init-fresh env ref h r e = ground arith

-- What is answered to a message: an error to one that lacks something, and else a request with its id
-- that settles it as said below, after the calls `cs` with the registry `s`.
abbrev pub Answers :
    Setting → Headers → State → List (Env × Callback) → InitError ⊎ Request → Type 0
Answers env h s cs (inl e) = is_proper env h ≡ false
Answers env h s cs (inr r) =
    let after = call_all cs (record { request = r; state = s; effects = [] }) in
    (is_proper env h ≡ true)
    × (h.id ≡ some r.handle.id)
    × (settlements after.effects ≤ 1)
    × (settlements after.effects ≡ (if after.request.acknowledged then 1 else 0))

answered :
    (env : Setting) (ref : ℕ) (h : Headers) (s : State) (cs : List (Env × Callback))
    (o : InitError ⊎ Request)
    → init env ref h ≡ o
    → Answers env h s cs o
answered env ref h s cs (inl e) p = sym (init-is_made env ref h) ∙ ap is_made p
answered env ref h s cs (inr r) p =
    let (fresh, same) = init-fresh env ref h r p in
    let (once, marked) =
      settled_at_most_once cs (record { request = r; state = s; effects = [] }) refl fresh in
    (sym (init-is_made env ref h) ∙ ap is_made p, same, once, marked)

-- The constructor makes a request of a message exactly when it has an id, a task that is given or
-- registered, an `eta` and an `expires` that are each missing or can be parsed, and a payload of
-- three values; of every other it makes none, and raises. The request has the id of the message, and,
-- whatever calls it gets and whatever the registry holds, it settles the message at most once, and has
-- settled it exactly when it is marked acknowledged.
pub init-settles :
    (env : Setting) (ref : ℕ) (h : Headers) (s : State) (cs : List (Env × Callback))
    → Answers env h s cs (init env ref h)
init-settles env ref h s cs = answered env ref h s cs (init env ref h) refl
