-- ===== src/Events/Worker.antt =====
-- celery/events/state.py, class `Worker`: what a monitor keeps of a worker's heartbeats. Times are
-- ticks; the fields that an event brings are taken to be no `heartbeats`; the warning on a drift of
-- the clocks is only logged, and left out.
pub mod Heartbeats
pub mod Alive
use celery.Prelude.{
  ℕ, zero, suc, ◌+◌, ◌-◌, ◌*◌, Bool, true, false, not, ◌&&◌, ◌||◌, ◌==◌, Option, none, some, List,
  [], ◌∷◌, ◌++◌, length, ltb, eqb, if◌then◌else◌, String, string_discrete,
}
use celery.Prelude.Dict
use celery.Prelude.Dict.{Dict}

abbrev pub heartbeat_max : ℕ
heartbeat_max = 4

-- a percentage of `freq`
abbrev pub expire_window : ℕ
expire_window = 200

-- `freq` and `heartbeats` are attributes of their own, `others` has the rest of them
pub record Worker : Type 0 where
  pub freq : ℕ
  pub heartbeats : List ℕ
  pub others : Dict String ℕ

pub record Fields : Type 0 where
  pub new_freq : Option ℕ
  pub new_others : Dict String ℕ

unfoldable pub set_fields : Fields → Worker → Worker
set_fields f w = record w {
  freq = elim f.new_freq [ some n ↦ n | none ↦ w.freq ];
  others = Dict.update string_discrete w.others f.new_others;
}

-- `bisect.insort` on a sorted list
unfoldable pub insort : ℕ → List ℕ → List ℕ
insort x [] = x ∷ []
insort x (y ∷ l) = let rest = insort x l in if ltb x y then x ∷ y ∷ l else y ∷ rest

-- `l.pop(0)`
abbrev pub pop_first : List ℕ → List ℕ
pop_first [] = []
pop_first (x ∷ l) = l

-- the last one of a list that follows `x`
abbrev pub last_from : ℕ → List ℕ → ℕ
last_from x [] = x
last_from x (y ∷ l) = last_from y l

-- `heartbeats[-1]`; 0 where there is none, which is not read then
abbrev pub last : List ℕ → ℕ
last = last_from 0

unfoldable pub beat : ℕ → List ℕ → List ℕ
unfolding insort
beat received heartbeats =
    let hearts = length heartbeats in
    let left = if ltb (heartbeat_max - 1) hearts then pop_first heartbeats else heartbeats in
    if not (eqb hearts 0) && ltb (last left) received
    then left ++ received ∷ []
    else insort received left

-- a time that an event has or not
abbrev pub truthy : Option ℕ → Bool
truthy none = false
truthy (some n) = not (eqb n 0)

abbrev pub value : Option ℕ → ℕ
value none = 0
value (some n) = n

unfoldable pub event : String → Option ℕ → Option ℕ → Fields → Worker → Worker
unfolding beat set_fields
event type timestamp local_received fields worker =
    let w = set_fields fields worker in
    if type == "offline"
    then record w { heartbeats = [] }
    else if not (truthy local_received) || not (truthy timestamp)
    then w
    else record w { heartbeats = beat (value local_received) w.heartbeats }

-- `heartbeat_expires`, times 100
unfoldable pub heartbeat_expires : Worker → ℕ
heartbeat_expires w = last w.heartbeats * 100 + w.freq * expire_window

unfoldable pub alive : ℕ → Worker → Bool
unfolding heartbeat_expires
alive now w = not (eqb (length w.heartbeats) 0) && ltb (now * 100) (heartbeat_expires w)
