-- ===== src/Schedules/Beat.antt =====
-- celery/beat.py: `ScheduleEntry` and `Scheduler`, up to the sending of a due task. The heap is the list
-- of its events by time, of which the code reads the first. The clock is a function from the number of
-- readings; schedules are a parameter that says of an entry whether it is due, and when to ask again.
pub mod Events
pub mod Sent
pub mod Merge
use celery.Prelude.{
  ℕ, zero, suc, ◌+◌, ◌-◌, min, String, ◌==◌, Bool, true, false, ◌&&◌, not, Option, none, some, List,
  [], ◌∷◌, ltb, if◌then◌else◌, string_discrete,
}
use celery.Prelude.Dict.{Dict, get, put, has, is_some}

-- The fields that may be edited (task, schedule, args, kwargs, options) are of type `D`.
pub record Entry (D : Type 0) : Type 0 where
  pub name : String
  pub details : D
  pub last_run_at : ℕ
  pub total_run_count : ℕ

-- `event_t`
pub record Event (D : Type 0) : Type 0 where
  pub time : ℕ
  pub priority : ℕ
  pub entry : Entry D

-- what an entry's schedule answers; a time that is no number is none
pub record Due : Type 0 where
  pub is_due : Bool
  pub next : Option ℕ

-- What the scheduler is made with. A drift is taken off each delay, `adjust`.
pub record Config (D : Type 0) : Type 0 where
  pub is_due : Entry D → ℕ → Due
  pub same_details : D → D → Bool
  pub max_interval : ℕ
  pub drift : ℕ

pub record Scheduler (D : Type 0) : Type 0 where
  pub schedule : Dict String (Entry D)
  pub old_schedulers : Option (Dict String (Entry D))
  pub heap : Option (List (Event D))

-- what a tick comes to: the delay that is asked for, and the entry that was sent
pub record Tick (D : Type 0) : Type 0 where
  pub after : Scheduler D
  pub delay : ℕ
  pub sent : Option (Entry D)

-- `heappush`
unfoldable pub push : {D : Type 0} → Event D → List (Event D) → List (Event D)
push e [] = e ∷ []
push e (f ∷ l) = let rest = push e l in if ltb e.time f.time then e ∷ f ∷ l else f ∷ rest

-- `heapify`
unfoldable pub heapify : {D : Type 0} → List (Event D) → List (Event D)
unfolding push
heapify [] = []
heapify (e ∷ l) = push e (heapify l)

-- `_next_instance`
unfoldable pub next_instance : {D : Type 0} → ℕ → Entry D → Entry D
next_instance now e = record e { last_run_at = now; total_run_count = suc e.total_run_count }

module _ {D : Type 0} (c : Config D) where
  -- `adjust`. A delay that the drift makes less than 0 is put down as 0, at which beat does not sleep
  -- either.
  unfoldable pub adjust : ℕ → ℕ
  adjust zero = 0
  adjust (suc n) = suc n - c.drift

  -- `_when`, at a time that is not before the drift
  unfoldable pub when : ℕ → Option ℕ → ℕ
  when now none = now
  when now (some zero) = now
  when now (some (suc n)) = (now + suc n) - c.drift

  -- Each entry is asked, and then placed by the time of the next reading.
  unfoldable pub events_of : (ℕ → ℕ) → ℕ → Dict String (Entry D) → List (Event D)
  unfolding when
  events_of clock k [] = []
  events_of clock k ((name, e) ∷ d) =
      let answer = c.is_due e (clock k) in
      record {
        time = when (clock (suc k)) (if answer.is_due then some 0 else answer.next);
        priority = 5;
        entry = e;
      }
      ∷ events_of clock (suc (suc k)) d

  unfoldable pub reads_of : Dict String (Entry D) → ℕ
  reads_of [] = 0
  reads_of ((name, e) ∷ d) = suc (suc (reads_of d))

  unfoldable pub populate_heap : (ℕ → ℕ) → Scheduler D → Scheduler D
  unfolding events_of heapify
  populate_heap clock s = record s { heap = some (heapify (events_of clock 0 s.schedule)) }

  -- `new_entry != old_entry` for one of the names, or a name that is gone
  unfoldable pub all_same : Dict String (Entry D) → Dict String (Entry D) → Bool
  all_same [] new = true
  all_same ((name, e) ∷ old) new =
      let rest = all_same old new in
      elim (get string_discrete name new) [
        | none ↦ false
        | some f ↦ c.same_details f.details e.details && rest
      ]

  -- `set(a.keys()) <= set(b.keys())`
  unfoldable pub keys_within : Dict String (Entry D) → Dict String (Entry D) → Bool
  keys_within [] b = true
  keys_within ((name, e) ∷ a) b = has string_discrete name b && keys_within a b

  unfoldable pub schedules_equal : Option (Dict String (Entry D)) → Dict String (Entry D) → Bool
  unfolding all_same keys_within
  schedules_equal none new = false
  schedules_equal (some old) new = keys_within old new && (keys_within new old && all_same old new)

  -- `self._heap is None or not self.schedules_equal(…)`
  unfoldable pub is_stale : Scheduler D → Bool
  unfolding schedules_equal
  is_stale s = elim s.heap [
    | none ↦ true
    | some h ↦ not (schedules_equal s.old_schedulers s.schedule)
  ]

  unfoldable pub refreshed : (ℕ → ℕ) → Scheduler D → Scheduler D
  unfolding populate_heap
  refreshed clock s = populate_heap clock (record s { old_schedulers = some s.schedule })

  -- `H[0][2] is not entry`; an entry has one event
  unfoldable pub is_first : Entry D → List (Event D) → Bool
  is_first e [] = true
  is_first e (f ∷ l) = f.entry.name == e.name

  -- The first event is due by its time; its entry is asked, and sent or put back. From `k` on are the
  -- readings of the clock.
  unfoldable pub run_event : (ℕ → ℕ) → ℕ → Event D → List (Event D) → Scheduler D → Tick D
  unfolding push next_instance when adjust is_first
  run_event clock k event h s =
      let answer = c.is_due event.entry (clock k) in
      let next_entry = next_instance (clock (suc k)) event.entry in
      let delay : ℕ = elim answer.next [ none ↦ c.max_interval | some n ↦ n ] in
      let later : Event D = record {
        time = when (clock (suc (suc k))) answer.next;
        priority = event.priority;
        entry = next_entry;
      } in
      let again : Event D = record {
        time = when (clock (suc k)) (some delay);
        priority = event.priority;
        entry = event.entry;
      } in
      if answer.is_due
      then record {
        after = record s {
          schedule = put string_discrete event.entry.name next_entry s.schedule;
          heap = some (push later h);
        };
        delay = 0;
        sent = some event.entry;
      }
      else record {
        after = record s { heap = some (push again h) };
        delay =
            if is_first event.entry (push again h) then min (adjust delay) c.max_interval else 0;
        sent = none;
      }

  -- a tick on a heap that is there
  unfoldable pub tick_heap : (ℕ → ℕ) → ℕ → List (Event D) → Scheduler D → Tick D
  unfolding run_event
  tick_heap clock k [] s = record { after = s; delay = c.max_interval; sent = none }
  tick_heap clock k (event ∷ h) s =
      let now = clock k in
      if ltb now event.time
      then record { after = s; delay = min (event.time - now) c.max_interval; sent = none }
      else run_event clock (suc k) event h s

  unfoldable pub tick : (ℕ → ℕ) → Scheduler D → Tick D
  unfolding tick_heap is_stale refreshed events_of
  tick clock s =
      if is_stale s
      then tick_heap clock (reads_of s.schedule) (heapify (events_of clock 0 s.schedule))
          (refreshed clock s)
      else tick_heap clock 0 (elim s.heap [ none ↦ [] | some h ↦ h ]) s

  -- ticks one after the other, each with its clock
  unfoldable pub ticks : List (ℕ → ℕ) → Scheduler D → Scheduler D
  unfolding tick
  ticks [] s = s
  ticks (clock ∷ l) s = ticks l (tick clock s).after
