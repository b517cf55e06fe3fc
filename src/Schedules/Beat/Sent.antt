-- ===== src/Schedules/Beat/Sent.antt =====
-- What a tick of beat sends, and the delay that it asks for (celery/beat.py, `Scheduler.tick`).
use celery.Prelude.{
  ℕ, suc, min, String, ◌≡◌, ◌≤◌, ◌+◌, refl, ◌∙◌, ◌⊎◌, inl, inr, Bool-cases, Option, ap, Bool, true,
  false, none, some, List, [], ◌∷◌, arith, ltb, if◌then◌else◌, string_discrete,
}
use mathlib.Core.Logic.{if_pos}
use celery.Prelude.Dict.{Dict, get, get-put}
use celery.Schedules.Beat.{
  Entry, Event, Config, Scheduler, Tick, next_instance, is_stale, run_event, tick_heap, tick,
}

capped : (b : Bool) (n m : ℕ) → (if b then min n m else 0) ≤ m
capped true n m = omega arith
capped false n m = omega arith

next_instance-fields :
    {D : Type 0} (now : ℕ) (e : Entry D)
    → ◌≡◌ {A = Option (Entry D)} (some (next_instance now e)) (
        some (record {
          name = e.name;
          details = e.details;
          last_run_at = now;
          total_run_count = e.total_run_count + 1;
        }))
unfolding next_instance
next_instance-fields now e =
    let more : suc e.total_run_count ≡ e.total_run_count + 1 = omega arith in
    ap
      (λ n.
        some
          (record { name = e.name; details = e.details; last_run_at = now; total_run_count = n }))
      more

module _ {D : Type 0} (c : Config D) (clock : ℕ → ℕ) where
  -- the entry `e` was due, and stands in `d` with the time of a later reading and its count raised
  abbrev pub IsReserved : Dict String (Entry D) → Entry D → Type 0
  IsReserved d e =
      (k : ℕ) × ((c.is_due e (clock k)).is_due ≡ true)
      × (get string_discrete e.name d
          ≡ some (record {
            name = e.name;
            details = e.details;
            last_run_at = clock (suc k);
            total_run_count = e.total_run_count + 1;
          }))

  abbrev pub IsProper : Tick D → Type 0
  IsProper t =
      (t.delay ≤ c.max_interval)
      × ((t.sent ≡ none) ⊎ ((e : Entry D) × (t.sent ≡ some e) × IsReserved t.after.schedule e))

  run_event-IsProper :
      (k : ℕ) (event : Event D) (h : List (Event D)) (s : Scheduler D)
      → IsProper (run_event c clock k event h s)
  unfolding run_event
  run_event-IsProper k event h s = elim (Bool-cases (c.is_due event.entry (clock k)).is_due) [
    | inl due ↦
        rw (due, run_event)
          (
            omega arith,
            inr (
              event.entry,
              refl,
              (
                k,
                due,
                get-put string_discrete event.entry.name event.entry.name _ s.schedule
                    ∙ (if_pos (string_discrete event.entry.name event.entry.name) refl _ _
                        ∙ next_instance-fields (clock (suc k)) event.entry),
              ),
            ),
          )
    | inr not_due ↦ rw (not_due, run_event) (capped _ _ _, inl refl)
  ]

  tick_heap-IsProper :
      (k : ℕ) (h : List (Event D)) (s : Scheduler D) → IsProper (tick_heap c clock k h s)
  unfolding tick_heap
  tick_heap-IsProper k [] s = (omega arith, inl refl)
  tick_heap-IsProper k (event ∷ h) s = elim (Bool-cases (ltb (clock k) event.time)) [
    | inl early ↦ rw (early, tick_heap) (omega arith, inl refl)
    | inr ready ↦ rw (ready, tick_heap) (run_event-IsProper (suc k) event h s)
  ]

  -- The delay that a tick asks for is at most the longest interval. An entry that it sends was due at a
  -- time of the tick, and has its count raised and its time set in the schedule.
  pub tick-IsProper : (s : Scheduler D) → IsProper (tick c clock s)
  unfolding tick
  tick-IsProper s = elim (Bool-cases (is_stale c s)) [
    | inl stale ↦ rw (stale, tick) (tick_heap-IsProper _ _ _)
    | inr fresh ↦ rw (fresh, tick) (tick_heap-IsProper _ _ _)
  ]
