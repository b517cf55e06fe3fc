-- ===== src/Tests/Beats.antt =====
-- Ticks of beat on small schedules (celery/beat.py).
use Prim.{tt}
use celery.Prelude.{
  ℕ, String, string_discrete, ◌+◌, ◌-◌, ◌≡◌, refl, sym, false≢true, true, false, none, some, [],
  ◌∷◌, leb, if◌then◌else◌,
}
use celery.Prelude.Dict.{Dict, get, put, has}
use celery.Schedules.Beat.{
  Entry, Due, Config, Scheduler, tick, ticks, is_stale, tick_heap, run_event, heapify, push,
  events_of, reads_of, refreshed, when, adjust,
}
use celery.Schedules.Beat.Events.{IsReady, Matched, ticks-Matched}
use celery.Schedules.Beat.Merge.{
  IsDistinct, merge_inplace, keep_known, merge_each, merged_entry, update_entry, after_merge,
  get-merge_inplace,
}
use celery.Schedules.Beat.Sent.{IsProper, tick-IsProper}

-- entries with an interval for their details
abbrev interval_due : Entry ℕ → ℕ → Due
interval_due e now =
    if leb (e.last_run_at + e.details) now
    then record { is_due = true; next = some e.details }
    else record { is_due = false; next = some ((e.last_run_at + e.details) - now) }

abbrev clockwork : Config ℕ
clockwork = record {
  is_due = interval_due;
  same_details = λ a b. true;
  max_interval = 50;
  drift = 1;
}

abbrev often : Entry ℕ
often = record { name = "often"; details = 10; last_run_at = 100; total_run_count = 0 }

abbrev seldom : Entry ℕ
seldom = record { name = "seldom"; details = 500; last_run_at = 100; total_run_count = 3 }

abbrev fresh : Scheduler ℕ
fresh = record {
  schedule = ("often", often) ∷ ("seldom", seldom) ∷ [];
  old_schedulers = none;
  heap = none;
}

abbrev at_200 : ℕ → ℕ
at_200 k = 200 + k

abbrev at_300 : ℕ → ℕ
at_300 k = 300 + k

sends_due : (tick clockwork at_200 fresh).sent ≡ some often
unfolding tick is_stale tick_heap run_event heapify push events_of reads_of refreshed when adjust
sends_due = refl

set_out : IsReady clockwork fresh
unfolding is_stale
set_out = record {
  named = (refl, (refl, tt));
  matches = λ stale h e. absurd (false≢true (sym stale));
}

ticks-Matched_example :
    Matched clockwork (tick clockwork at_300 (ticks clockwork (at_200 ∷ []) fresh))
ticks-Matched_example = ticks-Matched clockwork (at_200 ∷ []) at_300 fresh set_out

tick-IsProper_example : IsProper clockwork at_200 (tick clockwork at_200 fresh)
tick-IsProper_example = tick-IsProper clockwork at_200 fresh

-- a new schedule, where an entry is changed, one is new, and one is gone
abbrev changed : Entry ℕ
changed = record { name = "often"; details = 20; last_run_at = 150; total_run_count = 0 }

abbrev added : Entry ℕ
added = record { name = "daily"; details = 900; last_run_at = 150; total_run_count = 0 }

abbrev new_schedule : Dict String (Entry ℕ)
new_schedule = ("often", changed) ∷ ("daily", added) ∷ []

new_schedule-IsDistinct : IsDistinct new_schedule
unfolding get string_discrete
new_schedule-IsDistinct = (refl, (refl, tt))

get-merge_inplace_example :
    get string_discrete "often" (merge_inplace new_schedule fresh.schedule)
    ≡ after_merge
        (get string_discrete "often" fresh.schedule)
        (get string_discrete "often" new_schedule)
get-merge_inplace_example =
    get-merge_inplace "often" new_schedule fresh.schedule new_schedule-IsDistinct

merged_entries :
    merge_inplace new_schedule fresh.schedule
    ≡ ("often", record often { details = 20 }) ∷ ("daily", added) ∷ []
unfolding merge_inplace keep_known merge_each merged_entry update_entry get put has string_discrete
merged_entries = refl
