-- ===== src/Schedules/Beat/Events.antt =====
-- The events of beat's heap and the entries of its schedule (celery/beat.py, `populate_heap`, `tick`).
use Prim.{Unit, tt}
use mathlib.Core.Path.{subst}
use celery.Prelude.{
  ℕ, suc, ◌+◌, String, ◌==◌, eq_iff, ◌≡◌, ◌<◌, ◌⊎◌, inl, inr, refl, sym, ap, ◌∙◌, Bool, Bool-cases,
  true, false, false≢true, Option, Option-cases, some, List, [], ◌∷◌, arith, ltb, if◌then◌else◌,
  string_discrete,
}
use celery.Prelude.Dict.{Dict, put}
use mathlib.Core.Logic.{if_pos, if_neg}
use celery.Schedules.Beat.{
  Entry, Event, Config, Scheduler, Tick, push, heapify, next_instance, events_of, reads_of,
  populate_heap, is_stale, refreshed, run_event, tick_heap, tick, ticks,
}

abbrev one_if : Bool → ℕ
one_if b = if b then 1 else 0

-- how many events are of entries of a name
unfoldable pub events_named : {D : Type 0} → String → List (Event D) → ℕ
events_named k [] = 0
events_named k (e ∷ l) = one_if (e.entry.name == k) + events_named k l

-- how often a name is a key
unfoldable pub keys_named : {D : Type 0} → String → Dict String (Entry D) → ℕ
keys_named k [] = 0
keys_named k ((name, e) ∷ d) = one_if (name == k) + keys_named k d

-- the entries are under their names
abbrev pub WellNamed : {D : Type 0} → Dict String (Entry D) → Type 0
WellNamed [] = Unit
WellNamed ((name, e) ∷ d) = (e.name ≡ name) × WellNamed d

-- the heap has an event for each entry of the schedule, and no other
abbrev pub Matches : {D : Type 0} → List (Event D) → Dict String (Entry D) → Type 0
Matches h d = (k : String) → events_named k h ≡ keys_named k d

module _ {D : Type 0} where
  events_named-push :
      (k : String) (e : Event D) (l : List (Event D))
      → events_named k (push e l) ≡ one_if (e.entry.name == k) + events_named k l
  unfolding events_named push
  events_named-push k e [] = refl
  events_named-push k e (f ∷ l) =
      let rest = events_named-push k e l in
      elim (Bool-cases (ltb e.time f.time)) [
        | inl first ↦ rw (first, push) refl
        | inr later ↦ rw (later, push) (omega arith)
      ]

  events_named-heapify :
      (k : String) (l : List (Event D)) → events_named k (heapify l) ≡ events_named k l
  unfolding events_named heapify
  events_named-heapify k [] = refl
  events_named-heapify k (e ∷ l) =
      events_named-push k e (heapify l)
      ∙ ap (λ n. one_if (e.entry.name == k) + n) (events_named-heapify k l)

  events_named-events_of :
      (c : Config D) (clock : ℕ → ℕ) (r : ℕ) (d : Dict String (Entry D))
      → WellNamed d
      → Matches (events_of c clock r d) d
  unfolding events_named keys_named events_of
  events_named-events_of c clock r [] w k = refl
  events_named-events_of c clock r ((name, e) ∷ d) (same, w) k =
      let rest = events_named-events_of c clock (suc (suc r)) d w k in rw (same, rest) refl

  keys_named-put :
      (k name : String) (e : Entry D) (d : Dict String (Entry D))
      → 0 < keys_named name d
      → keys_named k (put string_discrete name e d) ≡ keys_named k d
  unfolding keys_named put
  keys_named-put k name e [] h = absurd (omega arith)
  keys_named-put k name e ((other, f) ∷ d) h = elim (string_discrete other name) [
    | yes same ↦
        ap (keys_named k) (if_pos (string_discrete other name) same _ _)
        ∙ ap (λ n. one_if (n == k) + keys_named k d) (sym same)
    | no differ ↦
        let not_it : (other == name) ≡ false = elim (Bool-cases (other == name)) [
          | inl it ↦ absurd (differ ((eq_iff other name).0 it))
          | inr e ↦ e
        ] in
        let none_here : one_if (other == name) ≡ 0 = ap one_if not_it in
        let among : 0 < keys_named name d = omega arith in
        ap (keys_named k) (if_neg (string_discrete other name) differ _ _)
        ∙ ap (λ m. one_if (other == k) + m) (keys_named-put k name e d among)
  ]

  -- the entry of an event is in the schedule
  among_keys :
      (event : Event D) (h : List (Event D)) (d : Dict String (Entry D))
      → Matches (event ∷ h) d
      → 0 < keys_named event.entry.name d
  unfolding events_named
  among_keys event h d m =
      let at = m event.entry.name in
      let itself = (eq_iff event.entry.name event.entry.name).1 refl in
      let counted : one_if (event.entry.name == event.entry.name) ≡ 1 = ap one_if itself in
      omega arith

  WellNamed-put :
      (e : Entry D) (d : Dict String (Entry D))
      → WellNamed d
      → WellNamed (put string_discrete e.name e d)
  unfolding put
  WellNamed-put e [] w = (refl, tt)
  WellNamed-put e ((other, f) ∷ d) (same, w) = elim (string_discrete other e.name) [
    | yes it ↦ subst WellNamed (sym (if_pos (string_discrete other e.name) it _ _)) (refl, w)
    | no differ ↦
        subst WellNamed (sym (if_neg (string_discrete other e.name) differ _ _))
          (same, WellNamed-put e d w)
  ]

module _ {D : Type 0} (c : Config D) where
  -- the heap of a tick matches its schedule
  abbrev pub Matched : Tick D → Type 0
  Matched t = (h : List (Event D)) × (t.after.heap ≡ some h) × Matches h t.after.schedule

  run_event-Matched :
      (clock : ℕ → ℕ) (k : ℕ) (event : Event D) (h : List (Event D)) (s : Scheduler D)
      → Matches (event ∷ h) s.schedule
      → Matched (run_event c clock k event h s)
  unfolding run_event next_instance events_named
  run_event-Matched clock k event h s m =
      elim (Bool-cases (c.is_due event.entry (clock k)).is_due) [
        | inl due ↦
            rw (due, run_event)
              (
                _,
                refl,
                λ j.
                    events_named-push j _ h
                    ∙ (m j
                        ∙ sym (
                            keys_named-put j event.entry.name _ s.schedule
                              (among_keys event h s.schedule m))),
              )
        | inr not_due ↦ rw (not_due, run_event) (_, refl, λ j. events_named-push j _ h ∙ m j)
      ]

  tick_heap-Matched :
      (clock : ℕ → ℕ) (k : ℕ) (h : List (Event D)) (s : Scheduler D)
      → s.heap ≡ some h
      → Matches h s.schedule
      → Matched (tick_heap c clock k h s)
  unfolding tick_heap
  tick_heap-Matched clock k [] s e m = ([], e, m)
  tick_heap-Matched clock k (event ∷ h) s e m = elim (Bool-cases (ltb (clock k) event.time)) [
    | inl early ↦ rw (early, tick_heap) (event ∷ h, e, m)
    | inr ready ↦ rw (ready, tick_heap) (run_event-Matched clock (suc k) event h s m)
  ]

  -- the heap that a tick works on
  tick-cases :
      (clock : ℕ → ℕ) (s : Scheduler D)
      → ((is_stale c s ≡ true)
          × (tick c clock s
              ≡ tick_heap c clock
                  (reads_of c s.schedule)
                  (heapify (events_of c clock 0 s.schedule))
                  (refreshed c clock s)))
        ⊎ ((h : List (Event D)) × (s.heap ≡ some h)
            × (is_stale c s ≡ false)
            × (tick c clock s ≡ tick_heap c clock 0 h s))
  unfolding tick is_stale
  tick-cases clock s = elim (Bool-cases (is_stale c s)) [
    | inl stale ↦ inl (stale, rw (stale, tick) refl)
    | inr fresh ↦ elim (Option-cases s.heap) [
      | inl e ↦ absurd (false≢true (sym fresh ∙ (rw (e, is_stale) refl)))
      | inr (h, e) ↦ inr (h, e, fresh, rw (fresh, e, tick) refl)
    ]
  ]

  -- what holds between ticks: the entries are under their names, and the heap, unless it is made anew,
  -- matches them
  pub record IsReady (s : Scheduler D) : Type 0 where
    pub named : WellNamed s.schedule
    pub matches :
        is_stale c s ≡ false → (h : List (Event D)) → s.heap ≡ some h → Matches h s.schedule

  run_event-WellNamed :
      (clock : ℕ → ℕ) (k : ℕ) (event : Event D) (h : List (Event D)) (s : Scheduler D)
      → WellNamed s.schedule
      → WellNamed (run_event c clock k event h s).after.schedule
  unfolding run_event next_instance
  run_event-WellNamed clock k event h s w =
      elim (Bool-cases (c.is_due event.entry (clock k)).is_due) [
        | inl due ↦ rw (due, run_event) (WellNamed-put _ s.schedule w)
        | inr not_due ↦ rw (not_due, run_event) w
      ]

  tick_heap-WellNamed :
      (clock : ℕ → ℕ) (k : ℕ) (h : List (Event D)) (s : Scheduler D)
      → WellNamed s.schedule
      → WellNamed (tick_heap c clock k h s).after.schedule
  unfolding tick_heap
  tick_heap-WellNamed clock k [] s w = w
  tick_heap-WellNamed clock k (event ∷ h) s w = elim (Bool-cases (ltb (clock k) event.time)) [
    | inl early ↦ rw (early, tick_heap) w
    | inr ready ↦ rw (ready, tick_heap) (run_event-WellNamed clock (suc k) event h s w)
  ]

  -- a tick leaves a heap that matches
  tick-Matched :
      (clock : ℕ → ℕ) (s : Scheduler D)
      → IsReady s
      → Matched (tick c clock s) × WellNamed (tick c clock s).after.schedule
  unfolding refreshed populate_heap
  tick-Matched clock s r = elim (tick-cases clock s) [
    | inl (stale, e) ↦
        let h = heapify (events_of c clock 0 s.schedule) in
        let m : Matches h s.schedule = λ k.
          events_named-heapify k (events_of c clock 0 s.schedule)
          ∙ events_named-events_of c clock 0 s.schedule r.named k in
        let t = tick_heap c clock (reads_of c s.schedule) h (refreshed c clock s) in
        (
          subst Matched (sym e)
              (tick_heap-Matched clock (reads_of c s.schedule) h (refreshed c clock s) refl m),
          subst (λ t. WellNamed t.after.schedule) (sym e)
              (tick_heap-WellNamed clock (reads_of c s.schedule) h (refreshed c clock s) r.named),
        )
    | inr (h, e, fresh, same) ↦ (
      subst Matched (sym same) (tick_heap-Matched clock 0 h s e (r.matches fresh h e)),
      subst (λ t. WellNamed t.after.schedule) (sym same) (tick_heap-WellNamed clock 0 h s r.named),
    )
  ]

  some-same :
      {h h' : List (Event D)} → ◌≡◌ {A = Option (List (Event D))} (some h) (some h') → h ≡ h'
  some-same e = cc

  tick-IsReady : (clock : ℕ → ℕ) (s : Scheduler D) → IsReady s → IsReady (tick c clock s).after
  tick-IsReady clock s r =
      let ((h, at, m), w) = tick-Matched clock s r in
      record {
        named = w;
        matches = λ fresh h' e k. ap (events_named k) (some-same (sym e ∙ at)) ∙ m k;
      }

  -- After any number of ticks a tick leaves the heap with exactly as many events of each name as the
  -- schedule has entries of it, where at first the schedule has each entry under its name, and the heap
  -- matched it or is made anew: no entry is lost or doubled.
  pub ticks-Matched :
      (clocks : List (ℕ → ℕ)) (clock : ℕ → ℕ) (s : Scheduler D)
      → IsReady s
      → Matched (tick c clock (ticks c clocks s))
  unfolding ticks
  ticks-Matched [] clock s r = (tick-Matched clock s r).0
  ticks-Matched (first ∷ l) clock s r =
      ticks-Matched l clock (tick c first s).after (tick-IsReady first s r)
