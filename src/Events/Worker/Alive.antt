-- ===== src/Events/Worker/Alive.antt =====
-- What a monitor concludes from the heartbeats of a worker (celery/events/state.py, `Worker`).
use celery.Prelude.{
  ℕ, ◌+◌, ◌*◌, ◌≤◌, ◌<◌, ◌≡◌, refl, ap, ◌∙◌, Bool-cases, true, false, not, ◌||◌, ◌==◌, inl, inr,
  Option, List, [], ◌∷◌, length, ltb, eqb, arith, max, String, All,
}
use celery.Events.Worker.{
  Worker, Fields, heartbeat_max, expire_window, last, beat, event, truthy, value, alive,
}
use celery.Events.Worker.Heartbeats.{
  IsSortedFrom, insort-IsSortedFrom, length-insort, last_from-insort, room, room-IsSortedFrom,
  beat-insort, last-room, length-room-lt,
}

-- the heartbeats of a worker as the monitor may hold them
pub record IsSound (w : Worker) : Type 0 where
  pub sorted : IsSortedFrom 0 w.heartbeats
  pub short : length w.heartbeats ≤ heartbeat_max

-- an event of a worker as the monitor receives it
pub record Received : Type 0 where
  pub type : String
  pub timestamp : Option ℕ
  pub local_received : Option ℕ
  pub fields : Fields

abbrev pub receive : Received → Worker → Worker
receive e = event e.type e.timestamp e.local_received e.fields

unfoldable pub receive_all : List Received → Worker → Worker
receive_all [] w = w
receive_all (e ∷ es) w = receive_all es (receive e w)

beat-IsSound :
    (x : ℕ) (l : List ℕ)
    → IsSortedFrom 0 l
    → length l ≤ heartbeat_max
    → IsSortedFrom 0 (beat x l) × (length (beat x l) ≤ heartbeat_max)
beat-IsSound x l s h = rw (beat-insort x l s) (
  insort-IsSortedFrom x 0 (room l) (omega arith) (room-IsSortedFrom l s),
  omega (arith, length-insort x (room l), length-room-lt l h),
)

receive-IsSound : (e : Received) (w : Worker) → IsSound w → IsSound (receive e w)
unfolding event
receive-IsSound e w s = elim (Bool-cases (e.type == "offline")) [
  | inl t ↦ rw t (record { sorted = tt; short = omega arith })
  | inr t ↦ elim (Bool-cases (not (truthy e.local_received) || not (truthy e.timestamp))) [
    | inl u ↦ rw (t, u) (record { sorted = s.sorted; short = s.short })
    | inr u ↦
        let (sorted, short) = beat-IsSound (value e.local_received) w.heartbeats s.sorted s.short in
        rw (t, u) (record { sorted = sorted; short = short })
  ]
]

-- Whatever events of a worker the monitor receives, the heartbeats that it keeps stay in ascending
-- order, and at most `heartbeat_max` of them, where they were so before.
pub receive_all-IsSound : (es : List Received) (w : Worker) → IsSound w → IsSound (receive_all es w)
unfolding receive_all
receive_all-IsSound [] w s = s
receive_all-IsSound (e ∷ es) w s = receive_all-IsSound es (receive e w) (receive-IsSound e w s)

-- a heartbeat: an event with both times that says not that the worker is offline
pub record IsBeat (e : Received) : Type 0 where
  pub online : (e.type == "offline") ≡ false
  pub sent : truthy e.timestamp ≡ true
  pub came : truthy e.local_received ≡ true

receive-beat :
    (e : Received) (w : Worker)
    → IsBeat e
    → (receive e w).heartbeats ≡ beat (value e.local_received) w.heartbeats
unfolding event
receive-beat e w b = rw (b.online, b.sent, b.came) refl

-- the greatest of a time and of the times that events were received
unfoldable pub newest : List Received → ℕ → ℕ
newest [] n = n
newest (e ∷ es) n = newest es (max (value e.local_received) n)

newest-step :
    (e : Received) (w : Worker)
    → IsBeat e
    → IsSound w
    → last (receive e w).heartbeats ≡ max (value e.local_received) (last w.heartbeats)
newest-step e w b s =
    let x = value e.local_received in
    let l = w.heartbeats in
    ap last (receive-beat e w b)
    ∙ ap last (beat-insort x l s.sorted)
    ∙ last_from-insort x 0 (room l) (omega arith) (room-IsSortedFrom l s.sorted)
    ∙ ap (max x) (last-room l)

length-receive :
    (e : Received) (w : Worker) → IsBeat e → IsSound w → 0 < length (receive e w).heartbeats
length-receive e w b s =
    let x = value e.local_received in
    let n =
      ap length (receive-beat e w b ∙ beat-insort x w.heartbeats s.sorted)
      ∙ length-insort x (room w.heartbeats) in
    omega (arith, n)

newest-receive_all :
    (es : List Received) (w : Worker)
    → All IsBeat es
    → IsSound w
    → 0 < length w.heartbeats
    → (last (receive_all es w).heartbeats ≡ newest es (last w.heartbeats))
      × (0 < length (receive_all es w).heartbeats)
unfolding receive_all newest
newest-receive_all [] w b s n = (refl, n)
newest-receive_all (e ∷ es) w b s n =
    let (same, more) =
      newest-receive_all es (receive e w) b.1 (receive-IsSound e w s) (length-receive e w b.0 s) in
    (same ∙ ap (newest es) (newest-step e w b.0 s), more)

-- After one or more heartbeats, in whatever order they come, a worker with sound heartbeats is alive
-- exactly before a time: the greatest of its last heartbeat before them and of the times that they
-- were received, plus `expire_window` percent of its `freq`.
pub alive-receive_all :
    (now : ℕ) (e : Received) (es : List Received) (w : Worker)
    → All IsBeat (e ∷ es)
    → IsSound w
    → alive now (receive_all (e ∷ es) w)
      ≡ ltb (now * 100) (
          newest (e ∷ es) (last w.heartbeats) * 100 + (receive_all (e ∷ es) w).freq * expire_window)
unfolding alive receive_all newest
alive-receive_all now e es w b s =
    let first = receive e w in
    let (same, more) =
      newest-receive_all es first b.1 (receive-IsSound e w s) (length-receive e w b.0 s) in
    let top = same ∙ ap (newest es) (newest-step e w b.0 s) in
    let t : eqb (length (receive_all es first).heartbeats) 0 ≡ false = ground arith in
    rw t (ap (λ n. ltb (now * 100) (n * 100 + (receive_all es first).freq * expire_window)) top)
