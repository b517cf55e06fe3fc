-- ===== src/Events/Worker/Heartbeats.antt =====
-- The list of heartbeats stays sorted and short, and keeps the newest (celery/events/state.py,
-- `Worker.event`).
use celery.Prelude.{
  ℕ, suc, ◌-◌, ◌≤◌, ◌<◌, ◌≡◌, refl, ap, Bool-cases, false, not, ◌&&◌, inl, inr, List, [], ◌∷◌, ◌++◌,
  length, ltb, ltb→lt, eqb, arith, if◌then◌else◌, max,
}
use celery.Events.Worker.{heartbeat_max, insort, pop_first, last_from, last, beat}

-- ascending, from `x` on
abbrev pub IsSortedFrom : ℕ → List ℕ → Type 0
IsSortedFrom x [] = Unit
IsSortedFrom x (y ∷ l) = (x ≤ y) × IsSortedFrom y l

weaken : (x y : ℕ) (l : List ℕ) → x ≤ y → IsSortedFrom y l → IsSortedFrom x l
weaken x y [] h s = tt
weaken x y (z ∷ l) h s = (omega (arith, s.0), s.1)

pub insort-IsSortedFrom :
    (x y : ℕ) (l : List ℕ) → y ≤ x → IsSortedFrom y l → IsSortedFrom y (insort x l)
unfolding insort
insort-IsSortedFrom x y [] h s = (h, tt)
insort-IsSortedFrom x y (z ∷ l) h s = elim (Bool-cases (ltb x z)) [
  | inl t ↦ rw t (h, (omega (arith, ltb→lt x z t), s.1))
  | inr t ↦ rw t (s.0, insort-IsSortedFrom x z l (ground arith) s.1)
]

pub length-insort : (x : ℕ) (l : List ℕ) → length (insort x l) ≡ suc (length l)
unfolding insort
length-insort x [] = refl
length-insort x (y ∷ l) = ground (arith, length-insort x l)

le-last_from : (y : ℕ) (l : List ℕ) → IsSortedFrom y l → y ≤ last_from y l
le-last_from y [] s = omega arith
le-last_from y (z ∷ l) s = omega (arith, s.0, le-last_from z l s.1)

pub last_from-insort :
    (x y : ℕ) (l : List ℕ)
    → y ≤ x
    → IsSortedFrom y l
    → last_from y (insort x l) ≡ max x (last_from y l)
unfolding insort
last_from-insort x y [] h s = ground arith
last_from-insort x y (z ∷ l) h s = elim (Bool-cases (ltb x z)) [
  | inl t ↦ rw t (ground (arith, le-last_from z l s.1))
  | inr t ↦ rw t (last_from-insort x z l (ground arith) s.1)
]

append-insort :
    (x y : ℕ) (l : List ℕ) → IsSortedFrom y l → last_from y l < x → l ++ x ∷ [] ≡ insort x l
unfolding insort
append-insort x y [] s h = refl
append-insort x y (z ∷ l) s h =
    let t : ltb x z ≡ false = ground (arith, le-last_from z l s.1) in
    rw t (ap (λ r. z ∷ r) (append-insort x z l s.1 h))

-- the beats that are left to make room for another
abbrev pub room : List ℕ → List ℕ
room l = if ltb (heartbeat_max - 1) (length l) then pop_first l else l

pub room-IsSortedFrom : (l : List ℕ) → IsSortedFrom 0 l → IsSortedFrom 0 (room l)
room-IsSortedFrom [] s = tt
room-IsSortedFrom (x ∷ l) s = elim (Bool-cases (ltb (heartbeat_max - 1) (length (x ∷ l)))) [
  | inl t ↦ rw t (weaken 0 x l (omega arith) s.1)
  | inr t ↦ rw t s
]

-- `beat` is an ordered insertion, whichever of its branches it takes.
pub beat-insort : (x : ℕ) (l : List ℕ) → IsSortedFrom 0 l → beat x l ≡ insort x (room l)
unfolding beat
beat-insort x l s = elim (Bool-cases (not (eqb (length l) 0) && ltb (last (room l)) x)) [
  | inl t ↦ rw t (append-insort x 0 (room l) (room-IsSortedFrom l s) (ground arith))
  | inr t ↦ rw t refl
]

pub last-room : (l : List ℕ) → last (room l) ≡ last l
last-room [] = refl
last-room (x ∷ []) = refl
last-room (x ∷ y ∷ l) = ground arith

pub length-room-lt : (l : List ℕ) → length l ≤ heartbeat_max → length (room l) < heartbeat_max
length-room-lt [] h = omega arith
length-room-lt (x ∷ l) h = ground arith
