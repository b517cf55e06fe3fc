-- ===== src/Worker/State/Registry.antt =====
-- The registry of requests stays consistent (celery/worker/state.py).
use mathlib.Core.Logic.{ite, if_pos, if_neg}
use celery.Prelude.{
  ℕ, ◌+◌, ◌≡◌, refl, sym, ◌∙◌, ap, All, String, string_discrete, Bool, Bool-cases, true, false,
  ◌||◌, inl, inr, List, [], ◌∷◌, eqb, arith, if◌then◌else◌,
}
use celery.Prelude.Dict
use celery.Prelude.Dict.{Dict}
use celery.Worker.State.{
  Handle, State, is_member, include, exclude, task_reserved, task_scheduled, task_accepted,
  task_ready, count_one,
}

member-include : (q r : ℕ) (s : List ℕ) → is_member q (include r s) ≡ (eqb r q || is_member q s)
unfolding include
member-include q r s = elim (Bool-cases (is_member r s)) [
  | inl t ↦ rw t (elim (Bool-cases (eqb r q)) [
    | inl e ↦ let p : r ≡ q = ground arith in rw e (rw p at t)
    | inr e ↦ rw e
  ])
  | inr t ↦ rw t (unfold is_member in refl)
]

member-exclude :
    (q r : ℕ) (s : List ℕ) → is_member q (exclude r s) ≡ (if eqb r q then false else is_member q s)
unfolding exclude is_member
member-exclude q r [] = ground arith
member-exclude q r (x ∷ s) = ground (arith, member-exclude q r s)

-- the sum of the counts of a `Counter`
unfoldable pub total : Dict String ℕ → ℕ
total [] = 0
total ((k, n) ∷ d) = n + total d

total-count_one : (name : String) (d : Dict String ℕ) → total (count_one name d) ≡ total d + 1
unfolding total count_one Dict.put Dict.get
total-count_one name [] = omega arith
total-count_one name ((k, n) ∷ d) = ground (arith, total-count_one name d)

-- every request of the set is found in `requests` under its id
abbrev pub AreKnown : (ℕ → String) → List ℕ → Dict String Handle → Type 0
AreKnown id_of set requests =
    (q : ℕ) → is_member q set ≡ true → Dict.has string_discrete (id_of q) requests ≡ true

abbrev pub AreApart : List ℕ → List ℕ → Type 0
AreApart s t = (q : ℕ) → is_member q s ≡ true → is_member q t ≡ false

-- Each request that is reserved, active or scheduled is found in `requests` under its id, none is
-- scheduled and reserved at once, and the overall count is the sum of the counts by type.
pub record IsConsistent (id_of : ℕ → String) (s : State) : Type 0 where
  pub reserved_known : AreKnown id_of s.reserved s.requests
  pub active_known : AreKnown id_of s.active s.requests
  pub scheduled_known : AreKnown id_of s.scheduled s.requests
  pub apart : AreApart s.scheduled s.reserved
  pub counted : s.all_total_count ≡ total s.total_count

has-remove :
    (k j : String) (d : Dict String Handle)
    → Dict.has string_discrete j (Dict.remove string_discrete k d)
      ≡ ite (string_discrete k j) false (Dict.has string_discrete j d)
unfolding Dict.has
has-remove k j d = ground (arith, Dict.get-remove string_discrete k j d)

-- the calls by which the worker reports the progress of a request
pub data Report : Type 0 where
  reserve : Handle → Report
  schedule : Handle → Report
  accept : Handle → Report
  finish : Handle → Bool → ℕ → ℕ → Report

unfoldable pub report : Report → State → State
report (reserve r) = task_reserved r
report (schedule r) = task_scheduled r
report (accept r) = task_accepted r
report (finish r successful now purge_now) = task_ready r successful now purge_now

unfoldable pub handle_of : Report → Handle
handle_of (reserve r) = r
handle_of (schedule r) = r
handle_of (accept r) = r
handle_of (finish r successful now purge_now) = r

module _ (id_of : ℕ → String) (set : List ℕ) (requests : Dict String Handle) where
  known-put :
      (r : Handle)
      → AreKnown id_of set requests
      → AreKnown id_of set (Dict.put string_discrete r.id r requests)
  known-put r k q m = ground (arith, k q m, Dict.has-put string_discrete r.id (id_of q) r requests)

  known-include :
      (r : Handle)
      → r.id ≡ id_of r.ref
      → AreKnown id_of set requests
      → AreKnown id_of (include r.ref set) (Dict.put string_discrete r.id r requests)
  known-include r p k q m = elim (Bool-cases (eqb r.ref q)) [
    | inl e ↦
        let same : r.ref ≡ q = ground arith in
        rw (Dict.has-put string_discrete r.id (id_of q) r requests)
          (if_pos (string_discrete r.id (id_of q)) (p ∙ ap id_of same) _ _)
    | inr e ↦ known-put r k q (ground (arith, member-include q r.ref set))
  ]

  known-exclude :
      (r : Handle) → AreKnown id_of set requests → AreKnown id_of (exclude r.ref set) requests
  known-exclude r k q m = k q (ground (arith, member-exclude q r.ref set))

  known-remove :
      (r : Handle)
      → ((q : ℕ) → id_of q ≡ id_of r.ref → q ≡ r.ref)
      → r.id ≡ id_of r.ref
      → AreKnown id_of set requests
      → AreKnown id_of (exclude r.ref set) (Dict.remove string_discrete r.id requests)
  known-remove r distinct p k q m =
      let other : ¬ (r.id ≡ id_of q) = λ e.
        let same : q ≡ r.ref = distinct q (sym e ∙ p) in
        ground (arith, member-exclude q r.ref set) in
      rw (has-remove, if_neg (string_discrete r.id (id_of q)) other) (known-exclude r k q m)

apart-reserve : (r : ℕ) (s t : List ℕ) → AreApart s t → AreApart (exclude r s) (include r t)
apart-reserve r s t a q m = ground (arith, a q, member-include q r t, member-exclude q r s)

apart-schedule :
    (r : ℕ) (s t : List ℕ) → AreApart s t → is_member r t ≡ false → AreApart (include r s) t
apart-schedule r s t a out q m = elim (Bool-cases (eqb r q)) [
  | inl e ↦ let same : r ≡ q = ground arith in rw same at out
  | inr e ↦ ground (arith, a q, member-include q r s)
]

apart-finish : (r : ℕ) (s t : List ℕ) → AreApart s t → AreApart (exclude r s) (exclude r t)
apart-finish r s t a q m = ground (arith, a q, member-exclude q r t, member-exclude q r s)

-- the ids of different requests differ, and the request of a report bears its own
pub record IsFaithful (id_of : ℕ → String) (e : Report) : Type 0 where
  pub own : (handle_of e).id ≡ id_of (handle_of e).ref
  pub distinct : (q : ℕ) → id_of q ≡ id_of (handle_of e).ref → q ≡ (handle_of e).ref

report-IsConsistent :
    (id_of : ℕ → String) (e : Report) (s : State)
    → IsFaithful id_of e
    → IsConsistent id_of s
    → IsConsistent id_of (report e s)
unfolding report handle_of task_reserved task_scheduled task_accepted task_ready
report-IsConsistent id_of (reserve r) s f c = record {
  reserved_known = known-include id_of s.reserved s.requests r f.own c.reserved_known;
  active_known = known-put id_of s.active s.requests r c.active_known;
  scheduled_known =
      known-put id_of (exclude r.ref s.scheduled) s.requests r
        (known-exclude id_of s.scheduled s.requests r c.scheduled_known);
  apart = apart-reserve r.ref s.scheduled s.reserved c.apart;
  counted = c.counted;
}
report-IsConsistent id_of (schedule r) s f c =
    elim (Bool-cases (is_member r.ref s.reserved || is_member r.ref s.active)) [
      | inl t ↦ rw t c
      | inr t ↦ rw t (record {
        reserved_known = known-put id_of s.reserved s.requests r c.reserved_known;
        active_known = known-put id_of s.active s.requests r c.active_known;
        scheduled_known = known-include id_of s.scheduled s.requests r f.own c.scheduled_known;
        apart = apart-schedule r.ref s.scheduled s.reserved c.apart (ground arith);
        counted = c.counted;
      })
    ]
report-IsConsistent id_of (accept r) s f c = record {
  reserved_known = known-put id_of s.reserved s.requests r c.reserved_known;
  active_known = known-include id_of s.active s.requests r f.own c.active_known;
  scheduled_known = known-put id_of s.scheduled s.requests r c.scheduled_known;
  apart = c.apart;
  counted = omega (arith, total-count_one r.name s.total_count, c.counted);
}
report-IsConsistent id_of (finish r successful now purge_now) s f c = record {
  reserved_known = known-remove id_of s.reserved s.requests r f.distinct f.own c.reserved_known;
  active_known = known-remove id_of s.active s.requests r f.distinct f.own c.active_known;
  scheduled_known = known-remove id_of s.scheduled s.requests r f.distinct f.own c.scheduled_known;
  apart = apart-finish r.ref s.scheduled s.reserved c.apart;
  counted = c.counted;
}

unfoldable pub report_all : List Report → State → State
report_all [] s = s
report_all (e ∷ es) s = report_all es (report e s)

-- From a consistent registry, whatever the worker reports of requests that have their own ids, each
-- a different one, the registry stays consistent.
pub report_all-IsConsistent :
    (id_of : ℕ → String) (es : List Report) (s : State)
    → All (IsFaithful id_of) es
    → IsConsistent id_of s
    → IsConsistent id_of (report_all es s)
unfolding report_all
report_all-IsConsistent id_of [] s f c = c
report_all-IsConsistent id_of (e ∷ es) s f c =
    report_all-IsConsistent id_of es (report e s) f.1 (report-IsConsistent id_of e s f.0 c)

-- Once a request is ready it is in none of the sets, and its id is not in `requests`.
pub task_ready_forgets :
    (r : Handle) (successful : Bool) (now purge_now : ℕ) (s : State)
    → (is_member r.ref (task_ready r successful now purge_now s).reserved ≡ false)
      × (is_member r.ref (task_ready r successful now purge_now s).active ≡ false)
      × (is_member r.ref (task_ready r successful now purge_now s).scheduled ≡ false)
      × (Dict.has string_discrete r.id (task_ready r successful now purge_now s).requests ≡ false)
unfolding task_ready
task_ready_forgets r successful now purge_now s = ground (
  arith,
  member-exclude r.ref r.ref s.reserved,
  member-exclude r.ref r.ref s.active,
  member-exclude r.ref r.ref s.scheduled,
  has-remove r.id r.id s.requests,
)
