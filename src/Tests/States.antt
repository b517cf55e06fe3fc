-- ===== src/Tests/States.antt =====
-- celery/states.py and celery/worker/state.py on small inputs.
use celery.Prelude.{
  ℕ, ◌≡◌, refl, false≢true, String, Bool-cases, true, false, inl, inr, none, eq_iff, List, [], ◌∷◌,
  All, arith, eqb, if◌then◌else◌,
}
use celery.States.{success, started, pending, gt, precedence}
use celery.States.Order.{IsCustom}
use celery.Utils.LimitedSet.{LimitedSet}
use celery.Worker.State.{Handle, State, is_member}
use celery.Worker.State.Registry.{
  Report, reserve, schedule, accept, finish, report_all, IsFaithful, handle_of, total, IsConsistent,
  report_all-IsConsistent,
}

progress-IsCustom : IsCustom "PROGRESS"
progress-IsCustom = record {
  not_success = refl;
  not_failure = refl;
  not_revoked = refl;
  not_started = refl;
  not_received = refl;
  not_rejected = refl;
  not_retry = refl;
  not_pending = refl;
}

-- the examples of the docstring of `state`
docstring :
    (gt success pending ≡ true) × (gt "PROGRESS" started ≡ true) × (gt "PROGRESS" success ≡ false)
unfolding gt precedence
docstring = (refl, refl, refl)

abbrev no_ids : LimitedSet String
no_ids = record { maxlen = 50000; minlen = 0; expires = 10800; items = []; heap = []; next_seq = 0 }

abbrev pub idle : State
idle = record {
  requests = [];
  reserved = [];
  active = [];
  scheduled = [];
  successful = no_ids;
  total_count = [];
  all_total_count = 0;
  revoked = no_ids;
  revoked_stamps = [];
  should_stop = none;
  should_terminate = none;
}

-- request 0 has the id "a", and every other number the id of no request here
abbrev id_of : ℕ → String
id_of q = if eqb q 0 then "a" else "b"

abbrev first : Handle
first = record { ref = 0; id = "a"; name = "tasks.add" }

idle-IsConsistent : IsConsistent id_of idle
unfolding is_member total
idle-IsConsistent = record {
  reserved_known = λ q m. absurd (false≢true m);
  active_known = λ q m. absurd (false≢true m);
  scheduled_known = λ q m. absurd (false≢true m);
  apart = λ q m. absurd (false≢true m);
  counted = refl;
}

first_distinct : (q : ℕ) → id_of q ≡ "a" → q ≡ 0
first_distinct q h = elim (Bool-cases (eqb q 0)) [
  | inl e ↦ ground arith
  | inr e ↦ absurd (false≢true ((eq_iff "b" "a").1 (rw e at h)))
]

abbrev life : List Report
life = schedule first ∷ reserve first ∷ accept first ∷ finish first true 7 7 ∷ []

life-IsFaithful : All (IsFaithful id_of) life
unfolding handle_of
life-IsFaithful = (
  record { own = refl; distinct = first_distinct },
  (
    record { own = refl; distinct = first_distinct },
    (
      record { own = refl; distinct = first_distinct },
      (record { own = refl; distinct = first_distinct }, tt),
    ),
  ),
)

report_all-IsConsistent_example : IsConsistent id_of (report_all life idle)
report_all-IsConsistent_example =
    report_all-IsConsistent id_of life idle life-IsFaithful idle-IsConsistent
