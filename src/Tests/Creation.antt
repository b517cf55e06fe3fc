-- ===== src/Tests/Creation.antt =====
-- Requests that are made from messages (celery/worker/request.py), on small inputs.
use celery.Prelude.{
  ℕ, ◌≡◌, refl, String, ◌==◌, Bool, false, true, ◌⊎◌, inl, inr, Option, none, some, [],
  if◌then◌else◌,
}
use celery.Tests.Requests.{calls}
use celery.Tests.States.{idle}
use celery.Worker.Request.{Request}
use celery.Worker.Request.Create.{
  Headers, Setting, InitError, sequence, missing_id, not_registered, invalid_expires, unpack_error,
  is_made, Answers, create, date_of, name_of, task_of, unpacked, init_dates, init, init-settles,
}

-- knows one date
abbrev parse : String → Option ℕ
parse s = if s == "2026-01-01" then some 1767225600 else none

-- knows one task
abbrev find_task : String → Option Bool
find_task s = if s == "tasks.add" then some false else none

abbrev setting : Setting
setting = record {
  parse = parse;
  find_task = find_task;
  given_task = none;
  payload = some (sequence 3);
}

abbrev headers : Headers
headers = record {
  id = some "a";
  task = some "tasks.add";
  shadow = some "";
  timelimit = some (some 30, none);
  ignore_result = none;
  eta = none;
  expires = some "2026-01-01";
  stamps = [];
}

program : Unit {0}
unfolding create date_of name_of task_of unpacked init_dates init
program = tt

abbrev error_of : InitError ⊎ Request → Option InitError
error_of (inl e) = some e
error_of (inr r) = none

no_id : error_of (init setting 0 (record headers { id = none })) ≡ some missing_id
unfolding program
no_id = refl

other_task : error_of (init setting 0 (record headers { task = some "x" })) ≡ some not_registered
unfolding program
other_task = refl

bad_date : error_of (init setting 0 (record headers { expires = some "x" })) ≡ some invalid_expires
unfolding program
bad_date = refl

two_values :
    error_of (init (record setting { payload = some (sequence 2) }) 0 headers) ≡ some unpack_error
unfolding program
two_values = refl

made : is_made (init setting 0 headers) ≡ true
unfolding program
made = refl

init-settles_example : Answers setting headers idle calls (init setting 0 headers)
init-settles_example = init-settles setting 0 headers idle calls
