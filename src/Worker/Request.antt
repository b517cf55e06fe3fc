-- ===== src/Worker/Request.antt =====
-- celery/worker/request.py, class `Request`: one message from the broker to its acknowledgement.
-- A method takes the world and returns it changed. What it calls outside the class (the broker's
-- callbacks, the event dispatcher, the result backend, the signals, the hooks of the task, the pool)
-- is written to a trace of effects, and is taken not to raise.
pub mod Steps
pub mod Revoke
pub mod Stamps
pub mod Handlers
pub mod Settled
pub mod Callbacks
pub mod Failure
pub mod Outcome
pub mod Create
use celery.Prelude.{
  ℕ, zero, suc, String, Bool, true, false, ◌||◌, not, Option, none, some, List, [],
}
use celery.Prelude.Dict.{Dict}
use celery.Worker.State.{State, Handle}

-- the options of the task that the request reads
pub record Task : Type 0 where
  pub acks_late : Bool
  pub acks_on_failure : Bool
  pub acks_on_timeout : Bool
  pub reject_on_worker_lost : Bool
  pub send_events : Bool
  pub store_errors_even_if_ignored : Bool
  pub has_after_return : Bool
  pub soft_time_limit : Option ℕ
  pub time_limit : Option ℕ

-- What a method reads of its surroundings: the task, whether there is an event dispatcher that is
-- enabled, `datetime.now`, `time`, and two successive values of `monotonic`.
pub record Env : Type 0 where
  pub task : Task
  pub events_enabled : Bool
  pub now : ℕ
  pub time : ℕ
  pub monotonic : ℕ
  pub purge_monotonic : ℕ

-- the exception classes that the code tells apart
pub data Exc : Type 0 where
  terminated : Exc
  system_exit : Exc
  keyboard_interrupt : Exc
  memory_error : Exc
  reject_task : Bool → Exc
  ignore_task : Exc
  retry_task : Exc
  worker_lost : Exc
  time_limit_exceeded : Exc
  task_revoked : Exc
  other : ℕ → Exc

-- `exc_info.exception`: an exception, or one inside an `ExceptionWithTraceback`
pub data Raised : Type 0 where
  bare : Exc → Raised
  with_traceback : Exc → Raised

abbrev pub unwrap : Raised → Exc
unwrap (bare e) = e
unwrap (with_traceback e) = e

pub data EventType : Type 0 where
  task_started task_succeeded task_failed task_retried task_rejected task_cancelled : EventType
  task_revoked_event : Bool → Bool → EventType

pub data Effect : Type 0 where
  -- `_on_ack` and `_on_reject`, the latter with `requeue`
  ack : Effect
  nack : Bool → Effect
  event : EventType → Effect
  -- the result backend; the flag is `store_result`
  mark_as_failure : Exc → Bool → Effect
  mark_as_revoked : String → Bool → Effect
  mark_as_retry : Effect
  -- signals and hooks
  signal_failure : Exc → Effect
  signal_revoked : Bool → Bool → Effect
  signal_retry : Effect
  hook_failure : Exc → Effect
  hook_retry : Effect
  hook_after_return : Exc → Effect
  -- the pool
  terminate_job : Option ℕ → ℕ → Effect
  terminate_result : ℕ → Effect
  apply_async : Option ℕ → Option ℕ → Effect
  run_inline : Effect

-- a stamp of the message: one value, or a list of values
pub data Stamp : Type 0 where
  one : String → Stamp
  many : List String → Stamp

pub record Request : Type 0 where
  pub handle : Handle
  pub acknowledged : Bool
  pub time_start : Option ℕ
  pub worker_pid : Option ℕ
  pub time_limit : Option ℕ
  pub soft_time_limit : Option ℕ
  pub already_revoked : Bool
  pub already_cancelled : Bool
  -- the signal of the pending `terminate`
  pub terminate_on_ack : Option ℕ
  -- whether there is a result of `apply_async` that is alive
  pub has_result : Bool
  pub ignore_result : Bool
  pub expires : Option ℕ
  -- the stamped headers, each with its stamp
  pub stamps : List (String × Stamp)

-- the effects, the latest first
pub record World : Type 0 where
  pub request : Request
  pub state : State
  pub effects : List Effect

-- the truth value of a number that may be `None`
abbrev pub truthy : Option ℕ → Bool
truthy none = false
truthy (some zero) = false
truthy (some (suc n)) = true

-- `store_errors`
unfoldable pub store_errors : Env → Request → Bool
store_errors env r = not r.ignore_result || env.task.store_errors_even_if_ignored
