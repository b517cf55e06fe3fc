-- ===== src/Lib.antt =====
-- Verification of the worker core of celery, a distributed task queue.
--
-- The program's parts that are modelled, and the files that model them:
--
-- * Task states (celery/states.py): States.antt has the state names, `PRECEDENCE` and the
--   comparison methods of `state`; States/Order.antt their order.
-- * Event state (celery/events/state.py): Events/Task.antt has `Task.event`, by which a monitor
--   merges the events of a task; a task is its `__dict__`. `str.upper` is a parameter.
-- * Heartbeats (celery/events/state.py, `Worker`): Events/Worker.antt has `event` and `alive`;
--   Events/Worker/Heartbeats.antt the list of heartbeats, Events/Worker/Alive.antt what follows.
-- * `LimitedSet` (celery/utils/collections.py): Utils/LimitedSet.antt, the bounded set that holds
--   the revoked and the successful task ids. Its heap is kept as the sorted list of its entries,
--   as the code reads only the least entry and the length. Times are natural numbers (ticks), and
--   a method takes the clock values that it reads. The loops of `purge` recur on fuel, the size of
--   the set, which each round lowers (Utils/LimitedSet/Bounds.antt).
--   Utils/LimitedSet/Pickle.antt has its dictionary of insertion times, which pickling goes through,
--   Utils/LimitedSet/Calls.antt its methods called in any order.
-- * Worker registry (celery/worker/state.py): Worker/State.antt, the requests that are reserved,
--   active or scheduled, the counters, the revoked ids and the shutdown flags. A request is known
--   by its identity (`ref`), as the `WeakSet`s of the code know it, and by its task id.
-- * `Request` (celery/worker/request.py): Worker/Request.antt has the data, Request/Create.antt
--   `__init__` with its errors, Request/Steps.antt the shared steps (`acknowledge`, `reject`, `send_event`,
--   `_announce_revoked`), Request/Revoke.antt `revoked`, `terminate` and `cancel`, and
--   Request/Handlers.antt the callbacks of the pool (`on_accepted`, `on_timeout`, `on_success`,
--   `on_failure`, `on_retry`) and the two ways to run a request. A method takes the world (the
--   request, the registry, a trace of effects) and returns it changed; one that raises returns what
--   it raises beside the world. Calls that leave the class (broker, dispatcher, result backend,
--   signals, hooks, pool) are effects in the trace.
-- * `Blueprint` (celery/bootsteps.py): Bootsteps.antt, the methods by which a worker starts, closes,
--   restarts and stops its steps; Bootsteps/Start.antt, Send.antt and Stop.antt prove what they call.
--   Whether a step has a method and whether that raises is a parameter, the calls are a trace.
-- * `Autoscaler` (celery/worker/autoscale.py): Worker/Autoscale.antt, growing and shrinking the pool
--   with the number of reserved requests. The pool (billiard) is an interface with its laws.
-- * Retries (celery/app/task.py `Task.retry`, celery/app/autoretry.py, celery/utils/time.py):
--   App/Retry.antt, over a type of exceptions; App/Retry/Attempts.antt follows a message and the
--   messages that its retries send, App/Retry/Backoff.antt has the countdowns. `randrange` is a
--   parameter; the fuel of `lifetime` bounds the runs, and the limit plus one is enough.
-- * Tracing (celery/app/trace.py): App/Trace/Actions.antt has actions that may raise, with `try`,
--   App/Trace/Dispatch.antt `_dispatch_callbacks_and_chain`, App/Trace/Handlers.antt `TraceInfo` and
--   `on_error`, App/Trace/Run.antt `trace_task`. Which of the calls that leave the tracer raise is a
--   parameter. App/Trace/Run/Table.antt is the table of the ends of a task, written apart from
--   the code's own tests.
-- * `DependencyGraph` (celery/utils/graph.py): Utils/Graph.antt, its building and Khan's sort. The fuel of
--   `khan62` is the number of nodes plus one: a node gets on the stack once, and a successor that is no node
--   ends the loop. Utils/Graph/Round.antt is about a round of the loop.
-- * Crontabs (celery/schedules.py): Schedules/Parser.antt, `crontab_parser`, over a parameter for
--   Python's `re`, `int` and strings; Schedules/Crontab.antt, the fields of a `crontab` and
--   `remaining_delta`. Times are of the schedule's time zone. What `_delta_to_next` searches is left as
--   a case of the result.
-- * Beat (celery/beat.py): Schedules/Beat.antt, the ticks of `Scheduler`. The heap is the list of its
--   events by time; schedules are a parameter, times are natural numbers, and a tick takes the clock as
--   the times that it reads one after the other. Beat/Events.antt is about the heap and the schedule,
--   Beat/Sent.antt about what a tick sends; Beat/Merge.antt has `merge_inplace`.
-- * Remote control (celery/worker/control.py): Worker/Control.antt, the command `revoke` over the
--   registry; the result backend is a parameter, and what is sent to requests is a trace.
-- * Result backends (celery/backends/base.py): Backends/Keys.antt has the keys of tasks, groups and
--   chords, Backends/Retry.antt `_ensure_retryable`, Backends/Meta.antt the meta data of a result,
--   Backends/Store.antt the calls of `Backend` and `BaseKeyValueStoreBackend` on a store and a cache.
--   Backends/Store/Kept.antt spells out what a stored result holds.
--   Backends/Calls.antt has calls that may raise, and what is relied on in a store: that a call that
--   raises came through or not, and that one that returns did. The serialiser, kombu's cache and the
--   clock are parameters. The fuel of the retries is a parameter too; the limit plus one is enough.
--   Backends/Chord.antt has `on_chord_part_return` with the calls of the parts in any order: a turn of
--   a part is its next call of the store. Chord/Interleaved.antt follows the phases of a chord, and
--   Chord/Fair.antt counts the turns that a part needs. Backends/Marks.antt has `mark_as_failure` and the
--   methods beside it; the fuel of the loop over a chain is the number of its elements plus one.
--
-- How they interact: a request asks `revoked` of the registry before it runs, reports to the
-- registry when it is accepted and when it is ready, and settles its message once.
-- The tracer's answer is what the request gets for a task that ran (App/Trace/Run/Settles.antt).
-- The autoscaler reads the number of reserved requests of the registry.
--
-- Prelude.antt and its children have the shared names, Boolean tests, lists, and Python's `dict`
-- as an association list (Prelude/Dict.antt). Tests.antt has runs at small inputs.
--
-- Not modelled: in the request, exceptions raised by user hooks, signal receivers, the result
-- backend or the broker; Tarjan's components and `topsort`; `_delta_to_next`, `is_due`, and what beat does to send an entry and to store its schedule;
-- the garbage collection of requests; the parsing of dates in message headers; floating point times;
-- concurrency between handlers of one request, which are taken one after the other.
pub mod Prelude
pub mod Utils
pub mod States
pub mod Events
pub mod Worker
pub mod App
pub mod Bootsteps
pub mod Schedules
pub mod Backends
pub mod Tests
