-- ===== src/App/Trace.antt =====
-- Running a task: `build_tracer` and `trace_task` (celery/app/trace.py).
-- The calls that leave the tracer (hooks, signals, the backend, the task itself) are a trace, the
-- latest first; `raises` says which of them raise. Log messages and the clearing of tracebacks are
-- left out. The locals of `trace_task` stand in the world, as they outlive an exception.
pub mod Actions
pub mod Dispatch
pub mod Handlers
pub mod Run
