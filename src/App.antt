-- ===== src/App.antt =====
-- celery/app: what a task does when it is tried again.
pub mod Retry
pub mod Trace
