-- ===== src/Events.antt =====
-- celery/events: the view of the cluster that monitors build from events.
pub mod Task
pub mod Worker
