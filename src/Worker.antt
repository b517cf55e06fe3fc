-- ===== src/Worker.antt =====
-- celery/worker: the registry of requests, the life of one request, the size of the pool, and remote control.
pub mod State
pub mod Request
pub mod Autoscale
pub mod Control
