-- ===== src/Utils.antt =====
-- celery/utils: containers and helpers that the worker is built on.
pub mod LimitedSet
pub mod Graph
