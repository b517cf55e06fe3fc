-- ===== src/Backends.antt =====
-- celery/backends/base.py: the backends that keep results in a store of keys and values.
pub mod Keys
pub mod Calls
pub mod Retry
pub mod Meta
pub mod Store
pub mod Marks
pub mod Chord
