-- ===== src/Schedules.antt =====
-- celery/schedules.py: the parser of crontab fields, and crontab schedules.
pub mod Parser
pub mod Crontab
pub mod Beat
