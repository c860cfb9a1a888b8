-- ===== src/Jobs.antt =====
-- src/jobs and src/scheduler.py: the routing of jobs, the queue with its job records, the worker's
-- part of it, and the scheduler of the recurring jobs.
pub mod Routing
pub mod Queue
pub mod Worker
pub mod Scheduler
