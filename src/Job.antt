-- ===== src/Job.antt =====
-- engine/src/hopeit/server/job.py: the arguments of a job, and the app and plugins that run it.
pub mod Select
pub mod Arguments
pub mod Run
mod Tests
