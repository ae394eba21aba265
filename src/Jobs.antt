-- ===== src/Jobs.antt =====
-- pipeline_jobs.py and services/pipeline_job.py: the states of a pipeline job and what changes them.
pub mod State
pub mod Rules
pub mod Chain
pub mod Lifecycle
pub mod Service
