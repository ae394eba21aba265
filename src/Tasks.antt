-- ===== src/Tasks.antt =====
-- agent_task_registry.py and agent_tasks.py: the states of an Agent Task and what they may see.
pub mod Kinds
pub mod Registry
pub mod State
pub mod Rules
pub mod Chain
pub mod Report
pub mod WellFormed
pub mod Validated
pub mod History
pub mod Kept
pub mod Ordered
pub mod Stored
pub mod Course
pub mod Ancestry
pub mod Roots
pub mod Firsts
pub mod Lineage
pub mod Recoverable
mod Tests
