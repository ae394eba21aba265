-- ===== src/Identity.antt =====
-- identity_corrections.py: which paper stands for which, after a history of registry corrections.
pub mod State
pub mod Project
pub mod Walk
pub mod Mapped
pub mod Settled
pub mod Entries
pub mod Accepted
pub mod Applied
pub mod Effects
mod Tests
pub mod Report
