-- ===== src/Dispositions.antt =====
-- guardian_dispositions.py: what is decided on the findings of Guardian reports, and its report.
mod Tests
pub mod State
pub mod Report
pub mod Ends
pub mod Thread
pub mod Entries
pub mod Linking
pub mod Accepted
pub mod Service
pub mod Recorded
pub mod Heads
pub mod Named
pub mod After
pub mod Replay
