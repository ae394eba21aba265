-- ===== src/Transactions.antt =====
-- storage/transactions.py: the journalled write of one canonical file, and its recovery.
pub mod State
pub mod Action
pub mod Targets
pub mod Rules
pub mod Stages
pub mod FaultFree
pub mod Manager
pub mod Recovery
pub mod Integrity
pub mod Samples
