-- ===== src/Integrity.antt =====
-- src/integrity/integrity.service.ts: sealing logs into batches, and verifying the batches.
pub mod State
pub mod Wallet
pub mod Seal
pub mod Rounds
pub mod Verify
pub mod Anchoring
pub mod Schedule
pub mod BatchDiff
pub mod Proof
pub mod BatchTree
pub mod Fixture
mod Examples
