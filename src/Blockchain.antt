-- ===== src/Blockchain.antt =====
-- src/blockchain: the service that writes Merkle roots to the contract and reads them back.
pub mod Errors
pub mod Send
pub mod Check
mod Examples
