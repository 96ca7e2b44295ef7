-- ===== src/Dashboard.antt =====
-- cylis-dashboard: the parts of the web interface that compute.
pub mod Merkle
mod Examples
