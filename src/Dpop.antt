-- ===== src/Dpop.antt =====
-- DPoP proofs (platform/internal/harness/dpop).
pub mod Replay
