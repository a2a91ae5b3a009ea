-- ===== src/Gateway.antt =====
-- The Gateway (platform/internal/harness/gateway).
pub mod Ranges
pub mod Queue
pub mod Directory
pub mod FrameAad
