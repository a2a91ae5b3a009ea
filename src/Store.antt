-- ===== src/Store.antt =====
-- The persistent store (platform/internal/harness/store) as tables that SQL statements change.
pub mod Table
pub mod Tickets
pub mod Frames
pub mod Acks
pub mod Idempotency
pub mod Sessions
pub mod Revocation
pub mod KeyPackages
pub mod Audit
pub mod SessionRequests
pub mod AuthorizedFrames
pub mod Refresh
pub mod Enrollments
