-- ===== src/Domain.antt =====
-- The domain layer (platform/internal/harness/domain): records, their life cycles and checks.
pub mod Problem
pub mod Id
pub mod Audit
pub mod Endpoint
pub mod Session
pub mod Enrollment
pub mod Keys
pub mod Frame
pub mod ControlOutbox
pub mod Credential
pub mod SessionRequest
pub mod KeyPackage
pub mod Idempotency
