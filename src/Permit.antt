-- ===== src/Permit.antt =====
-- src/permit.rs: access control permissions (ACPs), their parsing, and the calls of the on-chain
-- TaskManager that decide them.
pub mod Acp
pub mod AcpLaws
pub mod Verify
pub mod VerifyLaws
pub mod Resolve
pub mod Tests
