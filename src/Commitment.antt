-- ===== src/Commitment.antt =====
-- src/commitment.rs: the commitment gate's view of the on-chain registry and its cache. A registry
-- call is a `Reply`; the contract, its RPC and the clock are arguments of the operations.
pub mod Version
pub mod VersionLaws
pub mod Cache
pub mod CacheLaws
pub mod History
pub mod Tests
