-- ===== src/External.antt =====
-- Third-party crates as interfaces: the operations that the program calls, with what their
-- documentation promises. Each is a parameter of the definitions and theorems that use it.
pub mod Bignum
pub mod HexLaws
pub mod Hex
pub mod Rpc
pub mod Lru
pub mod AssocLru
pub mod Samples
