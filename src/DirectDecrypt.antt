-- ===== src/DirectDecrypt.antt =====
-- src/direct_decrypt.rs: decryption of modulus-switched compressed ciphertexts with the small LWE
-- key. The mirrors of tfhe's layouts are data; what tfhe itself computes (the wire codec and
-- `PackedIntegers::unpack`) is the interface `Tfhe`. Words are `u64`: wrap-around is written out.
pub mod Mirror
pub mod Block
pub mod Radix
pub mod Top
pub mod Phase
pub mod BlockLaws
pub mod RadixLaws
pub mod RoundTrip
pub mod TopLaws
pub mod Tests
