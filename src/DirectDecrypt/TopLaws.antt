-- ===== src/DirectDecrypt/TopLaws.antt =====
-- Every plaintext that leaves the decryption fits the declared type, so its encoding is exact.
use mathlib.Core.Path.{subst}
use teecryptor.Prelude.{
  ℕ, ◌^◌, ◌≤◌, ◌<◌, ◌≡◌, ◌≢◌, arith, String, ok, >>=-eq-ok, ok_inj, Bytes, next_multiple_of,
  trailing_zeros,
}
use teecryptor.External.Bignum.{Bignum}
use teecryptor.Decrypt.{EncryptionType, bool, u8, u16, u32, u64, u128, address, bits}
use teecryptor.DirectDecrypt.Mirror.{InnerBoolMirror, DirectDecryptKey, Tfhe}
use teecryptor.DirectDecrypt.Block.{decode_block}
use teecryptor.DirectDecrypt.RadixLaws.{decode_radix-IsDecoded, IsDecoded-lt}
use teecryptor.DirectDecrypt.Top.{
  to_mirror, switched_radix, truth, decode_bool, decrypt_bool, decrypt_uint, decrypt_compressed,
}

truth-le : (d : ℕ × ℕ) → truth d < 2
truth-le d = ground arith

module _ {Ct : Type 0} (tfhe : Tfhe Ct) (key : DirectDecryptKey) where
  decode_bool-lt : (m : InnerBoolMirror) (v : ℕ) → decode_bool tfhe key m ≡ ok v → v < 2
  unfolding decode_bool
  decode_bool-lt (InnerBoolMirror.modulus_switched block) v e =
      let (d, decoded, e') = >>=-eq-ok (decode_block tfhe key block) _ e in
      subst (λ t. t < 2) (ok_inj e') (truth-le d)
  decode_bool-lt InnerBoolMirror.seeded v e = cc

  decrypt_bool-lt : (bytes : Bytes) (v : ℕ) → decrypt_bool tfhe key bytes ≡ ok v → v < 2
  unfolding decrypt_bool
  decrypt_bool-lt bytes v e =
      let (mirror, read, e') =
        >>=-eq-ok (to_mirror tfhe tfhe.deserialize_bool bytes "CompressedFheBool") _ e in
      decode_bool-lt mirror.inner v e'

module _ (big : Bignum) {Ct : Type 0} (tfhe : Tfhe Ct) (key : DirectDecryptKey) where
  decrypt_uint-lt :
      (bytes : Bytes) (label : String) (max_bits v : ℕ)
      → max_bits ≤ 160
      → decrypt_uint big tfhe key bytes label max_bits ≡ ok v
      → v < 2 ^ next_multiple_of max_bits (trailing_zeros key.message_modulus)
  unfolding decrypt_uint
  decrypt_uint-lt bytes label max_bits v small e =
      let (mirror, read, e₁) = >>=-eq-ok (to_mirror tfhe tfhe.deserialize_uint bytes label) _ e in
      let (radix, switched, e₂) = >>=-eq-ok (switched_radix mirror.ciphertext) _ e₁ in
      IsDecoded-lt big tfhe key (decode_radix-IsDecoded big tfhe key radix max_bits v small e₂)

  uint-lt :
      (bytes : Bytes) (label : String) (max_bits v : ℕ)
      → max_bits ≤ 160
      → next_multiple_of max_bits (trailing_zeros key.message_modulus) ≡ max_bits
      → decrypt_uint big tfhe key bytes label max_bits ≡ ok v
      → v < 2 ^ max_bits
  uint-lt bytes label max_bits v small even e =
      subst (λ n. v < 2 ^ n) even (decrypt_uint-lt bytes label max_bits v small e)

  -- Whatever bytes the ciphertext server sends, a plaintext that is returned for a type fits that
  -- type, where the key's digits divide the type's width.
  pub decrypt_compressed-lt :
      (ty : EncryptionType) (bytes : Bytes) (v : ℕ)
      → (ty ≢ bool → next_multiple_of (bits ty) (trailing_zeros key.message_modulus) ≡ bits ty)
      → decrypt_compressed big tfhe key ty bytes ≡ ok v
      → v < 2 ^ bits ty
  unfolding decrypt_compressed bits
  decrypt_compressed-lt bool bytes v even e = decrypt_bool-lt tfhe key bytes v e
  decrypt_compressed-lt u8 bytes v even e =
      uint-lt bytes "CompressedFheUint8" 8 v (omega arith) (even (λ p. cc)) e
  decrypt_compressed-lt u16 bytes v even e =
      uint-lt bytes "CompressedFheUint16" 16 v (omega arith) (even (λ p. cc)) e
  decrypt_compressed-lt u32 bytes v even e =
      uint-lt bytes "CompressedFheUint32" 32 v (omega arith) (even (λ p. cc)) e
  decrypt_compressed-lt u64 bytes v even e =
      uint-lt bytes "CompressedFheUint64" 64 v (omega arith) (even (λ p. cc)) e
  decrypt_compressed-lt u128 bytes v even e =
      uint-lt bytes "CompressedFheUint128" 128 v (omega arith) (even (λ p. cc)) e
  decrypt_compressed-lt address bytes v even e =
      uint-lt bytes "CompressedFheUint160" 160 v (omega arith) (even (λ p. cc)) e
