-- ===== src/DirectDecrypt/Top.antt =====
-- `decrypt_compressed` and what it calls: the codec, the rejection of seeded forms, the boolean.
use teecryptor.Prelude.{ℕ, ◌%◌, String, Result, ok, err, ◌>>=◌, ◌==◌, if◌then◌else◌, Bytes, map_err}
use teecryptor.External.Bignum.{Bignum}
use teecryptor.Decrypt.{
  text, text_of, DecryptError, deserialize, direct_decrypt, EncryptionType, bool, u8, u16, u32, u64,
  u128, address, bits,
}
use teecryptor.DirectDecrypt.Mirror.{
  GenericMirror, RadixMirror, InnerBoolMirror, DirectDecryptKey, Tfhe,
}
use teecryptor.DirectDecrypt.Block.{decode_block}
use teecryptor.DirectDecrypt.Radix.{decode_radix}

-- 1 MiB
abbrev pub ct_size_limit : ℕ
ct_size_limit = 1048576

module _ {Ct : Type 0} (tfhe : Tfhe Ct) where
  unfoldable pub to_mirror :
      {M : Type 0} → (Bytes → Result String M) → Bytes → String → Result DecryptError M
  to_mirror decode bytes label = do
    ct ←
        map_err (λ e. deserialize (text_of label "" e))
          (tfhe.safe_deserialize label bytes ct_size_limit)
    plain ← map_err (λ e. direct_decrypt (text_of label "re-encode" e)) (tfhe.serialize ct)
    map_err (λ e. direct_decrypt (text_of label "mirror layout" e)) (decode plain)

unfoldable pub switched_radix : RadixMirror → Result DecryptError GenericMirror
switched_radix (RadixMirror.modulus_switched ms) = ok ms
switched_radix RadixMirror.seeded =
    err (direct_decrypt (text "seeded compressed ct: not an engine-stored form"))

-- `if m % msg_mod != 0 { U256::one() } else { U256::zero() }`
abbrev pub truth : ℕ × ℕ → ℕ
truth (m, msg_mod) = if (m % msg_mod) == 0 then 0 else 1

module _ {Ct : Type 0} (tfhe : Tfhe Ct) (key : DirectDecryptKey) where
  unfoldable pub decode_bool : InnerBoolMirror → Result DecryptError ℕ
  decode_bool (InnerBoolMirror.modulus_switched block) =
      decode_block tfhe key block >>= λ d. ok (truth d)
  decode_bool InnerBoolMirror.seeded =
      err (direct_decrypt (text "seeded compressed bool: not an engine-stored form"))

  unfoldable pub decrypt_bool : Bytes → Result DecryptError ℕ
  decrypt_bool bytes = do
    mirror ← to_mirror tfhe tfhe.deserialize_bool bytes "CompressedFheBool"
    decode_bool mirror.inner

module _ (big : Bignum) {Ct : Type 0} (tfhe : Tfhe Ct) (key : DirectDecryptKey) where
  unfoldable pub decrypt_uint : Bytes → String → ℕ → Result DecryptError ℕ
  decrypt_uint bytes label max_bits = do
    mirror ← to_mirror tfhe tfhe.deserialize_uint bytes label
    radix ← switched_radix mirror.ciphertext
    decode_radix big tfhe key radix max_bits

  unfoldable pub decrypt_compressed : EncryptionType → Bytes → Result DecryptError ℕ
  decrypt_compressed bool bytes = decrypt_bool tfhe key bytes
  decrypt_compressed u8 bytes = decrypt_uint bytes "CompressedFheUint8" (bits u8)
  decrypt_compressed u16 bytes = decrypt_uint bytes "CompressedFheUint16" (bits u16)
  decrypt_compressed u32 bytes = decrypt_uint bytes "CompressedFheUint32" (bits u32)
  decrypt_compressed u64 bytes = decrypt_uint bytes "CompressedFheUint64" (bits u64)
  decrypt_compressed u128 bytes = decrypt_uint bytes "CompressedFheUint128" (bits u128)
  decrypt_compressed address bytes = decrypt_uint bytes "CompressedFheUint160" (bits address)
