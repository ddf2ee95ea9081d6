-- ===== src/Signing.antt =====
-- src/signing/service.rs and src/signing/signer.rs: what is signed, and the form of a signature.
pub mod Laws
pub mod Tests
use teecryptor.Prelude.{
  ℕ, ◌+◌, ◌-◌, ◌^◌, ◌≡◌, Bool, true, false, not, ◌||◌, ◌&&◌, Option, none, some, [], ◌∷◌, ◌++◌, map,
  String, Result, ok, err, ◌>>=◌, map_err, ℤ, pos, negsuc, ◌==◌, if◌then◌else◌, length, Bytes,
  strip_prefix, unwrap_or, or_else, lower_0x, upper_0x, eq_bytes, to_ascii_lowercase,
}
use teecryptor.External.Hex.{Hex}
use teecryptor.External.Bignum.{Bignum, be_bytes}

pub data SignatureVFormat : Type 0 where
  raw evm : SignatureVFormat

abbrev pub evm_recovery_id_offset : ℕ
evm_recovery_id_offset = 27

unfoldable pub convert_v : SignatureVFormat → ℕ → ℕ
convert_v raw raw_v = raw_v
convert_v evm raw_v = raw_v + evm_recovery_id_offset

-- `from_str`, on the visible ASCII that a header value has
unfoldable pub from_str : Bytes → SignatureVFormat
from_str s = if eq_bytes (map to_ascii_lowercase s) (b'e' ∷ b'v' ∷ b'm' ∷ []) then evm else raw

-- src/http.rs: `parse_v_format`, on the header's value where it is present and reads as text
unfoldable pub parse_v_format : Option Bytes → SignatureVFormat
parse_v_format none = raw
parse_v_format (some s) = from_str s

pub data SigningError : Type 0 where
  invalid_key : String → SigningError
  signing_failed : String → SigningError
  hex_decode_error : String → SigningError
  ct_hash_length : ℕ → SigningError

-- What `sign_prehash` uses of `k256`: the signature of a hash under the process's key, the flags of
-- a recovery id, and the low-S form.
pub record K256 (Sig RecoveryId : Type 0) : Type 0 where
  pub sign_prehash : Bytes → Result String (Sig × RecoveryId)
  pub is_high : Sig → Bool
  pub normalize_s : Sig → Option Sig
  pub to_bytes : Sig → Bytes
  pub is_y_odd : RecoveryId → Bool
  pub is_x_reduced : RecoveryId → Bool
  pub new : (is_y_odd is_x_reduced : Bool) → RecoveryId
  pub to_byte : RecoveryId → ℕ
  pub normalize_s-low : (s t : Sig) → normalize_s s ≡ some t → is_high t ≡ false
  pub normalize_s-none : (s : Sig) → normalize_s s ≡ none → is_high s ≡ false
  pub is_y_odd-new : (y x : Bool) → is_y_odd (new y x) ≡ y

-- `a ^ b` on booleans
abbrev pub xor : Bool → Bool → Bool
xor true b = not b
xor false b = b

module _ {Sig RecoveryId : Type 0} (k256 : K256 Sig RecoveryId) where
  unfoldable pub sign_prehash : Bytes → Result SigningError (Sig × RecoveryId)
  sign_prehash hash = do
    signed ← map_err signing_failed (k256.sign_prehash hash)
    ok (
      unwrap_or (k256.normalize_s signed.0) signed.0,
      k256.new (xor (k256.is_y_odd signed.1) (k256.is_high signed.0)) (k256.is_x_reduced signed.1),
    )

  -- the 64 bytes of the signature and the recovery id, before `hex::encode`
  unfoldable pub sign_with_format : SignatureVFormat → Bytes → Result SigningError Bytes
  sign_with_format v_format hash = do
    signed ← sign_prehash hash
    ok (k256.to_bytes signed.0 ++ convert_v v_format (k256.to_byte signed.1) ∷ [])

-- `i32::to_be_bytes`
unfoldable pub i32_be : ℤ → Bytes
i32_be (pos n) = be_bytes 4 n
i32_be (negsuc n) = be_bytes 4 (2 ^ 32 - (n + 1))

module _ (hex : Hex) where
  unfoldable pub parse_ct_hash : Bytes → Result SigningError Bytes
  parse_ct_hash hex_str = do
    bytes ← map_err hex_decode_error (
        hex.decode (
          unwrap_or (or_else (strip_prefix lower_0x hex_str) (strip_prefix upper_0x hex_str))
            hex_str))
    (if length bytes == 32 then ok bytes else err (ct_hash_length (length bytes)))

unfoldable pub decrypt_preimage :
    Bignum → (plaintext : ℕ) (encryption_type : ℤ) (chain_id : ℕ) (hash : Bytes) → Bytes
decrypt_preimage big plaintext enc chain hash =
    big.to_be_bytes plaintext ++ (i32_be enc ++ (be_bytes 8 chain ++ hash))

unfoldable pub seal_preimage :
    (sealed ephemeral_pk nonce : Bytes) (encryption_type : ℤ) (chain_id : ℕ) (hash : Bytes) → Bytes
seal_preimage sealed pk nonce enc chain hash =
    sealed ++ (pk ++ (nonce ++ (i32_be enc ++ (be_bytes 8 chain ++ hash))))

-- `SigningService`: the signer, its address, and the two encoders that it calls.
pub record SigningService (Sig RecoveryId : Type 0) : Type 0 where
  pub k256 : K256 Sig RecoveryId
  pub evm_address : Bytes
  pub keccak256 : Bytes → Bytes
  pub hex_encode : Bytes → Bytes

module _ (hex : Hex) {Sig RecoveryId : Type 0} (svc : SigningService Sig RecoveryId) where
  -- `sign_prehash_to_hex_with_format` of the hash of a preimage
  unfoldable pub sign_preimage : SignatureVFormat → Bytes → Result SigningError Bytes
  sign_preimage v_format preimage =
      sign_with_format svc.k256 v_format (svc.keccak256 preimage) >>= λ signed.
      ok (svc.hex_encode signed)

  unfoldable pub sign_decrypt :
      Bignum
      → (plaintext : ℕ) → ℤ
      → (chain_id : ℕ) → (ct_hash : Bytes) → SignatureVFormat
      → Result SigningError Bytes
  sign_decrypt big plaintext enc chain ct_hash v_format = parse_ct_hash hex ct_hash >>= λ hash.
      sign_preimage v_format (decrypt_preimage big plaintext enc chain hash)

  unfoldable pub sign_sealoutput :
      (sealed ephemeral_pk nonce : Bytes)
      → ℤ
      → (chain_id : ℕ) → (ct_hash : Bytes) → SignatureVFormat
      → Result SigningError Bytes
  sign_sealoutput sealed pk nonce enc chain ct_hash v_format = parse_ct_hash hex ct_hash >>= λ hash.
      sign_preimage v_format (seal_preimage sealed pk nonce enc chain hash)
