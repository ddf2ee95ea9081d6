-- ===== src/Seal.antt =====
-- src/seal.rs: sealing a plaintext to the key of the caller. The field `data` is `bytes` here.
use teecryptor.Prelude.{
  ℕ, not, String, Result, ok, err, map_err, ◌>>=◌, ◌==◌, if◌then◌else◌, length, all, Bytes,
}

pub record SealedOutput : Type 0 where
  pub bytes : Bytes
  pub public_key : Bytes
  pub nonce : Bytes

pub data SealError : Type 0 where
  bad_key_length : ℕ → SealError
  degenerate_key : SealError
  encrypt_failed : String → SealError

-- `dryoc` in one call: the generated key pair and nonce, and the box.
pub record DryocBox : Type 0 where
  pub ephemeral_public_key : Bytes
  pub nonce : Bytes
  pub encrypt_to_vecbox : (plaintext recipient_pk : Bytes) → Result String Bytes

unfoldable pub seal_to_user :
    DryocBox → (recipient_public_key plaintext : Bytes) → Result SealError SealedOutput
seal_to_user dryoc pk plaintext =
    if not (length pk == 32)
    then err (bad_key_length (length pk))
    else if all (λ b. b == 0) pk
    then err degenerate_key
    else map_err encrypt_failed (dryoc.encrypt_to_vecbox plaintext pk) >>= λ data_.
        ok (record { bytes = data_; public_key = dryoc.ephemeral_public_key; nonce = dryoc.nonce })
