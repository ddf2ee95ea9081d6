-- ===== src/Decrypt.antt =====
-- src/decrypt.rs, the encryption types of the wire, and src/error.rs, the decryption errors.
pub mod Laws
mod Tests
use teecryptor.Prelude.{
  ℕ, ◌-◌, Bool, String, Result, ok, err, ℤ, pos, negsuc, ◌==◌, if◌then◌else◌, drop, Bytes,
}
use teecryptor.External.Bignum.{Bignum}

-- A message with the parts that `format!` puts into it.
pub data Message : Type 0 where
  text : String → Message
  text_of : (label what detail : String) → Message
  text_num : String → ℕ → Message

pub data DecryptError : Type 0 where
  unsupported_type : ℤ → DecryptError
  width_exceeded : (got_bits max_bits : ℕ) → DecryptError
  moduli_mismatch : DecryptError
  dimension_mismatch : (ct key : ℕ) → DecryptError
  packed_len_mismatch : DecryptError
  wrong_atomic_pattern : DecryptError
  deserialize : Message → DecryptError
  direct_decrypt : Message → DecryptError

pub data EncryptionType : Type 0 where
  bool u8 u16 u32 u64 u128 address : EncryptionType

-- `ty as i32`
abbrev pub to_i32 : EncryptionType → ℤ
to_i32 bool = pos 0
to_i32 u8 = pos 2
to_i32 u16 = pos 3
to_i32 u32 = pos 4
to_i32 u64 = pos 5
to_i32 u128 = pos 6
to_i32 address = pos 7

unfoldable pub from_i32 : ℤ → Result DecryptError EncryptionType
from_i32 (negsuc n) = err (unsupported_type (negsuc n))
from_i32 (pos n) =
    if n == 0
    then ok bool
    else if n == 2
    then ok u8
    else if n == 3
    then ok u16
    else if n == 4
    then ok u32
    else if n == 5
    then ok u64
    else if n == 6
    then ok u128
    else if n == 7
    then ok address
    else err (unsupported_type (pos n))

unfoldable pub bits : EncryptionType → ℕ
bits bool = 1
bits u8 = 8
bits u16 = 16
bits u32 = 32
bits u64 = 64
bits u128 = 128
bits address = 160

unfoldable pub as_str : EncryptionType → String
as_str bool = "bool"
as_str u8 = "u8"
as_str u16 = "u16"
as_str u32 = "u32"
as_str u64 = "u64"
as_str u128 = "u128"
as_str address = "address"

-- The width in bytes that `encode` cuts the number to.
unfoldable pub width : EncryptionType → ℕ
width bool = 1
width u8 = 1
width u16 = 2
width u32 = 4
width u64 = 8
width u128 = 16
width address = 20

-- `buf[32 - width..].to_vec()`
unfoldable pub encode : Bignum → EncryptionType → ℕ → Bytes
encode big ty value = drop (32 - width ty) (big.to_be_bytes value)
