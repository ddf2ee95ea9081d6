-- ===== src/Commitment/Version.antt =====
-- src/commitment.rs: the commitment version, and the status of a version on the registry.
use teecryptor.Prelude.{
  ℕ, Bool, false, ◌||◌, Option, none, some, List, [], ◌∷◌, String, Result, ok, err, ◌>>=◌, ok_or,
  map_err, not, ◌==◌, if◌then◌else◌, length, Bytes, strip_prefix, is_ascii_uppercase, lower_0x,
}
use teecryptor.External.Hex.{Hex}
use teecryptor.External.Bignum.{be_value_from}

-- Which of the messages of `parse_version` an `Err` carries.
pub data VersionError : Type 0 where
  no_prefix : VersionError
  wrong_length : ℕ → VersionError
  uppercase : VersionError
  not_hex : String → VersionError

abbrev pub version_hex_digits : ℕ
version_hex_digits = 64

abbrev pub any : (ℕ → Bool) → Bytes → Bool
any p [] = false
any p (c ∷ cs) = p c || any p cs

-- The checks on the digits behind `0x`. `FixedBytes::from_slice` reads the bytes big-endian.
unfoldable pub parse_digits : Hex → Bytes → Result VersionError ℕ
parse_digits hex digits =
    if not (length digits == version_hex_digits)
    then err (wrong_length (length digits))
    else if any is_ascii_uppercase digits
    then err uppercase
    else map_err not_hex (hex.decode digits) >>= λ bytes. ok (be_value_from 0 bytes)

unfoldable pub parse_version : Hex → Bytes → Result VersionError ℕ
parse_version hex s = ok_or no_prefix (strip_prefix lower_0x s) >>= parse_digits hex

pub data VersionStatus : Type 0 where
  unset active deprecated revoked : VersionStatus

-- `status as u8`
abbrev pub discriminant : VersionStatus → ℕ
discriminant unset = 0
discriminant active = 1
discriminant deprecated = 2
discriminant revoked = 3

-- `iter().find(|s| *s as u8 == status)`
abbrev pub find_status : ℕ → List VersionStatus → Option VersionStatus
find_status status [] = none
find_status status (s ∷ ss) = if discriminant s == status then some s else find_status status ss

unfoldable pub from_u8 : ℕ → Option VersionStatus
from_u8 status = find_status status (unset ∷ active ∷ deprecated ∷ revoked ∷ [])

unfoldable pub name : VersionStatus → String
name unset = "Unset"
name active = "Active"
name deprecated = "Deprecated"
name revoked = "Revoked"

unfoldable pub name_of : ℕ → String
name_of status = elim (from_u8 status) [ none ↦ "Unknown" | some s ↦ name s ]
