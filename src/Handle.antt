-- ===== src/Handle.antt =====
-- src/http.rs, the ciphertext handle of a request, and src/cofhe_layout.rs, its metadata bytes.
pub mod Laws
mod Tests
use teecryptor.Prelude.{
  ℕ, ◌%◌, ◌^◌, Bool, not, ◌||◌, Option, none, some, ◌++◌, map, ◌==◌, if◌then◌else◌, length,
  get_elem?, all, Bytes, strip_prefix, unwrap_or, or_else, is_ascii_hexdigit, to_ascii_lowercase,
  lower_0x, upper_0x,
}
use teecryptor.External.Bignum.{Bignum}

pub record Handle : Type 0 where
  pub hex : Bytes
  pub u256 : ℕ

-- The digits behind an optional `0x` or `0X`.
unfoldable pub digits_of : Bytes → Bytes
digits_of raw = unwrap_or (or_else (strip_prefix lower_0x raw) (strip_prefix upper_0x raw)) raw

unfoldable pub refused : Bytes → Bool
refused digits = not (length digits == 64) || not (all is_ascii_hexdigit digits)

-- `0x` and the lowercase digits
unfoldable pub canonical : Bytes → Bytes
canonical digits = lower_0x ++ map to_ascii_lowercase digits

-- `U256::from_str_radix(digits, 16).ok()?` and the construction
abbrev build : Bytes → Option ℕ → Option Handle
build digits none = none
build digits (some u256) = some (record { hex = canonical digits; u256 = u256 })

module _ (big : Bignum) where
  unfoldable pub parse : Bytes → Option Handle
  unfolding digits_of refused canonical
  parse raw =
      let digits = digits_of raw in
      if refused digits then none else build digits (big.from_hex digits)

-- cofhe_layout.rs: TYPE_BYTE, ZONE_BYTE, and `byte & TYPE_MASK` with the mask 2 ^ 7 - 1
abbrev pub type_byte : ℕ
type_byte = 30

abbrev pub zone_byte : ℕ
zone_byte = 31

abbrev pub type_mask_bits : ℕ
type_mask_bits = 7

-- Indexing panics out of range; the array has 32 bytes.
unfoldable pub handle_type : Bytes → ℕ
handle_type handle = unwrap_or (get_elem? handle type_byte) 0 % 2 ^ type_mask_bits

unfoldable pub handle_zone : Bytes → ℕ
handle_zone handle = unwrap_or (get_elem? handle zone_byte) 0
