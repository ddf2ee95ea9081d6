-- ===== src/External/Hex.antt =====
-- The value of hex text, and the crate `hex`.
use teecryptor.Prelude.{
  ℕ, ◌+◌, ◌-◌, ◌*◌, ◌≡◌, true, [], ◌∷◌, ◌%◌, String, Result, ok, leb, if◌then◌else◌, length, all,
  Bytes, is_ascii_hexdigit,
}

-- The value of one hex digit of either case.
unfoldable pub digit_value : ℕ → ℕ
digit_value c = if leb c b'9' then c - b'0' else if leb c b'F' then c - b'A' + 10 else c - b'a' + 10

abbrev pub hex_value_from : ℕ → Bytes → ℕ
hex_value_from acc [] = acc
hex_value_from acc (c ∷ cs) = hex_value_from (acc * 16 + digit_value c) cs

-- The number that hex digits spell, the most significant first.
abbrev pub hex_value : Bytes → ℕ
hex_value cs = hex_value_from 0 cs

-- The bytes that an even number of hex digits spell.
abbrev pub hex_bytes : Bytes → Bytes
hex_bytes [] = []
hex_bytes (c ∷ []) = []
hex_bytes (c ∷ d ∷ cs) = (digit_value c * 16 + digit_value d) ∷ hex_bytes cs

-- `hex::decode` accepts an even number of hex digits of either case, and nothing else.
pub record Hex : Type 0 where
  pub decode : Bytes → Result String Bytes
  pub decode-ok :
      (s : Bytes)
      → all is_ascii_hexdigit s ≡ true
      → (length s % 2) ≡ 0
      → decode s ≡ ok (hex_bytes s)
  pub decode_digits : (s bs : Bytes) → decode s ≡ ok bs → all is_ascii_hexdigit s ≡ true
  pub decode_even : (s bs : Bytes) → decode s ≡ ok bs → (length s % 2) ≡ 0
