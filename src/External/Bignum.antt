-- ===== src/External/Bignum.antt =====
-- The 256-bit integers of `alloy` and `primitive-types`. A value is the number that it stands for,
-- below 2 ^ 256; the operations that the program calls are parameters with their documented laws.
use teecryptor.Prelude.{
  ℕ, zero, suc, ◌+◌, ◌*◌, ◌/◌, ◌%◌, ◌^◌, ◌≤◌, ◌<◌, ◌≡◌, true, Option, some, [], ◌∷◌, ◌++◌, length,
  all, Bytes, is_ascii_hexdigit,
}
use teecryptor.External.Hex.{hex_value}

-- The lowest `n` bytes of a number, the most significant first.
abbrev pub be_bytes : ℕ → ℕ → Bytes
be_bytes zero v = []
be_bytes (suc n) v = be_bytes n (v / 256) ++ (v % 256) ∷ []

-- The number that bytes spell, the most significant first.
abbrev pub be_value_from : ℕ → Bytes → ℕ
be_value_from acc [] = acc
be_value_from acc (b ∷ bs) = be_value_from (acc * 256 + b) bs

pub record Bignum : Type 0 where
  -- `U256::from_str_radix(s, 16).ok()`
  pub from_hex : Bytes → Option ℕ
  pub to_be_bytes : ℕ → Bytes
  -- `a << k` and `a | b`
  pub shl : ℕ → ℕ → ℕ
  pub bor : ℕ → ℕ → ℕ
  pub from_hex_lem :
      (s : Bytes) → all is_ascii_hexdigit s ≡ true → length s ≤ 64 → from_hex s ≡ some (hex_value s)
  pub to_be_bytes_lem : (v : ℕ) → to_be_bytes v ≡ be_bytes 32 v
  pub shl_lem : (a k : ℕ) → shl a k ≡ (a * 2 ^ k) % 2 ^ 256
  pub bor_disjoint : (a c k : ℕ) → a < 2 ^ k → bor a (c * 2 ^ k) ≡ a + c * 2 ^ k
