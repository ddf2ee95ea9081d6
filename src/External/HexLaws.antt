-- ===== src/External/HexLaws.antt =====
-- The number that hex text spells: by pairs, behind leading zeros, and its digits.
use teecryptor.Prelude.{
  ℕ, zero, suc, ◌+◌, ◌-◌, ◌*◌, ◌%◌, ◌≤◌, ◌≡◌, refl, ap, ◌∙◌, true, [], ◌∷◌, ◌++◌, arith, length,
  all, replicate, Bytes, is_ascii_hexdigit, length-append, length-replicate,
}
use teecryptor.External.Hex.{digit_value, hex_value_from, hex_value, hex_bytes}
use teecryptor.External.Bignum.{be_value_from}

-- Pairs of hex digits spell the same number as the digits one by one.
pub be_value-hex_bytes :
    (acc : ℕ) (cs : Bytes)
    → (length cs % 2) ≡ 0
    → be_value_from acc (hex_bytes cs) ≡ hex_value_from acc cs
be_value-hex_bytes acc [] h = refl
be_value-hex_bytes acc (c ∷ []) h = absurd (omega arith)
be_value-hex_bytes acc (c ∷ d ∷ cs) h =
    ap (λ t. be_value_from t (hex_bytes cs))
      (let e : acc * 256 + (digit_value c * 16 + digit_value d)
            ≡ (acc * 16 + digit_value c) * 16 + digit_value d =
          omega arith in
        e)
    ∙ be_value-hex_bytes ((acc * 16 + digit_value c) * 16 + digit_value d) cs (omega arith)

pub hex_value-zeros : (k : ℕ) (cs : Bytes) → hex_value (replicate k b'0' ++ cs) ≡ hex_value cs
unfolding digit_value
hex_value-zeros zero cs = refl
hex_value-zeros (suc k) cs = hex_value-zeros k cs

pub hexdigit-zeros :
    (k : ℕ) (cs : Bytes)
    → all is_ascii_hexdigit cs ≡ true
    → all is_ascii_hexdigit (replicate k b'0' ++ cs) ≡ true
hexdigit-zeros zero cs h = h
hexdigit-zeros (suc k) cs h = hexdigit-zeros k cs h

pub length-zeros :
    (cs : Bytes) → length cs ≤ 64 → length (replicate (64 - length cs) b'0' ++ cs) ≡ 64
length-zeros cs h = omega (
  arith,
  length-append {A = ℕ} (replicate (64 - length cs) b'0') cs,
  length-replicate {A = ℕ} (64 - length cs) b'0',
)
