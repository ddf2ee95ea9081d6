-- ===== src/Boot/Numbers.antt =====
-- Unsigned 64-bit decimals, as the standard library of Rust reads and prints them.
use teecryptor.Prelude.{
  ℕ, zero, suc, ◌+◌, ◌-◌, ◌*◌, ◌/◌, ◌%◌, ◌&&◌, Option, none, some, [], ◌∷◌, ltb, leb, ◌==◌,
  if◌then◌else◌, Bytes, u64_mod,
}

-- The digits from the most significant on; a value past the word is an error.
unfoldable pub parse_decimal : (value : ℕ) → Bytes → Option ℕ
parse_decimal value [] = some value
parse_decimal value (c ∷ cs) =
    let rest = parse_decimal (value * 10 + (c - b'0')) cs in
    if leb b'0' c && leb c b'9' && ltb (value * 10 + (c - b'0')) u64_mod then rest else none

-- `str::parse::<u64>`: at least one digit, behind an optional `+`. A `usize` has the same range.
unfoldable pub parse_u64 : Bytes → Option ℕ
parse_u64 [] = none
parse_u64 (c ∷ []) = parse_decimal 0 (c ∷ [])
parse_u64 (c ∷ d ∷ cs) =
    if c == b'+' then parse_decimal 0 (d ∷ cs) else parse_decimal 0 (c ∷ d ∷ cs)

unfoldable pub print_digits : (fuel n : ℕ) → Bytes → Bytes
print_digits zero n tail = tail
print_digits (suc fuel) n tail =
    let digit = b'0' + n % 10 in
    let rest = print_digits fuel (n / 10) (digit ∷ tail) in if ltb n 10 then digit ∷ tail else rest

-- `u64::to_string`; twenty digits are enough for 64 bits.
unfoldable pub to_string : ℕ → Bytes
unfolding print_digits
to_string n = print_digits 20 n []
