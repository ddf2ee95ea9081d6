-- ===== src/Handle/Tests.antt =====
-- Runs of the handle parser, and its theorems at concrete handles.
use teecryptor.Prelude.{
  ◌≡◌, refl, ◌↔◌, ◌⊎◌, map, to_ascii_lowercase, none, some, ◌∷◌, ◌++◌, replicate, [], Bytes, length,
  true, all, is_ascii_hexdigit,
}
use teecryptor.External.Hex.{digit_value, hex_value}
use teecryptor.External.Samples.{sample_big}
use teecryptor.Handle.{Handle, parse}
use teecryptor.Handle.Laws.{parse-accepts_iff, parse-hex}

-- "0XAA..A05" and "aa..a05"
abbrev shouted : Bytes
shouted = b'0' ∷ b'X' ∷ (replicate 62 b'A' ++ b'0' ∷ b'5' ∷ [])

abbrev plain : Bytes
plain = replicate 62 b'a' ++ b'0' ∷ b'5' ∷ []

abbrev same : Handle
same = record {
  hex = b'0' ∷ b'x' ∷ plain;
  u256 = 77194726158210796949047323339125271902179989777093709359638389338608753093125;
}

parse-shouted : parse sample_big shouted ≡ some same
unfolding parse digit_value
parse-shouted = refl

parse-plain : parse sample_big plain ≡ some same
unfolding parse digit_value
parse-plain = refl

parse_short : parse sample_big (b'0' ∷ b'x' ∷ b'1' ∷ []) ≡ none
unfolding parse
parse_short = refl

parse-accepts_iff_example : (parse sample_big shouted ≡ some same) ↔ (
    (ds : Bytes) × ((shouted ≡ ds) ⊎ ((shouted ≡ b'0' ∷ b'x' ∷ ds) ⊎ (shouted ≡ b'0' ∷ b'X' ∷ ds)))
    × (length ds ≡ 64)
    × (all is_ascii_hexdigit ds ≡ true)
    × (same ≡ record { hex = b'0' ∷ b'x' ∷ map to_ascii_lowercase ds; u256 = hex_value ds }))
parse-accepts_iff_example = parse-accepts_iff sample_big shouted same

parse-hex_example : parse sample_big same.hex ≡ some same
parse-hex_example = parse-hex sample_big shouted same parse-shouted
