-- ===== src/External/Samples.antt =====
-- Concrete instances of the interfaces, for tests.
use teecryptor.Prelude.{
  ◌+◌, ◌*◌, ◌%◌, ◌^◌, ◌≡◌, refl, some, Bool, true, false, ◌&&◌, ◌==◌, arith, String, Result, ok,
  err, if◌then◌else◌, length, all, Bytes, is_ascii_hexdigit,
}
use teecryptor.External.Hex.{Hex, hex_value, hex_bytes}
use teecryptor.External.Bignum.{Bignum, be_bytes}

-- Addition stands in for `|`, which the program applies to numbers with no bit in common.
abbrev pub sample_big : Bignum
sample_big = record {
  from_hex = λ s. some (hex_value s);
  to_be_bytes = be_bytes 32;
  shl = λ a k. (a * 2 ^ k) % 2 ^ 256;
  bor = λ a b. a + b;
  from_hex_lem = λ s h l. refl;
  to_be_bytes_lem = λ v. refl;
  shl_lem = λ a k. refl;
  bor_disjoint = λ a c k h. refl;
}

-- The decoder of the interface's laws.
abbrev pub sample_decode : Bytes → Result String Bytes
sample_decode s =
    if all is_ascii_hexdigit s && ((length s % 2) == 0) then ok (hex_bytes s) else err "not hex"

pub sample_decode-ok :
    (s : Bytes)
    → all is_ascii_hexdigit s ≡ true
    → (length s % 2) ≡ 0
    → sample_decode s ≡ ok (hex_bytes s)
sample_decode-ok s h e = rw (h, e)

pub sample_decode-checks :
    (s bs : Bytes)
    → sample_decode s ≡ ok bs
    → (all is_ascii_hexdigit s ≡ true) × ((length s % 2) ≡ 0)
sample_decode-checks s bs e = go (all is_ascii_hexdigit s) refl
  where
    go :
        (b : Bool)
        → all is_ascii_hexdigit s ≡ b
        → (all is_ascii_hexdigit s ≡ true) × ((length s % 2) ≡ 0)
    go true h = (h, ground arith)
    go false h = cc (rw h at e)

abbrev pub sample_hex : Hex
sample_hex = record {
  decode = sample_decode;
  decode-ok = sample_decode-ok;
  decode_digits = λ s bs e. (sample_decode-checks s bs e).0;
  decode_even = λ s bs e. (sample_decode-checks s bs e).1;
}
