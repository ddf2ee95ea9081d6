-- ===== src/DirectDecrypt/Tests.antt =====
-- A toy key of dimension 3, a codec and `unpack` for it, runs, and the theorems at its blocks.
use native.Mathlib.Nat.{mod-lt}
use teecryptor.Prelude.{
  ℕ, zero, suc, ◌+◌, ◌*◌, ◌/◌, ◌%◌, ◌^◌, ◌<◌, ◌≡◌, ◌↔◌, refl, ap, none, List, [], ◌∷◌, arith, ok,
  err, leb, if◌then◌else◌, length, All, pow-pos, trailing_zeros, is_power_of_two, next_multiple_of,
  Bytes,
}
use teecryptor.External.Samples.{sample_big}
use teecryptor.Decrypt.{moduli_mismatch, width_exceeded, bool, bits}
use teecryptor.DirectDecrypt.Mirror.{
  standard, keyswitch_bootstrap, ClassicMsCtMirror, classic, BlockMirror, GenericMirror,
  RadixMirror, InnerBoolMirror, DirectDecryptKey, Tfhe,
}
use teecryptor.DirectDecrypt.Block.{
  check_block, check_packed, split_last, dot_from, phase, space_of, round_to, decode_block,
}
use teecryptor.DirectDecrypt.BlockLaws.{
  IsDecodable, decode_block-IsDecodable_iff, decode_block-plaintext,
}
use teecryptor.DirectDecrypt.Radix.{
  paired_digits, last_digits, check_width, fold_digits, decode_radix,
}
use teecryptor.DirectDecrypt.RadixLaws.{digits_value}
use teecryptor.DirectDecrypt.RoundTrip.{ArePacked, decode_radix-packed}
use teecryptor.DirectDecrypt.Top.{
  to_mirror, switched_radix, decrypt_uint, decode_bool, decrypt_bool, decrypt_compressed,
}

abbrev pub words_value : List ℕ → ℕ
words_value [] = 0
words_value (w ∷ ws) = w + 2 ^ 64 * words_value ws

abbrev pub unpack_from : ℕ → ℕ → ℕ → List ℕ
unpack_from zero log v = []
unpack_from (suc n) log v = v % 2 ^ log ∷ unpack_from n log (v / 2 ^ log)

pub length-unpack_from : (n log v : ℕ) → length (unpack_from n log v) ≡ n
length-unpack_from zero log v = refl
length-unpack_from (suc n) log v = ap suc (length-unpack_from n log (v / 2 ^ log))

pub unpack_from-lt : (n log v : ℕ) → All (λ c. c < 2 ^ log) (unpack_from n log v)
unpack_from-lt zero log v = tt
unpack_from-lt (suc n) log v = (mod-lt v (pow-pos log), unpack_from-lt n log (v / 2 ^ log))

abbrev pub key : DirectDecryptKey
key = record { small_lwe_key = 1 ∷ 0 ∷ 1 ∷ []; message_modulus = 4; carry_modulus = 4 }

-- The digits 1 and 2, packed as 9, in steps of 128 with a noise of 5.
abbrev pub ct : ClassicMsCtMirror
ct = record {
  packed_integers = record {
    packed_coeffs = (100 + 200 * 4096 + 4000 * 4096 ^ 2 + 1161 * 4096 ^ 3) ∷ [];
    log_modulus = 12;
    initial_len = 4;
  };
  lwe_dimension = 3;
}

abbrev pub block : BlockMirror
block = record {
  compressed_modulus_switched_lwe_ciphertext = classic ct;
  degree = 15;
  message_modulus = 4;
  carry_modulus = 4;
  atomic_pattern = standard keyswitch_bootstrap;
}

abbrev pub radix : GenericMirror
radix = record { paired_blocks = block ∷ []; last_block = none }

abbrev pub toy : Tfhe Bytes
toy = record {
  safe_deserialize =
      λ label bytes limit. if leb (length bytes) limit then ok bytes else err "too large";
  serialize = λ ct. ok ct;
  deserialize_uint = λ plain. ok (record { ciphertext = RadixMirror.modulus_switched radix });
  deserialize_bool = λ plain. ok (record { inner = InnerBoolMirror.modulus_switched block });
  unpack = λ p. unpack_from p.initial_len p.log_modulus (words_value p.packed_coeffs);
  length-unpack =
      λ p lo hi len. length-unpack_from p.initial_len p.log_modulus (words_value p.packed_coeffs);
  unpack-lt =
      λ p lo hi len. unpack_from-lt p.initial_len p.log_modulus (words_value p.packed_coeffs);
}

runs : Unit {0}
unfolding decode_block check_block check_packed split_last dot_from phase space_of round_to
    decode_radix paired_digits last_digits check_width fold_digits trailing_zeros is_power_of_two
    to_mirror switched_radix decrypt_uint decode_bool decrypt_bool decrypt_compressed bits
runs = tt

decode_block_run : decode_block toy key block ≡ ok (9, 4)
unfolding runs
decode_block_run = refl

decode_block_mismatch :
    decode_block toy (record key { carry_modulus = 2 }) block ≡ err moduli_mismatch
unfolding runs
decode_block_mismatch = refl

too_wide : decode_radix sample_big toy key radix 1 ≡ err (width_exceeded 4 1)
unfolding runs
too_wide = refl

decrypt_bool_run : decrypt_compressed sample_big toy key bool (7 ∷ []) ≡ ok 1
unfolding runs
decrypt_bool_run = refl

decodable : IsDecodable key block ct
decodable = record {
  message = refl;
  carry = refl;
  pattern = refl;
  form = refl;
  dimension = refl;
  log_pos = omega arith;
  log_lt = omega arith;
  len = refl;
  no_overflow = omega arith;
  packed = refl;
}

decode_block-IsDecodable_iff_example :
    ((r : ℕ × ℕ) × (decode_block toy key block ≡ ok r))
    ↔ ((ct : ClassicMsCtMirror) × IsDecodable key block ct × (0 < space_of key))
decode_block-IsDecodable_iff_example = decode_block-IsDecodable_iff toy key block

decode_block-plaintext_example : decode_block toy key block ≡ ok (9, key.message_modulus)
unfolding runs
decode_block-plaintext_example =
    decode_block-plaintext toy key block {ct = ct} {body = 1161} {mask = 100 ∷ 200 ∷ 4000 ∷ []} 64 9
      69 decodable refl refl (omega arith) (omega arith) refl

packed : ArePacked toy key (block ∷ []) (1 ∷ 2 ∷ [])
unfolding runs
packed = (refl, omega arith, omega arith, tt)

decode_radix-packed_example : decode_radix sample_big toy key radix 8 ≡ (
    if leb (trailing_zeros 4 * 2) (next_multiple_of 8 (trailing_zeros 4))
    then ok (digits_value (trailing_zeros 4) (1 ∷ 2 ∷ []))
    else err (width_exceeded (trailing_zeros 4 * 2) 8))
unfolding runs
decode_radix-packed_example =
    decode_radix-packed sample_big toy key block [] (1 ∷ 2 ∷ []) 8 refl (omega arith) packed
      (omega arith)
