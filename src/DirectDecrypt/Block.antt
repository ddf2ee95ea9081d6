-- ===== src/DirectDecrypt/Block.antt =====
-- `decode_block`: the guards on a block, then the dot product and the rounding, over `u64` words.
use teecryptor.Prelude.{
  ℕ, ◌+◌, ◌-◌, ◌*◌, ◌/◌, ◌%◌, ◌^◌, Bool, true, false, ◌&&◌, Option, none, some, List, [], ◌∷◌,
  Result, ok, err, if◌then◌else◌, ◌>>=◌, ◌>>◌, ltb, leb, ◌==◌, length, u64_mod, wrapping_mul,
  wrapping_add, wrapping_sub, checked_mul, div_ceil,
}
use teecryptor.Decrypt.{
  text, text_num, DecryptError, moduli_mismatch, dimension_mismatch, packed_len_mismatch,
  wrong_atomic_pattern, direct_decrypt,
}
use teecryptor.DirectDecrypt.Mirror.{
  AtomicPatternKind, standard, keyswitch_bootstrap, ClassicMsCtMirror, InternalMirror, classic,
  multi_bit, BlockMirror, DirectDecryptKey, Tfhe,
}

abbrev pub guard : Bool → DecryptError → Result DecryptError (Unit {0})
guard true e = ok tt
guard false e = err e

abbrev pub is_keyswitch_bootstrap : AtomicPatternKind → Bool
is_keyswitch_bootstrap (standard keyswitch_bootstrap) = true
is_keyswitch_bootstrap _ = false

abbrev pub expect_classic : InternalMirror → Result DecryptError ClassicMsCtMirror
expect_classic (classic c) = ok c
expect_classic multi_bit = err (direct_decrypt (text "multi-bit compressed ct unsupported"))

-- `initial_len.checked_mul(log_mod).map(div_ceil 64).ok_or(..)?`
abbrev pub packed_words : ℕ → ℕ → Result DecryptError ℕ
packed_words n log = elim (checked_mul n log) [
  | none ↦ err packed_len_mismatch
  | some total ↦ ok (div_ceil total 64)
]

-- Steps 1 and 2: the moduli of the key, and the atomic pattern.
unfoldable pub check_block : DirectDecryptKey → BlockMirror → Result DecryptError ClassicMsCtMirror
check_block key block = do
  guard
      ((block.message_modulus == key.message_modulus) && (block.carry_modulus == key.carry_modulus))
      moduli_mismatch
  guard (is_keyswitch_bootstrap block.atomic_pattern) wrong_atomic_pattern
  expect_classic block.compressed_modulus_switched_lwe_ciphertext

-- Step 3: the structure is validated before it is unpacked.
unfoldable pub check_packed : DirectDecryptKey → ClassicMsCtMirror → Result DecryptError (Unit {0})
check_packed key ct = do
  let dim = length key.small_lwe_key
  let log_mod = ct.packed_integers.log_modulus
  let initial_len = ct.packed_integers.initial_len
  guard (ct.lwe_dimension == dim) (dimension_mismatch ct.lwe_dimension dim)
  guard (leb 1 log_mod && ltb log_mod 64) (direct_decrypt (text_num "invalid modulus log" log_mod))
  guard (initial_len == (ct.lwe_dimension + 1)) packed_len_mismatch
  expected_packed ← packed_words initial_len log_mod
  guard (length ct.packed_integers.packed_coeffs == expected_packed) packed_len_mismatch

-- `coeffs.split_last()`: the body, and the mask before it. `expect` panics on `None`.
unfoldable pub split_last : List ℕ → Option (ℕ × List ℕ)
split_last [] = none
split_last (c ∷ cs) = elim (split_last cs) [
  | none ↦ some (c, [])
  | some (body, mask) ↦ some (body, c ∷ mask)
]

-- `mask.iter().zip(sk).map(wrapping_mul).fold(0, wrapping_add)`
unfoldable pub dot_from : ℕ → List ℕ → List ℕ → ℕ
dot_from acc [] ss = acc
dot_from acc (a ∷ cs) [] = acc
dot_from acc (a ∷ cs) (s ∷ ss) = dot_from (wrapping_add acc (wrapping_mul a s)) cs ss

-- `body.wrapping_sub(dot) & ((1 << log_mod) - 1)`
unfoldable pub phase : ℕ → ℕ → ℕ → ℕ
phase log_mod body dot = wrapping_sub body dot % 2 ^ log_mod

-- `2 * msg_mod * carry_mod`, which a release build wraps
unfoldable pub space_of : DirectDecryptKey → ℕ
space_of key = (2 * key.message_modulus * key.carry_modulus) % u64_mod

-- `(((dec * space + (1 << (log_mod - 1))) >> log_mod) as u64) % space`, the inner part over `u128`
unfoldable pub round_to : ℕ → ℕ → ℕ → ℕ
round_to log_mod space dec = (dec * space + 2 ^ (log_mod - 1)) / 2 ^ log_mod % u64_mod % space

-- A remainder by zero panics; behind it the message modulus is not zero either.
abbrev pub decode_split : DirectDecryptKey → ℕ → Option (ℕ × List ℕ) → Result DecryptError (ℕ × ℕ)
decode_split key log_mod none = err (direct_decrypt (text "panic: split_last of no coefficients"))
decode_split key log_mod (some (body, mask)) =
    if space_of key == 0
    then err (direct_decrypt (text "panic: remainder with a divisor of zero"))
    else ok (
      round_to log_mod (space_of key) (phase log_mod body (dot_from 0 mask key.small_lwe_key)),
      key.message_modulus,
    )

module _ {Ct : Type 0} (tfhe : Tfhe Ct) where
  unfoldable pub decode_block : DirectDecryptKey → BlockMirror → Result DecryptError (ℕ × ℕ)
  decode_block key block = do
    ct ← check_block key block
    check_packed key ct
    decode_split key ct.packed_integers.log_modulus (split_last (tfhe.unpack ct.packed_integers))
