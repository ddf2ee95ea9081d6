-- ===== src/DirectDecrypt/Radix.antt =====
-- `decode_radix`: the digits of the blocks, the width check, and the number they make.
use teecryptor.Prelude.{
  ℕ, ◌+◌, ◌*◌, ◌/◌, ◌%◌, Bool, not, ◌&&◌, Option, none, some, List, [], ◌∷◌, ◌++◌, Result, ok, err,
  ◌>>=◌, ◌>>◌, leb, length, checked_mul, next_multiple_of, trailing_zeros, is_power_of_two,
}
use teecryptor.External.Bignum.{Bignum}
use teecryptor.Decrypt.{text, text_num, DecryptError, width_exceeded, direct_decrypt}
use teecryptor.DirectDecrypt.Mirror.{BlockMirror, GenericMirror, DirectDecryptKey, Tfhe}
use teecryptor.DirectDecrypt.Block.{guard, decode_block}

-- The digits of a decoded block: both of a pair, or the single one of the last block.
abbrev pub pair_digits : ℕ × ℕ → List ℕ
pair_digits (m, msg_mod) = (m % msg_mod) ∷ (m / msg_mod % msg_mod) ∷ []

abbrev pub last_digit : ℕ × ℕ → List ℕ
last_digit (m, msg_mod) = (m % msg_mod) ∷ []

module _ {Ct : Type 0} (tfhe : Tfhe Ct) (key : DirectDecryptKey) where
  -- the loop over `paired_blocks`, with the digits pushed so far
  unfoldable pub paired_digits : List ℕ → List BlockMirror → Result DecryptError (List ℕ)
  paired_digits digits [] = ok digits
  paired_digits digits (block ∷ blocks) =
      decode_block tfhe key block >>= λ d. paired_digits (digits ++ pair_digits d) blocks

  unfoldable pub last_digits : List ℕ → Option BlockMirror → Result DecryptError (List ℕ)
  last_digits digits none = ok digits
  last_digits digits (some block) = decode_block tfhe key block >>= λ d. ok (digits ++ last_digit d)

-- `digits.is_empty()`
abbrev pub is_empty : List ℕ → Bool
is_empty [] = Bool.true
is_empty (d ∷ ds) = Bool.false

-- `checked_mul(..).ok_or(..)?`, then the comparison with the declared width
unfoldable pub check_width : ℕ → ℕ → ℕ → Result DecryptError (Unit {0})
check_width bits_per_digit max_bits digits = elim (checked_mul bits_per_digit digits) [
  | none ↦ err (direct_decrypt (text "digit width overflow"))
  | some total_bits ↦
      guard (leb total_bits (next_multiple_of max_bits bits_per_digit))
        (width_exceeded total_bits max_bits)
]

module _ (big : Bignum) where
  -- `value |= U256::from(d) << (bits_per_digit * i)`, for `i` from the first index on
  unfoldable pub fold_digits : ℕ → ℕ → ℕ → List ℕ → ℕ
  fold_digits bits_per_digit value i [] = value
  fold_digits bits_per_digit value i (d ∷ ds) =
      fold_digits bits_per_digit (big.bor value (big.shl d (bits_per_digit * i))) (i + 1) ds

  module _ {Ct : Type 0} (tfhe : Tfhe Ct) (key : DirectDecryptKey) where
    unfoldable pub decode_radix : GenericMirror → ℕ → Result DecryptError ℕ
    decode_radix radix max_bits = do
      let msg_mod = key.message_modulus
      guard (is_power_of_two msg_mod && leb 2 msg_mod)
          (direct_decrypt (text_num "invalid message modulus" msg_mod))
      let bits_per_digit = trailing_zeros msg_mod
      paired ← paired_digits tfhe key [] radix.paired_blocks
      digits ← last_digits tfhe key paired radix.last_block
      guard (not (is_empty digits)) (direct_decrypt (text "empty radix ciphertext"))
      check_width bits_per_digit max_bits (length digits)
      ok (fold_digits bits_per_digit 0 0 digits)
