-- ===== src/DirectDecrypt/RoundTrip.antt =====
-- Blocks that hold the digits of a number in pairs are decoded back to that number.
use mathlib.Core.Path.{subst}
use mathlib.Core.List.{append-nil, append_assoc}
use native.Mathlib.Nat.{mod-eq_of_lt, add-mul-mod_self_left, add-mul-div_left, div-eq_of_lt}
use teecryptor.Prelude.{
  ℕ, ◌+◌, ◌*◌, ◌/◌, ◌%◌, ◌^◌, ◌≤◌, ◌<◌, ◌≡◌, refl, sym, ap, ◌∙◌, Bool, true, false, none, some,
  List, [], ◌∷◌, ◌++◌, arith, ok, err, ◌>>=◌, leb, if◌then◌else◌, length, u64_mod, pow-pos,
  checked_mul, next_multiple_of, trailing_zeros, is_power_of_two, is_power_of_two-pow, le→leb,
}
use teecryptor.External.Bignum.{Bignum}
use teecryptor.Decrypt.{DecryptError, width_exceeded}
use teecryptor.DirectDecrypt.Mirror.{BlockMirror, DirectDecryptKey, Tfhe}
use teecryptor.DirectDecrypt.Block.{guard, decode_block}
use teecryptor.DirectDecrypt.Radix.{
  pair_digits, paired_digits, last_digits, check_width, fold_digits, decode_radix,
}
use teecryptor.DirectDecrypt.RadixLaws.{digits_value, AreDigits, fold_digits-value}

module _ {Ct : Type 0} (tfhe : Tfhe Ct) (key : DirectDecryptKey) where
  -- Each block decodes to two digits as tfhe packs them, `low + msg_mod * high`.
  abbrev pub ArePacked : List BlockMirror → List ℕ → Type 0
  ArePacked [] [] = Unit
  ArePacked (block ∷ blocks) (low ∷ high ∷ ds) =
      (decode_block tfhe key block ≡ ok (low + key.message_modulus * high, key.message_modulus))
      × (low < key.message_modulus)
      × (high < key.message_modulus)
      × ArePacked blocks ds
  ArePacked _ _ = ⊥

  pair_digits-packed :
      (low high : ℕ)
      → low < key.message_modulus
      → high < key.message_modulus
      → pair_digits (low + key.message_modulus * high, key.message_modulus) ≡ low ∷ high ∷ []
  pair_digits-packed low high l h =
      let mm = key.message_modulus in
      let first : (low + mm * high) % mm ≡ low =
        add-mul-mod_self_left low mm high ∙ mod-eq_of_lt l in
      let quotient : (low + mm * high) / mm ≡ high =
        add-mul-div_left low high {y = mm} (omega arith)
        ∙ ap (λ t. t + high) (div-eq_of_lt l)
        ∙ omega arith in
      let second : (low + mm * high) / mm % mm ≡ high =
        ap (λ t. t % mm) quotient ∙ mod-eq_of_lt h in
      λ i. first i ∷ second i ∷ []

  paired_digits-packed :
      (acc : List ℕ) (blocks : List BlockMirror) (ds : List ℕ)
      → ArePacked blocks ds
      → paired_digits tfhe key acc blocks ≡ ok (acc ++ ds)
  unfolding paired_digits
  paired_digits-packed acc [] [] p = ap ok (sym (append-nil acc))
  paired_digits-packed acc [] (d ∷ ds) p = absurd p
  paired_digits-packed acc (block ∷ blocks) [] p = absurd p
  paired_digits-packed acc (block ∷ blocks) (low ∷ []) p = absurd p
  paired_digits-packed acc (block ∷ blocks) (low ∷ high ∷ ds) (decoded, l, h, rest) =
      ap (λ r. r >>= λ d. paired_digits tfhe key (acc ++ pair_digits d) blocks) decoded
      ∙ ap (λ p. paired_digits tfhe key (acc ++ p) blocks) (pair_digits-packed low high l h)
      ∙ paired_digits-packed (acc ++ low ∷ high ∷ []) blocks ds rest
      ∙ ap ok (append_assoc acc (low ∷ high ∷ []) ds)

  ArePacked-AreDigits :
      (blocks : List BlockMirror) (ds : List ℕ)
      → ArePacked blocks ds
      → AreDigits key.message_modulus ds
  ArePacked-AreDigits [] [] p = tt
  ArePacked-AreDigits [] (d ∷ ds) p = absurd p
  ArePacked-AreDigits (block ∷ blocks) [] p = absurd p
  ArePacked-AreDigits (block ∷ blocks) (low ∷ []) p = absurd p
  ArePacked-AreDigits (block ∷ blocks) (low ∷ high ∷ ds) (decoded, l, h, rest) =
      (l, (h, ArePacked-AreDigits blocks ds rest))

checked_mul-some : (a b : ℕ) → a * b < u64_mod → checked_mul a b ≡ some (a * b)
checked_mul-some a b h = ground arith

check_width_lem :
    (b max_bits n : ℕ)
    → b * n < u64_mod
    → check_width b max_bits n
      ≡ guard (leb (b * n) (next_multiple_of max_bits b)) (width_exceeded (b * n) max_bits)
unfolding check_width
check_width_lem b max_bits n h = rw (checked_mul-some b n h, check_width)

guard-then :
    (t : Bool) (e : DecryptError) (v : ℕ) → (guard t e >>= λ _. ok v) ≡ (if t then ok v else err e)
guard-then true e v = refl
guard-then false e v = refl

module _ (big : Bignum) {Ct : Type 0} (tfhe : Tfhe Ct) (key : DirectDecryptKey) where
  -- Blocks that hold the digits of a number in pairs, as tfhe packs them, are decoded to that
  -- number when its width is within the declared one, and refused as too wide otherwise.
  pub decode_radix-packed :
      (block : BlockMirror) (blocks : List BlockMirror) (ds : List ℕ) (max_bits : ℕ)
      → is_power_of_two key.message_modulus ≡ true
      → 2 ≤ key.message_modulus
      → ArePacked tfhe key (block ∷ blocks) ds
      → trailing_zeros key.message_modulus * length ds ≤ 256
      → decode_radix big tfhe key
          (record { paired_blocks = block ∷ blocks; last_block = none })
          max_bits
        ≡ (if leb
              (trailing_zeros key.message_modulus * length ds)
              (next_multiple_of max_bits (trailing_zeros key.message_modulus))
            then ok (digits_value (trailing_zeros key.message_modulus) ds)
            else err (width_exceeded (trailing_zeros key.message_modulus * length ds) max_bits))
  unfolding decode_radix last_digits
  decode_radix-packed block blocks [] max_bits power two_le p fits = absurd p
  decode_radix-packed block blocks (d ∷ ds) max_bits power two_le p fits =
      let b = trailing_zeros key.message_modulus in
      let n = length (d ∷ ds) in
      let modulus = is_power_of_two-pow key.message_modulus power in
      let below =
        subst (λ base. AreDigits base (d ∷ ds)) modulus
          (ArePacked-AreDigits tfhe key (block ∷ blocks) (d ∷ ds) p) in
      let value : fold_digits big b 0 0 (d ∷ ds) ≡ digits_value b (d ∷ ds) =
        fold_digits-value big b 0 0 (d ∷ ds) (pow-pos (b * 0)) below (omega arith)
        ∙ omega (
          arith,
          ap (λ t. 2 ^ t * digits_value b (d ∷ ds)) (let z : b * 0 ≡ 0 = omega arith in z),
        ) in
      rw
        (
          power,
          le→leb 2 key.message_modulus two_le,
          paired_digits-packed tfhe key [] (block ∷ blocks) (d ∷ ds) p,
          check_width_lem b max_bits n (omega arith),
          value,
        )
        (guard-then (leb (b * n) (next_multiple_of max_bits b)) (width_exceeded (b * n) max_bits)
          (digits_value b (d ∷ ds)))
