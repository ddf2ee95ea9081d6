-- ===== src/DirectDecrypt/RadixLaws.antt =====
-- The number that `decode_radix` returns: the little-endian value of the digits, within the width.
use mathlib.Core.Path.{subst}
use native.Mathlib.Nat.{mod-lt, mod-eq_of_lt, le_trans, le_of_eq, div-mul-le_self}
use teecryptor.Prelude.{
  ℕ, suc, ◌+◌, ◌-◌, ◌*◌, ◌/◌, ◌^◌, ◌≤◌, ◌<◌, ◌≡◌, refl, sym, ap, ◌∙◌, Bool, true, false, not, ◌&&◌,
  Option, none, some, List, [], ◌∷◌, ◌++◌, arith, ok, >>=-eq-ok, ok_inj, leb, length, All, pow-pos,
  pow-add, pow_mono, mul-add-lt, next_multiple_of, trailing_zeros, trailing_zeros-le,
  is_power_of_two, is_power_of_two-pow, &&-eq-true,
}
use teecryptor.External.Bignum.{Bignum}
use teecryptor.Decrypt.{text, text_num, DecryptError, direct_decrypt}
use teecryptor.DirectDecrypt.Mirror.{BlockMirror, GenericMirror, DirectDecryptKey, Tfhe}
use teecryptor.DirectDecrypt.Block.{guard, decode_block}
use teecryptor.DirectDecrypt.BlockLaws.{decode_block-range}
use teecryptor.DirectDecrypt.Radix.{
  is_empty, pair_digits, last_digit, paired_digits, last_digits, check_width, fold_digits,
  decode_radix,
}

-- The value of digits of `b` bits, the lowest first.
abbrev pub digits_value : ℕ → List ℕ → ℕ
digits_value b [] = 0
digits_value b (d ∷ ds) = d + 2 ^ b * digits_value b ds

abbrev pub AreDigits : ℕ → List ℕ → Type 0
AreDigits base ds = All (λ d. d < base) ds

digits_value-lt :
    (b : ℕ) (ds : List ℕ) → AreDigits (2 ^ b) ds → digits_value b ds < 2 ^ (b * length ds)
digits_value-lt b [] h = omega (arith, ap (λ t. 2 ^ t) (let e : b * 0 ≡ 0 = omega arith in e))
digits_value-lt b (d ∷ ds) (d_lt, h) =
    let n = length ds in
    let bound =
      mul-add-lt (digits_value b ds) (2 ^ (b * n)) (2 ^ b) d (digits_value-lt b ds h) d_lt in
    let whole : 2 ^ (b * suc n) ≡ 2 ^ (b * n) * 2 ^ b =
      ap (λ t. 2 ^ t) (let e : b * suc n ≡ b * n + b = omega arith in e) ∙ pow-add (b * n) b in
    omega arith

module _ (big : Bignum) where
  fold_step :
      (b value i d : ℕ)
      → value < 2 ^ (b * i)
      → d < 2 ^ b
      → b * (i + 1) ≤ 256
      → (big.bor value (big.shl d (b * i)) ≡ value + d * 2 ^ (b * i))
        × (value + d * 2 ^ (b * i) < 2 ^ (b * (i + 1)))
  fold_step b value i d v_lt d_lt fits =
      let k = b * i in
      let next : 2 ^ (b * (i + 1)) ≡ 2 ^ b * 2 ^ k =
        ap (λ t. 2 ^ t) (let e : b * (i + 1) ≡ b + k = omega arith in e) ∙ pow-add b k in
      let bound = mul-add-lt d (2 ^ b) (2 ^ k) value d_lt v_lt in
      let top = pow_mono (b * (i + 1)) 256 fits in
      let shifted : big.shl d k ≡ d * 2 ^ k = big.shl_lem d k ∙ mod-eq_of_lt (omega arith) in
      (ap (big.bor value) shifted ∙ big.bor_disjoint value d k v_lt, omega arith)

  pub fold_digits-value :
      (b value i : ℕ) (ds : List ℕ)
      → value < 2 ^ (b * i)
      → AreDigits (2 ^ b) ds
      → b * (i + length ds) ≤ 256
      → fold_digits big b value i ds ≡ value + 2 ^ (b * i) * digits_value b ds
  unfolding fold_digits
  fold_digits-value b value i [] v_lt h fits = omega arith
  fold_digits-value b value i (d ∷ ds) v_lt (d_lt, h) fits =
      let n = length ds in
      let head_fits : b * (i + 1) ≤ 256 =
        omega (arith, ap (λ t. b * t) (let e : i + suc n ≡ i + 1 + n = omega arith in e)) in
      let (joined, below) = fold_step b value i d v_lt d_lt head_fits in
      let next : 2 ^ (b * (i + 1)) ≡ 2 ^ (b * i) * 2 ^ b =
        ap (λ t. 2 ^ t) (let e : b * (i + 1) ≡ b * i + b = omega arith in e) ∙ pow-add (b * i) b in
      ap (λ t. fold_digits big b t (i + 1) ds) joined
      ∙ fold_digits-value b (value + d * 2 ^ (b * i)) (i + 1) ds below h
          (le_trans (le_of_eq (ap (λ t. b * t) (omega arith))) fits)
      ∙ omega (arith, ap (λ t. t * digits_value b ds) next)

AreDigits-append :
    (base : ℕ) (xs ys : List ℕ) → AreDigits base xs → AreDigits base ys → AreDigits base (xs ++ ys)
AreDigits-append base [] ys h k = k
AreDigits-append base (x ∷ xs) ys (p, h) k = (p, AreDigits-append base xs ys h k)

next_multiple_of-le : (n b : ℕ) → next_multiple_of n b ≤ n + b
next_multiple_of-le n b = omega (arith, div-mul-le_self (n + b - 1) b)

check_width-eq-ok :
    (b max_bits n : ℕ) → check_width b max_bits n ≡ ok tt → b * n ≤ next_multiple_of max_bits b
unfolding check_width
check_width-eq-ok b max_bits n e = ground arith

module _ {Ct : Type 0} (tfhe : Tfhe Ct) (key : DirectDecryptKey)
    (base_pos : 0 < key.message_modulus) where
  pair_digits-AreDigits :
      (block : BlockMirror) (d : ℕ × ℕ)
      → decode_block tfhe key block ≡ ok d
      → AreDigits key.message_modulus (pair_digits d)
  pair_digits-AreDigits block (m, msg_mod) e =
      let (same, range) = decode_block-range tfhe key block (m, msg_mod) e in
      let pos : 0 < msg_mod = rw same base_pos in
      rw (← same) (mod-lt m pos, (mod-lt (m / msg_mod) pos, tt))

  last_digit-AreDigits :
      (block : BlockMirror) (d : ℕ × ℕ)
      → decode_block tfhe key block ≡ ok d
      → AreDigits key.message_modulus (last_digit d)
  last_digit-AreDigits block (m, msg_mod) e =
      let (same, range) = decode_block-range tfhe key block (m, msg_mod) e in
      let pos : 0 < msg_mod = rw same base_pos in rw (← same) (mod-lt m pos, tt)

  paired_digits-AreDigits :
      (acc : List ℕ) (blocks : List BlockMirror) (ds : List ℕ)
      → AreDigits key.message_modulus acc
      → paired_digits tfhe key acc blocks ≡ ok ds
      → AreDigits key.message_modulus ds
  unfolding paired_digits
  paired_digits-AreDigits acc [] ds h e = subst (AreDigits key.message_modulus) (ok_inj e) h
  paired_digits-AreDigits acc (block ∷ blocks) ds h e =
      let (d, decoded, e') = >>=-eq-ok (decode_block tfhe key block) _ e in
      paired_digits-AreDigits (acc ++ pair_digits d) blocks ds
        (AreDigits-append key.message_modulus acc (pair_digits d) h
          (pair_digits-AreDigits block d decoded))
        e'

  last_digits-AreDigits :
      (acc : List ℕ) (last : Option BlockMirror) (ds : List ℕ)
      → AreDigits key.message_modulus acc
      → last_digits tfhe key acc last ≡ ok ds
      → AreDigits key.message_modulus ds
  unfolding last_digits
  last_digits-AreDigits acc none ds h e = subst (AreDigits key.message_modulus) (ok_inj e) h
  last_digits-AreDigits acc (some block) ds h e =
      let (d, decoded, e') = >>=-eq-ok (decode_block tfhe key block) _ e in
      subst (AreDigits key.message_modulus) (ok_inj e') (
        AreDigits-append key.message_modulus acc (last_digit d) h
          (last_digit-AreDigits block d decoded))

guard-eq-ok : (b : Bool) (e : DecryptError) (u : Unit {0}) → guard b e ≡ ok u → b ≡ true
guard-eq-ok true e u h = refl
guard-eq-ok false e u h = cc

module _ (big : Bignum) {Ct : Type 0} (tfhe : Tfhe Ct) (key : DirectDecryptKey) where
  -- What a successful decoding of a radix ciphertext has established: the digits that its blocks
  -- decode to, each below the key's message modulus, the number that they spell, and a width
  -- within the declared one, rounded up to whole digits.
  pub record IsDecoded (radix : GenericMirror) (max_bits v : ℕ) : Type 0 where
    pub paired : List ℕ
    pub digits : List ℕ
    pub modulus : key.message_modulus ≡ 2 ^ trailing_zeros key.message_modulus
    paired_lem : paired_digits tfhe key [] radix.paired_blocks ≡ ok paired
    digits_lem : last_digits tfhe key paired radix.last_block ≡ ok digits
    pub below : AreDigits key.message_modulus digits
    pub fits :
        trailing_zeros key.message_modulus * length digits
        ≤ next_multiple_of max_bits (trailing_zeros key.message_modulus)
    pub value : v ≡ digits_value (trailing_zeros key.message_modulus) digits

  pub decode_radix-IsDecoded :
      (radix : GenericMirror) (max_bits v : ℕ)
      → max_bits ≤ 160
      → decode_radix big tfhe key radix max_bits ≡ ok v
      → IsDecoded radix max_bits v
  unfolding decode_radix
  decode_radix-IsDecoded radix max_bits v small e =
      let b = trailing_zeros key.message_modulus in
      let test = is_power_of_two key.message_modulus && leb 2 key.message_modulus in
      let refusal = direct_decrypt (text_num "invalid message modulus" key.message_modulus) in
      let (u, valid, e₁) = >>=-eq-ok (guard test refusal) _ e in
      let (power, two_le) =
        &&-eq-true (is_power_of_two key.message_modulus) (leb 2 key.message_modulus)
          (guard-eq-ok test refusal u valid) in
      let (paired, found, e₂) = >>=-eq-ok (paired_digits tfhe key [] radix.paired_blocks) _ e₁ in
      let (digits, found', e₃) = >>=-eq-ok (last_digits tfhe key paired radix.last_block) _ e₂ in
      let (u', nonempty, e₄) =
        >>=-eq-ok (guard (not (is_empty digits)) (direct_decrypt (text "empty radix ciphertext"))) _
          e₃ in
      let (u'', narrow, e₅) = >>=-eq-ok (check_width b max_bits (length digits)) _ e₄ in
      let modulus = is_power_of_two-pow key.message_modulus power in
      let pos : 0 < key.message_modulus = rw modulus (pow-pos b) in
      let ds_lt =
        last_digits-AreDigits tfhe key pos paired radix.last_block digits
          (paired_digits-AreDigits tfhe key pos [] radix.paired_blocks paired tt found) found' in
      let fits = check_width-eq-ok b max_bits (length digits) narrow in
      record {
        paired = paired;
        digits = digits;
        modulus = modulus;
        paired_lem = found;
        digits_lem = found';
        below = ds_lt;
        fits = fits;
        value =
            sym (ok_inj e₅)
            ∙ fold_digits-value big b 0 0 digits (pow-pos (b * 0))
                (subst (λ base. AreDigits base digits) modulus ds_lt)
                (omega (
                  arith,
                  fits,
                  next_multiple_of-le max_bits b,
                  trailing_zeros-le key.message_modulus,
                ))
            ∙ omega (
              arith,
              ap (λ t. 2 ^ t * digits_value b digits) (let z : b * 0 ≡ 0 = omega arith in z),
            );
      }

  pub IsDecoded-lt :
      {radix : GenericMirror} {max_bits v : ℕ}
      → IsDecoded radix max_bits v
      → v < 2 ^ next_multiple_of max_bits (trailing_zeros key.message_modulus)
  IsDecoded-lt {radix} {max_bits} {v} d =
      let b = trailing_zeros key.message_modulus in
      let below =
        digits_value-lt b d.digits (subst (λ base. AreDigits base d.digits) d.modulus d.below) in
      let top = pow_mono (b * length d.digits) (next_multiple_of max_bits b) d.fits in
      rw (d.value) (le_trans below top)
