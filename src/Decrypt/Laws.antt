-- ===== src/Decrypt/Laws.antt =====
-- The wire discriminants round-trip, and the encoding of a plaintext is exact for its width.
use native.Mathlib.Nat.{
  div-add-mod, mod-lt, mod-zero, mod-eq_of_lt, mul-add-mod_self_right, pow-suc, le_trans,
}
use teecryptor.Prelude.{
  ℕ, zero, suc, ◌+◌, ◌-◌, ◌*◌, ◌/◌, ◌%◌, ◌^◌, ◌≤◌, ◌<◌, ◌≡◌, refl, ap, sym, ◌∙◌, ◌↔◌, [], ◌∷◌, ◌++◌,
  arith, ok, ℤ, pos, negsuc, drop, length, length-append, Bytes,
}
use teecryptor.External.Bignum.{Bignum, be_bytes, be_value_from}
use teecryptor.Decrypt.{
  EncryptionType, bool, u8, u16, u32, u64, u128, address, to_i32, from_i32, bits, width, encode,
}

be_value_from-concat :
    (acc : ℕ) (bs : Bytes) (b : ℕ)
    → be_value_from acc (bs ++ b ∷ []) ≡ be_value_from acc bs * 256 + b
be_value_from-concat acc [] b = refl
be_value_from-concat acc (c ∷ bs) b = be_value_from-concat (acc * 256 + c) bs b

-- One more byte of a number.
mod-pow_step : (v m : ℕ) → v / 256 % m * 256 + v % 256 ≡ v % (m * 256)
mod-pow_step v zero = omega (arith, mod-zero (v / 256), mod-zero v)
mod-pow_step v (suc k) =
    let m = suc k in
    let q = v / 256 in
    let x = q % m * 256 + v % 256 in
    let parts : v ≡ q / m * (m * 256) + x = omega (arith, div-add-mod q m) in
    let small : x < m * 256 = omega (arith, mod-lt q {m = m} (omega arith)) in
    sym (
      ap (λ t. t % (m * 256)) parts
      ∙ mul-add-mod_self_right (q / m) (m * 256) x
      ∙ mod-eq_of_lt small)

be_value-be_bytes : (n v : ℕ) → be_value_from 0 (be_bytes n v) ≡ v % 256 ^ n
be_value-be_bytes zero v = omega arith
be_value-be_bytes (suc n) v =
    be_value_from-concat 0 (be_bytes n (v / 256)) (v % 256)
    ∙ ap (λ k. k * 256 + v % 256) (be_value-be_bytes n (v / 256))
    ∙ mod-pow_step v (256 ^ n)
    ∙ ap (λ k. v % k) (sym (pow-suc 256 n))

length-be_bytes : (n v : ℕ) → length (be_bytes n v) ≡ n
length-be_bytes zero v = refl
length-be_bytes (suc n) v =
    omega
      (arith, length-append (be_bytes n (v / 256)) ((v % 256) ∷ []), length-be_bytes n (v / 256))

drop-append_le : (k : ℕ) (xs ys : Bytes) → k ≤ length xs → drop k (xs ++ ys) ≡ drop k xs ++ ys
drop-append_le zero xs ys h = refl
drop-append_le (suc k) [] ys h = absurd (omega arith)
drop-append_le (suc k) (x ∷ xs) ys h = drop-append_le k xs ys (omega arith)

drop_all : (xs : Bytes) → drop (length xs) xs ≡ []
drop_all [] = refl
drop_all (x ∷ xs) = drop_all xs

-- The last `w` bytes of a longer encoding are the encoding of that width.
drop-be_bytes : (k w n v : ℕ) → n ≡ w + k → drop k (be_bytes n v) ≡ be_bytes w v
drop-be_bytes k zero n v e =
    ap (λ j. drop j (be_bytes n v)) (omega (arith, length-be_bytes n v)) ∙ drop_all (be_bytes n v)
drop-be_bytes k (suc w) zero v e = absurd (omega arith)
drop-be_bytes k (suc w) (suc n) v e =
    drop-append_le k (be_bytes n (v / 256)) _ (omega (arith, length-be_bytes n (v / 256)))
    ∙ ap (λ bs. bs ++ (v % 256) ∷ []) (drop-be_bytes k w n (v / 256) (omega arith))

-- A wire number is accepted as a type exactly when it is that type's discriminant.
pub from_i32_iff : (v : ℤ) (ty : EncryptionType) → (from_i32 v ≡ ok ty) ↔ (v ≡ to_i32 ty)
unfolding from_i32
from_i32_iff (negsuc n) bool = ground arith
from_i32_iff (negsuc n) ty = ground arith
from_i32_iff (pos n) ty = ground arith

width-le : (ty : EncryptionType) → 32 ≡ width ty + (32 - width ty)
unfolding width
width-le bool = refl
width-le u8 = refl
width-le u16 = refl
width-le u32 = refl
width-le u64 = refl
width-le u128 = refl
width-le address = refl

bits-le-width : (ty : EncryptionType) → 2 ^ bits ty ≤ 256 ^ width ty
unfolding bits width
bits-le-width bool = omega arith
bits-le-width u8 = omega arith
bits-le-width u16 = omega arith
bits-le-width u32 = omega arith
bits-le-width u64 = omega arith
bits-le-width u128 = omega arith
bits-le-width address = omega arith

module _ (big : Bignum) where
  encode_lem : (ty : EncryptionType) (v : ℕ) → encode big ty v ≡ be_bytes (width ty) v
  unfolding encode width
  encode_lem ty v =
      ap (drop (32 - width ty)) (big.to_be_bytes_lem v)
      ∙ drop-be_bytes (32 - width ty) (width ty) 32 v (width-le ty)

  -- A plaintext that fits its type is encoded without loss, in as many bytes as the type has.
  pub encode_exact :
      (ty : EncryptionType) (v : ℕ)
      → v < 2 ^ bits ty
      → (length (encode big ty v) ≡ width ty) × (be_value_from 0 (encode big ty v) ≡ v)
  encode_exact ty v h = rw (encode_lem ty v) (
    length-be_bytes (width ty) v,
    be_value-be_bytes (width ty) v ∙ mod-eq_of_lt (le_trans h (bits-le-width ty)),
  )
