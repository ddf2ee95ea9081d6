-- ===== src/Signing/Laws.antt =====
-- What a signed preimage determines, the low-S form, and the two parsers of a handle.
use teecryptor.Prelude.{
  ℕ, zero, suc, ◌+◌, ◌*◌, ◌-◌, ◌/◌, ◌%◌, ◌^◌, ◌<◌, ◌≡◌, refl, sym, ap, ◌∙◌, false, Option, none,
  some, [], ◌∷◌, ◌++◌, arith, ok, >>=-eq-ok, map_err, map_err-eq-ok, ok_inj, ℤ, pos, negsuc, length,
  length-append, Bytes, unwrap_or,
}
use teecryptor.External.Bignum.{Bignum, be_bytes, be_value_from}
use teecryptor.Signing.{
  SigningError, K256, xor, sign_prehash, i32_be, decrypt_preimage, seal_preimage,
}

be_value_from-snoc :
    (acc : ℕ) (xs : Bytes) (b : ℕ)
    → be_value_from acc (xs ++ b ∷ []) ≡ be_value_from acc xs * 256 + b
be_value_from-snoc acc [] b = refl
be_value_from-snoc acc (x ∷ xs) b = be_value_from-snoc (acc * 256 + x) xs b

pub be_value-be_bytes : (n v : ℕ) → v < 256 ^ n → be_value_from 0 (be_bytes n v) ≡ v
be_value-be_bytes zero v lt = omega arith
be_value-be_bytes (suc n) v lt =
    let shrink : 256 ^ suc n ≡ 256 * 256 ^ n = omega arith in
    let rest : be_value_from 0 (be_bytes n (v / 256)) ≡ v / 256 =
      be_value-be_bytes n (v / 256) (omega arith) in
    be_value_from-snoc 0 (be_bytes n (v / 256)) (v % 256) ∙ rw rest (omega arith)

be_bytes_inj : (n v w : ℕ) → v < 256 ^ n → w < 256 ^ n → be_bytes n v ≡ be_bytes n w → v ≡ w
be_bytes_inj n v w lv lw e =
    sym (be_value-be_bytes n v lv) ∙ ap (be_value_from 0) e ∙ be_value-be_bytes n w lw

pub length-be_bytes : (n v : ℕ) → length (be_bytes n v) ≡ n
length-be_bytes zero v = refl
length-be_bytes (suc n) v =
    length-append (be_bytes n (v / 256)) (v % 256 ∷ [])
    ∙ rw (length-be_bytes n (v / 256)) (omega arith)

append_inj : (xs ys a b : Bytes) → length xs ≡ length ys → xs ++ a ≡ ys ++ b → (xs ≡ ys) × (a ≡ b)
append_inj [] [] a b l e = (refl, e)
append_inj [] (y ∷ ys) a b l e = absurd (omega arith)
append_inj (x ∷ xs) [] a b l e = absurd (omega arith)
append_inj (x ∷ xs) (y ∷ ys) a b l e =
    let tails : xs ++ a ≡ ys ++ b = cc in
    let heads : x ≡ y = cc in
    let (p, q) = append_inj xs ys a b (omega arith) tails in (rw (heads, p), q)

-- The values of an `i32`.
abbrev pub IsI32 : ℤ → Type 0
IsI32 (pos n) = n < 2 ^ 31
IsI32 (negsuc n) = n < 2 ^ 31

length-i32_be : (i : ℤ) → length (i32_be i) ≡ 4
unfolding i32_be
length-i32_be (pos n) = length-be_bytes 4 n
length-i32_be (negsuc n) = length-be_bytes 4 (2 ^ 32 - (n + 1))

i32_be_inj : (i j : ℤ) → IsI32 i → IsI32 j → i32_be i ≡ i32_be j → i ≡ j
unfolding i32_be
i32_be_inj (pos m) (pos n) a b e = ap pos (be_bytes_inj 4 m n (omega arith) (omega arith) e)
i32_be_inj (negsuc m) (negsuc n) a b e =
    let same : 2 ^ 32 - (m + 1) ≡ 2 ^ 32 - (n + 1) =
      be_bytes_inj 4 _ _ (omega arith) (omega arith) e in
    ap negsuc (omega arith)
i32_be_inj (pos m) (negsuc n) a b e =
    let same : m ≡ 2 ^ 32 - (n + 1) = be_bytes_inj 4 _ _ (omega arith) (omega arith) e in
    absurd (omega arith)
i32_be_inj (negsuc m) (pos n) a b e =
    let same : 2 ^ 32 - (m + 1) ≡ n = be_bytes_inj 4 _ _ (omega arith) (omega arith) e in
    absurd (omega arith)

-- the part that both preimages end in
tail_inj :
    (i j : ℤ) (c d : ℕ) (h k : Bytes)
    → IsI32 i
    → IsI32 j
    → c < 2 ^ 64
    → d < 2 ^ 64
    → i32_be i ++ (be_bytes 8 c ++ h) ≡ i32_be j ++ (be_bytes 8 d ++ k)
    → (i ≡ j) × (c ≡ d) × (h ≡ k)
tail_inj i j c d h k wi wj wc wd e =
    let (types, e₁) =
      append_inj (i32_be i) (i32_be j) (be_bytes 8 c ++ h) (be_bytes 8 d ++ k)
        (length-i32_be i ∙ sym (length-i32_be j)) e in
    let (chains, e₂) =
      append_inj (be_bytes 8 c) (be_bytes 8 d) h k (length-be_bytes 8 c ∙ sym (length-be_bytes 8 d))
        e₁ in
    (i32_be_inj i j wi wj types, be_bytes_inj 8 c d (omega arith) (omega arith) chains, e₂)

module _ (big : Bignum) where
  -- Two decrypt results with the same signed preimage have the same plaintext, type, chain and
  -- handle, as long as these are in the ranges of their machine types.
  pub decrypt_preimage_inj :
      (m n : ℕ) (i j : ℤ) (c d : ℕ) (h k : Bytes)
      → m < 2 ^ 256
      → n < 2 ^ 256
      → IsI32 i
      → IsI32 j
      → c < 2 ^ 64
      → d < 2 ^ 64
      → decrypt_preimage big m i c h ≡ decrypt_preimage big n j d k
      → (m ≡ n) × (i ≡ j) × (c ≡ d) × (h ≡ k)
  unfolding decrypt_preimage
  decrypt_preimage_inj m n i j c d h k wm wn wi wj wc wd e =
      let e' : be_bytes 32 m ++ (i32_be i ++ (be_bytes 8 c ++ h))
          ≡ be_bytes 32 n ++ (i32_be j ++ (be_bytes 8 d ++ k)) =
        rw (Bignum.to_be_bytes_lem big m, Bignum.to_be_bytes_lem big n) at e in
      let (values, e₁) =
        append_inj (be_bytes 32 m) (be_bytes 32 n) (i32_be i ++ (be_bytes 8 c ++ h))
          (i32_be j ++ (be_bytes 8 d ++ k)) (length-be_bytes 32 m ∙ sym (length-be_bytes 32 n))
          e' in
      let (types, chains, hashes) = tail_inj i j c d h k wi wj wc wd e₁ in
      (be_bytes_inj 32 m n (omega arith) (omega arith) values, types, chains, hashes)

-- Two sealed outputs with boxes of one length, keys of one length and nonces of one length have the
-- same signed preimage only if the boxes, keys, nonces, types, chains and handles are the same.
pub seal_preimage_inj :
    (s t p q n o : Bytes) (i j : ℤ) (c d : ℕ) (h k : Bytes)
    → length s ≡ length t
    → length p ≡ length q
    → length n ≡ length o
    → IsI32 i
    → IsI32 j
    → c < 2 ^ 64
    → d < 2 ^ 64
    → seal_preimage s p n i c h ≡ seal_preimage t q o j d k
    → (s ≡ t) × (p ≡ q) × (n ≡ o) × (i ≡ j) × (c ≡ d) × (h ≡ k)
unfolding seal_preimage
seal_preimage_inj s t p q n o i j c d h k ls lp ln wi wj wc wd e =
    let (boxes, e₁) =
      append_inj s t (p ++ (n ++ (i32_be i ++ (be_bytes 8 c ++ h))))
        (q ++ (o ++ (i32_be j ++ (be_bytes 8 d ++ k)))) ls e in
    let (keys, e₂) =
      append_inj p q (n ++ (i32_be i ++ (be_bytes 8 c ++ h)))
        (o ++ (i32_be j ++ (be_bytes 8 d ++ k))) lp e₁ in
    let (nonces, e₃) =
      append_inj n o (i32_be i ++ (be_bytes 8 c ++ h)) (i32_be j ++ (be_bytes 8 d ++ k)) ln e₂ in
    let (types, chains, hashes) = tail_inj i j c d h k wi wj wc wd e₃ in
    (boxes, keys, nonces, types, chains, hashes)

module _ {Sig RecoveryId : Type 0} (k256 : K256 Sig RecoveryId) where
  -- A signature that is handed out has a low `s`, and its recovery id says the parity of the
  -- signature's point: flipped exactly where `s` was high and has been replaced.
  pub sign_prehash-low :
      (hash : Bytes) (sig : Sig) (recid : RecoveryId)
      → sign_prehash k256 hash ≡ ok (sig, recid)
      → (k256.is_high sig ≡ false)
        × ((s : Sig) × (r : RecoveryId) × (k256.sign_prehash hash ≡ ok (s, r))
            × (k256.is_y_odd recid ≡ xor (k256.is_y_odd r) (k256.is_high s)))
  unfolding sign_prehash
  sign_prehash-low hash sig recid e =
      let (signed, read, e₁) =
        >>=-eq-ok (map_err SigningError.signing_failed (k256.sign_prehash hash)) _ e in
      let both = ok_inj e₁ in
      (
        ap (λ p. k256.is_high p.0) (sym both) ∙ low signed.0 (k256.normalize_s signed.0) refl,
        (
          signed.0,
          signed.1,
          map_err-eq-ok SigningError.signing_failed (k256.sign_prehash hash) signed read,
          ap (λ p. k256.is_y_odd p.1) (sym both)
              ∙ k256.is_y_odd-new (xor (k256.is_y_odd signed.1) (k256.is_high signed.0)) _,
        ),
      )
    where
      low :
          (s : Sig) (o : Option Sig) → k256.normalize_s s ≡ o → k256.is_high (unwrap_or o s) ≡ false
      low s none p = k256.normalize_s-none s p
      low s (some t) p = k256.normalize_s-low s t p
