-- ===== src/DirectDecrypt/BlockLaws.antt =====
-- What a block must satisfy to be decoded, that nothing else stops the decoding, and the plaintext.
use native.Mathlib.Nat.{mod-lt, mod-eq_of_lt, add_comm, mod-add-mod}
use teecryptor.Prelude.{
  ℕ, suc, ◌+◌, ◌*◌, ◌%◌, ◌^◌, ◌<◌, ◌≡◌, refl, sym, ap, ◌∙◌, ◌↔◌, false, ◌==◌, Option, none, some,
  List, [], ◌∷◌, arith, ok, >>=-eq-ok, ok_inj, length, u64_mod, pow-pos, mul-add-lt, mod-add_cancel,
}
use mathlib.Core.Path.{subst}
use teecryptor.DirectDecrypt.Mirror.{
  standard, keyswitch_bootstrap, ClassicMsCtMirror, classic, BlockMirror, DirectDecryptKey, Tfhe,
  HasPackedLen,
}
use teecryptor.DirectDecrypt.Block.{
  check_block, check_packed, split_last, dot_from, phase, space_of, round_to, decode_split,
  decode_block,
}
use teecryptor.DirectDecrypt.Phase.{dot, phase-add-dot, round_to-level}

-- A block that the key can decode: what the guards of `decode_block` ask for.
pub record IsDecodable (key : DirectDecryptKey) (block : BlockMirror) (ct : ClassicMsCtMirror)
    : Type 0 where
  pub message : block.message_modulus ≡ key.message_modulus
  pub carry : block.carry_modulus ≡ key.carry_modulus
  pub pattern : block.atomic_pattern ≡ standard keyswitch_bootstrap
  pub form : block.compressed_modulus_switched_lwe_ciphertext ≡ classic ct
  pub dimension : ct.lwe_dimension ≡ length key.small_lwe_key
  pub log_pos : 0 < ct.packed_integers.log_modulus
  pub log_lt : ct.packed_integers.log_modulus < 64
  pub len : ct.packed_integers.initial_len ≡ ct.lwe_dimension + 1
  pub no_overflow : ct.packed_integers.initial_len * ct.packed_integers.log_modulus < u64_mod
  pub packed : HasPackedLen ct.packed_integers

check_block-eq-ok :
    (key : DirectDecryptKey) (block : BlockMirror) (ct : ClassicMsCtMirror)
    → check_block key block ≡ ok ct
    → (block.message_modulus ≡ key.message_modulus)
      × (block.carry_modulus ≡ key.carry_modulus)
      × (block.atomic_pattern ≡ standard keyswitch_bootstrap)
      × (block.compressed_modulus_switched_lwe_ciphertext ≡ classic ct)
unfolding check_block
check_block-eq-ok key block ct e = ground arith

check_packed-eq-ok :
    (key : DirectDecryptKey) (ct : ClassicMsCtMirror)
    → check_packed key ct ≡ ok tt
    → (ct.lwe_dimension ≡ length key.small_lwe_key)
      × (0 < ct.packed_integers.log_modulus)
      × (ct.packed_integers.log_modulus < 64)
      × (ct.packed_integers.initial_len ≡ ct.lwe_dimension + 1)
      × (ct.packed_integers.initial_len * ct.packed_integers.log_modulus < u64_mod)
      × HasPackedLen ct.packed_integers
unfolding check_packed
check_packed-eq-ok key ct e = ground arith

module _ {key : DirectDecryptKey} {block : BlockMirror} {ct : ClassicMsCtMirror} where
  IsDecodable-check_block : IsDecodable key block ct → check_block key block ≡ ok ct
  unfolding check_block
  IsDecodable-check_block d = ground arith

  IsDecodable-check_packed : IsDecodable key block ct → check_packed key ct ≡ ok tt
  unfolding check_packed
  IsDecodable-check_packed d = ground arith

split_last-some : (c : ℕ) (cs : List ℕ) → (r : ℕ × List ℕ) × (split_last (c ∷ cs) ≡ some r)
unfolding split_last
split_last-some c [] = ((c, []), refl)
split_last-some c (d ∷ cs) =
    let ((body, mask), e) = split_last-some d cs in ((body, c ∷ mask), rw (e, split_last))

split_last_total :
    (cs : List ℕ) (n : ℕ) → length cs ≡ suc n → (r : ℕ × List ℕ) × (split_last cs ≡ some r)
split_last_total [] n h = absurd (omega arith)
split_last_total (c ∷ cs) n h = split_last-some c cs

decode_split-range :
    (key : DirectDecryptKey) (log_mod : ℕ) (o : Option (ℕ × List ℕ)) (r : ℕ × ℕ)
    → decode_split key log_mod o ≡ ok r
    → (r.1 ≡ key.message_modulus) × (0 < space_of key → r.0 < space_of key)
unfolding round_to
decode_split-range key log_mod none r e = cc
decode_split-range key log_mod (some (body, mask)) r e =
    let filled : (space_of key == 0) ≡ false = ground arith in
    let same : (
      round_to log_mod (space_of key) (phase log_mod body (dot_from 0 mask key.small_lwe_key)),
      key.message_modulus,
    )
        ≡ r =
      ok_inj (rw filled at e) in
    (
      ap (λ p. p.1) (sym same),
      λ pos. subst (λ n. n < space_of key) (ap (λ p. p.0) same) (mod-lt _ pos),
    )

decode_split-pos :
    (key : DirectDecryptKey) (log_mod : ℕ) (o : Option (ℕ × List ℕ)) (r : ℕ × ℕ)
    → decode_split key log_mod o ≡ ok r
    → 0 < space_of key
decode_split-pos key log_mod none r e = cc
decode_split-pos key log_mod (some (body, mask)) r e = ground arith

phase-lt : (log body d : ℕ) → phase log body d < 2 ^ log
unfolding phase
phase-lt log body d = mod-lt _ (pow-pos log)

space_of-lt : (key : DirectDecryptKey) → space_of key < u64_mod
unfolding space_of
space_of-lt key = omega arith

-- The shared inner product drops out of the equation of body and level.
near_level :
    (body exact x h level q : ℕ)
    → 0 < q
    → level < q
    → (x + exact) % q ≡ body % q
    → (body + h) % q ≡ (exact + level) % q
    → (x + h) % q ≡ level
near_level body exact x h level q pos level_lt wraps near =
    mod-add_cancel (x + h) level exact pos (
      ap (λ t. t % q) (let s : x + h + exact ≡ x + exact + h = omega arith in s)
      ∙ sym (mod-add-mod (x + exact) q h)
      ∙ ap (λ t. (t + h) % q) wraps
      ∙ mod-add-mod body q h
      ∙ near
      ∙ ap (λ t. t % q) (add_comm exact level))
    ∙ mod-eq_of_lt level_lt

module _ {Ct : Type 0} (tfhe : Tfhe Ct) (key : DirectDecryptKey) (block : BlockMirror) where
  decode_block-IsDecodable :
      (r : ℕ × ℕ)
      → decode_block tfhe key block ≡ ok r
      → (ct : ClassicMsCtMirror) × IsDecodable key block ct
        × (decode_split key ct.packed_integers.log_modulus
              (split_last (tfhe.unpack ct.packed_integers))
            ≡ ok r)
  unfolding decode_block
  decode_block-IsDecodable r e =
      let (ct, checked, e') = >>=-eq-ok (check_block key block) _ e in
      let (unit, fits, e'') = >>=-eq-ok (check_packed key ct) _ e' in
      let (message, carry, pattern, form) = check_block-eq-ok key block ct checked in
      let (dimension, log_pos, log_lt, len, no_overflow, packed) = check_packed-eq-ok key ct fits in
      (
        ct,
        record {
          message = message;
          carry = carry;
          pattern = pattern;
          form = form;
          dimension = dimension;
          log_pos = log_pos;
          log_lt = log_lt;
          len = len;
          no_overflow = no_overflow;
          packed = packed;
        },
        e'',
      )

  decode_block-split :
      {ct : ClassicMsCtMirror}
      → IsDecodable key block ct
      → decode_block tfhe key block
        ≡ decode_split key ct.packed_integers.log_modulus
            (split_last (tfhe.unpack ct.packed_integers))
  unfolding decode_block
  decode_block-split d = rw (IsDecodable-check_block d, IsDecodable-check_packed d)

  -- A block is decoded exactly when it satisfies every guard: the moduli of the key, the
  -- keyswitch-bootstrap pattern, the classic form, the key's dimension, a modulus of 1 to 63 bits,
  -- and a packed structure of exactly the length that its coefficients take; and the cleartext
  -- space of the key is not empty, by which the rounding divides. So with such a key a block that
  -- passes the guards is always decoded: `split_last` never meets an empty list.
  pub decode_block-IsDecodable_iff :
      ((r : ℕ × ℕ) × (decode_block tfhe key block ≡ ok r))
      ↔ ((ct : ClassicMsCtMirror) × IsDecodable key block ct × (0 < space_of key))
  decode_block-IsDecodable_iff = (
    (λ found.
        let (ct, d, e) = decode_block-IsDecodable found.0 found.1 in
        (ct, d, decode_split-pos key _ _ found.0 e)),
    λ given.
        let (ct, d, pos) = given in
        let filled : (space_of key == 0) ≡ false = ground arith in
        let long = tfhe.length-unpack ct.packed_integers d.log_pos d.log_lt d.packed ∙ d.len in
        let (r, e) =
          split_last_total (tfhe.unpack ct.packed_integers) ct.lwe_dimension (omega arith) in
        let log = ct.packed_integers.log_modulus in
        (
          (
            round_to log (space_of key) (phase log r.0 (dot_from 0 r.1 key.small_lwe_key)),
            key.message_modulus,
          ),
          decode_block-split d
              ∙ ap (decode_split key ct.packed_integers.log_modulus) e
              ∙ rw filled refl,
        ),
  )

  -- A decoded block comes with the key's message modulus, and its value lies in the cleartext space.
  pub decode_block-range :
      (r : ℕ × ℕ)
      → decode_block tfhe key block ≡ ok r
      → (r.1 ≡ key.message_modulus) × (0 < space_of key → r.0 < space_of key)
  decode_block-range r e =
      let (ct, d, e') = decode_block-IsDecodable r e in decode_split-range key _ _ r e'

  -- Decryption is correct: if the body of a decodable block is the inner product of its mask with
  -- the key, plus `m` steps of the modulus, plus a noise of less than half a step either way
  -- (shifted by half a step, `e` lies below a whole one), the block is decoded to `m`. The
  -- wrapping of the 64-bit words does not matter.
  pub decode_block-plaintext :
      {ct : ClassicMsCtMirror} {body : ℕ} {mask : List ℕ} (h m e : ℕ)
      → IsDecodable key block ct
      → split_last (tfhe.unpack ct.packed_integers) ≡ some (body, mask)
      → 2 ^ ct.packed_integers.log_modulus ≡ space_of key * (2 * h)
      → m < space_of key
      → e < 2 * h
      → (body + h) % 2 ^ ct.packed_integers.log_modulus
        ≡ (dot mask key.small_lwe_key + (m * (2 * h) + e)) % 2 ^ ct.packed_integers.log_modulus
      → decode_block tfhe key block ≡ ok (m, key.message_modulus)
  decode_block-plaintext {ct} {body} {mask} h m e d split q m_lt e_lt near =
      let log = ct.packed_integers.log_modulus in
      let exact = dot mask key.small_lwe_key in
      let x = phase log body (dot_from 0 mask key.small_lwe_key) in
      let level = m * (2 * h) + e in
      let filled : (space_of key == 0) ≡ false = ground arith in
      decode_block-split d
      ∙ ap (decode_split key log) split
      ∙ rw filled refl
      ∙ ap (λ v. ok (v, key.message_modulus))
          (round_to-level log (space_of key) h x m e d.log_pos q (omega arith)
            (phase-lt log body (dot_from 0 mask key.small_lwe_key)) (space_of-lt key) m_lt e_lt
            (near_level body exact x h level (2 ^ log) (pow-pos log)
              (rw q (mul-add-lt m (space_of key) (2 * h) e m_lt e_lt))
              (phase-add-dot log body mask key.small_lwe_key d.log_lt) near))
