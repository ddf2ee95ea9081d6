-- ===== src/Handle/Laws.antt =====
-- The handle parser accepts exactly the 64-digit spellings, and its text and number agree.
use teecryptor.Prelude.{
  ℕ, ◌+◌, ◌*◌, ◌/◌, ◌%◌, ◌<◌, ◌≡◌, refl, ap, ◌∙◌, sym, ◌↔◌, ◌⊎◌, inl, inr, true, false, none, some,
  [], ◌∷◌, ◌++◌, map, drop, arith, if◌then◌else◌, length, all, Bytes, is_ascii_hexdigit,
  to_ascii_lowercase, length-map, lower_0x, Bool-cases, &&-eq-true,
}
use mathlib.Core.Path.{ap₂}
use teecryptor.External.Hex.{digit_value, hex_value, hex_value_from}
use teecryptor.External.Bignum.{Bignum}
use teecryptor.Handle.{Handle, digits_of, refused, canonical, parse, handle_type, handle_zone}

hexdigit-lowercase :
    (c : ℕ) → is_ascii_hexdigit c ≡ true → is_ascii_hexdigit (to_ascii_lowercase c) ≡ true
hexdigit-lowercase c h = ground arith

digit_value-lowercase :
    (c : ℕ) → is_ascii_hexdigit c ≡ true → digit_value (to_ascii_lowercase c) ≡ digit_value c
unfolding digit_value
digit_value-lowercase c h = ground arith

lowercase_idem : (c : ℕ) → to_ascii_lowercase (to_ascii_lowercase c) ≡ to_ascii_lowercase c
lowercase_idem c = ground arith

all-hexdigit-lowercase :
    (cs : Bytes)
    → all is_ascii_hexdigit cs ≡ true
    → all is_ascii_hexdigit (map to_ascii_lowercase cs) ≡ true
all-hexdigit-lowercase [] h = refl
all-hexdigit-lowercase (c ∷ cs) h =
    let (hc, hcs) = &&-eq-true _ _ h in rw (hexdigit-lowercase c hc) (all-hexdigit-lowercase cs hcs)

hex_value_from-lowercase :
    (acc : ℕ) (cs : Bytes)
    → all is_ascii_hexdigit cs ≡ true
    → hex_value_from acc (map to_ascii_lowercase cs) ≡ hex_value_from acc cs
hex_value_from-lowercase acc [] h = refl
hex_value_from-lowercase acc (c ∷ cs) h =
    let (hc, hcs) = &&-eq-true _ _ h in
    ap (λ d. hex_value_from (acc * 16 + d) (map to_ascii_lowercase cs)) (digit_value-lowercase c hc)
    ∙ hex_value_from-lowercase (acc * 16 + digit_value c) cs hcs

map-lowercase_idem :
    (cs : Bytes) → map to_ascii_lowercase (map to_ascii_lowercase cs) ≡ map to_ascii_lowercase cs
map-lowercase_idem [] = refl
map-lowercase_idem (c ∷ cs) = simp (lowercase_idem, map-lowercase_idem cs)

refused-eq-false :
    (ds : Bytes) → refused ds ≡ false → (length ds ≡ 64) × (all is_ascii_hexdigit ds ≡ true)
unfolding refused
refused-eq-false ds h = ground arith

refused-canonical : (ds : Bytes) → refused ds ≡ false → refused (map to_ascii_lowercase ds) ≡ false
unfolding refused
refused-canonical ds h =
    let (len, hex) = refused-eq-false ds h in
    rw (length-map to_ascii_lowercase ds, len, all-hexdigit-lowercase ds hex)

-- Digits of equal value are the same but for their case.
digit_value_inj :
    (c d : ℕ)
    → is_ascii_hexdigit c ≡ true
    → is_ascii_hexdigit d ≡ true
    → digit_value c ≡ digit_value d
    → to_ascii_lowercase c ≡ to_ascii_lowercase d
unfolding digit_value
digit_value_inj c d h k e = ground arith

digit_value_lt : (c : ℕ) → is_ascii_hexdigit c ≡ true → digit_value c < 16
unfolding digit_value
digit_value_lt c h = ground arith

pub hex_value_from_inj :
    (a b : ℕ) (cs ds : Bytes)
    → all is_ascii_hexdigit cs ≡ true
    → all is_ascii_hexdigit ds ≡ true
    → length cs ≡ length ds
    → hex_value_from a cs ≡ hex_value_from b ds
    → (a ≡ b) × (map to_ascii_lowercase cs ≡ map to_ascii_lowercase ds)
hex_value_from_inj a b [] [] h k len e = (e, refl)
hex_value_from_inj a b [] (d ∷ ds) h k len e = absurd (omega arith)
hex_value_from_inj a b (c ∷ cs) [] h k len e = absurd (omega arith)
hex_value_from_inj a b (c ∷ cs) (d ∷ ds) h k len e =
    let (hc, hcs) = &&-eq-true _ _ h in
    let (kd, kds) = &&-eq-true _ _ k in
    let (front, rest) =
      hex_value_from_inj (a * 16 + digit_value c) (b * 16 + digit_value d) cs ds hcs kds
        (omega arith) e in
    let c_lt = digit_value_lt c hc in
    let d_lt = digit_value_lt d kd in
    let same = digit_value_inj c d hc kd (omega arith) in
    (omega arith, ap₂ (λ x xs. x ∷ xs) same rest)

digits_of-canonical : (ds : Bytes) → digits_of (canonical ds) ≡ map to_ascii_lowercase ds
unfolding digits_of canonical
digits_of-canonical ds = refl

canonical-lowercase : (ds : Bytes) → canonical (map to_ascii_lowercase ds) ≡ canonical ds
unfolding canonical
canonical-lowercase ds = ap (λ cs. lower_0x ++ cs) (map-lowercase_idem ds)

canonical_inj :
    (ds es : Bytes)
    → canonical ds ≡ canonical es
    → map to_ascii_lowercase ds ≡ map to_ascii_lowercase es
unfolding canonical
canonical_inj ds es e = ap (drop 2) e

canonical_eq :
    (ds es : Bytes)
    → map to_ascii_lowercase ds ≡ map to_ascii_lowercase es
    → canonical ds ≡ canonical es
unfolding canonical
canonical_eq ds es e = ap (λ cs. lower_0x ++ cs) e

not_refused : (ds : Bytes) → length ds ≡ 64 → all is_ascii_hexdigit ds ≡ true → refused ds ≡ false
unfolding refused
not_refused ds len hex = rw (len, hex)

digits_of-cases :
    (raw : Bytes)
    → (raw ≡ digits_of raw)
      ⊎ ((raw ≡ b'0' ∷ b'x' ∷ digits_of raw) ⊎ (raw ≡ b'0' ∷ b'X' ∷ digits_of raw))
unfolding digits_of
digits_of-cases [] = inl refl
digits_of-cases (c ∷ []) = inl (ground arith)
digits_of-cases (c ∷ d ∷ ds) = ground arith

digits_of-bare : (ds : Bytes) → all is_ascii_hexdigit ds ≡ true → digits_of ds ≡ ds
unfolding digits_of
digits_of-bare [] h = refl
digits_of-bare (c ∷ []) h = ground arith
digits_of-bare (c ∷ d ∷ ds) h = ground arith

digits_of-spelled :
    (raw ds : Bytes)
    → all is_ascii_hexdigit ds ≡ true
    → (raw ≡ ds) ⊎ ((raw ≡ b'0' ∷ b'x' ∷ ds) ⊎ (raw ≡ b'0' ∷ b'X' ∷ ds))
    → digits_of raw ≡ ds
unfolding digits_of
digits_of-spelled raw ds h (inl bare) = ap digits_of bare ∙ digits_of-bare ds h
digits_of-spelled raw ds h (inr (inl lower)) = ap digits_of lower
digits_of-spelled raw ds h (inr (inr upper)) = ap digits_of upper

Handle-eq : (h g : Handle) → h.hex ≡ g.hex → h.u256 ≡ g.u256 → h ≡ g
Handle-eq h g text number = ap₂ (λ t n. record { hex = t; u256 = n }) text number

none-ne-some {ℓ} : {A : Type ℓ} {a : A} → none ≡ some a → ⊥
none-ne-some e = cc

module _ (big : Bignum) where
  -- What the parser returns, as one equation.
  parse_lem :
      (raw : Bytes)
      → parse big raw ≡ (
          if refused (digits_of raw)
          then none
          else some (record { hex = canonical (digits_of raw); u256 = hex_value (digits_of raw) }))
  unfolding parse
  parse_lem raw = elim (Bool-cases (refused (digits_of raw))) [
    | inl no_good ↦ rw no_good
    | inr good ↦
        let (len, hex) = refused-eq-false (digits_of raw) good in
        rw (good, big.from_hex_lem (digits_of raw) hex (omega arith))
  ]

  parse-eq-some :
      (raw : Bytes) (h : Handle)
      → parse big raw ≡ some h
      → (refused (digits_of raw) ≡ false)
        × (h.hex ≡ canonical (digits_of raw))
        × (h.u256 ≡ hex_value (digits_of raw))
  parse-eq-some raw h e = ground (arith, parse_lem raw)

  -- The parser accepts a text exactly when it is 64 hexadecimal digits, bare or behind `0x` or `0X`;
  -- the handle is then the number that the digits spell, with `0x` and the digits in lowercase.
  pub parse-accepts_iff :
      (raw : Bytes) (h : Handle)
      → (parse big raw ≡ some h) ↔ (
          (ds : Bytes) × ((raw ≡ ds) ⊎ ((raw ≡ b'0' ∷ b'x' ∷ ds) ⊎ (raw ≡ b'0' ∷ b'X' ∷ ds)))
          × (length ds ≡ 64)
          × (all is_ascii_hexdigit ds ≡ true)
          × (h ≡ record { hex = b'0' ∷ b'x' ∷ map to_ascii_lowercase ds; u256 = hex_value ds }))
  unfolding canonical
  parse-accepts_iff raw h = (
    (λ e.
        let (good, text, number) = parse-eq-some raw h e in
        let (len, hex) = refused-eq-false (digits_of raw) good in
        (digits_of raw, digits_of-cases raw, len, hex, Handle-eq h _ text number)),
    λ given.
        let (ds, spelled, len, hex, same) = given in
        parse_lem raw
        ∙ rw (digits_of-spelled raw ds hex spelled, not_refused ds len hex) (ap some (sym same)),
  )

  -- The text of an accepted handle is a fixed point: it is accepted, as the same handle.
  pub parse-hex : (raw : Bytes) (h : Handle) → parse big raw ≡ some h → parse big h.hex ≡ some h
  parse-hex raw h e =
      let (good, text, number) = parse-eq-some raw h e in
      let ds = digits_of raw in
      let (len, hex) = refused-eq-false ds good in
      ground (
        arith,
        parse_lem h.hex,
        ap digits_of text,
        digits_of-canonical ds,
        refused-canonical ds good,
        map-lowercase_idem ds,
        hex_value_from-lowercase 0 ds hex,
        canonical-lowercase ds,
      )

  -- The two forms of a handle name the same ciphertext: of two accepted spellings the canonical
  -- texts are equal exactly when the numbers are.
  parse-hex-eq_iff :
      (raw raw' : Bytes) (h h' : Handle)
      → parse big raw ≡ some h
      → parse big raw' ≡ some h'
      → (h.hex ≡ h'.hex) ↔ (h.u256 ≡ h'.u256)
  parse-hex-eq_iff raw raw' h h' e e' =
      let (good, text, number) = parse-eq-some raw h e in
      let (good', text', number') = parse-eq-some raw' h' e' in
      let (len, hex) = refused-eq-false (digits_of raw) good in
      let (len', hex') = refused-eq-false (digits_of raw') good' in
      (
        (λ same.
            number
            ∙ sym (hex_value_from-lowercase 0 (digits_of raw) hex)
            ∙ ap hex_value (canonical_inj _ _ (sym text ∙ same ∙ text'))
            ∙ hex_value_from-lowercase 0 (digits_of raw') hex'
            ∙ sym number'),
        (λ same.
            text
            ∙ canonical_eq _ _
                (hex_value_from_inj 0 0 _ _ hex hex' (len ∙ sym len')
                  (sym number ∙ same ∙ number')).1
            ∙ sym text'),
      )

  -- The metadata gates read the last two bytes of the handle's number: the type is the seven low
  -- bits of the last byte but one, and the zone the last byte.
  handle_metadata :
      (v : ℕ)
      → (handle_type (big.to_be_bytes v) ≡ v / 256 % 128)
        × (handle_zone (big.to_be_bytes v) ≡ v % 256)
  unfolding handle_type handle_zone
  handle_metadata v = rw (big.to_be_bytes_lem v) (omega arith, refl)
