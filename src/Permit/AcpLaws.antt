-- ===== src/Permit/AcpLaws.antt =====
-- What an accepted ACP carries to the contract: the signed fields, unchanged.
use teecryptor.Prelude.{
  ℕ, suc, ◌+◌, ◌-◌, ◌%◌, ◌≤◌, ◌≡◌, refl, sym, ap, ◌∙◌, inl, inr, ◌⊎◌, ◌++◌, replicate, zero,
  map_err-eq-ok, true, List, [], ◌∷◌, arith, String, Result, ok, ◌>>=◌, map_err, >>=-eq-ok, ok_inj,
  err-ne-ok, not_ltb, ltb, length, all, Bytes, is_ascii_hexdigit, eq_bytes, Bool-cases,
}
use mathlib.Core.Path.{subst}
use teecryptor.External.Hex.{Hex, digit_value, hex_value}
use teecryptor.External.Bignum.{be_value_from}
use teecryptor.External.HexLaws.{be_value-hex_bytes, hex_value-zeros, hexdigit-zeros, length-zeros}
use teecryptor.Permit.Acp.{
  AcpData, Acp, Label, label, label_at, AcpError, malformed, address, is_empty, bad_hex, strip_0x,
  pad_64, parse_addr, parse_b32_digits, parse_b32, parse_all, build_acp, try_from,
}

is_zero_text : (s : Bytes) → eq_bytes s (b'0' ∷ []) ≡ true → hex_value s ≡ 0
unfolding digit_value
is_zero_text [] h = cc
is_zero_text (c ∷ []) h = ground arith
is_zero_text (c ∷ d ∷ s) h = ground arith

module _ (hex : Hex) where
  decode-pad_64 :
      (l : Label) (s : Bytes)
      → all is_ascii_hexdigit s ≡ true
      → length s ≤ 64
      → (map_err (λ e. malformed (bad_hex l e)) (hex.decode (pad_64 s)) >>= λ bytes.
          ok (be_value_from 0 bytes))
        ≡ ok (hex_value s)
  decode-pad_64 l s h len =
      let even : (length (pad_64 s) % 2) ≡ 0 = ap (λ n. n % 2) (length-zeros s len) in
      ap (λ r. map_err (λ e. malformed (bad_hex l e)) r >>= λ bytes. ok (be_value_from 0 bytes))
        (hex.decode-ok (pad_64 s) (hexdigit-zeros (64 - length s) s h) even)
      ∙ ap ok (be_value-hex_bytes 0 (pad_64 s) even ∙ hex_value-zeros (64 - length s) s)

  module _ (parse_address : Bytes → Result String ℕ) where
    parse_b32_digits-value :
        (l : Label) (s : Bytes)
        → all is_ascii_hexdigit s ≡ true
        → length s ≤ 64
        → parse_b32_digits hex parse_address l s ≡ ok (hex_value s)
    unfolding parse_b32_digits
    parse_b32_digits-value l [] h len = refl
    parse_b32_digits-value l (c ∷ cs) h len =
        ground (arith, decode-pad_64 l (c ∷ cs) h len, is_zero_text (c ∷ cs))

    -- A `bytes32` field of at most 64 hex digits, with or without `0x`, is read as the number that
    -- its digits spell: the padding on the left, and the short forms for zero, change nothing.
    parse_b32_value :
        (l : Label) (s : Bytes)
        → all is_ascii_hexdigit (strip_0x s) ≡ true
        → length (strip_0x s) ≤ 64
        → parse_b32 hex parse_address l s ≡ ok (hex_value (strip_0x s))
    unfolding parse_b32
    parse_b32_value l s h len = parse_b32_digits-value l (strip_0x s) h len

    -- The number that a `bytes32` text spells: at most 64 hex digits behind an optional `0x`.
    abbrev pub IsB32 : Bytes → ℕ → Type 0
    IsB32 s v =
        (d : Bytes) × ((s ≡ d) ⊎ (s ≡ b'0' ∷ b'x' ∷ d))
        × (all is_ascii_hexdigit d ≡ true)
        × (length d ≤ 64)
        × (v ≡ hex_value d)

    -- The address that a text spells: an empty one, with or without `0x`, is the zero address.
    abbrev pub IsAddress : Bytes → ℕ → Type 0
    IsAddress s v = (((s ≡ []) ⊎ (s ≡ b'0' ∷ b'x' ∷ [])) × (v ≡ 0)) ⊎ (parse_address s ≡ ok v)

    -- Entry by entry, in the order that they were sent.
    abbrev pub AreEach : (Bytes → ℕ → Type 0) → List Bytes → List ℕ → Type 0
    AreEach P [] [] = Unit {0}
    AreEach P [] (v ∷ vs) = ⊥
    AreEach P (s ∷ ss) [] = ⊥
    AreEach P (s ∷ ss) (v ∷ vs) = P s v × AreEach P ss vs

    is_empty-eq : (s : Bytes) → is_empty s ≡ true → s ≡ []
    is_empty-eq [] h = refl
    is_empty-eq (c ∷ s) h = cc

    strip_0x-cases : (s : Bytes) → (s ≡ strip_0x s) ⊎ (s ≡ b'0' ∷ b'x' ∷ strip_0x s)
    strip_0x-cases [] = inl refl
    strip_0x-cases (c ∷ []) = inl (ground arith)
    strip_0x-cases (c ∷ d ∷ s) = ground arith

    all-append :
        (k : ℕ) (s : Bytes)
        → all is_ascii_hexdigit (replicate k b'0' ++ s) ≡ true
        → all is_ascii_hexdigit s ≡ true
    all-append zero s h = h
    all-append (suc k) s h = all-append k s h

    parse_addr-IsAddress :
        (l : Label) (s : Bytes) (v : ℕ) → parse_addr hex parse_address l s ≡ ok v → IsAddress s v
    unfolding parse_addr
    parse_addr-IsAddress l s v e = elim (Bool-cases (is_empty (strip_0x s))) [
      | inl blank ↦
          let nothing = is_empty-eq (strip_0x s) blank in
          let zero_ : v ≡ 0 = sym (ok_inj (rw blank at e)) in
          elim (strip_0x-cases s) [
            | inl bare ↦ inl (inl (bare ∙ nothing), zero_)
            | inr marked ↦ inl (inr (marked ∙ ap (λ d. b'0' ∷ b'x' ∷ d) nothing), zero_)
          ]
      | inr some_text ↦
          inr (map_err-eq-ok (λ m. malformed (address l m)) (parse_address s) v (rw some_text at e))
    ]

    zero_text : (s : Bytes) → eq_bytes s (b'0' ∷ []) ≡ true → s ≡ b'0' ∷ []
    zero_text [] h = cc
    zero_text (c ∷ []) h = ground arith
    zero_text (c ∷ d ∷ s) h = ground arith

    parse_b32_digits-ok :
        (l : Label) (d : Bytes) (v : ℕ)
        → parse_b32_digits hex parse_address l d ≡ ok v
        → (all is_ascii_hexdigit d ≡ true) × (length d ≤ 64) × (v ≡ hex_value d)
    unfolding parse_b32_digits digit_value
    parse_b32_digits-ok l [] v e = (refl, omega arith, sym (ok_inj e))
    parse_b32_digits-ok l (c ∷ cs) v e = elim (Bool-cases (eq_bytes (c ∷ cs) (b'0' ∷ []))) [
      | inl short ↦
          let zero_ : v ≡ 0 = sym (ok_inj (rw short at e)) in
          let same = zero_text (c ∷ cs) short in
          subst (λ d. (all is_ascii_hexdigit d ≡ true) × (length d ≤ 64) × (v ≡ hex_value d))
            (sym same) (refl, omega arith, zero_)
      | inr long ↦ elim (Bool-cases (ltb 64 (length (c ∷ cs)))) [
        | inl many ↦ absurd (err-ne-ok (rw many at (rw long at e)))
        | inr few ↦
            let (bytes, decoded, e₁) =
              >>=-eq-ok (map_err (λ m. malformed (bad_hex l m)) (hex.decode (pad_64 (c ∷ cs)))) _
                (rw few at (rw long at e)) in
            let read = map_err-eq-ok _ (hex.decode (pad_64 (c ∷ cs))) bytes decoded in
            let digits =
              all-append (64 - length (c ∷ cs)) (c ∷ cs)
                (hex.decode_digits (pad_64 (c ∷ cs)) bytes read) in
            let small = not_ltb _ _ few in
            (digits, small, ok_inj (sym e ∙ parse_b32_digits-value l (c ∷ cs) digits small))
      ]
    ]

    parse_b32-IsB32 :
        (l : Label) (s : Bytes) (v : ℕ) → parse_b32 hex parse_address l s ≡ ok v → IsB32 s v
    unfolding parse_b32
    parse_b32-IsB32 l s v e =
        let (digits, small, value) = parse_b32_digits-ok l (strip_0x s) v e in
        (strip_0x s, strip_0x-cases s, digits, small, value)

    AreEach-parse_all :
        (P : Bytes → ℕ → Type 0) (parse : Label → Bytes → Result AcpError ℕ)
        → ((l : Label) (s : Bytes) (v : ℕ) → parse l s ≡ ok v → P s v)
        → (name : String) (i : ℕ) (ss : List Bytes) (vs : List ℕ)
        → parse_all hex parse_address parse name i ss ≡ ok vs
        → AreEach P ss vs
    unfolding parse_all
    AreEach-parse_all P parse h name i [] [] e = tt
    AreEach-parse_all P parse h name i [] (v ∷ vs) e = cc
    AreEach-parse_all P parse h name i (s ∷ ss) vs e =
        let (v, here, e₁) = >>=-eq-ok (parse (label_at name i) s) _ e in
        let (vs', rest, e₂) = >>=-eq-ok (parse_all hex parse_address parse name (i + 1) ss) _ e₁ in
        subst (AreEach P (s ∷ ss)) (ok_inj e₂)
          (h (label_at name i) s v here, AreEach-parse_all P parse h name (i + 1) ss vs' rest)

    -- What the contract's struct has of the wire form: the scalar fields and the signatures as they
    -- were sent, and the numbers that the addresses and the `bytes32` fields spell, each scope entry
    -- at its place.
    pub record IsCarried (p : AcpData) (a : Acp) : Type 0 where
      pub expiration : a.expiration ≡ p.expiration
      pub revoker_data : a.revoker_data ≡ p.revoker_data
      pub scope : a.scope ≡ p.scope
      pub issuer_signature : a.issuer_signature ≡ p.issuer_signature
      pub recipient_signature : a.recipient_signature ≡ p.recipient_signature
      pub issuer : IsAddress p.issuer a.issuer
      pub recipient : IsAddress p.recipient a.recipient
      pub revoker_contract : IsAddress p.revoker_contract a.revoker_contract
      pub sealing_key : IsB32 p.sealing_key a.sealing_key
      pub contracts : AreEach IsAddress p.contracts a.contracts
      pub handles : AreEach IsB32 p.handles a.handles
      contracts_bounded : length p.contracts ≤ 256
      handles_bounded : length p.handles ≤ 256

    build_acp-IsCarried :
        (p : AcpData) (a : Acp)
        → length p.contracts ≤ 256
        → length p.handles ≤ 256
        → build_acp hex parse_address p ≡ ok a
        → IsCarried p a
    unfolding build_acp
    build_acp-IsCarried p a small_c small_h e =
        let addr = parse_addr hex parse_address in
        let b32 = parse_b32 hex parse_address in
        let (cs, c, e₁) =
          >>=-eq-ok (parse_all hex parse_address addr "contracts" 0 p.contracts) _ e in
        let (hs, h, e₂) = >>=-eq-ok (parse_all hex parse_address b32 "handles" 0 p.handles) _ e₁ in
        let (i, issued, e₃) = >>=-eq-ok (addr (label "issuer") p.issuer) _ e₂ in
        let (r, received, e₄) = >>=-eq-ok (addr (label "recipient") p.recipient) _ e₃ in
        let (k, revoked, e₅) = >>=-eq-ok (addr (label "revokerContract") p.revoker_contract) _ e₄ in
        let (s, sealed, e₆) = >>=-eq-ok (b32 (label "sealingKey") p.sealing_key) _ e₅ in
        let same = sym (ok_inj e₆) in
        record {
          expiration = ap (λ x. x.expiration) same;
          revoker_data = ap (λ x. x.revoker_data) same;
          scope = ap (λ x. x.scope) same;
          issuer_signature = ap (λ x. x.issuer_signature) same;
          recipient_signature = ap (λ x. x.recipient_signature) same;
          issuer =
              parse_addr-IsAddress (label "issuer") p.issuer a.issuer
                (issued ∙ ap (λ x. ok x.issuer) (sym same));
          recipient =
              parse_addr-IsAddress (label "recipient") p.recipient a.recipient
                (received ∙ ap (λ x. ok x.recipient) (sym same));
          revoker_contract =
              parse_addr-IsAddress (label "revokerContract") p.revoker_contract a.revoker_contract
                (revoked ∙ ap (λ x. ok x.revoker_contract) (sym same));
          sealing_key =
              parse_b32-IsB32 (label "sealingKey") p.sealing_key a.sealing_key
                (sealed ∙ ap (λ x. ok x.sealing_key) (sym same));
          contracts =
              AreEach-parse_all IsAddress addr parse_addr-IsAddress "contracts" 0 p.contracts
                a.contracts (c ∙ ap (λ x. ok x.contracts) (sym same));
          handles =
              AreEach-parse_all IsB32 b32 parse_b32-IsB32 "handles" 0 p.handles a.handles
                (h ∙ ap (λ x. ok x.handles) (sym same));
          contracts_bounded = small_c;
          handles_bounded = small_h;
        }

    -- An accepted ACP reaches the contract as it was sent: the scalar fields and the signatures
    -- unchanged, every address and `bytes32` field as the number that its text spells, the contracts
    -- and handles entry by entry in their order, and never more than 256 of either.
    pub try_from-IsCarried :
        (p : AcpData) (a : Acp) → try_from hex parse_address p ≡ ok a → IsCarried p a
    unfolding try_from
    try_from-IsCarried p a e = elim (Bool-cases (ltb 256 (length p.contracts))) [
      | inl many ↦ absurd (err-ne-ok (rw many at e))
      | inr few ↦ elim (Bool-cases (ltb 256 (length p.handles))) [
        | inl many ↦ absurd (err-ne-ok (rw many at (rw few at e)))
        | inr few' ↦
            build_acp-IsCarried p a (not_ltb _ _ few) (not_ltb _ _ few') (rw few' at (rw few at e))
      ]
    ]
