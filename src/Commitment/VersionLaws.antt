-- ===== src/Commitment/VersionLaws.antt =====
-- One canonical spelling of a commitment version, and the decoding of the registry's statuses.
use teecryptor.Prelude.{
  ℕ, ◌%◌, ◌≡◌, refl, sym, ap, ◌∙◌, ◌↔◌, inl, inr, true, false, some, [], ◌∷◌, map, arith, ok, ◌>>=◌,
  >>=-eq-ok, ok_inj, ok_or, ok_or-eq-ok, map_err-eq-ok, map_err, ◌==◌, length, all, Bytes,
  strip_prefix, is_ascii_uppercase, is_ascii_hexdigit, to_ascii_lowercase, lower_0x, Bool-cases,
}
use teecryptor.External.Hex.{Hex, hex_value, hex_bytes}
use teecryptor.External.Bignum.{be_value_from}
use teecryptor.External.HexLaws.{be_value-hex_bytes}
use teecryptor.Handle.Laws.{hex_value_from_inj}
use teecryptor.Commitment.Version.{
  VersionError, not_hex, any, parse_digits, parse_version, VersionStatus, unset, discriminant,
  from_u8,
}

map-lowercase_id : (cs : Bytes) → any is_ascii_uppercase cs ≡ false → map to_ascii_lowercase cs ≡ cs
map-lowercase_id [] h = refl
map-lowercase_id (c ∷ cs) h = ground (arith, map-lowercase_id cs)

-- A string that starts with `0x` is that prefix and the rest.
strip_prefix-eq_some : (s ds : Bytes) → strip_prefix lower_0x s ≡ some ds → s ≡ b'0' ∷ b'x' ∷ ds
strip_prefix-eq_some [] ds e = cc
strip_prefix-eq_some (c ∷ []) ds e = ground arith
strip_prefix-eq_some (c ∷ d ∷ s) ds e = ground arith

-- What the digits of an accepted version are.
pub record IsVersion (digits : Bytes) (v : ℕ) : Type 0 where
  pub len : length digits ≡ 64
  pub lowercase : any is_ascii_uppercase digits ≡ false
  pub hexadecimal : all is_ascii_hexdigit digits ≡ true
  pub value : v ≡ hex_value digits

module _ (hex : Hex) where
  decode_lem :
      (digits : Bytes) (v : ℕ)
      → length digits ≡ 64
      → any is_ascii_uppercase digits ≡ false
      → (map_err not_hex (hex.decode digits) >>= λ bytes. ok (be_value_from 0 bytes)) ≡ ok v
      → IsVersion digits v
  decode_lem digits v len lower e =
      let (bytes, read, e') = >>=-eq-ok (map_err not_hex (hex.decode digits)) _ e in
      let decoded = map_err-eq-ok not_hex (hex.decode digits) bytes read in
      let ds_hex = hex.decode_digits digits bytes decoded in
      let even = hex.decode_even digits bytes decoded in
      let same : bytes ≡ hex_bytes digits =
        ok_inj (sym decoded ∙ hex.decode-ok digits ds_hex even) in
      record {
        len = len;
        lowercase = lower;
        hexadecimal = ds_hex;
        value = sym (ok_inj e') ∙ ap (be_value_from 0) same ∙ be_value-hex_bytes 0 digits even;
      }

  parse_digits-IsVersion :
      (digits : Bytes) (v : ℕ) → parse_digits hex digits ≡ ok v → IsVersion digits v
  unfolding parse_digits
  parse_digits-IsVersion digits v e = elim (Bool-cases (length digits == 64)) [
    | inl full ↦ elim (Bool-cases (any is_ascii_uppercase digits)) [
      | inl upper ↦ absurd (ground arith)
      | inr lower ↦ decode_lem digits v (ground arith) lower (ground arith)
    ]
    | inr short ↦ absurd (ground arith)
  ]

  IsVersion-parse_digits :
      (digits : Bytes) (v : ℕ) → IsVersion digits v → parse_digits hex digits ≡ ok v
  unfolding parse_digits
  IsVersion-parse_digits digits v d =
      let even : (length digits % 2) ≡ 0 = omega arith in
      let read = hex.decode-ok digits d.hexadecimal even in
      rw (d.len, d.lowercase, read) (ap ok (be_value-hex_bytes 0 digits even ∙ sym d.value))

  -- A commitment version is accepted exactly when it is `0x` and 64 lowercase hex digits, and it is
  -- read as the number that the digits spell.
  pub parse_version_iff :
      (s : Bytes) (v : ℕ)
      → (parse_version hex s ≡ ok v)
        ↔ ((digits : Bytes) × (s ≡ b'0' ∷ b'x' ∷ digits) × IsVersion digits v)
  unfolding parse_version
  parse_version_iff s v = (
    (λ e.
        let (digits, prefix, e') =
          >>=-eq-ok (ok_or VersionError.no_prefix (strip_prefix lower_0x s)) _ e in
        (
          digits,
          strip_prefix-eq_some s digits (ok_or-eq-ok _ _ digits prefix),
          parse_digits-IsVersion digits v e',
        )),
    λ found. let (digits, spelled, d) = found in rw spelled (IsVersion-parse_digits digits v d),
  )

  -- One canonical form means one string: two accepted spellings of the same version are equal.
  parse_version_inj :
      (s t : Bytes) (v : ℕ) → parse_version hex s ≡ ok v → parse_version hex t ≡ ok v → s ≡ t
  parse_version_inj s t v e e' =
      let (ds, spelled, d) = (parse_version_iff s v).0 e in
      let (ds', spelled', d') = (parse_version_iff t v).0 e' in
      let same =
        hex_value_from_inj 0 0 ds ds' d.hexadecimal d'.hexadecimal (d.len ∙ sym d'.len)
          (sym d.value ∙ d'.value) in
      spelled
      ∙ ap (λ xs. b'0' ∷ b'x' ∷ xs)
          (sym (map-lowercase_id ds d.lowercase) ∙ same.1 ∙ map-lowercase_id ds' d'.lowercase)
      ∙ sym spelled'

-- A status is decoded exactly from its discriminant, so an unknown number is none of them.
from_u8_iff : (n : ℕ) (s : VersionStatus) → (from_u8 n ≡ some s) ↔ (n ≡ discriminant s)
unfolding from_u8
from_u8_iff n unset = ground arith
from_u8_iff n s = ground arith
