-- ===== src/Http/FetchLaws/Row.antt =====
-- The stages of a served request, and the row that it decrypted.
use teecryptor.Prelude.{
  ℕ, ◌<◌, ◌^◌, ◌≡◌, ◌≢◌, refl, sym, ap, ◌∙◌, inl, inr, true, false, Option, none, some, arith,
  String, Result, ok, err, ◌>>=◌, >>=-eq-ok, ok_inj, err-ne-ok, ℤ, pos, eq_ℤ_iff, ◌==◌, Bytes,
  Bool-cases, next_multiple_of, trailing_zeros,
}
use teecryptor.Handle.{Handle, handle_type, handle_zone}
use teecryptor.Decrypt.{DecryptError, EncryptionType, bool, from_i32, to_i32, bits}
use teecryptor.Decrypt.Laws.{from_i32_iff}
use teecryptor.DirectDecrypt.Mirror.{DirectDecryptKey}
use teecryptor.DirectDecrypt.Top.{decrypt_compressed}
use teecryptor.DirectDecrypt.TopLaws.{decrypt_compressed-lt}
use teecryptor.Keys.{client_key, direct_key}
use teecryptor.Permit.Acp.{AcpData}
use teecryptor.Commitment.Cache.{FetchedCommitment}
use teecryptor.CtSource.{CtFetchError, FheCiphertext, fetch}
use teecryptor.Http.Response.{ApiVersion, Response, api_err}
use teecryptor.Http.Fetch.{
  Deps, AppState, World, bind, reject_ct, check_envelope, check_type, check_metadata, finish,
  decrypt_row, decrypt_with, gates, fetch_row, check_integrity, decrypt_checked, check_zone,
  fetch_committed, fetch_decrypt,
}

pos_inj : (m n : ℕ) → pos m ≡ pos n → m ≡ n
pos_inj m n e = cc

pub bind-ok :
    {E A B C : Type 0} (m : Result E A × C) (f : A → C → Result E B × C) {b : B}
    → (bind m f).0 ≡ ok b
    → (a : A) × (c : C) × (m ≡ (ok a, c)) × ((f a c).0 ≡ ok b)
bind-ok (ok a, c) f e = (a, c, refl, e)
bind-ok (err x, c) f e = cc

module _ {Ct C ClientKey : Type 0} (dep : Deps Ct C) (state : AppState ClientKey) (w : World)
    {S : Type 0} (api : ApiVersion) where
  pub fetch_decrypt-stages :
      (handle : Handle) (chain : ℕ) (acp : Option AcpData) (cache : C) (out : ℕ × EncryptionType)
      → (fetch_decrypt dep state w {S = S} api handle chain acp cache).0 ≡ ok out
      → (expected : Option FetchedCommitment) × (cache' : C) × (ct : FheCiphertext) × (gates dep
            state w {S = S} api handle chain acp cache
          ≡ (ok expected, cache'))
        × (fetch_row dep w {S = S} api handle ≡ ok ct)
        × ((check_integrity dep state w {S = S} api expected ct handle chain cache').0 ≡ ok tt)
        × (decrypt_checked dep state w {S = S} api handle ct ≡ ok out)
  unfolding fetch_decrypt fetch_committed
  fetch_decrypt-stages handle chain acp cache out e = elim (Bool-cases (w.admit_slots == 0)) [
    | inl full ↦ absurd (err-ne-ok (rw full at e))
    | inr free ↦
        let (expected, cache', gated, e₁) =
          bind-ok (gates dep state w {S = S} api handle chain acp cache) _ (rw free at e) in
        let (ct, cache₁, row, e₂) = bind-ok (fetch_row dep w {S = S} api handle, cache') _ e₁ in
        let same : cache' ≡ cache₁ = ap (λ p. p.1) row in
        let (u, cache₂, checked, e₃) =
          bind-ok (check_integrity dep state w {S = S} api expected ct handle chain cache₁) _ e₂ in
        (
          expected,
          cache',
          ct,
          gated,
          ap (λ p. p.0) row,
          ap (λ c. (check_integrity dep state w {S = S} api expected ct handle chain c).0) same
              ∙ ap (λ p. p.0) checked,
          e₃,
        )
  ]

module _ {Ct C : Type 0} (dep : Deps Ct C) (w : World) {S : Type 0} (api : ApiVersion) where
  check_envelope-ok :
      (ct : FheCiphertext)
      → ◌≡◌ {A = Result (Response S) (Unit {0})} (check_envelope api ct) (ok tt)
      → (ct.security_zone ≡ pos 0) × (ct.compact ≡ false) × (ct.gzipped ≡ true)
  unfolding check_envelope
  check_envelope-ok ct e = ground (arith, eq_ℤ_iff ct.security_zone (pos 0))

  pub fetch_row-ok :
      (handle : Handle) (ct : FheCiphertext)
      → fetch_row dep w {S = S} api handle ≡ ok ct
      → (fetch dep.hex dep.from_slice w.ct_server handle.hex ≡ ok ct)
        × (ct.security_zone ≡ pos 0)
        × (ct.compact ≡ false)
        × (ct.gzipped ≡ true)
  unfolding fetch_row
  fetch_row-ok handle ct e = go (fetch dep.hex dep.from_slice w.ct_server handle.hex) e
    where
      go :
          (r : Result CtFetchError FheCiphertext)
          → ◌≡◌ {A = Result (Response S) FheCiphertext}
              (elim r [
                | ok row ↦ check_envelope api row >>= λ _. ok row
                | err x ↦ err (reject_ct api x)
              ])
              (ok ct)
          → (r ≡ ok ct) × (ct.security_zone ≡ pos 0) × (ct.compact ≡ false) × (ct.gzipped ≡ true)
      go (ok row) e =
          let (u, passed, same) = >>=-eq-ok (check_envelope api row) _ e in
          let p : row ≡ ct = ok_inj same in
          let (zone, compact, gzipped) = check_envelope-ok row passed in
          (
            ap ok p,
            ap (λ c. c.security_zone) (sym p) ∙ zone,
            ap (λ c. c.compact) (sym p) ∙ compact,
            ap (λ c. c.gzipped) (sym p) ∙ gzipped,
          )
      go (err x) e = absurd (err-ne-ok e)

  finish-ok :
      (ty : EncryptionType) (fault : Option String) (r : Result DecryptError ℕ)
      (out : ℕ × EncryptionType)
      → ◌≡◌ {A = Result (Response S) (ℕ × EncryptionType)} (finish api ty fault r) (ok out)
      → (r ≡ ok out.0) × (ty ≡ out.1)
  unfolding finish
  finish-ok ty none (ok pt) out e = (ap ok (ap (λ o. o.0) (ok_inj e)), ap (λ o. o.1) (ok_inj e))
  finish-ok ty none (err x) out e = absurd (err-ne-ok e)
  finish-ok ty (some j) r out e = absurd (err-ne-ok e)

  check_type-ok :
      (code : ℤ) (ty : EncryptionType)
      → ◌≡◌ {A = Result (Response S) EncryptionType} (check_type api code) (ok ty)
      → code ≡ to_i32 ty
  unfolding check_type
  check_type-ok code ty e = go (from_i32 code) refl e
    where
      go :
          (r : Result DecryptError EncryptionType)
          → from_i32 code ≡ r
          → ◌≡◌ {A = Result (Response S) EncryptionType}
              (elim r [ ok t ↦ ok t | err x ↦ err (api_err api 422 "unsupported_type") ])
              (ok ty)
          → code ≡ to_i32 ty
      go (ok t) read e = (from_i32_iff code ty).0 (read ∙ e')
        where
          e' : ◌≡◌ {A = Result DecryptError EncryptionType} (ok t) (ok ty)
          e' = ap ok (ok_inj e)
      go (err x) read e = absurd (err-ne-ok e)

  check_metadata-ok :
      (bytes : Bytes) (ct : FheCiphertext)
      → ◌≡◌ {A = Result (Response S) (Unit {0})} (check_metadata api bytes ct) (ok tt)
      → (pos (handle_type bytes) ≡ ct.encryption_type)
        × (pos (handle_zone bytes) ≡ ct.security_zone)
  unfolding check_metadata
  check_metadata-ok bytes ct e = ground (
    arith,
    eq_ℤ_iff (pos (handle_type bytes)) ct.encryption_type,
    eq_ℤ_iff (pos (handle_zone bytes)) ct.security_zone,
  )

  decrypt_with-ok :
      (dk : DirectDecryptKey) (ty : EncryptionType) (ct : FheCiphertext) (out : ℕ × EncryptionType)
      → ct.gzipped ≡ true
      → ◌≡◌ {A = Result (Response S) (ℕ × EncryptionType)}
          (decrypt_with dep w api (some dk) ty ct)
          (ok out)
      → (decrypt_compressed dep.big dep.tfhe dk out.1 ct.bytes ≡ ok out.0) × (ty ≡ out.1)
  unfolding decrypt_with decrypt_row
  decrypt_with-ok dk ty ct out gz e =
      let (done, same) = finish-ok ty w.join_error _ out e in
      let read : decrypt_compressed dep.big dep.tfhe dk ty ct.bytes ≡ ok out.0 = rw gz at done in
      (ap (λ t. decrypt_compressed dep.big dep.tfhe dk t ct.bytes) (sym same) ∙ read, same)

module _ {Ct C ClientKey : Type 0} (dep : Deps Ct C) (state : AppState ClientKey) (w : World)
    {S : Type 0} (api : ApiVersion) where
  -- A request that is served decrypted the row that ct-server stores under the canonical handle: a
  -- modulus-switched row whose declared type and zone are the ones in the metadata bytes of the
  -- handle, under the key of zone 0 and at the width of that type.
  pub fetch_decrypt-row :
      (handle : Handle) (chain : ℕ) (acp : Option AcpData) (cache : C) (pt : ℕ)
      (ty : EncryptionType)
      → (fetch_decrypt dep state w {S = S} api handle chain acp cache).0 ≡ ok (pt, ty)
      → (ct : FheCiphertext) × (fetch dep.hex dep.from_slice w.ct_server handle.hex ≡ ok ct)
        × (ct.compact ≡ false)
        × (ct.gzipped ≡ true)
        × (ct.encryption_type ≡ to_i32 ty)
        × (pos (handle_type (dep.big.to_be_bytes handle.u256)) ≡ to_i32 ty)
        × (handle_zone (dep.big.to_be_bytes handle.u256) ≡ 0)
        × (decrypt_compressed dep.big dep.tfhe state.keys.zone_0_direct ty ct.bytes ≡ ok pt)
  unfolding decrypt_checked direct_key
  fetch_decrypt-row handle chain acp cache pt ty e =
      let (expected, cache', ct, gated, row, checked, out) =
        fetch_decrypt-stages dep state w api handle chain acp cache (pt, ty) e in
      let (fetched, zone, compact, gzipped) = fetch_row-ok dep w {S = S} api handle ct row in
      let (u, known, e₁) =
        >>=-eq-ok (check_zone api (client_key state.keys ct.security_zone)) _ out in
      let (ty', typed, e₂) = >>=-eq-ok (check_type api ct.encryption_type) _ e₁ in
      let (u', meta, e₃) =
        >>=-eq-ok (check_metadata api (dep.big.to_be_bytes handle.u256) ct) _ e₂ in
      let (kind, place) =
        check_metadata-ok dep w {S = S} api (dep.big.to_be_bytes handle.u256) ct meta in
      let (read, same) =
        decrypt_with-ok dep w {S = S} api state.keys.zone_0_direct ty' ct (pt, ty) gzipped
          (rw zone at e₃) in
      let code : ct.encryption_type ≡ to_i32 ty =
        check_type-ok dep w {S = S} api ct.encryption_type ty' typed ∙ ap to_i32 same in
      (ct, fetched, compact, gzipped, code, kind ∙ code, pos_inj _ 0 (place ∙ zone), read)

  -- The plaintext of a request that is served fits in the width of the type that it is answered with,
  -- under a key whose digits divide that width.
  fetch_decrypt-lt :
      (handle : Handle) (chain : ℕ) (acp : Option AcpData) (cache : C) (pt : ℕ)
      (ty : EncryptionType)
      → (ty ≢ bool
          → next_multiple_of (bits ty) (trailing_zeros state.keys.zone_0_direct.message_modulus)
            ≡ bits ty)
      → (fetch_decrypt dep state w {S = S} api handle chain acp cache).0 ≡ ok (pt, ty)
      → pt < 2 ^ bits ty
  fetch_decrypt-lt handle chain acp cache pt ty even e =
      let (ct, fetched, compact, gzipped, code, kind, zone, read) =
        fetch_decrypt-row handle chain acp cache pt ty e in
      decrypt_compressed-lt dep.big dep.tfhe state.keys.zone_0_direct ty ct.bytes pt even read
