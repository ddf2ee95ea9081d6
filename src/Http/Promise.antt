-- ===== src/Http/Promise.antt =====
-- `fetch_decrypt` refines its promise: it serves exactly the requests that satisfy it.
use teecryptor.Prelude.{
  ℕ, ◌≡◌, ◌≢◌, ◌↔◌, refl, sym, ap, ◌∙◌, true, false, Option, none, some, arith, String, Result, ok,
  >>=-eq-ok, ok_inj, err-ne-ok, ◌==◌,
}
use teecryptor.Handle.{Handle}
use teecryptor.Decrypt.{DecryptError, EncryptionType}
use teecryptor.DirectDecrypt.Top.{decrypt_compressed}
use teecryptor.Keys.{client_key, direct_key}
use teecryptor.Permit.Acp.{AcpData}
use teecryptor.Commitment.Cache.{FetchedCommitment}
use teecryptor.CtSource.{FheCiphertext}
use teecryptor.Http.Response.{ApiVersion, Response}
use teecryptor.Http.Gates.{}
use teecryptor.Http.Fetch.{
  Deps, AppState, World, join_gates, acp_gate, commitment_gate, gates, fetch_row, check_type,
  check_metadata, check_zone, check_integrity, decrypt_checked, decrypt_with, decrypt_row, finish,
  fetch_committed, fetch_decrypt,
}
use teecryptor.Http.FetchLaws.{join_gates-ok}
use teecryptor.Http.FetchLaws.Row.{fetch_decrypt-stages, fetch_row-ok, fetch_decrypt-row}
use teecryptor.Http.Served.{IsServed}
use teecryptor.DirectDecrypt.Mirror.{DirectDecryptKey}
use teecryptor.Http.Refine.{
  bind-eq, acp_gate-IsPermitted, IsPermitted-acp_gate, fetch_row-IsRowOf, decrypt_checked-IsRowOf,
  IsCleared-Passes, Passes-IsCleared,
}

module _ {Ct C : Type 0} (dep : Deps Ct C) (w : World) {S : Type 0} (api : ApiVersion) where
  -- A decryption that is answered was not that of a failed task.
  decrypt_with-joined :
      (dk : Option DirectDecryptKey) (ty : EncryptionType) (ct : FheCiphertext)
      (out : ℕ × EncryptionType)
      → ◌≡◌ {A = Result (Response S) (ℕ × EncryptionType)}
          (decrypt_with dep w api dk ty ct)
          (ok out)
      → w.join_error ≡ none
  unfolding decrypt_with finish
  decrypt_with-joined none ty ct out e = absurd (err-ne-ok e)
  decrypt_with-joined (some dk) ty ct out e = go w.join_error (decrypt_row dep dk ty ct) e
    where
      go :
          (o : Option String) (r : Result DecryptError ℕ)
          → ◌≡◌ {A = Result (Response S) (ℕ × EncryptionType)} (finish api ty o r) (ok out)
          → o ≡ none
      go none r e = refl
      go (some j) r e = absurd (err-ne-ok e)

module _ {Ct C ClientKey : Type 0} (dep : Deps Ct C) (state : AppState ClientKey) (w : World)
    {S : Type 0} (api : ApiVersion) where
  decrypt_checked-joined :
      (handle : Handle) (ct : FheCiphertext) (out : ℕ × EncryptionType)
      → decrypt_checked dep state w {S = S} api handle ct ≡ ok out
      → w.join_error ≡ none
  unfolding decrypt_checked
  decrypt_checked-joined handle ct out e =
      let (u, known, e₁) =
        >>=-eq-ok (check_zone api (client_key state.keys ct.security_zone)) _ e in
      let (ty, typed, e₂) = >>=-eq-ok (check_type api ct.encryption_type) _ e₁ in
      let (u', meta, e₃) =
        >>=-eq-ok (check_metadata api (dep.big.to_be_bytes handle.u256) ct) _ e₂ in
      decrypt_with-joined dep w {S = S} api (direct_key state.keys ct.security_zone) ty ct out e₃

  fetch_decrypt-admitted :
      (handle : Handle) (chain : ℕ) (acp : Option AcpData) (cache : C) (out : ℕ × EncryptionType)
      → (fetch_decrypt dep state w {S = S} api handle chain acp cache).0 ≡ ok out
      → w.admit_slots ≢ 0
  unfolding fetch_decrypt
  fetch_decrypt-admitted handle chain acp cache out e full =
      let none_left : (w.admit_slots == 0) ≡ true = ground arith in err-ne-ok (rw none_left at e)

  -- From the stages to the answer.
  stages-fetch_decrypt :
      (handle : Handle) (chain : ℕ) (acp : Option AcpData) (cache : C) (ct : FheCiphertext)
      (expected : Option FetchedCommitment) (out : ℕ × EncryptionType)
      → w.admit_slots ≢ 0
      → ◌≡◌ {A = Option (Response S)} (acp_gate dep w api state.acp_verifier handle chain acp) none
      → (commitment_gate dep w {S = S} api state.commitment_verifier handle chain cache).0
        ≡ ok expected
      → fetch_row dep w {S = S} api handle ≡ ok ct
      → (check_integrity dep state w {S = S} api expected ct handle chain
          (commitment_gate dep w {S = S} api state.commitment_verifier handle chain cache).1).0
        ≡ ok tt
      → decrypt_checked dep state w {S = S} api handle ct ≡ ok out
      → (fetch_decrypt dep state w {S = S} api handle chain acp cache).0 ≡ ok out
  unfolding fetch_decrypt fetch_committed gates join_gates
  stages-fetch_decrypt handle chain acp cache ct expected out admitted open_ gate row checked read =
      let free : (w.admit_slots == 0) ≡ false = ground arith in
      let cache' =
        (commitment_gate dep w {S = S} api state.commitment_verifier handle chain cache).1 in
      let gated : ((gates dep state w {S = S} api handle chain acp cache).0 ≡ ok expected) =
        rw (open_, join_gates) gate in
      rw free (
        bind-eq (gates dep state w {S = S} api handle chain acp cache) _ expected gated
        ∙ bind-eq (fetch_row dep w {S = S} api handle, cache') _ ct row
        ∙ bind-eq (check_integrity dep state w {S = S} api expected ct handle chain cache') _ tt
            checked
        ∙ read)

  -- A request is answered with a plaintext and a type exactly if the promise holds for them: there is
  -- a free slot, the caller is permitted, the stored row is one of the handle's type and zone and is
  -- the committed one, and it decrypts to the plaintext, in a task that does not fail.
  pub fetch_decrypt-IsServed :
      (handle : Handle) (chain : ℕ) (acp : Option AcpData) (cache : C) (pt : ℕ)
      (ty : EncryptionType)
      → ((fetch_decrypt dep state w {S = S} api handle chain acp cache).0 ≡ ok (pt, ty))
        ↔ IsServed dep state w handle chain acp cache pt ty
  unfolding gates
  fetch_decrypt-IsServed handle chain acp cache pt ty = (
    (λ e.
        let (expected, cache', ct, gated, row, checked, out) =
          fetch_decrypt-stages dep state w api handle chain acp cache (pt, ty) e in
        let (open_, gate) =
          join_gates-ok api (acp_gate dep w api state.acp_verifier handle chain acp)
            (commitment_gate dep w api state.commitment_verifier handle chain cache).0 expected
            (ap (λ p. p.0) gated) in
        let (fetched, zone, compact, gzipped) = fetch_row-ok dep w {S = S} api handle ct row in
        let (ct', fetched', compact', gzipped', code, kind, place, read) =
          fetch_decrypt-row dep state w {S = S} api handle chain acp cache pt ty e in
        let same : ct' ≡ ct = ok_inj (sym fetched' ∙ fetched) in
        (
          fetch_decrypt-admitted handle chain acp cache (pt, ty) e,
          IsPermitted-acp_gate dep w {S = S} api state.acp_verifier handle chain acp open_,
          decrypt_checked-joined handle ct (pt, ty) out,
          (
            ct,
            fetched,
            (zone, compact, gzipped, ap (λ c. c.encryption_type) (sym same) ∙ code, kind, place),
            Passes-IsCleared dep state w S api state.commitment_verifier handle chain cache ct refl
                (
                  expected,
                  gate,
                  ap (λ c. (check_integrity dep state w {S = S} api expected ct handle chain c).0)
                        (ap (λ p. p.1) gated)
                      ∙ checked,
                ),
            ap (λ c. decrypt_compressed dep.big dep.tfhe state.keys.zone_0_direct ty c.bytes)
                  (sym same)
                ∙ read,
          ),
        )),
    λ promise.
        let (admitted, permitted, joined, (ct, fetched, is, cleared, read)) = promise in
        let passed =
          IsCleared-Passes dep state w S api state.commitment_verifier handle chain cache ct refl
            cleared in
        stages-fetch_decrypt handle chain acp cache ct passed.0 (pt, ty) admitted
          (acp_gate-IsPermitted dep w {S = S} api state.acp_verifier handle chain acp permitted)
          passed.1 (fetch_row-IsRowOf dep w {S = S} api handle ty ct fetched is) passed.2
          (decrypt_checked-IsRowOf dep state w {S = S} api handle ct pt ty joined is read),
  )
