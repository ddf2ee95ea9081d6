-- ===== src/Http/Wire.antt =====
-- The wire form of every refusal, for each generation of the API.
pub mod Requests
use teecryptor.Prelude.{
  ℕ, ◌≤◌, ◌≡◌, refl, ◌⊎◌, inl, inr, Bool, true, false, not, ◌&&◌, ◌||◌, Option, none, some, arith,
  String, Result, ok, err, ◌>>=◌, map_err, ok_or, ℤ, pos, eq_ℤ, ◌==◌, if◌then◌else◌, Bytes,
  Bool-cases,
}
use teecryptor.Handle.{Handle, parse, handle_type, handle_zone}
use teecryptor.Decrypt.{DecryptError, EncryptionType, from_i32, to_i32, encode}
use teecryptor.Keys.{KeyStore, client_key, direct_key}
use teecryptor.DirectDecrypt.Mirror.{DirectDecryptKey}
use teecryptor.Permit.Acp.{AcpData, AcpError}
use teecryptor.Permit.Verify.{Chains, verify_via_taskmanager, verify_publicly_allowed}
use teecryptor.Commitment.Cache.{
  CommitmentError, FetchedCommitment, CommitmentConfig, refresh_commitment, fetch_commitment,
}
use teecryptor.CtSource.{FheCiphertext, CtFetchError, fetch}
use teecryptor.Seal.{SealError, SealedOutput, DryocBox, seal_to_user}
use teecryptor.Signing.{
  SigningService, SignatureVFormat, sign_decrypt, sign_sealoutput, parse_v_format,
}
use teecryptor.Http.Response.{
  ApiVersion, v1, v2, RetryReason, reason_str, v1_status, Response, empty, error_body, api_err,
  retryable, retryable_204, resolve_signature, reject,
}
use teecryptor.Http.Gates.{
  reject_acp, acp_verdict, enforce_acp, reject_commitment, commitment_verdict, compare, rejudge,
  enforce_commitment, enforce_commitment_integrity,
}
use teecryptor.Http.Fetch.{
  Deps, AppState, World, bind, reject_ct, join_gates, check_envelope, check_type, check_metadata,
  check_zone, finish, decrypt_row, decrypt_with, acp_gate, commitment_gate, gates, fetch_row,
  check_integrity, decrypt_checked, fetch_committed, fetch_decrypt,
}
use teecryptor.Http.Bodies.{Request}
use teecryptor.Http.Handlers.{
  parse_handle, reject_seal, Decrypted, Sealed, sign_plaintext, sign_sealed, seal_plaintext,
  require_acp, run_decrypt, run_sealoutput, trim_0x,
}

module _ {S : Type 0} where
  -- A terminal error with its code, which the first generation repeats in `error_message`.
  abbrev pub IsTerminal : Option String → String → Response S → Type 0
  IsTerminal message code resp =
      (400 ≤ resp.status)
      × (resp.retry_reason ≡ none)
      × (resp.body ≡ error_body (record { error = code; error_message = message }))

  -- The first generation never gets an empty body; the second gets one exactly with a 204 and the
  -- header that says why to retry.
  abbrev pub IsWire : ApiVersion → Response S → Type 0
  IsWire v1 resp = (code : String) × IsTerminal (some code) code resp
  IsWire v2 resp =
      ((code : String) × IsTerminal none code resp)
      ⊎ ((resp.status ≡ 204)
          × (resp.body ≡ empty)
          × ((reason : RetryReason) × (resp.retry_reason ≡ some (reason_str reason))))

  abbrev pub Refuses : {A : Type 0} → ApiVersion → Result (Response S) A → Type 0
  Refuses api (ok a) = Unit {0}
  Refuses api (err resp) = IsWire api resp

  pub bind-Refuses :
      {A B C : Type 0} (api : ApiVersion) (m : Result (Response S) A × C)
      (f : A → C → Result (Response S) B × C)
      → Refuses api m.0
      → ((a : A) (c : C) → Refuses api (f a c).0)
      → Refuses api (bind m f).0
  bind-Refuses api (ok a, c) f h k = k a c
  bind-Refuses api (err resp, c) f h k = h

  pub >>=-Refuses :
      {A B : Type 0} (api : ApiVersion) (m : Result (Response S) A) (f : A → Result (Response S) B)
      → Refuses api m
      → ((a : A) → Refuses api (f a))
      → Refuses api (m >>= f)
  >>=-Refuses api (ok a) f h k = k a
  >>=-Refuses api (err resp) f h k = h

  -- a refusal behind a test
  if-Refuses :
      {A : Type 0} (api : ApiVersion) (b : Bool) (r s : Result (Response S) A)
      → Refuses api r
      → Refuses api s
      → Refuses api (if b then r else s)
  if-Refuses api true r s h k = h
  if-Refuses api false r s h k = k

module _ (S : Type 0) where
  pub api_err-IsWire :
      (api : ApiVersion) (status : ℕ) (code : String)
      → 400 ≤ status
      → IsWire api (api_err {S = S} api status code)
  unfolding api_err
  api_err-IsWire v1 status code le = (code, (le, refl, refl))
  api_err-IsWire v2 status code le = inl (code, (le, refl, refl))

  pub retryable-IsWire :
      (api : ApiVersion) (reason : RetryReason) → IsWire api (retryable {S = S} api reason)
  unfolding retryable retryable_204 api_err
  retryable-IsWire v1 RetryReason.overloaded = ("overloaded", (omega arith, refl, refl))
  retryable-IsWire v1 RetryReason.ct_not_ready = ("ct_not_ready", (omega arith, refl, refl))
  retryable-IsWire v1 RetryReason.commitment_pending =
      ("commitment_pending", (omega arith, refl, refl))
  retryable-IsWire v2 reason = inr (refl, refl, (reason, refl))

  reject_acp-IsWire :
      (api : ApiVersion) (status : ℕ) (code : String) (e : AcpError)
      → 400 ≤ status
      → IsWire api (reject_acp {S = S} api status code e)
  unfolding reject_acp
  reject_acp-IsWire api status code AcpError.denied le = api_err-IsWire api status code le
  reject_acp-IsWire api status code (AcpError.unknown_chain id) le =
      api_err-IsWire api 400 "unknown_chain" (omega arith)
  reject_acp-IsWire api status code AcpError.expired le =
      api_err-IsWire api 401 "acp_expired" (omega arith)
  reject_acp-IsWire api status code AcpError.bad_signature le =
      api_err-IsWire api 401 "acp_invalid" (omega arith)
  reject_acp-IsWire api status code (AcpError.malformed m) le =
      api_err-IsWire api 400 "acp_malformed" (omega arith)
  reject_acp-IsWire api status code (AcpError.timeout s) le =
      api_err-IsWire api 504 "acp_verifier_timeout" (omega arith)
  reject_acp-IsWire api status code (AcpError.transport s) le =
      api_err-IsWire api 502 "acp_verifier_error" (omega arith)
  reject_acp-IsWire api status code (AcpError.misconfigured s) le =
      api_err-IsWire api 502 "acp_verifier_error" (omega arith)

  reject_commitment-IsWire :
      (api : ApiVersion) (e : CommitmentError) → IsWire api (reject_commitment {S = S} api e)
  unfolding reject_commitment
  reject_commitment-IsWire api CommitmentError.not_found =
      retryable-IsWire api RetryReason.commitment_pending
  reject_commitment-IsWire api (CommitmentError.timeout s) =
      api_err-IsWire api 504 "commitment_verifier_timeout" (omega arith)
  reject_commitment-IsWire api (CommitmentError.transport s) =
      api_err-IsWire api 502 "commitment_verifier_error" (omega arith)
  reject_commitment-IsWire api (CommitmentError.misconfigured s) =
      api_err-IsWire api 502 "commitment_verifier_error" (omega arith)

  pub reject_ct-IsWire :
      (api : ApiVersion) (e : CtFetchError) → IsWire api (reject_ct {S = S} api e)
  unfolding reject_ct
  reject_ct-IsWire api CtFetchError.not_found = api_err-IsWire api 404 "ct_not_found" (omega arith)
  reject_ct-IsWire api CtFetchError.not_ready = retryable-IsWire api RetryReason.ct_not_ready
  reject_ct-IsWire api CtFetchError.timeout =
      api_err-IsWire api 504 "ct_source_timeout" (omega arith)
  reject_ct-IsWire api (CtFetchError.transport s) =
      api_err-IsWire api 502 "ct_source_error" (omega arith)
  reject_ct-IsWire api (CtFetchError.unexpected_status s) =
      api_err-IsWire api 502 "ct_source_error" (omega arith)
  reject_ct-IsWire api (CtFetchError.bad_response s) =
      api_err-IsWire api 502 "ct_source_error" (omega arith)

module _ (S : Type 0) (api : ApiVersion) where
  abbrev pub IsRefusal : Option (Response S) → Type 0
  IsRefusal none = Unit {0}
  IsRefusal (some resp) = IsWire api resp

  pub acp_verdict-IsWire :
      (status : ℕ) (code : String) (r : Result AcpError (Unit {0}))
      → 400 ≤ status
      → IsRefusal (acp_verdict api status code r)
  unfolding acp_verdict
  acp_verdict-IsWire status code (ok u) le = tt
  acp_verdict-IsWire status code (err e) le = reject_acp-IsWire S api status code e le

  pub join_gates-Refuses :
      (o : Option (Response S)) (r : Result (Response S) (Option FetchedCommitment))
      → IsRefusal o
      → Refuses api r
      → Refuses api (join_gates o r)
  unfolding join_gates
  join_gates-Refuses none r h k = k
  join_gates-Refuses (some resp) r h k = h

  pub commitment_verdict-Refuses :
      (cfg : CommitmentConfig) (r : Result CommitmentError FetchedCommitment)
      → Refuses {S = S} api (commitment_verdict cfg api r)
  unfolding commitment_verdict
  commitment_verdict-Refuses cfg (ok f) = tt
  commitment_verdict-Refuses cfg (err e) =
      if-Refuses api cfg.warn_only (ok none) (err (reject_commitment api e)) tt
        (reject_commitment-IsWire S api e)

  pub compare-Refuses :
      (warn_only : Bool) (actual expected : ℕ)
      → Refuses {S = S} api (compare warn_only api actual expected)
  unfolding compare
  compare-Refuses warn_only actual expected =
      if-Refuses api (actual == expected || warn_only) (ok tt)
        (err (api_err api 502 "commitment_mismatch")) tt
        (api_err-IsWire S api 502 "commitment_mismatch" (omega arith))

  pub rejudge-Refuses :
      (warn_only : Bool) (actual cached : ℕ) (r : Result CommitmentError ℕ)
      → Refuses {S = S} api (rejudge warn_only api actual cached r)
  unfolding rejudge
  rejudge-Refuses w actual cached (ok fresh) = compare-Refuses w actual fresh
  rejudge-Refuses w actual cached (err CommitmentError.not_found) =
      if-Refuses api w (ok tt) (err (retryable api RetryReason.commitment_pending)) tt
        (retryable-IsWire S api RetryReason.commitment_pending)
  rejudge-Refuses w actual cached (err (CommitmentError.timeout s)) =
      compare-Refuses w actual cached
  rejudge-Refuses w actual cached (err (CommitmentError.transport s)) =
      compare-Refuses w actual cached
  rejudge-Refuses w actual cached (err (CommitmentError.misconfigured s)) =
      compare-Refuses w actual cached

  pub check_envelope-Refuses : (ct : FheCiphertext) → Refuses {S = S} api (check_envelope api ct)
  unfolding check_envelope
  check_envelope-Refuses ct =
      if-Refuses api (not (eq_ℤ ct.security_zone (pos 0)))
        (err (api_err api 422 "unsupported_security_zone"))
        (if ct.compact || not ct.gzipped then err (api_err api 502 "ct_source_error") else ok tt)
        (api_err-IsWire S api 422 "unsupported_security_zone" (omega arith))
        (if-Refuses api (ct.compact || not ct.gzipped) (err (api_err api 502 "ct_source_error"))
          (ok tt) (api_err-IsWire S api 502 "ct_source_error" (omega arith)) tt)

  pub check_metadata-Refuses :
      (bytes : Bytes) (ct : FheCiphertext) → Refuses {S = S} api (check_metadata api bytes ct)
  unfolding check_metadata
  check_metadata-Refuses bytes ct =
      let zone = eq_ℤ (pos (handle_zone bytes)) ct.security_zone in
      if-Refuses api (not (eq_ℤ (pos (handle_type bytes)) ct.encryption_type))
        (err (api_err api 502 "ct_type_mismatch"))
        (if not zone then err (api_err api 502 "ct_zone_mismatch") else ok tt)
        (api_err-IsWire S api 502 "ct_type_mismatch" (omega arith))
        (if-Refuses api (not zone) (err (api_err api 502 "ct_zone_mismatch")) (ok tt)
          (api_err-IsWire S api 502 "ct_zone_mismatch" (omega arith)) tt)

  pub check_type-Refuses : (code : ℤ) → Refuses {S = S} api (check_type api code)
  unfolding check_type
  check_type-Refuses code =
      elim (from_i32 code)
        as (λ r.
          Refuses {S = S} api
            (elim r [ ok ty ↦ ok ty | err e ↦ err (api_err api 422 "unsupported_type") ])) [
              | ok ty ↦ tt
              | err e ↦ api_err-IsWire S api 422 "unsupported_type" (omega arith)
            ]

  pub check_zone-Refuses :
      {ClientKey : Type 0} (o : Option ClientKey) → Refuses {S = S} api (check_zone api o)
  unfolding check_zone
  check_zone-Refuses none = api_err-IsWire S api 422 "unsupported_security_zone" (omega arith)
  check_zone-Refuses (some ck) = tt

  pub finish-Refuses :
      (ty : EncryptionType) (fault : Option String) (r : Result DecryptError ℕ)
      → Refuses {S = S} api (finish api ty fault r)
  unfolding finish
  finish-Refuses ty (some fault) r = api_err-IsWire S api 500 "internal_error" (omega arith)
  finish-Refuses ty none (ok pt) = tt
  finish-Refuses ty none (err e) = api_err-IsWire S api 502 "ct_source_error" (omega arith)
