-- ===== src/Http/AgreeHandlers.antt =====
-- The handlers of the two generations of the API take the same decisions.
use teecryptor.Prelude.{
  ℕ, ◌≡◌, refl, ap, Option, none, some, Result, ok, err, ok_or, map_err, Bytes,
}
use teecryptor.Handle.{Handle, parse}
use teecryptor.Decrypt.{EncryptionType, encode}
use teecryptor.Permit.Acp.{AcpData}
use teecryptor.Seal.{
  SealedOutput, SealError, bad_key_length, degenerate_key, encrypt_failed, DryocBox, seal_to_user,
}
use teecryptor.Signing.{SigningService, SignatureVFormat, parse_v_format}
use teecryptor.Http.Response.{v1, v2, Response, api_err, reject, resolve_signature}
use teecryptor.Http.Bodies.{Request}
use teecryptor.Http.Fetch.{Deps, AppState, World}
use teecryptor.Http.Handlers.{
  parse_handle, trim_0x, reject_seal, sign_plaintext, sign_sealed, seal_plaintext, require_acp,
  run_decrypt, run_sealoutput,
}
use teecryptor.Http.Decision.{decision, decisions, >>=-decision, bind-decisions}
use teecryptor.Http.Agree.{fetch_decrypt-decisions}

module _ {S : Type 0} where
  ok_or-decision :
      {A : Type 0} (x y : Response S) (o : Option A)
      → x.outcome ≡ y.outcome
      → decision (ok_or x o) ≡ decision (ok_or y o)
  ok_or-decision x y none e = ap err e
  ok_or-decision x y (some a) e = refl

  map_err-decision :
      {A E : Type 0} (f g : E → Response S) (r : Result E A)
      → ((e : E) → (f e).outcome ≡ (g e).outcome)
      → decision (map_err f r) ≡ decision (map_err g r)
  map_err-decision f g (ok a) h = refl
  map_err-decision f g (err e) h = ap err (h e)

module _ (S : Type 0) where
  reject_seal-outcome :
      (e : SealError) → (reject_seal {S = S} v1 e).outcome ≡ (reject_seal {S = S} v2 e).outcome
  unfolding reject_seal api_err
  reject_seal-outcome (bad_key_length n) = refl
  reject_seal-outcome degenerate_key = refl
  reject_seal-outcome (encrypt_failed e) = refl

  resolve_signature-decision :
      {E : Type 0} (o : Option (Result E Bytes))
      → decision (resolve_signature {S = S} v1 o) ≡ decision (resolve_signature {S = S} v2 o)
  unfolding resolve_signature api_err
  resolve_signature-decision none = refl
  resolve_signature-decision (some (ok sig)) = refl
  resolve_signature-decision (some (err e)) = refl

module _ {Ct C Sig RecoveryId : Type 0} (dep : Deps Ct C)
    (signer : Option (SigningService Sig RecoveryId)) (S : Type 0) where
  sign_plaintext-decision :
      (handle : Handle) (chain : ℕ) (v_format : SignatureVFormat) (out : ℕ × EncryptionType)
      → decision (sign_plaintext dep signer {S = S} v1 handle chain v_format out)
        ≡ decision (sign_plaintext dep signer {S = S} v2 handle chain v_format out)
  unfolding sign_plaintext
  sign_plaintext-decision handle chain v_format (pt, ty) =
      >>=-decision _ _ _ _ (resolve_signature-decision S _) (λ sig. refl)

  sign_sealed-decision :
      (handle : Handle) (chain : ℕ) (v_format : SignatureVFormat) (ty : EncryptionType)
      (out : SealedOutput)
      → decision (sign_sealed dep signer {S = S} v1 handle chain v_format ty out)
        ≡ decision (sign_sealed dep signer {S = S} v2 handle chain v_format ty out)
  unfolding sign_sealed
  sign_sealed-decision handle chain v_format ty out =
      >>=-decision _ _ _ _ (resolve_signature-decision S _) (λ sig. refl)

  seal_plaintext-decision :
      (dryoc : DryocBox) (acp : AcpData) (handle : Handle) (chain : ℕ) (v_format : SignatureVFormat)
      (out : ℕ × EncryptionType)
      → decision (seal_plaintext dep signer {S = S} v1 dryoc acp handle chain v_format out)
        ≡ decision (seal_plaintext dep signer {S = S} v2 dryoc acp handle chain v_format out)
  unfolding seal_plaintext api_err
  seal_plaintext-decision dryoc acp handle chain v_format (pt, ty) =
      >>=-decision _ _ _ _
        (map_err-decision _ _ (dep.hex.decode (trim_0x acp.sealing_key)) (λ e. refl))
        (λ pk.
          >>=-decision _ _ _ _
            (map_err-decision _ _ (seal_to_user dryoc pk (encode dep.big ty pt))
              (reject_seal-outcome S))
            (λ out. sign_sealed-decision handle chain v_format ty out))

module _ {Ct C ClientKey Sig RecoveryId : Type 0} (dep : Deps Ct C) (state : AppState ClientKey)
    (signer : Option (SigningService Sig RecoveryId)) (w : World) (S : Type 0) where
  -- The two generations of `/decrypt` decide alike: on the same request in the same surroundings both
  -- find the same plaintext, type and signature, or both refuse with the same machine code, and both
  -- leave the same commitment cache.
  pub run_decrypt-decisions :
      (req : Result ℕ Request) (v_header : Option Bytes) (cache : C)
      → decisions (run_decrypt dep state signer w {S = S} v1 req v_header cache)
        ≡ decisions (run_decrypt dep state signer w {S = S} v2 req v_header cache)
  unfolding run_decrypt parse_handle reject api_err
  run_decrypt-decisions (err status) v_header cache = refl
  run_decrypt-decisions (ok req) v_header cache =
      bind-decisions _ _ _ _
        (ap (λ d. (d, cache)) (ok_or-decision _ _ (parse dep.big req.ct_tempkey) refl))
        (λ handle cache₁.
          bind-decisions _ _ _ _
            (fetch_decrypt-decisions dep state w S handle req.host_chain_id req.acp cache₁)
            (λ out cache₂.
              ap (λ d. (d, cache₂))
                (sign_plaintext-decision dep signer S handle req.host_chain_id
                  (parse_v_format v_header) out)))

  -- The two generations of `/sealoutput` decide alike: on the same request in the same surroundings,
  -- with the same key pair and nonce of the sealing, both find the same sealed output and signature,
  -- or both refuse with the same machine code, and both leave the same commitment cache.
  pub run_sealoutput-decisions :
      (dryoc : DryocBox) (req : Result ℕ Request) (v_header : Option Bytes) (cache : C)
      → decisions (run_sealoutput dep state signer w {S = S} v1 dryoc req v_header cache)
        ≡ decisions (run_sealoutput dep state signer w {S = S} v2 dryoc req v_header cache)
  unfolding run_sealoutput parse_handle require_acp reject api_err
  run_sealoutput-decisions dryoc (err status) v_header cache = refl
  run_sealoutput-decisions dryoc (ok req) v_header cache =
      bind-decisions _ _ _ _
        (ap (λ d. (d, cache)) (ok_or-decision _ _ (parse dep.big req.ct_tempkey) refl))
        (λ handle cache₁.
          bind-decisions _ _ _ _ (ap (λ d. (d, cache₁)) (ok_or-decision _ _ req.acp refl))
            (λ acp cache₂.
              bind-decisions _ _ _ _
                (fetch_decrypt-decisions dep state w S handle req.host_chain_id (some acp) cache₂)
                (λ out cache₃.
                  ap (λ d. (d, cache₃))
                    (seal_plaintext-decision dep signer S dryoc acp handle req.host_chain_id
                      (parse_v_format v_header) out))))
