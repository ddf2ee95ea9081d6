-- ===== src/Http/Handlers.antt =====
-- src/http.rs: the handlers of `/decrypt` and `/sealoutput` of both generations.
use teecryptor.Prelude.{
  ℕ, Option, none, some, [], ◌∷◌, Result, ok, err, ◌>>=◌, ok_or, map_err, ℤ, ◌==◌, if◌then◌else◌,
  Bytes,
}
use teecryptor.Handle.{Handle, parse}
use teecryptor.Decrypt.{EncryptionType, to_i32, encode}
use teecryptor.Permit.Acp.{AcpData}
use teecryptor.Seal.{
  SealedOutput, SealError, bad_key_length, degenerate_key, encrypt_failed, DryocBox, seal_to_user,
}
use teecryptor.Signing.{
  SigningService, SignatureVFormat, parse_v_format, sign_decrypt, sign_sealoutput,
}
use teecryptor.Http.Response.{ApiVersion, v1, Response, api_err, reject, ok_json, resolve_signature}
use teecryptor.Http.Bodies.{Request, DecryptResponse, SealOutputResponse}
use teecryptor.Http.Fetch.{Deps, AppState, World, bind, fetch_decrypt}

unfoldable pub parse_handle :
    {Ct C S : Type 0} → Deps Ct C → ApiVersion → Bytes → Result (Response S) Handle
parse_handle dep api raw = ok_or (api_err api 400 "bad_request") (parse dep.big raw)

-- `trim_start_matches("0x")`
abbrev pub trim_0x : Bytes → Bytes
trim_0x [] = []
trim_0x (b ∷ []) = b ∷ []
trim_0x (a ∷ b ∷ s) =
    let rest = trim_0x s in if a == b'0' then (if b == b'x' then rest else a ∷ b ∷ s) else a ∷ b ∷ s

-- What an error of the sealing answers.
unfoldable pub reject_seal : {S : Type 0} → ApiVersion → SealError → Response S
reject_seal api (bad_key_length n) = api_err api 400 "acp_malformed"
reject_seal api degenerate_key = api_err api 400 "acp_malformed"
reject_seal api (encrypt_failed e) = api_err api 500 "seal_failed"

-- The parts of a result that the response is built of.
pub record Decrypted : Type 0 where
  pub decrypted : Bytes
  pub signature : Bytes
  pub encryption_type : ℤ

pub record Sealed : Type 0 where
  pub sealed : SealedOutput
  pub signature : Bytes
  pub encryption_type : ℤ

module _ {Ct C Sig RecoveryId : Type 0} (dep : Deps Ct C)
    (signer : Option (SigningService Sig RecoveryId)) {S : Type 0} (api : ApiVersion) where
  -- the value of `to_big_endian` and its signature
  unfoldable pub sign_plaintext :
      Handle
      → (host_chain_id : ℕ) → SignatureVFormat
      → ℕ × EncryptionType
      → Result (Response S) Decrypted
  sign_plaintext handle chain v_format (pt, ty) =
      resolve_signature api (elim signer [
        | none ↦ none
        | some svc ↦
            some (sign_decrypt dep.hex svc dep.big pt (to_i32 ty) chain handle.hex v_format)
      ])
      >>= λ sig. ok (record {
        decrypted = dep.big.to_be_bytes pt;
        signature = sig;
        encryption_type = to_i32 ty;
      })

  unfoldable pub sign_sealed :
      Handle
      → (host_chain_id : ℕ) → SignatureVFormat
      → EncryptionType
      → SealedOutput
      → Result (Response S) Sealed
  sign_sealed handle chain v_format ty out =
      resolve_signature api (elim signer [
        | none ↦ none
        | some svc ↦ some (
            sign_sealoutput dep.hex svc out.bytes out.public_key out.nonce (to_i32 ty) chain
              handle.hex v_format)
      ])
      >>= λ sig. ok (record { sealed = out; signature = sig; encryption_type = to_i32 ty })

  -- from the plaintext to the sealed and signed output
  unfoldable pub seal_plaintext :
      DryocBox
      → AcpData
      → Handle
      → (host_chain_id : ℕ) → SignatureVFormat
      → ℕ × EncryptionType
      → Result (Response S) Sealed
  seal_plaintext dryoc acp handle chain v_format (pt, ty) =
      map_err (λ e. api_err api 400 "acp_malformed") (dep.hex.decode (trim_0x acp.sealing_key))
      >>= λ recipient_pk.
          map_err (reject_seal api) (seal_to_user dryoc recipient_pk (encode dep.big ty pt))
          >>= λ out. sign_sealed handle chain v_format ty out

-- the ACP that `/sealoutput` requires
unfoldable pub require_acp :
    {S : Type 0} → ApiVersion → Option AcpData → Result (Response S) AcpData
require_acp api acp = ok_or (api_err api 400 "acp_required") acp

module _ {Ct C ClientKey Sig RecoveryId : Type 0} (dep : Deps Ct C) (state : AppState ClientKey)
    (signer : Option (SigningService Sig RecoveryId)) (w : World) {S : Type 0}
    (api : ApiVersion) where
  -- What `handle_decrypt` and `handle_decrypt_v2_submit` do up to their responses; a body that axum
  -- refused is the status of the rejection, and the header is that of the signature format.
  unfoldable pub run_decrypt :
      Result ℕ Request → (v_header : Option Bytes) → C → Result (Response S) Decrypted × C
  run_decrypt (err status) v_header cache = (err (reject api status), cache)
  run_decrypt (ok req) v_header cache =
      bind (parse_handle dep api req.ct_tempkey, cache)
        (λ handle cache₁.
          bind (fetch_decrypt dep state w api handle req.host_chain_id req.acp cache₁)
            (λ out cache₂. (
              sign_plaintext dep signer api handle req.host_chain_id (parse_v_format v_header) out,
              cache₂,
            )))

  -- What `handle_sealoutput` and `handle_sealoutput_v2_submit` do up to their responses.
  unfoldable pub run_sealoutput :
      DryocBox → Result ℕ Request → (v_header : Option Bytes) → C → Result (Response S) Sealed × C
  run_sealoutput dryoc (err status) v_header cache = (err (reject api status), cache)
  run_sealoutput dryoc (ok req) v_header cache =
      bind (parse_handle dep api req.ct_tempkey, cache)
        (λ handle cache₁.
          bind (require_acp api req.acp, cache₁)
            (λ acp cache₂.
              bind (fetch_decrypt dep state w api handle req.host_chain_id (some acp) cache₂)
                (λ out cache₃. (
                  seal_plaintext dep signer api dryoc acp handle req.host_chain_id
                      (parse_v_format v_header) out,
                  cache₃,
                ))))

-- `Err(resp) => return resp`, else the response of a success
abbrev pub respond : {A S : Type 0} → (A → S) → Result (Response S) A → Response S
respond f (ok a) = ok_json (f a)
respond f (err resp) = resp

module _ {Ct C ClientKey Sig RecoveryId : Type 0} (dep : Deps Ct C) (state : AppState ClientKey)
    (signer : Option (SigningService Sig RecoveryId)) (w : World) where
  unfoldable pub handle_decrypt :
      Result ℕ Request → (v_header : Option Bytes) → C → Response DecryptResponse × C
  handle_decrypt body v_header cache =
      let (r, cache') = run_decrypt dep state signer w v1 body v_header cache in
      (
        respond
            (λ d. record {
              decrypted = d.decrypted;
              signature = d.signature;
              encryption_type = d.encryption_type;
              error_message = none;
            })
            r,
        cache',
      )

  unfoldable pub handle_sealoutput :
      DryocBox → Result ℕ Request → (v_header : Option Bytes) → C → Response SealOutputResponse × C
  handle_sealoutput dryoc body v_header cache =
      let (r, cache') = run_sealoutput dep state signer w v1 dryoc body v_header cache in
      (
        respond
            (λ s. record {
              sealed = some (record {
                bytes = s.sealed.bytes;
                public_key = s.sealed.public_key;
                nonce = s.sealed.nonce;
              });
              signature = s.signature;
              encryption_type = s.encryption_type;
              error_message = none;
            })
            r,
        cache',
      )
