-- ===== src/Http/Polls.antt =====
-- src/http.rs: the second generation's submit and status routes over their poll caches, and the
-- routes of the signer's address and of the health.
pub mod Laws
use teecryptor.Prelude.{
  ℕ, Bool, true, false, Option, none, some, [], ◌∷◌, ◌++◌, replicate, String, Result, ok, err, ℤ,
  Bytes, lower_0x, if◌then◌else◌,
}
use teecryptor.External.Lru.{Lru}
use teecryptor.Seal.{SealedOutput, DryocBox}
use teecryptor.Signing.{SigningService}
use teecryptor.Http.Response.{ApiVersion, v2, Response, ok_json, not_found}
use teecryptor.Http.Bodies.{
  Request, UserSealedResponse, V2CachedResult, V2SealCachedResult, completed,
  V2DecryptSubmitResponse, V2DecryptStatusResponse, V2SealOutputSubmitResponse,
  V2SealOutputStatusResponse,
}
use teecryptor.Http.Fetch.{Deps, AppState, World}
use teecryptor.Http.Handlers.{Decrypted, Sealed, run_decrypt, run_sealoutput}

-- what `handle_decrypt_v2_submit` puts under the id of the request
abbrev pub cached_result : (now : Bytes) → Decrypted → V2CachedResult
cached_result now d = record {
  decrypted = d.decrypted;
  signature = d.signature;
  encryption_type = d.encryption_type;
  submitted_at = now;
  completed_at = now;
}

abbrev pub cached_seal : (now : Bytes) → Sealed → V2SealCachedResult
cached_seal now s = record {
  sealed_data = s.sealed.bytes;
  ephemeral_public_key = s.sealed.public_key;
  nonce = s.sealed.nonce;
  signature = s.signature;
  encryption_type = s.encryption_type;
  submitted_at = now;
  completed_at = now;
}

abbrev pub submit_body : (request_id : Bytes) → Decrypted → V2DecryptSubmitResponse
submit_body request_id d = record {
  request_id = request_id;
  decrypted = some d.decrypted;
  signature = some d.signature;
  encryption_type = some d.encryption_type;
}

abbrev pub seal_submit_body : (request_id : Bytes) → Sealed → V2SealOutputSubmitResponse
seal_submit_body request_id s = record {
  request_id = request_id;
  sealed_data = some s.sealed.bytes;
  ephemeral_public_key = some s.sealed.public_key;
  nonce = some s.sealed.nonce;
  signature = some s.signature;
  encryption_type = some s.encryption_type;
}

abbrev pub status_body : (request_id : Bytes) → V2CachedResult → V2DecryptStatusResponse
status_body request_id r = record {
  request_id = request_id;
  status = completed;
  submitted_at = r.submitted_at;
  completed_at = some r.completed_at;
  is_succeed = some true;
  decrypted = some r.decrypted;
  signature = some r.signature;
  encryption_type = some r.encryption_type;
  error_message = none;
}

abbrev pub seal_status_body : (request_id : Bytes) → V2SealCachedResult → V2SealOutputStatusResponse
seal_status_body request_id r = record {
  request_id = request_id;
  status = completed;
  submitted_at = r.submitted_at;
  completed_at = some r.completed_at;
  is_succeed = some true;
  sealed =
      some (record { bytes = r.sealed_data; public_key = r.ephemeral_public_key; nonce = r.nonce });
  signature = some r.signature;
  encryption_type = some r.encryption_type;
  error_message = none;
}

module _ {P : Type 0} (polls : Lru Bytes V2CachedResult P) where
  -- the result is cached, then answered; a refusal caches nothing
  unfoldable pub answer_decrypt :
      (request_id now : Bytes)
      → Result (Response V2DecryptSubmitResponse) Decrypted
      → P
      → Response V2DecryptSubmitResponse × P
  answer_decrypt request_id now (err resp) results = (resp, results)
  answer_decrypt request_id now (ok d) results =
      (ok_json (submit_body request_id d), polls.put request_id (cached_result now d) results)

  -- A locked mutex is not poisoned, so the lookup is that of the cache.
  unfoldable pub handle_decrypt_v2_status :
      (request_id : Bytes) → P → Response V2DecryptStatusResponse × P
  handle_decrypt_v2_status request_id results =
      let (found, results') = polls.get request_id results in
      (elim found [ none ↦ not_found | some r ↦ ok_json (status_body request_id r) ], results')

  module _ {Ct C ClientKey Sig RecoveryId : Type 0} (dep : Deps Ct C) (state : AppState ClientKey)
      (signer : Option (SigningService Sig RecoveryId)) (w : World) where
    -- `request_id` is the fresh UUID, `now` the time of the request.
    unfoldable pub handle_decrypt_v2_submit :
        (request_id now : Bytes)
        → Result ℕ Request
        → (v_header : Option Bytes) → C
        → P
        → Response V2DecryptSubmitResponse × C × P
    handle_decrypt_v2_submit request_id now body v_header cache results =
        let (r, cache') = run_decrypt dep state signer w v2 body v_header cache in
        let (resp, results') = answer_decrypt request_id now r results in (resp, cache', results')

module _ {P : Type 0} (polls : Lru Bytes V2SealCachedResult P) where
  unfoldable pub answer_seal :
      (request_id now : Bytes)
      → Result (Response V2SealOutputSubmitResponse) Sealed
      → P
      → Response V2SealOutputSubmitResponse × P
  answer_seal request_id now (err resp) results = (resp, results)
  answer_seal request_id now (ok s) results =
      (ok_json (seal_submit_body request_id s), polls.put request_id (cached_seal now s) results)

  unfoldable pub handle_sealoutput_v2_status :
      (request_id : Bytes) → P → Response V2SealOutputStatusResponse × P
  handle_sealoutput_v2_status request_id results =
      let (found, results') = polls.get request_id results in
      (elim found [ none ↦ not_found | some r ↦ ok_json (seal_status_body request_id r) ], results')

  module _ {Ct C ClientKey Sig RecoveryId : Type 0} (dep : Deps Ct C) (state : AppState ClientKey)
      (signer : Option (SigningService Sig RecoveryId)) (w : World) where
    unfoldable pub handle_sealoutput_v2_submit :
        DryocBox
        → (request_id now : Bytes) → Result ℕ Request
        → (v_header : Option Bytes) → C
        → P
        → Response V2SealOutputSubmitResponse × C × P
    handle_sealoutput_v2_submit dryoc request_id now body v_header cache results =
        let (r, cache') = run_sealoutput dep state signer w v2 dryoc body v_header cache in
        let (resp, results') = answer_seal request_id now r results in (resp, cache', results')

-- "0x" and forty zeros without a signer
unfoldable pub handle_signer_address :
    {Sig RecoveryId : Type 0} → Option (SigningService Sig RecoveryId) → Bytes
handle_signer_address none = lower_0x ++ replicate 40 b'0'
handle_signer_address (some svc) = svc.evm_address
