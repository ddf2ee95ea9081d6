-- ===== src/Http/Polls/Laws.antt =====
-- A poll answers what its submission answered, and nothing is cached for a refusal.
use teecryptor.Prelude.{
  ℕ, ◌≡◌, refl, ◌∙◌, ◌⊎◌, inl, inr, Option, some, none, true, Result, ok, err, Bytes,
}
use teecryptor.External.Lru.{Lru}
use teecryptor.Seal.{DryocBox}
use teecryptor.Signing.{SigningService}
use teecryptor.Http.Response.{v2, Response, ok_json}
use teecryptor.Http.Bodies.{
  Request, V2CachedResult, V2SealCachedResult, V2DecryptSubmitResponse, V2SealOutputSubmitResponse,
  completed,
}
use teecryptor.Http.Fetch.{Deps, AppState, World}
use teecryptor.Http.Handlers.{Decrypted, Sealed, run_decrypt, run_sealoutput}
use teecryptor.Http.Polls.{
  cached_result, cached_seal, submit_body, seal_submit_body, status_body, seal_status_body,
  answer_decrypt, answer_seal, handle_decrypt_v2_submit, handle_decrypt_v2_status,
  handle_sealoutput_v2_submit, handle_sealoutput_v2_status,
}

module _ {P : Type 0} (polls : Lru Bytes V2CachedResult P) where
  status-hit :
      (request_id : Bytes) (r : V2CachedResult) (results : P)
      → polls.peek request_id results ≡ some r
      → (handle_decrypt_v2_status polls request_id results).0 ≡ ok_json (status_body request_id r)
  unfolding handle_decrypt_v2_status
  status-hit request_id r results at_ =
      let found : (polls.get request_id results).0 ≡ some r =
        polls.get_lem request_id results ∙ at_ in
      rw found

  module _ {Ct C ClientKey Sig RecoveryId : Type 0} (dep : Deps Ct C) (state : AppState ClientKey)
      (signer : Option (SigningService Sig RecoveryId)) (w : World) where
    -- A decryption that succeeds is answered at once with its bytes, signature and type, and a poll of
    -- its id in the cache that it leaves answers the same three, as completed at the time of the
    -- request; a refusal is answered and leaves the cache of the polls as it was.
    pub handle_decrypt_v2_submit-status :
        (request_id now : Bytes) (body : Result ℕ Request) (v_header : Option Bytes) (cache : C)
        (results : P)
        → (let (resp, cache', results') =
              handle_decrypt_v2_submit polls dep state signer w request_id now body v_header cache
                results in
            ((d : Decrypted) × ((run_decrypt dep state signer w {S = V2DecryptSubmitResponse} v2
                  body v_header cache).0
                ≡ ok d)
              × (resp
                  ≡ ok_json (record {
                    request_id = request_id;
                    decrypted = some d.decrypted;
                    signature = some d.signature;
                    encryption_type = some d.encryption_type;
                  }))
              × ((handle_decrypt_v2_status polls request_id results').0
                  ≡ ok_json (record {
                    request_id = request_id;
                    status = completed;
                    submitted_at = now;
                    completed_at = some now;
                    is_succeed = some true;
                    decrypted = some d.decrypted;
                    signature = some d.signature;
                    encryption_type = some d.encryption_type;
                    error_message = none;
                  })))
            ⊎ (((run_decrypt dep state signer w {S = V2DecryptSubmitResponse} v2 body v_header
                    cache).0
                  ≡ err resp)
                × (results' ≡ results)))
    unfolding handle_decrypt_v2_submit answer_decrypt
    handle_decrypt_v2_submit-status request_id now body v_header cache results =
        go (run_decrypt dep state signer w v2 body v_header cache).0
      where
        go :
            (r : Result (Response V2DecryptSubmitResponse) Decrypted)
            → ((d : Decrypted) × (r ≡ ok d)
                × ((answer_decrypt polls request_id now r results).0
                    ≡ ok_json (submit_body request_id d))
                × ((handle_decrypt_v2_status polls request_id
                      (answer_decrypt polls request_id now r results).1).0
                    ≡ ok_json (status_body request_id (cached_result now d))))
              ⊎ ((r ≡ err (answer_decrypt polls request_id now r results).0)
                  × ((answer_decrypt polls request_id now r results).1 ≡ results))
        go (err resp) = inr (refl, refl)
        go (ok d) = inl (
          d,
          refl,
          refl,
          status-hit request_id (cached_result now d)
              (polls.put request_id (cached_result now d) results)
              (polls.peek-put_self request_id (cached_result now d) results),
        )

module _ {P : Type 0} (polls : Lru Bytes V2SealCachedResult P) where
  seal-status-hit :
      (request_id : Bytes) (r : V2SealCachedResult) (results : P)
      → polls.peek request_id results ≡ some r
      → (handle_sealoutput_v2_status polls request_id results).0
        ≡ ok_json (seal_status_body request_id r)
  unfolding handle_sealoutput_v2_status
  seal-status-hit request_id r results at_ =
      let found : (polls.get request_id results).0 ≡ some r =
        polls.get_lem request_id results ∙ at_ in
      rw found

  module _ {Ct C ClientKey Sig RecoveryId : Type 0} (dep : Deps Ct C) (state : AppState ClientKey)
      (signer : Option (SigningService Sig RecoveryId)) (w : World) where
    -- A sealing that succeeds is answered at once with its sealed bytes, key, nonce, signature and type,
    -- and a poll of its id in the cache that it leaves answers the same five, as completed at the time
    -- of the request; a refusal is answered and leaves the cache of the polls as it was.
    pub handle_sealoutput_v2_submit-status :
        (dryoc : DryocBox) (request_id now : Bytes) (body : Result ℕ Request)
        (v_header : Option Bytes) (cache : C) (results : P)
        → (let (resp, cache', results') =
              handle_sealoutput_v2_submit polls dep state signer w dryoc request_id now body
                v_header cache results in
            ((s : Sealed) × ((run_sealoutput dep state signer w {S = V2SealOutputSubmitResponse} v2
                  dryoc body v_header cache).0
                ≡ ok s)
              × (resp
                  ≡ ok_json (record {
                    request_id = request_id;
                    sealed_data = some s.sealed.bytes;
                    ephemeral_public_key = some s.sealed.public_key;
                    nonce = some s.sealed.nonce;
                    signature = some s.signature;
                    encryption_type = some s.encryption_type;
                  }))
              × ((handle_sealoutput_v2_status polls request_id results').0
                  ≡ ok_json (record {
                    request_id = request_id;
                    status = completed;
                    submitted_at = now;
                    completed_at = some now;
                    is_succeed = some true;
                    sealed = some (record {
                      bytes = s.sealed.bytes;
                      public_key = s.sealed.public_key;
                      nonce = s.sealed.nonce;
                    });
                    signature = some s.signature;
                    encryption_type = some s.encryption_type;
                    error_message = none;
                  })))
            ⊎ (((run_sealoutput dep state signer w {S = V2SealOutputSubmitResponse} v2 dryoc body
                    v_header cache).0
                  ≡ err resp)
                × (results' ≡ results)))
    unfolding handle_sealoutput_v2_submit answer_seal
    handle_sealoutput_v2_submit-status dryoc request_id now body v_header cache results =
        go (run_sealoutput dep state signer w v2 dryoc body v_header cache).0
      where
        go :
            (r : Result (Response V2SealOutputSubmitResponse) Sealed)
            → ((s : Sealed) × (r ≡ ok s)
                × ((answer_seal polls request_id now r results).0
                    ≡ ok_json (seal_submit_body request_id s))
                × ((handle_sealoutput_v2_status polls request_id
                      (answer_seal polls request_id now r results).1).0
                    ≡ ok_json (seal_status_body request_id (cached_seal now s))))
              ⊎ ((r ≡ err (answer_seal polls request_id now r results).0)
                  × ((answer_seal polls request_id now r results).1 ≡ results))
        go (err resp) = inr (refl, refl)
        go (ok s) = inl (
          s,
          refl,
          refl,
          seal-status-hit request_id (cached_seal now s)
              (polls.put request_id (cached_seal now s) results)
              (polls.peek-put_self request_id (cached_seal now s) results),
        )
