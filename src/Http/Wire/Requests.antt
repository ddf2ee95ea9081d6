-- ===== src/Http/Wire/Requests.antt =====
-- Every refusal of a request has the wire form of the generation that it arrived on.
use teecryptor.Prelude.{
  ℕ, true, false, not, ◌&&◌, Option, none, some, arith, Result, ok, err, ◌>>=◌, ◌==◌, if◌then◌else◌,
  Bytes,
}
use teecryptor.Handle.{Handle}
use teecryptor.Decrypt.{EncryptionType}
use teecryptor.Keys.{client_key, direct_key}
use teecryptor.DirectDecrypt.Mirror.{DirectDecryptKey}
use teecryptor.Permit.Acp.{AcpData}
use teecryptor.Permit.Verify.{Chains, verify_via_taskmanager, verify_publicly_allowed}
use teecryptor.Commitment.Cache.{
  FetchedCommitment, CommitmentConfig, refresh_commitment, fetch_commitment,
}
use teecryptor.CtSource.{FheCiphertext, fetch}
use teecryptor.Http.Response.{ApiVersion, RetryReason, Response, retryable}
use teecryptor.Http.Gates.{
  enforce_acp, compare, rejudge, enforce_commitment, enforce_commitment_integrity,
}
use teecryptor.Http.Fetch.{
  Deps, AppState, World, bind, reject_ct, check_envelope, check_type, check_metadata, check_zone,
  decrypt_row, decrypt_with, acp_gate, commitment_gate, gates, fetch_row, check_integrity,
  decrypt_checked, fetch_committed, fetch_decrypt,
}
use teecryptor.Http.Wire.{
  Refuses, IsRefusal, api_err-IsWire, retryable-IsWire, reject_ct-IsWire, bind-Refuses, >>=-Refuses,
  acp_verdict-IsWire, join_gates-Refuses, commitment_verdict-Refuses, compare-Refuses,
  rejudge-Refuses, check_envelope-Refuses, check_metadata-Refuses, check_type-Refuses,
  check_zone-Refuses, finish-Refuses,
}

module _ {Ct C : Type 0} (dep : Deps Ct C) (w : World) (S : Type 0) (api : ApiVersion) where
  acp_gate-IsRefusal :
      (o : Option Chains) (handle : Handle) (chain : ℕ) (acp : Option AcpData)
      → IsRefusal S api (acp_gate dep w {S = S} api o handle chain acp)
  unfolding acp_gate enforce_acp
  acp_gate-IsRefusal none handle chain acp = tt
  acp_gate-IsRefusal (some chains) handle chain (some acp) =
      acp_verdict-IsWire S api 401 "acp_denied"
        (verify_via_taskmanager dep.hex dep.parse_address w.task_manager chains acp handle.u256
          chain)
        (omega arith)
  acp_gate-IsRefusal (some chains) handle chain none =
      acp_verdict-IsWire S api 403 "not_publicly_allowed"
        (verify_publicly_allowed w.task_manager chains handle.u256 chain) (omega arith)

  commitment_gate-Refuses :
      (o : Option CommitmentConfig) (handle : Handle) (chain : ℕ) (cache : C)
      → Refuses api (commitment_gate dep w {S = S} api o handle chain cache).0
  unfolding commitment_gate enforce_commitment
  commitment_gate-Refuses none handle chain cache = tt
  commitment_gate-Refuses (some cfg) handle chain cache =
      commitment_verdict-Refuses S api cfg
        (fetch_commitment dep.lru cfg w.registry handle.u256 chain cache).0

  fetch_row-Refuses : (handle : Handle) → Refuses api (fetch_row dep w {S = S} api handle)
  unfolding fetch_row
  fetch_row-Refuses handle =
      elim (fetch dep.hex dep.from_slice w.ct_server handle.hex)
        as (λ r. Refuses {S = S} api (elim r [
          | ok ct ↦ check_envelope api ct >>= λ _. ok ct
          | err e ↦ err (reject_ct api e)
        ])) [
          | ok ct ↦
              >>=-Refuses api (check_envelope api ct) (λ _. ok ct) (check_envelope-Refuses S api ct)
                (λ u. tt)
          | err e ↦ reject_ct-IsWire S api e
        ]

  decrypt_with-Refuses :
      (o : Option DirectDecryptKey) (ty : EncryptionType) (ct : FheCiphertext)
      → Refuses api (decrypt_with dep w {S = S} api o ty ct)
  unfolding decrypt_with
  decrypt_with-Refuses none ty ct = api_err-IsWire S api 500 "internal_error" (omega arith)
  decrypt_with-Refuses (some dk) ty ct =
      finish-Refuses S api ty w.join_error (decrypt_row dep dk ty ct)

  integrity-Refuses :
      (o : Option CommitmentConfig) (fetched : FetchedCommitment) (bytes : Bytes) (handle chain : ℕ)
      (cache : C)
      → Refuses {S = S} api
          (enforce_commitment_integrity dep.lru dep.keccak256 o w.reread fetched bytes handle chain
            api cache).0
  unfolding enforce_commitment_integrity
  integrity-Refuses none fetched bytes handle chain cache =
      compare-Refuses S api false (dep.keccak256 bytes) fetched.hash
  integrity-Refuses (some cfg) fetched bytes handle chain cache =
      elim (not (dep.keccak256 bytes == fetched.hash) && fetched.from_cache)
        as (λ b.
          Refuses {S = S} api
            (if◌then◌else◌ {A = Result (Response S) (Unit {0}) × C} b
              (let (r, cache') = refresh_commitment dep.lru cfg w.reread handle chain cache in
                (rejudge cfg.warn_only api (dep.keccak256 bytes) fetched.hash r, cache'))
              (compare cfg.warn_only api (dep.keccak256 bytes) fetched.hash, cache)).0) [
                | true ↦
                    rejudge-Refuses S api cfg.warn_only (dep.keccak256 bytes) fetched.hash
                      (refresh_commitment dep.lru cfg w.reread handle chain cache).0
                | false ↦ compare-Refuses S api cfg.warn_only (dep.keccak256 bytes) fetched.hash
              ]

module _ {Ct C ClientKey : Type 0} (dep : Deps Ct C) (state : AppState ClientKey) (w : World)
    (S : Type 0) (api : ApiVersion) where
  check_integrity-Refuses :
      (o : Option FetchedCommitment) (ct : FheCiphertext) (handle : Handle) (chain : ℕ) (cache : C)
      → Refuses api (check_integrity dep state w {S = S} api o ct handle chain cache).0
  unfolding check_integrity
  check_integrity-Refuses none ct handle chain cache = tt
  check_integrity-Refuses (some fetched) ct handle chain cache =
      integrity-Refuses dep w S api state.commitment_verifier fetched ct.bytes handle.u256 chain
        cache

  decrypt_checked-Refuses :
      (handle : Handle) (ct : FheCiphertext)
      → Refuses api (decrypt_checked dep state w {S = S} api handle ct)
  unfolding decrypt_checked
  decrypt_checked-Refuses handle ct =
      >>=-Refuses api (check_zone api (client_key state.keys ct.security_zone)) _
        (check_zone-Refuses S api (client_key state.keys ct.security_zone))
        (λ u.
          >>=-Refuses api (check_type api ct.encryption_type) _
            (check_type-Refuses S api ct.encryption_type)
            (λ ty.
              >>=-Refuses api (check_metadata api (dep.big.to_be_bytes handle.u256) ct) _
                (check_metadata-Refuses S api (dep.big.to_be_bytes handle.u256) ct)
                (λ u.
                  decrypt_with-Refuses dep w S api (direct_key state.keys ct.security_zone) ty ct)))

  -- Whatever stops a request on its way to the plaintext, the response has the wire form of its
  -- generation: for the first a status of at least 400 and the code twice in the body; for the second
  -- either that with the code once, or an empty 204 with the reason to retry.
  pub fetch_decrypt-Refuses :
      (handle : Handle) (chain : ℕ) (acp : Option AcpData) (cache : C)
      → Refuses api (fetch_decrypt dep state w {S = S} api handle chain acp cache).0
  unfolding fetch_decrypt fetch_committed gates
  fetch_decrypt-Refuses handle chain acp cache =
      elim (w.admit_slots == 0)
        as (λ b.
          Refuses {S = S} api
            (if b
              then (err (retryable api RetryReason.overloaded), cache)
              else bind (gates dep state w {S = S} api handle chain acp cache) (λ expected cache'.
                fetch_committed dep state w api handle chain expected cache')).0) [
                  | true ↦ retryable-IsWire S api RetryReason.overloaded
                  | false ↦
                      bind-Refuses api (gates dep state w {S = S} api handle chain acp cache) _
                        (join_gates-Refuses S api
                          (acp_gate dep w api state.acp_verifier handle chain acp)
                          (commitment_gate dep w api state.commitment_verifier handle chain cache).0
                          (acp_gate-IsRefusal dep w S api state.acp_verifier handle chain acp)
                          (commitment_gate-Refuses dep w S api state.commitment_verifier handle
                            chain cache))
                        (λ expected cache'.
                          bind-Refuses api (fetch_row dep w {S = S} api handle, cache') _
                            (fetch_row-Refuses dep w S api handle)
                            (λ ct cache₁.
                              bind-Refuses api
                                (check_integrity dep state w {S = S} api expected ct handle chain
                                  cache₁)
                                _ (check_integrity-Refuses expected ct handle chain cache₁)
                                (λ u cache₂. decrypt_checked-Refuses handle ct)))
                ]
