-- ===== src/Http/Agree.antt =====
-- The two generations of the API take the same decisions; only the encoding of a refusal differs.
use teecryptor.Prelude.{
  ℕ, ◌≡◌, refl, ap, ◌∙◌, false, not, ◌&&◌, Option, none, some, err, ◌==◌, Bytes, Bool-cases,
  Result-cases, inl, inr,
}
use teecryptor.Handle.{Handle}
use teecryptor.Decrypt.{EncryptionType}
use teecryptor.DirectDecrypt.Mirror.{DirectDecryptKey}
use teecryptor.Keys.{client_key, direct_key}
use teecryptor.Permit.Acp.{AcpData}
use teecryptor.Permit.Verify.{Chains}
use teecryptor.Commitment.Cache.{
  FetchedCommitment, CommitmentConfig, fetch_commitment, refresh_commitment,
}
use teecryptor.CtSource.{FheCiphertext, fetch}
use teecryptor.Http.Response.{v1, v2, api_err, retryable, retryable_204}
use teecryptor.Http.Gates.{enforce_acp, enforce_commitment, enforce_commitment_integrity}
use teecryptor.Http.Fetch.{
  Deps, AppState, World, join_gates, acp_gate, commitment_gate, gates, fetch_row, check_envelope,
  check_type, check_metadata, check_zone, check_integrity, decrypt_checked, decrypt_with,
  decrypt_row, fetch_committed, fetch_decrypt,
}
use teecryptor.Http.Decision.{
  decision, decisions, labels, >>=-decision, bind-decisions, join_gates-decision,
  acp_verdict-labels, commitment_verdict-decision, compare-decision, rejudge-decision,
  check_envelope-decision, check_metadata-decision, check_zone-decision, check_type-decision,
  reject_ct-outcome, finish-decision,
}

module _ {Ct C : Type 0} (dep : Deps Ct C) (w : World) (S : Type 0) where
  acp_gate-labels :
      (verifier : Option Chains) (handle : Handle) (chain : ℕ) (acp : Option AcpData)
      → labels (acp_gate dep w {S = S} v1 verifier handle chain acp)
        ≡ labels (acp_gate dep w {S = S} v2 verifier handle chain acp)
  unfolding acp_gate enforce_acp
  acp_gate-labels none handle chain acp = refl
  acp_gate-labels (some chains) handle chain none = acp_verdict-labels S _ _ _
  acp_gate-labels (some chains) handle chain (some acp) = acp_verdict-labels S _ _ _

  commitment_gate-decisions :
      (verifier : Option CommitmentConfig) (handle : Handle) (chain : ℕ) (cache : C)
      → decisions (commitment_gate dep w {S = S} v1 verifier handle chain cache)
        ≡ decisions (commitment_gate dep w {S = S} v2 verifier handle chain cache)
  unfolding commitment_gate enforce_commitment
  commitment_gate-decisions none handle chain cache = refl
  commitment_gate-decisions (some cfg) handle chain cache =
      ap (λ d. (d, (fetch_commitment dep.lru cfg w.registry handle.u256 chain cache).1))
        (commitment_verdict-decision S cfg
          (fetch_commitment dep.lru cfg w.registry handle.u256 chain cache).0)

  integrity-decisions :
      (verifier : Option CommitmentConfig) (f : FetchedCommitment) (bytes : Bytes)
      (handle chain : ℕ) (cache : C)
      → decisions (
          enforce_commitment_integrity dep.lru {S = S} dep.keccak256 verifier w.reread f bytes
            handle chain v1 cache)
        ≡ decisions (
            enforce_commitment_integrity dep.lru {S = S} dep.keccak256 verifier w.reread f bytes
              handle chain v2 cache)
  unfolding enforce_commitment_integrity
  integrity-decisions none f bytes handle chain cache =
      ap (λ d. (d, cache)) (compare-decision S false (dep.keccak256 bytes) f.hash)
  integrity-decisions (some cfg) f bytes handle chain cache =
      elim (Bool-cases (not (dep.keccak256 bytes == f.hash) && f.from_cache)) [
        | inl again ↦
            let read = refresh_commitment dep.lru cfg w.reread handle chain cache in
            rw (enforce_commitment_integrity, again)
              (ap (λ d. (d, read.1))
                (rejudge-decision S cfg.warn_only (dep.keccak256 bytes) f.hash read.0))
        | inr settled ↦
            rw (enforce_commitment_integrity, settled)
              (ap (λ d. (d, cache)) (compare-decision S cfg.warn_only (dep.keccak256 bytes) f.hash))
      ]

  fetch_row-decision :
      (handle : Handle)
      → decision (fetch_row dep w {S = S} v1 handle) ≡ decision (fetch_row dep w {S = S} v2 handle)
  unfolding fetch_row
  fetch_row-decision handle =
      elim (Result-cases (fetch dep.hex dep.from_slice w.ct_server handle.hex)) [
        | inl got ↦
            rw (got.1, fetch_row)
              (>>=-decision (check_envelope v1 got.0) (check_envelope v2 got.0) _ _
                (check_envelope-decision S got.0) (λ u. refl))
        | inr bad ↦ rw (bad.1, fetch_row) (ap err (reject_ct-outcome S bad.0))
      ]

  decrypt_with-decision :
      (dk : Option DirectDecryptKey) (ty : EncryptionType) (ct : FheCiphertext)
      → decision (decrypt_with dep w {S = S} v1 dk ty ct)
        ≡ decision (decrypt_with dep w {S = S} v2 dk ty ct)
  unfolding decrypt_with api_err
  decrypt_with-decision none ty ct = refl
  decrypt_with-decision (some dk) ty ct =
      finish-decision S ty w.join_error (decrypt_row dep dk ty ct)

module _ {Ct C ClientKey : Type 0} (dep : Deps Ct C) (state : AppState ClientKey) (w : World)
    (S : Type 0) where
  gates-decisions :
      (handle : Handle) (chain : ℕ) (acp : Option AcpData) (cache : C)
      → decisions (gates dep state w {S = S} v1 handle chain acp cache)
        ≡ decisions (gates dep state w {S = S} v2 handle chain acp cache)
  unfolding gates
  gates-decisions handle chain acp cache =
      let both = commitment_gate-decisions dep w S state.commitment_verifier handle chain cache in
      let first =
        join_gates-decision _ _ _ _ (acp_gate-labels dep w S state.acp_verifier handle chain acp)
          (ap (λ p. p.0) both) in
      ap
        (λ d.
          (d, (commitment_gate dep w {S = S} v1 state.commitment_verifier handle chain cache).1))
        first
      ∙ ap
          (λ c. (
            decision (
                join_gates (acp_gate dep w {S = S} v2 state.acp_verifier handle chain acp)
                  (commitment_gate dep w {S = S} v2 state.commitment_verifier handle chain
                    cache).0),
            c,
          ))
          (ap (λ p. p.1) both)

  check_integrity-decisions :
      (expected : Option FetchedCommitment) (ct : FheCiphertext) (handle : Handle) (chain : ℕ)
      (cache : C)
      → decisions (check_integrity dep state w {S = S} v1 expected ct handle chain cache)
        ≡ decisions (check_integrity dep state w {S = S} v2 expected ct handle chain cache)
  unfolding check_integrity
  check_integrity-decisions none ct handle chain cache = refl
  check_integrity-decisions (some f) ct handle chain cache =
      integrity-decisions dep w S state.commitment_verifier f ct.bytes handle.u256 chain cache

  decrypt_checked-decision :
      (handle : Handle) (ct : FheCiphertext)
      → decision (decrypt_checked dep state w {S = S} v1 handle ct)
        ≡ decision (decrypt_checked dep state w {S = S} v2 handle ct)
  unfolding decrypt_checked
  decrypt_checked-decision handle ct =
      >>=-decision (check_zone v1 (client_key state.keys ct.security_zone)) _ _ _
        (check_zone-decision S (client_key state.keys ct.security_zone))
        (λ u.
          >>=-decision (check_type v1 ct.encryption_type) _ _ _
            (check_type-decision S ct.encryption_type)
            (λ ty.
              >>=-decision (check_metadata v1 (dep.big.to_be_bytes handle.u256) ct) _ _ _
                (check_metadata-decision S (dep.big.to_be_bytes handle.u256) ct)
                (λ u'.
                  decrypt_with-decision dep w S (direct_key state.keys ct.security_zone) ty ct)))

  fetch_committed-decisions :
      (handle : Handle) (chain : ℕ) (expected : Option FetchedCommitment) (cache : C)
      → decisions (fetch_committed dep state w {S = S} v1 handle chain expected cache)
        ≡ decisions (fetch_committed dep state w {S = S} v2 handle chain expected cache)
  unfolding fetch_committed
  fetch_committed-decisions handle chain expected cache =
      bind-decisions (fetch_row dep w {S = S} v1 handle, cache) _ _ _
        (ap (λ d. (d, cache)) (fetch_row-decision dep w S handle))
        (λ ct cache₁.
          bind-decisions (check_integrity dep state w {S = S} v1 expected ct handle chain cache₁) _
            _ _ (check_integrity-decisions expected ct handle chain cache₁)
            (λ u cache₂. ap (λ d. (d, cache₂)) (decrypt_checked-decision handle ct)))

  -- The two generations of the API decide alike: on the same request in the same surroundings both
  -- answer the same plaintext and type, or both refuse with the same machine code, and both leave the
  -- same commitment cache.
  pub fetch_decrypt-decisions :
      (handle : Handle) (chain : ℕ) (acp : Option AcpData) (cache : C)
      → decisions (fetch_decrypt dep state w {S = S} v1 handle chain acp cache)
        ≡ decisions (fetch_decrypt dep state w {S = S} v2 handle chain acp cache)
  unfolding fetch_decrypt retryable retryable_204 api_err
  fetch_decrypt-decisions handle chain acp cache = elim (Bool-cases (w.admit_slots == 0)) [
    | inl full ↦ rw full refl
    | inr free ↦ rw free (
        bind-decisions (gates dep state w {S = S} v1 handle chain acp cache) _ _ _
          (gates-decisions handle chain acp cache)
          (λ expected cache'. fetch_committed-decisions handle chain expected cache'))
  ]
