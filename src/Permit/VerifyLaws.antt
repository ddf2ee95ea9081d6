-- ===== src/Permit/VerifyLaws.antt =====
-- A verification succeeds only where the chain is configured, the ACP parses and the contract says
-- yes; the offline check, only where the issuer signed the fields.
use teecryptor.Prelude.{
  ℕ, ◌≤◌, ◌≡◌, refl, ap, ◌∙◌, ◌↔◌, Bool, true, Option, none, some, arith, String, Result, ok, err,
  ◌>>=◌, >>=-eq-ok, err-ne-ok, not_ltb, ok_or-eq-ok, map_err-eq-ok, Bool-cases, inl, inr, ok_or,
  map_err, ltb, ◌==◌, if◌then◌else◌, Bytes,
}
use teecryptor.External.Hex.{Hex}
use teecryptor.External.Rpc.{Reply, returned}
use teecryptor.Permit.Acp.{AcpData, Acp, AcpError, Malformed, try_from}
use teecryptor.Permit.AcpLaws.{IsCarried, try_from-IsCarried}
use teecryptor.Permit.Verify.{
  ChainConfig, Chains, get_chain, ContractError, map_contract_error, TaskManager, judge,
  verify_publicly_allowed, verify_via_taskmanager, Eip712, AcpIssuerSelf, from_acp, acl_domain,
  check_signature, verify_local,
}

module _ (tm : TaskManager) (chains : Chains) (handle id : ℕ) where
  -- A public decrypt is allowed exactly when the chain is configured and its TaskManager, asked
  -- within its timeout, says that the handle is publicly decryptable.
  pub verify_publicly_allowed_iff : (verify_publicly_allowed tm chains handle id ≡ ok tt) ↔ (
      (cfg : ChainConfig) × (get_chain chains id ≡ some cfg)
      × (tm.is_publicly_allowed cfg.rpc_url cfg.task_manager handle ≡ returned true))
  unfolding verify_publicly_allowed judge map_contract_error
  verify_publicly_allowed_iff = (
    (λ e. go (get_chain chains id) refl e),
    λ found. let (cfg, at, yes_) = found in rw (at, yes_),
  )
    where
      go :
          (o : Option ChainConfig)
          → get_chain chains id ≡ o
          → (ok_or (AcpError.unknown_chain id) o >>= λ cfg.
              judge cfg (tm.is_publicly_allowed cfg.rpc_url cfg.task_manager handle))
            ≡ ok tt
          → (cfg : ChainConfig) × (get_chain chains id ≡ some cfg)
            × (tm.is_publicly_allowed cfg.rpc_url cfg.task_manager handle ≡ returned true)
      go none at e = cc
      go (some cfg) at e = (cfg, at, ground arith)

judge-eq-ok :
    (cfg : ChainConfig) (r : Reply ContractError Bool) → judge cfg r ≡ ok tt → r ≡ returned true
unfolding judge map_contract_error
judge-eq-ok cfg r e = ground arith

module _ (hex : Hex) (parse_address : Bytes → Result String ℕ) where
  module _ (tm : TaskManager) (chains : Chains) (acp : AcpData) (handle id : ℕ) where
    -- A presented ACP is accepted exactly when the chain is configured, the ACP parses, and the
    -- chain's TaskManager, asked within its timeout about that ACP and that handle, answers yes.
    pub verify_via_taskmanager_iff :
        (verify_via_taskmanager hex parse_address tm chains acp handle id ≡ ok tt) ↔ (
          (cfg : ChainConfig) × (permission : Acp) × (get_chain chains id ≡ some cfg)
          × (try_from hex parse_address acp ≡ ok permission)
          × (tm.is_allowed_with_permission cfg.rpc_url cfg.task_manager permission handle
              ≡ returned true))
    unfolding verify_via_taskmanager
    verify_via_taskmanager_iff = (
      (λ e.
          let (cfg, at, e₁) =
            >>=-eq-ok (ok_or (AcpError.unknown_chain id) (get_chain chains id)) _ e in
          let (permission, parsed, e₂) = >>=-eq-ok (try_from hex parse_address acp) _ e₁ in
          (
            cfg,
            permission,
            ok_or-eq-ok (AcpError.unknown_chain id) (get_chain chains id) cfg at,
            parsed,
            judge-eq-ok cfg
                (tm.is_allowed_with_permission cfg.rpc_url cfg.task_manager permission handle) e₂,
          )),
      λ found.
          let (cfg, permission, at, parsed, allowed) = found in
          rw (at, parsed, allowed) (unfold judge in refl),
    )

  module _ {Signature : Type 0} (eip : Eip712 Signature) where
    check-issuer :
        (recovered issuer : ℕ)
        → ◌≡◌ {A = Result AcpError (Unit {0})}
            (if recovered == issuer then ok tt else err AcpError.bad_signature)
            (ok tt)
        → recovered ≡ issuer
    check-issuer recovered issuer e = ground arith

    -- The struct with the scalar fields given.
    abbrev signed_with : Acp → (expiration revoker_data scope : ℕ) → AcpIssuerSelf
    signed_with a expiration revoker_data scope = record {
      issuer = a.issuer;
      expiration = expiration;
      recipient = a.recipient;
      revoker_data = revoker_data;
      revoker_contract = a.revoker_contract;
      scope = scope;
      contracts = a.contracts;
      handles = a.handles;
      sealing_key = a.sealing_key;
    }

    carried_scalars :
        (p : AcpData) (a : Acp)
        → IsCarried hex parse_address p a
        → ◌≡◌ {A = ℕ × ℕ × ℕ}
            (p.expiration, p.revoker_data, p.scope)
            (a.expiration, a.revoker_data, a.scope)
    carried_scalars p a c = rw (c.expiration, c.revoker_data, c.scope) refl

    -- The offline check accepts an ACP only if it has not expired, it parses to a permission that
    -- carries what was sent, and the signature that it carries recovers to its issuer over the digest
    -- of all nine signed fields, in the domain of the ACL, version 2, of that chain and contract.
    pub verify_local_sound :
        (acp : AcpData) (chain_id contract now_unix : ℕ)
        → verify_local hex parse_address eip acp chain_id contract now_unix ≡ ok tt
        → (now_unix ≤ acp.expiration)
          × ((permission : Acp) × (sig : Signature) × (try_from hex parse_address acp
                ≡ ok permission)
              × (eip.read_signature permission.issuer_signature ≡ ok sig)
              × (eip.recover sig (
                    eip.signing_hash
                      (record {
                        issuer = permission.issuer;
                        expiration = acp.expiration;
                        recipient = permission.recipient;
                        revoker_data = acp.revoker_data;
                        revoker_contract = permission.revoker_contract;
                        scope = acp.scope;
                        contracts = permission.contracts;
                        handles = permission.handles;
                        sealing_key = permission.sealing_key;
                      })
                      (record {
                        name = "ACL";
                        version = "2";
                        chain_id = chain_id;
                        verifying_contract = contract;
                      }))
                  ≡ some permission.issuer)
              × IsCarried hex parse_address acp permission)
    unfolding verify_local check_signature from_acp acl_domain
    verify_local_sound acp chain_id contract now_unix e =
        elim (Bool-cases (ltb acp.expiration now_unix)) [
          | inl late ↦ absurd (err-ne-ok (rw late at e))
          | inr valid ↦
              let (permission, parsed, e₁) =
                >>=-eq-ok (try_from hex parse_address acp) _ (rw valid at e) in
              let carried = try_from-IsCarried hex parse_address acp permission parsed in
              let (sig, read, e₂) =
                >>=-eq-ok
                  (map_err (λ m. AcpError.malformed (Malformed.signature m))
                    (eip.read_signature permission.issuer_signature))
                  _ e₁ in
              let (recovered, found, e₃) =
                >>=-eq-ok
                  (ok_or AcpError.bad_signature (
                    eip.recover sig
                      (eip.signing_hash (from_acp permission) (acl_domain chain_id contract))))
                  _ e₂ in
              (
                not_ltb _ _ valid,
                (
                  permission,
                  sig,
                  parsed,
                  map_err-eq-ok _ _ sig read,
                  ap
                        (λ x. eip.recover sig (
                          eip.signing_hash (signed_with permission x.0 x.1 x.2)
                            (acl_domain chain_id contract)))
                        (carried_scalars acp permission carried)
                      ∙ ok_or-eq-ok _ _ recovered found
                      ∙ ap some (check-issuer recovered permission.issuer e₃),
                  carried,
                ),
              )
        ]
