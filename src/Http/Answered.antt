-- ===== src/Http/Answered.antt =====
-- A request that is served was allowed by the contract itself.
use teecryptor.Prelude.{
  ℕ, ◌≡◌, true, Option, none, some, ok, err, refl, sym, ◌∙◌, false, inl, inr, Bool-cases,
  Option-cases, String, Bytes, ◌==◌,
}
use teecryptor.External.Rpc.{returned}
use teecryptor.Handle.{Handle}
use teecryptor.Decrypt.{EncryptionType}
use teecryptor.Permit.Acp.{AcpData, Acp}
use teecryptor.Permit.AcpLaws.{IsCarried, try_from-IsCarried}
use teecryptor.Permit.Verify.{ChainConfig, Chains, get_chain}
use teecryptor.Permit.VerifyLaws.{verify_via_taskmanager_iff, verify_publicly_allowed_iff}
use teecryptor.CtSource.{Sent}
use teecryptor.Commitment.Cache.{Registry}
use teecryptor.Http.Response.{ApiVersion, Response}
use teecryptor.Http.Fetch.{Deps, AppState, World, acp_gate, gates, join_gates, fetch_decrypt}
use teecryptor.Http.FetchLaws.{IsAllowed, acp_gate-none, fetch_decrypt-IsAllowed}

module _ {Ct C : Type 0} (dep : Deps Ct C) (w : World) where
  -- The TaskManager of the chain says yes: to the handle for everybody, or to the permission that
  -- carries what the caller sent.
  abbrev pub IsAnswered : Chains → Handle → (host_chain_id : ℕ) → Option AcpData → Type 0
  IsAnswered chains handle chain none =
      (cfg : ChainConfig) × (get_chain chains chain ≡ some cfg)
      × (w.task_manager.is_publicly_allowed cfg.rpc_url cfg.task_manager handle.u256
          ≡ returned true)
  IsAnswered chains handle chain (some acp) =
      (cfg : ChainConfig) × (permission : Acp) × (get_chain chains chain ≡ some cfg)
      × IsCarried dep.hex dep.parse_address acp permission
      × (w.task_manager.is_allowed_with_permission cfg.rpc_url cfg.task_manager permission
            handle.u256
          ≡ returned true)

  IsAllowed-IsAnswered :
      (chains : Chains) (handle : Handle) (chain : ℕ) (acp : Option AcpData)
      → IsAllowed dep w chains handle chain acp
      → IsAnswered chains handle chain acp
  IsAllowed-IsAnswered chains handle chain none e =
      (verify_publicly_allowed_iff w.task_manager chains handle.u256 chain).0 e
  IsAllowed-IsAnswered chains handle chain (some acp) e =
      let (cfg, permission, at, parsed, allowed) =
        (verify_via_taskmanager_iff dep.hex dep.parse_address w.task_manager chains acp handle.u256
            chain).0
          e in
      (
        cfg,
        permission,
        at,
        try_from-IsCarried dep.hex dep.parse_address acp permission parsed,
        allowed,
      )

module _ {Ct C ClientKey : Type 0} (dep : Deps Ct C) (state : AppState ClientKey) (w : World)
    {S : Type 0} (api : ApiVersion) where
  -- What the ACP gate answers, an admitted request is answered.
  refused_first :
      (handle : Handle) (chain : ℕ) (acp : Option AcpData) (cache : C) (resp : Response S)
      → (w.admit_slots == 0) ≡ false
      → acp_gate dep w {S = S} api state.acp_verifier handle chain acp ≡ some resp
      → (fetch_decrypt dep state w {S = S} api handle chain acp cache).0 ≡ err resp
  unfolding fetch_decrypt gates join_gates
  refused_first handle chain acp cache resp free refused = rw (free, refused) refl

module _ {Ct C ClientKey : Type 0} (dep : Deps Ct C) (state : AppState ClientKey) (w : World)
    {S : Type 0} (api : ApiVersion) where
  -- A request that is served while ACP verification is on was allowed by the contract itself: the
  -- TaskManager of the request's chain, asked through that chain's RPC, answered yes, either that the
  -- handle is publicly decryptable, where no ACP came, or to the handle and a permission that carries
  -- the ACP that came as it was sent. An error, a timeout, a "no" or an unknown chain serves nothing.
  pub fetch_decrypt-IsAnswered :
      (chains : Chains) (handle : Handle) (chain : ℕ) (acp : Option AcpData) (cache : C) (pt : ℕ)
      (ty : EncryptionType)
      → state.acp_verifier ≡ some chains
      → (fetch_decrypt dep state w {S = S} api handle chain acp cache).0 ≡ ok (pt, ty)
      → IsAnswered dep w chains handle chain acp
  fetch_decrypt-IsAnswered chains handle chain acp cache pt ty on e =
      IsAllowed-IsAnswered dep w chains handle chain acp
        (fetch_decrypt-IsAllowed dep state w {S = S} api chains handle chain acp cache pt ty on e)

  -- A caller who is not allowed learns nothing but that: where ACP verification is on and the request
  -- does not pass it, the response is the same whatever the registry, the re-read, ct-server, the
  -- decrypt task and the commitment cache hold. It does not tell whether the handle has a commitment
  -- or a ciphertext.
  pub fetch_decrypt-refused_alike :
      (chains : Chains) (handle : Handle) (chain : ℕ) (acp : Option AcpData) (cache cache' : C)
      (registry reread : Registry) (ct_server : Bytes → Sent) (join_error : Option String)
      → state.acp_verifier ≡ some chains
      → ¬ IsAllowed dep w chains handle chain acp
      → (fetch_decrypt dep state w {S = S} api handle chain acp cache).0
        ≡ (fetch_decrypt dep state
            (record w {
              registry = registry;
              reread = reread;
              ct_server = ct_server;
              join_error = join_error;
            })
            {S = S}
            api
            handle
            chain
            acp
            cache').0
  unfolding fetch_decrypt gates join_gates acp_gate
  fetch_decrypt-refused_alike chains handle chain acp cache cache' registry reread ct_server
        join_error on refused =
      elim (Option-cases (acp_gate dep w {S = S} api (some chains) handle chain acp)) [
        | inl passed ↦
            absurd (refused (acp_gate-none dep w {S = S} api chains handle chain acp passed))
        | inr stopped ↦ elim (Bool-cases (w.admit_slots == 0)) [
          | inl full ↦ rw full refl
          | inr free ↦
              refused_first dep state w api handle chain acp cache stopped.0 free (rw on stopped.1)
              ∙ sym (
                  refused_first dep state
                    (record w {
                      registry = registry;
                      reread = reread;
                      ct_server = ct_server;
                      join_error = join_error;
                    })
                    api handle chain acp cache' stopped.0 free (rw on stopped.1))
        ]
      ]
