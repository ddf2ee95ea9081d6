-- ===== src/Http/FetchLaws.antt =====
-- What a plaintext that `fetch_decrypt` returns went through: the row, the gates, the commitment.
pub mod Row
use teecryptor.Prelude.{
  ℕ, ◌<◌, ◌^◌, ◌≡◌, ◌≢◌, refl, sym, ap, ◌∙◌, ◌⊎◌, inl, inr, Bool, true, false, ◌||◌, Option, none,
  some, arith, String, Result, ok, err, ◌>>=◌, >>=-eq-ok, ok_inj, err-ne-ok, ℤ, pos, eq_ℤ, eq_ℤ_iff,
  ==_iff, if◌then◌else◌, Bytes,
}
use teecryptor.External.Rpc.{returned}
use teecryptor.External.Lru.{Lru}
use teecryptor.Handle.{Handle}
use teecryptor.Decrypt.{EncryptionType}
use teecryptor.Permit.Acp.{AcpData, AcpError}
use teecryptor.Permit.Verify.{Chains, verify_via_taskmanager, verify_publicly_allowed}
use teecryptor.Commitment.Cache.{CommitmentError, CacheEntry, FetchedCommitment, CommitmentConfig}
use teecryptor.Commitment.History.{IsSourced}
use teecryptor.Http.Response.{ApiVersion, Response}
use teecryptor.Http.Gates.{acp_verdict, enforce_acp, commitment_verdict, compare, rejudge}
use teecryptor.Http.Fetch.{
  Deps, AppState, World, bind, join_gates, acp_gate, commitment_gate, gates, fetch_row,
  decrypt_checked, fetch_committed, fetch_decrypt,
}
use teecryptor.Http.FetchLaws.Row.{bind-ok, fetch_decrypt-stages}

module _ {Ct C : Type 0} (dep : Deps Ct C) (w : World) where
  -- The TaskManager's verdict for the way the request came.
  abbrev pub IsAllowed : Chains → Handle → (host_chain_id : ℕ) → Option AcpData → Type 0
  IsAllowed chains handle chain (some acp) =
      verify_via_taskmanager dep.hex dep.parse_address w.task_manager chains acp handle.u256 chain
      ≡ ok tt
  IsAllowed chains handle chain none =
      verify_publicly_allowed w.task_manager chains handle.u256 chain ≡ ok tt

module _ {S : Type 0} (api : ApiVersion) where
  acp_verdict-none :
      (status : ℕ) (code : String) (r : Result AcpError (Unit {0}))
      → ◌≡◌ {A = Option (Response S)} (acp_verdict api status code r) none
      → r ≡ ok tt
  unfolding acp_verdict
  acp_verdict-none status code (ok tt) e = refl
  acp_verdict-none status code (err e') e = cc

  pub join_gates-ok :
      (o : Option (Response S)) (r : Result (Response S) (Option FetchedCommitment))
      (f : Option FetchedCommitment)
      → join_gates o r ≡ ok f
      → (o ≡ none) × (r ≡ ok f)
  unfolding join_gates
  join_gates-ok none r f e = (refl, e)
  join_gates-ok (some resp) r f e = absurd (err-ne-ok e)

module _ {Ct C : Type 0} (dep : Deps Ct C) (w : World) {S : Type 0} (api : ApiVersion) where
  pub acp_gate-none :
      (chains : Chains) (handle : Handle) (chain : ℕ) (acp : Option AcpData)
      → ◌≡◌ {A = Option (Response S)} (acp_gate dep w api (some chains) handle chain acp) none
      → IsAllowed dep w chains handle chain acp
  unfolding acp_gate enforce_acp
  acp_gate-none chains handle chain (some acp) e = acp_verdict-none api 401 "acp_denied" _ e
  acp_gate-none chains handle chain none e = acp_verdict-none api 403 "not_publicly_allowed" _ e

module _ {Ct C ClientKey : Type 0} (dep : Deps Ct C) (state : AppState ClientKey) (w : World)
    {S : Type 0} (api : ApiVersion) where
  -- A request that is served while ACP verification is on passed the verification of its way.
  pub fetch_decrypt-IsAllowed :
      (chains : Chains) (handle : Handle) (chain : ℕ) (acp : Option AcpData) (cache : C) (pt : ℕ)
      (ty : EncryptionType)
      → state.acp_verifier ≡ some chains
      → (fetch_decrypt dep state w {S = S} api handle chain acp cache).0 ≡ ok (pt, ty)
      → IsAllowed dep w chains handle chain acp
  unfolding gates acp_gate
  fetch_decrypt-IsAllowed chains handle chain acp cache pt ty on e =
      let (expected, cache', ct, gated, row, checked, out) =
        fetch_decrypt-stages dep state w api handle chain acp cache (pt, ty) e in
      let open_ =
        join_gates-ok api (acp_gate dep w api state.acp_verifier handle chain acp)
          (commitment_gate dep w api state.commitment_verifier handle chain cache).0 expected
          (ap (λ p. p.0) gated) in
      acp_gate-none dep w {S = S} api chains handle chain acp (rw on at open_.0)

module _ {S : Type 0} (api : ApiVersion) where
  pub compare-ok :
      (warn_only : Bool) (actual expected : ℕ)
      → warn_only ≡ false
      → ◌≡◌ {A = Result (Response S) (Unit {0})} (compare warn_only api actual expected) (ok tt)
      → actual ≡ expected
  unfolding compare
  compare-ok warn_only actual expected strict e = ground arith

  -- after the re-read, in enforce mode
  pub rejudge-ok :
      (warn_only : Bool) (actual cached : ℕ) (r : Result CommitmentError ℕ)
      → warn_only ≡ false
      → ◌≡◌ {A = Result (Response S) (Unit {0})} (rejudge warn_only api actual cached r) (ok tt)
      → (r ≡ ok actual) ⊎ (actual ≡ cached)
  unfolding rejudge
  rejudge-ok w actual cached (ok fresh) strict e =
      inl (ap ok (sym (compare-ok w actual fresh strict e)))
  rejudge-ok w actual cached (err CommitmentError.not_found) strict e =
      absurd (err-ne-ok (rw strict at e))
  rejudge-ok w actual cached (err (CommitmentError.timeout s)) strict e =
      inr (compare-ok w actual cached strict e)
  rejudge-ok w actual cached (err (CommitmentError.transport s)) strict e =
      inr (compare-ok w actual cached strict e)
  rejudge-ok w actual cached (err (CommitmentError.misconfigured s)) strict e =
      inr (compare-ok w actual cached strict e)

  pub commitment_verdict-ok :
      (cfg : CommitmentConfig) (r : Result CommitmentError FetchedCommitment)
      (f : Option FetchedCommitment)
      → cfg.warn_only ≡ false
      → ◌≡◌ {A = Result (Response S) (Option FetchedCommitment)}
          (commitment_verdict cfg api r)
          (ok f)
      → (fetched : FetchedCommitment) × (r ≡ ok fetched) × (f ≡ some fetched)
  unfolding commitment_verdict
  commitment_verdict-ok cfg (ok fetched) f strict e = (fetched, refl, sym (ok_inj e))
  commitment_verdict-ok cfg (err x) f strict e = absurd (err-ne-ok (rw strict at e))

module _ {Ct C : Type 0} (dep : Deps Ct C) (w : World) where
  -- Bytes that hash to a commitment that was fetched, or to the one that the re-read found.
  abbrev pub IsCommitted :
      CommitmentConfig → (handle host_chain_id : ℕ) → C → (bytes : Bytes) → Type 0
  IsCommitted cfg handle chain cache bytes =
      ((f : FetchedCommitment) × IsSourced dep.lru cfg w.registry handle chain cache f
        × (dep.keccak256 bytes ≡ f.hash))
      ⊎ ((w.reread.get_commitment cfg.version handle ≡ returned (dep.keccak256 bytes))
          × (dep.keccak256 bytes ≢ 0))
