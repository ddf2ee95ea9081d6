-- ===== src/Boot/ConfigLaws.antt =====
-- What a configuration that is accepted went through: both gates are configured where the policy
-- wants them, and every served chain is resolved through the baked address book.
use teecryptor.Prelude.{
  ℕ, ◌≡◌, refl, sym, ap, ◌∙◌, ◌⊎◌, inl, inr, true, false, not, ◌&&◌, Option, none, some, List, [],
  All, ok, >>=-eq-ok, ok_inj, ok_or, ok_or-eq-ok, arith, Bytes, Bool-cases,
}
use teecryptor.External.Hex.{Hex}
use teecryptor.External.Lru.{Lru}
use teecryptor.Commitment.Cache.{Key, CacheEntry}
use teecryptor.Permit.Verify.{Chains}
use mathlib.Core.Path.{subst}
use teecryptor.Boot.Policy.{
  CommitmentPolicy, EnvPolicy, is_some, for_env, not_set, unknown_env, permit_not_configured,
  commitment_not_configured,
}
use teecryptor.Boot.Config.{
  Config, Host, PendingChain, Verifier, parse_permit_chains, number_or, parse_commitment_config,
  validate_threshold, require, concurrency, read_gates, from_env, resolve_chains, resolve_pending,
  resolve_acp,
}
use teecryptor.Boot.GateLaws.{
  require-true, IsServedChain, IsRegistered, parse_permit_chains-All, resolve_chains-All,
  parse_commitment_config-ok,
}

module _ (host : Host) where
  -- The ACL gate after the resolution: on over chains of the book, or off.
  abbrev pub IsGuarded : EnvPolicy → Option Chains → Type 0
  IsGuarded policy verifier =
      ((policy.require_permit ≡ true)
        × ((chains : Chains) × (verifier ≡ some chains)
            × All (IsServedChain policy.acl host) chains))
      ⊎ ((policy.require_permit ≡ false) × (verifier ≡ none))

module _ {C : Type 0} (hex : Hex) (host : Host) where
  -- The commitment gate: on with the verifier of the baked block, or off.
  abbrev pub IsEnforced : EnvPolicy → Option (Verifier C) → Type 0
  IsEnforced policy verifier =
      ((policy.enable_commitment_verification ≡ true)
        × ((block : CommitmentPolicy) × (v : Verifier C) × (policy.commitment ≡ some block)
            × (verifier ≡ some v)
            × IsRegistered hex host block v))
      ⊎ (policy.enable_commitment_verification ≡ false)

module _ {C : Type 0} (lru : Lru Key CacheEntry C) (hex : Hex) (host : Host) where
  read_gates-ok :
      (policy : EnvPolicy) (pending : Option (List (ℕ × PendingChain)))
      (verifier : Option (Verifier C))
      → read_gates lru hex host policy ≡ ok (pending, verifier)
      → (parse_permit_chains host.from_json host.vars policy.acl ≡ ok pending)
        × (parse_commitment_config lru hex host.parse_address host.parse_url host.vars policy
            ≡ ok verifier)
        × (not (policy.require_permit && not (is_some pending)) ≡ true)
        × (not (policy.enable_commitment_verification && not (is_some verifier)) ≡ true)
  unfolding read_gates
  read_gates-ok policy pending verifier e =
      let (pending', waits, e₁) =
        >>=-eq-ok (parse_permit_chains host.from_json host.vars policy.acl) _ e in
      let (u, permit, e₂) =
        >>=-eq-ok
          (require (not (policy.require_permit && not (is_some pending'))) permit_not_configured) _
          e₁ in
      let (verifier', made, e₃) =
        >>=-eq-ok
          (parse_commitment_config lru hex host.parse_address host.parse_url host.vars policy) _
          e₂ in
      let (u', commitment, e₄) =
        >>=-eq-ok
          (require (not (policy.enable_commitment_verification && not (is_some verifier')))
            commitment_not_configured)
          _ e₃ in
      let same = ok_inj e₄ in
      let same_pending = ap (λ g. g.0) same in
      let same_verifier = ap (λ g. g.1) same in
      (
        waits ∙ ap ok same_pending,
        made ∙ ap ok same_verifier,
        ap (λ o. not (policy.require_permit && not (is_some o))) (sym same_pending)
            ∙ require-true _ permit_not_configured u permit,
        ap (λ o. not (policy.enable_commitment_verification && not (is_some o))) (sym same_verifier)
            ∙ require-true _ commitment_not_configured u' commitment,
      )

  -- The policy of an environment that the process starts in.
  abbrev pub IsPolicyOf : Config C → EnvPolicy → Type 0
  IsPolicyOf cfg policy =
      (env : Bytes) × (host.vars "COFHE_ENV" ≡ some env)
      × (for_env host.from_toml host.include_str env ≡ ok policy)
      × (read_gates lru hex host policy ≡ ok (cfg.acp_pending, cfg.commitment_verifier))
      × (cfg.require_permit ≡ policy.require_permit)
      × (cfg.enable_commitment_verification ≡ policy.enable_commitment_verification)
      × (cfg.acp_verifier ≡ none)

  pub from_env-IsPolicyOf :
      (cfg : Config C)
      → from_env lru hex host ≡ ok cfg
      → (policy : EnvPolicy) × IsPolicyOf cfg policy
  unfolding from_env
  from_env-IsPolicyOf cfg e =
      let (getct, e₀, e₁) = >>=-eq-ok (number_or host.vars "GETCT_TIMEOUT_MS" 5000) _ e in
      let (env, named, e₂) = >>=-eq-ok (ok_or (not_set "COFHE_ENV") (host.vars "COFHE_ENV")) _ e₁ in
      let (env_cfg, known, e₃) = >>=-eq-ok (ok_or unknown_env (host.lookup env)) _ e₂ in
      let (policy, baked, e₄) = >>=-eq-ok (for_env host.from_toml host.include_str env) _ e₃ in
      let (gates, gated, e₅) = >>=-eq-ok (read_gates lru hex host policy) _ e₄ in
      let (decrypts, e₆, e₇) = >>=-eq-ok (concurrency lru hex host) _ e₅ in
      let (inflight, e₈, e₉) = >>=-eq-ok (number_or host.vars "MAX_INFLIGHT" 1000) _ e₇ in
      let (u, valid, f₁) =
        >>=-eq-ok (validate_threshold host.min_threshold env_cfg.shamir_threshold env_cfg.partners)
          _ e₉ in
      let (url, set, f₂) =
        >>=-eq-ok (ok_or (not_set "CT_SOURCE_URL") (host.vars "CT_SOURCE_URL")) _ f₁ in
      (
        policy,
        subst (λ c. IsPolicyOf c policy) (ok_inj f₂)
            (
              env,
              ok_or-eq-ok (not_set "COFHE_ENV") (host.vars "COFHE_ENV") env named,
              baked,
              gated,
              refl,
              refl,
              refl,
            ),
      )

  -- What the resolution leaves: the guard, and the rest of the configuration as it was.
  abbrev IsResolvedFrom : Config C → EnvPolicy → Config C → Type 0
  IsResolvedFrom cfg policy out =
      IsGuarded host policy out.acp_verifier
      × (out.require_permit ≡ policy.require_permit)
      × (out.enable_commitment_verification ≡ policy.enable_commitment_verification)
      × (out.commitment_verifier ≡ cfg.commitment_verifier)

  resolve_pending-IsGuarded :
      (pending : Option (List (ℕ × PendingChain))) (cfg out : Config C) (policy : EnvPolicy)
      → IsPolicyOf cfg policy
      → cfg.acp_pending ≡ pending
      → resolve_pending host pending cfg ≡ ok out
      → IsResolvedFrom cfg policy out
  unfolding resolve_pending
  resolve_pending-IsGuarded none cfg out policy (env, named, baked, gated, permit, enable, unset)
        none_ e =
      let (waits, made, on, commitment) =
        read_gates-ok policy cfg.acp_pending cfg.commitment_verifier gated in
      let off : policy.require_permit ≡ false = let on' = rw none_ at on in ground arith in
      subst (IsResolvedFrom cfg policy) (ok_inj e) (inr (off, unset), permit, enable, refl)
  resolve_pending-IsGuarded (some pending) cfg out policy
        (env, named, baked, gated, permit, enable, unset) some_ e =
      elim (Bool-cases cfg.require_permit) [
        | inr off ↦
            subst (IsResolvedFrom cfg policy) (ok_inj (rw off at e))
              (inr (sym permit ∙ off, unset), sym off ∙ permit, enable, refl)
        | inl on ↦
            let (waits, made, on', commitment) =
              read_gates-ok policy cfg.acp_pending cfg.commitment_verifier gated in
            let (chains, found, same) = >>=-eq-ok (resolve_chains host pending []) _ (rw on at e) in
            subst (IsResolvedFrom cfg policy) (ok_inj same) (
              inl (
                sym permit ∙ on,
                (
                  chains,
                  refl,
                  resolve_chains-All policy.acl host pending [] chains
                      (parse_permit_chains-All policy.acl host.from_json host.vars pending
                        (waits ∙ ap ok some_))
                      tt found,
                ),
              ),
              sym on ∙ permit,
              enable,
              refl,
            )
      ]

  pub resolve_acp-IsGuarded :
      (cfg out : Config C) (policy : EnvPolicy)
      → IsPolicyOf cfg policy
      → resolve_acp host cfg ≡ ok out
      → IsResolvedFrom cfg policy out
  unfolding resolve_acp
  resolve_acp-IsGuarded cfg out policy is e =
      resolve_pending-IsGuarded cfg.acp_pending cfg out policy is refl e

  pub read_gates-IsEnforced :
      (policy : EnvPolicy) (pending : Option (List (ℕ × PendingChain)))
      (verifier : Option (Verifier C))
      → read_gates lru hex host policy ≡ ok (pending, verifier)
      → IsEnforced hex host policy verifier
  read_gates-IsEnforced policy pending none e =
      let (waits, made, permit, commitment) = read_gates-ok policy pending none e in
      inr (ground arith)
  read_gates-IsEnforced policy pending (some v) e =
      let (waits, made, permit, commitment) = read_gates-ok policy pending (some v) e in
      elim (Bool-cases policy.enable_commitment_verification) [
        | inl on ↦
            let (block, there, registered) =
              parse_commitment_config-ok lru hex host policy v made in
            inl (on, (block, v, there, refl, registered))
        | inr off ↦ inr off
      ]
