-- ===== src/Boot/PanicLaws.antt =====
-- The `expect`s of the start never fire: what they rely on was checked before.
use teecryptor.Prelude.{
  ℕ, ◌≡◌, refl, ◌∙◌, ◌⊎◌, inl, inr, true, false, some, List, [], ◌∷◌, All, String, Result, ok, err,
  ◌>>=◌, >>=-eq-ok, Bytes, ==_self, eq_bytes, Bool-cases, Result-cases,
}
use teecryptor.External.Hex.{Hex}
use teecryptor.External.Lru.{Lru}
use teecryptor.External.Rpc.{Reply}
use teecryptor.Commitment.Cache.{Key, CacheEntry, probe_registry}
use teecryptor.Permit.Verify.{ChainConfig}
use teecryptor.Boot.Policy.{registry_unreachable}
use teecryptor.Boot.Config.{Config, Host, Verifier, from_env, resolve_acp}
use teecryptor.Boot.ConfigLaws.{from_env-IsPolicyOf, resolve_acp-IsGuarded, read_gates-IsEnforced}
use teecryptor.Boot.Start.{
  PartnerRef, PartnerToken, PartnerAccess, Federation, add_token, partner_token,
  load_partner_tokens, find_partner, pair_tokens, App, with_acp_verifier, with_commitment_verifier,
  install_acp, install_commitment,
}

eq_bytes_self : (s : Bytes) → eq_bytes s s ≡ true
eq_bytes_self [] = refl
eq_bytes_self (c ∷ s) = rw (==_self c, eq_bytes_self s) refl

-- A project that the partner set has.
HasProject : List PartnerRef → Bytes → Type 0
HasProject partners project = (p : PartnerRef) × (find_partner partners project ≡ some p)

HasProject-cons :
    (p : PartnerRef) (partners : List PartnerRef) (project : Bytes)
    → HasProject partners project
    → HasProject (p ∷ partners) project
unfolding find_partner HasProject
HasProject-cons p partners project (q, found) = elim (Bool-cases (eq_bytes p.project_id project)) [
  | inl same ↦ (p, rw same refl)
  | inr other ↦ (q, rw other found)
]

HasProject-self :
    (p : PartnerRef) (partners : List PartnerRef) → HasProject (p ∷ partners) p.project_id
unfolding find_partner HasProject
HasProject-self p partners = (p, rw (eq_bytes_self p.project_id) refl)

abbrev IsOwned : List PartnerRef → PartnerToken → Type 0
IsOwned partners t = HasProject partners t.project_id

All-mono :
    (p : PartnerRef) (partners : List PartnerRef) (tokens : List PartnerToken)
    → All (IsOwned partners) tokens
    → All (IsOwned (p ∷ partners)) tokens
All-mono p partners [] hs = tt
All-mono p partners (t ∷ tokens) hs =
    (HasProject-cons p partners t.project_id hs.0, All-mono p partners tokens hs.1)

add_token-All :
    (p : PartnerRef) (partners : List PartnerRef) (r : Result String Bytes)
    (loaded : List PartnerToken × List Bytes)
    → All (IsOwned partners) loaded.0
    → All (IsOwned (p ∷ partners)) (add_token p r loaded).0
unfolding add_token
add_token-All p partners (ok token) (tokens, failed) hs =
    (HasProject-self p partners, All-mono p partners tokens hs)
add_token-All p partners (err e) (tokens, failed) hs = All-mono p partners tokens hs

load_partner_tokens-All :
    (fed : Federation) (partners : List PartnerRef)
    → All (IsOwned partners) (load_partner_tokens fed partners).0
unfolding load_partner_tokens
load_partner_tokens-All fed [] = tt
load_partner_tokens-All fed (p ∷ partners) =
    add_token-All p partners (partner_token fed p) (load_partner_tokens fed partners)
      (load_partner_tokens-All fed partners)

pair_tokens-ok :
    (partners : List PartnerRef) (tokens : List PartnerToken)
    → All (IsOwned partners) tokens
    → (accesses : List PartnerAccess) × (pair_tokens partners tokens ≡ ok accesses)
unfolding pair_tokens HasProject
pair_tokens-ok partners [] hs = ([], refl)
pair_tokens-ok partners (t ∷ tokens) ((p, found), hs) =
    let (accesses, done) = pair_tokens-ok partners tokens hs in
    (record { partner = p; sm_token = t.sm_token } ∷ accesses, rw (found, done) refl)

module _ {ClientKey Signer C : Type 0} where
  install_acp-IsGuarded_ok :
      (cfg : Config C) (app : App ClientKey Signer C)
      → ((cfg.require_permit ≡ true) × ((v : List (ℕ × ChainConfig)) × (cfg.acp_verifier ≡ some v)))
        ⊎ (cfg.require_permit ≡ false)
      → (out : App ClientKey Signer C) × (install_acp cfg app ≡ ok out)
  unfolding install_acp
  install_acp-IsGuarded_ok cfg app (inl (on, (v, there))) =
      (with_acp_verifier v app, rw (on, there) refl)
  install_acp-IsGuarded_ok cfg app (inr off) = (app, rw off refl)

  install_commitment_total :
      (version_status : ℕ → ℕ → Reply String ℕ) (cfg : Config C) (app : App ClientKey Signer C)
      → ((cfg.enable_commitment_verification ≡ true)
          × ((v : Verifier C) × (cfg.commitment_verifier ≡ some v)))
        ⊎ (cfg.enable_commitment_verification ≡ false)
      → ((out : App ClientKey Signer C) × (install_commitment version_status cfg app ≡ ok out))
        ⊎ (install_commitment version_status cfg app ≡ err registry_unreachable)
  unfolding install_commitment
  install_commitment_total version_status cfg app (inr off) = inl (app, rw off refl)
  install_commitment_total version_status cfg app (inl (on, (v, there))) =
      elim (Result-cases (probe_registry v.config (version_status v.registry v.config.version))) [
        | inl answered ↦ inl (with_commitment_verifier v app, rw (on, there, answered.1) refl)
        | inr failed_ ↦ inr (rw (on, there, failed_.1) refl)
      ]

module _ {ClientKey Signer C : Type 0} (lru : Lru Key CacheEntry C) (hex : Hex) (host : Host)
    (version_status : (registry version : ℕ) → Reply String ℕ) where
  -- No `expect` of the start fires. With a configuration that was read and resolved, the ACL gate is
  -- always installed and the commitment gate is refused for an unreachable registry only; and
  -- whatever the partners' federation answers, every token is paired with a partner of the set.
  pub install-ok :
      (fed : Federation) (partners : List PartnerRef) (cfg : Config C)
      (app : App ClientKey Signer C)
      → from_env lru hex host >>= resolve_acp host ≡ ok cfg
      → ((out : App ClientKey Signer C) × (install_acp cfg app ≡ ok out))
        × (((out : App ClientKey Signer C) × (install_commitment version_status cfg app ≡ ok out))
            ⊎ (install_commitment version_status cfg app ≡ err registry_unreachable))
        × ((accesses : List PartnerAccess) × (pair_tokens partners
                (load_partner_tokens fed partners).0
              ≡ ok accesses))
  install-ok fed partners cfg app e =
      let (cfg₀, read, resolved) = >>=-eq-ok (from_env lru hex host) (resolve_acp host) e in
      let (policy, is) = from_env-IsPolicyOf lru hex host cfg₀ read in
      let (guard, permit, enable, kept) =
        resolve_acp-IsGuarded lru hex host cfg₀ cfg policy is resolved in
      let (env, named, baked, gated, p, n, unset) = is in
      let enforced =
        read_gates-IsEnforced lru hex host policy cfg₀.acp_pending cfg₀.commitment_verifier gated in
      (
        install_acp-IsGuarded_ok cfg app (elim guard [
          | inl on ↦ inl (permit ∙ on.0, (on.1.0, on.1.1))
          | inr off ↦ inr (permit ∙ off.0)
        ]),
        install_commitment_total version_status cfg app (elim enforced [
          | inl on ↦ inl (enable ∙ on.0, (on.1.1, kept ∙ on.1.3))
          | inr off ↦ inr (enable ∙ off)
        ]),
        pair_tokens-ok partners _ (load_partner_tokens-All fed partners),
      )
