-- ===== src/Boot/GateLaws.antt =====
-- The configuration of the two gates: every chain waits for the TaskManager that the baked policy
-- names, and the commitment verifier is that of the baked block.
use teecryptor.Prelude.{
  ℕ, ◌≡◌, ◌≢◌, refl, ap, ◌∙◌, inl, inr, Bool, true, false, Option, none, some, List, [], ◌∷◌, All,
  String, Result, ok, err, ◌>>=◌, >>=-eq-ok, ok_inj, err-ne-ok, ok_or, ok_or-eq-ok, map_err,
  map_err-eq-ok, arith, Bytes, ltb, ◌==◌, Bool-cases, if◌then◌else◌,
}
use teecryptor.External.Hex.{Hex}
use teecryptor.External.Lru.{Lru}
use teecryptor.Commitment.Version.{parse_version}
use teecryptor.Commitment.Cache.{Key, CacheEntry}
use teecryptor.Permit.Verify.{ChainConfig, Chains}
use mathlib.Core.Path.{subst}
use teecryptor.Boot.Numbers.{parse_u64}
use teecryptor.Boot.Policy.{
  BootError, AclPolicy, CommitmentPolicy, EnvPolicy, task_manager_id, bad_chain_id, chain_not_baked,
  bad_chains_json, no_commitment_policy, bad_registry_address, bad_registry_url, bad_version,
  timeout_too_small, zero_cache_size, zero_cache_ttl, unresolved_chain, is_empty,
}
use teecryptor.Boot.Config.{
  Host, Vars, PendingChain, ChainEntry, Verifier, insert, pending_chain, collect_chains,
  parse_permit_chains, number_or, new_verifier, read_verifier, parse_commitment_config, require,
  resolve_chain, resolve_chains, min_timeout_ms,
}

pub require-true : (b : Bool) (e : BootError) (u : Unit {0}) → require b e ≡ ok u → b ≡ true
require-true true e u h = refl
require-true false e u h = absurd (err-ne-ok h)

check-true :
    (b : Bool) (x : BootError) (u : Unit {0}) → (if b then err x else ok tt) ≡ ok u → b ≡ false
check-true true x u h = absurd (err-ne-ok h)
check-true false x u h = refl

module _ {V : Type 0} (P : ℕ × V → Type 0) where
  -- An insertion keeps what holds of every entry.
  insert-All : (k : ℕ) (v : V) (m : List (ℕ × V)) → P (k, v) → All P m → All P (insert k v m)
  unfolding insert
  insert-All k v [] new old = (new, tt)
  insert-All k v ((j, w) ∷ m) new old = elim (Bool-cases (j == k)) [
    | inl same ↦ rw same (new, old.1)
    | inr other ↦ rw other (old.0, insert-All k v m new old.1)
  ]

module _ (acl : AclPolicy) where
  -- A chain that waits for its TaskManager: asked of the policy's book, by the policy's id.
  abbrev pub IsPending : ℕ × PendingChain → Type 0
  IsPending (id, p) =
      (p.address_book ≡ acl.address_book) × (task_manager_id acl id ≡ some p.task_manager_id)

  collect_chains-All :
      (entries : List (Bytes × ChainEntry)) (chains out : List (ℕ × PendingChain))
      → All IsPending chains
      → collect_chains acl entries chains ≡ ok out
      → All IsPending out
  unfolding collect_chains pending_chain
  collect_chains-All [] chains out hs e = subst (All IsPending) (ok_inj e) hs
  collect_chains-All ((key, entry) ∷ entries) chains out hs e =
      let (id, read, e₁) = >>=-eq-ok (ok_or (bad_chain_id key) (parse_u64 key)) _ e in
      let (tm, listed, e₂) = >>=-eq-ok (ok_or (chain_not_baked id) (task_manager_id acl id)) _ e₁ in
      collect_chains-All entries (insert id (pending_chain acl entry tm) chains) out
        (insert-All IsPending id (pending_chain acl entry tm) chains
          (refl, ok_or-eq-ok (chain_not_baked id) (task_manager_id acl id) tm listed) hs)
        e₂

  pub parse_permit_chains-All :
      (from_json : Bytes → Result String (List (Bytes × ChainEntry))) (vars : Vars)
      (out : List (ℕ × PendingChain))
      → parse_permit_chains from_json vars acl ≡ ok (some out)
      → All IsPending out
  unfolding parse_permit_chains
  parse_permit_chains-All from_json vars out e = go (vars "PERMIT_CHAINS_JSON") e
    where
      go :
          (o : Option Bytes)
          → ◌≡◌ {A = Result BootError (Option (List (ℕ × PendingChain)))}
              (elim o [
                | none ↦ ok none
                | some raw ↦ map_err bad_chains_json (from_json raw) >>= λ entries.
                    if is_empty entries
                    then ok none
                    else collect_chains acl entries [] >>= λ chains. ok (some chains)
              ])
              (ok (some out))
          → All IsPending out
      go none e = cc
      go (some raw) e =
          let (entries, read, e₁) = >>=-eq-ok (map_err bad_chains_json (from_json raw)) _ e in
          elim (Bool-cases (is_empty entries)) [
            | inl empty ↦ let bad = rw empty at e₁ in cc
            | inr full ↦
                let (chains, made, same) =
                  >>=-eq-ok (collect_chains acl entries []) _ (rw full at e₁) in
                let e' : chains ≡ out = cc in
                subst (All IsPending) e' (collect_chains-All entries [] chains tt made)
          ]

module _ (acl : AclPolicy) (host : Host) where
  -- A served chain: its TaskManager is what the policy's book answered for the policy's id.
  abbrev pub IsServedChain : ℕ × ChainConfig → Type 0
  IsServedChain (id, cfg) =
      (p : PendingChain) × IsPending acl (id, p) × (resolve_chain host p ≡ ok cfg)

  pub resolve_chains-All :
      (pending : List (ℕ × PendingChain)) (chains out : Chains)
      → All (IsPending acl) pending
      → All IsServedChain chains
      → resolve_chains host pending chains ≡ ok out
      → All IsServedChain out
  unfolding resolve_chains
  resolve_chains-All [] chains out ps hs e = subst (All IsServedChain) (ok_inj e) hs
  resolve_chains-All ((id, p) ∷ pending) chains out ps hs e =
      let (cfg, found, e₁) =
        >>=-eq-ok (map_err (λ x. unresolved_chain id) (resolve_chain host p)) _ e in
      resolve_chains-All pending (insert id cfg chains) out ps.1
        (insert-All IsServedChain id cfg chains
          (p, ps.0, map_err-eq-ok (λ x. unresolved_chain id) (resolve_chain host p) cfg found) hs)
        e₁

module _ {C : Type 0} (hex : Hex) (host : Host) where
  -- A verifier of the baked block: its registry, its version and its mode, and a TTL.
  abbrev pub IsRegistered : CommitmentPolicy → Verifier C → Type 0
  IsRegistered block v =
      (parse_version hex block.version ≡ ok v.config.version)
      × (host.parse_address block.registry_address ≡ ok v.registry)
      × (v.config.warn_only ≡ block.warning_instead_of_enforcement)
      × (v.config.cache_ttl ≢ 0)

module _ {C : Type 0} (lru : Lru Key CacheEntry C) (hex : Hex) (host : Host) where
  read_verifier-ok :
      (policy : EnvPolicy) (url : Bytes) (v : Verifier C)
      → read_verifier lru hex host.parse_address host.parse_url host.vars policy url ≡ ok v
      → (block : CommitmentPolicy) × (policy.commitment ≡ some block)
        × IsRegistered hex host block v
  unfolding read_verifier new_verifier
  read_verifier-ok policy url v e =
      let (block, there, e₁) = >>=-eq-ok (ok_or no_commitment_policy policy.commitment) _ e in
      let (registry, placed, e₂) =
        >>=-eq-ok (map_err bad_registry_address (host.parse_address block.registry_address)) _ e₁ in
      let (version, canonical, e₃) =
        >>=-eq-ok (map_err (λ x. bad_version) (parse_version hex block.version)) _ e₂ in
      let (timeout_ms, timed, e₄) =
        >>=-eq-ok (number_or host.vars "COMMITMENT_TIMEOUT_MS" 5000) _ e₃ in
      let (u, long, e₅) =
        >>=-eq-ok
          (if ltb timeout_ms min_timeout_ms then err (timeout_too_small timeout_ms) else ok tt) _
          e₄ in
      let (size, sized, e₆) = >>=-eq-ok (number_or host.vars "COMMITMENT_CACHE_SIZE" 100000) _ e₅ in
      let (u₁, some_size, e₇) = >>=-eq-ok (if size == 0 then err zero_cache_size else ok tt) _ e₆ in
      let (ttl, lived, e₈) =
        >>=-eq-ok (number_or host.vars "COMMITMENT_CACHE_TTL_SECS" 3600) _ e₇ in
      let (u₂, some_ttl, e₉) = >>=-eq-ok (if ttl == 0 then err zero_cache_ttl else ok tt) _ e₈ in
      let (u₃, read, made) = >>=-eq-ok (map_err bad_registry_url (host.parse_url url)) _ e₉ in
      let same = ok_inj made in
      let nonzero : (ttl == 0) ≡ false = check-true (ttl == 0) zero_cache_ttl u₂ some_ttl in
      (
        block,
        ok_or-eq-ok no_commitment_policy policy.commitment block there,
        subst (IsRegistered hex host block) same (
          map_err-eq-ok (λ x. bad_version) (parse_version hex block.version) version canonical,
          map_err-eq-ok bad_registry_address (host.parse_address block.registry_address) registry
              placed,
          refl,
          ground arith,
        ),
      )

  pub parse_commitment_config-ok :
      (policy : EnvPolicy) (v : Verifier C)
      → parse_commitment_config lru hex host.parse_address host.parse_url host.vars policy
        ≡ ok (some v)
      → (block : CommitmentPolicy) × (policy.commitment ≡ some block)
        × IsRegistered hex host block v
  unfolding parse_commitment_config
  parse_commitment_config-ok policy v e = go (host.vars "COMMITMENT_REGISTRY_RPC_URL") e
    where
      go :
          (o : Option Bytes)
          → ◌≡◌ {A = Result BootError (Option (Verifier C))}
              (elim o [
                | none ↦ ok none
                | some [] ↦ ok none
                | some (c ∷ cs) ↦
                    read_verifier lru hex host.parse_address host.parse_url host.vars policy
                      (c ∷ cs)
                    >>= λ v'. ok (some v')
              ])
              (ok (some v))
          → (block : CommitmentPolicy) × (policy.commitment ≡ some block)
            × IsRegistered hex host block v
      go none e = cc
      go (some []) e = cc
      go (some (c ∷ cs)) e =
          let (v', read, same) =
            >>=-eq-ok
              (read_verifier lru hex host.parse_address host.parse_url host.vars policy (c ∷ cs)) _
              e in
          let e' : v' ≡ v = cc in read_verifier-ok policy (c ∷ cs) v (read ∙ ap ok e')
