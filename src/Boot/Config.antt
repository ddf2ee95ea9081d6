-- ===== src/Boot/Config.antt =====
-- src/main.rs: `Config::from_env` and what it calls. The environment is a function.
use teecryptor.Prelude.{
  ℕ, Bool, true, false, not, ◌&&◌, Option, none, some, List, [], ◌∷◌, String, Result, ok, err,
  ◌>>=◌, map_err, ok_or, unwrap_or, ltb, ◌==◌, if◌then◌else◌, Bytes,
}
use teecryptor.External.Hex.{Hex}
use teecryptor.External.Rpc.{Reply}
use teecryptor.External.Lru.{Lru}
use teecryptor.Commitment.Version.{parse_version}
use teecryptor.Commitment.Cache.{Key, CacheEntry, CommitmentConfig}
use teecryptor.Permit.Acp.{AcpError}
use teecryptor.Permit.Verify.{ChainConfig, Chains}
use teecryptor.Permit.Resolve.{BookError, resolve}
use teecryptor.Boot.Numbers.{parse_u64}
use teecryptor.Boot.Policy.{
  BootError, AclPolicy, EnvPolicy, Document, BakedEnv, task_manager_id, is_some, is_empty, for_env,
  not_set, bad_value, unknown_env, bad_chains_json, bad_chain_id, chain_not_baked,
  permit_not_configured, no_commitment_policy, bad_registry_address, bad_version, bad_registry_url,
  timeout_too_small, zero_cache_size, zero_cache_ttl, commitment_not_configured,
  threshold_too_small, threshold_too_large, unresolved_chain,
}

-- `std::env::var`
abbrev pub Vars : Type 0
Vars = String → Option Bytes

pub record PendingChain : Type 0 where
  pub rpc_url : Bytes
  pub timeout_ms : ℕ
  pub address_book : ℕ
  pub task_manager_id : ℕ
  pub retries : ℕ

-- An entry of PERMIT_CHAINS_JSON, its two optional fields as they were given.
pub record ChainEntry : Type 0 where
  pub rpc_url : Bytes
  pub timeout_ms : Option ℕ
  pub retries : Option ℕ

-- `HashMap::insert`; the order of the entries is that of the walk.
unfoldable pub insert {ℓ} : {V : Type ℓ} → ℕ → V → List (ℕ × V) → List (ℕ × V)
insert k v [] = (k, v) ∷ []
insert k v ((j, w) ∷ m) = if j == k then (k, v) ∷ m else (j, w) ∷ insert k v m

unfoldable pub pending_chain : AclPolicy → ChainEntry → (task_manager_id : ℕ) → PendingChain
pending_chain acl entry id = record {
  rpc_url = entry.rpc_url;
  timeout_ms = unwrap_or entry.timeout_ms 5000;
  address_book = acl.address_book;
  task_manager_id = id;
  retries = unwrap_or entry.retries 2;
}

-- The loop over the entries, in the order in which the map gives them.
unfoldable pub collect_chains :
    AclPolicy
    → List (Bytes × ChainEntry)
    → List (ℕ × PendingChain)
    → Result BootError (List (ℕ × PendingChain))
collect_chains acl [] chains = ok chains
collect_chains acl ((key, entry) ∷ entries) chains =
    ok_or (bad_chain_id key) (parse_u64 key) >>= λ chain_id.
    ok_or (chain_not_baked chain_id) (task_manager_id acl chain_id) >>= λ id.
    collect_chains acl entries (insert chain_id (pending_chain acl entry id) chains)

unfoldable pub parse_permit_chains :
    (from_json : Bytes → Result String (List (Bytes × ChainEntry)))
    → Vars
    → AclPolicy
    → Result BootError (Option (List (ℕ × PendingChain)))
parse_permit_chains from_json vars acl = elim (vars "PERMIT_CHAINS_JSON") [
  | none ↦ ok none
  | some raw ↦ map_err bad_chains_json (from_json raw) >>= λ entries.
      if is_empty entries
      then ok none
      else collect_chains acl entries [] >>= λ chains. ok (some chains)
]

-- `env_or(key, default).parse().context(..)`
unfoldable pub number_or : Vars → String → (default : ℕ) → Result BootError ℕ
number_or vars key default = elim (vars key) [
  | none ↦ ok default
  | some raw ↦ ok_or (bad_value key) (parse_u64 raw)
]

abbrev pub min_timeout_ms : ℕ
min_timeout_ms = 50

-- A request path's view of the verifier, with its empty cache and its contract's address.
pub record Verifier (C : Type 0) : Type 0 where
  pub config : CommitmentConfig
  pub registry : ℕ
  pub cache : C

module _ {C : Type 0} (lru : Lru Key CacheEntry C) (hex : Hex)
    (parse_address : Bytes → Result String ℕ) (parse_url : Bytes → Result String (Unit {0})) where
  -- `CommitmentConfig::new(..)` and `with_warn_only`
  unfoldable pub new_verifier :
      (rpc_url : Bytes)
      → (registry version timeout_ms cache_size cache_ttl_secs : ℕ) → (warn_only : Bool)
      → Result BootError (Verifier C)
  new_verifier rpc_url registry version timeout_ms cache_size cache_ttl_secs warn_only =
      map_err bad_registry_url (parse_url rpc_url) >>= λ url. ok (record {
        config = record {
          version = version;
          timeout_ms = timeout_ms;
          warn_only = warn_only;
          cache_ttl = cache_ttl_secs;
        };
        registry = registry;
        cache = lru.new cache_size;
      })

  -- Past the test of the URL.
  unfoldable pub read_verifier : Vars → EnvPolicy → Bytes → Result BootError (Verifier C)
  read_verifier vars policy rpc_url = do
    commitment ← ok_or no_commitment_policy policy.commitment
    registry ← map_err bad_registry_address (parse_address commitment.registry_address)
    version ← map_err (λ e. bad_version) (parse_version hex commitment.version)
    timeout_ms ← number_or vars "COMMITMENT_TIMEOUT_MS" 5000
    u ← if ltb timeout_ms min_timeout_ms then err (timeout_too_small timeout_ms) else ok (tt {0})
    cache_size ← number_or vars "COMMITMENT_CACHE_SIZE" 100000
    u' ← if cache_size == 0 then err zero_cache_size else ok (tt {0})
    cache_ttl ← number_or vars "COMMITMENT_CACHE_TTL_SECS" 3600
    u'' ← if cache_ttl == 0 then err zero_cache_ttl else ok (tt {0})
    new_verifier rpc_url registry version timeout_ms cache_size cache_ttl
        commitment.warning_instead_of_enforcement

  unfoldable pub parse_commitment_config : Vars → EnvPolicy → Result BootError (Option (Verifier C))
  parse_commitment_config vars policy = elim (vars "COMMITMENT_REGISTRY_RPC_URL") [
    | none ↦ ok none
    | some [] ↦ ok none
    | some (c ∷ cs) ↦ read_verifier vars policy (c ∷ cs) >>= λ v. ok (some v)
  ]

-- What the program reads of the baked entry of `cofhe_keys`.
pub record EnvConfig : Type 0 where
  pub shamir_threshold : ℕ
  pub partners : ℕ

-- `min_threshold` is the constant of `cofhe_keys`.
unfoldable pub validate_threshold :
    (min_threshold threshold partner_count : ℕ) → Result BootError (Unit {0})
validate_threshold min_threshold threshold partner_count =
    if ltb threshold min_threshold
    then err (threshold_too_small threshold)
    else if ltb partner_count threshold
    then err (threshold_too_large threshold)
    else ok tt

pub record Config (C : Type 0) : Type 0 where
  pub env : Bytes
  pub env_cfg : EnvConfig
  pub threshold : ℕ
  pub ct_source_url : Bytes
  pub getct_timeout_ms : ℕ
  pub require_permit : Bool
  pub acp_verifier : Option Chains
  pub acp_pending : Option (List (ℕ × PendingChain))
  pub enable_commitment_verification : Bool
  pub commitment_verifier : Option (Verifier C)
  pub decrypt_concurrency : ℕ
  pub max_inflight : ℕ
  pub metrics_push : Bool

-- What the start calls of other crates and of the machine.
pub record Host : Type 0 where
  pub vars : Vars
  pub lookup : (env : Bytes) → Option EnvConfig
  pub min_threshold : ℕ
  pub include_str : BakedEnv → Bytes
  pub from_toml : Bytes → Result String Document
  pub from_json : Bytes → Result String (List (Bytes × ChainEntry))
  pub parse_url : Bytes → Result String (Unit {0})
  pub parse_address : Bytes → Result String ℕ
  pub available_parallelism : Option ℕ
  -- What `getTm(id)` of the book at an address answers to an attempt, over the RPC of a URL.
  pub get_tm : (rpc_url : Bytes) → (book id attempt : ℕ) → Reply BookError ℕ

abbrev pub require : Bool → BootError → Result BootError (Unit {0})
require true e = ok tt
require false e = err e

module _ {C : Type 0} (lru : Lru Key CacheEntry C) (hex : Hex) (host : Host) where
  unfoldable pub concurrency : Result BootError ℕ
  concurrency = elim (host.vars "DECRYPT_CONCURRENCY") [
    | some raw ↦ ok_or (bad_value "DECRYPT_CONCURRENCY") (parse_u64 raw)
    | none ↦ ok (unwrap_or host.available_parallelism 1)
  ]

  -- The two gates as the policy wants them; a gate that is on and not configured stops the start.
  unfoldable pub read_gates :
      EnvPolicy → Result BootError (Option (List (ℕ × PendingChain)) × Option (Verifier C))
  read_gates policy = do
    pending ← parse_permit_chains host.from_json host.vars policy.acl
    u ← require (not (policy.require_permit && not (is_some pending))) permit_not_configured
    verifier ← parse_commitment_config lru hex host.parse_address host.parse_url host.vars policy
    u' ←
        require (not (policy.enable_commitment_verification && not (is_some verifier)))
          commitment_not_configured
    ok (pending, verifier)

  unfoldable pub from_env : Result BootError (Config C)
  from_env = do
    getct_timeout ← number_or host.vars "GETCT_TIMEOUT_MS" 5000
    env ← ok_or (not_set "COFHE_ENV") (host.vars "COFHE_ENV")
    env_cfg ← ok_or unknown_env (host.lookup env)
    policy ← for_env host.from_toml host.include_str env
    (pending, verifier) ← read_gates policy
    decrypt_concurrency ← concurrency
    max_inflight ← number_or host.vars "MAX_INFLIGHT" 1000
    u ← validate_threshold host.min_threshold env_cfg.shamir_threshold env_cfg.partners
    ct_source_url ← ok_or (not_set "CT_SOURCE_URL") (host.vars "CT_SOURCE_URL")
    ok (record {
      env = env;
      env_cfg = env_cfg;
      threshold = env_cfg.shamir_threshold;
      ct_source_url = ct_source_url;
      getct_timeout_ms = getct_timeout;
      require_permit = policy.require_permit;
      acp_verifier = none;
      acp_pending = pending;
      enable_commitment_verification = policy.enable_commitment_verification;
      commitment_verifier = verifier;
      decrypt_concurrency = decrypt_concurrency;
      max_inflight = max_inflight;
      metrics_push = policy.metrics_push;
    })

-- `ChainsVerifierConfig::resolve`: the first chain that fails stops the walk.
module _ (host : Host) where
  unfoldable pub resolve_chain : PendingChain → Result AcpError ChainConfig
  resolve_chain p =
      resolve host.parse_url (host.get_tm p.rpc_url p.address_book p.task_manager_id) p.rpc_url
        p.timeout_ms p.retries

  unfoldable pub resolve_chains : List (ℕ × PendingChain) → Chains → Result BootError Chains
  resolve_chains [] chains = ok chains
  resolve_chains ((id, p) ∷ pending) chains =
      map_err (λ e. unresolved_chain id) (resolve_chain p) >>= λ cfg.
      resolve_chains pending (insert id cfg chains)

  -- the chains that `take` took out of the configuration
  unfoldable pub resolve_pending :
      {C : Type 0} → Option (List (ℕ × PendingChain)) → Config C → Result BootError (Config C)
  resolve_pending none cfg = ok cfg
  resolve_pending (some pending) cfg =
      let taken = record cfg { acp_pending = none } in
      if not cfg.require_permit
      then ok taken
      else resolve_chains pending [] >>= λ chains. ok (record taken { acp_verifier = some chains })

  unfoldable pub resolve_acp : {C : Type 0} → Config C → Result BootError (Config C)
  unfolding resolve_pending
  resolve_acp cfg = resolve_pending cfg.acp_pending cfg
