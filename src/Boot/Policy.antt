-- ===== src/Boot/Policy.antt =====
-- src/env_policy.rs: the security policy that is baked for an environment.
use teecryptor.Prelude.{
  ℕ, Bool, true, false, not, ◌&&◌, Option, none, some, List, [], ◌∷◌, String, Result, ok, err,
  ◌>>=◌, ◌>>◌, map_err, ok_or, or_else, if◌then◌else◌, Bytes, eq_bytes,
}
use teecryptor.Boot.Numbers.{parse_u64, to_string}

-- What keeps the process from starting; `panicked` is an `expect` that fires.
pub data BootError : Type 0 where
  not_set : (var : String) → BootError
  bad_value : (var : String) → BootError
  unknown_env : BootError
  bad_toml : String → BootError
  switch_disagrees : BootError
  bad_policy_key : Bytes → BootError
  no_task_manager_ids : BootError
  bad_chains_json : String → BootError
  bad_chain_id : Bytes → BootError
  chain_not_baked : ℕ → BootError
  permit_not_configured : BootError
  no_commitment_policy : BootError
  bad_registry_address : String → BootError
  bad_version : BootError
  bad_registry_url : String → BootError
  timeout_too_small : ℕ → BootError
  zero_cache_size : BootError
  zero_cache_ttl : BootError
  commitment_not_configured : BootError
  threshold_too_small : ℕ → BootError
  threshold_too_large : ℕ → BootError
  unresolved_chain : ℕ → BootError
  bad_signer_length : ℕ → BootError
  no_keys : String → BootError
  bad_ct_source : String → BootError
  registry_unreachable : BootError
  panicked : BootError

-- `COFHE_ADDRESS_BOOK`
abbrev pub cofhe_address_book : ℕ
cofhe_address_book = 0xC0F4e00E531a2B086492Ae3DCC1515038307196b

pub record AclPolicy : Type 0 where
  pub address_book : ℕ
  pub task_manager_ids : List (Bytes × ℕ)
  pub default_task_manager_id : Option ℕ

pub record CommitmentPolicy : Type 0 where
  pub version : Bytes
  pub registry_address : Bytes
  pub warning_instead_of_enforcement : Bool

pub record EnvPolicy : Type 0 where
  pub require_permit : Bool
  pub enable_commitment_verification : Bool
  pub commitment : Option CommitmentPolicy
  pub metrics_push : Bool
  pub acl : AclPolicy

-- What a document may set: the fields of the policy without those that serde skips.
pub record Document : Type 0 where
  pub require_permit : Bool
  pub enable_commitment_verification : Bool
  pub commitment : Option CommitmentPolicy
  pub metrics_push : Bool
  pub task_manager_ids : List (Bytes × ℕ)

unfoldable pub of_document : Document → EnvPolicy
of_document doc = record {
  require_permit = doc.require_permit;
  enable_commitment_verification = doc.enable_commitment_verification;
  commitment = doc.commitment;
  metrics_push = doc.metrics_push;
  acl = record {
    address_book = cofhe_address_book;
    task_manager_ids = doc.task_manager_ids;
    default_task_manager_id = none;
  };
}

-- `BTreeMap::get` on text keys
unfoldable pub get_id : List (Bytes × ℕ) → Bytes → Option ℕ
get_id [] key = none
get_id ((k, id) ∷ ids) key = if eq_bytes k key then some id else get_id ids key

unfoldable pub task_manager_id : AclPolicy → (chain_id : ℕ) → Option ℕ
task_manager_id acl chain_id =
    or_else (get_id acl.task_manager_ids (to_string chain_id)) acl.default_task_manager_id

abbrev pub is_some {ℓ} : {A : Type ℓ} → Option A → Bool
is_some none = false
is_some (some a) = true

abbrev pub eq_bool : Bool → Bool → Bool
eq_bool true b = b
eq_bool false b = not b

abbrev pub is_empty {ℓ} : {A : Type ℓ} → List A → Bool
is_empty [] = true
is_empty (x ∷ xs) = false

unfoldable pub check_keys : List (Bytes × ℕ) → Result BootError (Unit {0})
check_keys [] = ok tt
check_keys ((key, id) ∷ ids) =
    ok_or (bad_policy_key key) (parse_u64 key) >>= λ chain. check_keys ids

-- The checks behind the reading of the document.
unfoldable pub validate : EnvPolicy → Result BootError EnvPolicy
validate policy =
    if not (eq_bool policy.enable_commitment_verification (is_some policy.commitment))
    then err switch_disagrees
    else check_keys policy.acl.task_manager_ids
      >> (if policy.require_permit && is_empty policy.acl.task_manager_ids
          then err no_task_manager_ids
          else ok policy)

-- The environments that a policy is baked for.
pub data BakedEnv : Type 0 where
  staging testnet mainnet : BakedEnv

unfoldable pub select : Bytes → Option BakedEnv
select env =
    if eq_bytes env (b's' ∷ b't' ∷ b'a' ∷ b'g' ∷ b'i' ∷ b'n' ∷ b'g' ∷ [])
    then some staging
    else if eq_bytes env (b't' ∷ b'e' ∷ b's' ∷ b't' ∷ b'n' ∷ b'e' ∷ b't' ∷ [])
    then some testnet
    else if eq_bytes env (b'm' ∷ b'a' ∷ b'i' ∷ b'n' ∷ b'n' ∷ b'e' ∷ b't' ∷ [])
    then some mainnet
    else none

module _ (from_str : Bytes → Result String Document) where
  unfoldable pub parse_policy : (raw : Bytes) → Result BootError EnvPolicy
  parse_policy raw = map_err bad_toml (from_str raw) >>= λ doc. validate (of_document doc)

  -- `include_str` is the compiled-in text of an environment.
  unfoldable pub for_env :
      (include_str : BakedEnv → Bytes) → (env : Bytes) → Result BootError EnvPolicy
  for_env include_str env =
      ok_or unknown_env (select env) >>= λ baked. parse_policy (include_str baked)
