-- ===== src/Permit/Verify.antt =====
-- src/permit.rs: the decision of an ACP by the chain's TaskManager, and the offline check.
use teecryptor.Prelude.{
  ℕ, Bool, true, false, Option, none, some, List, [], ◌∷◌, String, Result, ok, err, ◌>>=◌, ok_or,
  map_err, ltb, ◌==◌, if◌then◌else◌, Bytes,
}
use teecryptor.External.Hex.{Hex}
use teecryptor.External.Rpc.{Reply, elapsed, failed, returned}
use teecryptor.Permit.Acp.{
  AcpData, Acp, AcpError, malformed, signature, denied, expired, bad_signature, unknown_chain,
  timeout, transport, try_from,
}

pub record ChainConfig : Type 0 where
  pub rpc_url : Bytes
  pub task_manager : ℕ
  pub timeout_ms : ℕ

-- `ChainsVerifierConfig`: the configurations by chain id.
abbrev pub Chains : Type 0
Chains = List (ℕ × ChainConfig)

unfoldable pub get_chain : Chains → ℕ → Option ChainConfig
get_chain [] id = none
get_chain ((k, cfg) ∷ chains) id = if k == id then some cfg else get_chain chains id

-- The errors of a contract call, as far as the interfaces of the ACL and the TaskManager decode
-- them; the ACL is tried first.
pub data ContractError : Type 0 where
  acl_expired acl_issuer_signature acl_recipient_signature acl_disabled : ContractError
  acl_other : String → ContractError
  task_manager_revert : String → ContractError
  undecoded : String → ContractError

unfoldable pub map_contract_error : ContractError → AcpError
map_contract_error acl_expired = expired
map_contract_error acl_issuer_signature = bad_signature
map_contract_error acl_recipient_signature = bad_signature
map_contract_error acl_disabled = denied
map_contract_error (acl_other e) = transport e
map_contract_error (task_manager_revert e) = transport e
map_contract_error (undecoded e) = transport e

-- The TaskManager contracts as a request meets them, each by the RPC that is asked and its address: what
-- `isAllowedWithPermission(acp, handle)` and `isPubliclyAllowed(handle)` answer.
pub record TaskManager : Type 0 where
  pub is_allowed_with_permission :
      (rpc_url : Bytes) (address : ℕ) → Acp → ℕ → Reply ContractError Bool
  pub is_publicly_allowed : (rpc_url : Bytes) (address : ℕ) → ℕ → Reply ContractError Bool

-- The `match` on the bounded call, which both verifiers share.
unfoldable pub judge : ChainConfig → Reply ContractError Bool → Result AcpError (Unit {0})
judge cfg elapsed = err (timeout cfg.timeout_ms)
judge cfg (returned true) = ok tt
judge cfg (returned false) = err denied
judge cfg (failed e) = err (map_contract_error e)

unfoldable pub verify_publicly_allowed :
    TaskManager → Chains → (handle host_chain_id : ℕ) → Result AcpError (Unit {0})
verify_publicly_allowed tm chains handle id = do
  cfg ← ok_or (unknown_chain id) (get_chain chains id)
  judge cfg (tm.is_publicly_allowed cfg.rpc_url cfg.task_manager handle)

module _ (hex : Hex) (parse_address : Bytes → Result String ℕ) where
  unfoldable pub verify_via_taskmanager :
      TaskManager → Chains → AcpData → (handle host_chain_id : ℕ) → Result AcpError (Unit {0})
  verify_via_taskmanager tm chains acp handle id = do
    cfg ← ok_or (unknown_chain id) (get_chain chains id)
    permission ← try_from hex parse_address acp
    judge cfg (tm.is_allowed_with_permission cfg.rpc_url cfg.task_manager permission handle)

-- `ACPIssuerSelf`: the nine fields that the issuer signs.
pub record AcpIssuerSelf : Type 0 where
  pub issuer : ℕ
  pub expiration : ℕ
  pub recipient : ℕ
  pub revoker_data : ℕ
  pub revoker_contract : ℕ
  pub scope : ℕ
  pub contracts : List ℕ
  pub handles : List ℕ
  pub sealing_key : ℕ

-- `impl From<&ACP> for ACPIssuerSelf`
unfoldable pub from_acp : Acp → AcpIssuerSelf
from_acp a = record {
  issuer = a.issuer;
  expiration = a.expiration;
  recipient = a.recipient;
  revoker_data = a.revoker_data;
  revoker_contract = a.revoker_contract;
  scope = a.scope;
  contracts = a.contracts;
  handles = a.handles;
  sealing_key = a.sealing_key;
}

pub record Eip712Domain : Type 0 where
  pub name : String
  pub version : String
  pub chain_id : ℕ
  pub verifying_contract : ℕ

-- `eip712_domain!` of the ACL
unfoldable pub acl_domain : (chain_id verifying_contract : ℕ) → Eip712Domain
acl_domain chain_id contract = record {
  name = "ACL";
  version = "2";
  chain_id = chain_id;
  verifying_contract = contract;
}

-- What `verify_local` calls of `alloy`: the EIP-712 digest of the signed struct in a domain, the
-- reading of a signature, and the recovery of its signer.
pub record Eip712 (Signature : Type 0) : Type 0 where
  pub signing_hash : AcpIssuerSelf → Eip712Domain → ℕ
  pub read_signature : Bytes → Result String Signature
  pub recover : Signature → ℕ → Option ℕ

module _ (hex : Hex) (parse_address : Bytes → Result String ℕ) {Signature : Type 0}
    (eip : Eip712 Signature) where
  -- behind the expiration test
  unfoldable pub check_signature : Acp → (chain_id contract : ℕ) → Result AcpError (Unit {0})
  unfolding from_acp acl_domain
  check_signature permission chain_id contract = do
    sig ← map_err (λ e. malformed (signature e)) (eip.read_signature permission.issuer_signature)
    recovered ←
        ok_or bad_signature
          (eip.recover sig (eip.signing_hash (from_acp permission) (acl_domain chain_id contract)))
    (if recovered == permission.issuer then ok tt else err bad_signature)

  unfoldable pub verify_local :
      AcpData → (chain_id contract now_unix : ℕ) → Result AcpError (Unit {0})
  verify_local acp chain_id contract now_unix =
      if ltb acp.expiration now_unix
      then err expired
      else try_from hex parse_address acp >>= λ permission.
          check_signature permission chain_id contract
