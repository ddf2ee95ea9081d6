-- ===== src/Permit/Tests.antt =====
-- A presented ACP, a TaskManager that accepts it for one handle, and the theorems at them.
use teecryptor.Prelude.{
  ℕ, ◌+◌, ◌-◌, ◌≤◌, ◌≡◌, ◌≢◌, ◌↔◌, refl, true, some, [], ◌∷◌, ◌++◌, replicate, String, Result, ok,
  err, ◌==◌, if◌then◌else◌, Bytes, lower_0x,
}
use teecryptor.External.Hex.{digit_value, hex_value}
use teecryptor.External.Rpc.{Reply, elapsed, returned}
use teecryptor.External.Samples.{sample_hex}
use teecryptor.Permit.Acp.{
  AcpData, Acp, denied, unknown_chain, expired, timeout, try_from, parse_addr, parse_b32,
  parse_b32_digits, parse_all, build_acp,
}
use teecryptor.Permit.AcpLaws.{IsCarried, try_from-IsCarried}
use teecryptor.Permit.Verify.{
  ChainConfig, Chains, get_chain, TaskManager, judge, verify_publicly_allowed,
  verify_via_taskmanager, Eip712, from_acp, acl_domain, check_signature, verify_local,
}
use teecryptor.Permit.Resolve.{BookError, book_answer, query_book, resolve}
use teecryptor.Permit.Resolve.Laws.{IsFound, resolve_iff}
use teecryptor.Permit.VerifyLaws.{
  verify_publicly_allowed_iff, verify_via_taskmanager_iff, verify_local_sound,
}

abbrev pub read_address : Bytes → Result String ℕ
read_address s = ok 17

abbrev pub acp_data : AcpData
acp_data = record {
  issuer = b'a' ∷ [];
  expiration = 100;
  recipient = [];
  revoker_data = 0;
  revoker_contract = [];
  scope = 0;
  contracts = (b'c' ∷ []) ∷ [];
  handles = (b'2' ∷ b'0' ∷ b'0' ∷ []) ∷ [];
  sealing_key = lower_0x ++ replicate 64 b'1';
  issuer_signature = 1 ∷ [];
  recipient_signature = [];
}

abbrev chain : ChainConfig
chain = record { rpc_url = []; task_manager = 5; timeout_ms = 3 }

abbrev pub chains : Chains
chains = (1, chain) ∷ []

-- Handle 512 is allowed, publicly and to the issuer 17.
abbrev pub task_manager : TaskManager
task_manager = record {
  is_allowed_with_permission =
      λ rpc address acp handle. if handle == 512 then returned (acp.issuer == 17) else elapsed;
  is_publicly_allowed = λ rpc address handle. returned (handle == 512);
}

runs : Unit {0}
unfolding try_from parse_addr parse_b32 parse_b32_digits parse_all build_acp digit_value get_chain
    judge verify_publicly_allowed verify_via_taskmanager verify_local check_signature from_acp
    acl_domain
runs = tt

public_run : verify_publicly_allowed task_manager chains 512 1 ≡ ok tt
unfolding runs
public_run = refl

public_denied : verify_publicly_allowed task_manager chains 8 1 ≡ err denied
unfolding runs
public_denied = refl

presented_run :
    verify_via_taskmanager sample_hex read_address task_manager chains acp_data 512 1 ≡ ok tt
unfolding runs
presented_run = refl

presented_elsewhere :
    verify_via_taskmanager sample_hex read_address task_manager chains acp_data 512 2
    ≡ err (unknown_chain 2)
unfolding runs
presented_elsewhere = refl

-- The digest adds the issuer to the chain and the contract of the domain.
abbrev eip : Eip712 ℕ
eip = record {
  signing_hash = λ signed domain. signed.issuer + domain.chain_id + domain.verifying_contract;
  read_signature = λ bytes. ok 0;
  recover = λ sig digest. some (digest - 6 + sig);
}

local_run : verify_local sample_hex read_address eip acp_data 1 5 100 ≡ ok tt
unfolding runs
local_run = refl

local_late : verify_local sample_hex read_address eip acp_data 1 5 101 ≡ err expired
unfolding runs
local_late = refl

verify_publicly_allowed_iff_example :
    (verify_publicly_allowed task_manager chains 512 1 ≡ ok tt) ↔ (
      (cfg : ChainConfig) × (get_chain chains 1 ≡ some cfg)
      × (task_manager.is_publicly_allowed cfg.rpc_url cfg.task_manager 512 ≡ returned true))
verify_publicly_allowed_iff_example = verify_publicly_allowed_iff task_manager chains 512 1

verify_via_taskmanager_iff_example :
    (verify_via_taskmanager sample_hex read_address task_manager chains acp_data 512 1 ≡ ok tt) ↔ (
      (cfg : ChainConfig) × (permission : Acp) × (get_chain chains 1 ≡ some cfg)
      × (try_from sample_hex read_address acp_data ≡ ok permission)
      × (task_manager.is_allowed_with_permission cfg.rpc_url cfg.task_manager permission 512
          ≡ returned true))
verify_via_taskmanager_iff_example =
    verify_via_taskmanager_iff sample_hex read_address task_manager chains acp_data 512 1

verify_local_sound_example :
    (100 ≤ acp_data.expiration)
    × ((permission : Acp) × (sig : ℕ) × (try_from sample_hex read_address acp_data ≡ ok permission)
        × (eip.read_signature permission.issuer_signature ≡ ok sig)
        × (eip.recover sig (
              eip.signing_hash
                (record {
                  issuer = permission.issuer;
                  expiration = acp_data.expiration;
                  recipient = permission.recipient;
                  revoker_data = acp_data.revoker_data;
                  revoker_contract = permission.revoker_contract;
                  scope = acp_data.scope;
                  contracts = permission.contracts;
                  handles = permission.handles;
                  sealing_key = permission.sealing_key;
                })
                (record { name = "ACL"; version = "2"; chain_id = 1; verifying_contract = 5 }))
            ≡ some permission.issuer)
        × IsCarried sample_hex read_address acp_data permission)
verify_local_sound_example =
    verify_local_sound sample_hex read_address eip acp_data 1 5 100 local_run

abbrev acp : Acp
acp = record {
  issuer = 17;
  expiration = 100;
  recipient = 0;
  revoker_data = 0;
  revoker_contract = 0;
  scope = 0;
  contracts = 17 ∷ [];
  handles = 512 ∷ [];
  sealing_key = hex_value (replicate 64 b'1');
  issuer_signature = 1 ∷ [];
  recipient_signature = [];
}

parsed : try_from sample_hex read_address acp_data ≡ ok acp
unfolding runs
parsed = refl

try_from-IsCarried_example : IsCarried sample_hex read_address acp_data acp
try_from-IsCarried_example = try_from-IsCarried sample_hex read_address acp_data acp parsed

-- The book is late once, and then names the TaskManager 5.
abbrev replies : ℕ → Reply BookError ℕ
replies attempt = if attempt == 0 then elapsed else returned 5

resolve_run : resolve (λ url. ok tt) replies [] 3 1 ≡ ok chain
unfolding resolve query_book book_answer
resolve_run = refl

resolve_out_of_retries : resolve (λ url. ok tt) replies [] 3 0 ≡ err (timeout 3)
unfolding resolve query_book book_answer
resolve_out_of_retries = refl

resolve_iff_example : (resolve (λ url. ok tt) replies [] 3 1 ≡ ok chain) ↔ (
    (address : ℕ) × (◌≡◌ {A = Result String (Unit {0})} (ok tt) (ok tt))
    × IsFound replies address 1 0
    × (address ≢ 0)
    × (chain ≡ record { rpc_url = []; task_manager = address; timeout_ms = 3 }))
resolve_iff_example = resolve_iff (λ url. ok tt) replies [] 3 1 chain
