-- ===== src/Boot/Tests.antt =====
-- A start in the environment "staging" with one chain and a registry, and the theorems at it.
use text.Mathlib.Text.{◌==◌}
use teecryptor.Prelude.{
  ℕ, zero, suc, ◌≡◌, refl, ◌||◌, ◌⊎◌, true, false, none, some, List, [], ◌∷◌, ◌++◌, replicate,
  String, Result, ok, err, ◌>>=◌, Bytes, lower_0x, eq_bytes, if◌then◌else◌,
}
use teecryptor.External.AssocLru.{assoc_lru}
use teecryptor.External.Samples.{sample_hex}
use teecryptor.External.Rpc.{Reply, elapsed, returned}
use teecryptor.Commitment.Tests.{eq_key, eq_key_iff, Cache}
use teecryptor.DirectDecrypt.Tests.{key}
use teecryptor.External.Hex.{digit_value}
use teecryptor.Keys.{load}
use teecryptor.Permit.Resolve.{resolve, query_book, book_answer}
use teecryptor.Commitment.Version.{parse_version, parse_digits}
use teecryptor.Commitment.Cache.{settle, probe_registry}
use teecryptor.Boot.Numbers.{parse_u64, to_string, parse_decimal}
use teecryptor.Boot.Policy.{
  registry_unreachable, Document, EnvPolicy, for_env, cofhe_address_book, select, parse_policy,
  validate, of_document, check_keys, task_manager_id, get_id,
}
use teecryptor.Boot.Config.{
  Host, Config, Vars, from_env, resolve_acp, number_or, concurrency, read_gates,
  parse_permit_chains, collect_chains, pending_chain, insert, parse_commitment_config,
  read_verifier, new_verifier, validate_threshold, resolve_chains, resolve_chain,
}
use teecryptor.Boot.PanicLaws.{install-ok}
use teecryptor.Boot.Start.{
  Vault, App, PartnerAccess, PartnerRef, Federation, boot, assemble_app, load_keys,
  load_partner_tokens, pair_tokens, find_partner, assemble, install_acp, install_commitment,
}

abbrev staging_name : Bytes
staging_name = b's' ∷ b't' ∷ b'a' ∷ b'g' ∷ b'i' ∷ b'n' ∷ b'g' ∷ []

abbrev vars : Vars
vars name =
    if name == "COFHE_ENV"
    then some staging_name
    else if name == "PERMIT_CHAINS_JSON"
        || name == "COMMITMENT_REGISTRY_RPC_URL"
        || name == "CT_SOURCE_URL"
    then some (b'u' ∷ [])
    else none

-- The policy of the environment: both gates on, the chain 1 with the TaskManager id 1.
abbrev document : Document
document = record {
  require_permit = true;
  enable_commitment_verification = true;
  commitment = some (record {
    version = lower_0x ++ (replicate 63 b'0' ++ b'2' ∷ []);
    registry_address = b'r' ∷ [];
    warning_instead_of_enforcement = false;
  });
  metrics_push = false;
  task_manager_ids = (b'1' ∷ [], 1) ∷ [];
}

-- The book answers the second attempt.
abbrev host : Host
host = record {
  vars = vars;
  lookup = λ env. some (record { shamir_threshold = 2; partners = 2 });
  min_threshold = 2;
  include_str = λ env. [];
  from_toml = λ raw. ok document;
  from_json = λ raw.
      ok ((b'1' ∷ [], record { rpc_url = b'u' ∷ []; timeout_ms = none; retries = none }) ∷ []);
  parse_url = λ url. ok tt;
  parse_address = λ s. ok 17;
  available_parallelism = some 4;
  get_tm = λ url book id attempt. elim attempt [ zero ↦ elapsed | suc n ↦ returned 5 ];
}

-- Two partners, the second of which cannot federate.
abbrev partners : List PartnerRef
partners =
    record { project_id = 1 ∷ []; wip_audience = 1 ∷ [] }
    ∷ record { project_id = 2 ∷ []; wip_audience = 2 ∷ [] }
    ∷ []

abbrev fed : Federation
fed = record {
  fetch_token = λ audience. if eq_bytes audience (1 ∷ []) then ok (9 ∷ []) else err "down";
  exchange = λ audience jwt. ok jwt;
}

abbrev vault : Vault (Unit {0}) (Unit {0})
vault = record {
  partners = partners;
  federation = fed;
  read_fhe_priv =
      λ accesses threshold. ok (record { client_key = []; decrypt_signer_priv = replicate 32 1 });
  deserialize = λ bytes limit. ok tt;
  from_client_key = λ ck. ok key;
  signer_from_bytes = λ bytes. ok tt;
}

abbrev version_status : ℕ → ℕ → Reply String ℕ
version_status registry version = returned 1

abbrev new_ct_source : Bytes → ℕ → Result String (Unit {0})
new_ct_source url timeout_ms = ok tt

abbrev app : App (Unit {0}) (Unit {0}) Cache
app = record {
  keys = record { zone_0 = tt; zone_0_direct = key };
  signer = some tt;
  acp_verifier =
      some ((1, record { rpc_url = b'u' ∷ []; task_manager = 5; timeout_ms = 5000 }) ∷ []);
  commitment_verifier = some (record {
    config = record { version = 2; timeout_ms = 5000; warn_only = false; cache_ttl = 3600 };
    registry = 17;
    cache = (100000, []);
  });
  decrypt_permits = 4;
  admit_permits = 1000;
  ready = true;
}

starts : Unit {0}
unfolding boot assemble_app load_keys load_partner_tokens pair_tokens find_partner assemble
    install_acp install_commitment from_env resolve_acp number_or concurrency read_gates
    parse_permit_chains collect_chains pending_chain insert parse_commitment_config read_verifier
    new_verifier validate_threshold resolve_chains resolve_chain for_env select parse_policy
    validate of_document check_keys task_manager_id get_id parse_u64 parse_decimal to_string load
    resolve query_book book_answer parse_version parse_digits digit_value settle probe_registry
starts = tt

abbrev resolved : Config Cache
resolved = record {
  env = staging_name;
  env_cfg = record { shamir_threshold = 2; partners = 2 };
  threshold = 2;
  ct_source_url = b'u' ∷ [];
  getct_timeout_ms = 5000;
  require_permit = true;
  acp_verifier = app.acp_verifier;
  acp_pending = none;
  enable_commitment_verification = true;
  commitment_verifier = app.commitment_verifier;
  decrypt_concurrency = 4;
  max_inflight = 1000;
  metrics_push = false;
}

configured :
    from_env (assoc_lru eq_key eq_key_iff) sample_hex host >>= resolve_acp host ≡ ok resolved
unfolding starts
configured = refl

abbrev bare : App (Unit {0}) (Unit {0}) Cache
bare = record app { acp_verifier = none; commitment_verifier = none; ready = false }

install-ok_example :
    ((out : App (Unit {0}) (Unit {0}) Cache) × (install_acp resolved bare ≡ ok out))
    × (((out : App (Unit {0}) (Unit {0}) Cache) × (install_commitment version_status resolved bare
            ≡ ok out))
        ⊎ (install_commitment version_status resolved bare ≡ err registry_unreachable))
    × ((accesses : List PartnerAccess) × (pair_tokens partners (load_partner_tokens fed partners).0
          ≡ ok accesses))
install-ok_example =
    install-ok (assoc_lru eq_key eq_key_iff) sample_hex host version_status fed partners resolved
      bare configured

abbrev policy : EnvPolicy
policy = record {
  require_permit = true;
  enable_commitment_verification = true;
  commitment = document.commitment;
  metrics_push = false;
  acl = record {
    address_book = cofhe_address_book;
    task_manager_ids = (b'1' ∷ [], 1) ∷ [];
    default_task_manager_id = none;
  };
}
