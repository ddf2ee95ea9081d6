-- ===== src/Boot/Start.antt =====
-- src/main.rs: `main` up to the moment where the process is ready, with `load_keys` (and
-- src/boot.rs, src/key_source.rs), and the builders of src/http.rs.
use teecryptor.Prelude.{
  ℕ, Bool, true, false, not, Option, none, some, List, [], ◌∷◌, String, Result, ok, err, ◌>>=◌,
  map_err, ok_or, leb, ◌==◌, if◌then◌else◌, Bytes, eq_bytes, length,
}
use teecryptor.External.Hex.{Hex}
use teecryptor.External.Lru.{Lru}
use teecryptor.External.Rpc.{Reply}
use teecryptor.Commitment.Cache.{Key, CacheEntry, probe_registry}
use teecryptor.DirectDecrypt.Mirror.{DirectDecryptKey}
use teecryptor.Permit.Verify.{Chains}
use teecryptor.Keys.{KeyStore, load}
use teecryptor.Http.Fetch.{AppState}
use teecryptor.Boot.Policy.{
  BootError, bad_signer_length, no_keys, bad_ct_source, registry_unreachable, panicked,
}
use teecryptor.Boot.Config.{Config, Host, Verifier, from_env, resolve_acp}

-- A partner of the baked set, and the token that authorises the read of its share.
pub record PartnerRef : Type 0 where
  pub project_id : Bytes
  pub wip_audience : Bytes

pub record PartnerToken : Type 0 where
  pub project_id : Bytes
  pub sm_token : Bytes

pub record PartnerAccess : Type 0 where
  pub partner : PartnerRef
  pub sm_token : Bytes

-- The attestation socket and the token exchange, each bounded by its timeout.
pub record Federation : Type 0 where
  pub fetch_token : (audience : Bytes) → Result String Bytes
  pub exchange : (audience jwt : Bytes) → Result String Bytes

-- A token is pushed, or the project is excluded.
unfoldable pub add_token :
    PartnerRef
    → Result String Bytes
    → List PartnerToken × List Bytes
    → List PartnerToken × List Bytes
add_token p (ok token) (tokens, failed) =
    (record { project_id = p.project_id; sm_token = token } ∷ tokens, failed)
add_token p (err e) (tokens, failed) = (tokens, p.project_id ∷ failed)

module _ (fed : Federation) where
  unfoldable pub partner_token : PartnerRef → Result String Bytes
  partner_token partner =
      fed.fetch_token partner.wip_audience >>= λ jwt. fed.exchange partner.wip_audience jwt

  -- The tokens in the order of the partners, and the projects of those that failed.
  unfoldable pub load_partner_tokens : List PartnerRef → List PartnerToken × List Bytes
  unfolding partner_token add_token
  load_partner_tokens [] = ([], [])
  load_partner_tokens (p ∷ partners) = add_token p (partner_token p) (load_partner_tokens partners)

unfoldable pub find_partner : List PartnerRef → Bytes → Option PartnerRef
find_partner [] project = none
find_partner (p ∷ partners) project =
    if eq_bytes p.project_id project then some p else find_partner partners project

-- Each token with its partner; `expect` panics where there is none.
unfoldable pub pair_tokens :
    List PartnerRef → List PartnerToken → Result BootError (List PartnerAccess)
pair_tokens partners [] = ok []
pair_tokens partners (t ∷ tokens) = do
  partner ← ok_or panicked (find_partner partners t.project_id)
  accesses ← pair_tokens partners tokens
  ok (record { partner = partner; sm_token = t.sm_token } ∷ accesses)

-- `FhePrivShare`
pub record FhePrivShare : Type 0 where
  pub client_key : Bytes
  pub decrypt_signer_priv : Bytes

abbrev pub signer_key_len : ℕ
signer_key_len = 32

-- What the loading of the keys calls: the share's reconstruction out of the partners that a token
-- is left for, the codec and the derivation of the keys, and the signer.
pub record Vault (ClientKey Signer : Type 0) : Type 0 where
  pub partners : List PartnerRef
  pub federation : Federation
  pub read_fhe_priv : List PartnerAccess → (threshold : ℕ) → Result String FhePrivShare
  pub deserialize : Bytes → (limit : ℕ) → Result String ClientKey
  pub from_client_key : ClientKey → Result String DirectDecryptKey
  pub signer_from_bytes : Bytes → Result String Signer

pub record LoadedKeys (ClientKey Signer : Type 0) : Type 0 where
  pub keys : KeyStore ClientKey
  pub signer : Signer

module _ {ClientKey Signer : Type 0} (vault : Vault ClientKey Signer) where
  unfoldable pub assemble : FhePrivShare → Result BootError (LoadedKeys ClientKey Signer)
  assemble share =
      if not (length share.decrypt_signer_priv == signer_key_len)
      then err (bad_signer_length (length share.decrypt_signer_priv))
      else map_err (λ e. no_keys "load FHE client_key")
          (load vault.deserialize vault.from_client_key share.client_key)
        >>= λ keys.
            map_err no_keys (vault.signer_from_bytes share.decrypt_signer_priv) >>= λ signer.
            ok (record { keys = keys; signer = signer })

  unfoldable pub load_keys : (threshold : ℕ) → Result BootError (LoadedKeys ClientKey Signer)
  load_keys threshold = do
    accesses ← pair_tokens vault.partners (load_partner_tokens vault.federation vault.partners).0
    share ← map_err no_keys (vault.read_fhe_priv accesses threshold)
    assemble share

-- The state that serves, with the commitment cache inside its verifier.
pub record App (ClientKey Signer C : Type 0) : Type 0 where
  pub keys : KeyStore ClientKey
  pub signer : Option Signer
  pub acp_verifier : Option Chains
  pub commitment_verifier : Option (Verifier C)
  pub decrypt_permits : ℕ
  pub admit_permits : ℕ
  pub ready : Bool

abbrev pub at_least_one : ℕ → ℕ
at_least_one n = if leb 1 n then n else 1

module _ {ClientKey Signer C : Type 0} where
  -- `AppState::new`, on a machine of that many cores, and its builders
  unfoldable pub new_app :
      (parallelism : ℕ) → KeyStore ClientKey → Option Signer → App ClientKey Signer C
  new_app parallelism keys signer = record {
    keys = keys;
    signer = signer;
    acp_verifier = none;
    commitment_verifier = none;
    decrypt_permits = parallelism;
    admit_permits = 1000;
    ready = false;
  }

  unfoldable pub with_acp_verifier : Chains → App ClientKey Signer C → App ClientKey Signer C
  with_acp_verifier chains app = record app { acp_verifier = some chains }

  unfoldable pub with_commitment_verifier :
      Verifier C → App ClientKey Signer C → App ClientKey Signer C
  with_commitment_verifier v app = record app { commitment_verifier = some v }

  unfoldable pub with_concurrency :
      (decrypt admit : ℕ) → App ClientKey Signer C → App ClientKey Signer C
  with_concurrency decrypt admit app = record app {
    decrypt_permits = at_least_one decrypt;
    admit_permits = at_least_one admit;
  }

  unfoldable pub set_ready : App ClientKey Signer C → App ClientKey Signer C
  set_ready app = record app { ready = true }

  -- `if cfg.require_permit { .. }`
  unfoldable pub install_acp :
      Config C → App ClientKey Signer C → Result BootError (App ClientKey Signer C)
  unfolding with_acp_verifier
  install_acp cfg app =
      if cfg.require_permit
      then (ok_or panicked cfg.acp_verifier >>= λ chains. ok (with_acp_verifier chains app))
      else ok app

  -- `if cfg.enable_commitment_verification { .. }`: the boot probe must be answered, by any status
  unfoldable pub install_commitment :
      (version_status : (registry version : ℕ) → Reply String ℕ)
      → Config C
      → App ClientKey Signer C
      → Result BootError (App ClientKey Signer C)
  unfolding with_commitment_verifier probe_registry
  install_commitment version_status cfg app =
      if cfg.enable_commitment_verification
      then (ok_or panicked cfg.commitment_verifier >>= λ v.
          map_err (λ e. registry_unreachable)
            (probe_registry v.config (version_status v.registry v.config.version))
          >>= λ status. ok (with_commitment_verifier v app))
      else ok app

module _ {ClientKey Signer C : Type 0} (vault : Vault ClientKey Signer)
    (version_status : (registry version : ℕ) → Reply String ℕ)
    (new_ct_source : (url : Bytes) → (timeout_ms : ℕ) → Result String (Unit {0}))
    (parallelism : ℕ) where
  -- Behind the configuration.
  unfoldable pub assemble_app : Config C → Result BootError (App ClientKey Signer C)
  unfolding with_concurrency set_ready new_app
  assemble_app cfg = do
    loaded ← load_keys vault cfg.threshold
    u ← map_err bad_ct_source (new_ct_source cfg.ct_source_url cfg.getct_timeout_ms)
    gated ← install_acp cfg (new_app parallelism loaded.keys (some loaded.signer))
    committed ← install_commitment version_status cfg gated
    ok (set_ready (with_concurrency cfg.decrypt_concurrency cfg.max_inflight committed))

  unfoldable pub boot :
      Lru Key CacheEntry C → Hex → Host → Result BootError (App ClientKey Signer C)
  boot lru hex host = from_env lru hex host >>= resolve_acp host >>= assemble_app

-- What a request reads of it.
unfoldable pub app_state :
    {ClientKey Signer C : Type 0} → App ClientKey Signer C → AppState ClientKey
app_state app = record {
  keys = app.keys;
  acp_verifier = app.acp_verifier;
  commitment_verifier = elim app.commitment_verifier [ none ↦ none | some v ↦ some v.config ];
}
