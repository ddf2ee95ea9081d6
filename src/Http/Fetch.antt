-- ===== src/Http/Fetch.antt =====
-- src/http.rs: `fetch_decrypt`, from an admitted handle to a plaintext, in the order of its steps.
use teecryptor.Prelude.{
  ℕ, not, ◌||◌, Option, none, some, String, Result, ok, err, ◌>>=◌, ℤ, pos, eq_ℤ, ◌==◌,
  if◌then◌else◌, Bytes,
}
use teecryptor.External.Hex.{Hex}
use teecryptor.External.Bignum.{Bignum}
use teecryptor.External.Lru.{Lru}
use teecryptor.Handle.{Handle, handle_type, handle_zone}
use teecryptor.Decrypt.{DecryptError, direct_decrypt, text, EncryptionType, from_i32}
use teecryptor.DirectDecrypt.Mirror.{Tfhe, DirectDecryptKey}
use teecryptor.DirectDecrypt.Top.{decrypt_compressed}
use teecryptor.Keys.{KeyStore, client_key, direct_key}
use teecryptor.Permit.Acp.{AcpData}
use teecryptor.Permit.Verify.{Chains, TaskManager}
use teecryptor.Commitment.Cache.{Key, CacheEntry, FetchedCommitment, CommitmentConfig, Registry}
use teecryptor.CtSource.{FheCiphertext, CtFetchError, GetCtResponse, Sent, fetch}
use teecryptor.Http.Response.{ApiVersion, Response, api_err, retryable, overloaded, ct_not_ready}
use teecryptor.Http.Gates.{enforce_acp, enforce_commitment, enforce_commitment_integrity}

-- The third-party code that a request runs through.
pub record Deps (Ct C : Type 0) : Type 0 where
  pub big : Bignum
  pub hex : Hex
  pub parse_address : Bytes → Result String ℕ
  pub tfhe : Tfhe Ct
  pub lru : Lru Key CacheEntry C
  pub keccak256 : Bytes → ℕ
  pub from_slice : Bytes → Result String GetCtResponse

-- What the path reads of `AppState`; the commitment cache is passed beside.
pub record AppState (ClientKey : Type 0) : Type 0 where
  pub keys : KeyStore ClientKey
  pub acp_verifier : Option Chains
  pub commitment_verifier : Option CommitmentConfig

-- The surroundings of one request: the free slots of the admission semaphore, the contracts, the
-- registry at the gate and at the re-read, ct-server, and the fault of the decrypt task, if any.
pub record World : Type 0 where
  pub admit_slots : ℕ
  pub task_manager : TaskManager
  pub registry : Registry
  pub reread : Registry
  pub ct_server : Bytes → Sent
  pub join_error : Option String

-- A step that threads the commitment cache.
abbrev pub bind : {E A B C : Type 0} → Result E A × C → (A → C → Result E B × C) → Result E B × C
bind (ok a, cache) f = f a cache
bind (err e, cache) f = (err e, cache)

-- The errors of ct-server.
unfoldable pub reject_ct : {S : Type 0} → ApiVersion → CtFetchError → Response S
reject_ct api CtFetchError.not_found = api_err api 404 "ct_not_found"
reject_ct api CtFetchError.not_ready = retryable api ct_not_ready
reject_ct api CtFetchError.timeout = api_err api 504 "ct_source_timeout"
reject_ct api (CtFetchError.transport e) = api_err api 502 "ct_source_error"
reject_ct api (CtFetchError.unexpected_status code) = api_err api 502 "ct_source_error"
reject_ct api (CtFetchError.bad_response e) = api_err api 502 "ct_source_error"

-- the precedence of the two gates: a response of the ACP gate wins
unfoldable pub join_gates :
    {S : Type 0}
    → Option (Response S)
    → Result (Response S) (Option FetchedCommitment)
    → Result (Response S) (Option FetchedCommitment)
join_gates (some resp) commit = err resp
join_gates none commit = commit

-- the refusals of a fetched row before the integrity check
unfoldable pub check_envelope :
    {S : Type 0} → ApiVersion → FheCiphertext → Result (Response S) (Unit {0})
check_envelope api ct =
    if not (eq_ℤ ct.security_zone (pos 0))
    then err (api_err api 422 "unsupported_security_zone")
    else if ct.compact || not ct.gzipped
    then err (api_err api 502 "ct_source_error")
    else ok tt

unfoldable pub check_type : {S : Type 0} → ApiVersion → ℤ → Result (Response S) EncryptionType
check_type api code = elim (from_i32 code) [
  | ok ty ↦ ok ty
  | err e ↦ err (api_err api 422 "unsupported_type")
]

-- The declared type and zone against the metadata bytes of the handle.
unfoldable pub check_metadata :
    {S : Type 0}
    → ApiVersion
    → (handle_bytes : Bytes) → FheCiphertext
    → Result (Response S) (Unit {0})
check_metadata api handle_bytes ct =
    if not (eq_ℤ (pos (handle_type handle_bytes)) ct.encryption_type)
    then err (api_err api 502 "ct_type_mismatch")
    else if not (eq_ℤ (pos (handle_zone handle_bytes)) ct.security_zone)
    then err (api_err api 502 "ct_zone_mismatch")
    else ok tt

-- The result of the decrypt task: its fault, or what the closure returned.
unfoldable pub finish :
    {S : Type 0}
    → ApiVersion
    → EncryptionType
    → Option String
    → Result DecryptError ℕ
    → Result (Response S) (ℕ × EncryptionType)
finish api ty (some join_err) r = err (api_err api 500 "internal_error")
finish api ty none (ok pt) = ok (pt, ty)
finish api ty none (err e) = err (api_err api 502 "ct_source_error")

unfoldable pub check_zone :
    {S ClientKey : Type 0} → ApiVersion → Option ClientKey → Result (Response S) (Unit {0})
check_zone api none = err (api_err api 422 "unsupported_security_zone")
check_zone api (some ck) = ok tt

module _ {Ct C : Type 0} (dep : Deps Ct C) where
  -- `run_gated` of the closure; the last branch is that of a build without the plain path
  unfoldable pub decrypt_row :
      DirectDecryptKey → EncryptionType → FheCiphertext → Result DecryptError ℕ
  decrypt_row dk ty ct =
      if ct.gzipped
      then decrypt_compressed dep.big dep.tfhe dk ty ct.bytes
      else err (direct_decrypt (text "non-compressed ciphertext (legacy plain path disabled)"))

module _ {Ct C : Type 0} (dep : Deps Ct C) (w : World) {S : Type 0} (api : ApiVersion) where
  -- With no verifier configured a gate lets everything through.
  unfoldable pub acp_gate :
      Option Chains → Handle → (host_chain_id : ℕ) → Option AcpData → Option (Response S)
  acp_gate none handle chain acp = none
  acp_gate (some chains) handle chain acp =
      enforce_acp dep.hex dep.parse_address w.task_manager chains handle.u256 chain acp api

  unfoldable pub commitment_gate :
      Option CommitmentConfig
      → Handle
      → (host_chain_id : ℕ) → C
      → Result (Response S) (Option FetchedCommitment) × C
  commitment_gate none handle chain cache = (ok none, cache)
  commitment_gate (some cfg) handle chain cache =
      enforce_commitment dep.lru cfg w.registry handle.u256 chain api cache

  -- The stored row, past the refusals of its envelope.
  unfoldable pub fetch_row : Handle → Result (Response S) FheCiphertext
  fetch_row handle = elim (fetch dep.hex dep.from_slice w.ct_server handle.hex) [
    | ok ct ↦ check_envelope api ct >>= λ _. ok ct
    | err e ↦ err (reject_ct api e)
  ]

  -- The closure fetches its key again; `expect` panics where there is none.
  unfoldable pub decrypt_with :
      Option DirectDecryptKey
      → EncryptionType
      → FheCiphertext
      → Result (Response S) (ℕ × EncryptionType)
  decrypt_with none ty ct = err (api_err api 500 "internal_error")
  decrypt_with (some dk) ty ct = finish api ty w.join_error (decrypt_row dep dk ty ct)

module _ {Ct C ClientKey : Type 0} (dep : Deps Ct C) (state : AppState ClientKey) (w : World)
    {S : Type 0} (api : ApiVersion) where
  -- Both gates run to their end, whatever the other says.
  unfoldable pub gates :
      Handle
      → (host_chain_id : ℕ) → Option AcpData
      → C
      → Result (Response S) (Option FetchedCommitment) × C
  gates handle chain acp cache =
      let (commit, cache') =
        commitment_gate dep w api state.commitment_verifier handle chain cache in
      (join_gates (acp_gate dep w api state.acp_verifier handle chain acp) commit, cache')

  -- Without an expected hash there is nothing to compare.
  unfoldable pub check_integrity :
      Option FetchedCommitment
      → FheCiphertext
      → Handle
      → (host_chain_id : ℕ) → C
      → Result (Response S) (Unit {0}) × C
  check_integrity none ct handle chain cache = (ok tt, cache)
  check_integrity (some fetched) ct handle chain cache =
      enforce_commitment_integrity dep.lru dep.keccak256 state.commitment_verifier w.reread fetched
        ct.bytes handle.u256 chain api cache

  -- The checks of the row that is the committed one, and its decryption.
  unfoldable pub decrypt_checked : Handle → FheCiphertext → Result (Response S) (ℕ × EncryptionType)
  decrypt_checked handle ct = check_zone api (client_key state.keys ct.security_zone) >>= λ _.
      check_type api ct.encryption_type >>= λ ty.
      check_metadata api (dep.big.to_be_bytes handle.u256) ct >>= λ _.
      decrypt_with dep w api (direct_key state.keys ct.security_zone) ty ct

  -- behind the gates
  unfoldable pub fetch_committed :
      Handle
      → (host_chain_id : ℕ) → Option FetchedCommitment
      → C
      → Result (Response S) (ℕ × EncryptionType) × C
  fetch_committed handle chain expected cache =
      bind (fetch_row dep w api handle, cache)
        (λ ct cache₁.
          bind (check_integrity expected ct handle chain cache₁)
            (λ _ cache₂. (decrypt_checked handle ct, cache₂)))

  unfoldable pub fetch_decrypt :
      Handle
      → (host_chain_id : ℕ) → Option AcpData
      → C
      → Result (Response S) (ℕ × EncryptionType) × C
  fetch_decrypt handle chain acp cache =
      if w.admit_slots == 0
      then (err (retryable api overloaded), cache)
      else bind (gates handle chain acp cache)
          (λ expected cache'. fetch_committed handle chain expected cache')
