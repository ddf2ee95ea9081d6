-- ===== src/Http/Gates.antt =====
-- src/http.rs: `enforce_acp`, `enforce_commitment` and `enforce_commitment_integrity`.
use teecryptor.Prelude.{
  ℕ, Bool, false, not, ◌&&◌, ◌||◌, Option, none, some, String, Result, ok, err, ◌==◌, if◌then◌else◌,
  Bytes,
}
use teecryptor.External.Hex.{Hex}
use teecryptor.External.Lru.{Lru}
use teecryptor.Permit.Acp.{
  AcpData, AcpError, malformed, denied, expired, bad_signature, unknown_chain, misconfigured,
  timeout, transport,
}
use teecryptor.Permit.Verify.{Chains, TaskManager, verify_via_taskmanager, verify_publicly_allowed}
use teecryptor.Commitment.Cache.{
  CommitmentError, Key, CacheEntry, FetchedCommitment, CommitmentConfig, Registry,
  refresh_commitment, fetch_commitment,
}
use teecryptor.Http.Response.{ApiVersion, Response, api_err, retryable, commitment_pending}

-- What an error of the ACP check answers; a denial answers by the path that was taken.
unfoldable pub reject_acp :
    {S : Type 0} → ApiVersion → (denied_status : ℕ) → (denied_code : String) → AcpError → Response S
reject_acp api status code denied = api_err api status code
reject_acp api status code (unknown_chain id) = api_err api 400 "unknown_chain"
reject_acp api status code expired = api_err api 401 "acp_expired"
reject_acp api status code bad_signature = api_err api 401 "acp_invalid"
reject_acp api status code (malformed m) = api_err api 400 "acp_malformed"
reject_acp api status code (timeout secs) = api_err api 504 "acp_verifier_timeout"
reject_acp api status code (transport e) = api_err api 502 "acp_verifier_error"
reject_acp api status code (misconfigured e) = api_err api 502 "acp_verifier_error"

unfoldable pub acp_verdict :
    {S : Type 0} → ApiVersion → ℕ → String → Result AcpError (Unit {0}) → Option (Response S)
acp_verdict api status code (ok u) = none
acp_verdict api status code (err e) = some (reject_acp api status code e)

module _ (hex : Hex) (parse_address : Bytes → Result String ℕ) (tm : TaskManager) {S : Type 0} where
  unfoldable pub enforce_acp :
      Chains → (handle host_chain_id : ℕ) → Option AcpData → ApiVersion → Option (Response S)
  enforce_acp chains handle chain (some acp) api =
      acp_verdict api 401 "acp_denied"
        (verify_via_taskmanager hex parse_address tm chains acp handle chain)
  enforce_acp chains handle chain none api =
      acp_verdict api 403 "not_publicly_allowed" (verify_publicly_allowed tm chains handle chain)

-- What an error of the commitment check answers in enforce mode.
unfoldable pub reject_commitment : {S : Type 0} → ApiVersion → CommitmentError → Response S
reject_commitment api CommitmentError.not_found = retryable api commitment_pending
reject_commitment api (CommitmentError.timeout secs) = api_err api 504 "commitment_verifier_timeout"
reject_commitment api (CommitmentError.transport e) = api_err api 502 "commitment_verifier_error"
reject_commitment api (CommitmentError.misconfigured e) =
    api_err api 502 "commitment_verifier_error"

unfoldable pub commitment_verdict :
    {S : Type 0}
    → CommitmentConfig
    → ApiVersion
    → Result CommitmentError FetchedCommitment
    → Result (Response S) (Option FetchedCommitment)
commitment_verdict cfg api (ok fetched) = ok (some fetched)
commitment_verdict cfg api (err e) =
    if cfg.warn_only then ok none else err (reject_commitment api e)

-- The comparison that is left when no re-read settled it.
unfoldable pub compare :
    {S : Type 0}
    → (warn_only : Bool) → ApiVersion
    → (actual expected : ℕ) → Result (Response S) (Unit {0})
compare warn_only api actual expected =
    if actual == expected || warn_only then ok tt else err (api_err api 502 "commitment_mismatch")

-- The verdict after the re-read of the registry: on a fresh hash, with none on-chain, or with the
-- registry out of reach, which leaves the cached hash.
unfoldable pub rejudge :
    {S : Type 0}
    → (warn_only : Bool) → ApiVersion
    → (actual cached : ℕ) → Result CommitmentError ℕ
    → Result (Response S) (Unit {0})
rejudge warn_only api actual cached (ok fresh) = compare warn_only api actual fresh
rejudge warn_only api actual cached (err CommitmentError.not_found) =
    if warn_only then ok tt else err (retryable api commitment_pending)
rejudge warn_only api actual cached (err (CommitmentError.timeout secs)) =
    compare warn_only api actual cached
rejudge warn_only api actual cached (err (CommitmentError.transport e)) =
    compare warn_only api actual cached
rejudge warn_only api actual cached (err (CommitmentError.misconfigured e)) =
    compare warn_only api actual cached

module _ {C : Type 0} (lru : Lru Key CacheEntry C) {S : Type 0} where
  unfoldable pub enforce_commitment :
      CommitmentConfig
      → Registry
      → (handle host_chain_id : ℕ) → ApiVersion
      → C
      → Result (Response S) (Option FetchedCommitment) × C
  enforce_commitment cfg reg handle chain api cache =
      let (r, cache') = fetch_commitment lru cfg reg handle chain cache in
      (commitment_verdict cfg api r, cache')

  -- `keccak256` is the hash that `calc_commitment` takes; `reg` is the registry at the re-read.
  unfoldable pub enforce_commitment_integrity :
      (keccak256 : Bytes → ℕ)
      → Option CommitmentConfig
      → Registry
      → FetchedCommitment
      → Bytes
      → (handle host_chain_id : ℕ) → ApiVersion
      → C
      → Result (Response S) (Unit {0}) × C
  enforce_commitment_integrity keccak256 none reg fetched ct_data handle chain api cache =
      (compare false api (keccak256 ct_data) fetched.hash, cache)
  enforce_commitment_integrity keccak256 (some cfg) reg fetched ct_data handle chain api cache =
      let actual = keccak256 ct_data in
      if not (actual == fetched.hash) && fetched.from_cache
      then (let (r, cache') = refresh_commitment lru cfg reg handle chain cache in
          (rejudge cfg.warn_only api actual fetched.hash r, cache'))
      else (compare cfg.warn_only api actual fetched.hash, cache)
