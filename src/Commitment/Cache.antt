-- ===== src/Commitment/Cache.antt =====
-- src/commitment.rs: the cache of confirmed commitments, and the reads of the registry through it.
use teecryptor.Prelude.{
  ℕ, ◌-◌, Bool, true, false, Option, none, some, String, Result, ok, err, ltb, ◌==◌, if◌then◌else◌,
  ◌>>=◌,
}
use teecryptor.External.Lru.{Lru}
use teecryptor.External.Rpc.{Reply, elapsed, failed, returned}

pub data CommitmentError : Type 0 where
  not_found : CommitmentError
  misconfigured : String → CommitmentError
  timeout : ℕ → CommitmentError
  transport : String → CommitmentError

-- `(host_chain_id, handle)`
abbrev pub Key : Type 0
Key = ℕ × ℕ

pub record CacheEntry : Type 0 where
  pub commit : ℕ
  pub stored_at : ℕ

pub record FetchedCommitment : Type 0 where
  pub hash : ℕ
  pub from_cache : Bool

-- The fields that the operations read. The URL, the registry's address and the contract instance
-- are the registry calls themselves, and the cache is passed beside.
pub record CommitmentConfig : Type 0 where
  pub version : ℕ
  pub timeout_ms : ℕ
  pub warn_only : Bool
  pub cache_ttl : ℕ

-- The registry as a request meets it: what `getCommitment(version, handle)` answers, the time when
-- the cache is consulted, and the time when an answer is stored.
pub record Registry : Type 0 where
  pub get_commitment : (version handle : ℕ) → Reply String ℕ
  pub now : ℕ
  pub later : ℕ

-- `timeout(..).await.map_err(..)?.map_err(map_contract_error)?`
unfoldable pub settle : CommitmentConfig → Reply String ℕ → Result CommitmentError ℕ
settle cfg elapsed = err (timeout cfg.timeout_ms)
settle cfg (failed e) = err (transport e)
settle cfg (returned commit) = ok commit

-- `.map(|hash| FetchedCommitment { hash, from_cache: false })`
abbrev pub fresh : Result CommitmentError ℕ → Result CommitmentError FetchedCommitment
fresh r = r >>= λ hash. ok (record { hash = hash; from_cache = false })

module _ {C : Type 0} (lru : Lru Key CacheEntry C) where
  -- the entry that `LruCache::get` found: still fresh, or dropped
  unfoldable pub get_entry : CommitmentConfig → ℕ → Key → Option CacheEntry → C → Option ℕ × C
  get_entry cfg now key none cache = (none, cache)
  get_entry cfg now key (some entry) cache =
      if ltb (now - entry.stored_at) cfg.cache_ttl
      then (some entry.commit, cache)
      else (none, lru.pop key cache)

  unfoldable pub get_from_cache : CommitmentConfig → ℕ → Key → C → Option ℕ × C
  get_from_cache cfg now key cache =
      let (entry, cache') = lru.get key cache in get_entry cfg now key entry cache'

  unfoldable pub put_in_cache : ℕ → Key → ℕ → C → C
  put_in_cache now key commit cache =
      lru.put key (record { commit = commit; stored_at = now }) cache

  unfoldable pub evict_from_cache : Key → C → C
  evict_from_cache key cache = lru.pop key cache

  -- `commit != ZERO` stores the answer, zero evicts the entry
  unfoldable pub reconcile : ℕ → Key → ℕ → C → Result CommitmentError ℕ × C
  unfolding put_in_cache evict_from_cache
  reconcile now key commit cache =
      if commit == 0
      then (err not_found, evict_from_cache key cache)
      else (ok commit, put_in_cache now key commit cache)

  unfoldable pub refresh_from :
      ℕ → Key → Result CommitmentError ℕ → C → Result CommitmentError ℕ × C
  unfolding reconcile
  refresh_from now key (err e) cache = (err e, cache)
  refresh_from now key (ok commit) cache = reconcile now key commit cache

  unfoldable pub refresh_commitment :
      CommitmentConfig → Registry → (handle host_chain_id : ℕ) → C → Result CommitmentError ℕ × C
  unfolding refresh_from settle
  refresh_commitment cfg reg handle chain cache =
      refresh_from reg.later (chain, handle) (settle cfg (reg.get_commitment cfg.version handle))
        cache

  -- the fast path on a cached hash, else the registry
  unfoldable pub fetch_from :
      CommitmentConfig
      → Registry
      → (handle host_chain_id : ℕ) → Option ℕ
      → C
      → Result CommitmentError FetchedCommitment × C
  unfolding refresh_commitment
  fetch_from cfg reg handle chain (some hash) cache =
      (ok (record { hash = hash; from_cache = true }), cache)
  fetch_from cfg reg handle chain none cache =
      let (r, cache') = refresh_commitment cfg reg handle chain cache in (fresh r, cache')

  unfoldable pub fetch_commitment :
      CommitmentConfig
      → Registry
      → (handle host_chain_id : ℕ) → C
      → Result CommitmentError FetchedCommitment × C
  unfolding get_from_cache get_entry fetch_from
  fetch_commitment cfg reg handle chain cache =
      let (cached, cache') = get_from_cache cfg reg.now (chain, handle) cache in
      fetch_from cfg reg handle chain cached cache'

-- `probe_registry` and `CommitmentConfig::probe`, on the answer of `getVersionStatus(version)`
unfoldable pub probe_registry : CommitmentConfig → Reply String ℕ → Result CommitmentError ℕ
unfolding settle
probe_registry cfg reply = settle cfg reply

unfoldable pub probe : CommitmentConfig → Reply String ℕ → Bool
unfolding probe_registry
probe cfg reply = elim (probe_registry cfg reply) [ ok status ↦ true | err e ↦ false ]
