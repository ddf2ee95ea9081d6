-- ===== src/Commitment/History.antt =====
-- Where a fetched commitment comes from, and what holds after any sequence of reads.
use teecryptor.Prelude.{
  ℕ, ◌-◌, ◌<◌, ◌≡◌, ◌≢◌, sym, ap, ◌∙◌, ◌⊎◌, inl, inr, true, false, Option, none, some, arith, ok,
  ltb, ltb→lt, ok_inj, >>=-eq-ok, Bool-cases,
}
use teecryptor.External.Lru.{Lru}
use teecryptor.External.Rpc.{returned}
use teecryptor.Commitment.Cache.{
  Key, CacheEntry, FetchedCommitment, CommitmentConfig, Registry, settle, get_entry, get_from_cache,
  reconcile, refresh_commitment, fresh, fetch_from, fetch_commitment,
}
use teecryptor.Commitment.CacheLaws.{
  CacheAll, refresh_commitment-CacheAll, fetch_commitment-CacheAll,
}

module _ {C : Type 0} (lru : Lru Key CacheEntry C) (cfg : CommitmentConfig) where
  -- A cached hash is that of an entry younger than the TTL; any other was just read, and is not zero.
  abbrev pub IsSourced : Registry → (handle host_chain_id : ℕ) → C → FetchedCommitment → Type 0
  IsSourced reg handle chain cache f =
      ((f.from_cache ≡ true)
        × ((e : CacheEntry) × (lru.peek (chain, handle) cache ≡ some e)
            × (f.hash ≡ e.commit)
            × (reg.now - e.stored_at < cfg.cache_ttl)))
      ⊎ ((f.from_cache ≡ false)
          × (reg.get_commitment cfg.version handle ≡ returned f.hash)
          × (f.hash ≢ 0))

  module _ (reg : Registry) (handle chain : ℕ) where
    pub refresh-source :
        (cache : C) (hash : ℕ)
        → (refresh_commitment lru cfg reg handle chain cache).0 ≡ ok hash
        → (reg.get_commitment cfg.version handle ≡ returned hash) × (hash ≢ 0)
    unfolding refresh_commitment reconcile settle
    refresh-source cache hash e = (ground arith, λ z. ground arith)

    fresh-source :
        (cache cache' : C) (f : FetchedCommitment)
        → (let (r, c) = refresh_commitment lru cfg reg handle chain cache' in fresh r) ≡ ok f
        → IsSourced reg handle chain cache f
    fresh-source cache cache' f e =
        let (hash, read, e') =
          >>=-eq-ok (refresh_commitment lru cfg reg handle chain cache').0 _ e in
        let (answer, nonzero) = refresh-source cache' hash read in
        let same : record { hash = hash; from_cache = false } ≡ f = ok_inj e' in
        inr (
          ap (λ g. g.from_cache) (sym same),
          answer ∙ ap (λ g. returned g.hash) same,
          λ z. nonzero (ap (λ g. g.hash) same ∙ z),
        )

    fetch-source :
        (cache : C) (o : Option CacheEntry) (cache' : C) (f : FetchedCommitment)
        → lru.peek (chain, handle) cache ≡ o
        → (let (hash, cache₂) = get_entry lru cfg reg.now (chain, handle) o cache' in
            (fetch_from lru cfg reg handle chain hash cache₂).0)
          ≡ ok f
        → IsSourced reg handle chain cache f
    unfolding get_entry fetch_from
    fetch-source cache none cache' f at e = fresh-source cache cache' f e
    fetch-source cache (some entry) cache' f at e =
        elim (Bool-cases (ltb (reg.now - entry.stored_at) cfg.cache_ttl)) [
          | inl young ↦
              let same : record { hash = entry.commit; from_cache = true } ≡ f =
                ok_inj (rw young at e) in
              inl (
                ap (λ g. g.from_cache) (sym same),
                (entry, at, ap (λ g. g.hash) (sym same), ltb→lt _ _ young),
              )
          | inr old ↦ fresh-source cache (lru.pop (chain, handle) cache') f (rw old at e)
        ]

    -- A fetched commitment is either a cached one, still within its TTL, or the registry's own
    -- non-zero answer to this request.
    pub fetch_commitment-source :
        (cache : C) (f : FetchedCommitment)
        → (fetch_commitment lru cfg reg handle chain cache).0 ≡ ok f
        → IsSourced reg handle chain cache f
    unfolding fetch_commitment get_from_cache
    fetch_commitment-source cache f e =
        let (o, cache') = lru.get (chain, handle) cache in
        fetch-source cache o cache' f (sym (lru.get_lem (chain, handle) cache)) e

  -- The registry is write-once: a non-zero answer for a handle is the one commitment of it.
  abbrev pub IsWriteOnce : (ℕ → ℕ) → Registry → Type 0
  IsWriteOnce truth reg =
      (handle commit : ℕ)
      → reg.get_commitment cfg.version handle ≡ returned commit
      → commit ≢ 0
      → commit ≡ truth handle

  module _ (truth : ℕ → ℕ) where
    -- The reads that requests make of the shared cache, in any order and for any handles.
    pub data Step : C → C → Type 0 where
      fetched :
          {c c' : C} (reg : Registry) (handle chain : ℕ)
          → IsWriteOnce truth reg
          → c' ≡ (fetch_commitment lru cfg reg handle chain c).1
          → Step c c'
      refreshed :
          {c c' : C} (reg : Registry) (handle chain : ℕ)
          → IsWriteOnce truth reg
          → c' ≡ (refresh_commitment lru cfg reg handle chain c).1
          → Step c c'

    pub data Reach (start : C) : C → Type 0 where
      here : Reach start start
      next : {c c' : C} → Reach start c → Step c c' → Reach start c'

    -- Each cached hash is the commitment of its handle.
    abbrev IsTrue : Key → CacheEntry → Type 0
    IsTrue (chain, handle) e = e.commit ≡ truth handle

    Step-CacheAll : {c c' : C} → Step c c' → CacheAll lru IsTrue c → CacheAll lru IsTrue c'
    Step-CacheAll {c} (fetched reg handle chain honest e) all =
        rw e (fetch_commitment-CacheAll lru IsTrue cfg reg handle chain c (honest handle) all)
    Step-CacheAll {c} (refreshed reg handle chain honest e) all =
        rw e (refresh_commitment-CacheAll lru IsTrue cfg reg handle chain c (honest handle) all)

    Reach-CacheAll : {s c : C} → CacheAll lru IsTrue s → Reach s c → CacheAll lru IsTrue c
    Reach-CacheAll all here = all
    Reach-CacheAll all (next r st) = Step-CacheAll st (Reach-CacheAll all r)

    CacheAll-new : (n : ℕ) → CacheAll lru IsTrue (lru.new n)
    CacheAll-new n k e found = cc (lru.peek-new k n)

    -- From an empty cache of any size, after any sequence of reads of a write-once registry, a
    -- fetched commitment is the one that the chain holds for the handle, cached or not.
    pub Reach-fetch_commitment :
        (n : ℕ) (cache : C) (reg : Registry) (handle chain : ℕ) (f : FetchedCommitment)
        → Reach (lru.new n) cache
        → IsWriteOnce truth reg
        → (fetch_commitment lru cfg reg handle chain cache).0 ≡ ok f
        → f.hash ≡ truth handle
    Reach-fetch_commitment n cache reg handle chain f reach honest e =
        elim (fetch_commitment-source reg handle chain cache f e) [
          | inl (cached, (entry, at, same, young)) ↦
              same ∙ Reach-CacheAll (CacheAll-new n) reach (chain, handle) entry at
          | inr (read, answer, nonzero) ↦ honest handle f.hash answer nonzero
        ]
