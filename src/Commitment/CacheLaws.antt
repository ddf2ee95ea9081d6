-- ===== src/Commitment/CacheLaws.antt =====
-- What the registry reads establish about their answer and about the cache, on every branch.
use native.Mathlib.Decide.{ℕ_discrete}
use mathlib.Core.Path.{subst}
use teecryptor.Prelude.{
  ℕ, ◌-◌, ◌≡◌, ◌≢◌, refl, sym, ◌∙◌, inl, inr, Option, none, some, arith, String, ok, err, ltb, ◌==◌,
  if◌then◌else◌, Bool-cases,
}
use teecryptor.External.Lru.{Lru}
use teecryptor.External.Rpc.{Reply, elapsed, failed, returned}
use teecryptor.Commitment.Cache.{
  CommitmentError, not_found, Key, CacheEntry, CommitmentConfig, Registry, settle, get_entry,
  get_from_cache, put_in_cache, evict_from_cache, reconcile, refresh_from, refresh_commitment,
  fresh, fetch_from, fetch_commitment,
}

Key-discrete : Discrete Key
Key-discrete = hlevel ℕ_discrete

module _ {C : Type 0} (lru : Lru Key CacheEntry C) where
  -- Every entry satisfies `P`.
  abbrev pub CacheAll : (Key → CacheEntry → Type 0) → C → Type 0
  CacheAll P cache = (k : Key) (e : CacheEntry) → lru.peek k cache ≡ some e → P k e

  module _ (P : Key → CacheEntry → Type 0) where
    CacheAll-get : (k : Key) (cache : C) → CacheAll P cache → CacheAll P (lru.get k cache).1
    CacheAll-get k cache all j e found = all j e (sym (lru.peek-get j k cache) ∙ found)

    CacheAll-pop : (k : Key) (cache : C) → CacheAll P cache → CacheAll P (lru.pop k cache)
    CacheAll-pop k cache all j e found = elim (Key-discrete j k) [
      | yes same ↦ absurd (
          none-ne-some (
            sym (lru.peek-pop_self k cache)
            ∙ subst (λ i. lru.peek i (lru.pop k cache) ≡ some e) same found))
      | no other ↦ all j e (sym (lru.peek-pop_ne j k cache other) ∙ found)
    ]
      where
        none-ne-some : ◌≡◌ {A = Option CacheEntry} none (some e) → ⊥
        none-ne-some p = cc

    CacheAll-put :
        (k : Key) (v : CacheEntry) (cache : C)
        → P k v
        → CacheAll P cache
        → CacheAll P (lru.put k v cache)
    CacheAll-put k v cache p all j e found = elim (Key-discrete j k) [
      | yes same ↦
          let this : v ≡ e = some_inj (
            sym (lru.peek-put_self k v cache)
            ∙ subst (λ i. lru.peek i (lru.put k v cache) ≡ some e) same found) in
          subst (λ i. P i e) (sym same) (subst (P k) this p)
      | no other ↦ all j e (lru.peek-put_ne j k v e cache other found)
    ]
      where
        some_inj : ◌≡◌ {A = Option CacheEntry} (some v) (some e) → v ≡ e
        some_inj p = cc

    get_entry-CacheAll :
        (cfg : CommitmentConfig) (now : ℕ) (k : Key) (o : Option CacheEntry) (cache : C)
        → CacheAll P cache
        → CacheAll P (get_entry lru cfg now k o cache).1
    unfolding get_entry
    get_entry-CacheAll cfg now k none cache all = all
    get_entry-CacheAll cfg now k (some entry) cache all =
        elim (Bool-cases (ltb (now - entry.stored_at) cfg.cache_ttl)) [
          | inl fresh ↦ rw fresh all
          | inr stale ↦ rw stale (CacheAll-pop k cache all)
        ]

    reconcile-CacheAll :
        (now : ℕ) (k : Key) (commit : ℕ) (cache : C)
        → (commit ≢ 0 → P k (record { commit = commit; stored_at = now }))
        → CacheAll P cache
        → CacheAll P (reconcile lru now k commit cache).1
    unfolding reconcile
    reconcile-CacheAll now k commit cache p all = elim (Bool-cases (commit == 0)) [
      | inl zero ↦ rw zero (CacheAll-pop k cache all)
      | inr found ↦ rw found (CacheAll-put k _ cache (p (λ z. ground (arith, z, found))) all)
    ]

    -- What an answer of the registry to this read would store satisfies `P`.
    abbrev pub Answers : CommitmentConfig → Registry → (handle host_chain_id : ℕ) → Type 0
    Answers cfg reg handle chain =
        (commit : ℕ)
        → reg.get_commitment cfg.version handle ≡ returned commit
        → commit ≢ 0
        → P (chain, handle) (record { commit = commit; stored_at = reg.later })

    module _ (cfg : CommitmentConfig) (reg : Registry) (handle chain : ℕ) where
      pub refresh_commitment-CacheAll :
          (cache : C)
          → Answers cfg reg handle chain
          → CacheAll P cache
          → CacheAll P (refresh_commitment lru cfg reg handle chain cache).1
      unfolding refresh_commitment refresh_from settle
      refresh_commitment-CacheAll cache good all = go (reg.get_commitment cfg.version handle) good
        where
          go :
              (r : Reply String ℕ)
              → ((commit : ℕ)
                  → r ≡ returned commit
                  → commit ≢ 0
                  → P (chain, handle) (record { commit = commit; stored_at = reg.later }))
              → CacheAll P (refresh_from lru reg.later (chain, handle) (settle cfg r) cache).1
          go elapsed p = all
          go (failed e) p = all
          go (returned commit) p =
              reconcile-CacheAll reg.later (chain, handle) commit cache (p commit refl) all

      -- Reading through the cache keeps a property of its entries that holds of each answer.
      pub fetch_commitment-CacheAll :
          (cache : C)
          → Answers cfg reg handle chain
          → CacheAll P cache
          → CacheAll P (fetch_commitment lru cfg reg handle chain cache).1
      unfolding fetch_commitment get_from_cache fetch_from
      fetch_commitment-CacheAll cache good all =
          let k : Key = (chain, handle) in
          let (found, cache₁) = lru.get k cache in
          let (hash, cache₂) = get_entry lru cfg reg.now k found cache₁ in
          go hash cache₂ (get_entry-CacheAll cfg reg.now k found cache₁ (CacheAll-get k cache all))
        where
          go :
              (o : Option ℕ) (c : C)
              → CacheAll P c
              → CacheAll P (fetch_from lru cfg reg handle chain o c).1
          go (some hash) c h = h
          go none c h = refresh_commitment-CacheAll c good h

module _ {C : Type 0} (lru : Lru Key CacheEntry C) (cfg : CommitmentConfig) (reg : Registry)
    (handle chain : ℕ) where
  -- The cache agrees with what the chain just said: an answer is returned and stored with its time,
  -- and a zero answer is reported as not found and drops whatever the key had.
  refresh_commitment-returned :
      (cache : C) (commit : ℕ)
      → reg.get_commitment cfg.version handle ≡ returned commit
      → ((refresh_commitment lru cfg reg handle chain cache).0
          ≡ (if commit == 0 then err not_found else ok commit))
        × (lru.peek (chain, handle) (refresh_commitment lru cfg reg handle chain cache).1 ≡ (
            if commit == 0 then none else some (record { commit = commit; stored_at = reg.later })))
  unfolding refresh_commitment reconcile put_in_cache evict_from_cache
  refresh_commitment-returned cache commit e = elim (Bool-cases (commit == 0)) [
    | inl zero ↦ rw (e, zero) (refl, lru.peek-pop_self (chain, handle) cache)
    | inr found ↦ rw (e, found) (refl, lru.peek-put_self (chain, handle) _ cache)
  ]

  -- A read that fails for any other reason than a zero answer leaves the cache as it was.
  refresh_commitment-failed :
      (cache : C) (e : CommitmentError)
      → (refresh_commitment lru cfg reg handle chain cache).0 ≡ err e
      → e ≢ not_found
      → (refresh_commitment lru cfg reg handle chain cache).1 ≡ cache
  unfolding refresh_commitment reconcile settle
  refresh_commitment-failed cache e h ne = ground arith
