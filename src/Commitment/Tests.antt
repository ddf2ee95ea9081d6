-- ===== src/Commitment/Tests.antt =====
-- A registry with one commitment, a small cache, and the theorems at them.
use teecryptor.Prelude.{
  ℕ, ◌≡◌, ◌↔◌, refl, Bool, true, false, ◌&&◌, [], ◌∷◌, ◌++◌, replicate, arith, ok, err, ◌==◌,
  if◌then◌else◌, Bytes,
}
use teecryptor.External.Rpc.{elapsed, returned}
use teecryptor.External.Hex.{digit_value}
use teecryptor.External.AssocLru.{Table, assoc_lru}
use teecryptor.External.Samples.{sample_hex}
use teecryptor.Commitment.Version.{no_prefix, parse_digits, parse_version, from_u8, name, name_of}
use teecryptor.Commitment.VersionLaws.{IsVersion, parse_version_iff}
use teecryptor.Commitment.Cache.{
  not_found, timeout, Key, CacheEntry, CommitmentConfig, Registry, refresh_commitment,
  fetch_commitment,
}
use teecryptor.Commitment.History.{
  IsSourced, fetched, here, next, IsWriteOnce, fetch_commitment-source, Reach-fetch_commitment,
}

abbrev pub eq_key : Key → Key → Bool
eq_key (a, b) (c, d) = a == c && b == d

pub eq_key_iff : (k j : Key) → (eq_key k j ≡ true) ↔ (k ≡ j)
eq_key_iff (a, b) (c, d) = ground arith

abbrev pub Cache : Type 0
Cache = Table Key CacheEntry

abbrev pub cfg : CommitmentConfig
cfg = record { version = 2; timeout_ms = 5; warn_only = false; cache_ttl = 100 }

-- Handle 7 has the commitment 99; the others have none.
abbrev registry : Registry
registry = record {
  get_commitment = λ version handle. if handle == 7 then returned 99 else returned 0;
  now = 10;
  later = 11;
}

abbrev down : Registry
down = record { get_commitment = λ version handle. elapsed; now = 50; later = 50 }

abbrev empty : Cache
empty = (2, [])

abbrev warm : Cache
warm = (2, ((1, 7), record { commit = 99; stored_at = 11 }) ∷ [])

fetch_stores :
    fetch_commitment (assoc_lru eq_key eq_key_iff) cfg registry 7 1 empty
    ≡ (ok (record { hash = 99; from_cache = false }), warm)
unfolding fetch_commitment
fetch_stores = refl

fetch_cached :
    (fetch_commitment (assoc_lru eq_key eq_key_iff) cfg down 7 1 warm).0
    ≡ ok (record { hash = 99; from_cache = true })
unfolding fetch_commitment
fetch_cached = refl

fetch_absent :
    fetch_commitment (assoc_lru eq_key eq_key_iff) cfg registry 8 1 warm ≡ (err not_found, warm)
unfolding fetch_commitment
fetch_absent = refl

-- "0x00..0a", its short form, and its uppercase form
abbrev ten : Bytes
ten = b'0' ∷ b'x' ∷ (replicate 63 b'0' ++ b'a' ∷ [])

version_runs :
    (parse_version sample_hex ten ≡ ok 10)
    × (parse_version sample_hex (b'1' ∷ b'0' ∷ []) ≡ err no_prefix)
unfolding parse_version parse_digits digit_value
version_runs = (refl, refl)

status_names : (name_of 1 ≡ "Active") × (name_of 9 ≡ "Unknown")
unfolding name_of from_u8 name
status_names = (refl, refl)

parse_version_iff_example :
    (parse_version sample_hex ten ≡ ok 10)
    ↔ ((digits : Bytes) × (ten ≡ b'0' ∷ b'x' ∷ digits) × IsVersion digits 10)
parse_version_iff_example = parse_version_iff sample_hex ten 10

IsWriteOnce-registry : IsWriteOnce (assoc_lru eq_key eq_key_iff) cfg (λ h. 99) registry
IsWriteOnce-registry handle commit e ne = ground arith

refresh_down :
    (refresh_commitment (assoc_lru eq_key eq_key_iff) cfg down 7 1 warm).0 ≡ err (timeout 5)
unfolding refresh_commitment
refresh_down = refl

fetch_commitment-source_example :
    IsSourced
      (assoc_lru eq_key eq_key_iff)
      cfg
      down
      7
      1
      warm
      (record { hash = 99; from_cache = true })
fetch_commitment-source_example =
    fetch_commitment-source (assoc_lru eq_key eq_key_iff) cfg down 7 1 warm
      (record { hash = 99; from_cache = true }) fetch_cached

IsWriteOnce-down : IsWriteOnce (assoc_lru eq_key eq_key_iff) cfg (λ h. 99) down
IsWriteOnce-down handle commit e ne = cc

-- The registry answers once, and goes down; the cache then serves what it answered.
Reach-fetch_commitment_example : ◌≡◌ {A = ℕ} 99 99
unfolding fetch_commitment
Reach-fetch_commitment_example =
    Reach-fetch_commitment (assoc_lru eq_key eq_key_iff) cfg (λ h. 99) 2 warm down 7 1
      (record { hash = 99; from_cache = true })
      (next here (fetched registry 7 1 IsWriteOnce-registry refl)) IsWriteOnce-down fetch_cached
