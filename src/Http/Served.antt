-- ===== src/Http/Served.antt =====
-- What `fetch_decrypt` promises, as one condition on the request and on what it meets.
use teecryptor.Prelude.{ℕ, ◌≡◌, ◌≢◌, ◌⊎◌, true, false, Option, none, some, ok, pos, Bytes}
use teecryptor.Handle.{Handle, handle_type, handle_zone}
use teecryptor.Decrypt.{EncryptionType, to_i32}
use teecryptor.DirectDecrypt.Top.{decrypt_compressed}
use teecryptor.Permit.Acp.{AcpData}
use teecryptor.Permit.Verify.{Chains}
use teecryptor.Commitment.Cache.{
  FetchedCommitment, CommitmentConfig, refresh_commitment, fetch_commitment,
}
use teecryptor.CtSource.{FheCiphertext, fetch}
use teecryptor.Http.Fetch.{Deps, AppState, World}
use teecryptor.Http.FetchLaws.{IsAllowed}

module _ {Ct C : Type 0} (dep : Deps Ct C) (w : World) where
  -- The request is authorised, or nobody asks.
  abbrev pub IsPermitted : Option Chains → Handle → (chain : ℕ) → Option AcpData → Type 0
  IsPermitted none handle chain acp = Unit {0}
  IsPermitted (some chains) handle chain acp = IsAllowed dep w chains handle chain acp

  -- Bytes that hash to the commitment that was found, or, where that came from the cache, to the one
  -- that the registry has now.
  abbrev pub Matches :
      CommitmentConfig → (handle chain : ℕ) → C → (bytes : Bytes) → FetchedCommitment → Type 0
  Matches cfg handle chain cache bytes f =
      (dep.keccak256 bytes ≡ f.hash)
      ⊎ ((f.from_cache ≡ true)
          × ((refresh_commitment dep.lru cfg w.reread handle chain
                (fetch_commitment dep.lru cfg w.registry handle chain cache).1).0
              ≡ ok (dep.keccak256 bytes)))

  -- The bytes are the committed ones, or commitments are not enforced.
  abbrev pub IsCleared : Option CommitmentConfig → (handle chain : ℕ) → C → (bytes : Bytes) → Type 0
  IsCleared none handle chain cache bytes = Unit {0}
  IsCleared (some cfg) handle chain cache bytes =
      (cfg.warn_only ≡ true)
      ⊎ ((cfg.warn_only ≡ false)
          × ((f : FetchedCommitment) × ((fetch_commitment dep.lru cfg w.registry handle chain
                  cache).0
                ≡ ok f)
              × Matches cfg handle chain cache bytes f))

  -- A row of zone 0, modulus-switched, of the type and the zone that the handle spells.
  abbrev pub IsRowOf : Handle → EncryptionType → FheCiphertext → Type 0
  IsRowOf handle ty ct =
      (ct.security_zone ≡ pos 0)
      × (ct.compact ≡ false)
      × (ct.gzipped ≡ true)
      × (ct.encryption_type ≡ to_i32 ty)
      × (pos (handle_type (dep.big.to_be_bytes handle.u256)) ≡ to_i32 ty)
      × (handle_zone (dep.big.to_be_bytes handle.u256) ≡ 0)

module _ {Ct C ClientKey : Type 0} (dep : Deps Ct C) (state : AppState ClientKey) (w : World) where
  -- The promise: a slot, a permission, a stored row of the handle that is the committed one, and its
  -- decryption by a task that does not fail.
  abbrev pub IsServed :
      Handle → (chain : ℕ) → Option AcpData → C → (pt : ℕ) → EncryptionType → Type 0
  IsServed handle chain acp cache pt ty =
      (w.admit_slots ≢ 0)
      × IsPermitted dep w state.acp_verifier handle chain acp
      × (w.join_error ≡ none)
      × ((ct : FheCiphertext) × (fetch dep.hex dep.from_slice w.ct_server handle.hex ≡ ok ct)
          × IsRowOf dep w handle ty ct
          × IsCleared dep w state.commitment_verifier handle.u256 chain cache ct.bytes
          × (decrypt_compressed dep.big dep.tfhe state.keys.zone_0_direct ty ct.bytes ≡ ok pt))
