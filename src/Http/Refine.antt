-- ===== src/Http/Refine.antt =====
-- The stages of `fetch_decrypt` against the parts of its promise.
use teecryptor.Prelude.{
  ℕ, ◌≡◌, refl, sym, ap, ◌∙◌, inl, inr, Bool, true, false, not, ◌&&◌, Option, none, some, arith,
  Result, ok, err, ok_inj, err-ne-ok, pos, eq_ℤ, eq_ℤ_iff, ◌==◌, ==_iff, Bytes, Bool-cases,
  Result-cases,
}
use teecryptor.Handle.{Handle, handle_type, handle_zone}
use teecryptor.Decrypt.{EncryptionType, from_i32}
use teecryptor.Decrypt.Laws.{from_i32_iff}
use teecryptor.DirectDecrypt.Top.{decrypt_compressed}
use teecryptor.Keys.{client_key, direct_key}
use teecryptor.Permit.Acp.{AcpData}
use teecryptor.Permit.Verify.{Chains}
use teecryptor.Commitment.Cache.{
  CommitmentError, FetchedCommitment, CommitmentConfig, refresh_commitment, fetch_commitment,
}
use teecryptor.CtSource.{FheCiphertext, fetch}
use teecryptor.Http.Response.{ApiVersion, Response}
use teecryptor.Http.Gates.{
  acp_verdict, enforce_acp, commitment_verdict, compare, rejudge, enforce_commitment,
  enforce_commitment_integrity,
}
use teecryptor.Http.Fetch.{
  Deps, AppState, World, bind, acp_gate, commitment_gate, fetch_row, check_envelope, check_type,
  check_metadata, check_zone, check_integrity, decrypt_checked, decrypt_with, decrypt_row, finish,
}
use teecryptor.Http.FetchLaws.{acp_gate-none, compare-ok, rejudge-ok, commitment_verdict-ok}
use teecryptor.Http.Served.{IsPermitted, Matches, IsCleared, IsRowOf}

pub bind-eq :
    {E A B C : Type 0} (m : Result E A × C) (f : A → C → Result E B × C) (a : A)
    → m.0 ≡ ok a
    → (bind m f).0 ≡ (f a m.1).0
bind-eq (ok a', c) f a e = ap (λ x. (f x c).0) (ok_inj e)
bind-eq (err x, c) f a e = absurd (err-ne-ok e)

module _ {Ct C : Type 0} (dep : Deps Ct C) (w : World) {S : Type 0} (api : ApiVersion) where
  pub acp_gate-IsPermitted :
      (verifier : Option Chains) (handle : Handle) (chain : ℕ) (acp : Option AcpData)
      → IsPermitted dep w verifier handle chain acp
      → ◌≡◌ {A = Option (Response S)} (acp_gate dep w api verifier handle chain acp) none
  unfolding acp_gate enforce_acp acp_verdict
  acp_gate-IsPermitted none handle chain acp h = refl
  acp_gate-IsPermitted (some chains) handle chain none h = rw (h, acp_verdict) refl
  acp_gate-IsPermitted (some chains) handle chain (some acp) h = rw (h, acp_verdict) refl

  pub IsPermitted-acp_gate :
      (verifier : Option Chains) (handle : Handle) (chain : ℕ) (acp : Option AcpData)
      → ◌≡◌ {A = Option (Response S)} (acp_gate dep w api verifier handle chain acp) none
      → IsPermitted dep w verifier handle chain acp
  IsPermitted-acp_gate none handle chain acp e = tt
  IsPermitted-acp_gate (some chains) handle chain acp e =
      acp_gate-none dep w {S = S} api chains handle chain acp e

  pub fetch_row-IsRowOf :
      (handle : Handle) (ty : EncryptionType) (ct : FheCiphertext)
      → fetch dep.hex dep.from_slice w.ct_server handle.hex ≡ ok ct
      → IsRowOf dep w handle ty ct
      → fetch_row dep w {S = S} api handle ≡ ok ct
  unfolding fetch_row check_envelope
  fetch_row-IsRowOf handle ty ct e (zone, compact, gzipped, code, kind, place) =
      let same : eq_ℤ ct.security_zone (pos 0) ≡ true =
        (eq_ℤ_iff ct.security_zone (pos 0)).1 zone in
      rw (e, fetch_row, same, compact, gzipped) refl

  check_metadata-IsRowOf :
      (handle : Handle) (ty : EncryptionType) (ct : FheCiphertext)
      → IsRowOf dep w handle ty ct
      → ◌≡◌ {A = Result (Response S) (Unit {0})}
          (check_metadata api (dep.big.to_be_bytes handle.u256) ct)
          (ok tt)
  unfolding check_metadata
  check_metadata-IsRowOf handle ty ct (zone, compact, gzipped, code, kind, place) =
      let same_type : eq_ℤ (pos (handle_type (dep.big.to_be_bytes handle.u256))) ct.encryption_type
          ≡ true =
        (eq_ℤ_iff _ ct.encryption_type).1 (kind ∙ sym code) in
      let same_zone : eq_ℤ (pos (handle_zone (dep.big.to_be_bytes handle.u256))) ct.security_zone
          ≡ true =
        (eq_ℤ_iff _ ct.security_zone).1 (ap pos place ∙ sym zone) in
      rw (same_type, same_zone) refl

module _ {Ct C ClientKey : Type 0} (dep : Deps Ct C) (state : AppState ClientKey) (w : World)
    {S : Type 0} (api : ApiVersion) where
  pub decrypt_checked-IsRowOf :
      (handle : Handle) (ct : FheCiphertext) (pt : ℕ) (ty : EncryptionType)
      → w.join_error ≡ none
      → IsRowOf dep w handle ty ct
      → decrypt_compressed dep.big dep.tfhe state.keys.zone_0_direct ty ct.bytes ≡ ok pt
      → decrypt_checked dep state w {S = S} api handle ct ≡ ok (pt, ty)
  unfolding decrypt_checked client_key direct_key check_zone check_type decrypt_with decrypt_row
      finish
  decrypt_checked-IsRowOf handle ct pt ty joined is read =
      let (zone, compact, gzipped, code, kind, place) = is in
      let held : client_key state.keys ct.security_zone ≡ some state.keys.zone_0 = rw zone refl in
      let direct : direct_key state.keys ct.security_zone ≡ some state.keys.zone_0_direct =
        rw zone refl in
      let typed : from_i32 ct.encryption_type ≡ ok ty =
        (from_i32_iff ct.encryption_type ty).1 code in
      let meta = check_metadata-IsRowOf dep w {S = S} api handle ty ct is in
      rw
        (
          held, check_zone, typed, check_type, meta, direct, decrypt_with, joined, gzipped, read,
          finish,
        )
        refl

module _ {Ct C : Type 0} (dep : Deps Ct C) (w : World) {S : Type 0} (api : ApiVersion) where
  compare_same :
      (warn_only : Bool) (a b : ℕ)
      → a ≡ b
      → ◌≡◌ {A = Result (Response S) (Unit {0})} (compare warn_only api a b) (ok tt)
  unfolding compare
  compare_same warn_only a b same = ground arith

  compare_warn : (a b : ℕ) → ◌≡◌ {A = Result (Response S) (Unit {0})} (compare true api a b) (ok tt)
  unfolding compare
  compare_warn a b = ground arith

  rejudge_warn :
      (a b : ℕ) (r : Result CommitmentError ℕ)
      → ◌≡◌ {A = Result (Response S) (Unit {0})} (rejudge true api a b r) (ok tt)
  unfolding rejudge
  rejudge_warn a b (ok fresh) = compare_warn a fresh
  rejudge_warn a b (err CommitmentError.not_found) = refl
  rejudge_warn a b (err (CommitmentError.timeout s)) = compare_warn a b
  rejudge_warn a b (err (CommitmentError.transport s)) = compare_warn a b
  rejudge_warn a b (err (CommitmentError.misconfigured s)) = compare_warn a b

  -- the verdict of the integrity check on some bytes
  abbrev integrity :
      CommitmentConfig
      → FetchedCommitment
      → Bytes
      → (handle chain : ℕ) → C
      → Result (Response S) (Unit {0})
  integrity cfg f bytes handle chain cache =
      (enforce_commitment_integrity dep.lru dep.keccak256 (some cfg) w.reread f bytes handle chain
        api cache).0

  integrity_warn :
      (cfg : CommitmentConfig) (f : FetchedCommitment) (bytes : Bytes) (handle chain : ℕ)
      (cache : C)
      → cfg.warn_only ≡ true
      → integrity cfg f bytes handle chain cache ≡ ok tt
  unfolding enforce_commitment_integrity
  integrity_warn cfg f bytes handle chain cache warn =
      elim (Bool-cases (not (dep.keccak256 bytes == f.hash) && f.from_cache)) [
        | inl again ↦ rw (integrity, again, warn) (rejudge_warn _ _ _)
        | inr settled ↦ rw (integrity, settled, warn) (compare_warn _ _)
      ]

  integrity-Matches :
      (cfg : CommitmentConfig) (f : FetchedCommitment) (bytes : Bytes) (handle chain : ℕ)
      (cache : C)
      → Matches dep w cfg handle chain cache bytes f
      → integrity cfg f bytes handle chain
          (fetch_commitment dep.lru cfg w.registry handle chain cache).1
        ≡ ok tt
  unfolding enforce_commitment_integrity rejudge
  integrity-Matches cfg f bytes handle chain cache (inl same) =
      let equal : (dep.keccak256 bytes == f.hash) ≡ true = (==_iff _ f.hash).1 same in
      rw (integrity, equal) (compare_same cfg.warn_only _ _ same)
  integrity-Matches cfg f bytes handle chain cache (inr (cached, read)) =
      elim (Bool-cases (dep.keccak256 bytes == f.hash)) [
        | inl equal ↦
            rw (integrity, equal) (compare_same cfg.warn_only _ _ ((==_iff _ f.hash).0 equal))
        | inr stale ↦
            rw (integrity, stale, cached, read, rejudge) (compare_same cfg.warn_only _ _ refl)
      ]

  Matches-integrity :
      (cfg : CommitmentConfig) (f : FetchedCommitment) (bytes : Bytes) (handle chain : ℕ)
      (cache : C)
      → cfg.warn_only ≡ false
      → integrity cfg f bytes handle chain
          (fetch_commitment dep.lru cfg w.registry handle chain cache).1
        ≡ ok tt
      → Matches dep w cfg handle chain cache bytes f
  unfolding enforce_commitment_integrity
  Matches-integrity cfg f bytes handle chain cache strict e =
      elim (Bool-cases (not (dep.keccak256 bytes == f.hash) && f.from_cache)) [
        | inl again ↦
            elim (rejudge-ok api cfg.warn_only (dep.keccak256 bytes) f.hash
              (refresh_commitment dep.lru cfg w.reread handle chain
                (fetch_commitment dep.lru cfg w.registry handle chain cache).1).0
              strict (rw (integrity, again) at e)) [
                | inl read ↦ inr (ground arith, read)
                | inr same ↦ inl same
              ]
        | inr settled ↦ inl (
            compare-ok api cfg.warn_only (dep.keccak256 bytes) f.hash strict
              (rw (integrity, settled) at e))
      ]

module _ {Ct C ClientKey : Type 0} (dep : Deps Ct C) (state : AppState ClientKey) (w : World)
    (S : Type 0) (api : ApiVersion) where
  -- What the gate hands on, and the check behind it, for the verifier of the state.
  abbrev pub Passes :
      Option CommitmentConfig → (handle : Handle) → (chain : ℕ) → C → FheCiphertext → Type 0
  Passes verifier handle chain cache ct =
      (expected : Option FetchedCommitment) × ((commitment_gate dep w {S = S} api verifier handle
          chain cache).0
        ≡ ok expected)
      × ((check_integrity dep state w {S = S} api expected ct handle chain
            (commitment_gate dep w {S = S} api verifier handle chain cache).1).0
          ≡ ok tt)

  pub IsCleared-Passes :
      (verifier : Option CommitmentConfig) (handle : Handle) (chain : ℕ) (cache : C)
      (ct : FheCiphertext)
      → state.commitment_verifier ≡ verifier
      → IsCleared dep w verifier handle.u256 chain cache ct.bytes
      → Passes verifier handle chain cache ct
  unfolding Passes commitment_gate enforce_commitment check_integrity commitment_verdict
  IsCleared-Passes none handle chain cache ct on h = (none, refl, refl)
  IsCleared-Passes (some cfg) handle chain cache ct on (inl warn) =
      elim (Result-cases (fetch_commitment dep.lru cfg w.registry handle.u256 chain cache).0) [
        | inl found ↦ (
          some found.0,
          rw (found.1, commitment_verdict) refl,
          rw on (integrity_warn dep w {S = S} api cfg found.0 ct.bytes handle.u256 chain _ warn),
        )
        | inr missing ↦ (none, rw (missing.1, commitment_verdict, warn) refl, refl)
      ]
  IsCleared-Passes (some cfg) handle chain cache ct on (inr (strict, (f, found, match_))) = (
    some f,
    rw (found, commitment_verdict) refl,
    rw on (integrity-Matches dep w {S = S} api cfg f ct.bytes handle.u256 chain cache match_),
  )

  pub Passes-IsCleared :
      (verifier : Option CommitmentConfig) (handle : Handle) (chain : ℕ) (cache : C)
      (ct : FheCiphertext)
      → state.commitment_verifier ≡ verifier
      → Passes verifier handle chain cache ct
      → IsCleared dep w verifier handle.u256 chain cache ct.bytes
  unfolding Passes commitment_gate enforce_commitment check_integrity
  Passes-IsCleared none handle chain cache ct on h = tt
  Passes-IsCleared (some cfg) handle chain cache ct on (expected, gated, checked) =
      elim (Bool-cases cfg.warn_only) [
        | inl warn ↦ inl warn
        | inr strict ↦
            let (f, found, want) =
              commitment_verdict-ok api cfg
                (fetch_commitment dep.lru cfg w.registry handle.u256 chain cache).0 expected strict
                gated in
            inr (
              strict,
              (
                f,
                found,
                Matches-integrity dep w {S = S} api cfg f ct.bytes handle.u256 chain cache strict
                    (rw (want, on) at checked),
              ),
            )
      ]
