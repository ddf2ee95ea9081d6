-- ===== src/Http/Decision.antt =====
-- Results up to the encoding of a refusal, and the steps of `fetch_decrypt` that only encode one.
use teecryptor.Prelude.{
  ℕ, ◌≡◌, refl, ap, ◌∙◌, Bool, true, false, not, ◌||◌, Option, none, some, String, Result, ok, err,
  ◌>>=◌, map_err, ℤ, pos, eq_ℤ, ◌==◌, if◌then◌else◌, Bytes, Result-cases, inl, inr,
}
use teecryptor.Handle.{handle_type, handle_zone}
use teecryptor.Decrypt.{DecryptError, EncryptionType, from_i32}
use teecryptor.Permit.Acp.{
  AcpError, malformed, denied, expired, bad_signature, unknown_chain, misconfigured, timeout,
  transport,
}
use teecryptor.Commitment.Cache.{CommitmentError, FetchedCommitment, CommitmentConfig}
use teecryptor.CtSource.{CtFetchError, FheCiphertext}
use teecryptor.Http.Response.{v1, v2, Response, api_err, retryable, retryable_204}
use teecryptor.Http.Gates.{
  reject_acp, acp_verdict, reject_commitment, commitment_verdict, compare, rejudge,
}
use teecryptor.Http.Fetch.{
  bind, reject_ct, join_gates, check_envelope, check_type, check_metadata, check_zone, finish,
}

module _ {S : Type 0} where
  -- A result with its refusal reduced to the machine code that labels it.
  abbrev pub decision : {A : Type 0} → Result (Response S) A → Result (Option String) A
  decision r = map_err (λ resp. resp.outcome) r

  -- the same beside the cache
  abbrev pub decisions : {A C : Type 0} → Result (Response S) A × C → Result (Option String) A × C
  decisions m = (decision m.0, m.1)

  abbrev pub labels : Option (Response S) → Option (Option String)
  labels none = none
  labels (some resp) = some resp.outcome

  if-decision :
      {A : Type 0} (b : Bool) (r r' s s' : Result (Response S) A)
      → decision r ≡ decision r'
      → decision s ≡ decision s'
      → decision (if b then r else s) ≡ decision (if b then r' else s')
  if-decision true r r' s s' h k = h
  if-decision false r r' s s' h k = k

  pub >>=-decision :
      {A B : Type 0} (r r' : Result (Response S) A) (f f' : A → Result (Response S) B)
      → decision r ≡ decision r'
      → ((a : A) → decision (f a) ≡ decision (f' a))
      → decision (r >>= f) ≡ decision (r' >>= f')
  >>=-decision (ok a) (ok a') f f' e h =
      let same : a ≡ a' = cc in h a ∙ ap (λ x. decision (f' x)) same
  >>=-decision (ok a) (err x) f f' e h = cc
  >>=-decision (err x) (ok a) f f' e h = cc
  >>=-decision {A} {B} (err x) (err y) f f' e h =
      let same : x.outcome ≡ y.outcome = cc in ap err same

  pub bind-decisions :
      {A B C : Type 0} (m m' : Result (Response S) A × C) (f f' : A → C → Result (Response S) B × C)
      → decisions m ≡ decisions m'
      → ((a : A) (c : C) → decisions (f a c) ≡ decisions (f' a c))
      → decisions (bind m f) ≡ decisions (bind m' f')
  bind-decisions (ok a, c) (ok a', c') f f' e h =
      let same : a ≡ a' = cc in
      let same_cache : c ≡ c' = ap (λ p. p.1) e in
      h a c ∙ ap (λ x. decisions (f' x c)) same ∙ ap (λ x. decisions (f' a' x)) same_cache
  bind-decisions (ok a, c) (err x, c') f f' e h = cc
  bind-decisions (err x, c) (ok a, c') f f' e h = cc
  bind-decisions (err x, c) (err y, c') f f' e h =
      let same : x.outcome ≡ y.outcome = cc in
      let same_cache : c ≡ c' = ap (λ p. p.1) e in
      ap (λ o. (err o, c)) same ∙ ap (λ d. (err y.outcome, d)) same_cache

  pub join_gates-decision :
      (o o' : Option (Response S)) (r r' : Result (Response S) (Option FetchedCommitment))
      → labels o ≡ labels o'
      → decision r ≡ decision r'
      → decision (join_gates o r) ≡ decision (join_gates o' r')
  unfolding join_gates
  join_gates-decision none none r r' e h = h
  join_gates-decision none (some y) r r' e h = cc
  join_gates-decision (some x) none r r' e h = cc
  join_gates-decision (some x) (some y) r r' e h =
      let same : x.outcome ≡ y.outcome = cc in ap err same

module _ (S : Type 0) where
  pub acp_verdict-labels :
      (status : ℕ) (code : String) (r : Result AcpError (Unit {0}))
      → labels (acp_verdict {S = S} v1 status code r)
        ≡ labels (acp_verdict {S = S} v2 status code r)
  unfolding acp_verdict reject_acp api_err
  acp_verdict-labels status code (ok u) = refl
  acp_verdict-labels status code (err (malformed m)) = refl
  acp_verdict-labels status code (err denied) = refl
  acp_verdict-labels status code (err expired) = refl
  acp_verdict-labels status code (err bad_signature) = refl
  acp_verdict-labels status code (err (unknown_chain id)) = refl
  acp_verdict-labels status code (err (misconfigured m)) = refl
  acp_verdict-labels status code (err (timeout secs)) = refl
  acp_verdict-labels status code (err (transport e)) = refl

  reject_commitment-outcome :
      (e : CommitmentError)
      → (reject_commitment {S = S} v1 e).outcome ≡ (reject_commitment {S = S} v2 e).outcome
  unfolding reject_commitment api_err retryable retryable_204
  reject_commitment-outcome CommitmentError.not_found = refl
  reject_commitment-outcome (CommitmentError.timeout s) = refl
  reject_commitment-outcome (CommitmentError.transport s) = refl
  reject_commitment-outcome (CommitmentError.misconfigured s) = refl

  pub commitment_verdict-decision :
      (cfg : CommitmentConfig) (r : Result CommitmentError FetchedCommitment)
      → decision (commitment_verdict {S = S} cfg v1 r)
        ≡ decision (commitment_verdict {S = S} cfg v2 r)
  unfolding commitment_verdict
  commitment_verdict-decision cfg (ok f) = refl
  commitment_verdict-decision cfg (err e) =
      if-decision cfg.warn_only _ _ _ _ refl (ap err (reject_commitment-outcome e))

  pub compare-decision :
      (warn : Bool) (a b : ℕ)
      → decision (compare {S = S} warn v1 a b) ≡ decision (compare {S = S} warn v2 a b)
  unfolding compare api_err
  compare-decision warn a b = if-decision (a == b || warn) _ _ _ _ refl refl

  pub rejudge-decision :
      (warn : Bool) (a b : ℕ) (r : Result CommitmentError ℕ)
      → decision (rejudge {S = S} warn v1 a b r) ≡ decision (rejudge {S = S} warn v2 a b r)
  unfolding rejudge retryable retryable_204 api_err
  rejudge-decision warn a b (ok fresh) = compare-decision warn a fresh
  rejudge-decision warn a b (err CommitmentError.not_found) = if-decision warn _ _ _ _ refl refl
  rejudge-decision warn a b (err (CommitmentError.timeout s)) = compare-decision warn a b
  rejudge-decision warn a b (err (CommitmentError.transport s)) = compare-decision warn a b
  rejudge-decision warn a b (err (CommitmentError.misconfigured s)) = compare-decision warn a b

  pub check_envelope-decision :
      (ct : FheCiphertext)
      → decision (check_envelope {S = S} v1 ct) ≡ decision (check_envelope {S = S} v2 ct)
  unfolding check_envelope api_err
  check_envelope-decision ct =
      if-decision (not (eq_ℤ ct.security_zone (pos 0))) _ _ _ _ refl
        (if-decision (ct.compact || not ct.gzipped) _ _ _ _ refl refl)

  pub check_metadata-decision :
      (bytes : Bytes) (ct : FheCiphertext)
      → decision (check_metadata {S = S} v1 bytes ct)
        ≡ decision (check_metadata {S = S} v2 bytes ct)
  unfolding check_metadata api_err
  check_metadata-decision bytes ct =
      if-decision (not (eq_ℤ (pos (handle_type bytes)) ct.encryption_type)) _ _ _ _ refl
        (if-decision (not (eq_ℤ (pos (handle_zone bytes)) ct.security_zone)) _ _ _ _ refl refl)

  pub check_zone-decision :
      {ClientKey : Type 0} (o : Option ClientKey)
      → decision (check_zone {S = S} v1 o) ≡ decision (check_zone {S = S} v2 o)
  unfolding check_zone api_err
  check_zone-decision none = refl
  check_zone-decision (some ck) = refl

  pub check_type-decision :
      (code : ℤ) → decision (check_type {S = S} v1 code) ≡ decision (check_type {S = S} v2 code)
  unfolding check_type api_err
  check_type-decision code = elim (Result-cases (from_i32 code)) [
    | inl known ↦ rw (known.1, check_type) refl
    | inr unknown ↦ rw (unknown.1, check_type) refl
  ]

  pub reject_ct-outcome :
      (e : CtFetchError) → (reject_ct {S = S} v1 e).outcome ≡ (reject_ct {S = S} v2 e).outcome
  unfolding reject_ct api_err retryable retryable_204
  reject_ct-outcome CtFetchError.not_found = refl
  reject_ct-outcome CtFetchError.not_ready = refl
  reject_ct-outcome CtFetchError.timeout = refl
  reject_ct-outcome (CtFetchError.transport e) = refl
  reject_ct-outcome (CtFetchError.unexpected_status code) = refl
  reject_ct-outcome (CtFetchError.bad_response e) = refl

  pub finish-decision :
      (ty : EncryptionType) (o : Option String) (r : Result DecryptError ℕ)
      → decision (finish {S = S} v1 ty o r) ≡ decision (finish {S = S} v2 ty o r)
  unfolding finish api_err
  finish-decision ty (some j) r = refl
  finish-decision ty none (ok pt) = refl
  finish-decision ty none (err e) = refl
