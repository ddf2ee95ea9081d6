-- ===== src/Metrics/HealthLaws.antt =====
-- The verdict follows the last round of probes, whatever came before.
use text.Mathlib.Text.{◌==◌ as str_eq}
use teecryptor.Prelude.{
  ℕ, ◌≡◌, refl, ap, ◌∙◌, inl, inr, Bool, true, false, ◌&&◌, List, [], ◌∷◌, map, String, all, arith,
  ◌==◌, if◌then◌else◌, Bytes, Bool-cases, ==_iff,
}
use teecryptor.Metrics.Health.{
  Health, Probes, new_health, transition, set_named, set_first, set, healthy, probed, probe_chains,
  probe_round, ct_source, commitment_registry, up,
}

abbrev pub is_listed : ℕ → List ℕ → Bool
is_listed x [] = false
is_listed x (y ∷ ys) = if y == x then true else is_listed x ys

-- The keys of a map.
abbrev pub AreDistinct : List ℕ → Type 0
AreDistinct [] = Unit {0}
AreDistinct (x ∷ xs) = (is_listed x xs ≡ false) × AreDistinct xs

-- Exactly what the start registered, in any states.
pub record IsMonitoring (has_registry : Bool) (ids : List ℕ) (h : Health) : Type 0 where
  pub names : map (λ e. e.0) h.named ≡ probed has_registry
  pub chain_ids : map (λ e. e.0) h.chains ≡ ids

transition-up : (state : ℕ) (b : Bool) → ((transition state b).0 == up) ≡ b
unfolding transition
transition-up state true = refl
transition-up state false = refl

probe_chains-named :
    (probes : Probes) (ids : List ℕ) (h : Health) → (probe_chains probes ids h).named ≡ h.named
unfolding probe_chains
probe_chains-named probes [] h = refl
probe_chains-named probes (id ∷ ids) h = probe_chains-named probes ids _

-- the chains alone
fold_chains : Probes → List ℕ → List (ℕ × Bytes × ℕ) → List (ℕ × Bytes × ℕ)
fold_chains probes [] cs = cs
fold_chains probes (id ∷ ids) cs = fold_chains probes ids (set_first id (probes.chain_up id) cs)

probe_chains-fold :
    (probes : Probes) (ids : List ℕ) (h : Health)
    → (probe_chains probes ids h).chains ≡ fold_chains probes ids h.chains
unfolding probe_chains fold_chains
probe_chains-fold probes [] h = refl
probe_chains-fold probes (id ∷ ids) h = probe_chains-fold probes ids _

-- Probes of other chains leave an entry alone.
fold_chains-cons :
    (probes : Probes) (ids : List ℕ) (id : ℕ) (label : Bytes) (state : ℕ)
    (cs : List (ℕ × Bytes × ℕ))
    → is_listed id ids ≡ false
    → fold_chains probes ids ((id, label, state) ∷ cs)
      ≡ (id, label, state) ∷ fold_chains probes ids cs
unfolding fold_chains set_first
fold_chains-cons probes [] id label state cs h = refl
fold_chains-cons probes (x ∷ ids) id label state cs h = elim (Bool-cases (x == id)) [
  | inl same ↦ let bad = rw same at h in cc
  | inr other ↦
      let differs : (id == x) ≡ false = ground arith in
      rw differs (fold_chains-cons probes ids id label state _ (rw other at h))
]

fold_chains-all :
    (probes : Probes) (ids : List ℕ) (cs : List (ℕ × Bytes × ℕ))
    → AreDistinct ids
    → map (λ e. e.0) cs ≡ ids
    → all (λ e. e.2 == up) (fold_chains probes ids cs) ≡ all probes.chain_up ids
unfolding fold_chains set_first transition
fold_chains-all probes [] [] d e = refl
fold_chains-all probes [] (c ∷ cs) d e = cc
fold_chains-all probes (x ∷ ids) [] d e = cc
fold_chains-all probes (x ∷ ids) ((id, label, state) ∷ cs) (fresh, d) e =
    let head : id ≡ x = cc in
    let tail : map (λ e'. e'.0) cs ≡ ids = cc in
    let same : (id == x) ≡ true = (==_iff id x).1 head in
    let alone : is_listed id ids ≡ false = ap (λ i. is_listed i ids) head ∙ fresh in
    rw same (
      ap (all (λ e'. e'.2 == up))
        (fold_chains-cons probes ids id label (transition state (probes.chain_up x)).0 cs alone)
      ∙ ap (λ b. b && all (λ e'. e'.2 == up) (fold_chains probes ids cs))
          (transition-up state (probes.chain_up x))
      ∙ ap (λ b. probes.chain_up x && b) (fold_chains-all probes ids cs d tail))

-- The verdict of the dependencies with a name.
named_up : Bool → Probes → Bool
named_up has_registry probes =
    probes.ct_source_up && (if has_registry then probes.registry_up else true)

abbrev set_names : Bool → Probes → List (String × ℕ) → List (String × ℕ)
set_names has_registry probes named =
    let first = set_named ct_source probes.ct_source_up named in
    if has_registry then set_named commitment_registry probes.registry_up first else first

set_names-all :
    (has_registry : Bool) (probes : Probes) (named : List (String × ℕ))
    → map (λ e. e.0) named ≡ probed has_registry
    → all (λ e. e.1 == up) (set_names has_registry probes named) ≡ named_up has_registry probes
unfolding named_up set_named probed transition
set_names-all false probes [] e = cc
set_names-all false probes ((d, s) ∷ x ∷ xs) e = cc
set_names-all false probes ((d, s) ∷ []) e =
    let first : d ≡ ct_source = cc in
    let found : str_eq d ct_source ≡ true = rw first refl in rw found (ground arith)
set_names-all true probes [] e = cc
set_names-all true probes ((d, s) ∷ []) e = cc
set_names-all true probes ((d, s) ∷ (d', s') ∷ x ∷ xs) e = cc
set_names-all true probes ((d, s) ∷ (d', s') ∷ []) e =
    let first : d ≡ ct_source = cc in
    let second : d' ≡ commitment_registry = cc in
    let found : str_eq d ct_source ≡ true = rw first refl in
    let passed : str_eq d commitment_registry ≡ false = rw first refl in
    let found' : str_eq d' commitment_registry ≡ true = rw second refl in
    rw (found, passed, found') (ground arith)

verdict :
    (has_registry : Bool) (ids : List ℕ) (probes : Probes) (h after : Health)
    → AreDistinct ids
    → IsMonitoring has_registry ids h
    → after.named ≡ set_names has_registry probes h.named
    → after.chains ≡ fold_chains probes ids h.chains
    → healthy after ≡ (named_up has_registry probes && all probes.chain_up ids)
unfolding healthy
verdict has_registry ids probes h after d is names folded =
    ap (λ l. all (λ e. e.1 == up) l && all (λ e. e.2 == up) after.chains) names
    ∙ ap
        (λ l.
          all (λ e. e.1 == up) (set_names has_registry probes h.named) && all (λ e. e.2 == up) l)
        folded
    ∙ ap (λ b. b && all (λ e. e.2 == up) (fold_chains probes ids h.chains))
        (set_names-all has_registry probes h.named is.names)
    ∙ ap (λ b. named_up has_registry probes && b)
        (fold_chains-all probes ids h.chains d is.chain_ids)

-- Whatever states the dependencies that the start registered are in, one round of probes makes the
-- verdict exactly their conjunction: ct-server, the registry where its gate is configured, and every
-- served chain, where no chain is listed twice.
pub probe_round-healthy :
    (has_registry : Bool) (ids : List ℕ) (probes : Probes) (h : Health)
    → AreDistinct ids
    → IsMonitoring has_registry ids h
    → healthy (probe_round has_registry ids probes h) ≡ (
        (probes.ct_source_up && (if has_registry then probes.registry_up else true))
        && all probes.chain_up ids)
unfolding probe_round set named_up
probe_round-healthy true ids probes h d is =
    verdict true ids probes h _ d is (probe_chains-named probes ids _)
      (probe_chains-fold probes ids _)
probe_round-healthy false ids probes h d is =
    verdict false ids probes h _ d is (probe_chains-named probes ids _)
      (probe_chains-fold probes ids _)

firsts : (ids : List ℕ) → map (λ e. e.0) (new_health [] ids).chains ≡ ids
unfolding new_health
firsts [] = refl
firsts (id ∷ ids) = ap (λ l. id ∷ l) (firsts ids)

-- What the start registers is monitored, and is not healthy before a probe.
pub new_health-IsMonitoring :
    (has_registry : Bool) (ids : List ℕ)
    → IsMonitoring has_registry ids (new_health (probed has_registry) ids)
      × (healthy (new_health (probed has_registry) ids) ≡ false)
unfolding new_health healthy probed
new_health-IsMonitoring true ids = (record { names = refl; chain_ids = firsts ids }, refl)
new_health-IsMonitoring false ids = (record { names = refl; chain_ids = firsts ids }, refl)
