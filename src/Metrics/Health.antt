-- ===== src/Metrics/Health.antt =====
-- src/metrics/health.rs, and src/main.rs: what is registered at the start, and one round of
-- `probe_dependencies`.
use text.Mathlib.Text.{◌==◌ as str_eq}
use teecryptor.Prelude.{
  ℕ, Bool, true, false, ◌&&◌, List, [], ◌∷◌, map, String, all, ◌==◌, if◌then◌else◌, Bytes,
}
use teecryptor.Boot.Numbers.{to_string}

abbrev pub down : ℕ
down = 0

abbrev pub up : ℕ
up = 1

abbrev pub unprobed : ℕ
unprobed = 2

abbrev pub ct_source : String
ct_source = "ct_source"

abbrev pub commitment_registry : String
commitment_registry = "commitment_registry"

-- The states are the contents of the atomics.
pub record Health : Type 0 where
  pub named : List (String × ℕ)
  pub chains : List (ℕ × Bytes × ℕ)

unfoldable pub new_health : List String → (chain_ids : List ℕ) → Health
new_health dependencies chain_ids = record {
  named = map (λ d. (d, unprobed)) dependencies;
  chains = map (λ id. (id, to_string id, unprobed)) chain_ids;
}

-- The new state, and whether it is another one, which is when a line is logged.
unfoldable pub transition : (state : ℕ) → (is_up : Bool) → ℕ × Bool
transition state is_up =
    let new = if is_up then up else down in (new, if state == new then false else true)

-- The first entry of that name; one that is not registered is ignored.
unfoldable pub set_named : String → Bool → List (String × ℕ) → List (String × ℕ)
unfolding transition
set_named dependency is_up [] = []
set_named dependency is_up ((d, state) ∷ named) =
    if str_eq d dependency
    then (d, (transition state is_up).0) ∷ named
    else (d, state) ∷ set_named dependency is_up named

unfoldable pub set_first : ℕ → Bool → List (ℕ × Bytes × ℕ) → List (ℕ × Bytes × ℕ)
unfolding transition
set_first chain_id is_up [] = []
set_first chain_id is_up ((id, label, state) ∷ chains) =
    if id == chain_id
    then (id, label, (transition state is_up).0) ∷ chains
    else (id, label, state) ∷ set_first chain_id is_up chains

unfoldable pub set : String → Bool → Health → Health
unfolding set_named
set dependency is_up h = record h { named = set_named dependency is_up h.named }

unfoldable pub set_chain : ℕ → Bool → Health → Health
unfolding set_first
set_chain chain_id is_up h = record h { chains = set_first chain_id is_up h.chains }

unfoldable pub healthy : Health → Bool
healthy h = all (λ e. e.1 == up) h.named && all (λ e. e.2 == up) h.chains

-- What `main` registers: ct-server, the registry where the gate is configured, the served chains.
unfoldable pub probed : (has_registry : Bool) → List String
probed has_registry = if has_registry then ct_source ∷ commitment_registry ∷ [] else ct_source ∷ []

-- What the probes of one round answer.
pub record Probes : Type 0 where
  pub ct_source_up : Bool
  pub registry_up : Bool
  pub chain_up : ℕ → Bool

unfoldable pub probe_chains : Probes → (chain_ids : List ℕ) → Health → Health
unfolding set_chain
probe_chains probes [] h = h
probe_chains probes (id ∷ ids) h = probe_chains probes ids (set_chain id (probes.chain_up id) h)

unfoldable pub probe_round : (has_registry : Bool) → (chain_ids : List ℕ) → Probes → Health → Health
unfolding probe_chains set
probe_round has_registry chain_ids probes h =
    let h₁ = set ct_source probes.ct_source_up h in
    probe_chains probes chain_ids
      (if has_registry then set commitment_registry probes.registry_up h₁ else h₁)
