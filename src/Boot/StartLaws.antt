-- ===== src/Boot/StartLaws.antt =====
-- A process that starts runs the gates that its baked policy wants, and serves nothing past them.
use teecryptor.Prelude.{ℕ, ◌<◌, ◌≡◌, ◌⊎◌, true, false, Option, none, some, String, Result, Bytes}
use teecryptor.External.Hex.{Hex}
use teecryptor.External.Lru.{Lru}
use teecryptor.External.Rpc.{Reply, returned}
use teecryptor.Handle.{Handle}
use teecryptor.Boot.Policy.{CommitmentPolicy, EnvPolicy}
use teecryptor.Boot.Config.{Config, Host, Verifier}
use teecryptor.Boot.GateLaws.{IsRegistered}
use teecryptor.Boot.ConfigLaws.{IsGuarded}
use teecryptor.Boot.Start.{Vault, App}

module _ {C : Type 0} where
  -- The registry answered the probe of the start.
  abbrev pub IsProbed : (ℕ → ℕ → Reply String ℕ) → Verifier C → Type 0
  IsProbed version_status v =
      (status : ℕ) × (version_status v.registry v.config.version ≡ returned status)

module _ {C : Type 0} (hex : Hex) (host : Host)
    (version_status : (registry version : ℕ) → Reply String ℕ) where
  -- The commitment gate of a started process: on, probed, with the verifier of the baked block, or
  -- off with none.
  abbrev pub IsChecked : EnvPolicy → Option (Verifier C) → Type 0
  IsChecked policy verifier =
      ((policy.enable_commitment_verification ≡ true)
        × ((block : CommitmentPolicy) × (v : Verifier C) × (policy.commitment ≡ some block)
            × (verifier ≡ some v)
            × IsRegistered hex host block v
            × IsProbed version_status v))
      ⊎ ((policy.enable_commitment_verification ≡ false) × (verifier ≡ none))

module _ {ClientKey Signer C : Type 0} (hex : Hex) (host : Host) (vault : Vault ClientKey Signer)
    (version_status : (registry version : ℕ) → Reply String ℕ)
    (new_ct_source : (url : Bytes) → (timeout_ms : ℕ) → Result String (Unit {0}))
    (parallelism : ℕ) where
  -- Both gates as the policy wants them, at least one permit each, and ready.
  abbrev pub IsStarted : EnvPolicy → App ClientKey Signer C → Type 0
  IsStarted policy app =
      IsGuarded host policy app.acp_verifier
      × IsChecked hex host version_status policy app.commitment_verifier
      × (0 < app.decrypt_permits)
      × (0 < app.admit_permits)
      × (app.ready ≡ true)
