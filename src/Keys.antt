-- ===== src/Keys.antt =====
-- src/keys.rs: the keys that the process holds, by security zone.
use teecryptor.Prelude.{
  ℕ, Option, none, some, ℤ, pos, negsuc, ◌==◌, if◌then◌else◌, Bytes, Result, ok, ◌>>=◌, map_err,
  String,
}
use teecryptor.DirectDecrypt.Mirror.{DirectDecryptKey}

pub record KeyStore (ClientKey : Type 0) : Type 0 where
  pub zone_0 : ClientKey
  pub zone_0_direct : DirectDecryptKey

-- What `format!` puts into the message of `TeecryptorError::KeyLoad`.
pub data KeyLoad : Type 0 where
  safe_deserialize : String → KeyLoad
  direct_key_error : String → KeyLoad

-- 1 GiB
abbrev pub key_size_limit : ℕ
key_size_limit = 1073741824

module _ {ClientKey : Type 0} where
  -- The codec of `tfhe` and the derivation of the small key are arguments.
  unfoldable pub load :
      (deserialize : Bytes → (limit : ℕ) → Result String ClientKey)
      → (from_client_key : ClientKey → Result String DirectDecryptKey) → Bytes
      → Result KeyLoad (KeyStore ClientKey)
  load deserialize from_client_key bytes = do
    ck ← map_err safe_deserialize (deserialize bytes key_size_limit)
    direct ← map_err direct_key_error (from_client_key ck)
    ok (record { zone_0 = ck; zone_0_direct = direct })

  -- only zone 0 is populated
  unfoldable pub client_key : KeyStore ClientKey → ℤ → Option ClientKey
  client_key keys (pos zone) = if zone == 0 then some keys.zone_0 else none
  client_key keys (negsuc zone) = none

  unfoldable pub direct_key : KeyStore ClientKey → ℤ → Option DirectDecryptKey
  direct_key keys (pos zone) = if zone == 0 then some keys.zone_0_direct else none
  direct_key keys (negsuc zone) = none
