-- ===== src/Http/Bodies.antt =====
-- src/http.rs: the request and response bodies of the handlers, and the rows of the poll caches.
use teecryptor.Prelude.{ℕ, Bool, Option, String, ℤ, Bytes}
use teecryptor.Permit.Acp.{AcpData}

-- `DecryptRequest` and `SealOutputRequest`, which have the same fields.
pub record Request : Type 0 where
  pub ct_tempkey : Bytes
  pub host_chain_id : ℕ
  pub acp : Option AcpData

pub record DecryptResponse : Type 0 where
  pub decrypted : Bytes
  pub signature : Bytes
  pub encryption_type : ℤ
  pub error_message : Option String

pub record UserSealedResponse : Type 0 where
  pub bytes : Bytes
  pub public_key : Bytes
  pub nonce : Bytes

pub record SealOutputResponse : Type 0 where
  pub sealed : Option UserSealedResponse
  pub signature : Bytes
  pub encryption_type : ℤ
  pub error_message : Option String

-- The timestamps are the text of `to_rfc3339`.
pub record V2CachedResult : Type 0 where
  pub decrypted : Bytes
  pub signature : Bytes
  pub encryption_type : ℤ
  pub submitted_at : Bytes
  pub completed_at : Bytes

pub record V2SealCachedResult : Type 0 where
  pub sealed_data : Bytes
  pub ephemeral_public_key : Bytes
  pub nonce : Bytes
  pub signature : Bytes
  pub encryption_type : ℤ
  pub submitted_at : Bytes
  pub completed_at : Bytes

pub data RequestStatusHttp : Type 0 where
  processing completed : RequestStatusHttp

pub record V2DecryptSubmitResponse : Type 0 where
  pub request_id : Bytes
  pub decrypted : Option Bytes
  pub signature : Option Bytes
  pub encryption_type : Option ℤ

pub record V2DecryptStatusResponse : Type 0 where
  pub request_id : Bytes
  pub status : RequestStatusHttp
  pub submitted_at : Bytes
  pub completed_at : Option Bytes
  pub is_succeed : Option Bool
  pub decrypted : Option Bytes
  pub signature : Option Bytes
  pub encryption_type : Option ℤ
  pub error_message : Option String

pub record V2SealOutputSubmitResponse : Type 0 where
  pub request_id : Bytes
  pub sealed_data : Option Bytes
  pub ephemeral_public_key : Option Bytes
  pub nonce : Option Bytes
  pub signature : Option Bytes
  pub encryption_type : Option ℤ

pub record V2SealOutputStatusResponse : Type 0 where
  pub request_id : Bytes
  pub status : RequestStatusHttp
  pub submitted_at : Bytes
  pub completed_at : Option Bytes
  pub is_succeed : Option Bool
  pub sealed : Option UserSealedResponse
  pub signature : Option Bytes
  pub encryption_type : Option ℤ
  pub error_message : Option String
