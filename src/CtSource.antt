-- ===== src/CtSource.antt =====
-- src/ct_source.rs: the client of ct-server's `POST /GetStoredCt`. The field `data` is `bytes` here.
pub mod Laws
mod Tests
use teecryptor.Prelude.{
  ℕ, ◌+◌, Bool, true, false, Option, none, some, List, [], ◌∷◌, ◌++◌, String, Result, ok, err,
  ◌>>=◌, map_err, ℤ, ltb, ◌==◌, if◌then◌else◌, length, Bytes, strip_prefix, unwrap_or, lower_0x,
}
use teecryptor.External.Hex.{Hex}

pub record FheCiphertext : Type 0 where
  pub handle : Bytes
  pub bytes : Bytes
  pub encryption_type : ℤ
  pub security_zone : ℤ
  pub compact : Bool
  pub gzipped : Bool

-- What `format!` puts into the message of `BadResponse`.
pub data BadBody : Type 0 where
  declared_over : (len cap : ℕ) → BadBody
  chunk : String → BadBody
  streamed_over : (cap : ℕ) → BadBody
  json : String → BadBody
  hex_data : String → BadBody

pub data CtFetchError : Type 0 where
  not_found not_ready timeout : CtFetchError
  transport : String → CtFetchError
  unexpected_status : ℕ → CtFetchError
  bad_response : BadBody → CtFetchError

pub record GetCtResponse : Type 0 where
  pub bytes : Bytes
  pub uint_type : ℤ
  pub security_zone : ℤ
  pub compact : Bool
  pub gzipped : Bool

-- A response of `reqwest`: its status, its declared length, and what each `chunk().await` gives.
pub record HttpResponse : Type 0 where
  pub status : ℕ
  pub content_length : Option ℕ
  pub chunks : List (Result String Bytes)

-- The outcome of `send().await`.
pub data Sent : Type 0 where
  timed_out : Sent
  broken : String → Sent
  answered : HttpResponse → Sent

-- 8 MiB
abbrev pub max_body_bytes : ℕ
max_body_bytes = 8388608

unfoldable pub check_status : ℕ → Result CtFetchError (Unit {0})
check_status code =
    if code == 200
    then ok tt
    else if code == 404
    then err not_found
    else if code == 428
    then err not_ready
    else err (unexpected_status code)

-- the declared length, before any byte of the body is read
unfoldable pub check_declared : Option ℕ → Result CtFetchError (Unit {0})
check_declared none = ok tt
check_declared (some len) =
    if ltb max_body_bytes len then err (bad_response (declared_over len max_body_bytes)) else ok tt

-- the loop over the chunks, on what is buffered so far
unfoldable pub read_body : List (Result String Bytes) → Bytes → Result CtFetchError Bytes
read_body [] raw = ok raw
read_body (err e ∷ chunks) raw = err (bad_response (chunk e))
read_body (ok piece ∷ chunks) raw =
    let rest = read_body chunks (raw ++ piece) in
    if ltb max_body_bytes (length raw + length piece)
    then err (bad_response (streamed_over max_body_bytes))
    else rest

module _ (hex : Hex) (from_slice : Bytes → Result String GetCtResponse) where
  -- the envelope of a body that is read whole
  unfoldable pub open_envelope : Bytes → Bytes → Result CtFetchError FheCiphertext
  open_envelope handle raw = do
    body ← map_err (λ e. bad_response (json e)) (from_slice raw)
    data_ ←
        map_err (λ e. bad_response (hex_data e))
          (hex.decode (unwrap_or (strip_prefix lower_0x body.bytes) body.bytes))
    ok (record {
      handle = handle;
      bytes = data_;
      encryption_type = body.uint_type;
      security_zone = body.security_zone;
      compact = body.compact;
      gzipped = body.gzipped;
    })

  unfoldable pub receive : Bytes → HttpResponse → Result CtFetchError FheCiphertext
  receive handle resp = check_status resp.status >>= λ _.
      check_declared resp.content_length >>= λ _.
      read_body resp.chunks [] >>= λ raw. open_envelope handle raw

  -- `sent` is what the server does with the request for a handle.
  unfoldable pub fetch : (sent : Bytes → Sent) → Bytes → Result CtFetchError FheCiphertext
  fetch sent handle = elim (sent handle) [
    | timed_out ↦ err timeout
    | broken e ↦ err (transport e)
    | answered resp ↦ receive handle resp
  ]

-- `CtSource::probe`: a 2xx answer of the health endpoint
unfoldable pub probe : Sent → Bool
probe timed_out = false
probe (broken e) = false
probe (answered resp) = if ltb resp.status 200 then false else ltb resp.status 300
