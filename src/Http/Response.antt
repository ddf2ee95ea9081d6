-- ===== src/Http/Response.antt =====
-- src/http.rs and src/error.rs: how a response is encoded for each generation of the API.
use teecryptor.Prelude.{ℕ, Option, none, some, [], String, Result, ok, err, Bytes}

pub data ApiVersion : Type 0 where
  v1 v2 : ApiVersion

pub data RetryReason : Type 0 where
  overloaded ct_not_ready commitment_pending : RetryReason

abbrev pub reason_str : RetryReason → String
reason_str overloaded = "overloaded"
reason_str ct_not_ready = "ct_not_ready"
reason_str commitment_pending = "commitment_pending"

abbrev pub v1_status : RetryReason → ℕ
v1_status overloaded = 503
v1_status ct_not_ready = 428
v1_status commitment_pending = 428

-- `ErrorResponse`: the key `error_message` is left out where it is `none`.
pub record ErrorResponse : Type 0 where
  pub error : String
  pub error_message : Option String

-- A response with a body of the successes `S`: the header is `x-cofhe-retry-reason`, the outcome
-- the label of the metrics, which does not reach the wire.
pub data Body (S : Type 0) : Type 0 where
  empty : Body S
  error_body : ErrorResponse → Body S
  json : S → Body S

pub record Response (S : Type 0) : Type 0 where
  pub status : ℕ
  pub retry_reason : Option String
  pub body : Body S
  pub outcome : Option String

-- `(self == ApiVersion::V1).then_some(code)`
abbrev pub error_message : ApiVersion → String → Option String
error_message v1 code = some code
error_message v2 code = none

module _ {S : Type 0} where
  unfoldable pub retryable_204 : RetryReason → Response S
  retryable_204 reason = record {
    status = 204;
    retry_reason = some (reason_str reason);
    body = empty;
    outcome = some (reason_str reason);
  }

  unfoldable pub api_err : ApiVersion → ℕ → String → Response S
  api_err api status code = record {
    status = status;
    retry_reason = none;
    body = error_body (record { error = code; error_message = error_message api code });
    outcome = some code;
  }

  unfoldable pub retryable : ApiVersion → RetryReason → Response S
  unfolding api_err retryable_204
  retryable v1 reason = api_err v1 (v1_status reason) (reason_str reason)
  retryable v2 reason = retryable_204 reason

  -- A body that axum refused, by the status of the rejection.
  unfoldable pub reject : ApiVersion → ℕ → Response S
  unfolding api_err
  reject api status = api_err api status "rejected"

  -- `(StatusCode::OK, Json(..)).into_response()`
  unfoldable pub ok_json : S → Response S
  ok_json s = record { status = 200; retry_reason = none; body = json s; outcome = none }

  -- `StatusCode::NOT_FOUND.into_response()`
  unfoldable pub not_found : Response S
  not_found = record { status = 404; retry_reason = none; body = empty; outcome = none }

  unfoldable pub resolve_signature :
      {E : Type 0} → ApiVersion → Option (Result E Bytes) → Result (Response S) Bytes
  unfolding api_err
  resolve_signature api none = ok []
  resolve_signature api (some (ok sig)) = ok sig
  resolve_signature api (some (err e)) = err (api_err api 500 "signing_failed")
