-- ===== src/Permit/Resolve.antt =====
-- src/permit.rs: `ChainConfig::resolve`, the TaskManager of a chain through the address book.
pub mod Laws
use teecryptor.Prelude.{
  ℕ, zero, suc, String, Result, ok, err, ◌>>=◌, map_err, ◌==◌, if◌then◌else◌, Bytes,
}
use teecryptor.External.Rpc.{Reply, elapsed, failed, returned}
use teecryptor.Permit.Acp.{
  AcpError, malformed, denied, expired, bad_signature, unknown_chain, misconfigured, timeout,
  transport,
}
use teecryptor.Permit.Verify.{ChainConfig}

-- The errors of `getTm`, as far as the interface of the book decodes them.
pub data BookError : Type 0 where
  reverted : String → BookError
  rpc : String → BookError

unfoldable pub map_book_error : BookError → AcpError
map_book_error (reverted e) = misconfigured e
map_book_error (rpc e) = transport e

-- one bounded call
unfoldable pub book_answer : (timeout_ms : ℕ) → Reply BookError ℕ → Result AcpError ℕ
book_answer secs elapsed = err (timeout secs)
book_answer secs (failed e) = err (map_book_error e)
book_answer secs (returned address) = ok address

-- The loop from an attempt on, with the retries that are left; `replies` is what the book answers
-- to each attempt.
unfoldable pub query_book :
    (replies : ℕ → Reply BookError ℕ) → (timeout_ms left attempt : ℕ) → Result AcpError ℕ
query_book replies secs zero attempt = book_answer secs (replies attempt)
query_book replies secs (suc left) attempt =
    let retried = query_book replies secs left (suc attempt) in
    elim (book_answer secs (replies attempt)) [
      | ok address ↦ ok address
      | err e ↦ elim e [
        | transport s ↦ retried
        | timeout s ↦ retried
        | malformed m ↦ err (malformed m)
        | denied ↦ err denied
        | expired ↦ err expired
        | bad_signature ↦ err bad_signature
        | unknown_chain id ↦ err (unknown_chain id)
        | misconfigured s ↦ err (misconfigured s)
      ]
    ]

-- `parse_url` says whether the URL reads.
unfoldable pub resolve :
    (parse_url : Bytes → Result String (Unit {0}))
    → (replies : ℕ → Reply BookError ℕ) → (rpc_url : Bytes) → (timeout_ms retries : ℕ)
    → Result AcpError ChainConfig
resolve parse_url replies rpc_url secs retries = map_err misconfigured (parse_url rpc_url) >>= λ u.
    query_book replies secs retries 0 >>= λ address.
    if address == 0
    then err (misconfigured "the address book returned the zero address")
    else ok (record { rpc_url = rpc_url; task_manager = address; timeout_ms = secs })
