-- ===== src/Permit/Resolve/Laws.antt =====
-- When a chain's TaskManager is found: after transient failures only, within the retries.
use teecryptor.Prelude.{
  ℕ, zero, suc, ◌≡◌, ◌≢◌, refl, sym, ap, ◌∙◌, ◌↔◌, inl, inr, arith, String, Result, ok, >>=-eq-ok,
  map_err, map_err-eq-ok, ok_inj, err-ne-ok, ◌==◌, Bytes, Bool-cases, false,
}
use teecryptor.External.Rpc.{Reply, elapsed, failed, returned}
use teecryptor.Permit.Acp.{misconfigured}
use teecryptor.Permit.Verify.{ChainConfig}
use teecryptor.Permit.Resolve.{
  BookError, reverted, rpc, map_book_error, book_answer, query_book, resolve,
}

-- A failure that another attempt may mend.
pub data IsTransient : Reply BookError ℕ → Type 0 where
  late : IsTransient elapsed
  unreachable : (e : String) → IsTransient (failed (rpc e))

-- The address that the book answers to one of the attempts from `attempt` on, `left` of which may
-- follow the first, all before it having failed transiently.
pub data IsFound (replies : ℕ → Reply BookError ℕ) (address : ℕ) : (left attempt : ℕ) → Type 0 where
  now :
      (left attempt : ℕ) → replies attempt ≡ returned address → IsFound replies address left attempt
  later :
      (left attempt : ℕ)
      → IsTransient (replies attempt)
      → IsFound replies address left (suc attempt)
      → IsFound replies address (suc left) attempt

module _ (replies : ℕ → Reply BookError ℕ) (secs : ℕ) where
  book_answer-ok : (r : Reply BookError ℕ) (a : ℕ) → book_answer secs r ≡ ok a → r ≡ returned a
  unfolding book_answer
  book_answer-ok elapsed a e = absurd (err-ne-ok e)
  book_answer-ok (failed x) a e = absurd (err-ne-ok e)
  book_answer-ok (returned b) a e = ap returned (ok_inj e)

  query_book-IsFound :
      (left attempt a : ℕ)
      → query_book replies secs left attempt ≡ ok a
      → IsFound replies a left attempt
  unfolding query_book book_answer map_book_error
  query_book-IsFound zero attempt a e = now zero attempt (book_answer-ok (replies attempt) a e)
  query_book-IsFound (suc left) attempt a e =
      go (replies attempt) refl (λ p. query_book-IsFound left (suc attempt) a p)
    where
      go :
          (r : Reply BookError ℕ)
          → replies attempt ≡ r
          → (query_book replies secs left (suc attempt) ≡ ok a
              → IsFound replies a left (suc attempt))
          → IsFound replies a (suc left) attempt
      go elapsed at_ ih = later left attempt (rw at_ late) (ih (rw (at_, query_book) at e))
      go (failed (rpc s)) at_ ih =
          later left attempt (rw at_ (unreachable s)) (ih (rw (at_, query_book) at e))
      go (failed (reverted s)) at_ ih = absurd (err-ne-ok (rw (at_, query_book) at e))
      go (returned b) at_ ih =
          now (suc left) attempt (at_ ∙ ap returned (ok_inj (rw (at_, query_book) at e)))

  IsFound-query_book :
      (left attempt a : ℕ)
      → IsFound replies a left attempt
      → query_book replies secs left attempt ≡ ok a
  unfolding query_book book_answer map_book_error
  IsFound-query_book zero attempt a (now _ _ e) = rw e
  IsFound-query_book (suc left) attempt a (now _ _ e) = rw (e, query_book)
  IsFound-query_book (suc left) attempt a (later _ _ t rest) =
      go (replies attempt) refl t (IsFound-query_book left (suc attempt) a rest)
    where
      go :
          (r : Reply BookError ℕ)
          → replies attempt ≡ r
          → IsTransient r
          → query_book replies secs left (suc attempt) ≡ ok a
          → query_book replies secs (suc left) attempt ≡ ok a
      go elapsed at_ t ih = rw (at_, query_book) ih
      go (failed (rpc s)) at_ t ih = rw (at_, query_book) ih
      go (failed (reverted s)) at_ t ih = elim t [ ]
      go (returned b) at_ t ih = elim t [ ]

-- A chain is served by a TaskManager exactly when its URL reads, that address is not zero, and the
-- book answered it to the first attempt or to one of the retries, every attempt before it having
-- timed out or failed in transport.
pub resolve_iff :
    (parse_url : Bytes → Result String (Unit {0})) (replies : ℕ → Reply BookError ℕ)
    (rpc_url : Bytes) (secs retries : ℕ) (cfg : ChainConfig)
    → (resolve parse_url replies rpc_url secs retries ≡ ok cfg) ↔ (
        (address : ℕ) × (parse_url rpc_url ≡ ok tt)
        × IsFound replies address retries 0
        × (address ≢ 0)
        × (cfg ≡ record { rpc_url = rpc_url; task_manager = address; timeout_ms = secs }))
unfolding resolve
resolve_iff parse_url replies rpc_url secs retries cfg = (
  (λ e.
      let (u, read, e₁) = >>=-eq-ok (map_err misconfigured (parse_url rpc_url)) _ e in
      let (address, found, e₂) = >>=-eq-ok (query_book replies secs retries 0) _ e₁ in
      elim (Bool-cases (address == 0)) [
        | inl zero_ ↦ absurd (err-ne-ok (rw zero_ at e₂))
        | inr other ↦ (
          address,
          map_err-eq-ok misconfigured (parse_url rpc_url) tt read,
          query_book-IsFound replies secs retries 0 address found,
          ground arith,
          sym (ok_inj (rw other at e₂)),
        )
      ]),
  λ all_.
      let (address, read, found, nonzero, same) = all_ in
      let other : (address == 0) ≡ false = ground arith in
      rw (read, IsFound-query_book replies secs retries 0 address found, other, same),
)
