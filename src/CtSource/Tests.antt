-- ===== src/CtSource/Tests.antt =====
-- Bodies in chunks, and the theorem at one.
use teecryptor.Prelude.{
  ◌≤◌, ◌≡◌, ◌↔◌, refl, [], ◌∷◌, map, List, String, Result, ok, err, length, Bytes,
}
use teecryptor.CtSource.{bad_response, chunk, not_ready, max_body_bytes, check_status, read_body}
use teecryptor.CtSource.Laws.{append_all, read_body_iff}

two_chunks : read_body (ok (1 ∷ 2 ∷ []) ∷ ok (3 ∷ []) ∷ []) [] ≡ ok (1 ∷ 2 ∷ 3 ∷ [])
unfolding read_body
two_chunks = refl

broken_off : read_body (ok (1 ∷ []) ∷ err "reset" ∷ []) [] ≡ err (bad_response (chunk "reset"))
unfolding read_body
broken_off = refl

status_run : check_status 428 ≡ err not_ready
unfolding check_status
status_run = refl

abbrev piece : Bytes
piece = 1 ∷ []

read_body_iff_example : (read_body (ok piece ∷ []) [] ≡ ok piece) ↔ (
    (pieces : List Bytes) × (◌≡◌ {A = List (Result String Bytes)} (ok piece ∷ []) (map ok pieces))
    × (piece ≡ append_all pieces [])
    × (length piece ≤ max_body_bytes))
read_body_iff_example = read_body_iff (ok piece ∷ []) piece
