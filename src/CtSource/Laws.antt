-- ===== src/CtSource/Laws.antt =====
-- The bound on a body: what is read, and that nothing over the cap is ever taken.
use teecryptor.Prelude.{
  ◌+◌, ◌≤◌, ◌≡◌, refl, sym, ap, ◌∙◌, ◌↔◌, inl, inr, List, [], ◌∷◌, ◌++◌, map, arith, String, Result,
  ok, err, err-ne-ok, ok_inj, ltb, not_ltb, Bool-cases, length, length-append, Bytes,
}
use teecryptor.CtSource.{max_body_bytes, read_body}

-- The pieces one after the other behind what is buffered.
abbrev pub append_all : List Bytes → Bytes → Bytes
append_all [] raw = raw
append_all (piece ∷ pieces) raw = append_all pieces (raw ++ piece)

length-append_all :
    (pieces : List Bytes) (raw : Bytes) → length raw ≤ length (append_all pieces raw)
length-append_all [] raw = omega arith
length-append_all (piece ∷ pieces) raw =
    let grown : length (raw ++ piece) ≡ length raw + length piece = length-append raw piece in
    let rest : length (raw ++ piece) ≤ length (append_all pieces (raw ++ piece)) =
      length-append_all pieces (raw ++ piece) in
    omega arith

read_body_sound :
    (chunks : List (Result String Bytes)) (raw body : Bytes)
    → length raw ≤ max_body_bytes
    → read_body chunks raw ≡ ok body
    → (pieces : List Bytes) × (chunks ≡ map ok pieces)
      × (body ≡ append_all pieces raw)
      × (length body ≤ max_body_bytes)
unfolding read_body
read_body_sound [] raw body le e = let p = ok_inj e in ([], refl, sym p, rw (sym p) le)
read_body_sound (err x ∷ chunks) raw body le e = absurd (err-ne-ok e)
read_body_sound (ok piece ∷ chunks) raw body le e =
    elim (Bool-cases (ltb max_body_bytes (length raw + length piece))) [
      | inl over ↦ absurd (err-ne-ok (rw over at e))
      | inr fits ↦
          let grown : length (raw ++ piece) ≡ length raw + length piece = length-append raw piece in
          let (pieces, p, q, bound) =
            read_body_sound chunks (raw ++ piece) body (rw grown (not_ltb _ _ fits))
              (rw fits at e) in
          (piece ∷ pieces, ap (λ cs. ok piece ∷ cs) p, q, bound)
    ]

read_body_complete :
    (pieces : List Bytes) (raw : Bytes)
    → length (append_all pieces raw) ≤ max_body_bytes
    → read_body (map ok pieces) raw ≡ ok (append_all pieces raw)
unfolding read_body
read_body_complete [] raw le = refl
read_body_complete (piece ∷ pieces) raw le =
    let grown : length (raw ++ piece) ≡ length raw + length piece = length-append raw piece in
    let under : length (raw ++ piece) ≤ length (append_all pieces (raw ++ piece)) =
      length-append_all pieces (raw ++ piece) in
    let fits : length raw + length piece ≤ 8388608 = omega arith in
    let rest = read_body_complete pieces (raw ++ piece) le in ground (arith, rest)

-- A body is accepted exactly when every chunk arrives and all of them together are at most 8 MiB,
-- and it is then the chunks in their order.
pub read_body_iff :
    (chunks : List (Result String Bytes)) (body : Bytes)
    → (read_body chunks [] ≡ ok body) ↔ (
        (pieces : List Bytes) × (chunks ≡ map ok pieces)
        × (body ≡ append_all pieces [])
        × (length body ≤ max_body_bytes))
read_body_iff chunks body = (
  read_body_sound chunks [] body (omega arith),
  λ found.
      let (pieces, p, q, bound) = found in
      ap (λ cs. read_body cs []) p ∙ read_body_complete pieces [] (rw q at bound) ∙ ap ok (sym q),
)
