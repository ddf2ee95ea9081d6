-- ===== src/DirectDecrypt/Phase.antt =====
-- The words of `decode_block` compute what unbounded integers would: the wrapping dot product gives
-- the phase modulo 2 ^ log_mod, and the rounding finds the level that the phase is nearest to.
use native.Mathlib.Nat.{
  mod-add-mod, mod-eq_of_lt, div-add-mod, mul-div-mul_left, div-eq_of_lt-le, add-mul-mod_self_right,
  div-lt_iff_lt-mul, pow-suc, add-mod_left, mod-eq-sub-mod,
}
use native.Mathlib.Decide.{dec_lt}
use teecryptor.Prelude.{
  ℕ, zero, suc, ◌+◌, ◌-◌, ◌*◌, ◌/◌, ◌%◌, ◌^◌, ◌≤◌, ◌<◌, ◌≡◌, sym, ap, ◌∙◌, List, [], ◌∷◌, arith,
  u64_mod, wrapping_add, wrapping_mul, pow-add, pow-pos,
}
use teecryptor.DirectDecrypt.Block.{dot_from, phase, round_to}

-- The inner product over the unbounded numbers.
abbrev pub dot : List ℕ → List ℕ → ℕ
dot [] ss = 0
dot (a ∷ cs) [] = 0
dot (a ∷ cs) (s ∷ ss) = a * s + dot cs ss

dot_from-dot :
    (acc : ℕ) (cs ss : List ℕ) → dot_from acc cs ss % u64_mod ≡ (acc + dot cs ss) % u64_mod
unfolding dot_from
dot_from-dot acc [] ss = omega arith
dot_from-dot acc (a ∷ cs) [] = omega arith
dot_from-dot acc (a ∷ cs) (s ∷ ss) =
    omega (arith, dot_from-dot (wrapping_add acc (wrapping_mul a s)) cs ss)

-- 2 ^ log divides 2 ^ 64.
u64_mod-split : (log : ℕ) → log < 64 → u64_mod ≡ 2 ^ (64 - log) * 2 ^ log
u64_mod-split log h =
    ap (λ t. 2 ^ t) (let e : 64 ≡ 64 - log + log = omega arith in e) ∙ pow-add (64 - log) log

mod_u64-mod : (log x : ℕ) → log < 64 → x % u64_mod % 2 ^ log ≡ x % 2 ^ log
mod_u64-mod log x h =
    let c = 2 ^ (64 - log) in
    let parts : x ≡ x % u64_mod + x / u64_mod * c * 2 ^ log =
      omega (arith, div-add-mod x u64_mod, ap (λ t. x / u64_mod * t) (u64_mod-split log h)) in
    sym (
      ap (λ t. t % 2 ^ log) parts
      ∙ add-mul-mod_self_right (x % u64_mod) (x / u64_mod * c) (2 ^ log))

-- The wrapped phase is the true one: adding back the unbounded inner product gives the body.
pub phase-add-dot :
    (log body : ℕ) (mask sk : List ℕ)
    → log < 64
    → (phase log body (dot_from 0 mask sk) + dot mask sk) % 2 ^ log ≡ body % 2 ^ log
unfolding phase
phase-add-dot log body mask sk h =
    let d = dot_from 0 mask sk in
    let exact = dot mask sk in
    let x = body + u64_mod - d % u64_mod in
    let q = 2 ^ log in
    let k = exact / u64_mod + 1 in
    let total : x + exact ≡ body + k * u64_mod =
      omega (arith, dot_from-dot 0 mask sk, div-add-mod exact u64_mod) in
    ap (λ t. (t + exact) % q) (mod_u64-mod log x h)
    ∙ mod-add-mod x q exact
    ∙ ap (λ t. t % q)
        (total
          ∙ ap (λ t. body + t)
              (ap (λ t. k * t) (u64_mod-split log h)
                ∙ (let s : k * (2 ^ (64 - log) * q) ≡ k * 2 ^ (64 - log) * q = omega arith in s)))
    ∙ add-mul-mod_self_right body (k * 2 ^ (64 - log)) q

pos_factor : (a b : ℕ) → 0 < a * b → 0 < a
pos_factor zero b h = omega arith
pos_factor (suc a) b h = omega arith

le_times : (a b : ℕ) → 0 < a → b ≤ a * b
le_times zero b h = elim h [ ]
le_times (suc a) b h = omega arith

steps-le : (space h x : ℕ) → 0 < h → x < space * (2 * h) → (x + h) / (2 * h) ≤ space
steps-le space h x pos x_lt = omega (
  arith,
  (div-lt_iff_lt-mul {k = 2 * h} {x = x + h} {y = space + 1} (omega arith)).1 (omega arith),
)

-- Rounding: `x + h` over a step of `2 * h`.
round_to_lem :
    (log space h x : ℕ)
    → 0 < log
    → 2 ^ log ≡ space * (2 * h)
    → 0 < h
    → x < 2 ^ log
    → space < u64_mod
    → round_to log space x ≡ (x + h) / (2 * h) % space
unfolding round_to
round_to_lem log space h x pos q h_pos x_lt small =
    let half : 2 ^ log ≡ 2 ^ (log - 1) * 2 =
      ap (λ t. 2 ^ t) (let e : log ≡ suc (log - 1) = omega arith in e) ∙ pow-suc 2 (log - 1) in
    let s_pos = pos_factor space (2 * h) (omega (arith, pow-pos log)) in
    let top : x * space + 2 ^ (log - 1) ≡ space * (x + h) = omega arith in
    let steps = steps-le space h x h_pos (omega arith) in
    ap (λ t. t % u64_mod % space)
      (ap (λ t. t / 2 ^ log) top
        ∙ ap (λ t. space * (x + h) / t) q
        ∙ mul-div-mul_left (x + h) (2 * h) s_pos)
    ∙ ap (λ t. t % space) (mod-eq_of_lt (omega arith))

-- A phase within half a step of a level is rounded to that level, also where it wraps below zero.
pub round_to-level :
    (log space h x m e : ℕ)
    → 0 < log
    → 2 ^ log ≡ space * (2 * h)
    → 0 < h
    → x < 2 ^ log
    → space < u64_mod
    → m < space
    → e < 2 * h
    → (x + h) % 2 ^ log ≡ m * (2 * h) + e
    → round_to log space x ≡ m
round_to-level log space h x m e pos q h_pos x_lt small m_lt e_lt near =
    round_to_lem log space h x pos q h_pos x_lt small ∙ elim (dec_lt (x + h) (2 ^ log)) [
      | yes below ↦
          let exact : x + h ≡ m * (2 * h) + e = sym (mod-eq_of_lt below) ∙ near in
          ap (λ t. t % space) (quotient m (omega arith) (omega arith)) ∙ mod-eq_of_lt m_lt
      | no above ↦
          let exact : x + h ≡ (space + m) * (2 * h) + e = omega (
            arith,
            mod-eq-sub-mod {n = x + h} {m = 2 ^ log} (omega arith),
            mod-eq_of_lt {n = x + h - 2 ^ log} {m = 2 ^ log} (omega (arith, half-le)),
          ) in
          ap (λ t. t % space) (quotient (space + m) (omega arith) (omega arith))
          ∙ add-mod_left space m
          ∙ mod-eq_of_lt m_lt
    ]
  where
    quotient : (k : ℕ) → k * (2 * h) ≤ x + h → x + h < (k + 1) * (2 * h) → (x + h) / (2 * h) ≡ k
    quotient k lo hi = div-eq_of_lt-le (2 * h) lo hi

    half-le : h ≤ 2 ^ log
    half-le =
        let s_pos = pos_factor space (2 * h) (omega (arith, pow-pos log)) in
        omega (arith, le_times space (2 * h) s_pos)
