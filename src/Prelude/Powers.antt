-- ===== src/Prelude/Powers.antt =====
-- Powers of two and arithmetic modulo a number, for words whose width is a variable.
use Prim.Native.Nat.{ℕ, zero, suc, ◌+◌, ◌-◌, ◌*◌, ◌%◌, ◌^◌, ◌≤◌, ◌<◌}
use mathlib.Core.Path.{◌≡◌, sym, ap, ◌∙◌}
use native.Mathlib.Omega.{arith}
use native.Mathlib.Nat.{pow-suc, mod-add-mod, add-mul-mod_self_right}

pub pow-add : (n k : ℕ) → 2 ^ (n + k) ≡ 2 ^ n * 2 ^ k
pow-add n zero = omega (arith, ap (λ t. 2 ^ t) (let e : n + 0 ≡ n = omega arith in e))
pow-add n (suc k) =
    ap (λ t. 2 ^ t) (let e : n + suc k ≡ suc (n + k) = omega arith in e)
    ∙ pow-suc 2 (n + k)
    ∙ omega (arith, ap (λ t. t * 2) (pow-add n k), ap (λ t. 2 ^ n * t) (pow-suc 2 k))

pub pow-pos : (n : ℕ) → 0 < 2 ^ n
pow-pos zero = omega arith
pow-pos (suc n) = omega (arith, pow-suc 2 n, pow-pos n)

pub pow_mono : (n k : ℕ) → n ≤ k → 2 ^ n ≤ 2 ^ k
pow_mono n k h =
    let split : 2 ^ k ≡ 2 ^ n * 2 ^ (k - n) =
      ap (λ t. 2 ^ t) (let e : k ≡ n + (k - n) = omega arith in e) ∙ pow-add n (k - n) in
    let positive = pow-pos (k - n) in grind arith

-- A summand that both sides share drops out of a congruence.
pub mod-add_cancel : (a b d : ℕ) {q : ℕ} → 0 < q → (a + d) % q ≡ (b + d) % q → a % q ≡ b % q
mod-add_cancel a b d {q} pos e = sym (clear a) ∙ same ∙ clear b
  where
    whole : d * (q - 1 + 1) ≡ d * q
    whole = ap (λ s. d * s) (omega arith)

    clear : (t : ℕ) → ((t + d) % q + d * (q - 1)) % q ≡ t % q
    clear t =
        mod-add-mod (t + d) q (d * (q - 1))
        ∙ ap (λ k. k % q) (let s : t + d + d * (q - 1) ≡ t + d * q = omega (arith, whole) in s)
        ∙ add-mul-mod_self_right t d q

    same : ((a + d) % q + d * (q - 1)) % q ≡ ((b + d) % q + d * (q - 1)) % q
    same = ap (λ k. (k + d * (q - 1)) % q) e

-- A digit below `k` beside a number below `s`.
pub mul-add-lt : (m s k e : ℕ) → m < s → e < k → m * k + e < s * k
mul-add-lt m s k e m_lt e_lt =
    omega (arith, ap (λ (t : ℕ). t * k) (let w : s ≡ m + 1 + (s - m - 1) = omega arith in w))
