-- ===== src/Prelude/Words.antt =====
-- Machine words of Rust's standard library: wrapping and checked operations on `u64` and `usize`.
use Prim.Native.Nat.{ℕ, zero, suc, ◌+◌, ◌-◌, ◌*◌, ◌/◌, ◌%◌, ◌^◌, ◌≤◌}
use mathlib.Core.Path.{◌≡◌, sym}
use mathlib.Core.Bool.{Bool, true, ◌&&◌}
use native.Mathlib.Omega.{arith}
use mathlib.Core.Option.{Option, none, some}
use teecryptor.Prelude.Tests.{==_iff, &&-eq-true, ltb, leb, ◌==◌, if◌then◌else◌}

abbrev pub u64_mod : ℕ
u64_mod = 18446744073709551616

-- `wrapping_mul`, `wrapping_add`, `wrapping_sub`
abbrev pub wrapping_mul : ℕ → ℕ → ℕ
wrapping_mul a b = (a * b) % u64_mod

abbrev pub wrapping_add : ℕ → ℕ → ℕ
wrapping_add a b = (a + b) % u64_mod

abbrev pub wrapping_sub : ℕ → ℕ → ℕ
wrapping_sub a b = (a + u64_mod - b % u64_mod) % u64_mod

-- `usize::checked_mul`
abbrev pub checked_mul : ℕ → ℕ → Option ℕ
checked_mul a b = if ltb (a * b) u64_mod then some (a * b) else none

-- `div_ceil` and `next_multiple_of`; both panic at 0, which the callers rule out.
abbrev pub div_ceil : ℕ → ℕ → ℕ
div_ceil a b = (a + b - 1) / b

abbrev pub next_multiple_of : ℕ → ℕ → ℕ
next_multiple_of a b = div_ceil a b * b

-- `u64::trailing_zeros`: 64 at zero, else the number of times that 2 divides.
abbrev pub trailing_zeros_from : ℕ → ℕ → ℕ
trailing_zeros_from zero n = 0
trailing_zeros_from (suc fuel) n =
    let rest = trailing_zeros_from fuel (n / 2) in if (n % 2) == 1 then 0 else suc rest

unfoldable pub trailing_zeros : ℕ → ℕ
trailing_zeros n = trailing_zeros_from 64 n

-- `u64::is_power_of_two`
unfoldable pub is_power_of_two : ℕ → Bool
is_power_of_two n = leb 1 n && ((2 ^ trailing_zeros n) == n)

trailing_zeros_from-le : (fuel n : ℕ) → trailing_zeros_from fuel n ≤ fuel
trailing_zeros_from-le zero n = omega arith
trailing_zeros_from-le (suc fuel) n = ground (arith, trailing_zeros_from-le fuel (n / 2))

pub trailing_zeros-le : (n : ℕ) → trailing_zeros n ≤ 64
unfolding trailing_zeros
trailing_zeros-le n = trailing_zeros_from-le 64 n

pub is_power_of_two-pow : (n : ℕ) → is_power_of_two n ≡ true → n ≡ 2 ^ trailing_zeros n
unfolding is_power_of_two
is_power_of_two-pow n h = sym ((==_iff _ _).0 (&&-eq-true _ _ h).1)
