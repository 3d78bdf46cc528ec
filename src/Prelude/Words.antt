-- ===== src/Prelude/Words.antt =====
-- Saturating arithmetic on machine words. Saturating subtraction is `-` on ℕ.
use Prim.Native.Nat.{ℕ, zero, suc, ◌+◌, ◌*◌, ◌/◌, ◌%◌, ◌^◌, ◌≤◌, min}
use native.Mathlib.Nat.{pow-suc}
use native.Mathlib.Omega.{arith}
use fedimint_wallets.Prelude.Tests.{if◌then◌else◌, ◌==◌}

abbrev pub u64_max : ℕ
u64_max = 18446744073709551615

abbrev pub u32_max : ℕ
u32_max = 4294967295

-- `u64::saturating_add`, `u64::saturating_mul` and their 32-bit forms.
abbrev pub sat_add64 : ℕ → ℕ → ℕ
sat_add64 a b = min (a + b) u64_max

abbrev pub sat_mul64 : ℕ → ℕ → ℕ
sat_mul64 a b = min (a * b) u64_max

abbrev pub sat_add32 : ℕ → ℕ → ℕ
sat_add32 a b = min (a + b) u32_max

abbrev pub sat_mul32 : ℕ → ℕ → ℕ
sat_mul32 a b = min (a * b) u32_max

-- `div_ceil`
abbrev pub div_ceil : ℕ → ℕ → ℕ
div_ceil a b = a / b + (if a % b == 0 then 0 else 1)

pub two_pow_pos : (n : ℕ) → 1 ≤ 2 ^ n
two_pow_pos zero = omega arith
two_pow_pos (suc n) = omega (arith, pow-suc 2 n, two_pow_pos n)
