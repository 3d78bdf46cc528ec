-- ===== src/Route/Quotient.antt =====
-- The arithmetic of the floor, over the products that occur in it.
use native.Mathlib.Nat.{mul-add, div-mul-le_self, lt-div-mul-add, mod-eq-sub-div-mul}
use fedimint_wallets.Prelude.{
  ℕ, ◌+◌, ◌-◌, ◌*◌, ◌/◌, ◌%◌, ◌≤◌, ◌<◌, ◌≡◌, ap, ◌∙◌, arith, div_ceil, u64_max, Bool-cases, ◌==◌,
  inl, inr,
}

pub mul_mono : (a b c : ℕ) → a ≤ b → a * c ≤ b * c
mul_mono a b c h = grind arith

mul_cancel : (a b c : ℕ) → 0 < c → a * c ≤ b * c → a ≤ b
mul_cancel a b c h k = grind arith

-- The arithmetic of the quotient, over the products that occur in it.
pub floor_core :
    (p q k c n b i x share : ℕ)
    → 0 < p
    → i * p ≤ (n + k) * 1000000 + (p - 1)
    → x * 1000000 ≤ i * q
    → q ≤ share * 1000000
    → 10000 * (q * k + p * (c + (1 + share))) + 10000 * (q * n) ≤ n * (p * (10000 + b))
    → 10000 * (x + c) ≤ n * (10000 + b)
floor_core p q k c n b i x share h invoice send rate floor =
    let one : x * 1000000 * p ≤ i * q * p = mul_mono _ _ p send in
    let two : i * p * q ≤ ((n + k) * 1000000 + (p - 1)) * q = mul_mono _ _ q invoice in
    let three : q * p ≤ share * 1000000 * p = mul_mono _ _ p rate in
    let four : (p - 1) * q ≤ p * q = mul_mono (p - 1) p q (omega arith) in
    let five : x * p ≤ (n + k) * q + p * share = grind arith in mul_cancel _ _ p h (grind arith)

-- Quotients, rounded up and down.
pub div_ceil-le : (a b : ℕ) → 0 < b → div_ceil a b * b ≤ a + (b - 1)
div_ceil-le a b h =
    let below = div-mul-le_self a b in
    let rest = mod-eq-sub-div-mul a b in
    elim (Bool-cases (a % b == 0)) [
      | inl even ↦ rw even (grind arith)
      | inr odd ↦ let some_rest : 0 < a % b = ground arith in rw odd (grind arith)
    ]

pub le-div_ceil : (a b : ℕ) → 0 < b → a ≤ div_ceil a b * b
le-div_ceil a b h =
    let above = lt-div-mul-add {a = a} {b = b} h in
    let below = div-mul-le_self a b in
    let rest = mod-eq-sub-div-mul a b in
    elim (Bool-cases (a % b == 0)) [
      | inl even ↦ let no_rest : a % b ≡ 0 = ground arith in rw even (grind arith)
      | inr odd ↦ rw odd (grind arith)
    ]

pub delivers_more : (net k i p : ℕ) → p ≤ 1000000 → (net + k) * 1000000 ≤ i * p → net ≤ i
delivers_more net k i p h e =
    let le = mul_mono p 1000000 i h in let le' : i * p ≤ i * 1000000 = grind arith in omega arith

pub affine_core :
    (net k c i s bps p rate share : ℕ)
    → 0 < p
    → bps ≤ 10000
    → net ≤ 9223372036854775807
    → net ≤ i
    → i * p ≤ (net + k) * 1000000 + (p - 1)
    → rate ≡ 1000000 + s
    → rate ≤ share * 1000000
    → 10000 * (rate * k + p * (c + (1 + share))) + 10000 * (rate * net) ≤ net * (p * (10000 + bps))
    → (i ≤ u64_max) × (i - net + i * s / 1000000 + c ≤ net * bps / 10000)
affine_core net k c i s bps p rate share hp hb small more invoice out up floor =
    let x = i + i * s / 1000000 in
    let down = div-mul-le_self (i * s) 1000000 in
    let whole : i * rate ≡ i * 1000000 + i * s = ap (λ y. i * y) out ∙ mul-add i 1000000 s in
    let sent : x * 1000000 ≤ i * rate = omega arith in
    let core = floor_core p rate k c net bps i x share hp invoice sent up floor in
    let cap : net * (10000 + bps) ≡ net * 10000 + net * bps = mul-add net 10000 bps in
    let twice = mul_mono bps 10000 net hb in
    let twice' : net * bps ≤ 10000 * net = grind arith in (omega arith, omega arith)
