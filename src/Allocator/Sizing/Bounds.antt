-- ===== src/Allocator/Sizing/Bounds.antt =====
-- The largest fundable amount and its fee cap (`max_fundable`, `move_fee_cap`).
use fedimint_wallets.Prelude.{ℕ, ◌+◌, ◌-◌, ◌*◌, ◌/◌, ◌≤◌, ◌<◌, ◌≡◌, arith, u64_max}
use fedimint_wallets.Allocator.Sizing.{max_fundable, move_fee_cap}

-- Neither cast loses anything while the basis points are at most 10000.
pub move_fee_cap-le :
    (amount bps : ℕ) → bps ≤ 10000 → amount ≤ u64_max → move_fee_cap amount bps ≤ amount
unfolding move_fee_cap
move_fee_cap-le amount bps h k = grind arith

pub move_fee_cap-eq :
    (amount bps : ℕ)
    → bps ≤ 10000
    → amount ≤ u64_max
    → move_fee_cap amount bps ≡ amount * bps / 10000
unfolding move_fee_cap
move_fee_cap-eq amount bps h k = grind arith

-- The quotient that `max_fundable` returns.
quotient_bounds :
    (q budget bps : ℕ)
    → q ≡ ((budget + 1) * 10000 - 1) / (10000 + bps)
    → (q * 10000 + q * bps < (budget + 1) * 10000)
      × ((budget + 1) * 10000 ≤ (q + 1) * 10000 + (q + 1) * bps)
quotient_bounds q budget bps e = (grind arith, grind arith)

max_fundable-eq :
    (budget bps : ℕ)
    → budget ≤ u64_max
    → max_fundable budget bps ≡ ((budget + 1) * 10000 - 1) / (10000 + bps)
unfolding max_fundable
max_fundable-eq budget bps h = grind arith

max_fundable-le : (budget bps : ℕ) → budget ≤ u64_max → max_fundable budget bps ≤ budget
max_fundable-le budget bps h =
    omega
      (arith, quotient_bounds (max_fundable budget bps) budget bps (max_fundable-eq budget bps h))

-- For a 64-bit budget and a rate of at most 10000 basis points, the funded amount with its own fee
-- cap fits the budget, and one millisatoshi more does not fit.
pub max_fundable_exact :
    (budget bps : ℕ)
    → budget ≤ u64_max
    → bps ≤ 10000
    → let amount = max_fundable budget bps in
      (amount + move_fee_cap amount bps ≤ budget)
      × (budget < (amount + 1) + (amount + 1) * bps / 10000)
max_fundable_exact budget bps h k =
    let bounds =
      quotient_bounds (max_fundable budget bps) budget bps (max_fundable-eq budget bps h) in
    let fits = max_fundable-le budget bps h in
    (
      omega
          (arith, bounds, move_fee_cap-eq (max_fundable budget bps) bps k (omega (arith, fits, h))),
      omega (arith, bounds),
    )

-- A smaller amount than the largest fundable one fits too.
pub fundable_fits :
    (amount budget bps : ℕ)
    → budget ≤ u64_max
    → bps ≤ 10000
    → amount ≤ max_fundable budget bps
    → amount + move_fee_cap amount bps ≤ budget
fundable_fits amount budget bps h k le = grind (
  arith,
  max_fundable_exact budget bps h k,
  max_fundable-le budget bps h,
  move_fee_cap-eq amount bps k,
  move_fee_cap-eq (max_fundable budget bps) bps k,
)
