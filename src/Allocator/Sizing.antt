-- ===== src/Allocator/Sizing.antt =====
-- The arithmetic of funding moves: `max_fundable`, `move_fee_cap`, `funding_shortfall`, `reserved`
-- (wallet-core/src/allocator.rs). Intermediates are 128 bits wide, and are cast back to 64.
pub mod Bounds
use fedimint_wallets.Prelude.{
  ℕ, ◌+◌, ◌-◌, ◌*◌, ◌/◌, ◌%◌, ◌≤◌, ◌<◌, ◌≡◌, arith, NatMap, unwrap_or, u64_max,
}
use fedimint_wallets.Types.Federation.{FederationId, Msat}

-- `as u64`
abbrev pub to_u64 : ℕ → ℕ
to_u64 n = n % 18446744073709551616

unfoldable pub max_fundable : ℕ → ℕ → ℕ
max_fundable budget bps = to_u64 (((budget + 1) * 10000 - 1) / (10000 + bps))

unfoldable pub move_fee_cap : Msat → ℕ → Msat
move_fee_cap amount bps = to_u64 (amount * bps / 10000)

unfoldable pub funding_shortfall : Msat → Msat → Msat → ℕ → ℕ
funding_shortfall target spendable target_credit same_round_credited =
    target - spendable - target_credit - same_round_credited

unfoldable pub reserved : NatMap ℕ → FederationId → ℕ
reserved m fed = unwrap_or 0 (m fed)
