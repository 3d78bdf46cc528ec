-- ===== src/Fee.antt =====
-- The fee model of a cross-federation move (wallet-fedimint/src/fee.rs). The federation's fee is a
-- closure of the caller, and a parameter here.
pub mod Inversion
pub mod Exact
use fedimint_wallets.Prelude.{
  ℕ, zero, suc, ◌+◌, ◌-◌, ◌*◌, ◌/◌, Bool, Option, some, none, ltb, leb, ◌==◌, if◌then◌else◌,
  u64_max, sat_add64, sat_mul64,
}
use fedimint_wallets.Types.Federation.{Msat}

pub record GatewayFee : Type 0 where
  pub base_msat : Msat
  pub ppm : ℕ

-- `GatewayFee::on`
unfoldable pub fee_on : GatewayFee → Msat → Msat
fee_on g amount = sat_add64 g.base_msat (sat_mul64 amount g.ppm / 1000000)

pub record GrossUp : Type 0 where
  pub invoice_amount : Msat
  pub contract_amount : Msat
  pub receive_quote : Msat

unfoldable pub delivered_net : GrossUp → Msat
delivered_net g = g.invoice_amount - g.receive_quote

abbrev pub unsolvable_gateway_ppm : ℕ
unsolvable_gateway_ppm = 1000000

unfoldable pub contract_of : GatewayFee → Msat → Msat
contract_of g invoice = invoice - fee_on g invoice

module _ (recv_gateway : GatewayFee) (recv_fed_fee : Msat → Msat) where
  -- The closure `forward`.
  unfoldable pub forward : ℕ → ℕ
  forward invoice =
      contract_of recv_gateway invoice - recv_fed_fee (contract_of recv_gateway invoice)

  -- The doubling loop, with fuel: `none` is the `return None` at `u64::MAX`, and `some none` is out
  -- of fuel.
  unfoldable pub bracket : ℕ → ℕ → ℕ → Option (Option ℕ)
  bracket zero net hi = some none
  bracket (suc fuel) net hi =
      let next = bracket fuel net (sat_mul64 hi 2) in
      if ltb (forward hi) net then (if hi == u64_max then none else next) else some (some hi)

  -- The bisection: the final `lo` and `hi`, or `none` if the fuel runs out.
  unfoldable pub bisect : ℕ → ℕ → ℕ → ℕ → Option (ℕ × ℕ)
  bisect zero net lo hi = none
  bisect (suc fuel) net lo hi =
      let mid = lo + (hi - lo) / 2 in
      let upper = bisect fuel net mid hi in
      let lower = bisect fuel net lo mid in
      if ltb 1 (hi - lo) then (if leb net (forward mid) then lower else upper) else some (lo, hi)

  unfoldable pub solved : ℕ → ℕ → GrossUp
  solved net invoice = record {
    invoice_amount = invoice;
    contract_amount = contract_of recv_gateway invoice;
    receive_quote = invoice - net;
  }

  -- The choice between the two ends.
  unfoldable pub choose : ℕ → ℕ × ℕ → ℕ
  choose net (lo, hi) = if leb net (forward lo) then lo else hi

  unfoldable pub solve_between : ℕ → Option (Option ℕ) → Option (Option GrossUp)
  solve_between net none = some none
  solve_between net (some none) = none
  solve_between net (some (some hi)) = elim (bisect 65 net net hi) [
    | none ↦ none
    | some ends ↦ some (some (solved net (choose net ends)))
  ]

  -- `gross_up`: the outer `none` is out of fuel, which never happens, and the inner one is the
  -- source's `None`.
  unfoldable pub gross_up : ℕ → Option (Option GrossUp)
  gross_up net =
      if leb unsolvable_gateway_ppm recv_gateway.ppm
      then some none
      else (solve_between net (bracket 66 net net))

unfoldable pub total_within_cap : Msat → Msat → Msat → Bool
total_within_cap receive_quote send_quote fee_cap = leb (sat_add64 receive_quote send_quote) fee_cap

unfoldable pub predicted_net : Msat → GatewayFee → Msat → Msat
predicted_net invoice g fed_fee = contract_of g invoice - fed_fee
