-- ===== src/Types/Federation.antt =====
-- Balances, federations, route prices, reservations and the allocator's snapshot
-- (wallet-core/src/types.rs).
use fedimint_wallets.Prelude.{
  ℕ, ◌+◌, ◌*◌, ◌/◌, min, Bool, Option, List, Text, NatMap, u64_max, unwrap_or,
}
use fedimint_wallets.Prelude.Int.{ℤ}

abbrev pub FederationId : Type 0
FederationId = ℕ

abbrev pub Msat : Type 0
Msat = ℕ

abbrev pub Occurrence : Type 0
Occurrence = ℕ

abbrev pub GatewayUrl : Type 0
GatewayUrl = Text

pub record FedBalance : Type 0 where
  pub spendable : Msat
  pub in_flight : Msat
  pub claimable : Msat
  pub reserved_fee : Msat

pub record FederationStatus : Type 0 where
  pub id : FederationId
  pub balance : FedBalance
  pub probed_ok : Bool
  pub reputation : ℤ
  pub shutdown_notice : Bool
  pub healthy : Bool
  pub eligible_to_fund : Bool

pub data RouteStatus : Type 0 where
  routable unroutable uneconomic_at_any_size : RouteStatus

pub record RouteEconomics : Type 0 where
  pub resolved_gateway : Option GatewayUrl
  pub min_viable_amount : Msat
  pub status : RouteStatus

pub record EvacFeeCap : Type 0 where
  pub base_msat : Msat
  pub bps : ℕ

-- `EvacFeeCap::at`: the sum is made in 128 bits and saturates back into 64.
unfoldable pub cap_at : EvacFeeCap → Msat → Msat
cap_at c net = min (c.base_msat + net * c.bps / 10000) u64_max

pub record Reservations : Type 0 where
  pub per_fed_outbound : NatMap Msat
  pub per_fed_inbound : NatMap Msat
  pub per_fed_target_credit : NatMap Msat

unfoldable pub outbound : Reservations → FederationId → Msat
outbound r fed = unwrap_or 0 (r.per_fed_outbound fed)

unfoldable pub inbound : Reservations → FederationId → Msat
inbound r fed = unwrap_or 0 (r.per_fed_inbound fed)

unfoldable pub target_credit : Reservations → FederationId → Msat
target_credit r fed = unwrap_or 0 (r.per_fed_target_credit fed)

pub record AllocatorSnapshot : Type 0 where
  pub federations : List FederationStatus
  pub spending_fed : Option FederationId
  pub standby_fed : Option FederationId
  pub per_fed_cap : Msat
  pub target_spending_balance : Msat
  pub standby_target : Msat
  pub max_fee : Msat
  pub max_fee_bps_of_move : ℕ
  pub evac_fee_base_msat : Msat
  pub evac_fee_bps : ℕ
  pub min_move : Msat
  pub route_economics_by_pair : FederationId → FederationId → Option RouteEconomics
  pub reservations : Reservations
  pub now : ℕ
