-- ===== src/Route.antt =====
-- The pricing of the routes between two federations (wallet-fedimint/src/route_econ.rs), without the
-- calls that fetch the quotes. Products and sums are 128 bits wide.
pub mod Funding
pub mod Quotient
pub mod Delivery
pub mod Floor
pub mod Choice
use fedimint_wallets.Prelude.{
  ℕ, ◌+◌, ◌-◌, ◌*◌, ◌/◌, ◌%◌, min, Bool, true, false, not, ◌&&◌, ◌||◌, Option, some, none, List, [],
  ◌∷◌, ltb, leb, ◌==◌, sat_add64, u64_max, filter, find, div_ceil, if◌then◌else◌,
}
use fedimint_wallets.Types.Federation.{
  FederationId, FederationStatus, Msat, GatewayUrl, RouteEconomics, RouteStatus, routable,
  unroutable, uneconomic_at_any_size, AllocatorSnapshot, outbound, inbound, target_credit,
}
use fedimint_wallets.Allocator.Sizing.{max_fundable, move_fee_cap, funding_shortfall}
use fedimint_wallets.Conflict.{GoalBlockers, blocks_funding_pair}
use fedimint_wallets.Fee.{GatewayFee}

abbrev pub u128_max : ℕ
u128_max = 340282366920938463463374607431768211455

-- `saturating_add` and `saturating_mul` of `u128`.
abbrev pub sat_add128 : ℕ → ℕ → ℕ
sat_add128 a b = min (a + b) u128_max

abbrev pub sat_mul128 : ℕ → ℕ → ℕ
sat_mul128 a b = min (a * b) u128_max

pub record PairFeeQuotes : Type 0 where
  pub recv_gateway : GatewayFee
  pub send_gateway : GatewayFee
  pub recv_fed : Msat
  pub send_fed : Msat

pub data FloorEstimate : Type 0 where
  routable_from : (floor : Msat) → FloorEstimate
  never_economic indeterminate : FloorEstimate

unfoldable pub zero_gateway_fee : GatewayFee
zero_gateway_fee = record { base_msat = 0; ppm = 0 }

-- The derived equality of `GatewayFee`.
abbrev pub same_fee : GatewayFee → GatewayFee → Bool
same_fee g h = g.base_msat == h.base_msat && g.ppm == h.ppm

unfoldable pub all_free : PairFeeQuotes → Bool
unfolding zero_gateway_fee
all_free q =
    same_fee q.recv_gateway zero_gateway_fee
    && (same_fee q.send_gateway zero_gateway_fee && (q.recv_fed == 0 && q.send_fed == 0))

-- `k` and `c`, and the transformed rate `q`.
abbrev pub fixed_receive : PairFeeQuotes → ℕ
fixed_receive q = sat_add64 q.recv_fed q.recv_gateway.base_msat

abbrev pub fixed_send : PairFeeQuotes → ℕ
fixed_send q = sat_add64 q.send_fed q.send_gateway.base_msat

abbrev pub send_rate : PairFeeQuotes → ℕ
send_rate q = sat_add128 1000000 q.send_gateway.ppm

-- The proof that the gateways alone cost more than the cap at every size. The least contract that
-- the protocol takes is a parameter, a constant of the fedimint SDK.
unfoldable pub gateways_over_cap : Msat → PairFeeQuotes → ℕ → Bool
gateways_over_cap minimum_contract q bps =
    let bases = sat_add64 q.recv_gateway.base_msat q.send_gateway.base_msat in
    let slope = sat_mul128 (sat_add128 q.recv_gateway.ppm q.send_gateway.ppm) 10000 in
    let cap_slope = sat_mul128 bps 1000000 in
    let common = sat_mul128 1000000 10000 in
    let margin =
      sat_add128 (sat_mul128 bases common) (sat_mul128 minimum_contract (slope - cap_slope)) in
    leb cap_slope slope && leb (sat_mul128 2 common) margin

abbrev pub cap_slope : PairFeeQuotes → ℕ → ℕ
cap_slope q bps = sat_mul128 (1000000 - q.recv_gateway.ppm) (sat_add128 10000 bps)

abbrev pub fee_slope : PairFeeQuotes → ℕ
fee_slope q = sat_mul128 10000 (send_rate q)

-- The quotient of the fixed cost, with the reserve for rounding, by what is left of each unit.
unfoldable pub floor_of_slopes : PairFeeQuotes → ℕ → Msat
floor_of_slopes q bps =
    let p = 1000000 - q.recv_gateway.ppm in
    let reserve = sat_add128 1 (div_ceil (send_rate q) 1000000) in
    let numerator = sat_mul128 10000 (
      sat_add128 (sat_mul128 (send_rate q) (fixed_receive q))
        (sat_mul128 p (sat_add128 (fixed_send q) reserve))) in
    min (div_ceil numerator (cap_slope q bps - fee_slope q)) u64_max

unfoldable pub min_viable_amount : Msat → PairFeeQuotes → ℕ → FloorEstimate
unfolding all_free gateways_over_cap floor_of_slopes
min_viable_amount minimum_contract q bps =
    if leb 1000000 q.recv_gateway.ppm
    then never_economic
    else (if all_free q
        then routable_from 0
        else (if gateways_over_cap minimum_contract q bps
            then never_economic
            else (if leb (cap_slope q bps) (fee_slope q)
                then indeterminate
                else routable_from (floor_of_slopes q bps))))

unfoldable pub modelled_fee : Msat → PairFeeQuotes → ℕ
modelled_fee net q =
    let invoice =
      div_ceil (sat_mul128 (sat_add128 net (fixed_receive q)) 1000000)
        (1000000 - q.recv_gateway.ppm) in
    let send =
      sat_add128 (div_ceil (sat_mul128 invoice q.send_gateway.ppm) 1000000)
        q.send_gateway.base_msat in
    if leb 1000000 q.recv_gateway.ppm
    then u128_max
    else sat_add128 (sat_add128 (invoice - net) send) q.send_fed

pub record GatewayQuotes : Type 0 where
  pub gateway : GatewayUrl
  pub recv : GatewayFee
  pub send : GatewayFee

-- A candidate that the loop has kept, with its cost.
pub record Priced : Type 0 where
  pub cost : ℕ
  pub gateway : GatewayUrl
  pub floor : Msat

-- The loop's three variables.
pub record Candidates : Type 0 where
  pub routable_ones : List Priced
  pub uneconomic_ones : List Priced
  pub some_indeterminate : Bool

-- `min_by_key(|(cost, ..)| *cost)`: the first of the least.
unfoldable pub cheaper : Priced → Option Priced → Priced
cheaper p none = p
cheaper p (some best) = if leb p.cost best.cost then p else best

unfoldable pub cheapest : List Priced → Option Priced
unfolding cheaper
cheapest [] = none
cheapest (p ∷ ps) = some (cheaper p (cheapest ps))

module _ (minimum_contract recv_fed send_fed reference : Msat) (bps : ℕ) where
  abbrev pub quotes_of : GatewayQuotes → PairFeeQuotes
  quotes_of g = record {
    recv_gateway = g.recv;
    send_gateway = g.send;
    recv_fed = recv_fed;
    send_fed = send_fed;
  }

  -- One turn of the loop, from its end: a candidate goes before those that come after it.
  unfoldable pub sort_candidate : FloorEstimate → GatewayQuotes → Candidates → Candidates
  sort_candidate (routable_from floor) g c = record c {
    routable_ones =
        (record { cost = modelled_fee reference (quotes_of g); gateway = g.gateway; floor = floor })
        ∷ c.routable_ones;
  }
  sort_candidate never_economic g c = record c {
    uneconomic_ones =
        (record { cost = modelled_fee reference (quotes_of g); gateway = g.gateway; floor = 0 })
        ∷ c.uneconomic_ones;
  }
  sort_candidate indeterminate g c = record c { some_indeterminate = true }

  unfoldable pub sort_candidates : List GatewayQuotes → Candidates
  unfolding sort_candidate
  sort_candidates [] = record {
    routable_ones = [];
    uneconomic_ones = [];
    some_indeterminate = false;
  }
  sort_candidates (g ∷ gs) =
      sort_candidate (min_viable_amount minimum_contract (quotes_of g) bps) g (sort_candidates gs)

unfoldable pub uneconomic_route : Option Priced → Option RouteEconomics
uneconomic_route none = none
uneconomic_route (some p) = some (record {
  resolved_gateway = some p.gateway;
  min_viable_amount = 0;
  status = uneconomic_at_any_size;
})

unfoldable pub route_of_candidates : Option Priced → Candidates → Option RouteEconomics
unfolding uneconomic_route cheapest
route_of_candidates (some p) c =
    some
      (record { resolved_gateway = some p.gateway; min_viable_amount = p.floor; status = routable })
route_of_candidates none c =
    if c.some_indeterminate then none else uneconomic_route (cheapest c.uneconomic_ones)

unfoldable pub select_gateway :
    Msat → List GatewayQuotes → Msat → Msat → Msat → ℕ → Option RouteEconomics
unfolding sort_candidates route_of_candidates
select_gateway minimum_contract candidates recv_fed send_fed reference bps =
    let c = sort_candidates minimum_contract recv_fed send_fed reference bps candidates in
    route_of_candidates (cheapest c.routable_ones) c

unfoldable pub no_serving_route : ℕ → Option RouteEconomics
no_serving_route candidate_count =
    if ltb 0 candidate_count
    then some (record { resolved_gateway = none; min_viable_amount = 0; status = unroutable })
    else none

unfoldable pub federation_quote_sample : Msat → ℕ → Msat
federation_quote_sample maximum bps = sat_add64 maximum (move_fee_cap maximum bps)
