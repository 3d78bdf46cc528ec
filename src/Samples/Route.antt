-- ===== src/Samples/Route.antt =====
-- The theorems on route prices at concrete inputs.
use fedimint_wallets.Prelude.{◌+◌, ◌-◌, ◌≤◌, ◌≡◌, refl, some, List, [], ◌∷◌, arith, codes, find}
use fedimint_wallets.Types.Federation.{RouteEconomics, RouteStatus, inbound, outbound}
use fedimint_wallets.Allocator.Sizing.{move_fee_cap}
use fedimint_wallets.Fee.{GatewayFee, GrossUp, gross_up, fee_on}
use fedimint_wallets.Route.{
  PairFeeQuotes, GatewayQuotes, routable_from, min_viable_amount, all_free, zero_gateway_fee,
  gateways_over_cap, floor_of_slopes, select_gateway, sort_candidates, sort_candidate,
  route_of_candidates, cheapest, cheaper, modelled_fee,
}
use fedimint_wallets.Samples.{snapshot, spending, standby}
use fedimint_wallets.Route.Floor.{IsInRange, floor_fits}
use fedimint_wallets.Route.Choice.{IsChosen, select_gateway-IsChosen}
use fedimint_wallets.Route.Funding.{maximum_funding_amount, maximum_funding_amount-le}

abbrev gateway_fee : GatewayFee
gateway_fee = record { base_msat = 100; ppm = 1000 }

abbrev quotes : PairFeeQuotes
quotes = record {
  recv_gateway = gateway_fee;
  send_gateway = gateway_fee;
  recv_fed = 50;
  send_fed = 50;
}

quotes-IsInRange : IsInRange quotes 100
quotes-IsInRange = record {
  send_share = omega arith;
  receive_fits = omega arith;
  send_fits = omega arith;
  rate = omega arith;
}

quotes_floor : min_viable_amount 5000 quotes 100 ≡ routable_from 37923
unfolding min_viable_amount all_free zero_gateway_fee gateways_over_cap floor_of_slopes
quotes_floor = refl

floor_fits_example :
    (r : GrossUp) × (gross_up gateway_fee (λ c. 50) 100000 ≡ some (some r))
    × (r.invoice_amount - 100000 + fee_on gateway_fee r.invoice_amount + 50
        ≤ move_fee_cap 100000 100)
floor_fits_example =
    floor_fits quotes 100 quotes-IsInRange 5000 100000 37923 (omega arith) quotes_floor
      (omega arith)

-- Two gateways, of which the second is cheaper.
abbrev gateways : List GatewayQuotes
gateways =
    (record { gateway = codes "dear"; recv = gateway_fee; send = gateway_fee })
    ∷ (record {
      gateway = codes "cheap";
      recv = record { base_msat = 0; ppm = 1000 };
      send = record { base_msat = 0; ppm = 1000 };
    })
    ∷ []

abbrev cheap_route : RouteEconomics
cheap_route = record {
  resolved_gateway = some (codes "cheap");
  min_viable_amount = 12891;
  status = RouteStatus.routable;
}

gateways_select : select_gateway 5000 gateways 50 50 100000 100 ≡ some cheap_route
unfolding select_gateway sort_candidates sort_candidate route_of_candidates cheapest cheaper
    modelled_fee min_viable_amount all_free zero_gateway_fee gateways_over_cap floor_of_slopes
gateways_select = refl

select_gateway-IsChosen_example : IsChosen 5000 50 50 100000 100 gateways cheap_route
select_gateway-IsChosen_example =
    select_gateway-IsChosen 5000 50 50 100000 100 gateways cheap_route gateways_select refl

maximum_funding_amount-le_example :
    let m = maximum_funding_amount snapshot 2 1 in
    (m + move_fee_cap m 100 ≤ 900000 - outbound snapshot.reservations 2)
    × (m ≤ 1000000 - 50000 - inbound snapshot.reservations 1)
unfolding find
maximum_funding_amount-le_example =
    maximum_funding_amount-le snapshot 2 1 standby spending refl refl (omega arith) (omega arith)
