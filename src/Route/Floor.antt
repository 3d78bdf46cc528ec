-- ===== src/Route/Floor.antt =====
-- The floor of a route: from there on a move's fees fit its cap.
use native.Mathlib.Nat.{mul-add, mul-le-mul}
use fedimint_wallets.Types.Federation.{Msat}
use fedimint_wallets.Allocator.Sizing.{move_fee_cap}
use fedimint_wallets.Allocator.Sizing.Bounds.{move_fee_cap-eq}
use fedimint_wallets.Fee.{GrossUp, fee_on, gross_up}
use fedimint_wallets.Fee.Exact.{gross_up_solves}
use fedimint_wallets.Route.{
  PairFeeQuotes, routable_from, fixed_receive, fixed_send, send_rate, cap_slope, fee_slope,
  floor_of_slopes, all_free, gateways_over_cap, min_viable_amount, zero_gateway_fee, sat_mul128,
  sat_add128, u128_max,
}
use fedimint_wallets.Prelude.{
  some, leb, ℕ, ◌+◌, ◌-◌, ◌*◌, ◌/◌, ◌≤◌, ◌<◌, min, ◌≡◌, sym, ap, ◌∙◌, arith, div_ceil, u64_max,
  Bool-cases, true, inl, inr,
}
use fedimint_wallets.Route.Quotient.{mul_mono, div_ceil-le, le-div_ceil, delivers_more, affine_core}
use fedimint_wallets.Route.Delivery.{affine_delivers, flat-IsFedFee, solution-le, route_cost-le}

-- Quotes in range: no sum is cut, and the sending gateway keeps no more than the amount.
pub record IsInRange (q : PairFeeQuotes) (bps : ℕ) : Type 0 where
  pub send_share : q.send_gateway.ppm ≤ 1000000
  pub receive_fits : q.recv_fed + q.recv_gateway.base_msat ≤ u64_max
  pub send_fits : q.send_fed + q.send_gateway.base_msat ≤ u64_max
  pub rate : bps ≤ 10000

sat_mul128_lem :
    (a b top_a top_b : ℕ)
    → a ≤ top_a
    → b ≤ top_b
    → top_a * top_b ≤ u128_max
    → sat_mul128 a b ≡ a * b
sat_mul128_lem a b top_a top_b h k fits = let le = mul-le-mul h k in omega arith

numerator_lem :
    (rate k p c share : ℕ)
    → rate ≤ 2000000
    → k ≤ u64_max
    → p ≤ 1000000
    → c ≤ u64_max
    → share ≤ 3
    → sat_mul128 10000
        (sat_add128 (sat_mul128 rate k) (sat_mul128 p (sat_add128 c (sat_add128 1 share))))
      ≡ 10000 * (rate * k + p * (c + (1 + share)))
numerator_lem rate k p c share hr hk hp hc hs =
    let inner : sat_add128 c (sat_add128 1 share) ≡ c + (1 + share) = omega arith in
    let first = sat_mul128_lem rate k 2000000 u64_max hr hk (omega arith) in
    let second =
      ap (sat_mul128 p) inner
      ∙ sat_mul128_lem p (c + (1 + share)) 1000000 (u64_max + 4) hp (omega arith) (omega arith) in
    let le_first = mul-le-mul hr hk in
    let le_second =
      mul-le-mul {n₁ = p} {m₁ = c + (1 + share)} {n₂ = 1000000} {m₂ = u64_max + 4} hp
        (omega arith) in
    omega (arith, first, second)

module _ (q : PairFeeQuotes) (bps : ℕ) (h : IsInRange q bps) where
  abbrev left_in : ℕ
  left_in = 1000000 - q.recv_gateway.ppm

  abbrev share_out : ℕ
  share_out = div_ceil (send_rate q) 1000000

  abbrev cost_numerator : ℕ
  cost_numerator =
      10000 * (send_rate q * fixed_receive q + left_in * (fixed_send q + (1 + share_out)))

  share-le : share_out ≤ 3
  share-le = grind (arith, h.send_share)

  cap_slope-eq : cap_slope q bps ≡ left_in * (10000 + bps)
  cap_slope-eq =
      let sum : sat_add128 10000 bps ≡ 10000 + bps = omega (arith, h.rate) in
      ap (sat_mul128 left_in) sum
      ∙ sat_mul128_lem left_in (10000 + bps) 1000000 20000 (omega arith) (omega (arith, h.rate))
          (omega arith)

  fee_slope-eq : fee_slope q ≡ 10000 * send_rate q
  fee_slope-eq =
      sat_mul128_lem 10000 (send_rate q) 10000 2000000 (omega arith) (omega (arith, h.send_share))
        (omega arith)

  floor_of_slopes-eq :
      floor_of_slopes q bps ≡ min (div_ceil cost_numerator (cap_slope q bps - fee_slope q)) u64_max
  unfolding floor_of_slopes
  floor_of_slopes-eq =
      ap (λ n. min (div_ceil n (cap_slope q bps - fee_slope q)) u64_max)
        (numerator_lem (send_rate q) (fixed_receive q) left_in (fixed_send q) share_out
          (omega (arith, h.send_share)) (omega arith) (omega arith) (omega arith) share-le)

  -- Above the floor the margin of the slopes covers the fixed cost.
  above_floor :
      (net : Msat)
      → fee_slope q < cap_slope q bps
      → floor_of_slopes q bps ≤ net
      → net < u64_max
      → cost_numerator + 10000 * (send_rate q * net) ≤ net * (left_in * (10000 + bps))
  above_floor net adverse le small =
      let d = cap_slope q bps - fee_slope q in
      let quotient : div_ceil cost_numerator d ≤ net = omega (arith, floor_of_slopes-eq) in
      let enough = le-div_ceil cost_numerator d (omega arith) in
      let scaled = mul_mono (div_ceil cost_numerator d) net d quotient in
      let parts : d + fee_slope q ≡ cap_slope q bps = omega arith in
      let whole : net * cap_slope q bps ≡ net * d + net * fee_slope q =
        sym (ap (λ x. net * x) parts) ∙ mul-add net d (fee_slope q) in
      let top : net * cap_slope q bps ≡ net * (left_in * (10000 + bps)) =
        ap (λ x. net * x) cap_slope-eq in
      let bottom : net * fee_slope q ≡ net * (10000 * send_rate q) =
        ap (λ x. net * x) fee_slope-eq in
      grind arith

  -- An invoice of the affine model within the cap bounds the route's cost.
  affine_fits :
      (net i : Msat)
      → q.recv_gateway.ppm < 1000000
      → i ≤ u64_max
      → net ≤ u64_max
      → (net + fixed_receive q) * 1000000 ≤ i * left_in
      → i - net + i * q.send_gateway.ppm / 1000000 + fixed_send q ≤ net * bps / 10000
      → (r : GrossUp) × (gross_up q.recv_gateway (λ c. q.recv_fed) net ≡ some (some r))
        × (r.invoice_amount - net + fee_on q.send_gateway r.invoice_amount + q.send_fed
            ≤ move_fee_cap net bps)
  affine_fits net i share top small enough fits =
      let delivers =
        affine_delivers q.recv_gateway q.recv_fed net i share
          (omega (arith, enough, h.receive_fits)) in
      let (o, at, solves) =
        gross_up_solves q.recv_gateway (λ c. q.recv_fed) net (flat-IsFedFee q.recv_fed) small in
      let (r, is, le) = solution-le q.recv_gateway q.recv_fed net i o share top delivers solves in
      let cost = route_cost-le q net i r.invoice_amount le in
      (
        r,
        at ∙ ap some is,
        omega (arith, cost, fits, h.send_fits, move_fee_cap-eq net bps h.rate small),
      )

  affine_invoice-fits :
      (net : Msat)
      → q.recv_gateway.ppm < 1000000
      → net ≤ 9223372036854775807
      → fee_slope q < cap_slope q bps
      → floor_of_slopes q bps ≤ net
      → let i = div_ceil ((net + fixed_receive q) * 1000000) left_in in
        (i ≤ u64_max)
        × (i - net + i * q.send_gateway.ppm / 1000000 + fixed_send q ≤ net * bps / 10000)
  affine_invoice-fits net share small adverse le =
      let i = div_ceil ((net + fixed_receive q) * 1000000) left_in in
      let floor = above_floor net adverse le (omega arith) in
      affine_core net (fixed_receive q) (fixed_send q) i q.send_gateway.ppm bps left_in
        (send_rate q) share_out (omega arith) h.rate small
        (delivers_more net (fixed_receive q) i left_in (omega arith)
          (le-div_ceil ((net + fixed_receive q) * 1000000) left_in (omega arith)))
        (div_ceil-le ((net + fixed_receive q) * 1000000) left_in (omega arith))
        (omega (arith, h.send_share)) (le-div_ceil (send_rate q) 1000000 (omega arith)) floor

  free_lem :
      all_free q ≡ true
      → (fixed_receive q ≡ 0) × (left_in ≡ 1000000) × (q.send_gateway.ppm ≡ 0) × (fixed_send q ≡ 0)
  unfolding all_free zero_gateway_fee
  free_lem e = ground arith

  -- For quotes whose sums fit 64 bits, a sending gateway of a rate of at most one and a cap of at
  -- most 10000 basis points: from the floor of a routable pair on, and up to half of the largest
  -- 64-bit number, `gross_up` finds an invoice for a constant receive fee, and what the invoice adds
  -- to the net, the sending gateway's fee and the sending federation's fee together are within the
  -- fee cap of the move.
  pub floor_fits :
      (minimum net floor : Msat)
      → net ≤ 9223372036854775807
      → min_viable_amount minimum q bps ≡ routable_from floor
      → floor ≤ net
      → (r : GrossUp) × (gross_up q.recv_gateway (λ c. q.recv_fed) net ≡ some (some r))
        × (r.invoice_amount - net + fee_on q.send_gateway r.invoice_amount + q.send_fed
            ≤ move_fee_cap net bps)
  unfolding min_viable_amount
  floor_fits minimum net floor small e le = elim (Bool-cases (leb 1000000 q.recv_gateway.ppm)) [
    | inl all ↦ absurd (let no = rw all at e in cc)
    | inr part ↦ elim (Bool-cases (all_free q)) [
      | inl free ↦
          let (no_in, all_left, no_share, no_out) = free_lem free in
          let kept = ap (λ y. net * y) all_left in
          let taken = ap (λ y. net * y) no_share in
          affine_fits net net (ground arith) (omega arith) (omega arith)
            (omega (arith, no_in, kept)) (omega (arith, no_out, taken))
      | inr costs ↦ elim (Bool-cases (gateways_over_cap minimum q bps)) [
        | inl over ↦ absurd (let no = rw (part, costs, over) at e in cc)
        | inr under ↦ elim (Bool-cases (leb (cap_slope q bps) (fee_slope q))) [
          | inl steep ↦ absurd (let no = rw (part, costs, under, steep) at e in cc)
          | inr fine ↦
              let same : floor_of_slopes q bps ≡ floor =
                (let at = rw (part, costs, under, fine) at e in cc) in
              let share : q.recv_gateway.ppm < 1000000 = ground arith in
              let (top, fits) =
                affine_invoice-fits net share small (ground arith) (omega (arith, same, le)) in
              affine_fits net _ share top (omega arith)
                (le-div_ceil ((net + fixed_receive q) * 1000000) left_in (omega arith)) fits
        ]
      ]
    ]
  ]
