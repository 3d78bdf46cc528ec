-- ===== src/Route/Delivery.antt =====
-- What the least invoice that delivers a net costs.
use native.Mathlib.Nat.{mul-add, div-mul-le_self}
use fedimint_wallets.Types.Federation.{Msat}
use fedimint_wallets.Fee.{GatewayFee, GrossUp, fee_on, contract_of, forward}
use fedimint_wallets.Fee.Inversion.{IsFedFee, forward-grows}
use fedimint_wallets.Fee.Exact.{IsSolution}
use fedimint_wallets.Route.{PairFeeQuotes}
use fedimint_wallets.Prelude.{
  Option, some, none, ltb, ◌+◌, ◌-◌, ◌*◌, ◌/◌, ◌≤◌, ◌<◌, ◌≡◌, refl, sym, ap, ◌∙◌, ltb→lt, arith,
  u64_max, Bool-cases, inl, inr,
}
use fedimint_wallets.Route.Quotient.{mul_mono}

pub fee_on-le : (g : GatewayFee) (i : Msat) → fee_on g i ≤ g.base_msat + i * g.ppm / 1000000
unfolding fee_on
fee_on-le g i = grind arith

-- The invoice of the affine model delivers the net.
pub affine_delivers :
    (g : GatewayFee) (fed net i : Msat)
    → g.ppm < 1000000
    → (net + (fed + g.base_msat)) * 1000000 ≤ i * (1000000 - g.ppm)
    → net ≤ forward g (λ c. fed) i
unfolding forward contract_of
affine_delivers g fed net i h enough =
    let fee = fee_on-le g i in
    let share = div-mul-le_self (i * g.ppm) 1000000 in
    let parts : (1000000 - g.ppm) + g.ppm ≡ 1000000 = omega arith in
    let whole : i * 1000000 ≡ i * (1000000 - g.ppm) + i * g.ppm =
      sym (ap (λ x. i * x) parts) ∙ mul-add i (1000000 - g.ppm) g.ppm in
    omega arith

pub flat-IsFedFee : (fed : Msat) → IsFedFee (λ c. fed)
flat-IsFedFee fed = record { grows = λ a b h. omega arith; gentle = λ a b h. omega arith }

-- The least invoice that delivers the net is no larger than one that delivers it.
pub solution-le :
    (g : GatewayFee) (fed net i : Msat) (o : Option GrossUp)
    → g.ppm < 1000000
    → i ≤ u64_max
    → net ≤ forward g (λ c. fed) i
    → IsSolution g (λ c. fed) net o
    → (r : GrossUp) × (o ≡ some r) × (r.invoice_amount ≤ i)
solution-le g fed net i none h top enough (inl all) = absurd (omega arith)
solution-le g fed net i none h top enough (inr short) =
    let grows = forward-grows g (λ c. fed) (omega arith) (flat-IsFedFee fed) i (u64_max - i) in
    let end : i + (u64_max - i) ≡ u64_max = omega arith in
    absurd (omega (arith, grows, ap (forward g (λ c. fed)) end))
solution-le g fed net i (some r) h top enough (exact, least, contract, net_left, fits) =
    elim (Bool-cases (ltb i r.invoice_amount)) [
      | inr le ↦ (r, refl, ground arith)
      | inl less ↦ absurd (omega (arith, least i (ltb→lt i r.invoice_amount less)))
    ]

-- What the least invoice costs, against the affine model's.
pub route_cost-le :
    (q : PairFeeQuotes) (net i inv : Msat)
    → inv ≤ i
    → inv - net + fee_on q.send_gateway inv + q.send_fed
      ≤ i - net + i * q.send_gateway.ppm / 1000000 + (q.send_fed + q.send_gateway.base_msat)
route_cost-le q net i inv h =
    let fee = fee_on-le q.send_gateway inv in
    let more = mul_mono inv i q.send_gateway.ppm h in omega arith
