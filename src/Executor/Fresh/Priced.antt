-- ===== src/Executor/Fresh/Priced.antt =====
-- What a quote of a fresh move says: it ends, and it never delivers more than was asked for.
use fedimint_wallets.Prelude.{◌≤◌, inl, inr, ltb, ◌==◌, Bool-cases, sat_add64}
use fedimint_wallets.Types.Federation.{FederationId, Msat, GatewayUrl}
use fedimint_wallets.Fee.{GatewayFee, GrossUp, fee_on}
use fedimint_wallets.Fee
use fedimint_wallets.Executor.Run.{
  Returns, IsTotal, Answers, Returns-Answers, Returns-bind, Returns-weaken,
}
use fedimint_wallets.Executor.Cost.{
  FreshMoveCost, CandidateQuote, priced, unquotable, delivered_net,
}
use fedimint_wallets.Executor.GrossUp.{resolve_receive_gross_up}
use fedimint_wallets.Executor.GrossUp.Verified.{no_record}
use fedimint_wallets.Executor.GrossUp.Settled.{gross_up-IsVerified}
use fedimint_wallets.Executor.Fresh.{
  SendQuote, tx_fee, insufficient_balance, Sdk, FreshSendRequiredGatewayFees, send_quoted,
  price_send, quote_fresh_send_required_cost,
}

-- Every call of the SDK ends.
pub record IsTotalSdk {W : Type 0} (sdk : Sdk W) : Type 0 where
  pub balance : (f : FederationId) → IsTotal (sdk.balance f)
  pub receive_gateway_fee :
      (f : FederationId) (g : GatewayUrl) → IsTotal (sdk.receive_gateway_fee f g)
  pub send_gateway_fee :
      (f : FederationId) (g : GatewayUrl) → IsTotal (sdk.direct_swap_send_gateway_fee f g)
  pub receive_fee_quote : (f : FederationId) (a : Msat) → IsTotal (sdk.receive_fee_quote f a)
  pub send_fee_quote : (f : FederationId) (a : Msat) → IsTotal (sdk.send_fee_quote_for_amount f a)

abbrev pub IsWithinAsk : Msat → CandidateQuote → Type 0
IsWithinAsk amount (unquotable shortfall) = Unit
IsWithinAsk amount (priced cost) = delivered_net cost ≤ amount

module _ {W : Type 0} (sdk : Sdk W) (total : IsTotalSdk sdk) (source dest : FederationId)
    (fees : FreshSendRequiredGatewayFees) where
  send_quoted_within :
      (amount : Msat) (r : GrossUp) (gateway_quote : Msat) (q : SendQuote)
      → Fee.delivered_net r ≤ amount
      → IsWithinAsk amount (send_quoted sdk r gateway_quote q)
  unfolding Fee.delivered_net
  send_quoted_within amount r gateway_quote (tx_fee fee) h = h
  send_quoted_within amount r gateway_quote (insufficient_balance shortfall) h = tt

  price_send_within :
      (amount : Msat) (r : GrossUp) (w : W)
      → Fee.delivered_net r ≤ amount
      → Returns (λ q _. IsWithinAsk amount q) (price_send sdk source fees.send r w)
  price_send_within amount r w h =
      elim (Bool-cases (ltb r.contract_amount sdk.minimum_incoming_contract)) [
        | inl small ↦ rw small tt
        | inr enough ↦ rw enough (
            Returns-bind _ _ (sdk.send_fee_quote_for_amount source outgoing w) _
              (Returns-Answers (sdk.send_fee_quote_for_amount source outgoing)
                (total.send_fee_quote source outgoing) w)
              λ q u asked. send_quoted_within amount r (fee_on fees.send r.invoice_amount) q h)
      ]
    where
      outgoing : Msat
      outgoing = sat_add64 r.invoice_amount (fee_on fees.send r.invoice_amount)

  pub quote_within :
      (amount : Msat) (w : W)
      → Returns
          (λ q _. IsWithinAsk amount q)
          (quote_fresh_send_required_cost sdk source dest fees amount w)
  unfolding quote_fresh_send_required_cost
  quote_within amount w = elim (Bool-cases (amount == 0)) [
    | inl nothing ↦ rw nothing tt
    | inr something ↦ rw something (
        Returns-bind _ _ (resolve_receive_gross_up fees.recv (sdk.receive_fee_quote dest) amount w)
          _
          (gross_up-IsVerified fees.recv (sdk.receive_fee_quote dest) amount (λ w' c fee. Unit {0})
            (no_record (sdk.receive_fee_quote dest) (total.receive_fee_quote dest)) w)
          λ r u verified. price_send_within amount r u verified.never_over)
  ]

  pub quote-IsTotal :
      (amount : Msat) → IsTotal (quote_fresh_send_required_cost sdk source dest fees amount)
  quote-IsTotal amount w = Returns-weaken _ (λ q u h. tt) (quote_within amount w)

  -- A price that was quoted for an ask delivers at most the ask.
  pub quoted_within :
      (amount : Msat) (cost : FreshMoveCost) (u : W)
      → Answers (quote_fresh_send_required_cost sdk source dest fees amount) (priced cost) u
      → delivered_net cost ≤ amount
  quoted_within amount cost u (w, e) = rw e at (quote_within amount w)
