-- ===== src/Executor/Fresh.antt =====
-- The sizing of a fresh evacuation against the live federations
-- (`quote_fresh_send_required_cost` and `size_fresh_evacuation` of wallet-fedimint/src/executor.rs).
-- The SDK's balances and quotes are parameters, which may answer differently each time.
pub mod Priced
pub mod Sized
use fedimint_wallets.Prelude.{
  ℕ, ◌-◌, min, Bool, true, false, ◌||◌, Option, some, none, List, [], ◌∷◌, Text, codes, ltb, ◌==◌,
  is_some, if◌then◌else◌, sat_add64,
}
use fedimint_wallets.Prelude.Print.{decimal, concat}
use fedimint_wallets.Types.Federation.{FederationId, Msat, GatewayUrl, EvacFeeCap}
use fedimint_wallets.Types.Action.{
  Action, direct_inflow, move, evacuate, pay, receive, join, recover, refuse_inflow,
}
use fedimint_wallets.Types.Record.{MoveRecord}
use fedimint_wallets.Allocator.Keys.{to_hex}
use fedimint_wallets.Fee.{GatewayFee, GrossUp, fee_on}
use fedimint_wallets.Intent.{EvacuationRefusalEvidence}
use fedimint_wallets.Journal.{retryable, structural_evacuation_refusal, permanent}
use fedimint_wallets.Executor.Run.{Outcome, Run, ◌>>=◌, pure, raise}
use fedimint_wallets.Executor.Cost.{
  CandidateQuote, priced, unquotable, evacuation_cap_rule, apply_evacuation_sizing,
}
use fedimint_wallets.Executor.Diagnosis.{EvacuationSizing, sized, refused, structural_refused}
use fedimint_wallets.Executor.Evacuation.{has_move_artifact, size_evacuation}
use fedimint_wallets.Executor.GrossUp.{resolve_receive_gross_up}

-- The send-side dry run: its fee, or how far the source falls short; other errors end the run.
pub data SendQuote : Type 0 where
  tx_fee : (fee : Msat) → SendQuote
  insufficient_balance : (shortfall : ℕ) → SendQuote

pub record Sdk (W : Type 0) : Type 0 where
  pub balance : FederationId → Run W Msat
  pub receive_gateway_fee : FederationId → GatewayUrl → Run W GatewayFee
  pub direct_swap_send_gateway_fee : FederationId → GatewayUrl → Run W GatewayFee
  pub receive_fee_quote : FederationId → Msat → Run W Msat
  pub send_fee_quote_for_amount : FederationId → Msat → Run W SendQuote
  pub minimum_incoming_contract : Msat

pub record FreshSendRequiredGatewayFees : Type 0 where
  pub recv : GatewayFee
  pub send : GatewayFee

unfoldable pub would_exceed_cap : Msat → Msat → Msat → Bool
would_exceed_cap dest amount cap = ltb cap (sat_add64 dest amount)

unfoldable pub evacuation_cap_room : Msat → Msat → Option Msat
evacuation_cap_room dest cap = if ltb 0 (cap - dest) then some (cap - dest) else none

pub no_room_text : FederationId → Msat → Msat → Text
no_room_text dest balance cap = concat (
    (codes "no cap room at destination: federation ")
    ∷ (to_hex dest)
    ∷ (codes " holds ")
    ∷ (decimal balance)
    ∷ (codes " msat at/above the per-fed cap ")
    ∷ (decimal cap)
    ∷ (codes " msat, so an evacuation cannot drain into it")
    ∷ [])

pub over_cap_text : Msat → Msat → Msat → FederationId → Text
over_cap_text dest amount cap fed = concat (
    (codes "destination would exceed the per-fed cap (")
    ∷ (decimal dest)
    ∷ (codes "+")
    ∷ (decimal amount)
    ∷ (codes " > ")
    ∷ (decimal cap)
    ∷ (codes " msat) for federation ")
    ∷ (to_hex fed)
    ∷ [])

pub no_fit_text : Msat → Msat → EvacFeeCap → Text → Text
no_fit_text desired spendable cap reason = concat (
    (codes "no evacuable amount fits: desired ")
    ∷ (decimal desired)
    ∷ (codes " msat, source balance ")
    ∷ (decimal spendable)
    ∷ (codes " msat, evacuation fee cap ")
    ∷ (decimal cap.base_msat)
    ∷ (codes " msat + ")
    ∷ (decimal cap.bps)
    ∷ (codes " bps (retrying — a later tick may succeed once in-flight funds settle or the ")
    ∷ (codes "quote moves); ")
    ∷ (reason)
    ∷ [])

pub no_source_text : Text
no_source_text =
    concat ((codes "Evacuate record requires a send leg but has no source federation") ∷ [])

module _ {W : Type 0} (sdk : Sdk W) where
  abbrev pub send_quoted : GrossUp → Msat → SendQuote → CandidateQuote
  send_quoted grossed gateway_quote (insufficient_balance shortfall) = unquotable (some shortfall)
  send_quoted grossed gateway_quote (tx_fee fee) = priced (record {
    invoice_amount = grossed.invoice_amount;
    receive_quote = grossed.receive_quote;
    send_quote = sat_add64 gateway_quote fee;
  })

  abbrev pub price_send : FederationId → GatewayFee → GrossUp → Run W CandidateQuote
  price_send source send grossed =
      if ltb grossed.contract_amount sdk.minimum_incoming_contract
      then (pure (unquotable none))
      else (sdk.send_fee_quote_for_amount source
            (sat_add64 grossed.invoice_amount (fee_on send grossed.invoice_amount))
          >>= λ q. pure (send_quoted grossed (fee_on send grossed.invoice_amount) q))

  unfoldable pub quote_fresh_send_required_cost :
      FederationId → FederationId → FreshSendRequiredGatewayFees → Msat → Run W CandidateQuote
  unfolding resolve_receive_gross_up
  quote_fresh_send_required_cost source dest fees amount =
      if amount == 0
      then (pure (unquotable none))
      else (resolve_receive_gross_up fees.recv (sdk.receive_fee_quote dest) amount
          >>= price_send source fees.send)

  unfoldable pub fresh_send_required_gateway_fees :
      FederationId → FederationId → GatewayUrl → Run W FreshSendRequiredGatewayFees
  fresh_send_required_gateway_fees source dest gateway = do
    recv ← sdk.receive_gateway_fee dest gateway
    send ← sdk.direct_swap_send_gateway_fee source gateway
    pure (record { recv = recv; send = send })

  -- `clamp_desired_to_cap_room`, for the hard cap that the executor holds.
  abbrev pub clamp_to_room : FederationId → Msat → Msat → Msat → Option Msat → Run W Msat
  clamp_to_room dest desired cap balance (some room) = pure (min desired room)
  clamp_to_room dest desired cap balance none = raise (permanent (no_room_text dest balance cap))

  unfoldable pub clamp_desired_to_cap_room : Option Msat → FederationId → Msat → Run W Msat
  unfolding evacuation_cap_room no_room_text
  clamp_desired_to_cap_room none dest desired = pure desired
  clamp_desired_to_cap_room (some cap) dest desired = do
    balance ← sdk.balance dest
    clamp_to_room dest desired cap balance (evacuation_cap_room balance cap)

  unfoldable pub enforce_destination_cap : Option Msat → FederationId → Msat → Run W (Unit {0})
  unfolding would_exceed_cap over_cap_text
  enforce_destination_cap none dest amount = pure tt
  enforce_destination_cap (some cap) dest amount = do
    balance ← sdk.balance dest
    if would_exceed_cap balance amount cap
        then (raise (permanent (over_cap_text balance amount cap dest)))
        else (pure tt)

  -- The record that a sizing leaves.
  abbrev pub commit_sizing :
      MoveRecord → Msat → Msat → EvacFeeCap → EvacuationSizing → Run W MoveRecord
  commit_sizing rec desired spendable cap (sized net) = pure (apply_evacuation_sizing rec cap net)
  commit_sizing rec desired spendable cap (refused reason) =
      raise (retryable (no_fit_text desired spendable cap reason))
  commit_sizing rec desired spendable cap (structural_refused evidence) =
      raise (structural_evacuation_refusal evidence)

  abbrev pub size_from :
      Option Msat → Option EvacFeeCap → Msat → ℕ → MoveRecord → FederationId → Run W MoveRecord
  size_from hard_cap components asked now_ms rec source = do
    desired ← clamp_desired_to_cap_room hard_cap rec.dest asked
    spendable ← sdk.balance source
    fees ← fresh_send_required_gateway_fees source rec.dest rec.gateway
    sizing ←
        size_evacuation (quote_fresh_send_required_cost source rec.dest fees)
          sdk.minimum_incoming_contract desired spendable
          (evacuation_cap_rule components rec.fee_cap) now_ms
    commit_sizing rec desired spendable (evacuation_cap_rule components rec.fee_cap) sizing

  abbrev pub size_with_source :
      Option Msat
      → Option EvacFeeCap
      → Msat
      → ℕ
      → MoveRecord
      → Option FederationId
      → Run W MoveRecord
  size_with_source hard_cap components asked now_ms rec none = raise (permanent no_source_text)
  size_with_source hard_cap components asked now_ms rec (some source) =
      size_from hard_cap components asked now_ms rec source

  unfoldable pub size_fresh_evacuation : Option Msat → ℕ → Action → MoveRecord → Run W MoveRecord
  unfolding evacuation_cap_rule apply_evacuation_sizing clamp_desired_to_cap_room size_evacuation
      quote_fresh_send_required_cost fresh_send_required_gateway_fees has_move_artifact
  size_fresh_evacuation hard_cap now_ms (evacuate s d asked c g components) rec =
      if has_move_artifact rec
      then (pure rec)
      else (size_with_source hard_cap components asked now_ms rec rec.source)
  size_fresh_evacuation hard_cap now_ms other rec = pure rec
