-- ===== src/Executor/Perform/Create.antt =====
-- The step that mints the invoice of a move (wallet-fedimint/src/executor.rs).
use fedimint_wallets.Prelude.{
  Bool, true, false, not, ◌&&◌, Option, some, Text, codes, ltb, if◌then◌else◌,
}
use fedimint_wallets.Types.Federation.{Msat, EvacFeeCap, cap_at}
use fedimint_wallets.Types.Record.{MoveRecord}
use fedimint_wallets.Fee.{GatewayFee, GrossUp, fee_on, total_within_cap}
use fedimint_wallets.Intent.{Intent, operation_correlation_key}
use fedimint_wallets.Journal.{ExecError, retryable, permanent}
use fedimint_wallets.Drive.{awaiting}
use fedimint_wallets.MoveProtocol.{receive_leg}
use fedimint_wallets.Executor.Run.{Run, ◌>>=◌, ◌>>◌, pure, raise}
use fedimint_wallets.Executor.Cost.{evacuation_cap_rule}
use fedimint_wallets.Executor.Fresh.{enforce_destination_cap}
use fedimint_wallets.Fee
use fedimint_wallets.Executor.GrossUp.{resolve_receive_gross_up}
use fedimint_wallets.Executor.Perform.Verdicts.{
  Awaited, observed, unobserved, verify_replayable_receive_contract, delivered_move_amount,
  receive_over_cap, receive_over_net, too_small,
}
use fedimint_wallets.Executor.Perform.Calls.{
  MoveMeta, Client, minted, Turn, go_on, stop, Course, ask, log, require, respect, is_evacuate,
  with_receive_quote, with_invoice, settle_net, put_move_for_intent,
}

-- The check right after a mint, where every failed read is retryable.
abbrev pub minted_verdict : {W : Type 0} → Awaited (Msat × Option Msat) → Run W (Unit {0})
minted_verdict (observed (committed, quoted)) =
    respect (verify_replayable_receive_contract committed quoted)
minted_verdict (unobserved e) = raise (retryable e)

module _ {W : Type 0} (client : Client W) (hard_cap : Option Msat) (components : Option EvacFeeCap)
    (intent : Intent) where
  unfoldable pub validate_move_gateway_before_receive : MoveRecord → Run W (Unit {0})
  validate_move_gateway_before_receive rec =
      if not rec.send_required
      then (pure tt)
      else (require rec.source
            (permanent (codes "Move record requires a send leg but has no source federation"))
          >>= λ source. client.validate_gateway source rec.gateway)

  abbrev pub at_least_minimum : MoveRecord → GrossUp → Run W GrossUp
  at_least_minimum rec grossed =
      let least = client.sdk.minimum_incoming_contract in
      if ltb grossed.contract_amount least
      then (raise (permanent (too_small rec.amount grossed.contract_amount least)))
      else (pure grossed)

  -- `gross_up` of the executor.
  unfoldable pub gross_up_move : MoveRecord → Run W GrossUp
  unfolding resolve_receive_gross_up
  gross_up_move rec = do
    fee ← client.sdk.receive_gateway_fee rec.dest rec.gateway
    grossed ← resolve_receive_gross_up fee (client.sdk.receive_fee_quote rec.dest) rec.amount
    at_least_minimum rec grossed

  -- A refusal keeps the record with its quote first.
  abbrev pub refuse_unless : Bool → MoveRecord → ExecError → Run (Course W) (Unit {0})
  refuse_unless true rec e = pure tt
  refuse_unless false rec e = put_move_for_intent client intent rec >>= λ u. raise e

  abbrev pub fresh_cap : MoveRecord → Run W (Unit {0})
  fresh_cap rec =
      if is_evacuate intent.action
      then (pure tt)
      else (enforce_destination_cap client.sdk hard_cap rec.dest rec.amount)

  abbrev pub over_cap_error : Text → ExecError
  over_cap_error reason =
      if is_evacuate intent.action then (retryable reason) else (permanent reason)

  abbrev pub cap_rule : MoveRecord → EvacFeeCap
  cap_rule rec = evacuation_cap_rule components rec.fee_cap

  abbrev pub receive_meta : MoveRecord → Msat → MoveMeta
  receive_meta rec net = record {
    move_id = operation_correlation_key intent;
    role = receive_leg;
    amount = net;
    fee_cap = some (cap_at (cap_rule rec) net);
    source = rec.source;
    dest = rec.dest;
  }

  -- The mint of the invoice and the record of it.
  unfoldable pub mint : MoveRecord → GrossUp → Msat → Run (Course W) Turn
  unfolding put_move_for_intent evacuation_cap_rule verify_replayable_receive_contract settle_net
      operation_correlation_key
  mint rec grossed net = do
    put_move_for_intent client intent rec
    log (minted grossed.invoice_amount (receive_meta rec net))
    (invoice, op) ← ask (
        client.receive rec.dest grossed.invoice_amount rec.gateway (receive_meta rec net)
          grossed.contract_amount)
    amounts ← ask (client.receive_contract_amounts rec.dest op)
    ask (minted_verdict amounts)
    let after = settle_net (with_invoice rec invoice op) (cap_rule rec) net
    put_move_for_intent client intent after
    pure (if rec.send_required then (go_on after) else (stop awaiting))

  -- The two gates before the mint.
  unfoldable pub gate : MoveRecord → GrossUp → Run (Course W) Turn
  unfolding put_move_for_intent mint delivered_move_amount is_evacuate total_within_cap
      evacuation_cap_rule Fee.delivered_net
  gate before grossed = do
    let quote = grossed.receive_quote
    let rec = with_receive_quote before quote
    let delivered = Fee.delivered_net grossed
    let cap = cap_at (cap_rule rec) delivered
    refuse_unless (total_within_cap quote 0 cap) rec
        (over_cap_error (receive_over_cap quote cap delivered))
    refuse_unless (not (is_evacuate intent.action && ltb delivered quote)) rec
        (retryable (receive_over_net quote delivered))
    mint rec grossed (delivered_move_amount delivered rec.amount)

  -- The step `CreateInvoice`.
  unfoldable pub create_step : MoveRecord → Run (Course W) Turn
  unfolding validate_move_gateway_before_receive gross_up_move gate is_evacuate
      enforce_destination_cap
  create_step before = do
    ask (validate_move_gateway_before_receive before)
    ask (fresh_cap before)
    grossed ← ask (gross_up_move before)
    gate before grossed
