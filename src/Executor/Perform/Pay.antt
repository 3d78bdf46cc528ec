-- ===== src/Executor/Perform/Pay.antt =====
-- The step that pays the invoice of a move (wallet-fedimint/src/executor.rs).
use fedimint_wallets.Prelude.{ℕ, Option, some, [], ◌∷◌, Text, codes, ◌-◌, if◌then◌else◌, sat_add64}
use fedimint_wallets.Prelude.Print.{concat}
use fedimint_wallets.Types.Federation.{FederationId, Msat}
use fedimint_wallets.Types.Record.{MoveRecord}
use fedimint_wallets.Fee.{fee_on}
use fedimint_wallets.Intent.{Intent, operation_correlation_key}
use fedimint_wallets.Journal.{retryable, permanent}
use fedimint_wallets.MoveProtocol.{send_leg}
use fedimint_wallets.Executor.Run.{Run, ◌>>=◌, ◌>>◌, pure, raise}
use fedimint_wallets.Executor.Perform.Verdicts.{
  Verdict, accepted, PayReply, started, already_in_flight, invoice_rejected, route_rejected,
  transport, pay_step_cap_verdict, evacuation_viability_verdict, expired_invoice,
}
use fedimint_wallets.Executor.Perform.Calls.{
  MoveMeta, ParsedInvoice, parsed, malformed, Client, paid, Turn, go_on, Course, ask, log, require,
  respect, is_evacuate, with_quotes, with_send_op, put_move_for_intent,
  verify_recovered_receive_contract,
}

abbrev pub invoice_amount : {W : Type 0} → ParsedInvoice → Run W (Option Msat)
invoice_amount (parsed amount) = pure amount
invoice_amount (malformed e) =
    raise (permanent (concat ((codes "parsing move invoice: ") ∷ e ∷ [])))

abbrev pub sent_op : {W : Type 0} → PayReply → Run W ℕ
sent_op (started op) = pure op
sent_op (already_in_flight op) = pure op
sent_op (invoice_rejected reason) = raise (permanent reason)
sent_op (route_rejected reason) = raise (permanent reason)
sent_op (transport reason) = raise (retryable reason)

module _ {W : Type 0} (client : Client W) (intent : Intent) where
  -- The invoice's amount, unless it has expired.
  unfoldable pub live_invoice : MoveRecord → Text → Run W Msat
  live_invoice rec invoice = do
    amount ← invoice_amount (client.parse_invoice invoice)
    stale ← client.is_expired invoice
    if stale then (raise (permanent (expired_invoice rec.key))) else (pure tt)
    require amount (permanent (codes "move invoice carries no amount"))

  -- The fee of the send leg, quoted anew.
  unfoldable pub quote_send : MoveRecord → FederationId → Text → Msat → Run W Msat
  quote_send rec source invoice invoice_msat = do
    fee ← client.send_gateway_fee source rec.gateway invoice
    let gateway_quote = fee_on fee invoice_msat
    tx_fee ← client.send_fee_quote source (sat_add64 invoice_msat gateway_quote)
    pure (sat_add64 gateway_quote tx_fee)

  abbrev pub send_meta : MoveRecord → MoveMeta
  send_meta rec = record {
    move_id = operation_correlation_key intent;
    role = send_leg;
    amount = rec.amount;
    fee_cap = some rec.fee_cap;
    source = rec.source;
    dest = rec.dest;
  }

  abbrev pub viable : MoveRecord → Msat → Msat → Verdict
  viable rec receive_quote send_quote =
      if is_evacuate intent.action
      then (evacuation_viability_verdict receive_quote send_quote rec.amount)
      else accepted

  -- The payment and the record of it.
  unfoldable pub send : MoveRecord → FederationId → Text → Run (Course W) Turn
  unfolding put_move_for_intent operation_correlation_key
  send rec source invoice = do
    log (paid source invoice (send_meta rec))
    reply ← ask (client.pay source invoice rec.gateway (send_meta rec))
    op ← ask (sent_op reply)
    put_move_for_intent client intent (with_send_op rec op)
    pure (go_on (with_send_op rec op))

  -- The step `Pay`, once its invoice and its source are there.
  unfoldable pub pay_fixed : MoveRecord → Text → FederationId → Run (Course W) Turn
  unfolding put_move_for_intent verify_recovered_receive_contract live_invoice quote_send send
      pay_step_cap_verdict evacuation_viability_verdict is_evacuate
  pay_fixed before invoice source = do
    ask (verify_recovered_receive_contract client before)
    invoice_msat ← ask (live_invoice before invoice)
    send_quote ← ask (quote_send before source invoice invoice_msat)
    let receive_quote = invoice_msat - before.amount
    let rec = with_quotes before receive_quote send_quote
    put_move_for_intent client intent rec
    respect (pay_step_cap_verdict receive_quote send_quote rec.fee_cap)
    respect (viable rec receive_quote send_quote)
    send rec source invoice

  unfoldable pub pay_step : MoveRecord → Run (Course W) Turn
  unfolding pay_fixed
  pay_step rec = do
    invoice ← require rec.invoice (permanent (codes "Pay step reached with no invoice"))
    source ← require rec.source (permanent (codes "Pay step reached with no source federation"))
    pay_fixed rec invoice source
