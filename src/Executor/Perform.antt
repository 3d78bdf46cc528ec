-- ===== src/Executor/Perform.antt =====
-- The loop that carries out a move (`perform` of wallet-fedimint/src/executor.rs, once the record of
-- the move is assembled and sized): mint, pay, await.
pub mod Verdicts
pub mod Calls
pub mod Create
pub mod Pay
pub mod Await
pub mod Total
pub mod Leaves
pub mod Careful
pub mod Steps
pub mod Legs
pub mod Carried
use fedimint_wallets.Prelude.{
  ℕ, zero, suc, Bool, true, false, not, ◌&&◌, Option, some, none, List, [], ◌∷◌, Text, codes, ltb,
  ◌-◌, ◌==◌, unwrap_or, if◌then◌else◌, sat_add64,
}
use fedimint_wallets.Prelude.Print.{concat}
use fedimint_wallets.Types.Federation.{FederationId, Msat, GatewayUrl, EvacFeeCap, cap_at}
use fedimint_wallets.Types.Action.{
  Action, direct_inflow, move, evacuate, pay, receive, join, recover, refuse_inflow, IdempotencyKey,
}
use fedimint_wallets.Types.Record.{MoveRecord, MovePhase, invoiced, sending, refunded, failed}
use fedimint_wallets.Fee.{GatewayFee, GrossUp, fee_on, total_within_cap}
use fedimint_wallets.Intent.{Intent, operation_correlation_key}
use fedimint_wallets.Journal.{ExecError, retryable, permanent}
use fedimint_wallets.Drive.{PerformOutcome, completed, awaiting}
use fedimint_wallets.MoveProtocol.{
  MoveStep, create_invoice, pay_invoice, await_settle, step_done, step_failed, Leg, send_leg,
  receive_leg, next_step,
}
use fedimint_wallets.Executor.Run.{Outcome, Run, ◌>>=◌, ◌>>◌, pure, raise, starve}
use fedimint_wallets.Executor.Cost.{evacuation_cap_rule, apply_evacuation_sizing}
use fedimint_wallets.Executor.Fresh.{Sdk, enforce_destination_cap}
use fedimint_wallets.Executor.GrossUp.{resolve_receive_gross_up}
use fedimint_wallets.Executor.Perform.Verdicts.{
  Verdict, accepted, rejected, PayReply, started, already_in_flight, invoice_rejected,
  route_rejected, transport, SendState, success, send_refunded, send_failed, ReceiveState, Awaited,
  observed, unobserved, stale_raw_attempt_artifact, pay_step_cap_verdict,
  evacuation_viability_verdict, verify_replayable_receive_contract,
  classify_receive_contract_read_error, delivered_move_amount, settle_after_successful_send,
  post_successful_send_destination_unknown, committed_send_unknown, receive_over_cap,
  receive_over_net, too_small, expired_invoice,
}
use fedimint_wallets.Executor.Perform.Calls.{
  MoveMeta, ParsedInvoice, parsed, malformed, Client, Event, stored, minted, paid, Turn, go_on,
  stop, Course, ask, log, require, respect, is_evacuate, with_receive_quote, with_quotes,
  with_invoice, with_send_op, with_preimage, with_end, settle_net, put_move_for_intent,
  verify_recovered_receive_contract,
}
use fedimint_wallets.Executor.Perform.Create.{create_step}
use fedimint_wallets.Executor.Perform.Pay.{pay_step}
use fedimint_wallets.Executor.Perform.Await.{await_legs, await_payer}

module _ {W : Type 0} (client : Client W) (hard_cap : Option Msat) (components : Option EvacFeeCap)
    (intent : Intent) where
  unfoldable pub take_step : MoveStep → MoveRecord → Run (Course W) Turn
  unfolding create_step pay_step await_legs await_payer
  take_step create_invoice rec = create_step client hard_cap components intent rec
  take_step pay_invoice rec = pay_step client intent rec
  take_step await_settle rec =
      if rec.send_required then (await_legs client intent rec) else (await_payer client intent rec)
  take_step step_done rec = pure (stop completed)
  take_step step_failed rec =
      raise (permanent (unwrap_or (codes "move refunded/failed") rec.outcome))

  abbrev pub follow :
      (MoveRecord → Run (Course W) PerformOutcome) → Turn → Run (Course W) PerformOutcome
  follow again (go_on rec) = again rec
  follow again (stop outcome) = pure outcome

  -- The loop, with fuel for its steps.
  unfoldable pub carry : ℕ → MoveRecord → Run (Course W) PerformOutcome
  unfolding take_step next_step
  carry zero rec = starve
  carry (suc fuel) rec = take_step (next_step rec) rec >>= follow (carry fuel)

  -- Four steps reach the end of every move.
  unfoldable pub carry_move : MoveRecord → Run (Course W) PerformOutcome
  unfolding carry
  carry_move rec = carry 4 rec
