-- ===== src/Executor/Perform/Verdicts.antt =====
-- The verdicts that the loop of a move takes between its awaits, and the errors it raises
-- (wallet-fedimint/src/executor.rs).
use fedimint_wallets.Prelude.{
  ℕ, Bool, Option, some, none, [], ◌∷◌, Text, codes, ltb, ◌==◌, not, if◌then◌else◌, sat_add64,
}
use fedimint_wallets.Prelude.Print.{decimal, concat}
use fedimint_wallets.Types.Federation.{Msat}
use fedimint_wallets.Types.Action.{IdempotencyKey}
use fedimint_wallets.Types.Record.{MovePhase, settled, stranded}
use fedimint_wallets.Fee.{total_within_cap}
use fedimint_wallets.Journal.{ExecError, retryable, permanent}

-- Whether a check lets the move go on.
pub data Verdict : Type 0 where
  accepted : Verdict
  rejected : (error : ExecError) → Verdict

-- `SendError`, and the answers of `pay`.
pub data PayReply : Type 0 where
  started already_in_flight : (op : ℕ) → PayReply
  invoice_rejected route_rejected transport : (reason : Text) → PayReply

pub data SendState : Type 0 where
  success : (preimage : ℕ) → SendState
  send_refunded : SendState
  send_failed : (reason : Text) → SendState

pub data ReceiveState : Type 0 where
  claimed expired : ReceiveState
  receive_failed : (reason : Text) → ReceiveState

-- The answer of a typed await, and of a read of the operation log.
pub data Awaited (A : Type 0) : Type 0 where
  observed : A → Awaited A
  unobserved : (error : Text) → Awaited A

pub stale_raw_attempt_artifact : ExecError
stale_raw_attempt_artifact = retryable (
    codes
      "raw operation artifact belongs to a stale or terminal attempt; retry from current intent")

pub fixed_over_cap : Msat → Msat → Text
fixed_over_cap quote cap = concat (
    (codes "fee over cap: the fixed receive quote ")
    ∷ (decimal quote)
    ∷ (codes " msat alone exceeds fee_cap ")
    ∷ (decimal cap)
    ∷ (codes " msat")
    ∷ [])

pub total_over_cap : Msat → Msat → Msat → Text
total_over_cap receive_quote send_quote cap = concat (
    (codes "send fee quote over cap this attempt (receive ")
    ∷ (decimal receive_quote)
    ∷ (codes " + send ")
    ∷ (decimal send_quote)
    ∷ (codes " > fee_cap ")
    ∷ (decimal cap)
    ∷ (codes " msat); retrying")
    ∷ [])

unfoldable pub pay_step_cap_verdict : Msat → Msat → Msat → Verdict
unfolding total_within_cap
pay_step_cap_verdict receive_quote send_quote fee_cap =
    if ltb fee_cap receive_quote
    then (rejected (permanent (fixed_over_cap receive_quote fee_cap)))
    else (if not (total_within_cap receive_quote send_quote fee_cap)
        then (rejected (retryable (total_over_cap receive_quote send_quote fee_cap)))
        else accepted)

pub fixed_over_net : Msat → Msat → Text
fixed_over_net quote net = concat (
    (codes "route does not serve: the fixed receive quote ")
    ∷ (decimal quote)
    ∷ (codes " msat alone exceeds the ")
    ∷ (decimal net)
    ∷ (codes " msat this evacuation would deliver")
    ∷ [])

pub total_over_net : Msat → Msat → Msat → Text
total_over_net receive_quote send_quote net = concat (
    (codes "route does not serve this attempt (receive ")
    ∷ (decimal receive_quote)
    ∷ (codes " + send ")
    ∷ (decimal send_quote)
    ∷ (codes " > the ")
    ∷ (decimal net)
    ∷ (codes " msat delivered); retrying rather than burning more than the chunk moves")
    ∷ [])

unfoldable pub evacuation_viability_verdict : Msat → Msat → Msat → Verdict
evacuation_viability_verdict receive_quote send_quote net =
    if ltb net receive_quote
    then (rejected (permanent (fixed_over_net receive_quote net)))
    else (if ltb net (sat_add64 receive_quote send_quote)
        then (rejected (retryable (total_over_net receive_quote send_quote net)))
        else accepted)

unfoldable pub verify_committed_receive_contract : Msat → Msat → Verdict
verify_committed_receive_contract committed quoted =
    if committed == quoted
    then accepted
    else (rejected (permanent (codes "gateway receive fee changed between quote and mint; re-run")))

unfoldable pub verify_replayable_receive_contract : Msat → Option Msat → Verdict
unfolding verify_committed_receive_contract
verify_replayable_receive_contract committed none = rejected (
    permanent
      (codes "receive op is missing the quoted contract amount; re-run under a fresh occurrence"))
verify_replayable_receive_contract committed (some quoted) =
    verify_committed_receive_contract committed quoted

unfoldable pub classify_receive_contract_read_error : Text → Bool → IdempotencyKey → ExecError
classify_receive_contract_read_error error dest_open key =
    if dest_open
    then (permanent (
        concat (
          (codes "receive contract check failed on a durable op-log read (move ")
          ∷ key
          ∷ (codes "); the receive op is corrupt or missing: ")
          ∷ error
          ∷ [])))
    else (retryable error)

unfoldable pub delivered_move_amount : Msat → Msat → Msat
delivered_move_amount delivered ask = if ltb delivered ask then delivered else ask

pub stranded_outcome : Text → Text
stranded_outcome detail = concat (
    (codes "send settled but receive was not credited: ")
    ∷ detail
    ∷ (codes "; not proven lost, not proven recoverable — preserve the data directory and ")
    ∷ (codes "follow the stranded-move entry in docs/real-sats-pilot-runbook.md")
    ∷ [])

unfoldable pub settle_after_successful_send : ReceiveState → MovePhase × Option Text
settle_after_successful_send claimed = (settled, none)
settle_after_successful_send expired =
    (stranded, some (stranded_outcome (codes "receive invoice expired")))
settle_after_successful_send (receive_failed reason) = (stranded, some (stranded_outcome reason))

unfoldable pub post_successful_send_destination_unknown : Text → ExecError
post_successful_send_destination_unknown detail =
    retryable
      (concat ((codes "send settled but destination receive outcome is unknown: ") ∷ detail ∷ []))

unfoldable pub committed_send_unknown : Text → ExecError
committed_send_unknown error = retryable (
    concat ((codes "committed send outcome is unknown; retaining the move attempt: ") ∷ error ∷ []))

-- The refusals of the create step.
pub receive_over_cap : Msat → Msat → Msat → Text
receive_over_cap quote cap delivered = concat (
    (codes "fee over cap (receive side ")
    ∷ (decimal quote)
    ∷ (codes " msat exceeds the ")
    ∷ (decimal cap)
    ∷ (codes " msat cap at the ")
    ∷ (decimal delivered)
    ∷ (codes " msat this would deliver)")
    ∷ [])

pub receive_over_net : Msat → Msat → Text
receive_over_net quote delivered = concat (
    (codes "the receive leg now costs more than this move delivers (")
    ∷ (decimal quote)
    ∷ (codes " msat of receive fee against ")
    ∷ (decimal delivered)
    ∷ (codes " msat delivered); refusing BEFORE minting so the balance stays where it is and a ")
    ∷ (codes "later quote can still drain it")
    ∷ [])

pub too_small : Msat → Msat → Msat → Text
too_small amount contract least = concat (
    (codes "direct inflow amount too small: net ")
    ∷ (decimal amount)
    ∷ (codes " msat produces a ")
    ∷ (decimal contract)
    ∷ (codes " msat incoming contract; lnv2 requires at least ")
    ∷ (decimal least)
    ∷ (codes " msat")
    ∷ [])

pub expired_invoice : IdempotencyKey → Text
expired_invoice key = concat (
    (codes "move invoice expired before the send leg could pay it (move ")
    ∷ key
    ∷ (codes "); re-run under a fresh occurrence to re-mint")
    ∷ [])
