-- ===== src/Executor/Perform/Calls.antt =====
-- What the loop of a move (wallet-fedimint/src/executor.rs) calls, and the trail of what it does: the
-- surroundings `W` are those of the SDK and the journal, and the trail has the latest event first.
use fedimint_wallets.Prelude.{
  ℕ, Bool, true, false, Option, some, none, List, ◌∷◌, Text, codes, ◌==◌, if◌then◌else◌,
}
use fedimint_wallets.Types.Federation.{FederationId, Msat, GatewayUrl, EvacFeeCap}
use fedimint_wallets.Types.Action.{Action, evacuate, IdempotencyKey}
use fedimint_wallets.Types.Record.{MoveRecord, MovePhase, invoiced, sending}
use fedimint_wallets.Fee.{GatewayFee}
use fedimint_wallets.Intent.{Intent}
use fedimint_wallets.Journal.{ExecError, permanent}
use fedimint_wallets.Drive.{PerformOutcome}
use fedimint_wallets.MoveProtocol.{Leg}
use fedimint_wallets.Executor.Run.{Outcome, Run, ◌>>=◌, pure, raise}
use fedimint_wallets.Executor.Cost.{apply_evacuation_sizing}
use fedimint_wallets.Executor.Fresh.{Sdk}
use fedimint_wallets.Executor.Perform.Verdicts.{
  Verdict, accepted, rejected, PayReply, SendState, ReceiveState, Awaited, observed, unobserved,
  stale_raw_attempt_artifact, verify_replayable_receive_contract,
  classify_receive_contract_read_error,
}

-- `MoveMeta`, which the SDK keeps with the operation of a leg.
pub record MoveMeta : Type 0 where
  pub move_id : IdempotencyKey
  pub role : Leg
  pub amount : Msat
  pub fee_cap : Option Msat
  pub source : Option FederationId
  pub dest : FederationId

-- What of an invoice's text is read: its amount.
pub data ParsedInvoice : Type 0 where
  parsed : (amount : Option Msat) → ParsedInvoice
  malformed : (error : Text) → ParsedInvoice

-- The calls of the SDK and of the journal that the loop makes beyond those of the sizing. Where the
-- source maps every error of a call to a retryable one, the call has that error.
pub record Client (W : Type 0) : Type 0 where
  pub sdk : Sdk W
  pub put_move_if_attempt : Intent → MoveRecord → Run W Bool
  pub validate_gateway : FederationId → GatewayUrl → Run W (Unit {0})
  pub receive : FederationId → Msat → GatewayUrl → MoveMeta → Msat → Run W (Text × ℕ)
  pub receive_contract_amounts : FederationId → ℕ → Run W (Awaited (Msat × Option Msat))
  pub is_open : FederationId → Run W Bool
  pub parse_invoice : Text → ParsedInvoice
  pub is_expired : Text → Run W Bool
  pub send_gateway_fee : FederationId → GatewayUrl → Text → Run W GatewayFee
  pub send_fee_quote : FederationId → Msat → Run W Msat
  pub pay : FederationId → Text → GatewayUrl → MoveMeta → Run W PayReply
  pub await_send : FederationId → ℕ → Run W (Awaited SendState)
  pub await_receive : FederationId → ℕ → Run W (Awaited ReceiveState)

-- What the loop did: a record is in the journal, an invoice was asked for, a payment was asked for.
pub data Event : Type 0 where
  stored : (rec : MoveRecord) → Event
  minted : (invoice_amount : Msat) (meta : MoveMeta) → Event
  paid : (source : FederationId) (invoice : Text) (meta : MoveMeta) → Event

-- The end of a step: the loop goes on, or `perform` returns.
pub data Turn : Type 0 where
  go_on : (rec : MoveRecord) → Turn
  stop : PerformOutcome → Turn

abbrev pub Course : Type 0 → Type 0
Course W = List Event × W

abbrev pub beside : {W A : Type 0} → List Event → Outcome A × W → Outcome A × Course W
beside trail (o, w) = (o, (trail, w))

-- A call leaves the trail as it is.
abbrev pub ask : {W A : Type 0} → Run W A → Run (Course W) A
ask m (trail, w) = beside trail (m w)

abbrev pub log : {W : Type 0} → Event → Run (Course W) (Unit {0})
log e (trail, w) = (Outcome.value tt, (e ∷ trail, w))

abbrev pub require : {S A : Type 0} → Option A → ExecError → Run S A
require none e = raise e
require (some a) e = pure a

abbrev pub respect : {S : Type 0} → Verdict → Run S (Unit {0})
respect accepted = pure tt
respect (rejected e) = raise e

unfoldable pub is_evacuate : Action → Bool
is_evacuate (evacuate s d a c g k) = true
is_evacuate _ = false

-- The changes of the record by a step.
abbrev pub with_receive_quote : MoveRecord → Msat → MoveRecord
with_receive_quote rec quote = record rec { receive_fee_quoted = some quote }

abbrev pub with_quotes : MoveRecord → Msat → Msat → MoveRecord
with_quotes rec receive_quote send_quote = record rec {
  send_fee_quoted = some send_quote;
  receive_fee_quoted = some receive_quote;
}

abbrev pub with_invoice : MoveRecord → Text → ℕ → MoveRecord
with_invoice rec invoice op = record rec {
  invoice = some invoice;
  recv_op = some op;
  phase = invoiced;
}

abbrev pub with_send_op : MoveRecord → ℕ → MoveRecord
with_send_op rec op = record rec { send_op = some op; phase = sending }

abbrev pub with_preimage : MoveRecord → ℕ → MoveRecord
with_preimage rec preimage = record rec { preimage = some preimage }

abbrev pub with_end : MoveRecord → MovePhase × Option Text → MoveRecord
with_end rec (phase, outcome) = record rec { phase = phase; outcome = outcome }

-- The net changes only together with its cap.
unfoldable pub settle_net : MoveRecord → EvacFeeCap → Msat → MoveRecord
unfolding apply_evacuation_sizing
settle_net rec rule net = if rec.amount == net then rec else (apply_evacuation_sizing rec rule net)

-- The record is in the journal, or the attempt is stale.
abbrev pub keep : {W : Type 0} → MoveRecord → Bool → Run (Course W) (Unit {0})
keep rec true = log (stored rec)
keep rec false = raise stale_raw_attempt_artifact

module _ {W : Type 0} (client : Client W) where
  unfoldable pub put_move_for_intent : Intent → MoveRecord → Run (Course W) (Unit {0})
  put_move_for_intent intent rec = do
    kept ← ask (client.put_move_if_attempt intent rec)
    keep rec kept

  abbrev pub contract_verdict : MoveRecord → Awaited (Msat × Option Msat) → Run W (Unit {0})
  contract_verdict rec (observed (committed, quoted)) =
      respect (verify_replayable_receive_contract committed quoted)
  contract_verdict rec (unobserved e) = client.is_open rec.dest >>= λ dest_open.
      raise (classify_receive_contract_read_error e dest_open rec.key)

  unfoldable pub verify_recovered_receive_contract : MoveRecord → Run W (Unit {0})
  unfolding verify_replayable_receive_contract classify_receive_contract_read_error
  verify_recovered_receive_contract rec = do
    op ← require rec.recv_op (permanent (codes "receive contract check reached with no receive op"))
    amounts ← client.receive_contract_amounts rec.dest op
    contract_verdict rec amounts
