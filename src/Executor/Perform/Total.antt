-- ===== src/Executor/Perform/Total.antt =====
-- The calls of the loop of a move end if those of the SDK and the journal do.
use fedimint_wallets.Prelude.{
  ℕ, Bool, true, false, Option, some, none, Text, ◌≤◌, not, ltb, if◌then◌else◌,
}
use fedimint_wallets.Types.Federation.{FederationId, Msat, GatewayUrl, EvacFeeCap}
use fedimint_wallets.Types.Record.{MoveRecord}
use fedimint_wallets.Fee.{GatewayFee, GrossUp}
use fedimint_wallets.Fee
use fedimint_wallets.Intent.{Intent}
use fedimint_wallets.Journal.{ExecError}
use fedimint_wallets.Executor.Run.{Run, ◌>>=◌, pure, raise, Returns, IsTotal, Returns-bind}
use fedimint_wallets.Executor.Fresh.{enforce_destination_cap, would_exceed_cap}
use fedimint_wallets.Executor.Fresh.Priced.{IsTotalSdk}
use fedimint_wallets.Executor.GrossUp.Verified.{IsVerified, no_record}
use fedimint_wallets.Executor.GrossUp.Settled.{gross_up-IsVerified}
use fedimint_wallets.Executor.Perform.Verdicts.{
  Verdict, accepted, rejected, PayReply, started, already_in_flight, invoice_rejected,
  route_rejected, transport, Awaited, observed, unobserved, SendState, ReceiveState,
  verify_replayable_receive_contract,
}
use fedimint_wallets.Executor.Perform.Calls.{
  MoveMeta, ParsedInvoice, parsed, malformed, Client, require, respect, contract_verdict,
  verify_recovered_receive_contract, is_evacuate,
}
use fedimint_wallets.Executor.Perform.Create.{
  validate_move_gateway_before_receive, gross_up_move, minted_verdict, fresh_cap,
}
use fedimint_wallets.Executor.Perform.Pay.{invoice_amount, live_invoice, quote_send, sent_op}
use fedimint_wallets.Executor.Perform.Await.{settlement, sent_state}

pub record IsTotalClient {W : Type 0} (client : Client W) : Type 0 where
  pub sdk : IsTotalSdk client.sdk
  pub put_move : (i : Intent) (r : MoveRecord) → IsTotal (client.put_move_if_attempt i r)
  pub validate_gateway : (f : FederationId) (g : GatewayUrl) → IsTotal (client.validate_gateway f g)
  pub receive :
      (f : FederationId) (a : Msat) (g : GatewayUrl) (m : MoveMeta) (c : Msat)
      → IsTotal (client.receive f a g m c)
  pub receive_contract_amounts :
      (f : FederationId) (op : ℕ) → IsTotal (client.receive_contract_amounts f op)
  pub is_open : (f : FederationId) → IsTotal (client.is_open f)
  pub is_expired : (i : Text) → IsTotal (client.is_expired i)
  pub send_gateway_fee :
      (f : FederationId) (g : GatewayUrl) (i : Text) → IsTotal (client.send_gateway_fee f g i)
  pub send_fee_quote : (f : FederationId) (a : Msat) → IsTotal (client.send_fee_quote f a)
  pub pay :
      (f : FederationId) (i : Text) (g : GatewayUrl) (m : MoveMeta) → IsTotal (client.pay f i g m)
  pub await_send : (f : FederationId) (op : ℕ) → IsTotal (client.await_send f op)
  pub await_receive : (f : FederationId) (op : ℕ) → IsTotal (client.await_receive f op)

-- One call after another.
pub bind-IsTotal :
    {W A B : Type 0} (m : Run W A) (f : A → Run W B)
    → IsTotal m
    → ((a : A) → IsTotal (f a))
    → IsTotal (m >>= f)
bind-IsTotal m f first next w =
    Returns-bind (λ _ _. Unit {0}) (λ _ _. Unit {0}) (m w) f (first w) (λ a u ended. next a u)

pub require-IsTotal : {W A : Type 0} (o : Option A) (e : ExecError) → IsTotal {W = W} (require o e)
require-IsTotal none e w = tt
require-IsTotal (some a) e w = tt

pub respect-IsTotal : {W : Type 0} (v : Verdict) → IsTotal {W = W} (respect v)
respect-IsTotal accepted w = tt
respect-IsTotal (rejected e) w = tt

pub sent_op-IsTotal : {W : Type 0} (reply : PayReply) → IsTotal {W = W} (sent_op reply)
sent_op-IsTotal (started op) w = tt
sent_op-IsTotal (already_in_flight op) w = tt
sent_op-IsTotal (invoice_rejected reason) w = tt
sent_op-IsTotal (route_rejected reason) w = tt
sent_op-IsTotal (transport reason) w = tt

pub sent_state-IsTotal : {W : Type 0} (a : Awaited SendState) → IsTotal {W = W} (sent_state a)
sent_state-IsTotal (observed state) w = tt
sent_state-IsTotal (unobserved e) w = tt

pub settlement-IsTotal : {W : Type 0} (a : Awaited ReceiveState) → IsTotal {W = W} (settlement a)
settlement-IsTotal (observed state) w = tt
settlement-IsTotal (unobserved e) w = tt

invoice_amount-IsTotal : {W : Type 0} (p : ParsedInvoice) → IsTotal {W = W} (invoice_amount p)
invoice_amount-IsTotal (parsed amount) w = tt
invoice_amount-IsTotal (malformed e) w = tt

pub minted_verdict-IsTotal :
    {W : Type 0} (a : Awaited (Msat × Option Msat)) → IsTotal {W = W} (minted_verdict a)
minted_verdict-IsTotal (observed (committed, quoted)) w =
    respect-IsTotal (verify_replayable_receive_contract committed quoted) w
minted_verdict-IsTotal (unobserved e) w = tt

-- Either branch of a test.
branch-Returns :
    {W A : Type 0} (P : A → W → Type 0) (b : Bool) (m n : Run W A) (w : W)
    → Returns P (m w)
    → Returns P (n w)
    → Returns P ((if b then m else n) w)
branch-Returns P true m n w first second = first
branch-Returns P false m n w first second = second

raise_if-IsTotal :
    {W : Type 0} (b : Bool) (e : ExecError) → IsTotal {W = W} (if b then (raise e) else (pure tt))
raise_if-IsTotal b e w = branch-Returns _ b (raise e) (pure tt) w tt tt

module _ {W : Type 0} (client : Client W) (total : IsTotalClient client) where
  contract_verdict-IsTotal :
      (rec : MoveRecord) (a : Awaited (Msat × Option Msat))
      → IsTotal (contract_verdict client rec a)
  contract_verdict-IsTotal rec (observed (committed, quoted)) =
      respect-IsTotal (verify_replayable_receive_contract committed quoted)
  contract_verdict-IsTotal rec (unobserved e) =
      bind-IsTotal (client.is_open rec.dest) _ (total.is_open rec.dest) (λ b w. tt)

  pub verify_recovered_receive_contract-IsTotal :
      (rec : MoveRecord) → IsTotal (verify_recovered_receive_contract client rec)
  unfolding verify_recovered_receive_contract
  verify_recovered_receive_contract-IsTotal rec =
      bind-IsTotal (require rec.recv_op _) _ (require-IsTotal rec.recv_op _) λ op.
        bind-IsTotal (client.receive_contract_amounts rec.dest op) _
          (total.receive_contract_amounts rec.dest op) (contract_verdict-IsTotal rec)

  pub live_invoice-IsTotal :
      (intent : Intent) (rec : MoveRecord) (invoice : Text)
      → IsTotal (live_invoice client intent rec invoice)
  unfolding live_invoice
  live_invoice-IsTotal intent rec invoice =
      bind-IsTotal (invoice_amount (client.parse_invoice invoice)) _
        (invoice_amount-IsTotal (client.parse_invoice invoice))
        λ amount.
          bind-IsTotal (client.is_expired invoice) _ (total.is_expired invoice)
            λ stale. bind-IsTotal _ _ (raise_if-IsTotal stale _) λ u. require-IsTotal amount _

  pub quote_send-IsTotal :
      (intent : Intent) (rec : MoveRecord) (source : FederationId) (invoice : Text) (amount : Msat)
      → IsTotal (quote_send client intent rec source invoice amount)
  unfolding quote_send
  quote_send-IsTotal intent rec source invoice amount =
      bind-IsTotal (client.send_gateway_fee source rec.gateway invoice) _
        (total.send_gateway_fee source rec.gateway invoice)
        λ fee.
          bind-IsTotal (client.send_fee_quote source _) _ (total.send_fee_quote source _)
            (λ tx_fee w. tt)

  module _ (hard_cap : Option Msat) (components : Option EvacFeeCap) (intent : Intent) where
    pub validate_move_gateway-IsTotal :
        (rec : MoveRecord)
        → IsTotal (validate_move_gateway_before_receive client hard_cap components intent rec)
    unfolding validate_move_gateway_before_receive
    validate_move_gateway-IsTotal rec w =
        branch-Returns _ (not rec.send_required) (pure tt) _ w tt (
          bind-IsTotal (require rec.source _) _ (require-IsTotal rec.source _)
            (λ source. total.validate_gateway source rec.gateway) w)

    enforce_destination_cap-IsTotal :
        (cap : Option Msat) (dest : FederationId) (amount : Msat)
        → IsTotal (enforce_destination_cap client.sdk cap dest amount)
    unfolding enforce_destination_cap
    enforce_destination_cap-IsTotal none dest amount w = tt
    enforce_destination_cap-IsTotal (some cap) dest amount w =
        bind-IsTotal (client.sdk.balance dest) _ (total.sdk.balance dest)
          (λ balance. raise_if-IsTotal (would_exceed_cap balance amount cap) _) w

    pub fresh_cap-IsTotal :
        (rec : MoveRecord) → IsTotal (fresh_cap client hard_cap components intent rec)
    fresh_cap-IsTotal rec w =
        branch-Returns _ (is_evacuate intent.action) (pure tt) _ w tt
          (enforce_destination_cap-IsTotal hard_cap rec.dest rec.amount w)

    pub gross_up_move-within :
        (rec : MoveRecord) (w : W)
        → Returns
            (λ r _. Fee.delivered_net r ≤ rec.amount)
            (gross_up_move client hard_cap components intent rec w)
    unfolding gross_up_move
    gross_up_move-within rec w =
        Returns-bind (λ _ _. Unit {0}) _ (client.sdk.receive_gateway_fee rec.dest rec.gateway w) _
          (total.sdk.receive_gateway_fee rec.dest rec.gateway w)
          λ fee u asked.
            Returns-bind (λ r _. IsVerified fee rec.amount (λ c x. Unit {0}) r) _ _ _
              (gross_up-IsVerified fee (client.sdk.receive_fee_quote rec.dest) rec.amount
                (λ w' c x. Unit {0})
                (no_record (client.sdk.receive_fee_quote rec.dest)
                  (total.sdk.receive_fee_quote rec.dest))
                u)
              λ (r : GrossUp) v verified.
                branch-Returns _ (ltb r.contract_amount client.sdk.minimum_incoming_contract)
                  (raise _) (pure r) v tt verified.never_over
