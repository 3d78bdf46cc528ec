-- ===== src/Ledger.antt =====
-- The operation ledger (wallet-core/src/ledger.rs): one row for each operation, and how a write
-- advances a row.
pub mod Advance
pub mod Replay
use fedimint_wallets.Prelude.{
  ℕ, Bool, true, false, not, ◌&&◌, ◌||◌, Option, some, none, Text, ltb, or_else, if◌then◌else◌,
}
use fedimint_wallets.Types.Federation.{FederationId, Msat, GatewayUrl, Occurrence}
use fedimint_wallets.Types.Action.{Action, ReasonCode, RefusalDiagnostics, Actor, IdempotencyKey}
use fedimint_wallets.Intent.{IntentStatus}
use fedimint_wallets.Discovery.{DiscoverySource, SourceStatus}

pub data OperationStatus : Type 0 where
  started awaiting succeeded failed : OperationStatus

unfoldable pub is_terminal : OperationStatus → Bool
is_terminal succeeded = true
is_terminal failed = true
is_terminal _ = false

unfoldable pub status_rank : OperationStatus → ℕ
status_rank started = 0
status_rank awaiting = 1
status_rank succeeded = 2
status_rank failed = 2

-- The derived equality of `OperationStatus`.
unfoldable pub same_status : OperationStatus → OperationStatus → Bool
same_status started started = true
same_status awaiting awaiting = true
same_status succeeded succeeded = true
same_status failed failed = true
same_status _ _ = false

-- 32-byte operation ids and payment hashes are read as numbers.
pub data OperationKind : Type 0 where
  join : (fed : FederationId) → OperationKind
  recover : (fed : FederationId) → OperationKind
  receive :
      (fed : FederationId) (amount_invoiced : Msat) (op_id : Option ℕ) (gateway : Option GatewayUrl)
      → OperationKind
  pay :
      (fed : FederationId) (invoice_amount : Option Msat) (payment_hash op_id : Option ℕ)
      (gateway : Option GatewayUrl)
      → OperationKind
  direct_inflow :
      (dest : FederationId) (amount : Msat) (recv_op : Option ℕ) (gateway : Option GatewayUrl)
      → OperationKind
  move :
      (source dest : FederationId) (amount : Msat) (send_op recv_op : Option ℕ)
      (gateway : Option GatewayUrl) (evacuation : Bool)
      → OperationKind
  refusal : (fed : FederationId) (diagnostics : RefusalDiagnostics) → OperationKind
  probe : (fed source : FederationId) (amount_msat : Msat) (cost_msat : Option Msat) → OperationKind
  tick : (occurrence : Occurrence) (decisions performed failed : ℕ) → OperationKind
  discover :
      (source : DiscoverySource) (status : SourceStatus) (found structurally_passed rejected : ℕ)
      → OperationKind
  auto_join :
      (considered joined blocked_concurrent blocked_weekly blocked_lifetime : ℕ) → OperationKind
  approve : (fed : FederationId) → OperationKind

pub record FeeBreakdown : Type 0 where
  pub fee_cap : Option Msat
  pub receive_fee : Option Msat
  pub send_fee_quoted : Option Msat

pub record OperationRecord : Type 0 where
  pub seq : ℕ
  pub correlation_key : IdempotencyKey
  pub kind : OperationKind
  pub actor : Actor
  pub reason : ReasonCode
  pub status : OperationStatus
  pub created_at_ms : ℕ
  pub updated_at_ms : ℕ
  pub fees : FeeBreakdown
  pub error : Option Text
  pub repaired : Bool

pub record RawOpUpdate : Type 0 where
  pub op_id : Option ℕ
  pub gateway : Option GatewayUrl
  pub invoice_amount : Option Msat
  pub payment_hash : Option ℕ
  pub fees : Option FeeBreakdown
  pub fees_definitive : Bool

pub data WriteKind : Type 0 where
  authoritative repair : WriteKind

unfoldable pub kind_from_action : Action → OperationKind
kind_from_action (Action.move s d a c g) = move s d a none none none false
kind_from_action (Action.evacuate s d a c g k) = move s d a none none none true
kind_from_action (Action.direct_inflow d a c) = direct_inflow d a none none
kind_from_action (Action.pay s i a c h g) = pay s (some a) (some h) none g
kind_from_action (Action.receive d a c n g) = receive d a none g
kind_from_action (Action.join f i m) = join f
kind_from_action (Action.recover f i) = recover f
kind_from_action (Action.refuse_inflow f r d) = refusal f d

unfoldable pub status_from_intent : IntentStatus → OperationStatus
status_from_intent IntentStatus.pending = started
status_from_intent IntentStatus.executing = started
status_from_intent IntentStatus.awaiting = awaiting
status_from_intent IntentStatus.done = succeeded
status_from_intent IntentStatus.failed = failed

-- `fill` and `fill_gateway`: the incoming value, if there is one.
abbrev pub fill : {A : Type 0} → Option A → Option A → Option A
fill slot incoming = or_else incoming slot

unfoldable pub enrich_kind : OperationKind → RawOpUpdate → OperationKind
enrich_kind (receive f a op g) u = receive f a (fill op u.op_id) (fill g u.gateway)
enrich_kind (pay f a h op g) u =
    pay f (fill a u.invoice_amount) (fill h u.payment_hash) (fill op u.op_id) (fill g u.gateway)
enrich_kind (direct_inflow d a op g) u = direct_inflow d a (fill op u.op_id) (fill g u.gateway)
enrich_kind (move s d a so ro g e) u = move s d a so ro (fill g u.gateway) e
enrich_kind (join f) u = join f
enrich_kind (recover f) u = recover f
enrich_kind (refusal f d) u = refusal f d
enrich_kind (probe f s a c) u = probe f s a c
enrich_kind (tick o d p f) u = tick o d p f
enrich_kind (discover s t f p r) u = discover s t f p r
enrich_kind (auto_join c j x y z) u = auto_join c j x y z
enrich_kind (approve f) u = approve f

unfoldable pub merge_fees : FeeBreakdown → FeeBreakdown → Bool → FeeBreakdown
merge_fees into from definitive = record {
  fee_cap = fill into.fee_cap from.fee_cap;
  receive_fee = if definitive then from.receive_fee else fill into.receive_fee from.receive_fee;
  send_fee_quoted =
      if definitive then from.send_fee_quoted else fill into.send_fee_quoted from.send_fee_quoted;
}

abbrev pub is_authoritative : WriteKind → Bool
is_authoritative authoritative = true
is_authoritative repair = false

-- The two early returns of `advance`.
unfoldable pub refuses : OperationRecord → OperationStatus → WriteKind → Bool
refuses r new_status write =
    if is_terminal r.status
    then not (r.repaired && is_authoritative write)
    else ltb (status_rank new_status) (status_rank r.status)

unfoldable pub advanced_kind : OperationKind → Option RawOpUpdate → OperationKind
advanced_kind kind none = kind
advanced_kind kind (some u) = enrich_kind kind u

unfoldable pub advanced_fees : FeeBreakdown → Option RawOpUpdate → FeeBreakdown
advanced_fees fees none = fees
advanced_fees fees (some u) = elim u.fees [
  | none ↦ fees
  | some f ↦ merge_fees fees f u.fees_definitive
]

-- A change of the status sets the error, an enrichment only fills it.
unfoldable pub advanced_error :
    OperationStatus → OperationStatus → Option Text → Option Text → Option Text
advanced_error old new_status stored incoming =
    if is_terminal old || not (same_status new_status old) then incoming else fill stored incoming

unfoldable pub advance :
    OperationRecord
    → OperationStatus
    → ℕ
    → Option RawOpUpdate
    → Option Text
    → WriteKind
    → Option OperationRecord
advance r new_status now_ms upd error write =
    if refuses r new_status write
    then none
    else some (record r {
      status = new_status;
      updated_at_ms = now_ms;
      repaired = not (is_authoritative write) && is_terminal new_status;
      kind = advanced_kind r.kind upd;
      fees = advanced_fees r.fees upd;
      error = advanced_error r.status new_status r.error error;
    })
