-- ===== src/MoveProtocol.antt =====
-- The pure core of a move (wallet-fedimint/src/move_protocol.rs): the next step of a move, and its
-- record, put together again from the intent, the operation log and the cache.
pub mod Resume
pub mod Reassembly
use fedimint_wallets.Prelude.{
  ℕ, Bool, true, false, not, ◌&&◌, ◌||◌, Option, some, none, List, [], ◌∷◌, Text, is_some, is_none,
  and_then, filter_option, or_else, unwrap_or, filter, text_eq, if◌then◌else◌,
}
use fedimint_wallets.Types.Federation.{FederationId, Msat, GatewayUrl, EvacFeeCap}
use fedimint_wallets.Types.Action.{
  Action, direct_inflow, move, evacuate, pay, receive, join, recover, refuse_inflow, IdempotencyKey,
}
use fedimint_wallets.Types.Record.{
  MovePhase, created, invoiced, sending, settled, refunded, failed, stranded, MoveRecord,
}

pub data MoveStep : Type 0 where
  create_invoice pay_invoice await_settle step_done step_failed : MoveStep

pub data Leg : Type 0 where
  send_leg receive_leg : Leg

pub record OpArtifact : Type 0 where
  pub move_id : IdempotencyKey
  pub leg : Leg
  pub op_id : ℕ
  pub amount : Msat
  pub fee_cap : Option Msat
  pub invoice : Option Text

pub record MoveParams : Type 0 where
  pub key : IdempotencyKey
  pub operation_key : IdempotencyKey
  pub source : Option FederationId
  pub dest : FederationId
  pub amount : Msat
  pub fee_cap : Msat
  pub fee_cap_components : Option EvacFeeCap
  pub gateway : GatewayUrl
  pub send_required : Bool

pub record MovePlan : Type 0 where
  pub source : Option FederationId
  pub dest : FederationId
  pub amount : Msat
  pub fee_cap : Msat
  pub fee_cap_components : Option EvacFeeCap
  pub send_required : Bool

-- `MovePlan::from_action`
unfoldable pub plan_from_action : Action → Option MovePlan
plan_from_action (move s d a c g) = some (record {
  source = some s;
  dest = d;
  amount = a;
  fee_cap = c;
  fee_cap_components = none;
  send_required = true;
})
plan_from_action (evacuate s d a c g k) = some (record {
  source = some s;
  dest = d;
  amount = a;
  fee_cap = c;
  fee_cap_components = k;
  send_required = true;
})
plan_from_action (direct_inflow d a c) = some (record {
  source = none;
  dest = d;
  amount = a;
  fee_cap = c;
  fee_cap_components = none;
  send_required = false;
})
plan_from_action (pay s i a c h g) = none
plan_from_action (receive d a c n g) = none
plan_from_action (join f i m) = none
plan_from_action (recover f i) = none
plan_from_action (refuse_inflow f r d) = none

-- The tests of `next_step` on a move that is still in flight.
unfoldable pub step_in_flight : MoveRecord → MoveStep
step_in_flight r =
    if is_none r.invoice && is_none r.send_op
    then create_invoice
    else (if r.send_required && is_none r.send_op then pay_invoice else await_settle)

step_by_phase : MovePhase → MoveRecord → MoveStep
step_by_phase settled r = step_done
step_by_phase refunded r = step_failed
step_by_phase failed r = step_failed
step_by_phase stranded r = step_failed
step_by_phase created r = step_in_flight r
step_by_phase invoiced r = step_in_flight r
step_by_phase sending r = step_in_flight r

unfoldable pub next_step : MoveRecord → MoveStep
unfolding step_by_phase
next_step r = step_by_phase r.phase r

-- A terminal phase in the cache is kept.
abbrev pub is_settlement : MovePhase → Bool
is_settlement settled = true
is_settlement refunded = true
is_settlement failed = true
is_settlement stranded = true
is_settlement _ = false

abbrev pub phase_of_legs : Bool → Bool → MovePhase
phase_of_legs has_invoice true = sending
phase_of_legs true false = invoiced
phase_of_legs false false = created

unfoldable pub derive_phase : Option MovePhase → Bool → Bool → MovePhase
derive_phase none has_invoice has_send_op = phase_of_legs has_invoice has_send_op
derive_phase (some p) has_invoice has_send_op =
    if is_settlement p then p else phase_of_legs has_invoice has_send_op

-- The five `artifact_*` variables of the loop.
pub record Found : Type 0 where
  pub amount : Option Msat
  pub fee_cap : Option Msat
  pub invoice : Option Text
  pub recv_op : Option ℕ
  pub send_op : Option ℕ

abbrev pub nothing_found : Found
nothing_found = record {
  amount = none;
  fee_cap = none;
  invoice = none;
  recv_op = none;
  send_op = none;
}

-- A receive leg counts if it is the first and carries its invoice.
unfoldable pub take_receive : OpArtifact → Found → Found
take_receive a f = if is_some f.recv_op then f else (elim a.invoice [
  | none ↦ f
  | some i ↦ record f { recv_op = some a.op_id; invoice = some i }
])

unfoldable pub take_send : OpArtifact → Found → Found
take_send a f = record f { send_op = or_else f.send_op (some a.op_id) }

take_leg : Leg → OpArtifact → Found → Found
unfolding take_receive take_send
take_leg receive_leg a f = take_receive a f
take_leg send_leg a f = take_send a f

-- The body of the loop.
unfoldable pub take_artifact : OpArtifact → Found → Found
unfolding take_leg
take_artifact a f =
    take_leg a.leg a (record f {
      amount = or_else f.amount (some a.amount);
      fee_cap = or_else f.fee_cap a.fee_cap;
    })

unfoldable pub gather : Found → List OpArtifact → Found
gather f [] = f
gather f (a ∷ rest) = gather (take_artifact a f) rest

abbrev pub of_cache : {A : Type 0} → Option MoveRecord → (MoveRecord → Option A) → Option A
of_cache cached field = and_then cached field

-- The cached cap counts once a leg was committed.
unfoldable pub cached_cap : Option MoveRecord → Option Msat
cached_cap none = none
cached_cap (some c) = if is_some c.recv_op || is_some c.send_op then some c.fee_cap else none

-- The merge of the three sources, once the artifacts are gathered and the cache is the move's own.
unfoldable pub merge_sources : MoveParams → Found → Option MoveRecord → MoveRecord
merge_sources p f cached =
    let invoice = or_else f.invoice (of_cache cached λ c. c.invoice) in
    let recv_op = or_else f.recv_op (of_cache cached λ c. c.recv_op) in
    let send_op = or_else f.send_op (of_cache cached λ c. c.send_op) in
    record {
      key = p.key;
      source = p.source;
      dest = p.dest;
      amount = unwrap_or p.amount (or_else f.amount (of_cache cached λ c. some c.amount));
      fee_cap = unwrap_or p.fee_cap (or_else f.fee_cap (cached_cap cached));
      gateway = p.gateway;
      send_required = p.send_required;
      invoice = invoice;
      recv_op = recv_op;
      send_op = send_op;
      phase = derive_phase (of_cache cached λ c. some c.phase) (is_some invoice) (is_some send_op);
      outcome = of_cache cached λ c. c.outcome;
      preimage = of_cache cached λ c. c.preimage;
      receive_fee_quoted = of_cache cached λ c. c.receive_fee_quoted;
      send_fee_quoted = of_cache cached λ c. c.send_fee_quoted;
    }

abbrev pub own_cache : MoveParams → Option MoveRecord → Option MoveRecord
own_cache p cached = filter_option (λ c. text_eq c.key p.key) cached

abbrev pub own_artifacts : MoveParams → List OpArtifact → List OpArtifact
own_artifacts p artifacts = filter (λ a. text_eq a.move_id p.operation_key) artifacts

unfoldable pub assemble_move_record : MoveParams → List OpArtifact → Option MoveRecord → MoveRecord
unfolding gather merge_sources
assemble_move_record p artifacts cached =
    merge_sources p (gather nothing_found (own_artifacts p artifacts)) (own_cache p cached)
