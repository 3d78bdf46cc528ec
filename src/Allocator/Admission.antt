-- ===== src/Allocator/Admission.antt =====
-- The pass's state, and the ways a decision enters it (`push_decision`, `push_and_reserve`,
-- `push_if_eligible_and_reserve` and the refusals of wallet-core/src/allocator.rs).
pub mod Books
pub mod Push
use fedimint_wallets.Prelude.{
  ℕ, ◌+◌, Bool, true, false, not, ◌&&◌, Option, some, none, List, [], ◌∷◌, ◌++◌, NatMap, put,
  empty_map, sat_add64, any, text_eq, if◌then◌else◌,
}
use fedimint_wallets.Types.Federation.{FederationId, Msat, Occurrence}
use fedimint_wallets.Types.Action.{
  Action, direct_inflow, move, evacuate, pay, receive, join, recover, refuse_inflow, ReasonCode,
  RefusalDiagnostics, is_populated, AllocatorDecision, agent, IdempotencyKey,
}
use fedimint_wallets.Conflict.{GoalBlockers, blocks_decision}
use fedimint_wallets.Allocator.Sizing.{reserved}
use fedimint_wallets.Allocator.Keys.{idem_refuse, idem_conflict_suppressed}

pub data DeferralFloor : Type 0 where
  protocol_min_move route_min_viable : DeferralFloor

pub record DeferredFunding : Type 0 where
  pub dest : FederationId
  pub source : Option FederationId
  pub reason : ReasonCode
  pub want : Msat
  pub floor : Msat
  pub floor_source : DeferralFloor

-- `AllocatorOutcome`, and with it the two maps of the pass.
pub record Pass : Type 0 where
  pub decisions : List AllocatorDecision
  pub suppressed : List AllocatorDecision
  pub deferred : List DeferredFunding
  pub credited : NatMap ℕ
  pub debited : NatMap ℕ

unfoldable pub empty_pass : Pass
empty_pass = record {
  decisions = [];
  suppressed = [];
  deferred = [];
  credited = empty_map;
  debited = empty_map;
}

abbrev pub same_key : AllocatorDecision → AllocatorDecision → Bool
same_key d e = text_eq e.idempotency_key d.idempotency_key

replaces_action : Action → Action → Bool
replaces_action (refuse_inflow f r incoming) (refuse_inflow g q present) =
    is_populated incoming && not (is_populated present)
replaces_action _ _ = false

-- Whether a populated refusal takes the place of an empty one.
unfoldable pub replaces : AllocatorDecision → AllocatorDecision → Bool
unfolding replaces_action
replaces d e = replaces_action d.action e.action

-- The first decision under the key, with the refusal's figures filled in.
unfoldable pub refill : AllocatorDecision → List AllocatorDecision → List AllocatorDecision
refill d [] = []
refill d (e ∷ es) =
    let rest = e ∷ refill d es in
    if same_key d e then (if replaces d e then d else e) ∷ es else rest

unfoldable pub push_decision :
    List AllocatorDecision → AllocatorDecision → List AllocatorDecision × Bool
push_decision out d =
    if any (same_key d) out then (refill d out, false) else (out ++ (d ∷ []), true)

-- Source, destination, amount and fee cap of a money move.
unfoldable pub reservation_of : Action → Option (FederationId × FederationId × ℕ × ℕ)
reservation_of (move s d a c g) = some (s, d, a, c)
reservation_of (evacuate s d a c g k) = some (s, d, a, c)
reservation_of (direct_inflow d a c) = none
reservation_of (pay s i a c h g) = none
reservation_of (receive d a c n g) = none
reservation_of (join f i m) = none
reservation_of (recover f i) = none
reservation_of (refuse_inflow f r d) = none

-- `entry(fed).or_insert(0)` and the saturating addition.
unfoldable pub add_to : NatMap ℕ → FederationId → ℕ → NatMap ℕ
add_to m fed amount = put fed (sat_add64 (reserved m fed) amount) m

unfoldable pub reserve : Pass → Action → Pass
reserve p action = elim (reservation_of action) [
  | none ↦ p
  | some (s, d, amount, cap) ↦ record p {
    credited = add_to p.credited d amount;
    debited = add_to p.debited s (sat_add64 amount cap);
  }
]

unfoldable pub push_and_reserve : Pass → AllocatorDecision → Pass × Bool
push_and_reserve p d =
    let (out, pushed) = push_decision p.decisions d in
    if pushed
    then (reserve (record p { decisions = out }) d.action, true)
    else (record p { decisions = out }, false)

pub data Admission : Type 0 where
  admitted conflict_suppressed duplicate : Admission

unfoldable pub push_if_eligible_and_reserve :
    GoalBlockers → Occurrence → Pass → AllocatorDecision → Pass × Admission
push_if_eligible_and_reserve blocked occurrence p d =
    if blocks_decision blocked d (agent occurrence)
    then (record p { suppressed = (push_decision p.suppressed d).0 }, conflict_suppressed)
    else (let (q, pushed) = push_and_reserve p d in (q, if pushed then admitted else duplicate))

-- `push_decision(out, …)` on the pass.
unfoldable pub record_decision : Pass → AllocatorDecision → Pass
record_decision p d = record p { decisions = (push_decision p.decisions d).0 }

unfoldable pub refuse_decision :
    FederationId → ReasonCode → Occurrence → RefusalDiagnostics → AllocatorDecision
refuse_decision fed reason occurrence diagnostics = record {
  action = refuse_inflow fed reason diagnostics;
  reason = reason;
  occurrence = occurrence;
  idempotency_key = idem_refuse fed reason occurrence;
}

refusal_key : Option AllocatorDecision → FederationId → ReasonCode → Occurrence → IdempotencyKey
refusal_key none fed reason occurrence = idem_refuse fed reason occurrence
refusal_key (some c) fed reason occurrence = idem_conflict_suppressed c.idempotency_key reason

unfoldable pub suppression_refusal_or_ordinary :
    Option AllocatorDecision
    → FederationId
    → ReasonCode
    → Occurrence
    → RefusalDiagnostics
    → AllocatorDecision
unfolding refusal_key refuse_decision
suppression_refusal_or_ordinary candidate fed reason occurrence diagnostics =
    let refusal = refuse_decision fed reason occurrence diagnostics in
    record refusal { idempotency_key = refusal_key candidate fed reason occurrence }
