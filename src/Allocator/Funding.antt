-- ===== src/Allocator/Funding.antt =====
-- One funding goal (`FundKind`, `move_decision` and `fund_into` of wallet-core/src/allocator.rs):
-- the guards, the floor of the route, and the sized move with its refusals.
use fedimint_wallets.Prelude.{
  ℕ, Bool, true, false, not, ◌&&◌, ◌||◌, Option, some, none, ◌∷◌, [], ◌++◌, min, max, ltb, ◌==◌,
  if◌then◌else◌, is_some, map_or, and_then,
}
use fedimint_wallets.Types.Federation.{
  FederationId, FederationStatus, AllocatorSnapshot, RouteEconomics, RouteStatus, routable,
  unroutable, uneconomic_at_any_size, Occurrence, Msat, GatewayUrl,
}
use fedimint_wallets.Types.Action.{
  move, ReasonCode, spending_below_target, standby_below_target, over_cap, uneconomic_route,
  RefusalDiagnostics, AllocatorDecision,
}
use fedimint_wallets.Conflict.{GoalBlockers}
use fedimint_wallets.Allocator.Sizing.{move_fee_cap}
use fedimint_wallets.Allocator.Keys.{idem_move}
use fedimint_wallets.Allocator.Eligibility.{receive_blocker, cap_room_with}
use fedimint_wallets.Allocator.Evacuation.{gateway_of}
use fedimint_wallets.Allocator.Admission.{
  Pass, DeferredFunding, route_min_viable, protocol_min_move, Admission, conflict_suppressed,
  push_if_eligible_and_reserve, record_decision, refuse_decision, suppression_refusal_or_ordinary,
}

pub data FundKind : Type 0 where
  top_up standby : FundKind

abbrev pub kind_reason : FundKind → ReasonCode
kind_reason top_up = spending_below_target
kind_reason standby = standby_below_target

unfoldable pub move_decision :
    FundKind
    → FederationId
    → FederationId
    → Msat
    → AllocatorSnapshot
    → Occurrence
    → Option GatewayUrl
    → AllocatorDecision
move_decision kind source dest amount s occurrence gateway = record {
  action = move source dest amount (move_fee_cap amount s.max_fee_bps_of_move) gateway;
  reason = kind_reason kind;
  occurrence = occurrence;
  idempotency_key = idem_move source dest occurrence;
}

-- The arguments that the steps of `fund_into` share.
pub record Goal : Type 0 where
  pub snapshot : AllocatorSnapshot
  pub kind : FundKind
  pub occurrence : Occurrence
  pub blocked : GoalBlockers
  pub dest : FederationStatus
  pub source : Option FederationStatus
  pub available : ℕ
  pub want : ℕ

abbrev pub source_id : Goal → Option FederationId
source_id g = elim g.source [ none ↦ none | some s ↦ some s.id ]

-- The figures of a funding refusal.
abbrev pub funding_figures : Goal → Option Msat → Option Msat → Bool → RefusalDiagnostics
funding_figures g cap_room amount suppressed = record {
  source = source_id g;
  want = some g.want;
  available = elim g.source [ none ↦ none | some s ↦ some g.available ];
  source_spendable = elim g.source [ none ↦ none | some s ↦ some s.balance.spendable ];
  max_fee = none;
  max_fee_bps = some g.snapshot.max_fee_bps_of_move;
  cap_room = cap_room;
  amount = amount;
  conflict_suppressed = suppressed;
  min_move = some g.snapshot.min_move;
}

unfoldable pub route_of : Goal → Option RouteEconomics
route_of g = and_then g.source λ s. g.snapshot.route_economics_by_pair s.id g.dest.id

floor_of_status : RouteStatus → ℕ → ℕ → ℕ
floor_of_status routable viable min_move = max viable min_move
floor_of_status unroutable viable min_move = min_move
floor_of_status uneconomic_at_any_size viable min_move = min_move

unfoldable pub floor_of : Goal → ℕ
unfolding floor_of_status
floor_of g =
    map_or g.snapshot.min_move
      (λ r. floor_of_status r.status r.min_viable_amount g.snapshot.min_move) (route_of g)

abbrev pub is_blocked_status : RouteStatus → Bool
is_blocked_status routable = false
is_blocked_status unroutable = true
is_blocked_status uneconomic_at_any_size = true

abbrev pub is_uneconomic_status : RouteStatus → Bool
is_uneconomic_status uneconomic_at_any_size = true
is_uneconomic_status _ = false

unfoldable pub route_blocked : Goal → Bool
route_blocked g = map_or false (λ r. is_blocked_status r.status) (route_of g)

unfoldable pub uneconomic : Goal → Bool
uneconomic g = map_or false (λ r. is_uneconomic_status r.status) (route_of g)

-- The withheld goal of a shortfall under the floor.
abbrev pub deferred_goal : Goal → DeferredFunding
deferred_goal g = record {
  dest = g.dest.id;
  source = source_id g;
  reason = kind_reason g.kind;
  want = g.want;
  floor = floor_of g;
  floor_source =
      if ltb g.snapshot.min_move (floor_of g) then route_min_viable else protocol_min_move;
}

unfoldable pub defer_funding : Goal → Pass → Pass
defer_funding g p = record p { deferred = p.deferred ++ (deferred_goal g ∷ []) }

-- The amount of the move: clamped by want, cap room and availability, and 0 under the floor.
unfoldable pub funded_amount : Goal → Pass → ℕ
funded_amount g p =
    let amount = min (min g.want (cap_room_with g.snapshot g.dest p.credited)) g.available in
    if route_blocked g || ltb amount (floor_of g) then 0 else amount

suppressed_candidate : Admission → AllocatorDecision → Option AllocatorDecision
suppressed_candidate conflict_suppressed d = some d
suppressed_candidate _ d = none

-- The admission of the sized move: the pass after it, and the candidate if it was suppressed.
unfoldable pub admit_move : Goal → ℕ → Pass → Pass × Option AllocatorDecision
unfolding suppressed_candidate
admit_move g amount p = elim g.source [
  | none ↦ (p, none)
  | some s ↦
      if amount == 0
      then (p, none)
      else (let candidate =
            move_decision g.kind s.id g.dest.id amount g.snapshot g.occurrence
              (gateway_of (route_of g)) in
          let (q, admission) = push_if_eligible_and_reserve g.blocked g.occurrence p candidate in
          (q, suppressed_candidate admission candidate))
]

-- One of the closing refusals, on its condition.
abbrev pub refuse_if :
    Bool → Goal → Option AllocatorDecision → RefusalDiagnostics → ReasonCode → Pass → Pass
refuse_if true g candidate figures reason p =
    record_decision p
      (suppression_refusal_or_ordinary candidate g.dest.id reason g.occurrence figures)
refuse_if false g candidate figures reason p = p

-- A suppressed move was not emitted, and counts as 0.
abbrev pub refusal_figures : Goal → ℕ → ℕ → Option AllocatorDecision → RefusalDiagnostics
refusal_figures g cap_room amount candidate =
    funding_figures g (some cap_room) (some (if is_some candidate then 0 else amount))
      (is_some candidate)

-- The refusals that record why the destination stays underfunded.
unfoldable pub fund_refusals : Goal → ℕ → ℕ → Option AllocatorDecision → Pass → Pass
fund_refusals g cap_room amount candidate p =
    let suppressed = is_some candidate in
    let figures =
      funding_figures g (some cap_room) (some (if suppressed then 0 else amount)) suppressed in
    let over = refuse_if (ltb cap_room g.want) g candidate figures over_cap p in
    if uneconomic g
    then refuse_if true g candidate figures uneconomic_route over
    else (refuse_if (suppressed || ltb amount (min g.want cap_room)) g candidate figures
        (kind_reason g.kind) over)

unfoldable pub fund_sized : Goal → Pass → Pass
fund_sized g p =
    let amount = funded_amount g p in
    let (q, candidate) = admit_move g amount p in
    fund_refusals g (cap_room_with g.snapshot g.dest p.credited) amount candidate q

abbrev pub is_self_fund : Goal → Bool
is_self_fund g = map_or false (λ s. s.id == g.dest.id) g.source

unfoldable pub fund_into : Goal → Pass → Pass
fund_into g p = elim (receive_blocker g.dest) [
  | some blocker ↦
      record_decision p
        (refuse_decision g.dest.id blocker g.occurrence (funding_figures g none none false))
  | none ↦
      if is_self_fund g
      then p
      else if ltb g.want (floor_of g) && not (uneconomic g)
      then defer_funding g p
      else (fund_sized g p)
]
