-- ===== src/Allocator/Evacuation.antt =====
-- The evacuation of one federation (`evacuate_decision`, `evacuation_suppression_refusal` of
-- wallet-core/src/allocator.rs).
use fedimint_wallets.Prelude.{
  ℕ, ◌-◌, true, false, Option, some, none, NatMap, min, ◌==◌, if◌then◌else◌, and_then,
}
use fedimint_wallets.Types.Federation.{
  FederationStatus, AllocatorSnapshot, RouteEconomics, Occurrence, EvacFeeCap, cap_at, outbound,
  GatewayUrl,
}
use fedimint_wallets.Types.Action.{
  Action, evacuate, ReasonCode, RefusalDiagnostics, default_diagnostics, AllocatorDecision,
}
use fedimint_wallets.Allocator.Sizing.{reserved}
use fedimint_wallets.Allocator.Keys.{idem_evac}
use fedimint_wallets.Allocator.Eligibility.{find_fed, cap_room_with, safest_other}
use fedimint_wallets.Allocator.Admission.{refuse_decision, suppression_refusal_or_ordinary}

unfoldable pub source_available : AllocatorSnapshot → FederationStatus → NatMap ℕ → ℕ
source_available s source debited =
    source.balance.spendable - outbound s.reservations source.id - reserved debited source.id

abbrev pub evac_fee_cap : AllocatorSnapshot → EvacFeeCap
evac_fee_cap s = record { base_msat = s.evac_fee_base_msat; bps = s.evac_fee_bps }

-- The gateway that the pair was priced with.
abbrev pub gateway_of : Option RouteEconomics → Option GatewayUrl
gateway_of none = none
gateway_of (some r) = r.resolved_gateway

-- The decision once a destination is chosen.
unfoldable pub evacuate_into :
    AllocatorSnapshot
    → Occurrence
    → NatMap ℕ
    → NatMap ℕ
    → FederationStatus
    → ReasonCode
    → FederationStatus
    → AllocatorDecision
evacuate_into s occurrence credited debited source reason dest =
    let src_available = source_available s source debited in
    let cap_room = cap_room_with s dest credited in
    let amount = min src_available cap_room in
    if amount == 0
    then (refuse_decision source.id reason occurrence (record {
      source = some source.id;
      want = none;
      available = some src_available;
      source_spendable = some source.balance.spendable;
      max_fee = none;
      max_fee_bps = none;
      cap_room = some cap_room;
      amount = some amount;
      conflict_suppressed = false;
      min_move = none;
    }))
    else (record {
      action =
          evacuate source.id dest.id amount (cap_at (evac_fee_cap s) amount)
            (gateway_of (s.route_economics_by_pair source.id dest.id)) (some (evac_fee_cap s));
      reason = reason;
      occurrence = occurrence;
      idempotency_key = idem_evac source.id dest.id occurrence;
    })

unfoldable pub evacuate_decision :
    AllocatorSnapshot
    → Occurrence
    → NatMap ℕ
    → NatMap ℕ
    → FederationStatus
    → ReasonCode
    → AllocatorDecision
evacuate_decision s occurrence credited debited source reason =
    elim (safest_other s source credited) [
      | some dest ↦ evacuate_into s occurrence credited debited source reason dest
      | none ↦ refuse_decision source.id reason occurrence default_diagnostics
    ]

-- The figures of the advisory twin.
abbrev suppressed_figures :
    AllocatorSnapshot
    → NatMap ℕ
    → NatMap ℕ
    → FederationStatus
    → FederationStatus
    → RefusalDiagnostics
suppressed_figures s credited debited source dest = record {
  source = some source.id;
  want = none;
  available = some (source_available s source debited);
  source_spendable = some source.balance.spendable;
  max_fee = none;
  max_fee_bps = none;
  cap_room = some (cap_room_with s dest credited);
  amount = some 0;
  conflict_suppressed = true;
  min_move = none;
}

suppression_of :
    AllocatorSnapshot → NatMap ℕ → NatMap ℕ → AllocatorDecision → Action → Option AllocatorDecision
suppression_of s credited debited d (evacuate source dest amount c g k) =
    if amount == 0
    then none
    else (and_then (find_fed s source) λ source_status. and_then (find_fed s dest) λ dest_status.
        some (
          suppression_refusal_or_ordinary (some d) source d.reason d.occurrence
            (suppressed_figures s credited debited source_status dest_status)))
suppression_of s credited debited d _ = none

unfoldable pub evacuation_suppression_refusal :
    AllocatorSnapshot → NatMap ℕ → NatMap ℕ → AllocatorDecision → Option AllocatorDecision
unfolding suppression_of
evacuation_suppression_refusal s credited debited d = suppression_of s credited debited d d.action
