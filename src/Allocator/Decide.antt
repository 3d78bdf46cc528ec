-- ===== src/Allocator/Decide.antt =====
-- The whole pass (`decide_with_diagnostics`, `decide_with_blockers` and `decide` of
-- wallet-core/src/allocator.rs).
pub mod Steps
pub mod Trace
pub mod FundingTrace
pub mod Within
pub mod Limits
pub mod Soundness
use fedimint_wallets.Prelude.{
  ℕ, ◌-◌, Bool, Option, some, none, List, [], ◌∷◌, ltb, ◌&&◌, if◌then◌else◌, map_or, and_then,
  is_none,
}
use fedimint_wallets.Types.Federation.{
  FederationId, FederationStatus, AllocatorSnapshot, Occurrence, outbound, target_credit,
}
use fedimint_wallets.Types.Action.{ReasonCode, over_cap, default_diagnostics, AllocatorDecision}
use fedimint_wallets.Conflict.{GoalBlockers, no_blockers}
use fedimint_wallets.Allocator.Sizing.{max_fundable, funding_shortfall, reserved}
use fedimint_wallets.Allocator.Eligibility.{find_fed, evacuation_reason, usable_source}
use fedimint_wallets.Allocator.Admission.{
  Pass, empty_pass, Admission, conflict_suppressed, push_if_eligible_and_reserve, record_decision,
  refuse_decision,
}
use fedimint_wallets.Allocator.Evacuation.{evacuate_decision, evacuation_suppression_refusal}
use fedimint_wallets.Allocator.Funding.{FundKind, top_up, standby, Goal, fund_into}

-- The audit row of a withheld evacuation.
unfoldable pub after_admission : Admission → Option AllocatorDecision → Pass → Pass
after_admission conflict_suppressed (some refusal) p = record_decision p refusal
after_admission _ _ p = p

unfoldable pub try_evacuate :
    AllocatorSnapshot → Occurrence → GoalBlockers → FederationStatus → ReasonCode → Pass → Pass
unfolding after_admission
try_evacuate s occurrence blocked fed reason p =
    let decision = evacuate_decision s occurrence p.credited p.debited fed reason in
    let refusal = evacuation_suppression_refusal s p.credited p.debited decision in
    let (q, admission) = push_if_eligible_and_reserve blocked occurrence p decision in
    after_admission admission refusal q

unfoldable pub refuse_over_cap : AllocatorSnapshot → Occurrence → FederationStatus → Pass → Pass
refuse_over_cap s occurrence fed p =
    if ltb s.per_fed_cap fed.balance.spendable
    then record_decision p (refuse_decision fed.id over_cap occurrence default_diagnostics)
    else p

-- The body of the loop over the federations.
unfoldable pub visit :
    AllocatorSnapshot → Occurrence → GoalBlockers → FederationStatus → Pass → Pass
visit s occurrence blocked fed p = refuse_over_cap s occurrence fed (elim (evacuation_reason fed) [
  | some reason ↦ try_evacuate s occurrence blocked fed reason p
  | none ↦ p
])

unfoldable pub visit_all :
    AllocatorSnapshot → Occurrence → GoalBlockers → List FederationStatus → Pass → Pass
visit_all s occurrence blocked [] p = p
visit_all s occurrence blocked (fed ∷ feds) p =
    visit_all s occurrence blocked feds (visit s occurrence blocked fed p)

-- What a source may still give: its balance over a kept floor, less prior and same-tick debits.
unfoldable pub source_budget : AllocatorSnapshot → ℕ → Pass → FederationStatus → ℕ
source_budget s kept p source =
    source.balance.spendable
    - kept
    - outbound s.reservations source.id
    - reserved p.debited source.id

-- The goal of one designated federation, with the shortfall to its target.
unfoldable pub funding_goal :
    AllocatorSnapshot
    → Occurrence
    → GoalBlockers
    → FundKind
    → ℕ
    → ℕ
    → FederationStatus
    → Option FederationStatus
    → Pass
    → Goal
funding_goal s occurrence blocked kind kept target dest source p = record {
  snapshot = s;
  kind = kind;
  occurrence = occurrence;
  blocked = blocked;
  dest = dest;
  source = source;
  available = map_or 0 (λ f. max_fundable (source_budget s kept p f) s.max_fee_bps_of_move) source;
  want =
      funding_shortfall target dest.balance.spendable (target_credit s.reservations dest.id)
        (reserved p.credited dest.id);
}

unfoldable pub fund_goal : Goal → Pass → Pass
fund_goal g p = if is_none (evacuation_reason g.dest) && ltb 0 g.want then fund_into g p else p

unfoldable pub fund_spending : AllocatorSnapshot → Occurrence → GoalBlockers → Pass → Pass
unfolding fund_goal
fund_spending s occurrence blocked p = elim (and_then s.spending_fed (find_fed s)) [
  | none ↦ p
  | some spending ↦
      fund_goal
        (funding_goal s occurrence blocked top_up 0 s.target_spending_balance spending
          (usable_source (and_then s.standby_fed (find_fed s))) p)
        p
]

unfoldable pub fund_standby : AllocatorSnapshot → Occurrence → GoalBlockers → Pass → Pass
unfolding fund_goal
fund_standby s occurrence blocked p = elim (and_then s.standby_fed (find_fed s)) [
  | none ↦ p
  | some fed ↦
      fund_goal
        (funding_goal s occurrence blocked standby s.target_spending_balance s.standby_target fed
          (usable_source (and_then s.spending_fed (find_fed s))) p)
        p
]

unfoldable pub decide_with_diagnostics : AllocatorSnapshot → Occurrence → GoalBlockers → Pass
decide_with_diagnostics s occurrence blocked =
    fund_standby s occurrence blocked
      (fund_spending s occurrence blocked (visit_all s occurrence blocked s.federations empty_pass))

unfoldable pub decide_with_blockers :
    AllocatorSnapshot → Occurrence → GoalBlockers → List AllocatorDecision × List AllocatorDecision
decide_with_blockers s occurrence blocked =
    let outcome = decide_with_diagnostics s occurrence blocked in
    (outcome.decisions, outcome.suppressed)

unfoldable pub decide : AllocatorSnapshot → Occurrence → List AllocatorDecision
decide s occurrence = (decide_with_blockers s occurrence no_blockers).0
