-- ===== src/Allocator/Decide/Soundness.antt =====
-- What every decision of a pass is (`decide_with_diagnostics`).
use fedimint_wallets.Prelude.{
  ℕ, ◌≤◌, ◌<◌, ◌≡◌, ◌≢◌, ◌⊎◌, inl, inr, true, false, some, none, [], ◌∷◌, arith, In, All,
  All-append,
}
use fedimint_wallets.Types.Federation.{FederationStatus, AllocatorSnapshot, Occurrence, cap_at}
use fedimint_wallets.Types.Action.{is_executable, AllocatorDecision, agent}
use fedimint_wallets.Conflict.{GoalBlockers, blocks_decision}
use fedimint_wallets.Allocator.Sizing.{move_fee_cap}
use fedimint_wallets.Allocator.Eligibility.{evacuation_reason, receive_blocker}
use fedimint_wallets.Allocator.Evacuation.{evac_fee_cap}
use fedimint_wallets.Allocator.Admission.{
  Pass, DeferredFunding, empty_pass, reservation_of, push_and_reserve, record_decision,
  push_decision, reserve,
}
use fedimint_wallets.Allocator.Admission.Push.{
  push_decision-All, KeysDistinct, push_decision-KeysDistinct,
}
use fedimint_wallets.Allocator.Decide.{decide_with_diagnostics}
use fedimint_wallets.Allocator.Decide.Steps.{
  Step, Steps, Planned, refuse, suppress, defer, admit, done, then_step, drains, funds,
}
use fedimint_wallets.Allocator.Decide.FundingTrace.{decide-Steps}

-- A drain of a federation that has to be left, under the base-plus-rate cap, or a funding move out
-- of one that has not, under the proportional cap and not below the protocol's floor.
abbrev pub IsDrain : AllocatorSnapshot → FederationStatus → AllocatorDecision → ℕ → ℕ → Type 0
IsDrain s source d amount cap =
    (evacuation_reason source ≡ some d.reason) × (cap ≡ cap_at (evac_fee_cap s) amount)

abbrev pub IsFundingMove : AllocatorSnapshot → FederationStatus → ℕ → ℕ → Type 0
IsFundingMove s source amount cap =
    (evacuation_reason source ≡ none)
    × (cap ≡ move_fee_cap amount s.max_fee_bps_of_move)
    × (s.min_move ≤ amount)

-- A money move between two known federations, the destination healthy and free to receive.
pub record IsSoundMove (s : AllocatorSnapshot) (d : AllocatorDecision) : Type 0 where
  pub source : FederationStatus
  pub dest : FederationStatus
  pub amount : ℕ
  pub cap : ℕ
  pub source_known : In source s.federations
  pub dest_known : In dest s.federations
  pub moves : reservation_of d.action ≡ some (source.id, dest.id, amount, cap)
  pub distinct : dest.id ≢ source.id
  pub positive : 0 < amount
  pub receivable : receive_blocker dest ≡ none
  pub stays : evacuation_reason dest ≡ none
  pub kind : IsDrain s source d amount cap ⊎ IsFundingMove s source amount cap

-- An emitted decision is advisory, or a sound move that no blocker holds.
abbrev pub IsSound : AllocatorSnapshot → Occurrence → GoalBlockers → AllocatorDecision → Type 0
IsSound s o b d =
    (is_executable d.action ≡ false) ⊎ ((blocks_decision b d (agent o) ≡ false) × IsSoundMove s d)

Planned-IsSoundMove :
    (s : AllocatorSnapshot) (p : Pass) (d : AllocatorDecision) → Planned s p d → IsSoundMove s d
Planned-IsSoundMove s p d plan = record {
  source = plan.source;
  dest = plan.dest;
  amount = plan.amount;
  cap = plan.cap;
  source_known = plan.source_known;
  dest_known = plan.dest_known;
  moves = plan.moves;
  distinct = plan.distinct;
  positive = plan.positive;
  receivable = plan.receivable;
  stays = plan.stays;
  kind = elim plan.kind [
    | drains r fee c ↦ inl (r, c)
    | funds r fee c floor kept fits ↦ inr (r, c, floor)
  ];
}

-- The three lists of an outcome.
pub record IsSoundPass (s : AllocatorSnapshot) (o : Occurrence) (b : GoalBlockers) (p : Pass)
    : Type 0 where
  pub emitted : All (IsSound s o b) p.decisions
  pub keys : KeysDistinct p.decisions
  pub withheld : All (λ d. blocks_decision b d (agent o) ≡ true) p.suppressed
  pub dust : All (λ (x : DeferredFunding). x.want < x.floor) p.deferred

-- Reserving touches no list.
push_and_reserve-lists :
    (p : Pass) (d : AllocatorDecision)
    → ((push_and_reserve p d).0.decisions ≡ (push_decision p.decisions d).0)
      × ((push_and_reserve p d).0.suppressed ≡ p.suppressed)
      × ((push_and_reserve p d).0.deferred ≡ p.deferred)
unfolding push_and_reserve reserve
push_and_reserve-lists p d = ground arith

Step-IsSoundPass :
    {s : AllocatorSnapshot} {o : Occurrence} {b : GoalBlockers} {p q : Pass}
    → Step s o b p q
    → IsSoundPass s o b p
    → IsSoundPass s o b q
unfolding record_decision
Step-IsSoundPass {s} {o} {b} {p} (refuse d e) v = record {
  emitted = push_decision-All (IsSound s o b) p.decisions d (inl e) v.emitted;
  keys = push_decision-KeysDistinct p.decisions d v.keys;
  withheld = v.withheld;
  dust = v.dust;
}
Step-IsSoundPass {s} {o} {b} {p} (suppress d t) v = record {
  emitted = v.emitted;
  keys = v.keys;
  withheld =
      push_decision-All (λ d. blocks_decision b d (agent o) ≡ true) p.suppressed d t v.withheld;
  dust = v.dust;
}
Step-IsSoundPass {s} {o} {b} {p} (defer x h) v = record {
  emitted = v.emitted;
  keys = v.keys;
  withheld = v.withheld;
  dust = All-append (λ (x : DeferredFunding). x.want < x.floor) p.deferred (x ∷ []) v.dust (h, tt);
}
Step-IsSoundPass {s} {o} {b} {p} (admit d f plan) v =
    let lists = push_and_reserve-lists p d in
    record {
      emitted = rw lists.0 (
          push_decision-All (IsSound s o b) p.decisions d (inr (f, Planned-IsSoundMove s p d plan))
            v.emitted);
      keys = rw lists.0 (push_decision-KeysDistinct p.decisions d v.keys);
      withheld = rw lists.1 v.withheld;
      dust = rw lists.2 v.dust;
    }

Steps-IsSoundPass :
    {s : AllocatorSnapshot} {o : Occurrence} {b : GoalBlockers} {p q : Pass}
    → IsSoundPass s o b p
    → Steps s o b p q
    → IsSoundPass s o b q
Steps-IsSoundPass v done = v
Steps-IsSoundPass v (then_step xs x) = Step-IsSoundPass x (Steps-IsSoundPass v xs)

empty-IsSoundPass :
    (s : AllocatorSnapshot) (o : Occurrence) (b : GoalBlockers) → IsSoundPass s o b empty_pass
unfolding empty_pass
empty-IsSoundPass s o b = record { emitted = tt; keys = tt; withheld = tt; dust = tt }

-- Over every snapshot, occurrence and set of blockers: each emitted decision is advisory or a move
-- of a positive amount between two different known federations that no blocker holds, whose
-- destination is healthy and free to receive, and which is either the drain of a federation with
-- an evacuation reason, under the base-plus-rate fee cap and for that reason, or a funding move
-- out of one without, under the proportional fee cap and not below the protocol's floor; no two
-- emitted decisions have one key; each suppressed decision is one that the blockers hold; and each
-- deferred goal wants less than its floor.
pub decide-IsSoundPass :
    (s : AllocatorSnapshot) (o : Occurrence) (b : GoalBlockers)
    → IsSoundPass s o b (decide_with_diagnostics s o b)
decide-IsSoundPass s o b = Steps-IsSoundPass (empty-IsSoundPass s o b) (decide-Steps s o b)
