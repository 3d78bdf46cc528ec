-- ===== src/Allocator/Decide/Limits.antt =====
-- No pass overfills a federation or overdraws one (`decide_with_diagnostics`).
use fedimint_wallets.Prelude.{
  ◌+◌, ◌-◌, ◌≤◌, ◌≡◌, refl, subst, inl, inr, true, List, arith, In, ◌==◌, min, if◌then◌else◌,
  Bool-cases, u64_max,
}
use fedimint_wallets.Types.Federation.{
  FederationId, FederationStatus, AllocatorSnapshot, Occurrence, outbound, inbound,
}
use fedimint_wallets.Types.Action.{AllocatorDecision}
use fedimint_wallets.Conflict.{GoalBlockers}
use fedimint_wallets.Allocator.Sizing.{reserved}
use fedimint_wallets.Allocator.Sizing.Bounds.{fundable_fits}
use fedimint_wallets.Allocator.Eligibility.{cap_room_with}
use fedimint_wallets.Allocator.Evacuation.{source_available}
use fedimint_wallets.Allocator.Admission.{Pass, push_decision, push_and_reserve, reserve, add_to}
use fedimint_wallets.Allocator.Admission.Books.{
  inflow, outflow, credit_of, debit_of, funding_fee, inflow-push_decision, outflow-push_decision,
  reserved-add_to,
}
use fedimint_wallets.Allocator.Decide.{source_budget, decide_with_diagnostics}
use fedimint_wallets.Allocator.Decide.Steps.{
  Step, Steps, Planned, refuse, suppress, defer, admit, done, then_step, funds, drains,
}
use fedimint_wallets.Allocator.Decide.FundingTrace.{decide-Steps}
use fedimint_wallets.Allocator.Decide.Within.{
  IsSnapshot, IsWithin, empty-IsWithin, same-IsWithin, record-IsWithin,
}

module _ (s : AllocatorSnapshot) (ok : IsSnapshot s) (p : Pass) (w : IsWithin s p)
    (d : AllocatorDecision) (plan : Planned s p d) where
  -- What the plan takes out of its source fits what the source still has.
  plan_affordable :
      plan.amount + funding_fee d.action + reserved p.debited plan.source.id
      ≤ plan.source.balance.spendable - outbound s.reservations plan.source.id
  unfolding source_available source_budget
  plan_affordable = elim plan.kind [
    | drains r fee c ↦ omega (arith, plan.affordable, plan.positive, fee)
    | funds r fee c floor kept fits ↦ omega (
      arith,
      plan.positive,
      fee,
      c,
      fundable_fits plan.amount (source_budget s kept p plan.source) s.max_fee_bps_of_move
          (omega (arith, ok.balances_fit plan.source plan.source_known)) ok.rate fits,
    )
  ]

  plan_room :
      plan.amount + reserved p.credited plan.dest.id
      ≤ s.per_fed_cap - plan.dest.balance.spendable - inbound s.reservations plan.dest.id
  unfolding cap_room_with
  plan_room = omega (arith, plan.room, plan.positive)

  credit_of-plan :
      (fed : FederationId)
      → credit_of d.action fed ≡ (if plan.dest.id == fed then plan.amount else 0)
  unfolding credit_of
  credit_of-plan fed = rw (plan.moves, credit_of)

  debit_of-plan :
      (fed : FederationId)
      → debit_of d.action fed
        ≡ (if plan.source.id == fed then plan.amount + funding_fee d.action else 0)
  unfolding debit_of
  debit_of-plan fed = rw (plan.moves, debit_of)

  out : List AllocatorDecision
  out = (push_decision p.decisions d).0

  -- The pass after a decision that was pushed.
  after_push : Pass
  after_push = record p {
    decisions = out;
    credited = add_to p.credited plan.dest.id plan.amount;
    debited = add_to p.debited plan.source.id (min (plan.amount + plan.cap) u64_max);
  }

  module _ (pushed : (push_decision p.decisions d).1 ≡ true) where
    pushed_inflow :
        (fed : FederationId)
        → inflow out fed ≡ inflow p.decisions fed + (if plan.dest.id == fed then plan.amount else 0)
    unfolding out
    pushed_inflow fed = ground (arith, inflow-push_decision p.decisions d fed, credit_of-plan fed)

    pushed_outflow :
        (fed : FederationId)
        → outflow out fed
          ≡ outflow p.decisions fed
            + (if plan.source.id == fed then plan.amount + funding_fee d.action else 0)
    unfolding out
    pushed_outflow fed = ground (arith, outflow-push_decision p.decisions d fed, debit_of-plan fed)

    funding_fee-le-cap : funding_fee d.action ≤ plan.cap
    funding_fee-le-cap = elim plan.kind [
      | drains r fee c ↦ omega (arith, fee)
      | funds r fee c floor kept fits ↦ omega (arith, fee)
    ]

    pushed_credited :
        (fed : FederationId) → reserved after_push.credited fed ≡ inflow after_push.decisions fed
    unfolding after_push
    pushed_credited fed = ground (
      arith,
      reserved-add_to p.credited plan.dest.id fed plan.amount,
      pushed_inflow fed,
      w.credited_exact fed,
      plan_room,
      ok.cap_fits,
    )

    pushed_debited :
        (fed : FederationId) → outflow after_push.decisions fed ≤ reserved after_push.debited fed
    unfolding after_push
    pushed_debited fed = ground (
      arith,
      reserved-add_to p.debited plan.source.id fed (min (plan.amount + plan.cap) u64_max),
      pushed_outflow fed,
      w.debited_covers fed,
      plan_affordable,
      funding_fee-le-cap,
      ok.balances_fit plan.source plan.source_known,
    )

    pushed_inflow_fits :
        (f : FederationStatus)
        → In f s.federations
        → inflow after_push.decisions f.id
          ≤ s.per_fed_cap - f.balance.spendable - inbound s.reservations f.id
    unfolding after_push
    pushed_inflow_fits f m = elim (Bool-cases (plan.dest.id == f.id)) [
      | inl t ↦
          let same : plan.dest ≡ f = ok.unique plan.dest f plan.dest_known m (ground arith) in
          let room =
            subst
              (λ g.
                plan.amount + reserved p.credited g.id
                ≤ s.per_fed_cap - g.balance.spendable - inbound s.reservations g.id)
              same plan_room in
          ground (arith, pushed_inflow f.id, w.credited_exact f.id, room)
      | inr n ↦ ground (arith, pushed_inflow f.id, w.inflow_fits f m)
    ]

    pushed_outflow_fits :
        (f : FederationStatus)
        → In f s.federations
        → outflow after_push.decisions f.id ≤ f.balance.spendable - outbound s.reservations f.id
    unfolding after_push
    pushed_outflow_fits f m = elim (Bool-cases (plan.source.id == f.id)) [
      | inl t ↦
          let same : plan.source ≡ f = ok.unique plan.source f plan.source_known m (ground arith) in
          let room =
            subst
              (λ g.
                plan.amount + funding_fee d.action + reserved p.debited g.id
                ≤ g.balance.spendable - outbound s.reservations g.id)
              same plan_affordable in
          ground (arith, pushed_outflow f.id, w.debited_covers f.id, room)
      | inr n ↦ ground (arith, pushed_outflow f.id, w.outflow_fits f m)
    ]

    pushed-IsWithin : IsWithin s after_push
    pushed-IsWithin = record {
      credited_exact = pushed_credited;
      debited_covers = pushed_debited;
      inflow_fits = pushed_inflow_fits;
      outflow_fits = pushed_outflow_fits;
    }

  admit-IsWithin : IsWithin s (push_and_reserve p d).0
  unfolding push_and_reserve reserve after_push out
  admit-IsWithin = elim (Bool-cases (push_decision p.decisions d).1) [
    | inl t ↦ rw (t, plan.moves, reserve) (pushed-IsWithin t)
    | inr f ↦ rw f (
        same-IsWithin s p _ refl refl
          (λ fed. ground (arith, inflow-push_decision p.decisions d fed))
          (λ fed. ground (arith, outflow-push_decision p.decisions d fed)) w)
  ]

Step-IsWithin :
    {s : AllocatorSnapshot} {o : Occurrence} {b : GoalBlockers} {p q : Pass}
    → IsSnapshot s
    → Step s o b p q
    → IsWithin s p
    → IsWithin s q
Step-IsWithin {s} {o} {b} {p} ok (refuse d e) w = record-IsWithin s p d e w
Step-IsWithin {s} {o} {b} {p} ok (suppress d t) w =
    same-IsWithin s p _ refl refl (λ fed. refl) (λ fed. refl) w
Step-IsWithin {s} {o} {b} {p} ok (defer x h) w =
    same-IsWithin s p _ refl refl (λ fed. refl) (λ fed. refl) w
Step-IsWithin {s} {o} {b} {p} ok (admit d f plan) w = admit-IsWithin s ok p w d plan

Steps-IsWithin :
    {s : AllocatorSnapshot} {o : Occurrence} {b : GoalBlockers} {p q : Pass}
    → IsSnapshot s
    → IsWithin s p
    → Steps s o b p q
    → IsWithin s q
Steps-IsWithin ok w done = w
Steps-IsWithin ok w (then_step xs x) = Step-IsWithin ok x (Steps-IsWithin ok w xs)

decide-IsWithin :
    (s : AllocatorSnapshot) (o : Occurrence) (b : GoalBlockers)
    → IsSnapshot s
    → IsWithin s (decide_with_diagnostics s o b)
decide-IsWithin s o b ok = Steps-IsWithin ok (empty-IsWithin s) (decide-Steps s o b)

-- In a snapshot with one status for each federation, 64-bit amounts and a rate of at most 10000
-- basis points, the decisions of one pass together bring into a federation no more than the room
-- that its balance and its reserved inbound leave under the per-federation cap.
pub decide-never_overfills :
    (s : AllocatorSnapshot) (o : Occurrence) (b : GoalBlockers) (f : FederationStatus)
    → IsSnapshot s
    → In f s.federations
    → inflow (decide_with_diagnostics s o b).decisions f.id
      ≤ s.per_fed_cap - f.balance.spendable - inbound s.reservations f.id
decide-never_overfills s o b f ok m = (decide-IsWithin s o b ok).inflow_fits f m

-- In a snapshot with one status for each federation, 64-bit amounts and a rate of at most 10000
-- basis points, the decisions of one pass together take out of a federation, the fee caps of the
-- funding moves included, no more than its balance less its reserved outbound.
pub decide-never_overdraws :
    (s : AllocatorSnapshot) (o : Occurrence) (b : GoalBlockers) (f : FederationStatus)
    → IsSnapshot s
    → In f s.federations
    → outflow (decide_with_diagnostics s o b).decisions f.id
      ≤ f.balance.spendable - outbound s.reservations f.id
decide-never_overdraws s o b f ok m = (decide-IsWithin s o b ok).outflow_fits f m
