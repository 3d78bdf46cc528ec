-- ===== src/Allocator/Decide/Trace.antt =====
-- Every pass of the allocator is a sequence of the steps of `Steps`.
use fedimint_wallets.Prelude.{
  ℕ, ◌≡◌, refl, ◌⊎◌, inl, inr, false, Option, some, List, [], ◌∷◌, arith, In, ltb, ◌==◌, min,
  Bool-cases, Option-cases,
}
use fedimint_wallets.Types.Federation.{FederationStatus, AllocatorSnapshot, Occurrence, cap_at}
use fedimint_wallets.Types.Action.{is_executable, ReasonCode, AllocatorDecision, agent}
use fedimint_wallets.Conflict.{GoalBlockers, blocks_decision}
use fedimint_wallets.Allocator.Eligibility.{evacuation_reason, cap_room_with, safest_other}
use fedimint_wallets.Allocator.Eligibility.Choice.{IsDestination, safest_other-IsDestination}
use fedimint_wallets.Allocator.Evacuation.{
  source_available, evac_fee_cap, evacuate_decision, evacuate_into, evacuation_suppression_refusal,
}
use fedimint_wallets.Allocator.Admission.{
  Pass, Admission, reservation_of, push_and_reserve, record_decision, reserve,
  push_if_eligible_and_reserve, refuse_decision, suppression_refusal_or_ordinary,
  conflict_suppressed,
}
use fedimint_wallets.Allocator.Decide.{
  after_admission, try_evacuate, visit, visit_all, refuse_over_cap,
}
use fedimint_wallets.Allocator.Decide.Steps.{
  Steps, Planned, refuse, suppress, admit, done, then_step, drains,
}

pub Steps-trans :
    {s : AllocatorSnapshot} {o : Occurrence} {b : GoalBlockers} {p q r : Pass}
    → Steps s o b p q
    → Steps s o b q r
    → Steps s o b p r
Steps-trans xs done = xs
Steps-trans xs (then_step ys y) = then_step (Steps-trans xs ys) y

-- A decision that moves no money reserves nothing, and one without a goal is never blocked.
advisory-push :
    (p : Pass) (d : AllocatorDecision)
    → is_executable d.action ≡ false
    → (push_and_reserve p d).0 ≡ record_decision p d
unfolding push_and_reserve record_decision reserve reservation_of is_executable
advisory-push p d e = ground arith

module _ (s : AllocatorSnapshot) (o : Occurrence) (b : GoalBlockers) (p : Pass) where
  -- An admitted decision is a step, whichever way admission goes.
  pub admission-Steps :
      (d : AllocatorDecision)
      → (is_executable d.action ≡ false) ⊎ Planned s p d
      → Steps s o b p (push_if_eligible_and_reserve b o p d).0
  unfolding push_if_eligible_and_reserve
  admission-Steps d h = elim (Bool-cases (blocks_decision b d (agent o))) [
    | inl t ↦ rw t (then_step done (suppress d t))
    | inr f ↦ rw f (elim h [
      | inl n ↦ rw (advisory-push p d n) (then_step done (refuse d n))
      | inr plan ↦ then_step done (admit d f plan)
    ])
  ]

  evacuate_into-Planned :
      (fed dest : FederationStatus) (reason : ReasonCode)
      → In fed s.federations
      → evacuation_reason fed ≡ some reason
      → In dest s.federations
      → IsDestination s fed p.credited dest
      → let d = evacuate_into s o p.credited p.debited fed reason dest in
        (is_executable d.action ≡ false) ⊎ Planned s p d
  unfolding evacuate_into refuse_decision is_executable reservation_of
  evacuate_into-Planned fed dest reason m e n dst =
      let room : ℕ = cap_room_with s dest p.credited in
      let amount : ℕ = min (source_available s fed p.debited) room in
      elim (Bool-cases (amount == 0)) [
        | inl t ↦ rw t (inl refl)
        | inr f ↦ rw f (
            inr (record {
              source = fed;
              dest = dest;
              amount = amount;
              cap = cap_at (evac_fee_cap s) amount;
              source_known = m;
              dest_known = n;
              moves = refl;
              distinct = dst.0;
              positive = ground arith;
              room = omega arith;
              affordable = omega arith;
              receivable = dst.2;
              stays = dst.1;
              kind = drains e refl refl;
            }))
      ]

  evacuation-Planned :
      (fed : FederationStatus) (reason : ReasonCode)
      → In fed s.federations
      → evacuation_reason fed ≡ some reason
      → let d = evacuate_decision s o p.credited p.debited fed reason in
        (is_executable d.action ≡ false) ⊎ Planned s p d
  unfolding evacuate_decision refuse_decision is_executable
  evacuation-Planned fed reason m e = elim (Option-cases (safest_other s fed p.credited)) [
    | inl n ↦ rw (n, evacuate_decision) (inl refl)
    | inr (dest, c) ↦
        let (k, dst) = safest_other-IsDestination s fed p.credited dest c in
        rw (c, evacuate_decision) (evacuate_into-Planned fed dest reason m e k dst)
  ]

  after_admission-Steps :
      (a : Admission) (refusal : Option AllocatorDecision) (q : Pass)
      → ((r : AllocatorDecision) → refusal ≡ some r → is_executable r.action ≡ false)
      → Steps s o b p q
      → Steps s o b p (after_admission a refusal q)
  unfolding after_admission
  after_admission-Steps conflict_suppressed (some r) q h xs = then_step xs (refuse r (h r refl))
  after_admission-Steps _ _ q h xs = xs

  evacuation_suppression_refusal-advisory :
      (d r : AllocatorDecision)
      → evacuation_suppression_refusal s p.credited p.debited d ≡ some r
      → is_executable r.action ≡ false
  unfolding evacuation_suppression_refusal suppression_refusal_or_ordinary is_executable
  evacuation_suppression_refusal-advisory d r e = ground arith

  try_evacuate-Steps :
      (fed : FederationStatus) (reason : ReasonCode)
      → In fed s.federations
      → evacuation_reason fed ≡ some reason
      → Steps s o b p (try_evacuate s o b fed reason p)
  unfolding try_evacuate
  try_evacuate-Steps fed reason m e =
      after_admission-Steps _ _ _ (evacuation_suppression_refusal-advisory _)
        (admission-Steps _ (evacuation-Planned fed reason m e))

refuse_over_cap-Steps :
    (s : AllocatorSnapshot) (o : Occurrence) (b : GoalBlockers) (fed : FederationStatus) (p : Pass)
    → Steps s o b p (refuse_over_cap s o fed p)
unfolding refuse_over_cap refuse_decision is_executable
refuse_over_cap-Steps s o b fed p = elim (Bool-cases (ltb s.per_fed_cap fed.balance.spendable)) [
  | inl t ↦ rw t (then_step done (refuse _ refl))
  | inr f ↦ rw f done
]

visit-Steps :
    (s : AllocatorSnapshot) (o : Occurrence) (b : GoalBlockers) (fed : FederationStatus) (p : Pass)
    → In fed s.federations
    → Steps s o b p (visit s o b fed p)
unfolding visit
visit-Steps s o b fed p m = elim (Option-cases (evacuation_reason fed)) [
  | inl n ↦ rw (n, visit) (refuse_over_cap-Steps s o b fed p)
  | inr (reason, e) ↦
      rw (e, visit)
        (Steps-trans (try_evacuate-Steps s o b p fed reason m e)
          (refuse_over_cap-Steps s o b fed (try_evacuate s o b fed reason p)))
]

pub visit_all-Steps :
    (s : AllocatorSnapshot) (o : Occurrence) (b : GoalBlockers) (feds : List FederationStatus)
    (p : Pass)
    → ((f : FederationStatus) → In f feds → In f s.federations)
    → Steps s o b p (visit_all s o b feds p)
unfolding visit_all
visit_all-Steps s o b [] p h = done
visit_all-Steps s o b (fed ∷ feds) p h =
    Steps-trans (visit-Steps s o b fed p (h fed (inl refl)))
      (visit_all-Steps s o b feds (visit s o b fed p) (λ f m. h f (inr m)))
