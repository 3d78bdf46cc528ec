-- ===== src/Allocator/Decide/Within.antt =====
-- What a pass keeps to: the room of its destinations and the balances of its sources.
use fedimint_wallets.Prelude.{◌-◌, ◌≤◌, ◌≡◌, refl, false, arith, In, u64_max}
use fedimint_wallets.Types.Federation.{
  FederationId, FederationStatus, AllocatorSnapshot, outbound, inbound,
}
use fedimint_wallets.Types.Action.{is_executable, AllocatorDecision}
use fedimint_wallets.Allocator.Sizing.{reserved}
use fedimint_wallets.Allocator.Admission.{Pass, empty_pass, push_decision, record_decision}
use fedimint_wallets.Allocator.Admission.Books.{
  inflow, outflow, credit_of, debit_of, inflow-push_decision, outflow-push_decision,
}

-- One status for each federation, 64-bit amounts, and a rate of at most 10000 basis points.
pub record IsSnapshot (s : AllocatorSnapshot) : Type 0 where
  pub unique :
      (f g : FederationStatus) → In f s.federations → In g s.federations → f.id ≡ g.id → f ≡ g
  pub cap_fits : s.per_fed_cap ≤ u64_max
  pub balances_fit : (f : FederationStatus) → In f s.federations → f.balance.spendable ≤ u64_max
  pub rate : s.max_fee_bps_of_move ≤ 10000

-- The maps of the pass agree with its decisions, and the decisions respect both limits.
pub record IsWithin (s : AllocatorSnapshot) (p : Pass) : Type 0 where
  pub credited_exact : (fed : FederationId) → reserved p.credited fed ≡ inflow p.decisions fed
  pub debited_covers : (fed : FederationId) → outflow p.decisions fed ≤ reserved p.debited fed
  pub inflow_fits :
      (f : FederationStatus)
      → In f s.federations
      → inflow p.decisions f.id ≤ s.per_fed_cap - f.balance.spendable - inbound s.reservations f.id
  pub outflow_fits :
      (f : FederationStatus)
      → In f s.federations
      → outflow p.decisions f.id ≤ f.balance.spendable - outbound s.reservations f.id

pub empty-IsWithin : (s : AllocatorSnapshot) → IsWithin s empty_pass
unfolding empty_pass inflow outflow reserved
empty-IsWithin s = record {
  credited_exact = λ fed. refl;
  debited_covers = λ fed. omega arith;
  inflow_fits = λ f m. omega arith;
  outflow_fits = λ f m. omega arith;
}

-- A pass with the same sums and maps is within the limits too.
pub same-IsWithin :
    (s : AllocatorSnapshot) (p q : Pass)
    → p.credited ≡ q.credited
    → p.debited ≡ q.debited
    → ((fed : FederationId) → inflow q.decisions fed ≡ inflow p.decisions fed)
    → ((fed : FederationId) → outflow q.decisions fed ≡ outflow p.decisions fed)
    → IsWithin s p
    → IsWithin s q
same-IsWithin s p q ec ed ei eo w = record {
  credited_exact = λ fed. rw (ei fed, ← ec) (w.credited_exact fed);
  debited_covers = λ fed. rw (eo fed, ← ed) (w.debited_covers fed);
  inflow_fits = λ f m. rw (ei f.id) (w.inflow_fits f m);
  outflow_fits = λ f m. rw (eo f.id) (w.outflow_fits f m);
}

-- What a decision that moves nothing adds to the sums.
pub record-inflow :
    (p : Pass) (d : AllocatorDecision) (fed : FederationId)
    → is_executable d.action ≡ false
    → inflow (push_decision p.decisions d).0 fed ≡ inflow p.decisions fed
unfolding credit_of is_executable
record-inflow p d fed e = ground (arith, inflow-push_decision p.decisions d fed)

pub record-outflow :
    (p : Pass) (d : AllocatorDecision) (fed : FederationId)
    → is_executable d.action ≡ false
    → outflow (push_decision p.decisions d).0 fed ≡ outflow p.decisions fed
unfolding debit_of is_executable
record-outflow p d fed e = ground (arith, outflow-push_decision p.decisions d fed)

pub record-IsWithin :
    (s : AllocatorSnapshot) (p : Pass) (d : AllocatorDecision)
    → is_executable d.action ≡ false
    → IsWithin s p
    → IsWithin s (record_decision p d)
unfolding record_decision
record-IsWithin s p d e w =
    same-IsWithin s p _ refl refl (λ fed. record-inflow p d fed e) (λ fed. record-outflow p d fed e)
      w
