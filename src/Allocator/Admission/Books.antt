-- ===== src/Allocator/Admission/Books.antt =====
-- The sums that a pass keeps: what the admitted decisions bring into a federation and take out of
-- it, and how admission changes them (`push_decision`, `push_and_reserve`).
use fedimint_wallets.Prelude.{
  ℕ, ◌+◌, ◌≡◌, refl, true, Option, some, none, List, [], ◌∷◌, ◌++◌, arith, ◌==◌, if◌then◌else◌, min,
  u64_max,
}
use fedimint_wallets.Types.Federation.{FederationId}
use fedimint_wallets.Types.Action.{Action, move, AllocatorDecision}
use fedimint_wallets.Allocator.Sizing.{reserved}
use fedimint_wallets.Allocator.Admission.{replaces, refill, push_decision, reservation_of, add_to}

-- What one action brings into a federation, and takes out of it: a funding move counts its fee
-- cap, and an evacuation, which is sized for its fee when it is performed, does not.
unfoldable pub credit_of : Action → FederationId → ℕ
unfolding reservation_of
credit_of a fed = elim (reservation_of a) [
  | none ↦ 0
  | some (s, d, amount, cap) ↦ if d == fed then amount else 0
]

abbrev pub funding_fee : Action → ℕ
funding_fee (move s d a c g) = c
funding_fee _ = 0

unfoldable pub debit_of : Action → FederationId → ℕ
unfolding reservation_of
debit_of a fed = elim (reservation_of a) [
  | none ↦ 0
  | some (s, d, amount, cap) ↦ if s == fed then amount + funding_fee a else 0
]

unfoldable pub inflow : List AllocatorDecision → FederationId → ℕ
inflow [] fed = 0
inflow (d ∷ ds) fed = credit_of d.action fed + inflow ds fed

unfoldable pub outflow : List AllocatorDecision → FederationId → ℕ
outflow [] fed = 0
outflow (d ∷ ds) fed = debit_of d.action fed + outflow ds fed

-- A replaced decision and the one in its place move no money.
replaces-advisory :
    (d e : AllocatorDecision)
    → replaces d e ≡ true
    → (reservation_of d.action ≡ none) × (reservation_of e.action ≡ none)
unfolding replaces reservation_of
replaces-advisory d e h = ground arith

inflow-refill :
    (d : AllocatorDecision) (out : List AllocatorDecision) (fed : FederationId)
    → inflow (refill d out) fed ≡ inflow out fed
unfolding inflow refill credit_of
inflow-refill d [] fed = refl
inflow-refill d (e ∷ es) fed = ground (arith, inflow-refill d es fed, replaces-advisory d e)

outflow-refill :
    (d : AllocatorDecision) (out : List AllocatorDecision) (fed : FederationId)
    → outflow (refill d out) fed ≡ outflow out fed
unfolding outflow refill debit_of
outflow-refill d [] fed = refl
outflow-refill d (e ∷ es) fed = ground (arith, outflow-refill d es fed, replaces-advisory d e)

inflow-append :
    (out : List AllocatorDecision) (d : AllocatorDecision) (fed : FederationId)
    → inflow (out ++ (d ∷ [])) fed ≡ inflow out fed + credit_of d.action fed
unfolding inflow
inflow-append [] d fed = omega arith
inflow-append (e ∷ es) d fed = omega (arith, inflow-append es d fed)

outflow-append :
    (out : List AllocatorDecision) (d : AllocatorDecision) (fed : FederationId)
    → outflow (out ++ (d ∷ [])) fed ≡ outflow out fed + debit_of d.action fed
unfolding outflow
outflow-append [] d fed = omega arith
outflow-append (e ∷ es) d fed = omega (arith, outflow-append es d fed)

-- A pushed decision counts once, and a dropped one not at all.
pub inflow-push_decision :
    (out : List AllocatorDecision) (d : AllocatorDecision) (fed : FederationId)
    → let (out', pushed) = push_decision out d in
      inflow out' fed ≡ inflow out fed + (if pushed then credit_of d.action fed else 0)
unfolding push_decision
inflow-push_decision out d fed = ground (arith, inflow-append out d fed, inflow-refill d out fed)

pub outflow-push_decision :
    (out : List AllocatorDecision) (d : AllocatorDecision) (fed : FederationId)
    → let (out', pushed) = push_decision out d in
      outflow out' fed ≡ outflow out fed + (if pushed then debit_of d.action fed else 0)
unfolding push_decision
outflow-push_decision out d fed = ground (arith, outflow-append out d fed, outflow-refill d out fed)

pub reserved-add_to :
    (m : ℕ → Option ℕ) (fed other amount : ℕ)
    → reserved (add_to m fed amount) other
      ≡ (if other == fed then min (reserved m fed + amount) u64_max else reserved m other)
unfolding reserved add_to
reserved-add_to m fed other amount = ground arith
