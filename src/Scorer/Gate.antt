-- ===== src/Scorer/Gate.antt =====
-- What the scorer's verdict means: the trust gate, and the Observer behind it.
use fedimint_wallets.Prelude.{
  ◌+◌, ◌-◌, ◌*◌, ◌≤◌, ◌<◌, ◌≡◌, refl, sym, Bool, true, false, Option, some, none, List, [], ltb,
  ◌⊎◌, if◌then◌else◌, arith, inl, inr, Bool-cases, not, ◌∙◌, ◌&&◌,
}
use fedimint_wallets.Scorer.{
  FederationFacts, ObserverPrior, ScorerPolicy, ReasonCode, bft_threshold, misses_module,
  bad_threshold, too_few, reject, guardian_floor, structural_floor, observer_bonus, own_rank, rank,
  score, sat_add32, sat_mul32, u32_max,
}

-- The authenticated facts and the wallet's own probes pass every test of the policy.
pub record IsFundable (facts : FederationFacts) (policy : ScorerPolicy) : Type 0 where
  pub enough : (2 ≤ facts.guardian_count) × (policy.min_guardians ≤ facts.guardian_count)
  pub strong : (policy.min_threshold ≤ facts.threshold) × (1 ≤ facts.threshold)
  pub honest : facts.threshold ≤ facts.guardian_count
  pub tolerant : 3 * (facts.guardian_count - facts.threshold) < facts.guardian_count
  pub network : (policy.require_mainnet ≡ false) ⊎ (facts.is_mainnet ≡ true)
  pub modules : misses_module policy.required_modules facts.modules ≡ false
  pub running : facts.shutdown_scheduled ≡ false
  pub lightning : facts.has_lnv2 ≡ true
  pub probed : (facts.quorum_live ≡ true) × (facts.round_trip_ok ≡ true)

eligible_lem :
    (facts : FederationFacts) (policy : ScorerPolicy)
    → (score facts policy).eligible_to_fund
      ≡ ((structural_floor facts policy).0 && (facts.quorum_live && facts.round_trip_ok))
unfolding score
eligible_lem facts policy =
    elim (Bool-cases
      ((structural_floor facts policy).0 && (facts.quorum_live && facts.round_trip_ok))) [
        | inl t ↦ rw t refl
        | inr f ↦ rw f refl
      ]

reject_lem :
    (b : Bool) (r : ReasonCode) (s : Bool × List ReasonCode) → (reject b r s).0 ≡ (not b && s.0)
unfolding reject
reject_lem false r s = refl
reject_lem true r s = refl

guardian_floor_lem :
    (facts : FederationFacts) (policy : ScorerPolicy)
    → (guardian_floor facts policy (true, [])).0
      ≡ (not (ltb facts.guardian_count 2) && not (too_few facts policy))
unfolding guardian_floor
guardian_floor_lem facts policy = elim (Bool-cases (ltb facts.guardian_count 2)) [
  | inl t ↦ rw (t, reject_lem) refl
  | inr f ↦ rw (f, reject_lem) (ground arith)
]

floor_lem :
    (facts : FederationFacts) (policy : ScorerPolicy)
    → (structural_floor facts policy).0 ≡ (
        not (not facts.has_lnv2)
        && (not facts.shutdown_scheduled
            && (not (misses_module policy.required_modules facts.modules)
                && (not (policy.require_mainnet && not facts.is_mainnet)
                    && (not (bad_threshold facts)
                        && (not (ltb facts.guardian_count 2) && not (too_few facts policy)))))))
unfolding structural_floor
floor_lem facts policy =
    rw (reject_lem, reject_lem, reject_lem, reject_lem, reject_lem, guardian_floor_lem) refl

-- A federation that the scorer finds eligible to fund passes every test: enough guardians, a
-- threshold of at most all of them that leaves fewer than a third to fail, the network, the modules,
-- Lightning v2, no shutdown, and both of the wallet's own probes.
pub eligible-IsFundable :
    (facts : FederationFacts) (policy : ScorerPolicy)
    → (score facts policy).eligible_to_fund ≡ true
    → IsFundable facts policy
unfolding bad_threshold too_few bft_threshold
eligible-IsFundable facts policy t =
    let gated : ((structural_floor facts policy).0 && (facts.quorum_live && facts.round_trip_ok))
        ≡ true =
      sym (eligible_lem facts policy) ∙ t in
    let floor = floor_lem facts policy in
    record {
      enough = (ground arith, ground arith);
      strong = (ground arith, ground arith);
      honest = ground arith;
      tolerant = ground arith;
      network = elim (Bool-cases policy.require_mainnet) [
        | inr f ↦ inl f
        | inl t ↦ inr (ground arith)
      ];
      modules = ground arith;
      running = ground arith;
      lightning = ground arith;
      probed = (ground arith, ground arith);
    }

-- The facts of a federation with another Observer prior.
abbrev pub with_observer : Option ObserverPrior → FederationFacts → FederationFacts
with_observer o facts = record {
  id = facts.id;
  guardian_count = facts.guardian_count;
  threshold = facts.threshold;
  is_mainnet = facts.is_mainnet;
  modules = facts.modules;
  quorum_live = facts.quorum_live;
  round_trip_ok = facts.round_trip_ok;
  peg_out_quotable = facts.peg_out_quotable;
  latency_ms = facts.latency_ms;
  shutdown_scheduled = facts.shutdown_scheduled;
  has_lnv2 = facts.has_lnv2;
  observer = o;
  active_probe = facts.active_probe;
}

rank_lem :
    (facts : FederationFacts) (policy : ScorerPolicy)
    → (score facts policy).rank_score
      ≡ (if (score facts policy).eligible_to_fund then (rank facts).0 else 0)
unfolding score
rank_lem facts policy =
    elim (Bool-cases
      ((structural_floor facts policy).0 && (facts.quorum_live && facts.round_trip_ok))) [
        | inl t ↦ rw t refl
        | inr f ↦ rw f refl
      ]

observer_bonus-le : (o : ObserverPrior) → observer_bonus o ≤ 99
unfolding observer_bonus
observer_bonus-le o = omega arith

own_rank-le : (facts : FederationFacts) → own_rank facts ≤ u32_max
unfolding own_rank sat_add32 sat_mul32
own_rank-le facts = elim (Bool-cases facts.peg_out_quotable) [
  | inl t ↦ rw t (omega arith)
  | inr f ↦ rw f (omega arith)
]

-- The Observer's share of the rank, in both directions.
rank_hint :
    (facts : FederationFacts) (o : ObserverPrior)
    → ((rank (with_observer (some o) facts)).0 < (rank (with_observer none facts)).0 + 100)
      × ((rank (with_observer none facts)).0 ≤ (rank (with_observer (some o) facts)).0 + 100)
unfolding rank own_rank sat_add32
rank_hint facts o =
    let top = own_rank-le facts in
    let bonus = observer_bonus-le o in
    elim (Bool-cases (ltb o.uptime_permille 900)) [
      | inl t ↦ rw t (omega arith, omega arith)
      | inr f ↦ rw f (omega arith, omega arith)
    ]

-- An Observer prior never changes whether a federation is eligible, raises its rank by less than
-- one step of the threshold (100), and lowers it by at most 100.
pub observer_hint :
    (facts : FederationFacts) (policy : ScorerPolicy) (o : ObserverPrior)
    → ((score (with_observer (some o) facts) policy).eligible_to_fund
        ≡ (score (with_observer none facts) policy).eligible_to_fund)
      × ((score (with_observer (some o) facts) policy).rank_score
          < (score (with_observer none facts) policy).rank_score + 100)
      × ((score (with_observer none facts) policy).rank_score
          ≤ (score (with_observer (some o) facts) policy).rank_score + 100)
unfolding rank structural_floor guardian_floor too_few bad_threshold own_rank
observer_hint facts policy o =
    let same : (score (with_observer (some o) facts) policy).eligible_to_fund
        ≡ (score (with_observer none facts) policy).eligible_to_fund =
      eligible_lem (with_observer (some o) facts) policy
      ∙ sym (eligible_lem (with_observer none facts) policy) in
    let points : ((score (with_observer (some o) facts) policy).rank_score
          < (score (with_observer none facts) policy).rank_score + 100)
        × ((score (with_observer none facts) policy).rank_score
            ≤ (score (with_observer (some o) facts) policy).rank_score + 100) =
      rw
        (
          rank_lem (with_observer (some o) facts) policy,
          rank_lem (with_observer none facts) policy,
          same,
        )
        (elim (Bool-cases (score (with_observer none facts) policy).eligible_to_fund) [
          | inl t ↦ rw t (rank_hint facts o)
          | inr f ↦ rw f (omega arith, omega arith)
        ]) in
    (same, points.0, points.1)
