-- ===== src/Scorer.antt =====
-- The federation scorer (wallet-core/src/scorer.rs): the structural floor, the probe gate and the
-- rank with the untrusted Observer's share.

pub mod Gate
use fedimint_wallets.Prelude.{
  ℕ, ◌+◌, ◌-◌, ◌*◌, ◌/◌, Bool, true, false, Option, some, none, List, [], ◌∷◌, ◌++◌, ltb, leb, ◌==◌,
  if◌then◌else◌, not, ◌&&◌, ◌||◌, min,
}
use fedimint_wallets.Types.Federation.{FederationId}
use fedimint_wallets.Probe.{ActiveProbeVerdict}

pub data Module : Type 0 where
  mint : Module
  ln : Module
  lnv2 : Module
  wallet : Module
  meta : Module
  other : Module

-- The derived equality of `Module`.
unfoldable pub same_module : Module → Module → Bool
same_module mint mint = true
same_module ln ln = true
same_module lnv2 lnv2 = true
same_module wallet wallet = true
same_module meta meta = true
same_module other other = true
same_module _ _ = false

pub record ObserverPrior : Type 0 where
  pub uptime_permille : ℕ
  pub backing_sats : ℕ
  pub activity_7d : ℕ

pub record FederationFacts : Type 0 where
  pub id : FederationId
  pub guardian_count : ℕ
  pub threshold : ℕ
  pub is_mainnet : Bool
  pub modules : List Module
  pub quorum_live : Bool
  pub round_trip_ok : Bool
  pub peg_out_quotable : Bool
  pub latency_ms : ℕ
  pub shutdown_scheduled : Bool
  pub has_lnv2 : Bool
  pub observer : Option ObserverPrior
  pub active_probe : Option ActiveProbeVerdict

pub record ScorerPolicy : Type 0 where
  pub min_guardians : ℕ
  pub min_threshold : ℕ
  pub require_mainnet : Bool
  pub required_modules : List Module

-- `ScorerPolicy::default`
abbrev pub default_policy : ScorerPolicy
default_policy = record {
  min_guardians = 4;
  min_threshold = 3;
  require_mainnet = true;
  required_modules = mint ∷ (wallet ∷ []);
}

pub data ReasonCode : Type 0 where
  no_fault_tolerance : ReasonCode
  too_few_guardians : ReasonCode
  wrong_network : ReasonCode
  missing_module : ReasonCode
  probe_failed : ReasonCode
  shutdown_was_scheduled : ReasonCode
  low_observer_uptime : ReasonCode
  no_lnv2 : ReasonCode
  invalid_threshold : ReasonCode

pub record FederationVerdict : Type 0 where
  pub eligible_to_fund : Bool
  pub rank_score : ℕ
  pub reasons : List ReasonCode

abbrev pub u32_max : ℕ
u32_max = 4294967295

unfoldable pub sat_add32 : ℕ → ℕ → ℕ
sat_add32 a b = min (a + b) u32_max

unfoldable pub sat_mul32 : ℕ → ℕ → ℕ
sat_mul32 a b = min (a * b) u32_max

unfoldable pub bft_threshold : ℕ → ℕ
bft_threshold n = n - (n - 1) / 3

unfoldable pub has_module : Module → List Module → Bool
has_module m [] = false
has_module m (x ∷ xs) = same_module x m || has_module m xs

unfoldable pub misses_module : List Module → List Module → Bool
misses_module [] have = false
misses_module (m ∷ ms) have = not (has_module m have) || misses_module ms have

unfoldable pub bad_threshold : FederationFacts → Bool
bad_threshold facts =
    (facts.threshold == 0)
    || (ltb facts.guardian_count facts.threshold
        || ltb facts.threshold (bft_threshold facts.guardian_count))

unfoldable pub too_few : FederationFacts → ScorerPolicy → Bool
too_few facts policy =
    ltb facts.guardian_count policy.min_guardians || ltb facts.threshold policy.min_threshold

-- `reasons.push(r); floor_ok = false;` under a test.
unfoldable pub reject : Bool → ReasonCode → Bool × List ReasonCode → Bool × List ReasonCode
reject b r (floor_ok, reasons) = if b then (false, reasons ++ (r ∷ [])) else (floor_ok, reasons)

unfoldable pub guardian_floor :
    FederationFacts → ScorerPolicy → Bool × List ReasonCode → Bool × List ReasonCode
guardian_floor facts policy start =
    if ltb facts.guardian_count 2
    then reject true no_fault_tolerance start
    else reject (too_few facts policy) too_few_guardians start

unfoldable pub structural_floor : FederationFacts → ScorerPolicy → Bool × List ReasonCode
structural_floor facts policy =
    let guardians = guardian_floor facts policy (true, []) in
    let threshold = reject (bad_threshold facts) invalid_threshold guardians in
    let network = reject (policy.require_mainnet && not facts.is_mainnet) wrong_network threshold in
    let modules =
      reject (misses_module policy.required_modules facts.modules) missing_module network in
    let lifecycle = reject facts.shutdown_scheduled shutdown_was_scheduled modules in
    reject (not facts.has_lnv2) no_lnv2 lifecycle

unfoldable pub backing_bonus : ℕ → ℕ
backing_bonus s =
    if leb 1000000000 s
    then 30
    else (if leb 100000000 s then 20 else (if leb 10000000 s then 10 else 0))

unfoldable pub activity_bonus : ℕ → ℕ
activity_bonus a =
    if leb 1000 a then 20 else (if leb 100 a then 10 else (if leb 10 a then 5 else 0))

unfoldable pub observer_bonus : ObserverPrior → ℕ
observer_bonus o =
    min
      (sat_add32 (sat_add32 (min o.uptime_permille 1000 / 20) (backing_bonus o.backing_sats))
        (activity_bonus o.activity_7d))
      99

-- The score before the Observer has a say.
unfoldable pub own_rank : FederationFacts → ℕ
own_rank facts =
    let strength = sat_mul32 (min facts.threshold facts.guardian_count) 100 in
    (if facts.peg_out_quotable then sat_add32 strength 50 else strength) - facts.latency_ms / 10

-- `rank`, with the reason it pushes.
unfoldable pub rank : FederationFacts → ℕ × List ReasonCode
rank facts = elim facts.observer [
  | none ↦ (own_rank facts, [])
  | some o ↦
      let score = sat_add32 (own_rank facts) (observer_bonus o) in
      if ltb o.uptime_permille 900 then (score - 100, low_observer_uptime ∷ []) else (score, [])
]

unfoldable pub score_structural : FederationFacts → ScorerPolicy → FederationVerdict
score_structural facts policy =
    let (floor_ok, reasons) = structural_floor facts policy in
    record { eligible_to_fund = floor_ok; rank_score = 0; reasons = reasons }

unfoldable pub score : FederationFacts → ScorerPolicy → FederationVerdict
score facts policy =
    let (floor_ok, reasons) = structural_floor facts policy in
    let gate_ok = facts.quorum_live && facts.round_trip_ok in
    let gated = reasons ++ (if gate_ok then [] else (probe_failed ∷ [])) in
    let (points, more) = rank facts in
    if floor_ok && gate_ok
    then record { eligible_to_fund = true; rank_score = points; reasons = gated ++ more }
    else record { eligible_to_fund = false; rank_score = 0; reasons = gated }
