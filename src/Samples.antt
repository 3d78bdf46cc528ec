-- ===== src/Samples.antt =====
-- The theorems at concrete inputs: one snapshot with a failing federation, and small holders,
-- intents and fees.
pub mod Durable
pub mod Drive
pub mod Due
pub mod Route
pub mod Sizing
pub mod Refusal
pub mod Perform
use fedimint_wallets.Prelude.{
  ℕ, ◌+◌, ◌-◌, ◌*◌, ◌/◌, ◌≤◌, ◌<◌, ◌≡◌, refl, Bool, true, false, not, ◌&&◌, Option, some, none,
  find, List, [], ◌∷◌, inl, inr, arith, any, All, max, text_eq, codes, empty_map,
}
use fedimint_wallets.Prelude.Int.{ℤ}
use fedimint_wallets.Types.Federation.{
  FedBalance, FederationStatus, AllocatorSnapshot, inbound, outbound,
}
use fedimint_wallets.Types.Action.{move, evacuate, AllocatorDecision, agent, ReasonCode}
use fedimint_wallets.Intent.{Intent, from_decision}
use fedimint_wallets.Watch.{
  AdaptiveSleepDeadlines, default_watch, adaptive_sleep_ms, watch_busy_spin_floor_ms,
}
use fedimint_wallets.Watch.Sleep.{sleep_within_deadlines}
use fedimint_wallets.Conflict.{
  conflicts_with, GoalBlockers, no_blockers, fund_into, drain, goal_eq, blocks_decision,
  blocks_funding_pair, from_intents, goal_of_decision, has_blocking_holder_from,
}
use fedimint_wallets.Conflict.Suppression.{blocks-evacuation, blocks_funding_pair_covers}
use fedimint_wallets.Conflict.Projection.{intent_withholds, blocks-from_intents}
use fedimint_wallets.Allocator.Keys.Distinct.{money_key-injective}
use fedimint_wallets.Allocator.Sizing.{max_fundable, move_fee_cap}
use fedimint_wallets.Allocator.Sizing.Bounds.{max_fundable_exact}
use fedimint_wallets.Allocator.Eligibility.{safest_other}
use fedimint_wallets.Allocator.Eligibility.Choice.{IsChoice, safest_other-IsChoice}
use fedimint_wallets.Allocator.Admission.Books.{inflow, outflow}
use fedimint_wallets.Allocator.Decide.{decide_with_diagnostics}
use fedimint_wallets.Allocator.Decide.Within.{IsSnapshot}
use fedimint_wallets.Allocator.Decide.Limits.{decide-never_overfills, decide-never_overdraws}
use fedimint_wallets.Allocator.Decide.Soundness.{IsSoundPass, decide-IsSoundPass}
use fedimint_wallets.Reservation.{project_reservations, project_allocator_reservations}
use fedimint_wallets.Reservation.Views.{IsWeaker}
use fedimint_wallets.Reservation.Weakening.{allocator_view-le-strict}
use fedimint_wallets.Fee.{GatewayFee, GrossUp, gross_up}
use fedimint_wallets.Fee.Inversion.{IsFedFee}
use fedimint_wallets.Fee.Exact.{IsSolution, gross_up_solves}
use fedimint_wallets.Scorer.{
  FederationFacts, ObserverPrior, default_policy, score, mint, wallet, structural_floor, reject,
  misses_module, has_module, same_module, bad_threshold, bft_threshold, guardian_floor, too_few,
}
use fedimint_wallets.Scorer.Gate.{IsFundable, eligible-IsFundable, with_observer, observer_hint}

abbrev balance_of : ℕ → FedBalance
balance_of amount = record { spendable = amount; in_flight = 0; claimable = 0; reserved_fee = 0 }

abbrev status_of : ℕ → ℕ → Bool → FederationStatus
status_of id amount healthy = record {
  id = id;
  balance = balance_of amount;
  probed_ok = true;
  reputation = ℤ.pos 0;
  shutdown_notice = false;
  healthy = healthy;
  eligible_to_fund = true;
}

abbrev spending : FederationStatus
spending = status_of 1 50000 true

abbrev standby : FederationStatus
standby = status_of 2 900000 true

abbrev failing : FederationStatus
failing = status_of 3 70000 false

abbrev snapshot : AllocatorSnapshot
snapshot = record {
  federations = spending ∷ (standby ∷ (failing ∷ []));
  spending_fed = some 1;
  standby_fed = some 2;
  per_fed_cap = 1000000;
  target_spending_balance = 200000;
  standby_target = 300000;
  max_fee = 10000;
  max_fee_bps_of_move = 100;
  evac_fee_base_msat = 5000;
  evac_fee_bps = 100;
  min_move = 1000;
  route_economics_by_pair = λ s d. none;
  reservations = record {
    per_fed_outbound = empty_map;
    per_fed_inbound = empty_map;
    per_fed_target_credit = empty_map;
  };
  now = 0;
}

snapshot-IsSnapshot : IsSnapshot snapshot
snapshot-IsSnapshot = record {
  unique = λ f g m n e. ground arith;
  cap_fits = omega arith;
  balances_fit = λ f m. ground arith;
  rate = omega arith;
}

decide-never_overfills_example :
    inflow (decide_with_diagnostics snapshot 7 no_blockers).decisions 2
    ≤ 1000000 - 900000 - inbound snapshot.reservations 2
decide-never_overfills_example =
    decide-never_overfills snapshot 7 no_blockers standby snapshot-IsSnapshot (inr (inl refl))

decide-never_overdraws_example :
    outflow (decide_with_diagnostics snapshot 7 no_blockers).decisions 3
    ≤ 70000 - outbound snapshot.reservations 3
decide-never_overdraws_example =
    decide-never_overdraws snapshot 7 no_blockers failing snapshot-IsSnapshot (inr (inr (inl refl)))

decide-IsSoundPass_example :
    IsSoundPass snapshot 7 no_blockers (decide_with_diagnostics snapshot 7 no_blockers)
decide-IsSoundPass_example = decide-IsSoundPass snapshot 7 no_blockers

abbrev gateway : GatewayFee
gateway = record { base_msat = 50000; ppm = 5000 }

flat-IsFedFee : IsFedFee (λ m. 2000)
flat-IsFedFee = record { grows = λ a b h. omega arith; gentle = λ a b h. omega arith }

gross_up_solves_example :
    (r : Option GrossUp) × (gross_up gateway (λ m. 2000) 100000 ≡ some r)
    × IsSolution gateway (λ m. 2000) 100000 r
gross_up_solves_example = gross_up_solves gateway (λ m. 2000) 100000 flat-IsFedFee (omega arith)

max_fundable_exact_example :
    (max_fundable 50000 100 + move_fee_cap (max_fundable 50000 100) 100 ≤ 50000)
    × (50000 < (max_fundable 50000 100 + 1) + (max_fundable 50000 100 + 1) * 100 / 10000)
max_fundable_exact_example = max_fundable_exact 50000 100 (omega arith) (omega arith)

abbrev evacuation : AllocatorDecision
evacuation = record {
  action = evacuate 3 2 60000 5600 none none;
  reason = ReasonCode.unhealthy;
  occurrence = 7;
  idempotency_key = codes "evac:a";
}

abbrev funding : AllocatorDecision
funding = record {
  action = move 2 1 40000 400 none;
  reason = ReasonCode.spending_below_target;
  occurrence = 7;
  idempotency_key = codes "move:b";
}

abbrev held : GoalBlockers
held = record {
  holders = (drain 3, codes "evac:z") ∷ ((fund_into 1, codes "move:z") ∷ []);
  holder_sources = (fund_into 1, codes "move:z", 2) ∷ [];
}

abbrev intents : List Intent
intents = from_decision evacuation (agent 6) 0 ∷ (from_decision funding (agent 6) 1 ∷ [])

allocator_view-le-strict_example :
    IsWeaker (project_allocator_reservations intents (λ k. none)) (project_reservations intents)
allocator_view-le-strict_example = allocator_view-le-strict intents (λ k. none)

safest_other-IsChoice_example :
    IsChoice snapshot failing empty_map (safest_other snapshot failing empty_map)
safest_other-IsChoice_example = safest_other-IsChoice snapshot failing empty_map

blocks-from_intents_example :
    blocks_decision (from_intents intents) evacuation (agent 7)
    ≡ any (intent_withholds evacuation (agent 7)) intents
blocks-from_intents_example = blocks-from_intents intents evacuation (agent 7)

blocks-evacuation_example :
    blocks_decision held evacuation (agent 7)
    ≡ any (λ h. not (text_eq h.1 (codes "evac:a")) && goal_eq h.0 (drain 3)) held.holders
blocks-evacuation_example = blocks-evacuation held 3 7 evacuation (2, 60000, 5600, none, none, refl)

funding_is_blocked : blocks_decision held funding (agent 7) ≡ true
unfolding blocks_decision goal_of_decision find text_eq conflicts_with
funding_is_blocked = refl

blocks_funding_pair_covers_example : blocks_funding_pair held 2 1 ≡ true
blocks_funding_pair_covers_example =
    blocks_funding_pair_covers held 2 1 7 funding (40000, 400, none, refl, refl) funding_is_blocked

funding_has_source : has_blocking_holder_from held funding (agent 7) 2 ≡ true
unfolding has_blocking_holder_from goal_of_decision any text_eq conflicts_with
funding_has_source = refl

money_key-injective_example :
    (false ≡ false)
    × (failing.id ≡ failing.id)
    × (standby.id ≡ standby.id)
    × (snapshot.now ≡ snapshot.now)
money_key-injective_example =
    money_key-injective false false 3 2 0 3 2 0 (omega arith) (omega arith) (omega arith)
      (omega arith) (omega arith) (omega arith) refl

abbrev good : FederationFacts
good = record {
  id = 2;
  guardian_count = 4;
  threshold = 3;
  is_mainnet = true;
  modules = mint ∷ (wallet ∷ []);
  quorum_live = true;
  round_trip_ok = true;
  peg_out_quotable = true;
  latency_ms = 200;
  shutdown_scheduled = false;
  has_lnv2 = true;
  observer = none;
  active_probe = none;
}

good_is_eligible : (score good default_policy).eligible_to_fund ≡ true
unfolding score structural_floor reject misses_module has_module same_module bad_threshold
    bft_threshold guardian_floor too_few
good_is_eligible = refl

eligible-IsFundable_example : IsFundable good default_policy
eligible-IsFundable_example = eligible-IsFundable good default_policy good_is_eligible

good-IsFundable : IsFundable good default_policy
unfolding has_module misses_module same_module
good-IsFundable = record {
  enough = (omega arith, omega arith);
  strong = (omega arith, omega arith);
  honest = omega arith;
  tolerant = omega arith;
  network = inr refl;
  modules = refl;
  running = refl;
  lightning = refl;
  probed = (refl, refl);
}

abbrev prior : ObserverPrior
prior = record { uptime_permille = 800; backing_sats = 2000000000; activity_7d = 50 }

observer_hint_example :
    ((score (with_observer (some prior) good) default_policy).eligible_to_fund
      ≡ (score (with_observer none good) default_policy).eligible_to_fund)
    × ((score (with_observer (some prior) good) default_policy).rank_score
        < (score (with_observer none good) default_policy).rank_score + 100)
    × ((score (with_observer none good) default_policy).rank_score
        ≤ (score (with_observer (some prior) good) default_policy).rank_score + 100)
observer_hint_example = observer_hint good default_policy prior

abbrev deadlines : AdaptiveSleepDeadlines
deadlines = record {
  last_discover_ms = 0;
  discover_backlog = false;
  expiries_ms = 5000000 ∷ (4010000 ∷ []);
  probe_due_ms = 4000200 ∷ [];
}

sleep_within_deadlines_example :
    (adaptive_sleep_ms 4000000 default_watch deadlines ≤ 600000)
    × All
        (λ expiry. adaptive_sleep_ms 4000000 default_watch deadlines ≤ expiry - 4000000)
        (5000000 ∷ (4010000 ∷ []))
    × All
        (λ due.
          adaptive_sleep_ms 4000000 default_watch deadlines
          ≤ max (due - 4000000) watch_busy_spin_floor_ms)
        (4000200 ∷ [])
sleep_within_deadlines_example = sleep_within_deadlines 4000000 default_watch deadlines
