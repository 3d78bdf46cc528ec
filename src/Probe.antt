-- ===== src/Probe.antt =====
-- The verdict on a federation's probe attempts (wallet-core/src/probe.rs).
pub mod Window
pub mod Anchor
pub mod Lasting
use fedimint_wallets.Prelude.{
  ℕ, ◌+◌, ◌-◌, Bool, true, false, not, ◌&&◌, Option, some, none, List, [], ◌∷◌, ◌++◌, Text, length,
  any, filter, ltb, leb, ◌==◌, if◌then◌else◌,
}
use fedimint_wallets.Types.Federation.{FederationId, Msat}

pub record ProbeAttempt : Type 0 where
  pub at_ms : ℕ
  pub is_ok : Bool
  pub source : FederationId
  pub amount_msat : Msat
  pub leg_fee_cap_msat : Msat
  pub error : Option Text

pub record ProbePolicy : Type 0 where
  pub amount_msat : Msat
  pub leg_fee_cap_msat : Msat
  pub min_successes : ℕ
  pub min_span_ms : ℕ
  pub ttl_ms : ℕ

-- `ProbePolicy::default`
abbrev pub default_probe : ProbePolicy
default_probe = record {
  amount_msat = 20000;
  leg_fee_cap_msat = 10000;
  min_successes = 3;
  min_span_ms = 86400000;
  ttl_ms = 604800000;
}

pub data ActiveProbeVerdict : Type 0 where
  passed never_probed insufficient expired failed failed_since_last_pass : ActiveProbeVerdict

unfoldable pub qualifies : FederationId → ProbePolicy → ProbeAttempt → Bool
qualifies source policy a =
    a.is_ok
    && (a.source == source
        && (leb policy.amount_msat a.amount_msat && leb a.leg_fee_cap_msat policy.leg_fee_cap_msat))

-- `sort_by_key`, which is stable.
unfoldable pub insert_by_time : ProbeAttempt → List ProbeAttempt → List ProbeAttempt
insert_by_time a [] = a ∷ []
insert_by_time a (b ∷ bs) =
    let rest = b ∷ insert_by_time a bs in if leb a.at_ms b.at_ms then a ∷ b ∷ bs else rest

unfoldable pub sort_by_time : List ProbeAttempt → List ProbeAttempt
unfolding insert_by_time
sort_by_time [] = []
sort_by_time (a ∷ attempts) = insert_by_time a (sort_by_time attempts)

unfoldable pub is_outside : ℕ → ProbePolicy → ProbeAttempt → Bool
is_outside now_ms policy a = ltb policy.ttl_ms (now_ms - a.at_ms)

-- The two sides of `partition_point`, for a test that holds of a first part only.
unfoldable pub from_partition : (ProbeAttempt → Bool) → List ProbeAttempt → List ProbeAttempt
from_partition p [] = []
from_partition p (a ∷ rest) = let later = from_partition p rest in if p a then later else a ∷ rest

unfoldable pub to_partition : (ProbeAttempt → Bool) → List ProbeAttempt → List ProbeAttempt
to_partition p [] = []
to_partition p (a ∷ rest) = let later = a ∷ to_partition p rest in if p a then later else []

abbrev pub is_failure : ProbeAttempt → Bool
is_failure a = not a.is_ok

-- After the last failure (`rposition`), or everything; and before the last failure.
unfoldable pub success_suffix : List ProbeAttempt → List ProbeAttempt
success_suffix [] = []
success_suffix (a ∷ rest) =
    let later = success_suffix rest in
    if any is_failure rest then later else (if is_failure a then rest else a ∷ rest)

unfoldable pub before_last_failure : List ProbeAttempt → List ProbeAttempt
before_last_failure [] = []
before_last_failure (a ∷ rest) =
    let earlier = a ∷ before_last_failure rest in if any is_failure rest then earlier else []

abbrev pub last_time : ProbeAttempt → List ProbeAttempt → ℕ
last_time a [] = a.at_ms
last_time a (b ∷ rest) = last_time b rest

unfoldable pub qualifying_slice_passes : ProbePolicy → List ProbeAttempt → Bool
qualifying_slice_passes policy [] = false
qualifying_slice_passes policy (a ∷ rest) =
    leb policy.min_successes (length (a ∷ rest))
    && leb policy.min_span_ms (last_time a rest - a.at_ms)

unfoldable pub run_qualifies : FederationId → ProbePolicy → List ProbeAttempt → Bool
unfolding qualifying_slice_passes
run_qualifies source policy run =
    qualifying_slice_passes policy (filter (qualifies source policy) run)

-- `split(|a| !a.ok)`: the runs between failures, the current one first.
abbrev pub extend_run : ProbeAttempt → List (List ProbeAttempt) → List (List ProbeAttempt)
extend_run a [] = (a ∷ []) ∷ []
extend_run a (run ∷ runs) = (a ∷ run) ∷ runs

unfoldable pub success_runs : List ProbeAttempt → List (List ProbeAttempt)
success_runs [] = [] ∷ []
success_runs (a ∷ rest) =
    let runs = success_runs rest in if is_failure a then [] ∷ runs else extend_run a runs

unfoldable pub prior_qualifying_pass : FederationId → ProbePolicy → List ProbeAttempt → Bool
unfolding run_qualifies success_runs
prior_qualifying_pass source policy attempts =
    any (run_qualifies source policy) (success_runs attempts)

module _ (source : FederationId) (policy : ProbePolicy) where
  -- The last two steps: the newest attempt is a failure, or a suffix of successes.
  unfoldable pub suffix_verdict :
      List ProbeAttempt → List ProbeAttempt → List ProbeAttempt → ActiveProbeVerdict
  unfolding prior_qualifying_pass qualifying_slice_passes before_last_failure
  suffix_verdict stale window [] =
      if prior_qualifying_pass source policy (stale ++ before_last_failure window)
      then failed_since_last_pass
      else failed
  suffix_verdict stale window (a ∷ rest) =
      if qualifying_slice_passes policy (filter (qualifies source policy) (a ∷ rest))
      then passed
      else insufficient

  unfoldable pub window_verdict : List ProbeAttempt → List ProbeAttempt → ActiveProbeVerdict
  unfolding suffix_verdict success_suffix
  window_verdict stale [] = if any (qualifies source policy) stale then expired else never_probed
  window_verdict stale (a ∷ rest) = suffix_verdict stale (a ∷ rest) (success_suffix (a ∷ rest))

  unfoldable pub probe_verdict : List ProbeAttempt → ℕ → ActiveProbeVerdict
  unfolding window_verdict sort_by_time from_partition to_partition
  probe_verdict [] now_ms = never_probed
  probe_verdict (a ∷ attempts) now_ms =
      let sorted = sort_by_time (a ∷ attempts) in
      window_verdict (to_partition (is_outside now_ms policy) sorted)
        (from_partition (is_outside now_ms policy) sorted)

  -- The two loops: from an anchor, the attempts of the same time are passed over, and what is left
  -- decides whether it is the answer. Nothing left never passes, so the loops end with an answer.
  unfoldable pub anchor_from : ℕ → List ProbeAttempt → ℕ
  anchor_from anchor [] = anchor
  anchor_from anchor (a ∷ rest) =
      let same = a.at_ms == anchor in
      let stop = not (qualifying_slice_passes policy (a ∷ rest)) in
      let later = anchor_from (if same then anchor else a.at_ms) rest in
      if same then later else (if stop then anchor else later)

  unfoldable pub first_anchor : List ProbeAttempt → Option ℕ
  unfolding anchor_from
  first_anchor [] = none
  first_anchor (a ∷ rest) = some (anchor_from a.at_ms rest)

  unfoldable pub probe_pass_expiry_anchor_ms : List ProbeAttempt → ℕ → Option ℕ
  unfolding first_anchor
  probe_pass_expiry_anchor_ms attempts now_ms =
      let window = from_partition (is_outside now_ms policy) (sort_by_time attempts) in
      let qualifying = filter (qualifies source policy) (success_suffix window) in
      if not (qualifying_slice_passes policy qualifying) then none else first_anchor qualifying
