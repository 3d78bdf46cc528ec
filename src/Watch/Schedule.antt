-- ===== src/Watch/Schedule.antt =====
-- When a probe is due, and what the probes of a week have used (wallet-core/src/watch.rs).
use fedimint_wallets.Prelude.{
  div_ceil, ℕ, ◌-◌, ◌/◌, min, max, Bool, Option, some, none, List, [], ◌∷◌, map_or, unwrap_or,
  or_else, sat_add64, sat_add32, if◌then◌else◌,
}
use fedimint_wallets.Types.Federation.{Msat}
use fedimint_wallets.Types.Action.{Actor, user, agent}
use fedimint_wallets.Ledger.{OperationRecord, OperationKind}
use fedimint_wallets.Probe.{
  ProbePolicy, ActiveProbeVerdict, passed, never_probed, insufficient, expired, failed,
  failed_since_last_pass,
}
use fedimint_wallets.Watch.{WatchPolicy}

unfoldable pub probe_build_interval_ms : WatchPolicy → ProbePolicy → ℕ
probe_build_interval_ms policy gate_policy =
    max policy.min_interval_ms
      (div_ceil gate_policy.min_span_ms (max (gate_policy.min_successes - 1) 1))

unfoldable pub invocation_backoff_floor : ℕ → Option ℕ → WatchPolicy → ℕ
invocation_backoff_floor deadline_ms last_invocation_ms policy =
    map_or deadline_ms (λ last. max deadline_ms (sat_add64 last policy.probe_retry_backoff_ms))
      last_invocation_ms

module _ (anchor last_invocation_ms : Option ℕ) (now_ms : ℕ) (policy : WatchPolicy)
    (gate_policy : ProbePolicy) where
  unfoldable pub attempt_due : ℕ → ℕ
  unfolding invocation_backoff_floor
  attempt_due wait =
      invocation_backoff_floor (sat_add64 (unwrap_or now_ms anchor) wait) last_invocation_ms policy

  unfoldable pub refresh_due : ℕ
  unfolding invocation_backoff_floor
  refresh_due =
      invocation_backoff_floor
        (sat_add64 (unwrap_or now_ms (or_else anchor last_invocation_ms)) gate_policy.ttl_ms
          - min policy.probe_refresh_lead_ms (gate_policy.ttl_ms / 2))
        last_invocation_ms policy

  unfoldable pub probe_next_due_at : ActiveProbeVerdict → ℕ
  unfolding attempt_due refresh_due probe_build_interval_ms
  probe_next_due_at never_probed =
      map_or now_ms (λ last. sat_add64 last policy.probe_retry_backoff_ms) last_invocation_ms
  probe_next_due_at insufficient = attempt_due (probe_build_interval_ms policy gate_policy)
  probe_next_due_at expired = attempt_due (probe_build_interval_ms policy gate_policy)
  probe_next_due_at failed = attempt_due policy.probe_retry_backoff_ms
  probe_next_due_at failed_since_last_pass = attempt_due policy.probe_retry_backoff_ms
  probe_next_due_at passed = refresh_due

unfoldable pub probe_next_due :
    ActiveProbeVerdict → Option ℕ → Option ℕ → WatchPolicy → ProbePolicy → ℕ
unfolding probe_next_due_at
probe_next_due verdict anchor last_invocation_ms policy gate_policy =
    probe_next_due_at anchor last_invocation_ms 0 policy gate_policy verdict

unfoldable pub probe_wake_due_ms : ℕ → ℕ → Bool → Option ℕ → WatchPolicy → ℕ
probe_wake_due_ms next_due_ms now_ms budget_ok budget_reset_ms policy =
    if budget_ok
    then next_due_ms
    else (max next_due_ms (unwrap_or (sat_add64 now_ms policy.min_interval_ms) budget_reset_ms))

pub record ProbeBudgetUsage : Type 0 where
  pub attempts : ℕ
  pub spend_msat : ℕ

-- The cost of a row that moved money for an agent's probe.
unfoldable pub probe_cost : OperationKind → Option Msat
probe_cost (OperationKind.probe fed source amount cost) = cost
probe_cost _ = none

unfoldable pub agent_cost : Actor → OperationKind → Option Msat
unfolding probe_cost
agent_cost user kind = none
agent_cost (agent _) kind = probe_cost kind

unfoldable pub count_cost : ProbeBudgetUsage → Option Msat → ProbeBudgetUsage
count_cost usage none = usage
count_cost usage (some cost) = record {
  attempts = sat_add32 usage.attempts 1;
  spend_msat = sat_add64 usage.spend_msat cost;
}

-- The loop, from what was counted before.
unfoldable pub usage_from : ProbeBudgetUsage → List OperationRecord → ProbeBudgetUsage
unfolding agent_cost count_cost
usage_from usage [] = usage
usage_from usage (row ∷ rows) = usage_from (count_cost usage (agent_cost row.actor row.kind)) rows

unfoldable pub probe_budget_usage : List OperationRecord → ProbeBudgetUsage
unfolding usage_from
probe_budget_usage rows = usage_from (record { attempts = 0; spend_msat = 0 }) rows
