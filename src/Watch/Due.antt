-- ===== src/Watch/Due.antt =====
-- When the watch loop probes, against the verdict and the budget.
use fedimint_wallets.Prelude.{
  ℕ, ◌+◌, ◌-◌, ◌≤◌, min, ◌≡◌, ◌∙◌, Option, some, none, List, [], ◌∷◌, sat_add64, u64_max, u32_max,
  map_or, arith,
}
use fedimint_wallets.Types.Federation.{FederationId, Msat}
use fedimint_wallets.Ledger.{OperationRecord}
use fedimint_wallets.Probe.{
  ProbeAttempt, ProbePolicy, ActiveProbeVerdict, passed, never_probed, insufficient, expired,
  failed, failed_since_last_pass, probe_verdict, probe_pass_expiry_anchor_ms,
}
use fedimint_wallets.Probe.Lasting.{passed_until_anchor}
use fedimint_wallets.Watch.{WatchPolicy}
use fedimint_wallets.Watch.Schedule.{
  invocation_backoff_floor, attempt_due, refresh_due, probe_next_due_at, ProbeBudgetUsage,
  agent_cost, count_cost, usage_from, probe_budget_usage,
}

floor_late :
    (deadline last : ℕ) (policy : WatchPolicy)
    → sat_add64 last policy.probe_retry_backoff_ms
      ≤ invocation_backoff_floor deadline (some last) policy
unfolding invocation_backoff_floor
floor_late deadline last policy = omega arith

-- Whatever the verdict, a probe is never due before the retry backoff after the last invocation is
-- over.
pub due_after_backoff :
    (verdict : ActiveProbeVerdict) (anchor : Option ℕ) (last now_ms : ℕ) (policy : WatchPolicy)
    (gate_policy : ProbePolicy)
    → sat_add64 last policy.probe_retry_backoff_ms
      ≤ probe_next_due_at anchor (some last) now_ms policy gate_policy verdict
unfolding probe_next_due_at attempt_due refresh_due
due_after_backoff never_probed anchor last now_ms policy gate_policy = omega arith
due_after_backoff insufficient anchor last now_ms policy gate_policy = floor_late _ last policy
due_after_backoff expired anchor last now_ms policy gate_policy = floor_late _ last policy
due_after_backoff failed anchor last now_ms policy gate_policy = floor_late _ last policy
due_after_backoff failed_since_last_pass anchor last now_ms policy gate_policy =
    floor_late _ last policy
due_after_backoff passed anchor last now_ms policy gate_policy = floor_late _ last policy

refresh_due-bound :
    (t : ℕ) (last_invocation_ms : Option ℕ) (now_ms : ℕ) (policy : WatchPolicy)
    (gate_policy : ProbePolicy)
    → map_or 0 (λ last. last + policy.probe_retry_backoff_ms) last_invocation_ms
      ≤ t + gate_policy.ttl_ms
    → refresh_due (some t) last_invocation_ms now_ms policy gate_policy - t ≤ gate_policy.ttl_ms
unfolding refresh_due invocation_backoff_floor
refresh_due-bound t none now_ms policy gate_policy h = omega arith
refresh_due-bound t (some last) now_ms policy gate_policy h = omega arith

-- A federation that passes is probed again in time: when its next probe, still ahead, is due, its
-- verdict is still passed, unless new attempts arrive before or the backoff after the last
-- invocation reaches past the expiry of the anchor.
pub due_while_passed :
    (source : FederationId) (attempts : List ProbeAttempt) (last_invocation_ms : Option ℕ)
    (now_ms t : ℕ) (policy : WatchPolicy) (gate_policy : ProbePolicy)
    → probe_verdict source gate_policy attempts now_ms ≡ passed
    → probe_pass_expiry_anchor_ms source gate_policy attempts now_ms ≡ some t
    → map_or 0 (λ last. last + policy.probe_retry_backoff_ms) last_invocation_ms
      ≤ t + gate_policy.ttl_ms
    → let due = probe_next_due_at (some t) last_invocation_ms now_ms policy gate_policy passed in
      now_ms ≤ due → probe_verdict source gate_policy attempts due ≡ passed
unfolding probe_next_due_at
due_while_passed source attempts last now_ms t policy gate_policy v anchored in_time ahead =
    let due = probe_next_due_at (some t) last now_ms policy gate_policy passed in
    let (t', at, until) = passed_until_anchor source gate_policy attempts now_ms due ahead v in
    let same : t' ≡ t = cc in
    let bound = refresh_due-bound t last now_ms policy gate_policy in_time in
    until.1 (omega (arith, same, bound))

-- What a week's rows amount to.
abbrev pub attempts_in : List OperationRecord → ℕ
attempts_in [] = 0
attempts_in (row ∷ rows) = map_or 0 (λ cost. 1) (agent_cost row.actor row.kind) + attempts_in rows

abbrev pub spend_in : List OperationRecord → Msat
spend_in [] = 0
spend_in (row ∷ rows) = map_or 0 (λ cost. cost) (agent_cost row.actor row.kind) + spend_in rows

count_cost-total :
    (usage : ProbeBudgetUsage) (cost : Option Msat) (attempts spend : ℕ)
    → let next = count_cost usage cost in
      (min (next.attempts + attempts) u32_max
        ≡ min (usage.attempts + (map_or 0 (λ c. 1) cost + attempts)) u32_max)
      × (min (next.spend_msat + spend) u64_max
          ≡ min (usage.spend_msat + (map_or 0 (λ c. c) cost + spend)) u64_max)
unfolding count_cost
count_cost-total usage none attempts spend = (omega arith, omega arith)
count_cost-total usage (some cost) attempts spend = (omega arith, omega arith)

usage_from-total :
    (usage : ProbeBudgetUsage) (rows : List OperationRecord)
    → (min (usage_from usage rows).attempts u32_max
        ≡ min (usage.attempts + attempts_in rows) u32_max)
      × (min (usage_from usage rows).spend_msat u64_max
          ≡ min (usage.spend_msat + spend_in rows) u64_max)
unfolding usage_from
usage_from-total usage [] = (omega arith, omega arith)
usage_from-total usage (row ∷ rows) =
    let cost = agent_cost row.actor row.kind in
    let (a, s) = usage_from-total (count_cost usage cost) rows in
    let (b, t) = count_cost-total usage cost (attempts_in rows) (spend_in rows) in (a ∙ b, s ∙ t)

count_cost-bound :
    (usage : ProbeBudgetUsage) (cost : Option Msat)
    → (usage.attempts ≤ u32_max) × (usage.spend_msat ≤ u64_max)
    → ((count_cost usage cost).attempts ≤ u32_max) × ((count_cost usage cost).spend_msat ≤ u64_max)
unfolding count_cost
count_cost-bound usage none h = h
count_cost-bound usage (some cost) h = (omega arith, omega arith)

usage_from-bound :
    (usage : ProbeBudgetUsage) (rows : List OperationRecord)
    → (usage.attempts ≤ u32_max) × (usage.spend_msat ≤ u64_max)
    → ((usage_from usage rows).attempts ≤ u32_max) × ((usage_from usage rows).spend_msat ≤ u64_max)
unfolding usage_from
usage_from-bound usage [] h = h
usage_from-bound usage (row ∷ rows) h =
    let cost = agent_cost row.actor row.kind in
    usage_from-bound (count_cost usage cost) rows (count_cost-bound usage cost h)

-- The usage of a week is the number of the agent's probe rows with a cost, and the sum of their
-- costs, each capped at the largest number of its width.
pub budget_usage-total :
    (rows : List OperationRecord)
    → ((probe_budget_usage rows).attempts ≡ min (attempts_in rows) u32_max)
      × ((probe_budget_usage rows).spend_msat ≡ min (spend_in rows) u64_max)
unfolding probe_budget_usage
budget_usage-total rows =
    let empty : ProbeBudgetUsage = record { attempts = 0; spend_msat = 0 } in
    let (a, s) = usage_from-total empty rows in
    let (b, t) = usage_from-bound empty rows (omega arith, omega arith) in
    (omega arith, omega arith)
