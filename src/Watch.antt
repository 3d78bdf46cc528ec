-- ===== src/Watch.antt =====
-- The sleep of the watch loop (wallet-core/src/watch.rs).
pub mod Sleep
pub mod Schedule
pub mod Due
pub mod Rotation
use fedimint_wallets.Prelude.{
  ℕ, ◌-◌, min, max, Bool, Option, some, none, List, [], ◌∷◌, ◌&&◌, ltb, map_or, sat_add64,
  if◌then◌else◌,
}

pub record ProbeBudget : Type 0 where
  pub max_probe_attempts_per_week : ℕ
  pub max_probe_spend_per_week_msat : ℕ

pub record WatchPolicy : Type 0 where
  pub base_interval_ms : ℕ
  pub min_interval_ms : ℕ
  pub evacuation_lead_ms : ℕ
  pub discover_every_ms : ℕ
  pub discover_pass_deadline_ms : ℕ
  pub per_preview_timeout_ms : ℕ
  pub max_candidates_per_pass : ℕ
  pub probe_refresh_lead_ms : ℕ
  pub probe_retry_backoff_ms : ℕ
  pub probe_budget : ProbeBudget

-- `WatchPolicy::default`
abbrev pub default_watch : WatchPolicy
default_watch = record {
  base_interval_ms = 600000;
  min_interval_ms = 30000;
  evacuation_lead_ms = 3600000;
  discover_every_ms = 21600000;
  discover_pass_deadline_ms = 60000;
  per_preview_timeout_ms = 20000;
  max_candidates_per_pass = 256;
  probe_refresh_lead_ms = 43200000;
  probe_retry_backoff_ms = 3600000;
  probe_budget = record { max_probe_attempts_per_week = 50; max_probe_spend_per_week_msat = 50000 };
}

unfoldable pub probe_budget_ok : ℕ → ℕ → ProbeBudget → Bool
probe_budget_ok attempts_last_7d spend_last_7d_msat budget =
    ltb attempts_last_7d budget.max_probe_attempts_per_week
    && ltb spend_last_7d_msat budget.max_probe_spend_per_week_msat

abbrev pub watch_busy_spin_floor_ms : ℕ
watch_busy_spin_floor_ms = 1000

pub record AdaptiveSleepDeadlines : Type 0 where
  pub last_discover_ms : ℕ
  pub discover_backlog : Bool
  pub expiries_ms : List ℕ
  pub probe_due_ms : List ℕ

-- `iter().map(f).min()`
unfoldable pub min_delay : (ℕ → ℕ) → List ℕ → Option ℕ
min_delay f [] = none
min_delay f (x ∷ xs) = some (map_or (f x) (min (f x)) (min_delay f xs))

unfoldable pub discover_delay : ℕ → WatchPolicy → AdaptiveSleepDeadlines → ℕ
discover_delay now_ms policy deadlines =
    if deadlines.discover_backlog
    then policy.min_interval_ms
    else (sat_add64 deadlines.last_discover_ms policy.discover_every_ms - now_ms)

unfoldable pub routine_sleep : ℕ → WatchPolicy → AdaptiveSleepDeadlines → ℕ
routine_sleep now_ms policy deadlines =
    min
      (max (min policy.base_interval_ms (discover_delay now_ms policy deadlines))
        policy.min_interval_ms)
      policy.base_interval_ms

-- The closure over the expiries: the evacuation point if it is still ahead, else the least interval,
-- and never past the expiry.
unfoldable pub expiry_delay : ℕ → WatchPolicy → ℕ → ℕ
expiry_delay now_ms policy expiry =
    if ltb now_ms (expiry - policy.evacuation_lead_ms)
    then (expiry - policy.evacuation_lead_ms - now_ms)
    else (min policy.min_interval_ms (expiry - now_ms))

-- The closure over the probe deadlines.
unfoldable pub probe_delay : ℕ → ℕ → ℕ
probe_delay now_ms deadline = max (deadline - now_ms) watch_busy_spin_floor_ms

-- The `match` on the two least delays.
unfoldable pub concrete_delay : Option ℕ → Option ℕ → Option ℕ
concrete_delay (some e) (some p) = some (min e p)
concrete_delay (some e) none = some e
concrete_delay none only = only

unfoldable pub adaptive_sleep_ms : ℕ → WatchPolicy → AdaptiveSleepDeadlines → ℕ
adaptive_sleep_ms now_ms policy deadlines =
    map_or (routine_sleep now_ms policy deadlines) (min (routine_sleep now_ms policy deadlines)) (
      concrete_delay (min_delay (expiry_delay now_ms policy) deadlines.expiries_ms)
        (min_delay (probe_delay now_ms) deadlines.probe_due_ms))
