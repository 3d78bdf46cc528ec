-- ===== src/Discovery.antt =====
-- The auto-join caps of discovery, and the provenance of a discovery row
-- (wallet-core/src/discovery.rs).
use fedimint_wallets.Prelude.{ℕ, Bool, true, false, Text, leb, if◌then◌else◌}

pub data DiscoverySource : Type 0 where
  observer nostr manual : DiscoverySource

pub data SourceStatus : Type 0 where
  ok : SourceStatus
  failed : (error : Text) → SourceStatus

pub record DiscoveryPolicy : Type 0 where
  pub auto_join : Bool
  pub max_concurrent_unproven : ℕ
  pub max_auto_joins_per_week : ℕ
  pub auto_join_lifetime_cap : ℕ
  pub structural_recheck_backoff_ms : ℕ
  pub require_mainnet : Bool

-- `DiscoveryPolicy::default`
abbrev pub default_discovery : DiscoveryPolicy
default_discovery = record {
  auto_join = false;
  max_concurrent_unproven = 3;
  max_auto_joins_per_week = 5;
  auto_join_lifetime_cap = 20;
  structural_recheck_backoff_ms = 604800000;
  require_mainnet = true;
}

pub data BudgetVerdict : Type 0 where
  allowed blocked_concurrent blocked_weekly blocked_lifetime : BudgetVerdict

unfoldable pub auto_join_budget : ℕ → ℕ → ℕ → DiscoveryPolicy → BudgetVerdict
auto_join_budget concurrent_unproven weekly_auto_joins lifetime_auto_joins policy =
    if leb policy.auto_join_lifetime_cap lifetime_auto_joins
    then blocked_lifetime
    else (if leb policy.max_auto_joins_per_week weekly_auto_joins
        then blocked_weekly
        else (if leb policy.max_concurrent_unproven concurrent_unproven
            then blocked_concurrent
            else allowed))
