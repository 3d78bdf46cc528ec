-- ===== src/Allocator/Keys.antt =====
-- The idempotency keys of decisions (`to_hex`, `idem_*` and `reason_tag` of
-- wallet-core/src/types.rs and wallet-core/src/allocator.rs), as the texts that `format!` makes.
pub mod Distinct
use fedimint_wallets.Prelude.{ℕ, ◌++◌, Text, codes}
use fedimint_wallets.Prelude.Print.{hex, decimal}
use fedimint_wallets.Types.Federation.{FederationId, Occurrence}
use fedimint_wallets.Types.Action.{
  IdempotencyKey, ReasonCode, spending_below_target, standby_below_target, shutdown_notice,
  unhealthy, over_cap, not_probed, low_reputation, uneconomic_route, user_initiated, active_probe,
  standing_instruction,
}

unfoldable pub to_hex : FederationId → Text
to_hex id = hex 64 id

-- `{from}:{to}:{occurrence}`, which `idem_move` and `idem_evac` end in.
unfoldable pub pair_suffix : FederationId → FederationId → Occurrence → Text
pair_suffix source dest occurrence =
    to_hex source ++ (codes ":" ++ (to_hex dest ++ (codes ":" ++ decimal occurrence)))

unfoldable pub idem_move : FederationId → FederationId → Occurrence → IdempotencyKey
unfolding pair_suffix
idem_move source dest occurrence = codes "move:" ++ pair_suffix source dest occurrence

unfoldable pub idem_evac : FederationId → FederationId → Occurrence → IdempotencyKey
unfolding pair_suffix
idem_evac source dest occurrence = codes "evac:" ++ pair_suffix source dest occurrence

unfoldable pub reason_tag : ReasonCode → Text
reason_tag spending_below_target = codes "spending_below_target"
reason_tag standby_below_target = codes "standby_below_target"
reason_tag shutdown_notice = codes "shutdown_notice"
reason_tag unhealthy = codes "unhealthy"
reason_tag over_cap = codes "over_cap"
reason_tag not_probed = codes "not_probed"
reason_tag low_reputation = codes "low_reputation"
reason_tag uneconomic_route = codes "uneconomic_route"
reason_tag user_initiated = codes "user_initiated"
reason_tag standing_instruction = codes "standing_instruction"
reason_tag active_probe = codes "active_probe"

unfoldable pub idem_refuse : FederationId → ReasonCode → Occurrence → IdempotencyKey
unfolding reason_tag
idem_refuse fed reason occurrence =
    codes "refuse:"
    ++ (reason_tag reason ++ (codes ":" ++ (to_hex fed ++ (codes ":" ++ decimal occurrence))))

unfoldable pub idem_conflict_suppressed : IdempotencyKey → ReasonCode → IdempotencyKey
unfolding reason_tag
idem_conflict_suppressed candidate reason =
    codes "conflict-suppressed:" ++ (candidate ++ (codes ":" ++ reason_tag reason))
