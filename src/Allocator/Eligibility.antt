-- ===== src/Allocator/Eligibility.antt =====
-- Who may give and who may receive (`find` to `safest_other` of wallet-core/src/allocator.rs).
pub mod Choice
use fedimint_wallets.Prelude.{
  ℕ, ◌-◌, ◌<◌, Bool, true, false, not, ◌&&◌, ◌||◌, Option, some, none, List, [], ◌∷◌, NatMap, ltb,
  leb, ◌==◌, if◌then◌else◌, is_none, filter, find, and_then, filter_option, or_else,
}
use fedimint_wallets.Prelude.Int.{pos, ltb_ℤ}
use fedimint_wallets.Types.Federation.{FederationId, FederationStatus, AllocatorSnapshot, inbound}
use fedimint_wallets.Types.Action.{
  ReasonCode, shutdown_notice, unhealthy, not_probed, low_reputation,
}
use fedimint_wallets.Allocator.Sizing.{reserved}

unfoldable pub find_fed : AllocatorSnapshot → FederationId → Option FederationStatus
find_fed s id = find (λ f. f.id == id) s.federations

unfoldable pub evacuation_reason : FederationStatus → Option ReasonCode
evacuation_reason fed =
    if fed.shutdown_notice
    then some shutdown_notice
    else if not fed.healthy
    then some unhealthy
    else none

unfoldable pub receive_blocker : FederationStatus → Option ReasonCode
receive_blocker fed =
    if not fed.eligible_to_fund || not fed.probed_ok
    then some not_probed
    else if ltb_ℤ fed.reputation (pos 0)
    then some low_reputation
    else none

unfoldable pub usable_source : Option FederationStatus → Option FederationStatus
usable_source source = filter_option (λ fed. is_none (evacuation_reason fed)) source

unfoldable pub cap_room_with : AllocatorSnapshot → FederationStatus → NatMap ℕ → ℕ
cap_room_with s fed credited =
    s.per_fed_cap - fed.balance.spendable - inbound s.reservations fed.id - reserved credited fed.id

unfoldable pub eligible_for_evacuation :
    AllocatorSnapshot → FederationStatus → NatMap ℕ → FederationStatus → Bool
eligible_for_evacuation s source credited fed =
    not (fed.id == source.id)
    && (is_none (evacuation_reason fed)
        && (is_none (receive_blocker fed) && ltb 0 (cap_room_with s fed credited)))

-- `min_by_key(|fed| fed.id)`: the first of the least.
unfoldable pub min_by_id : List FederationStatus → Option FederationStatus
min_by_id [] = none
min_by_id (x ∷ xs) = elim (min_by_id xs) [
  | none ↦ some x
  | some m ↦ if leb x.id m.id then some x else some m
]

unfoldable pub safest_other :
    AllocatorSnapshot → FederationStatus → NatMap ℕ → Option FederationStatus
safest_other s source credited =
    or_else
      (filter_option (eligible_for_evacuation s source credited)
        (and_then s.standby_fed (find_fed s)))
      (min_by_id (filter (eligible_for_evacuation s source credited) s.federations))
