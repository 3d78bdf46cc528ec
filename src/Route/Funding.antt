-- ===== src/Route/Funding.antt =====
-- The pairs that a tick prices, and the largest amount that a pair is priced for.
use fedimint_wallets.Prelude.{
  ℕ, ◌+◌, ◌-◌, ◌≤◌, min, ◌≡◌, Bool, false, not, ◌&&◌, Option, some, none, List, [], ◌∷◌, find,
  filter, ◌==◌, u64_max, arith, if◌then◌else◌,
}
use fedimint_wallets.Types.Federation.{
  FederationId, FederationStatus, Msat, AllocatorSnapshot, outbound, inbound, target_credit,
}
use fedimint_wallets.Conflict.{GoalBlockers, blocks_funding_pair}
use fedimint_wallets.Allocator.Sizing.{max_fundable, move_fee_cap, funding_shortfall}
use fedimint_wallets.Allocator.Sizing.Bounds.{fundable_fits}

abbrev pub both_pairs :
    Option FederationId → Option FederationId → List (FederationId × FederationId)
both_pairs (some spending) (some standby) =
    if spending == standby then [] else (standby, spending) ∷ (spending, standby) ∷ []
both_pairs _ _ = []

unfoldable pub funding_pairs : AllocatorSnapshot → GoalBlockers → List (FederationId × FederationId)
funding_pairs s blocked =
    filter (λ pair. not (blocks_funding_pair blocked pair.0 pair.1))
      (both_pairs s.spending_fed s.standby_fed)

-- What is wanted at the destination, and what of the source is protected.
abbrev pub is_fed : Option FederationId → FederationId → Bool
is_fed none fed = false
is_fed (some id) fed = id == fed

unfoldable pub want_and_protected :
    AllocatorSnapshot → FederationId → FederationStatus → Option (ℕ × ℕ)
unfolding funding_shortfall
want_and_protected s source destination =
    if is_fed s.spending_fed destination.id && is_fed s.standby_fed source
    then (some (
      funding_shortfall s.target_spending_balance destination.balance.spendable
          (target_credit s.reservations destination.id) 0,
      0,
    ))
    else (if is_fed s.standby_fed destination.id && is_fed s.spending_fed source
        then (some (
          funding_shortfall s.standby_target destination.balance.spendable
              (target_credit s.reservations destination.id) 0,
          s.target_spending_balance,
        ))
        else none)

unfoldable pub amount_between :
    AllocatorSnapshot → FederationStatus → FederationStatus → Option (ℕ × ℕ) → Msat
amount_between s source destination none = 0
amount_between s source destination (some (want, protected)) =
    let budget = source.balance.spendable - protected - outbound s.reservations source.id in
    let available = max_fundable budget s.max_fee_bps_of_move in
    let cap_room =
      s.per_fed_cap - destination.balance.spendable - inbound s.reservations destination.id in
    min (min want available) cap_room

unfoldable pub maximum_of :
    AllocatorSnapshot → Option FederationStatus → Option FederationStatus → Msat
unfolding amount_between want_and_protected
maximum_of s (some source) (some destination) =
    amount_between s source destination (want_and_protected s source.id destination)
maximum_of s _ _ = 0

unfoldable pub maximum_funding_amount : AllocatorSnapshot → FederationId → FederationId → Msat
unfolding maximum_of
maximum_funding_amount s source destination =
    maximum_of s (find (λ f. f.id == source) s.federations)
      (find (λ f. f.id == destination) s.federations)

module _ (s : AllocatorSnapshot) (f g : FederationStatus) (rate : s.max_fee_bps_of_move ≤ 10000)
    (fits : f.balance.spendable ≤ u64_max) where
  -- What may be moved, with its own fee cap.
  abbrev IsFundable : Msat → Type 0
  IsFundable m =
      (m + move_fee_cap m s.max_fee_bps_of_move
        ≤ f.balance.spendable - outbound s.reservations f.id)
      × (m ≤ s.per_fed_cap - g.balance.spendable - inbound s.reservations g.id)

  amount-IsFundable : (goal : Option (ℕ × ℕ)) → IsFundable (amount_between s f g goal)
  unfolding amount_between
  amount-IsFundable none = (
    fundable_fits 0 (f.balance.spendable - outbound s.reservations f.id) s.max_fee_bps_of_move
        (omega arith) rate (omega arith),
    omega arith,
  )
  amount-IsFundable (some (want, protected)) =
      let budget = f.balance.spendable - protected - outbound s.reservations f.id in
      let m = amount_between s f g (some (want, protected)) in
      let affordable =
        fundable_fits m budget s.max_fee_bps_of_move (omega arith) rate (omega arith) in
      (omega (arith, affordable), omega arith)

-- The amount that a pair is priced for leaves room for its own fee cap in what the source has
-- beyond its reservations, and fits the room under the destination's cap, for a 64-bit balance and
-- a rate of at most 10000 basis points.
pub maximum_funding_amount-le :
    (s : AllocatorSnapshot) (source dest : FederationId) (f g : FederationStatus)
    → find (λ x. x.id == source) s.federations ≡ some f
    → find (λ x. x.id == dest) s.federations ≡ some g
    → s.max_fee_bps_of_move ≤ 10000
    → f.balance.spendable ≤ u64_max
    → let m = maximum_funding_amount s source dest in
      (m + move_fee_cap m s.max_fee_bps_of_move
        ≤ f.balance.spendable - outbound s.reservations f.id)
      × (m ≤ s.per_fed_cap - g.balance.spendable - inbound s.reservations g.id)
unfolding maximum_funding_amount maximum_of
maximum_funding_amount-le s source dest f g at_source at_dest rate fits =
    rw (at_source, at_dest, maximum_of)
      (amount-IsFundable s f g rate fits (want_and_protected s f.id g))
