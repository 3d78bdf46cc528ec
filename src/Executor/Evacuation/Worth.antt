-- ===== src/Executor/Evacuation/Worth.antt =====
-- What a sized evacuation is worth.
use fedimint_wallets.Prelude.{
  ℕ, ◌-◌, ◌≤◌, true, some, List, [], ◌∷◌, ◌≡◌, inl, inr, ◌==◌, All, Text, arith, Bool-cases,
  Option-cases,
}
use fedimint_wallets.Types.Federation.{Msat, EvacFeeCap, cap_at}
use fedimint_wallets.Executor.Run.{
  Run, Returns, IsTotal, Answers, Returns-Answers, Returns-bind, Returns-weaken,
}
use fedimint_wallets.Executor.Cost.{
  FreshMoveCost, CandidateQuote, priced, unquotable, delivered_net, total_fee, source_debit,
  evacuation_cost_fits,
}
use fedimint_wallets.Executor.Boundary.{note_boundaries_below, oscillation_bound}
use fedimint_wallets.Executor.Boundary.Range.{IsBelow, note_boundaries_below-All}
use fedimint_wallets.Executor.Search.{EvacuationSearch, search_evacuation_net}
use fedimint_wallets.Executor.Search.Served.{
  IsPriced, IsSizedWithin, IsSearched, search_evacuation_net-IsSearched,
}
use fedimint_wallets.Executor.Diagnosis.{EvacuationSizing, sized, refused, structural_refused}
use fedimint_wallets.Executor.Diagnosis.Measured.{
  IsMeasured, IsDiagnosed, no_fitting_amount_reason-IsDiagnosed,
}
use fedimint_wallets.Executor.Evacuation.{
  serves, first_serving, evacuation_viability, after_search, size_evacuation,
}

-- A candidate that serves.
serves_within :
    (cost : FreshMoveCost) (cap : EvacFeeCap) (spendable : Msat)
    → serves (priced cost) cap spendable ≡ true
    → (source_debit cost ≤ spendable)
      × (total_fee cost ≤ cap_at cap (delivered_net cost))
      × (total_fee cost ≤ delivered_net cost)
unfolding evacuation_cost_fits
serves_within cost cap spendable h = (ground arith, ground arith, ground arith)

module _ {W : Type 0} (quote : Msat → Run W CandidateQuote) (total : (a : Msat) → IsTotal (quote a))
    (floor : Msat) (desired spendable : Msat) (cap : EvacFeeCap) where
  -- What the sizing promises: a size that the last quote priced within the balance and the cap, and
  -- that delivers at least what it costs; or evidence that the diagnosis measured.
  abbrev pub IsWorth : EvacuationSizing → W → Type 0
  IsWorth (sized net) w =
      (cost : FreshMoveCost) × (net ≤ desired)
      × IsPriced quote spendable cap net cost w
      × (total_fee cost ≤ delivered_net cost)
  IsWorth (refused reason) w = Unit
  IsWorth (structural_refused e) w = IsMeasured quote floor desired spendable cap e w

  first_serving-IsWorth :
      (reason : Text) (top : Msat) (candidates : List ℕ) (w : W)
      → top ≤ desired
      → All (IsBelow top floor) candidates
      → Returns IsWorth (first_serving quote floor cap spendable (refused reason) candidates w)
  unfolding first_serving
  first_serving-IsWorth reason top [] w le h = tt
  first_serving-IsWorth reason top (c ∷ rest) w le h =
      Returns-bind _ _ (quote c w) _ (Returns-Answers (quote c) (total c) w) λ q u asked.
        elim (Bool-cases (serves q cap spendable)) [
          | inl good ↦ rw good (served q u asked good)
          | inr bad ↦ rw bad (first_serving-IsWorth reason top rest u le h.1)
        ]
    where
      served :
          (q : CandidateQuote) (u : W)
          → Answers (quote c) q u
          → serves q cap spendable ≡ true
          → IsWorth (sized c) u
      served (unquotable shortfall) u asked good = ground arith
      served (priced cost) u asked good =
          let worth = serves_within cost cap spendable good in
          (cost, omega (arith, h.0), (asked, worth.0, worth.1), worth.2)

  evacuation_viability-IsWorth :
      (net : Msat) (cost : FreshMoveCost) (osc : ℕ) (w : W)
      → net ≤ desired
      → IsPriced quote spendable cap net cost w
      → Returns IsWorth (evacuation_viability quote floor net cost spendable cap osc w)
  unfolding evacuation_viability
  evacuation_viability-IsWorth net cost osc w le good =
      elim (Bool-cases (total_fee cost - delivered_net cost == 0)) [
        | inl enough ↦ rw enough (cost, le, good, ground arith)
        | inr short ↦ rw short (
            first_serving-IsWorth _ net (note_boundaries_below net floor) w le
              (note_boundaries_below-All net floor))
      ]

  diagnosed_IsWorth :
      (s : EvacuationSizing) (w : W)
      → IsDiagnosed quote floor desired spendable cap s w
      → IsWorth s w
  diagnosed_IsWorth (sized net) w h = absurd h
  diagnosed_IsWorth (refused reason) w h = h
  diagnosed_IsWorth (structural_refused e) w h = h

  after_search-IsWorth :
      (s : EvacuationSearch) (now_ms : ℕ) (w : W)
      → IsSearched quote spendable cap desired s w
      → Returns IsWorth (after_search quote floor desired spendable cap now_ms s w)
  after_search-IsWorth s now_ms w h = elim (Option-cases s.sized) [
    | inl nothing ↦ rw nothing (
        Returns-weaken _ diagnosed_IsWorth (
          no_fitting_amount_reason-IsDiagnosed quote floor desired spendable cap total now_ms
            s.largest_affordable_hint w h.0))
    | inr ((net, cost), e) ↦
        let good : IsSizedWithin quote spendable cap desired (some (net, cost)) w = rw e at h.1 in
        rw e (evacuation_viability-IsWorth net cost (oscillation_bound spendable) w good.0 good.1)
  ]

  -- The sizing of an evacuation ends, and a size that it returns is worth its price.
  pub size_evacuation-IsWorth :
      (now_ms : ℕ) (w : W)
      → 1 ≤ floor
      → Returns IsWorth (size_evacuation quote floor desired spendable cap now_ms w)
  unfolding size_evacuation
  size_evacuation-IsWorth now_ms w pos =
      Returns-bind _ _
        (search_evacuation_net quote floor desired spendable cap (oscillation_bound spendable) w) _
        (search_evacuation_net-IsSearched quote spendable cap total floor desired
          (oscillation_bound spendable) pos w)
        λ s u h. after_search-IsWorth s now_ms u h
