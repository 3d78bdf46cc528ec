-- ===== src/Executor/Search.antt =====
-- The two passes that size an evacuation, and the check that the size serves
-- (`search_evacuation_net` and `evacuation_viability` of wallet-fedimint/src/executor.rs). The quotes
-- are the caller's, and may move from one to the next; the lnv2 contract minimum is a parameter.
pub mod Served
pub mod Window
use fedimint_wallets.Prelude.{
  ℕ, ◌-◌, ◌≤◌, Bool, true, false, ◌&&◌, Option, some, none, List, [], ◌∷◌, leb, ltb, ◌==◌,
  if◌then◌else◌,
}
use fedimint_wallets.Types.Federation.{Msat, EvacFeeCap, cap_at}
use fedimint_wallets.Executor.Run.{Outcome, Run, ◌>>=◌, pure}
use fedimint_wallets.Executor.Cost.{
  FreshMoveCost, CandidateQuote, priced, unquotable, ProbeVerdict, delivered_net, total_fee,
  source_debit, affordability, evacuation_cost_fits, fits_cap, combined_verdict,
}
use fedimint_wallets.Executor.Boundary.{note_boundaries_below}
use fedimint_wallets.Executor.Sizing.{largest_fitting_amount}

pub record EvacuationSearch : Type 0 where
  pub sized : Option (Msat × FreshMoveCost)
  pub largest_affordable_hint : Option Msat

-- A hint is an amount that was asked for.
abbrev pub IsHintWithin : Msat → Option Msat → Type 0
IsHintWithin desired none = Unit
IsHintWithin desired (some hint) = hint ≤ desired

abbrev pub unsized : Option Msat → EvacuationSearch
unsized hint = record { sized = none; largest_affordable_hint = hint }

abbrev pub sized_at : Msat → FreshMoveCost → Option Msat → EvacuationSearch
sized_at net cost hint = record { sized = some (net, cost); largest_affordable_hint = hint }

-- The quote of the full ask: whether it sizes the evacuation, and the hint it leaves.
abbrev pub top_serves : CandidateQuote → EvacFeeCap → Msat → Option FreshMoveCost
top_serves (priced cost) cap spendable =
    if (affordability (priced cost) spendable).fits && fits_cap cost cap then some cost else none
top_serves (unquotable shortfall) cap spendable = none

abbrev pub top_hint : CandidateQuote → Msat → Msat → Option Msat
top_hint (priced cost) spendable desired =
    if (affordability (priced cost) spendable).fits then some desired else none
top_hint (unquotable shortfall) spendable desired = none

module _ {W : Type 0} (quote : Msat → Run W CandidateQuote) (floor desired spendable : Msat)
    (cap : EvacFeeCap) (oscillation : ℕ) where
  abbrev pub afford_probe : ℕ → Run W ProbeVerdict
  afford_probe amount = do q ← quote amount; pure (affordability q spendable)

  abbrev pub combined_probe : ℕ → Run W ProbeVerdict
  combined_probe amount = do q ← quote amount; pure (combined_verdict q cap spendable)

  -- The second pass's amount, quoted again.
  abbrev pub revalidated : Option Msat → Msat → CandidateQuote → EvacuationSearch
  revalidated hint net (unquotable shortfall) = unsized hint
  revalidated hint net (priced cost) =
      if (combined_verdict (priced cost) cap spendable).fits
      then (sized_at net cost hint)
      else (unsized hint)

  abbrev pub second_pass : Option Msat → Option ℕ → Run W EvacuationSearch
  second_pass hint none = pure (unsized hint)
  second_pass hint (some net) = do q ← quote net; pure (revalidated hint net q)

  -- The first pass's amount, quoted again: the hint is assigned anew.
  abbrev pub fresh_hint : FreshMoveCost → Msat → Option Msat
  fresh_hint cost net = if leb (source_debit cost) spendable then some net else none

  abbrev pub requoted : Option Msat → Msat → CandidateQuote → Run W EvacuationSearch
  requoted hint net (unquotable shortfall) = pure (unsized hint)
  requoted hint net (priced cost) =
      if (combined_verdict (priced cost) cap spendable).fits
      then (pure (sized_at net cost (fresh_hint cost net)))
      else (largest_fitting_amount combined_probe floor net oscillation
          >>= second_pass (fresh_hint cost net))

  abbrev pub first_pass : Option Msat → Option ℕ → Run W EvacuationSearch
  first_pass hint none = pure (unsized hint)
  first_pass hint (some net) = do q ← quote net; requoted hint net q

  abbrev pub after_top : Option FreshMoveCost → CandidateQuote → Run W EvacuationSearch
  after_top (some cost) top = pure (sized_at desired cost (top_hint top spendable desired))
  after_top none top =
      if ltb desired floor
      then (pure (unsized (top_hint top spendable desired)))
      else ((if (affordability top spendable).fits
            then (pure (some desired))
            else (largest_fitting_amount afford_probe floor desired oscillation))
          >>= first_pass (top_hint top spendable desired))

  unfoldable pub search_evacuation_net : Run W EvacuationSearch
  unfolding affordability fits_cap combined_verdict largest_fitting_amount
  search_evacuation_net = do top ← quote desired; after_top (top_serves top cap spendable) top
