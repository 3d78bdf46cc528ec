-- ===== src/Executor/Evacuation.antt =====
-- A fresh evacuation, sized end to end: the search, the check that the route serves, and the
-- diagnosis of a refusal (wallet-fedimint/src/executor.rs).
pub mod Worth
use fedimint_wallets.Prelude.{
  ℕ, ◌-◌, min, Bool, true, false, ◌&&◌, ◌||◌, Option, some, none, List, [], ◌∷◌, ◌++◌, Text, codes,
  leb, ltb, ◌==◌, is_some, if◌then◌else◌,
}
use fedimint_wallets.Prelude.Print.{decimal, concat, hex}
use fedimint_wallets.Types.Federation.{FederationId, Msat, EvacFeeCap, cap_at}
use fedimint_wallets.Types.Action.{Action, evacuate}
use fedimint_wallets.Types.Record.{MoveRecord}
use fedimint_wallets.Journal.{retryable, structural_evacuation_refusal, permanent}
use fedimint_wallets.Executor.Run.{Outcome, Run, ◌>>=◌, pure, raise}
use fedimint_wallets.Executor.Cost.{
  FreshMoveCost, CandidateQuote, priced, unquotable, delivered_net, total_fee, source_debit,
  evacuation_cost_fits, evacuation_cap_rule, apply_evacuation_sizing,
}
use fedimint_wallets.Executor.Boundary.{note_boundaries_below, oscillation_bound}
use fedimint_wallets.Executor.Search.{EvacuationSearch, search_evacuation_net}
use fedimint_wallets.Executor.Diagnosis.{
  EvacuationSizing, sized, refused, structural_refused, no_fitting_amount_reason,
}

relation : ℕ → ℕ → Text
relation shortfall oscillation =
    if leb shortfall oscillation
    then concat (
        (codes "by at most one note-selection discontinuity (")
        ∷ (decimal shortfall)
        ∷ (codes " msat)")
        ∷ [])
    else (concat (
        (codes "by more than one note-selection discontinuity (")
        ∷ (decimal shortfall)
        ∷ (codes " msat over ")
        ∷ (decimal oscillation)
        ∷ (codes ")")
        ∷ []))

no_serve_text : FreshMoveCost → ℕ → Text
unfolding relation
no_serve_text cost oscillation = concat (
    (codes "the largest chunk this route can carry costs more than it delivers (")
    ∷ (decimal (total_fee cost))
    ∷ (codes " msat of fees against ")
    ∷ (decimal (delivered_net cost))
    ∷ (codes " msat delivered, missing ")
    ∷ (relation (total_fee cost - delivered_net cost) oscillation)
    ∷ (codes "); the route does not serve, so the balance is left where it is rather than ")
    ∷ (codes "burned. The adjacent note-selection boundaries were probed and none served — ")
    ∷ (codes "a BOUNDED probe, so this is not proof that no viable amount exists")
    ∷ [])

-- What a quoted candidate delivers is within the cap and the balance, and at least what it costs.
abbrev pub serves : CandidateQuote → EvacFeeCap → Msat → Bool
serves (unquotable shortfall) cap spendable = false
serves (priced cost) cap spendable =
    evacuation_cost_fits cost (cap_at cap (delivered_net cost)) spendable
    && leb (total_fee cost) (delivered_net cost)

-- `has_move_artifact`
unfoldable pub has_move_artifact : MoveRecord → Bool
has_move_artifact rec = is_some rec.invoice || (is_some rec.recv_op || is_some rec.send_op)

module _ {W : Type 0} (quote : Msat → Run W CandidateQuote) (floor : Msat) where
  -- The loop over the boundaries below the largest size.
  unfoldable pub first_serving :
      EvacFeeCap → Msat → EvacuationSizing → List ℕ → Run W EvacuationSizing
  unfolding evacuation_cost_fits
  first_serving cap spendable refusal [] = pure refusal
  first_serving cap spendable refusal (candidate ∷ rest) = do
    q ← quote candidate
    elim (serves q cap spendable) [
      | true ↦ pure (sized candidate)
      | false ↦ first_serving cap spendable refusal rest
    ]

  unfoldable pub evacuation_viability :
      Msat → FreshMoveCost → Msat → EvacFeeCap → ℕ → Run W EvacuationSizing
  unfolding first_serving no_serve_text
  evacuation_viability net cost spendable cap oscillation =
      if total_fee cost - delivered_net cost == 0
      then (pure (sized net))
      else (first_serving cap spendable (refused (no_serve_text cost oscillation))
          (note_boundaries_below net floor))

  -- After the search: `now_ms` is the clock that the evidence reads.
  abbrev pub after_search : Msat → Msat → EvacFeeCap → ℕ → EvacuationSearch → Run W EvacuationSizing
  after_search desired spendable cap now_ms s = elim s.sized [
    | none ↦
        no_fitting_amount_reason quote floor desired spendable cap now_ms s.largest_affordable_hint
    | some (net, cost) ↦ evacuation_viability net cost spendable cap (oscillation_bound spendable)
  ]

  unfoldable pub size_evacuation : Msat → Msat → EvacFeeCap → ℕ → Run W EvacuationSizing
  unfolding search_evacuation_net evacuation_viability no_fitting_amount_reason
  size_evacuation desired spendable cap now_ms = do
    s ← search_evacuation_net quote floor desired spendable cap (oscillation_bound spendable)
    after_search desired spendable cap now_ms s
