-- ===== src/Executor/Diagnosis.antt =====
-- Why a sizing search found nothing, measured at two fresh quotes (`no_fitting_amount_reason` and
-- `structural_refusal_cause` of wallet-fedimint/src/executor.rs), with the messages that say so.
pub mod Measured
use fedimint_wallets.Prelude.{
  ℕ, Bool, true, false, ◌&&◌, Option, some, none, List, [], ◌∷◌, ◌++◌, Text, codes, leb,
  if◌then◌else◌,
}
use fedimint_wallets.Prelude.Print.{decimal, signed, concat}
use fedimint_wallets.Types.Federation.{Msat, EvacFeeCap, cap_at}
use fedimint_wallets.Intent.{EvacuationQuoteSample, EvacuationRefusalEvidence}
use fedimint_wallets.Intent.Refusal.{
  EvacuationStructuralRefusalAssessment, assess_evacuation_structural_refusal,
}
use fedimint_wallets.Executor.Run.{Outcome, Run, ◌>>=◌, pure}
use fedimint_wallets.Executor.Cost.{
  FreshMoveCost, CandidateQuote, priced, unquotable, delivered_net, total_fee, source_debit,
  fits_cap,
}

pub data EvacuationSizing : Type 0 where
  sized : (net : Msat) → EvacuationSizing
  refused : (reason : Text) → EvacuationSizing
  structural_refused : (evidence : EvacuationRefusalEvidence) → EvacuationSizing

gap_text : Option ℕ → Text
gap_text none = []
gap_text (some shortfall) =
    concat ((codes ", short by ") ∷ (decimal shortfall) ∷ (codes " msat") ∷ [])

-- The messages of the early returns.
no_affordable_text : Text
no_affordable_text = concat (
    (codes "no affordable amount survived to the end of the search (one may have been ")
    ∷ (codes "affordable earlier and then re-quoted above budget; the source may also have ")
    ∷ (codes "funds in flight, and a later tick can succeed)")
    ∷ [])

unpriced_text : Msat → Option ℕ → Text
unfolding gap_text
unpriced_text hint shortfall = concat (
    (codes "the largest PROBED affordable amount ")
    ∷ (decimal hint)
    ∷ (codes " msat no longer prices at all")
    ∷ (gap_text shortfall)
    ∷ (codes " (a quote moved mid-search; a later tick can succeed)")
    ∷ [])

unfundable_text : Msat → FreshMoveCost → Msat → Text
unfundable_text hint high spendable = concat (
    (codes "the largest PROBED affordable amount ")
    ∷ (decimal hint)
    ∷ (codes " msat is no longer fundable (")
    ∷ (decimal (source_debit high))
    ∷ (codes " msat needed against ")
    ∷ (decimal spendable)
    ∷ (codes " msat spendable; a later tick can succeed)")
    ∷ [])

eased_text : Msat → Text
eased_text hint = concat (
    (codes "the cap no longer refuses ")
    ∷ (decimal hint)
    ∷ (codes " msat — the quote eased after the search; a later tick can succeed")
    ∷ [])

floor_unpriced_text : Msat → Msat → Option ℕ → Text
unfolding gap_text
floor_unpriced_text hint floor shortfall = concat (
    (decimal hint)
    ∷ (codes " msat is affordable and over the cap, but the ")
    ∷ (decimal floor)
    ∷ (codes " msat protocol minimum does not price at all")
    ∷ (gap_text shortfall)
    ∷ (codes ", so there is no second point to measure a trend from")
    ∷ [])

floor_unfundable_text : Msat → Msat → FreshMoveCost → Msat → Text
floor_unfundable_text hint floor low spendable = concat (
    (codes "mixed state: the largest probed affordable ")
    ∷ (decimal hint)
    ∷ (codes " msat is affordable and over the cap, but the ")
    ∷ (decimal floor)
    ∷ (codes " msat protocol minimum is not currently fundable (")
    ∷ (decimal (source_debit low))
    ∷ (codes " msat needed against ")
    ∷ (decimal spendable)
    ∷ (codes " msat spendable), so there are not two affordable points to measure a trend ")
    ∷ (codes "between; no fee change is recommended on this evidence")
    ∷ [])

bounded_text : Msat → Text
bounded_text hint = concat (
    (codes "the bounded search produced no amount that still satisfied BOTH affordability ")
    ∷ (codes "and the cap when re-quoted — pass 2 may have found one and lost it on ")
    ∷ (codes "revalidation — up to the largest PROBED affordable ")
    ∷ (decimal hint)
    ∷ (codes " msat, and the two points re-quoted at diagnosis time show no trend ")
    ∷ (codes "indicating a structural cause — which is not the same as there being none, on ")
    ∷ (codes "a fee curve that is not monotone. The refusal may clear on a later quote")
    ∷ [])

abbrev pub diagnostic_text : EvacFeeCap → Msat → FreshMoveCost → Text → Text
diagnostic_text cap hint high cause = concat (
    (codes "structural refusal (measured, not proven) — ")
    ∷ (cause)
    ∷ (codes " (largest probed affordable ask ")
    ∷ (decimal hint)
    ∷ (codes " msat delivers ")
    ∷ (decimal (delivered_net high))
    ∷ (codes " msat and quotes ")
    ∷ (decimal (total_fee high))
    ∷ (codes " msat of fees against a ")
    ∷ (decimal (cap_at cap (delivered_net high)))
    ∷ (codes " msat cap, both points re-quoted at diagnosis time). NOTE a qualifying ")
    ∷ (codes "monotone increase of evac_fee_base_msat and/or evac_fee_bps can let walletd ")
    ∷ (codes "or standalone `tick` atomically create a linked fresh successor under the new ")
    ∷ (codes "cap; this two-point evidence is not proof that every amount remains ")
    ∷ (codes "unavailable")
    ∷ [])

flat_text : Text
flat_text = concat (
    (codes "the FEE rises no faster than the CAP across the two amounts probed, so ")
    ∷ (codes "nothing SMALLER is likely to fit either. NOTE this is a two-point measurement ")
    ∷ (codes "on a fee curve that is NOT monotone — evidence, not proof, since an unprobed ")
    ∷ (codes "amount between them may still serve")
    ∷ [])

steep_text : EvacFeeCap → EvacuationStructuralRefusalAssessment → Text
steep_text cap a = concat (
    (codes "the fixed component alone — both gateways' bases plus the fixed federation ")
    ∷ (codes "and per-note mint fees, ~")
    ∷ (signed a.fixed_component_msat)
    ∷ (codes " msat — exceeds the cap base ")
    ∷ (decimal cap.base_msat)
    ∷ (codes " msat, and the fee rises at least as fast as the cap, so ON THE SAMPLED LINE ")
    ∷ (codes "the gap only widens with size. NOTE this intercept is EXTRAPOLATED from the ")
    ∷ (codes "same two samples on a fee curve that is NOT monotone — evidence, not proof, ")
    ∷ (codes "since a per-note fee drop at an unprobed boundary can still let an ")
    ∷ (codes "intermediate amount serve")
    ∷ [])

-- The causes that hold, joined; `none` if neither does.
unfoldable pub causes :
    Bool → Bool → EvacFeeCap → EvacuationStructuralRefusalAssessment → Option Text
unfolding flat_text steep_text
causes false false cap a = none
causes true false cap a = some flat_text
causes false true cap a = some (steep_text cap a)
causes true true cap a = some (flat_text ++ (codes "; " ++ steep_text cap a))

unfoldable pub causes_of : EvacFeeCap → Option EvacuationStructuralRefusalAssessment → Option Text
unfolding causes
causes_of cap none = none
causes_of cap (some a) =
    causes a.fee_rises_no_faster_than_cap a.fixed_component_exceeds_cap_base cap a

unfoldable pub structural_refusal_cause :
    EvacFeeCap → EvacuationQuoteSample → EvacuationQuoteSample → Option Text
unfolding causes_of
structural_refusal_cause cap low high =
    causes_of cap (assess_evacuation_structural_refusal cap low high)

abbrev pub sample_of : EvacFeeCap → FreshMoveCost → EvacuationQuoteSample
sample_of cap cost = record {
  delivered_net = delivered_net cost;
  total_fee = total_fee cost;
  sample_cap = cap_at cap (delivered_net cost);
}

module _ {W : Type 0} (quote : Msat → Run W CandidateQuote) (floor desired spendable : Msat)
    (cap : EvacFeeCap) (now_ms : ℕ) where
  abbrev pub refusal_evidence :
      Msat → FreshMoveCost → FreshMoveCost → Text → EvacuationRefusalEvidence
  refusal_evidence hint low high cause = record {
    cap_components = cap;
    requested_net = desired;
    source_spendable = spendable;
    low = sample_of cap low;
    high = sample_of cap high;
    diagnostic = diagnostic_text cap hint high cause;
    measured_at_ms = now_ms;
  }

  -- The result, by the cause that the two points show.
  unfoldable pub by_cause : Msat → FreshMoveCost → FreshMoveCost → Option Text → EvacuationSizing
  unfolding bounded_text
  by_cause hint low high none = refused (bounded_text hint)
  by_cause hint low high (some cause) = structural_refused (refusal_evidence hint low high cause)

  unfoldable pub at_floor : Msat → FreshMoveCost → CandidateQuote → EvacuationSizing
  unfolding floor_unpriced_text floor_unfundable_text by_cause
  at_floor hint high (unquotable shortfall) = refused (floor_unpriced_text hint floor shortfall)
  at_floor hint high (priced low) =
      if leb (source_debit low) spendable
      then (by_cause hint low high
          (structural_refusal_cause cap (sample_of cap low) (sample_of cap high)))
      else (refused (floor_unfundable_text hint floor low spendable))

  unfoldable pub at_high : Msat → CandidateQuote → Run W EvacuationSizing
  unfolding unpriced_text unfundable_text eased_text at_floor
  at_high hint (unquotable shortfall) = pure (refused (unpriced_text hint shortfall))
  at_high hint (priced high) =
      if leb (source_debit high) spendable
      then (if fits_cap high cap
          then (pure (refused (eased_text hint)))
          else (quote floor >>= λ q. pure (at_floor hint high q)))
      else (pure (refused (unfundable_text hint high spendable)))

  unfoldable pub no_fitting_amount_reason : Option Msat → Run W EvacuationSizing
  unfolding no_affordable_text at_high
  no_fitting_amount_reason none = pure (refused no_affordable_text)
  no_fitting_amount_reason (some hint) = do high ← quote hint; at_high hint high
