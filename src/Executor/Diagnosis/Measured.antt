-- ===== src/Executor/Diagnosis/Measured.antt =====
-- The evidence of a structural refusal is what the diagnosis measured.
use fedimint_wallets.Prelude.{
  ℕ, ◌≤◌, ◌<◌, Bool, true, false, Option, some, none, ◌≡◌, refl, inl, inr, leb, ◌||◌, Text, arith,
  Bool-cases, Option-cases,
}
use fedimint_wallets.Types.Federation.{Msat, EvacFeeCap, cap_at}
use fedimint_wallets.Intent.{EvacuationRefusalEvidence}
use fedimint_wallets.Intent.Refusal.{
  EvacuationStructuralRefusalAssessment, assess_evacuation_structural_refusal, is_structural,
}
use fedimint_wallets.Executor.Run.{Run, Returns, IsTotal, Answers, Returns-Answers, Returns-bind}
use fedimint_wallets.Executor.Cost.{
  FreshMoveCost, CandidateQuote, priced, unquotable, delivered_net, total_fee, source_debit,
  fits_cap, over_cap,
}
use fedimint_wallets.Executor.Search.{IsHintWithin}
use fedimint_wallets.Executor.Diagnosis.{
  EvacuationSizing, sized, refused, structural_refused, causes, causes_of, structural_refusal_cause,
  sample_of, refusal_evidence, at_floor, at_high, no_fitting_amount_reason,
}

caused :
    (flat steep : Bool) (cap : EvacFeeCap) (a : EvacuationStructuralRefusalAssessment)
    (cause : Text)
    → causes flat steep cap a ≡ some cause
    → (flat || steep) ≡ true
unfolding causes
caused false false cap a cause e = cc
caused true false cap a cause e = refl
caused false true cap a cause e = refl
caused true true cap a cause e = refl

-- A cause is reported only of a structural assessment.
abbrev pub IsStructural : Option EvacuationStructuralRefusalAssessment → Type 0
IsStructural o =
    (a : EvacuationStructuralRefusalAssessment) × (o ≡ some a) × (is_structural a ≡ true)

causes_of-IsStructural :
    (cap : EvacFeeCap) (o : Option EvacuationStructuralRefusalAssessment) (cause : Text)
    → causes_of cap o ≡ some cause
    → IsStructural o
unfolding causes_of is_structural
causes_of-IsStructural cap none cause e = cc
causes_of-IsStructural cap (some a) cause e = (a, refl, caused _ _ cap a cause e)

pub cause-IsStructural :
    (cap : EvacFeeCap) (low high : FreshMoveCost) (cause : Text)
    → structural_refusal_cause cap (sample_of cap low) (sample_of cap high) ≡ some cause
    → IsStructural
        (assess_evacuation_structural_refusal cap (sample_of cap low) (sample_of cap high))
unfolding structural_refusal_cause
cause-IsStructural cap low high cause e = causes_of-IsStructural cap _ cause e

module _ {W : Type 0} (quote : Msat → Run W CandidateQuote) (floor desired spendable : Msat)
    (cap : EvacFeeCap) where
  -- The samples of the evidence: quotes of the hint and of the floor that the balance could pay, the
  -- last one the floor's; the high one is over the cap, and the assessment is structural.
  pub record IsMeasured (e : EvacuationRefusalEvidence) (w : W) : Type 0 where
    pub hint : Msat
    pub low : FreshMoveCost
    pub high : FreshMoveCost
    pub cause : Text
    pub now_ms : ℕ
    pub hint_within : hint ≤ desired
    pub high_asked : (u : W) × Answers (quote hint) (priced high) u
    pub low_asked : Answers (quote floor) (priced low) w
    pub high_paid : source_debit high ≤ spendable
    pub low_paid : source_debit low ≤ spendable
    pub high_over : cap_at cap (delivered_net high) < total_fee high
    pub has_cause :
        structural_refusal_cause cap (sample_of cap low) (sample_of cap high) ≡ some cause
    pub is_evidence :
        e ≡ refusal_evidence quote floor desired spendable cap now_ms hint low high cause

  abbrev pub IsDiagnosed : EvacuationSizing → W → Type 0
  IsDiagnosed (sized net) w = ⊥
  IsDiagnosed (refused reason) w = Unit
  IsDiagnosed (structural_refused e) w = IsMeasured e w

  module _ (total : (a : Msat) → IsTotal (quote a)) (now_ms : ℕ) (hint : Msat)
      (within : hint ≤ desired) where
    module _ (high : FreshMoveCost) (u : W) (asked : Answers (quote hint) (priced high) u)
        (paid : source_debit high ≤ spendable)
        (over : cap_at cap (delivered_net high) < total_fee high) where
      at_floor-IsDiagnosed :
          (q : CandidateQuote) (w : W)
          → Answers (quote floor) q w
          → IsDiagnosed (at_floor quote floor desired spendable cap now_ms hint high q) w
      unfolding at_floor
      at_floor-IsDiagnosed (unquotable shortfall) w low_asked = tt
      at_floor-IsDiagnosed (priced low) w low_asked =
          elim (Bool-cases (leb (source_debit low) spendable)) [
            | inr short ↦ rw short tt
            | inl fund ↦
                elim (Option-cases
                  (structural_refusal_cause cap (sample_of cap low) (sample_of cap high))) [
                    | inl nothing ↦ rw fund (rw nothing tt)
                    | inr (cause, e) ↦ rw fund (
                        rw e (record {
                          hint = hint;
                          low = low;
                          high = high;
                          cause = cause;
                          now_ms = now_ms;
                          hint_within = within;
                          high_asked = (u, asked);
                          low_asked = low_asked;
                          high_paid = paid;
                          low_paid = ground arith;
                          high_over = over;
                          has_cause = e;
                          is_evidence = refl;
                        }))
                  ]
          ]

    at_high-IsDiagnosed :
        (q : CandidateQuote) (w : W)
        → Answers (quote hint) q w
        → Returns IsDiagnosed (at_high quote floor desired spendable cap now_ms hint q w)
    unfolding at_high
    at_high-IsDiagnosed (unquotable shortfall) w asked = tt
    at_high-IsDiagnosed (priced high) w asked =
        elim (Bool-cases (leb (source_debit high) spendable)) [
          | inr short ↦ rw short tt
          | inl fund ↦ elim (Bool-cases (fits_cap high cap)) [
            | inl eased ↦ rw fund (rw eased tt)
            | inr over ↦ rw fund (
                rw over (
                  Returns-bind _ _ (quote floor w) _ (Returns-Answers (quote floor) (total floor) w)
                    λ q' u low_asked.
                      at_floor-IsDiagnosed high w asked (ground arith) (over_cap high cap over) q' u
                        low_asked))
          ]
        ]

  -- A diagnosis ends, sizes nothing, and its evidence is measured.
  pub no_fitting_amount_reason-IsDiagnosed :
      ((a : Msat) → IsTotal (quote a))
      → (now_ms : ℕ) (hint : Option Msat) (w : W) → IsHintWithin desired hint
      → Returns IsDiagnosed
          (no_fitting_amount_reason quote floor desired spendable cap now_ms hint w)
  unfolding no_fitting_amount_reason
  no_fitting_amount_reason-IsDiagnosed total now_ms none w within = tt
  no_fitting_amount_reason-IsDiagnosed total now_ms (some hint) w within =
      Returns-bind _ _ (quote hint w) _ (Returns-Answers (quote hint) (total hint) w)
        λ q u asked. at_high-IsDiagnosed total now_ms hint within q u asked
