-- ===== src/Replacement.antt =====
-- The replacement of a structurally refused evacuation under a higher cap
-- (`validate_marked_evacuation_evidence` of wallet-fedimint/src/journal.rs).
pub mod Accepts
use fedimint_wallets.Prelude.{
  ℕ, ◌+◌, Bool, true, false, not, ◌&&◌, ◌||◌, Option, some, none, List, [], ◌∷◌, Text, codes, leb,
  ltb, ◌==◌, map_or, if◌then◌else◌,
}
use fedimint_wallets.Types.Federation.{Msat, EvacFeeCap, cap_at}
use fedimint_wallets.Types.Action.{Action, evacuate}
use fedimint_wallets.Intent.{
  EvacuationQuoteSample, EvacuationRefusalEvidence, Intent, cap_qualifies_replacement,
}
use fedimint_wallets.Intent.Refusal.{assess_evacuation_structural_refusal, is_structural}
use fedimint_wallets.Journal.{ExecError, permanent, Result, ok, err}

abbrev pub is_empty : Text → Bool
is_empty [] = true
is_empty (c ∷ cs) = false

abbrev pub same_cap : EvacFeeCap → EvacFeeCap → Bool
same_cap a b = a.base_msat == b.base_msat && a.bps == b.bps

abbrev pub same_amount : Option Msat → Msat → Bool
same_amount none n = false
same_amount (some m) n = m == n

-- The closure `sample_is_sensible`: the sum is made in 128 bits.
unfoldable pub sample_is_sensible :
    EvacFeeCap → EvacuationRefusalEvidence → EvacuationQuoteSample → Bool
sample_is_sensible cap e sample =
    ltb 0 sample.delivered_net
    && (leb sample.delivered_net e.requested_net
        && (sample.sample_cap == cap_at cap sample.delivered_net
            && (ltb sample.sample_cap sample.total_fee
                && leb (sample.delivered_net + sample.total_fee) e.source_spendable)))

-- The last check: the samples, their order, the assessment and the new cap.
unfoldable pub is_justified : EvacFeeCap → EvacuationRefusalEvidence → EvacFeeCap → Bool
is_justified cap e new_components =
    sample_is_sensible cap e e.low
    && (sample_is_sensible cap e e.high
        && (ltb e.low.delivered_net e.high.delivered_net
            && (map_or false is_structural (assess_evacuation_structural_refusal cap e.low e.high)
                && cap_qualifies_replacement e new_components)))

-- The evidence speaks of the parent.
unfoldable pub describes_parent : EvacFeeCap → EvacuationRefusalEvidence → Msat → Bool
describes_parent cap e old_amount =
    same_cap e.cap_components cap
    && (not (e.requested_net == 0)
        && (leb e.requested_net old_amount && not (is_empty e.diagnostic)))

abbrev pub refuse : Text → Result (Unit {0})
refuse message = err (permanent message)

unfoldable pub validate_components :
    Msat
    → EvacFeeCap
    → EvacuationRefusalEvidence
    → Option EvacFeeCap
    → Msat
    → Msat
    → Result (Unit {0})
unfolding sample_is_sensible is_justified describes_parent
validate_components old_amount cap e none new_amount new_fee_cap =
    refuse (codes "journal: replacement child must carry evacuation fee-cap components")
validate_components old_amount cap e (some new_components) new_amount new_fee_cap =
    if not (cap_at new_components new_amount == new_fee_cap)
    then (refuse (codes "journal: fresh evacuation cap components do not match its fee cap"))
    else (if not (describes_parent cap e old_amount)
        then (refuse
            (codes "journal: evacuation refusal evidence does not describe the current parent"))
        else (if not (is_justified cap e new_components)
            then (refuse
                (codes "journal: replacement evacuation cap is not a justified monotone increase"))
            else (ok tt)))

unfoldable pub validate_evacuate :
    Action
    → Option Msat
    → EvacFeeCap
    → EvacuationRefusalEvidence
    → Option EvacFeeCap
    → Msat
    → Msat
    → Result (Unit {0})
unfolding validate_components
validate_evacuate (evacuate s d old_amount old_fee_cap g k) max_fee cap e components new_amount
      new_fee_cap =
    if same_amount max_fee old_fee_cap
    then (validate_components old_amount cap e components new_amount new_fee_cap)
    else (refuse (codes "journal: evacuation parent max_fee disagrees with its action fee cap"))
validate_evacuate _ max_fee cap e components new_amount new_fee_cap =
    refuse (codes "journal: marked replacement requires an Evacuate parent")

unfoldable pub validate_marked_evacuation_evidence :
    Intent
    → EvacFeeCap
    → EvacuationRefusalEvidence
    → Option EvacFeeCap
    → Msat
    → Msat
    → Result (Unit {0})
unfolding validate_evacuate
validate_marked_evacuation_evidence old cap e new_components new_amount new_fee_cap =
    validate_evacuate old.action old.max_fee cap e new_components new_amount new_fee_cap
