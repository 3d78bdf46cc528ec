-- ===== src/Intent/Refusal.antt =====
-- The two-point assessment of a refused evacuation (`assess_evacuation_structural_refusal` of
-- wallet-core/src/executor.rs). The products fit 128 bits for amounts below 2^63 msat, which the
-- supply of bitcoin is.
use native.Mathlib.Nat.{mul_comm}
use fedimint_wallets.Prelude.{
  ℕ, ◌+◌, ◌-◌, ◌*◌, ◌/◌, ◌≤◌, ◌<◌, min, Bool, true, ◌&&◌, ◌||◌, Option, some, none, ◌≡◌, ltb, leb,
  if◌then◌else◌, arith, u64_max, Bool-cases, inl, inr, leb→le,
}
use fedimint_wallets.Prelude.Int.{ℤ, pos, ◌-ℤ◌, ◌*ℤ◌, ◌/ℤ◌, ltb_ℤ, leb_ℤ}
use fedimint_wallets.Types.Federation.{EvacFeeCap, cap_at}
use fedimint_wallets.Intent.{EvacuationQuoteSample}

pub record EvacuationStructuralRefusalAssessment : Type 0 where
  pub fee_rises_no_faster_than_cap : Bool
  pub fixed_component_exceeds_cap_base : Bool
  pub fixed_component_msat : ℤ

unfoldable pub is_structural : EvacuationStructuralRefusalAssessment → Bool
is_structural a = a.fee_rises_no_faster_than_cap || a.fixed_component_exceeds_cap_base

-- The rises of the fee and of the cap between the samples, ten thousand times, and the fee at zero
-- of the line through them.
abbrev pub span : EvacuationQuoteSample → EvacuationQuoteSample → ℤ
span low high = pos high.delivered_net -ℤ pos low.delivered_net

abbrev pub rise : EvacuationQuoteSample → EvacuationQuoteSample → ℤ
rise low high = pos high.total_fee -ℤ pos low.total_fee

abbrev pub fee_rise : EvacuationQuoteSample → EvacuationQuoteSample → ℤ
fee_rise low high = rise low high *ℤ pos 10000

abbrev pub cap_rise : EvacFeeCap → EvacuationQuoteSample → EvacuationQuoteSample → ℤ
cap_rise cap low high = pos cap.bps *ℤ span low high

abbrev pub fixed_component : EvacuationQuoteSample → EvacuationQuoteSample → ℤ
fixed_component low high =
    pos low.total_fee -ℤ rise low high *ℤ pos low.delivered_net /ℤ span low high

unfoldable pub assess_evacuation_structural_refusal :
    EvacFeeCap
    → EvacuationQuoteSample
    → EvacuationQuoteSample
    → Option EvacuationStructuralRefusalAssessment
unfolding ◌-ℤ◌ ◌*ℤ◌ ◌/ℤ◌
assess_evacuation_structural_refusal cap low high =
    if leb_ℤ (span low high) (pos 0)
    then none
    else (some (record {
      fee_rises_no_faster_than_cap = leb_ℤ (fee_rise low high) (cap_rise cap low high);
      fixed_component_exceeds_cap_base =
          leb_ℤ (cap_rise cap low high) (fee_rise low high)
          && (ltb_ℤ (pos cap.base_msat) (fixed_component low high)
              && ltb (cap_at cap low.delivered_net) low.total_fee);
      fixed_component_msat = fixed_component low high;
    }))

-- The samples of a structural assessment are in order.
pub assessed_in_order :
    (cap : EvacFeeCap) (low high : EvacuationQuoteSample)
    (a : EvacuationStructuralRefusalAssessment)
    → assess_evacuation_structural_refusal cap low high ≡ some a
    → low.delivered_net < high.delivered_net
unfolding assess_evacuation_structural_refusal
assessed_in_order cap low high a e = ground arith

sub_up : (a b : ℕ) → b ≤ a → pos a -ℤ pos b ≡ pos (a - b)
unfolding ◌-ℤ◌
sub_up a b h = ground arith

-- A fee that rises no faster than the cap, over the naturals.
rises_within :
    (fl fh dl dh bps : ℕ)
    → dl < dh
    → leb_ℤ ((pos fh -ℤ pos fl) *ℤ pos 10000) (pos bps *ℤ (pos dh -ℤ pos dl)) ≡ true
    → fh * 10000 + bps * dl ≤ fl * 10000 + bps * dh
unfolding ◌*ℤ◌
rises_within fl fh dl dh bps less h = elim (Bool-cases (leb fl fh)) [
  | inl rising ↦
      let up : fl ≤ fh = leb→le fl fh rising in
      let bound = rw (sub_up fh fl up, sub_up dh dl (omega arith)) at h in
      let room : (fh - fl) * 10000 ≤ bps * (dh - dl) = ground arith in
      let split : bps * (dh - dl) + bps * dl ≡ bps * dh = grind arith in omega arith
  | inr falling ↦
      let down : fh < fl = ground arith in
      let grows : bps * dl ≤ bps * dh = grind arith in omega arith
]

low_over :
    (fl fh dl dh base bps : ℕ)
    → fh ≤ u64_max
    → fh * 10000 + bps * dl ≤ fl * 10000 + bps * dh
    → min (base + dh * bps / 10000) u64_max < fh
    → min (base + dl * bps / 10000) u64_max < fl
low_over fl fh dl dh base bps small h over = omega (arith, mul_comm dl bps, mul_comm dh bps)

module _ (cap : EvacFeeCap) (low high : EvacuationQuoteSample)
    (a : EvacuationStructuralRefusalAssessment)
    (e : assess_evacuation_structural_refusal cap low high ≡ some a) where
  assessed_flat :
      a.fee_rises_no_faster_than_cap ≡ true
      → leb_ℤ (fee_rise low high) (cap_rise cap low high) ≡ true
  unfolding assess_evacuation_structural_refusal
  assessed_flat flat = ground arith

  assessed_steep :
      a.fixed_component_exceeds_cap_base ≡ true → cap_at cap low.delivered_net < low.total_fee
  unfolding assess_evacuation_structural_refusal
  assessed_steep steep = ground arith

  -- If the high sample is over its cap, so is the low one of a structural assessment.
  pub structural_low_over :
      is_structural a ≡ true
      → high.total_fee ≤ u64_max
      → cap_at cap high.delivered_net < high.total_fee
      → cap_at cap low.delivered_net < low.total_fee
  unfolding is_structural cap_at
  structural_low_over s small over = elim (Bool-cases a.fee_rises_no_faster_than_cap) [
    | inl flat ↦
        low_over low.total_fee high.total_fee low.delivered_net high.delivered_net cap.base_msat
          cap.bps small
          (rises_within low.total_fee high.total_fee low.delivered_net high.delivered_net cap.bps
            (assessed_in_order cap low high a e) (assessed_flat flat))
          over
    | inr steep ↦ assessed_steep (ground arith)
  ]
