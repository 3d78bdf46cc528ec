-- ===== src/Executor/Cost.antt =====
-- The price of a fresh move, and the verdicts on one probed amount
-- (wallet-fedimint/src/executor.rs).
use fedimint_wallets.Prelude.{
  ℕ, ◌-◌, max, Bool, true, false, ◌&&◌, Option, some, none, leb, ltb, ◌==◌, if◌then◌else◌,
  unwrap_or, u64_max, sat_add64, ◌≡◌, ◌≤◌, ◌<◌, arith,
}
use fedimint_wallets.Types.Federation.{Msat, EvacFeeCap, cap_at}
use fedimint_wallets.Types.Record.{MoveRecord}
use fedimint_wallets.Fee.{total_within_cap}

pub record FreshMoveCost : Type 0 where
  pub invoice_amount : Msat
  pub receive_quote : Msat
  pub send_quote : Msat

-- The methods of `FreshMoveCost`.
abbrev pub delivered_net : FreshMoveCost → Msat
delivered_net c = c.invoice_amount - c.receive_quote

abbrev pub total_fee : FreshMoveCost → Msat
total_fee c = sat_add64 c.receive_quote c.send_quote

abbrev pub source_debit : FreshMoveCost → Msat
source_debit c = sat_add64 c.invoice_amount c.send_quote

pub data CandidateQuote : Type 0 where
  priced : (cost : FreshMoveCost) → CandidateQuote
  unquotable : (source_shortfall : Option ℕ) → CandidateQuote

pub record ProbeVerdict : Type 0 where
  pub fits : Bool
  pub shortfall : ℕ

-- `ProbeVerdict::fits`, `missed_by` and `missed_immeasurably`
abbrev pub fitting : ProbeVerdict
fitting = record { fits = true; shortfall = 0 }

abbrev pub missed_by : ℕ → ProbeVerdict
missed_by shortfall = record { fits = false; shortfall = shortfall }

abbrev pub missed_immeasurably : ProbeVerdict
missed_immeasurably = missed_by u64_max

-- `CandidateQuote::affordability`: the `checked_sub` is `None` or `Some(0)` when the debit is at
-- most the balance.
unfoldable pub affordability : CandidateQuote → Msat → ProbeVerdict
affordability (priced cost) spendable =
    if leb (source_debit cost) spendable
    then fitting
    else (missed_by (source_debit cost - spendable))
affordability (unquotable (some shortfall)) spendable = missed_by shortfall
affordability (unquotable none) spendable = missed_immeasurably

unfoldable pub evacuation_cost_fits : FreshMoveCost → Msat → Msat → Bool
evacuation_cost_fits cost fee_cap spendable =
    leb (total_fee cost) fee_cap && leb (source_debit cost) spendable

unfoldable pub fits_cap : FreshMoveCost → EvacFeeCap → Bool
unfolding total_within_cap
fits_cap cost cap =
    total_within_cap cost.receive_quote cost.send_quote (cap_at cap (delivered_net cost))

-- How far the fee is over the cap at what the quote delivers.
abbrev pub cap_gap : CandidateQuote → EvacFeeCap → ℕ
cap_gap (priced cost) cap = total_fee cost - cap_at cap (delivered_net cost)
cap_gap (unquotable shortfall) cap = 0

unfoldable pub combined_verdict : CandidateQuote → EvacFeeCap → Msat → ProbeVerdict
unfolding affordability
combined_verdict quote cap spendable =
    let afforded = affordability quote spendable in
    if afforded.fits && cap_gap quote cap == 0
    then fitting
    else (missed_by (max afforded.shortfall (cap_gap quote cap)))

unfoldable pub keep_cheapest_fitting :
    {T : Type 0} → Option (Msat × T) → Msat × T → Msat → Option (Msat × T)
keep_cheapest_fitting none candidate fee_cap =
    if ltb fee_cap candidate.0 then none else some candidate
keep_cheapest_fitting (some best) candidate fee_cap =
    if ltb fee_cap candidate.0
    then some best
    else (if leb best.0 candidate.0 then some best else some candidate)

unfoldable pub evacuation_cap_rule : Option EvacFeeCap → Msat → EvacFeeCap
evacuation_cap_rule components planned_cap =
    unwrap_or (record { base_msat = planned_cap; bps = 0 }) components

unfoldable pub apply_evacuation_sizing : MoveRecord → EvacFeeCap → Msat → MoveRecord
apply_evacuation_sizing rec cap net = record rec { amount = net; fee_cap = cap_at cap net }

-- A price that the combined check accepts is within the balance, and within the cap at what it
-- delivers.
module _ (cost : FreshMoveCost) (cap : EvacFeeCap) (spendable : Msat) where
  pub combined_fits :
      (combined_verdict (priced cost) cap spendable).fits ≡ true
      → (source_debit cost ≤ spendable) × (total_fee cost ≤ cap_at cap (delivered_net cost))
  unfolding combined_verdict
  combined_fits h = (ground arith, ground arith)

  pub fits_combined :
      source_debit cost ≤ spendable
      → total_fee cost ≤ cap_at cap (delivered_net cost)
      → (combined_verdict (priced cost) cap spendable).fits ≡ true
  unfolding combined_verdict
  fits_combined paid capped = ground arith

  pub within_fits_cap : total_fee cost ≤ cap_at cap (delivered_net cost) → fits_cap cost cap ≡ true
  unfolding fits_cap
  within_fits_cap h = ground arith

  pub within_affordable :
      source_debit cost ≤ spendable → (affordability (priced cost) spendable).fits ≡ true
  unfolding affordability
  within_affordable h = ground arith

  pub fits_cap_within : fits_cap cost cap ≡ true → total_fee cost ≤ cap_at cap (delivered_net cost)
  unfolding fits_cap
  fits_cap_within h = ground arith

  pub affordable_within :
      (affordability (priced cost) spendable).fits ≡ true → source_debit cost ≤ spendable
  unfolding affordability
  affordable_within h = ground arith

pub over_cap :
    (cost : FreshMoveCost) (cap : EvacFeeCap)
    → fits_cap cost cap ≡ false
    → cap_at cap (delivered_net cost) < total_fee cost
unfolding fits_cap
over_cap cost cap h = ground arith
