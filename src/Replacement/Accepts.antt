-- ===== src/Replacement/Accepts.antt =====
-- What the executor measures, the journal accepts.
use fedimint_wallets.Prelude.{
  ℕ, ◌≤◌, ◌<◌, true, false, Option, some, ◌≡◌, refl, Text, arith, u64_max, subst, sym, ltb, lt→ltb,
  leb, ◌==◌,
}
use fedimint_wallets.Prelude.Print.{concat}
use fedimint_wallets.Types.Federation.{FederationId, Msat, GatewayUrl, EvacFeeCap, cap_at}
use fedimint_wallets.Types.Action.{Action, evacuate}
use fedimint_wallets.Intent.{EvacuationRefusalEvidence, Intent, cap_qualifies_replacement}
use fedimint_wallets.Intent.Refusal.{
  assess_evacuation_structural_refusal, assessed_in_order, structural_low_over,
}
use fedimint_wallets.Journal.{ok}
use fedimint_wallets.Executor.Run.{Run, Answers, value}
use fedimint_wallets.Executor.Cost.{
  FreshMoveCost, CandidateQuote, priced, delivered_net, total_fee, source_debit,
  evacuation_cap_rule,
}
use fedimint_wallets.Executor.Diagnosis.{
  structural_refused, sample_of, refusal_evidence, diagnostic_text,
}
use fedimint_wallets.Executor.Diagnosis.Measured.{IsMeasured, IsStructural, cause-IsStructural}
use fedimint_wallets.Executor.Evacuation.{size_evacuation}
use fedimint_wallets.Executor.Evacuation.Worth.{size_evacuation-IsWorth}
use fedimint_wallets.Executor.Fresh.{
  Sdk, FreshSendRequiredGatewayFees, quote_fresh_send_required_cost,
}
use fedimint_wallets.Executor.Fresh.Priced.{IsTotalSdk, quote-IsTotal, quoted_within}
use fedimint_wallets.Replacement.{
  is_empty, same_cap, validate_components, validate_evacuate, sample_is_sensible, is_justified,
  describes_parent, validate_marked_evacuation_evidence,
}

diagnostic_filled :
    (cap : EvacFeeCap) (hint : Msat) (high : FreshMoveCost) (cause : Text)
    → is_empty (diagnostic_text cap hint high cause) ≡ false
unfolding concat
diagnostic_filled cap hint high cause = refl

same_cap_refl : (cap : EvacFeeCap) → same_cap cap cap ≡ true
same_cap_refl cap = ground arith

-- The checks of an evacuation's parent, when each holds.
validated :
    (act : Action) (fee : Option Msat) (s d : FederationId) (amount c : Msat)
    (g : Option GatewayUrl) (k : Option EvacFeeCap) (cap nc : EvacFeeCap)
    (e : EvacuationRefusalEvidence) (new_amount : Msat)
    → act ≡ evacuate s d amount c g k
    → fee ≡ some c
    → describes_parent cap e amount ≡ true
    → is_justified cap e nc ≡ true
    → validate_evacuate act fee cap e (some nc) new_amount (cap_at nc new_amount) ≡ ok tt
unfolding validate_evacuate validate_components
validated act fee s d amount c g k cap nc e new_amount a f described justified =
    let same : (c == c) ≡ true = ground arith in
    let same_new : (cap_at nc new_amount == cap_at nc new_amount) ≡ true = ground arith in
    rw (a, f, same, same_new, described, justified) refl

module _ {W : Type 0} (quote : Msat → Run W CandidateQuote) (floor desired spendable : Msat)
    (cap : EvacFeeCap) where
  -- One sample.
  sample_sensible :
      (e : EvacuationRefusalEvidence) (cost : FreshMoveCost)
      → e.requested_net ≡ desired
      → e.source_spendable ≡ spendable
      → spendable < u64_max
      → source_debit cost ≤ spendable
      → 0 < delivered_net cost
      → delivered_net cost ≤ desired
      → cap_at cap (delivered_net cost) < total_fee cost
      → sample_is_sensible cap e (sample_of cap cost) ≡ true
  unfolding sample_is_sensible
  sample_sensible e cost req spent small paid positive within over = ground arith

  -- No quote delivers more than was asked for.
  abbrev pub IsNeverOver : Type 0
  IsNeverOver =
      (a : Msat) (cost : FreshMoveCost) (u : W)
      → Answers (quote a) (priced cost) u
      → delivered_net cost ≤ a

  module _ (e : EvacuationRefusalEvidence) (w : W)
      (m : IsMeasured quote floor desired spendable cap e w) (small : spendable < u64_max)
      (never_over : IsNeverOver) (positive : 0 < e.low.delivered_net) where
    low_positive : 0 < delivered_net m.low
    low_positive = rw m.is_evidence at positive

    assessed :
        IsStructural
          (assess_evacuation_structural_refusal cap (sample_of cap m.low) (sample_of cap m.high))
    assessed = cause-IsStructural cap m.low m.high m.cause m.has_cause

    in_order : delivered_net m.low < delivered_net m.high
    in_order =
        assessed_in_order cap (sample_of cap m.low) (sample_of cap m.high) assessed.0 assessed.1

    high_within : delivered_net m.high ≤ desired
    high_within =
        omega (arith, never_over m.hint m.high m.high_asked.0 m.high_asked.1, m.hint_within)

    low_over : cap_at cap (delivered_net m.low) < total_fee m.low
    low_over =
        structural_low_over cap (sample_of cap m.low) (sample_of cap m.high) assessed.0 assessed.1
          assessed.2 (omega arith) m.high_over

    abbrev measured : EvacuationRefusalEvidence
    measured =
        refusal_evidence quote floor desired spendable cap m.now_ms m.hint m.low m.high m.cause

    measured_justified :
        (nc : EvacFeeCap)
        → cap_qualifies_replacement measured nc ≡ true
        → is_justified cap measured nc ≡ true
    unfolding is_justified
    measured_justified nc q =
        let low_fine : sample_is_sensible cap measured (sample_of cap m.low) ≡ true =
          sample_sensible measured m.low refl refl small m.low_paid low_positive
            (omega (arith, in_order, high_within)) low_over in
        let high_fine : sample_is_sensible cap measured (sample_of cap m.high) ≡ true =
          sample_sensible measured m.high refl refl small m.high_paid (omega (arith, in_order))
            high_within m.high_over in
        let up : ltb (delivered_net m.low) (delivered_net m.high) ≡ true =
          lt→ltb (delivered_net m.low) (delivered_net m.high) in_order in
        rw (low_fine, high_fine, up, assessed.1, assessed.2, q) refl

    measured_describes :
        (amount : Msat) → desired ≤ amount → describes_parent cap measured amount ≡ true
    unfolding describes_parent
    measured_describes amount le =
        let pos : (desired == 0) ≡ false = ground (arith, in_order, high_within) in
        let room : leb desired amount ≡ true = ground arith in
        rw (same_cap_refl cap, pos, room, diagnostic_filled cap m.hint m.high m.cause) refl

  -- The evidence of a structural refusal passes the journal's checks, for a parent that the sizing was
  -- of and a new cap that is a qualifying increase.
  accepts_measured :
      (e : EvacuationRefusalEvidence) (w : W)
      → IsMeasured quote floor desired spendable cap e w
      → spendable < u64_max
      → IsNeverOver
      → 0 < e.low.delivered_net
      → (old : Intent) (s d : FederationId) (amount old_fee_cap : Msat) (g : Option GatewayUrl)
        (k : Option EvacFeeCap)
      → old.action ≡ evacuate s d amount old_fee_cap g k
      → old.max_fee ≡ some old_fee_cap
      → desired ≤ amount
      → (nc : EvacFeeCap) (new_amount : Msat) → cap_qualifies_replacement e nc ≡ true
      → validate_marked_evacuation_evidence old cap e (some nc) new_amount (cap_at nc new_amount)
        ≡ ok tt
  unfolding validate_marked_evacuation_evidence
  accepts_measured e w m small never_over positive old s d amount c g k act fee le nc new_amount q =
      subst
        (λ (x : EvacuationRefusalEvidence).
          validate_marked_evacuation_evidence old cap x (some nc) new_amount (cap_at nc new_amount)
          ≡ ok tt)
        (sym m.is_evidence)
        (validated old.action old.max_fee s d amount c g k cap nc
          (measured e w m small never_over positive) new_amount act fee
          (measured_describes e w m small never_over positive amount le)
          (measured_justified e w m small never_over positive nc (rw m.is_evidence at q)))

-- The evidence of a sizing that ended in a structural refusal, over live quotes.
module _ {W : Type 0} (sdk : Sdk W) (total : IsTotalSdk sdk)
    (floor : 1 ≤ sdk.minimum_incoming_contract) (source dest : FederationId)
    (fees : FreshSendRequiredGatewayFees) where
  -- Over SDK calls that end but may answer differently each time and a positive contract minimum:
  -- if sizing an evacuation under the fee cap of its intent ends in a structural refusal, the
  -- balance is below the largest 64-bit number, the low sample delivers something and the ask was
  -- at most the intent's amount, then the journal accepts this evidence for replacing the intent,
  -- whose recorded fee limit is its action's, by one under any cap that qualifies.
  pub accepts_refusal :
      (desired spendable : Msat) (old : Intent) (s d : FederationId) (amount c : Msat)
      (g : Option GatewayUrl) (k : Option EvacFeeCap) (now_ms : ℕ) (w w' : W)
      (e : EvacuationRefusalEvidence)
      → size_evacuation
          (quote_fresh_send_required_cost sdk source dest fees)
          sdk.minimum_incoming_contract
          desired
          spendable
          (evacuation_cap_rule k c)
          now_ms
          w
        ≡ (value (structural_refused e), w')
      → spendable < u64_max
      → 0 < e.low.delivered_net
      → old.action ≡ evacuate s d amount c g k
      → old.max_fee ≡ some c
      → desired ≤ amount
      → (nc : EvacFeeCap) (new_amount : Msat) → cap_qualifies_replacement e nc ≡ true
      → validate_marked_evacuation_evidence old
          (evacuation_cap_rule k c)
          e
          (some nc)
          new_amount
          (cap_at nc new_amount)
        ≡ ok tt
  accepts_refusal desired spendable old s d amount c g k now_ms w w' e run small positive act fee le
        nc new_amount q =
      accepts_measured quote sdk.minimum_incoming_contract desired spendable
        (evacuation_cap_rule k c) e w'
        (rw run at (
          size_evacuation-IsWorth quote (quote-IsTotal sdk total source dest fees)
            sdk.minimum_incoming_contract desired spendable (evacuation_cap_rule k c) now_ms w
            floor))
        small (quoted_within sdk total source dest fees) positive old s d amount c g k act fee le nc
        new_amount q
    where
      quote : Msat → Run W CandidateQuote
      quote = quote_fresh_send_required_cost sdk source dest fees
