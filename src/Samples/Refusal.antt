-- ===== src/Samples/Refusal.antt =====
-- A structural refusal and its replacement at a concrete input.
use fedimint_wallets.Prelude.{true, none, some, [], ◌≡◌, refl, Text, codes, arith, unwrap_or}
use fedimint_wallets.Types.Federation.{Msat, EvacFeeCap, cap_at}
use fedimint_wallets.Types.Action.{Action, agent, ReasonCode}
use fedimint_wallets.Fee.{solve_between, bracket, forward, fee_on, bisect, solved, choose}
use fedimint_wallets.Intent.{
  EvacuationRefusalEvidence, Intent, IntentStatus, cap_qualifies_replacement,
}
use fedimint_wallets.Intent.Refusal.{assess_evacuation_structural_refusal}
use fedimint_wallets.Journal.{ok}
use fedimint_wallets.Executor.Run.{value, Run}
use fedimint_wallets.Executor.Cost.{FreshMoveCost, CandidateQuote, evacuation_cap_rule}
use fedimint_wallets.Executor.Boundary.{oscillation_bound}
use fedimint_wallets.Executor.Diagnosis.{
  structural_refused, structural_refusal_cause, sample_of, refusal_evidence,
}
use fedimint_wallets.Executor.Evacuation.{size_evacuation}
use fedimint_wallets.Executor.Fresh.{FreshSendRequiredGatewayFees, quote_fresh_send_required_cost}
use fedimint_wallets.Replacement.{validate_marked_evacuation_evidence}
use fedimint_wallets.Replacement.Accepts.{accepts_refusal}
use fedimint_wallets.Samples.Sizing.{gateway_fee, sdk, sdk-IsTotalSdk}

-- A cap without a rate, below the fixed part of the fees.
abbrev low_cap : EvacFeeCap
low_cap = record { base_msat = 100; bps = 0 }

abbrev fees : FreshSendRequiredGatewayFees
fees = record { recv = gateway_fee; send = gateway_fee }

abbrev quote : Msat → Run (Unit {0}) CandidateQuote
quote = quote_fresh_send_required_cost sdk 1 2 fees

abbrev low_cost : FreshMoveCost
low_cost = record { invoice_amount = 5155; receive_quote = 155; send_quote = 155 }

abbrev high_cost : FreshMoveCost
high_cost = record { invoice_amount = 50200; receive_quote = 200; send_quote = 200 }

abbrev cause : Text
cause =
    unwrap_or []
      (structural_refusal_cause low_cap (sample_of low_cap low_cost) (sample_of low_cap high_cost))

abbrev evidence : EvacuationRefusalEvidence
evidence = refusal_evidence quote 5000 50000 100000 low_cap 7 50000 low_cost high_cost cause

refused_run :
    size_evacuation quote 5000 50000 100000 low_cap 7 tt ≡ (value (structural_refused evidence), tt)
unfolding size_evacuation quote_fresh_send_required_cost structural_refusal_cause solve_between
    bracket forward fee_on bisect solved choose cap_at oscillation_bound
    assess_evacuation_structural_refusal
refused_run = refl

abbrev parent : Intent
parent = record {
  idempotency_key = codes "evac";
  attempt = 0;
  action = Action.evacuate 1 2 60000 100 none (some low_cap);
  max_fee = some 100;
  status = IntentStatus.pending;
  reason = ReasonCode.shutdown_notice;
  actor = agent 3;
  created_at_ms = 0;
  operation_id = none;
  invoice = none;
  evacuation_refusal = some evidence;
}

abbrev higher_cap : EvacFeeCap
higher_cap = record { base_msat = 1000; bps = 0 }

qualifies : cap_qualifies_replacement evidence higher_cap ≡ true
unfolding cap_qualifies_replacement cap_at
qualifies = refl

accepts_refusal_example :
    validate_marked_evacuation_evidence parent
      (evacuation_cap_rule (some low_cap) 100)
      evidence
      (some higher_cap)
      60000
      (cap_at higher_cap 60000)
    ≡ ok tt
unfolding evacuation_cap_rule
accepts_refusal_example =
    accepts_refusal sdk sdk-IsTotalSdk (omega arith) 1 2 fees 50000 100000 parent 1 2 60000 100 none
      (some low_cap) 7 tt tt evidence refused_run (omega arith) (omega arith) refl refl
      (omega arith) higher_cap 60000 qualifies
