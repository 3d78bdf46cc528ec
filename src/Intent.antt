-- ===== src/Intent.antt =====
-- Durable intents and the evidence of a refused evacuation (wallet-core/src/executor.rs).
pub mod Lifecycle
pub mod Refusal
use fedimint_wallets.Prelude.{
  ℕ, Bool, true, false, ◌&&◌, ◌||◌, Option, none, ◌++◌, Text, codes, leb, ltb, ◌==◌, ◌+◌, [], ◌∷◌,
  if◌then◌else◌,
}
use fedimint_wallets.Prelude.Print.{decimal}
use fedimint_wallets.Types.Federation.{Msat, EvacFeeCap, cap_at}
use fedimint_wallets.Types.Action.{
  Action, fee_cap, IdempotencyKey, ReasonCode, Actor, AllocatorDecision,
}

pub data IntentStatus : Type 0 where
  pending executing done awaiting failed : IntentStatus

-- `intent_status_transition_allowed`: the pairs of the `matches!`.
unfoldable pub transition_allowed : IntentStatus → IntentStatus → Bool
transition_allowed pending next = true
transition_allowed executing next = true
transition_allowed awaiting awaiting = true
transition_allowed awaiting done = true
transition_allowed awaiting failed = true
transition_allowed done done = true
transition_allowed failed failed = true
transition_allowed _ _ = false

pub record EvacuationQuoteSample : Type 0 where
  pub delivered_net : Msat
  pub total_fee : Msat
  pub sample_cap : Msat

pub record EvacuationRefusalEvidence : Type 0 where
  pub cap_components : EvacFeeCap
  pub requested_net : Msat
  pub source_spendable : Msat
  pub low : EvacuationQuoteSample
  pub high : EvacuationQuoteSample
  pub diagnostic : Text
  pub measured_at_ms : ℕ

-- 32-byte operation ids are read as numbers.
pub record Intent : Type 0 where
  pub idempotency_key : IdempotencyKey
  pub attempt : ℕ
  pub action : Action
  pub max_fee : Option Msat
  pub status : IntentStatus
  pub reason : ReasonCode
  pub actor : Actor
  pub created_at_ms : ℕ
  pub operation_id : Option ℕ
  pub invoice : Option Text
  pub evacuation_refusal : Option EvacuationRefusalEvidence

unfoldable pub from_decision : AllocatorDecision → Actor → ℕ → Intent
from_decision d a now_ms = record {
  idempotency_key = d.idempotency_key;
  attempt = 0;
  action = d.action;
  max_fee = fee_cap d.action;
  status = pending;
  reason = d.reason;
  actor = a;
  created_at_ms = now_ms;
  operation_id = none;
  invoice = none;
  evacuation_refusal = none;
}

-- The bytes that a code point takes in UTF-8, and `String::len` of a text.
unfoldable pub utf8_bytes : ℕ → ℕ
utf8_bytes c = if ltb c 128 then 1 else (if ltb c 2048 then 2 else (if ltb c 65536 then 3 else 4))

unfoldable pub byte_length : Text → ℕ
unfolding utf8_bytes
byte_length [] = 0
byte_length (c ∷ rest) = utf8_bytes c + byte_length rest

-- The key that the SDK's metadata carries: the public one for the first attempt, and
-- `retry:{bytes}:{key}:{attempt}` for a later one.
unfoldable pub operation_correlation_key : Intent → IdempotencyKey
unfolding byte_length
operation_correlation_key i =
    if i.attempt == 0
    then i.idempotency_key
    else (codes "retry:"
        ++ (decimal (byte_length i.idempotency_key)
            ++ (codes ":" ++ (i.idempotency_key ++ (codes ":" ++ decimal i.attempt)))))

-- `evacuation_cap_qualifies_replacement`
unfoldable pub cap_qualifies_replacement : EvacuationRefusalEvidence → EvacFeeCap → Bool
cap_qualifies_replacement e new_cap =
    leb e.cap_components.base_msat new_cap.base_msat
    && (leb e.cap_components.bps new_cap.bps
        && (ltb (cap_at e.cap_components e.low.delivered_net) (cap_at new_cap e.low.delivered_net)
            || ltb (cap_at e.cap_components e.high.delivered_net)
                (cap_at new_cap e.high.delivered_net)))
