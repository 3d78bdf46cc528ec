-- ===== src/Types/Action.antt =====
-- Actions, the reasons for them, and the allocator's decisions (wallet-core/src/types.rs).
use fedimint_wallets.Prelude.{ℕ, Bool, true, false, ◌||◌, Option, some, none, Text, is_some}
use fedimint_wallets.Types.Federation.{FederationId, Msat, Occurrence, GatewayUrl, EvacFeeCap}

abbrev pub IdempotencyKey : Type 0
IdempotencyKey = Text

pub data ReasonCode : Type 0 where
  spending_below_target standby_below_target shutdown_notice unhealthy over_cap not_probed
        low_reputation uneconomic_route user_initiated active_probe standing_instruction :
      ReasonCode

pub record RefusalDiagnostics : Type 0 where
  pub source : Option FederationId
  pub want : Option Msat
  pub available : Option Msat
  pub source_spendable : Option Msat
  pub max_fee : Option Msat
  pub max_fee_bps : Option ℕ
  pub cap_room : Option Msat
  pub amount : Option Msat
  pub conflict_suppressed : Bool
  pub min_move : Option Msat

unfoldable pub default_diagnostics : RefusalDiagnostics
default_diagnostics = record {
  source = none;
  want = none;
  available = none;
  source_spendable = none;
  max_fee = none;
  max_fee_bps = none;
  cap_room = none;
  amount = none;
  conflict_suppressed = false;
  min_move = none;
}

unfoldable pub is_populated : RefusalDiagnostics → Bool
is_populated d =
    is_some d.source
    || (is_some d.want
        || (is_some d.available
            || (is_some d.source_spendable
                || (is_some d.max_fee
                    || (is_some d.max_fee_bps
                        || (is_some d.cap_room
                            || (is_some d.amount
                                || (d.conflict_suppressed || is_some d.min_move))))))))

pub data Action : Type 0 where
  direct_inflow : (dest : FederationId) (amount fee_cap : Msat) → Action
  move : (source dest : FederationId) (amount fee_cap : Msat) (gateway : Option GatewayUrl) → Action
  evacuate :
      (source dest : FederationId) (amount fee_cap : Msat) (gateway : Option GatewayUrl)
      (fee_cap_components : Option EvacFeeCap)
      → Action
  pay :
      (source : FederationId) (invoice : Text) (amount fee_cap : Msat) (payment_hash : ℕ)
      (gateway : Option GatewayUrl)
      → Action
  receive :
      (dest : FederationId) (amount fee_cap : Msat) (nonce : Text) (gateway : Option GatewayUrl)
      → Action
  join : (federation : FederationId) (invite : Text) (membership_preexisting : Bool) → Action
  recover : (federation : FederationId) (invite : Text) → Action
  refuse_inflow :
      (fed : FederationId) (reason : ReasonCode) (diagnostics : RefusalDiagnostics) → Action

unfoldable pub is_executable : Action → Bool
is_executable (direct_inflow d a c) = true
is_executable (move s d a c g) = true
is_executable (evacuate s d a c g k) = true
is_executable (pay s i a c h g) = true
is_executable (receive d a c n g) = true
is_executable (join f i m) = true
is_executable (recover f i) = true
is_executable (refuse_inflow f r d) = false

unfoldable pub fee_cap : Action → Option Msat
fee_cap (direct_inflow d a c) = some c
fee_cap (move s d a c g) = some c
fee_cap (evacuate s d a c g k) = some c
fee_cap (pay s i a c h g) = some c
fee_cap (receive d a c n g) = some c
fee_cap (join f i m) = none
fee_cap (recover f i) = none
fee_cap (refuse_inflow f r d) = none

-- `Actor` of ledger.rs.
pub data Actor : Type 0 where
  user : Actor
  agent : (occurrence : Occurrence) → Actor

pub record AllocatorDecision : Type 0 where
  pub action : Action
  pub reason : ReasonCode
  pub occurrence : Occurrence
  pub idempotency_key : IdempotencyKey
