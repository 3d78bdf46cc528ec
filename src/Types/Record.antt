-- ===== src/Types/Record.antt =====
-- The durable artifacts of a move (`MovePhase` and `MoveRecord` of wallet-core/src/types.rs).
use fedimint_wallets.Prelude.{ℕ, Bool, Option, Text}
use fedimint_wallets.Types.Federation.{FederationId, Msat, GatewayUrl}
use fedimint_wallets.Types.Action.{IdempotencyKey}

pub data MovePhase : Type 0 where
  created invoiced sending settled refunded failed stranded : MovePhase

-- 32-byte operation ids and preimages are read as numbers.
pub record MoveRecord : Type 0 where
  pub key : IdempotencyKey
  pub source : Option FederationId
  pub dest : FederationId
  pub amount : Msat
  pub fee_cap : Msat
  pub gateway : GatewayUrl
  pub send_required : Bool
  pub invoice : Option Text
  pub recv_op : Option ℕ
  pub send_op : Option ℕ
  pub phase : MovePhase
  pub outcome : Option Text
  pub preimage : Option ℕ
  pub receive_fee_quoted : Option Msat
  pub send_fee_quoted : Option Msat
