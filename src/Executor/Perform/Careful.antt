-- ===== src/Executor/Perform/Careful.antt =====
-- What a careful trail of a move is: the journal has the quotes of each leg before it is begun.
use fedimint_wallets.Prelude.{
  Bool, true, false, Option, some, none, List, [], ◌∷◌, Text, ◌≡◌, ◌≤◌, ◌-◌, any, is_some,
  sat_add64,
}
use fedimint_wallets.Types.Federation.{FederationId, Msat}
use fedimint_wallets.Types.Record.{MovePhase, settled, MoveRecord}
use fedimint_wallets.Drive.{PerformOutcome, completed, awaiting, awaiting_already_in_flight}
use fedimint_wallets.Executor.Perform.Calls.{MoveMeta, Event, stored, minted, paid}

-- The record that the last event stored.
abbrev pub latest : List Event → Option MoveRecord
latest (stored rec ∷ rest) = some rec
latest _ = none

abbrev pub is_mint : Event → Bool
is_mint (minted amount meta) = true
is_mint _ = false

abbrev pub is_payment : Event → Bool
is_payment (paid source invoice meta) = true
is_payment _ = false

-- An invoice is asked for only once and before any payment, right after the journal has the record
-- with the quote of the receive leg. The quote is within the cap that the operation carries, which
-- delivers the invoice less the quote, and at most what the record asks for.
pub record IsMint (earlier : List Event) (invoice_amount : Msat) (meta : MoveMeta) : Type 0 where
  pub rec : MoveRecord
  pub journaled : latest earlier ≡ some rec
  pub quote : Msat
  pub quoted : rec.receive_fee_quoted ≡ some quote
  pub delivers : meta.amount ≡ invoice_amount - quote
  pub within_ask : meta.amount ≤ rec.amount
  pub cap : Msat
  pub capped : meta.fee_cap ≡ some cap
  pub within_cap : sat_add64 quote 0 ≤ cap
  pub first : any is_mint earlier ≡ false
  pub unpaid : any is_payment earlier ≡ false

-- A payment is asked for only once, right after the journal has the record with the quotes of both
-- legs. It is of the record's invoice; the fees are within the record's cap, and for an evacuation
-- within what it delivers.
pub record IsPayment (evacuates : Bool) (earlier : List Event) (source : FederationId)
    (invoice : Text) (meta : MoveMeta) : Type 0 where
  pub rec : MoveRecord
  pub journaled : latest earlier ≡ some rec
  pub sends : rec.send_required ≡ true
  pub of_invoice : rec.invoice ≡ some invoice
  pub of_source : rec.source ≡ some source
  pub receive_quote : Msat
  pub send_quote : Msat
  pub receive_quoted : rec.receive_fee_quoted ≡ some receive_quote
  pub send_quoted : rec.send_fee_quoted ≡ some send_quote
  pub within_cap : sat_add64 receive_quote send_quote ≤ rec.fee_cap
  pub worth : evacuates ≡ true → sat_add64 receive_quote send_quote ≤ rec.amount
  pub same_amount : meta.amount ≡ rec.amount
  pub same_cap : meta.fee_cap ≡ some rec.fee_cap
  pub first : any is_payment earlier ≡ false

abbrev pub IsCareful : Bool → List Event → Type 0
IsCareful evacuates [] = Unit
IsCareful evacuates (stored rec ∷ t) = IsCareful evacuates t
IsCareful evacuates (minted amount meta ∷ t) = IsMint t amount meta × IsCareful evacuates t
IsCareful evacuates (paid source invoice meta ∷ t) =
    IsPayment evacuates t source invoice meta × IsCareful evacuates t

abbrev pub is_settled : MovePhase → Bool
is_settled settled = true
is_settled _ = false

-- What holds of a record in the loop beside its trail.
pub record IsUnderway (evacuates : Bool) (rec : MoveRecord) (t : List Event) : Type 0 where
  pub careful : IsCareful evacuates t
  pub unminted : is_some rec.invoice ≡ false → any is_mint t ≡ false
  pub unpaid : is_some rec.send_op ≡ false → any is_payment t ≡ false
  pub external : rec.send_required ≡ false → any is_payment t ≡ false
  pub filed : is_settled rec.phase ≡ true → latest t ≡ some rec

-- A drive that completes has put a settled record into the journal last.
pub record IsCompleted (t : List Event) : Type 0 where
  pub rec : MoveRecord
  pub journaled : latest t ≡ some rec
  pub is_settled : is_settled rec.phase ≡ true

-- How a drive ends that does not fail; one that awaits an external payer has not paid.
abbrev pub IsEnd : Bool → PerformOutcome → List Event → Type 0
IsEnd evacuates completed t = IsCareful evacuates t × IsCompleted t
IsEnd evacuates awaiting t = IsCareful evacuates t × (any is_payment t ≡ false)
IsEnd evacuates awaiting_already_in_flight t = ⊥
