-- ===== src/Ledger/Advance.antt =====
-- What a write does to a row.
use fedimint_wallets.Prelude.{
  ℕ, ◌≤◌, ◌<◌, ◌≡◌, refl, Bool, true, false, not, ◌&&◌, Option, some, none, and_then, Text, ◌⊎◌,
  ◌↔◌, inl, inr, Bool-cases, arith,
}
use fedimint_wallets.Types.Federation.{Msat, GatewayUrl}
use fedimint_wallets.Ledger.{
  OperationStatus, OperationKind, join, recover, receive, pay, direct_inflow, move, refusal, probe,
  tick, discover, auto_join, approve, OperationRecord, RawOpUpdate, WriteKind, authoritative,
  FeeBreakdown, merge_fees, advanced_fees, fill, same_status, repair, is_terminal, status_rank,
  is_authoritative, enrich_kind, refuses, advanced_kind, advanced_error, advance,
}

-- The parts of a kind that no write may touch, with the others blanked.
abbrev pub identity : OperationKind → OperationKind
identity (receive f a op g) = receive f a none none
identity (pay f a h op g) = pay f none none none none
identity (direct_inflow d a op g) = direct_inflow d a none none
identity (move s d a so ro g e) = move s d a so ro none e
identity (join f) = join f
identity (recover f) = recover f
identity (refusal f d) = refusal f d
identity (probe f s a c) = probe f s a c
identity (tick o d p f) = tick o d p f
identity (discover s t f p r) = discover s t f p r
identity (auto_join c j x y z) = auto_join c j x y z
identity (approve f) = approve f

-- The parts that a write may fill, of the kinds that have them.
abbrev pub op_slot : OperationKind → Option (Option ℕ)
op_slot (receive f a op g) = some op
op_slot (pay f a h op g) = some op
op_slot (direct_inflow d a op g) = some op
op_slot _ = none

abbrev pub gateway_slot : OperationKind → Option (Option GatewayUrl)
gateway_slot (receive f a op g) = some g
gateway_slot (pay f a h op g) = some g
gateway_slot (direct_inflow d a op g) = some g
gateway_slot (move s d a so ro g e) = some g
gateway_slot _ = none

abbrev pub hash_slot : OperationKind → Option (Option ℕ)
hash_slot (pay f a h op g) = some h
hash_slot _ = none

abbrev pub amount_slot : OperationKind → Option (Option Msat)
amount_slot (pay f a h op g) = some a
amount_slot _ = none

-- The new value is the one that is brought, and the old one where none is.
abbrev pub IsFilled : {A : Type 0} → Option A → Option A → Option A → Type 0
IsFilled none old new = new ≡ old
IsFilled (some a) old new = new ≡ some a

abbrev pub IsSlotFilled : {A : Type 0} → Option A → Option (Option A) → Option (Option A) → Type 0
IsSlotFilled brought none new = new ≡ none
IsSlotFilled brought (some old) none = ⊥
IsSlotFilled brought (some old) (some new) = IsFilled brought old new

-- What a write without an update brings is nothing.
abbrev pub brings : {A : Type 0} → Option RawOpUpdate → (RawOpUpdate → Option A) → Option A
brings upd field = and_then upd field

pub record IsEnriched (upd : Option RawOpUpdate) (old new : OperationKind) : Type 0 where
  pub same : identity new ≡ identity old
  pub op : IsSlotFilled (brings upd λ u. u.op_id) (op_slot old) (op_slot new)
  pub gateway : IsSlotFilled (brings upd λ u. u.gateway) (gateway_slot old) (gateway_slot new)
  pub hash : IsSlotFilled (brings upd λ u. u.payment_hash) (hash_slot old) (hash_slot new)
  pub amount : IsSlotFilled (brings upd λ u. u.invoice_amount) (amount_slot old) (amount_slot new)

fill-IsFilled : {A : Type 0} (old brought : Option A) → IsFilled brought old (fill old brought)
fill-IsFilled old none = refl
fill-IsFilled old (some a) = refl

slot_kept : {A : Type 0} (slot : Option (Option A)) → IsSlotFilled none slot slot
slot_kept none = refl
slot_kept (some old) = refl

enrich_kind-IsEnriched :
    (kind : OperationKind) (u : RawOpUpdate) → IsEnriched (some u) kind (enrich_kind kind u)
unfolding enrich_kind
enrich_kind-IsEnriched (receive f a op g) u = record {
  same = refl;
  op = fill-IsFilled op u.op_id;
  gateway = fill-IsFilled g u.gateway;
  hash = refl;
  amount = refl;
}
enrich_kind-IsEnriched (pay f a h op g) u = record {
  same = refl;
  op = fill-IsFilled op u.op_id;
  gateway = fill-IsFilled g u.gateway;
  hash = fill-IsFilled h u.payment_hash;
  amount = fill-IsFilled a u.invoice_amount;
}
enrich_kind-IsEnriched (direct_inflow d a op g) u = record {
  same = refl;
  op = fill-IsFilled op u.op_id;
  gateway = fill-IsFilled g u.gateway;
  hash = refl;
  amount = refl;
}
enrich_kind-IsEnriched (move s d a so ro g e) u = record {
  same = refl;
  op = refl;
  gateway = fill-IsFilled g u.gateway;
  hash = refl;
  amount = refl;
}
enrich_kind-IsEnriched kind u = record {
  same = refl;
  op = refl;
  gateway = refl;
  hash = refl;
  amount = refl;
}

advanced_kind-IsEnriched :
    (kind : OperationKind) (upd : Option RawOpUpdate) → IsEnriched upd kind (advanced_kind kind upd)
unfolding advanced_kind
advanced_kind-IsEnriched kind none = record {
  same = refl;
  op = slot_kept (op_slot kind);
  gateway = slot_kept (gateway_slot kind);
  hash = slot_kept (hash_slot kind);
  amount = slot_kept (amount_slot kind);
}
advanced_kind-IsEnriched kind (some u) = enrich_kind-IsEnriched kind u

-- A fee under an update: a definitive one replaces it, also by nothing.
abbrev pub IsCharged : Bool → Option Msat → Option Msat → Option Msat → Type 0
IsCharged true brought old new = new ≡ brought
IsCharged false brought old new = IsFilled brought old new

-- The fees under a write. The cap is only ever filled.
abbrev pub IsMerged : Option FeeBreakdown → Bool → FeeBreakdown → FeeBreakdown → Type 0
IsMerged none definitive old new = new ≡ old
IsMerged (some f) definitive old new =
    IsFilled f.fee_cap old.fee_cap new.fee_cap
    × IsCharged definitive f.receive_fee old.receive_fee new.receive_fee
    × IsCharged definitive f.send_fee_quoted old.send_fee_quoted new.send_fee_quoted

abbrev pub is_definitive : Option RawOpUpdate → Bool
is_definitive none = false
is_definitive (some u) = u.fees_definitive

merge_fees-IsMerged :
    (old f : FeeBreakdown) (definitive : Bool)
    → IsMerged (some f) definitive old (merge_fees old f definitive)
unfolding merge_fees
merge_fees-IsMerged old f true = (fill-IsFilled old.fee_cap f.fee_cap, refl, refl)
merge_fees-IsMerged old f false = (
  fill-IsFilled old.fee_cap f.fee_cap,
  fill-IsFilled old.receive_fee f.receive_fee,
  fill-IsFilled old.send_fee_quoted f.send_fee_quoted,
)

advanced_fees-IsMerged :
    (old : FeeBreakdown) (upd : Option RawOpUpdate)
    → IsMerged (brings upd λ u. u.fees) (is_definitive upd) old (advanced_fees old upd)
unfolding advanced_fees
advanced_fees-IsMerged old none = refl
advanced_fees-IsMerged old (some u) = brought u.fees u.fees_definitive
  where
    brought :
        (fees : Option FeeBreakdown) (definitive : Bool)
        → IsMerged fees definitive old
            (elim fees [ none ↦ old | some f ↦ merge_fees old f definitive ])
    brought none definitive = refl
    brought (some f) definitive = merge_fees-IsMerged old f definitive

-- What becomes of a row under a write: refused, or carried forward.
pub record IsAdvanced (r : OperationRecord) (s : OperationStatus) (now : ℕ)
    (upd : Option RawOpUpdate) (error : Option Text) (write : WriteKind) (r' : OperationRecord)
    : Type 0 where
  pub entry : (r'.seq ≡ r.seq) × (r'.correlation_key ≡ r.correlation_key)
  pub author : (r'.actor ≡ r.actor) × (r'.reason ≡ r.reason)
  pub times : (r'.created_at_ms ≡ r.created_at_ms) × (r'.updated_at_ms ≡ now)
  pub status_set : r'.status ≡ s
  pub kind_filled : IsEnriched upd r.kind r'.kind
  pub fees_merged : IsMerged (brings upd λ u. u.fees) (is_definitive upd) r.fees r'.fees
  pub forward :
      ((is_terminal r.status ≡ false) × (status_rank r.status ≤ status_rank s))
      ⊎ ((is_terminal r.status ≡ true) × (r.repaired ≡ true) × (write ≡ authoritative))
  pub guess : (r'.repaired ≡ true) ↔ ((write ≡ repair) × (is_terminal s ≡ true))
  pub outcome : (is_terminal r.status ≡ true) ⊎ (same_status s r.status ≡ false) → r'.error ≡ error
  pub diagnosis :
      is_terminal r.status ≡ false → same_status s r.status ≡ true → IsFilled error r.error r'.error

-- The outcome of a write: a refusal, of a settled row or of a step back, or the row carried on.
abbrev pub IsOutcome :
    OperationRecord
    → OperationStatus
    → ℕ
    → Option RawOpUpdate
    → Option Text
    → WriteKind
    → Option OperationRecord
    → Type 0
IsOutcome r s now upd error write none =
    ((is_terminal r.status ≡ true) × ((r.repaired ≡ false) ⊎ (write ≡ repair)))
    ⊎ ((is_terminal r.status ≡ false) × (status_rank s < status_rank r.status))
IsOutcome r s now upd error write (some r') = IsAdvanced r s now upd error write r'

refusal_lem :
    (r : OperationRecord) (s : OperationStatus) (now : ℕ) (upd : Option RawOpUpdate)
    (error : Option Text) (write : WriteKind)
    → refuses r s write ≡ true
    → IsOutcome r s now upd error write none
unfolding refuses
refusal_lem r s now upd error authoritative h = elim (Bool-cases (is_terminal r.status)) [
  | inl t ↦ inl (t, inl (ground arith))
  | inr f ↦ inr (f, ground arith)
]
refusal_lem r s now upd error repair h = elim (Bool-cases (is_terminal r.status)) [
  | inl t ↦ inl (t, inr refl)
  | inr f ↦ inr (f, ground arith)
]

accepted_lem :
    (r : OperationRecord) (s : OperationStatus) (write : WriteKind)
    → refuses r s write ≡ false
    → ((is_terminal r.status ≡ false) × (status_rank r.status ≤ status_rank s))
      ⊎ ((is_terminal r.status ≡ true) × (r.repaired ≡ true) × (write ≡ authoritative))
unfolding refuses
accepted_lem r s authoritative h = elim (Bool-cases (is_terminal r.status)) [
  | inl t ↦ inr (t, ground arith, refl)
  | inr f ↦ inl (f, ground arith)
]
accepted_lem r s repair h = elim (Bool-cases (is_terminal r.status)) [
  | inl t ↦ absurd (ground arith)
  | inr f ↦ inl (f, ground arith)
]

guess_lem :
    (s : OperationStatus) (write : WriteKind)
    → ((not (is_authoritative write) && is_terminal s) ≡ true)
      ↔ ((write ≡ repair) × (is_terminal s ≡ true))
guess_lem s authoritative = (λ h. ground arith, λ h. ground arith)
guess_lem s repair = (λ h. (refl, h), λ h. h.1)

outcome_lem :
    (old s : OperationStatus) (stored incoming : Option Text)
    → (is_terminal old ≡ true) ⊎ (same_status s old ≡ false)
    → advanced_error old s stored incoming ≡ incoming
unfolding advanced_error
outcome_lem old s stored incoming (inl t) = rw t refl
outcome_lem old s stored incoming (inr f) = ground arith

diagnosis_lem :
    (old s : OperationStatus) (stored incoming : Option Text)
    → is_terminal old ≡ false
    → same_status s old ≡ true
    → IsFilled incoming stored (advanced_error old s stored incoming)
unfolding advanced_error
diagnosis_lem old s stored incoming f same = rw (f, same) (fill-IsFilled stored incoming)

-- A write is refused exactly where the row is settled, or a guess and the write a repair, or where
-- its status would step back from an unfinished one. Else the row keeps its number, key, author,
-- reason, creation and parties, and takes the status. Of the operation id, the gateway, the hash and
-- a payment's amount, each that its kind has is the one that the write brings, or what it was. So is
-- the fee cap; the other two fees too, but a definitive update with fees replaces them outright. The
-- error is exactly the new one if the status changes or a guess is superseded, and else the new one
-- or what it was. The row is a guess exactly if a repair finished it.
pub advance-IsOutcome :
    (r : OperationRecord) (s : OperationStatus) (now : ℕ) (upd : Option RawOpUpdate)
    (error : Option Text) (write : WriteKind)
    → IsOutcome r s now upd error write (advance r s now upd error write)
unfolding advance
advance-IsOutcome r s now upd error write = elim (Bool-cases (refuses r s write)) [
  | inl t ↦ rw t (refusal_lem r s now upd error write t)
  | inr f ↦ rw f (record {
    entry = (refl, refl);
    author = (refl, refl);
    times = (refl, refl);
    status_set = refl;
    kind_filled = advanced_kind-IsEnriched r.kind upd;
    fees_merged = advanced_fees-IsMerged r.fees upd;
    forward = accepted_lem r s write f;
    guess = guess_lem s write;
    outcome = outcome_lem r.status s r.error error;
    diagnosis = diagnosis_lem r.status s r.error error;
  })
]
