-- ===== src/Ledger/Replay.antt =====
-- Writes in sequence: what is settled stays settled, and a write may come twice.
use fedimint_wallets.Prelude.{
  ℕ, ◌≡◌, refl, true, false, not, ◌&&◌, ◌||◌, Option, some, none, List, [], ◌∷◌, Text, unwrap_or,
  or_else, arith, Bool-cases, inl, inr, ap, subst,
}
use fedimint_wallets.Ledger.{
  OperationStatus, started, awaiting, succeeded, failed, OperationKind, join, FeeBreakdown,
  is_authoritative, OperationRecord, RawOpUpdate, WriteKind, is_terminal, same_status, enrich_kind,
  merge_fees, refuses, advanced_kind, advanced_fees, advanced_error, advance,
}

-- One call of `advance`, without the row.
pub record Write : Type 0 where
  pub status : OperationStatus
  pub now_ms : ℕ
  pub upd : Option RawOpUpdate
  pub error : Option Text
  pub write : WriteKind

-- The row after a write: a refused write leaves it alone.
abbrev pub after : OperationRecord → Write → OperationRecord
after r w = unwrap_or r (advance r w.status w.now_ms w.upd w.error w.write)

abbrev pub after_all : OperationRecord → List Write → OperationRecord
after_all r [] = r
after_all r (w ∷ ws) = after_all (after r w) ws

settled_write :
    (r : OperationRecord) (w : Write)
    → is_terminal r.status ≡ true
    → r.repaired ≡ false
    → after r w ≡ r
unfolding advance refuses
settled_write r w t f = rw (t, f) refl

-- A finished row that is no guess is the same after any writes.
pub settled_forever :
    (r : OperationRecord) (ws : List Write)
    → is_terminal r.status ≡ true
    → r.repaired ≡ false
    → after_all r ws ≡ r
settled_forever r [] t f = refl
settled_forever r (w ∷ ws) t f =
    let same = settled_write r w t f in rw same (settled_forever r ws t f)

enrich_kind_twice :
    (k : OperationKind) (u : RawOpUpdate) → enrich_kind (enrich_kind k u) u ≡ enrich_kind k u
unfolding enrich_kind
enrich_kind_twice (join f) u = refl
enrich_kind_twice k u = ground arith

advanced_kind_twice :
    (k : OperationKind) (u : Option RawOpUpdate)
    → advanced_kind (advanced_kind k u) u ≡ advanced_kind k u
unfolding advanced_kind
advanced_kind_twice k none = refl
advanced_kind_twice k (some u) = enrich_kind_twice k u

advanced_fees_twice :
    (f : FeeBreakdown) (u : Option RawOpUpdate)
    → advanced_fees (advanced_fees f u) u ≡ advanced_fees f u
unfolding advanced_fees merge_fees
advanced_fees_twice f none = refl
advanced_fees_twice f (some u) = ground arith

same_status_refl : (s : OperationStatus) → same_status s s ≡ true
unfolding same_status
same_status_refl started = refl
same_status_refl awaiting = refl
same_status_refl succeeded = refl
same_status_refl failed = refl

or_else_self : (o : Option Text) → or_else o o ≡ o
or_else_self none = refl
or_else_self (some x) = refl

or_else_again : (o p : Option Text) → or_else o (or_else o p) ≡ or_else o p
or_else_again none p = refl
or_else_again (some x) p = refl

advanced_error_twice :
    (old s : OperationStatus) (stored incoming : Option Text)
    → is_terminal s ≡ false
    → advanced_error s s (advanced_error old s stored incoming) incoming
      ≡ advanced_error old s stored incoming
unfolding advanced_error
advanced_error_twice old s stored incoming h =
    rw (h, same_status_refl s)
      (elim (Bool-cases (is_terminal old || not (same_status s old))) [
        | inl t ↦ rw t (or_else_self incoming)
        | inr f ↦ rw f (or_else_again incoming stored)
      ])

again_accepted :
    (r : OperationRecord) (s : OperationStatus) (write : WriteKind)
    → is_terminal s ≡ false
    → r.status ≡ s
    → refuses r s write ≡ false
unfolding refuses
again_accepted r s write h e = rw (e, h) (ground arith)

some-injective : {A : Type 0} {a b : A} → some a ≡ some b → a ≡ b
some-injective e = cc

-- The row that an accepted write leaves.
abbrev row :
    OperationRecord
    → OperationStatus
    → ℕ
    → Option RawOpUpdate
    → Option Text
    → WriteKind
    → OperationRecord
row r s now upd error write = record r {
  status = s;
  updated_at_ms = now;
  repaired = not (is_authoritative write) && is_terminal s;
  kind = advanced_kind r.kind upd;
  fees = advanced_fees r.fees upd;
  error = advanced_error r.status s r.error error;
}

module _ (s : OperationStatus) (now : ℕ) (upd : Option RawOpUpdate) (error : Option Text)
    (write : WriteKind) (unfinished : is_terminal s ≡ false) where
  row_again :
      (r : OperationRecord)
      → row (row r s now upd error write) s now upd error write ≡ row r s now upd error write
  row_again r =
      rw
        (
          advanced_kind_twice r.kind upd,
          advanced_fees_twice r.fees upd,
          advanced_error_twice r.status s r.error error unfinished,
        )
        refl

  accepted_again :
      (r : OperationRecord)
      → advance (row r s now upd error write) s now upd error write
        ≡ some (row r s now upd error write)
  unfolding advance
  accepted_again r =
      let open_again = again_accepted (row r s now upd error write) s write unfinished refl in
      rw open_again (ap some (row_again r))

-- A row that has taken a write of an unfinished status takes the same write again, and is the same
-- after it.
pub advance_replay :
    (r : OperationRecord) (s : OperationStatus) (now : ℕ) (upd : Option RawOpUpdate)
    (error : Option Text) (write : WriteKind) (r' : OperationRecord)
    → is_terminal s ≡ false
    → advance r s now upd error write ≡ some r'
    → advance r' s now upd error write ≡ some r'
unfolding advance
advance_replay r s now upd error write r' h e = elim (Bool-cases (refuses r s write)) [
  | inl t ↦ absurd (ground arith)
  | inr f ↦
      let same : row r s now upd error write ≡ r' = some-injective (rw f at e) in
      subst (λ (x : OperationRecord). advance x s now upd error write ≡ some x) same
        (accepted_again s now upd error write h r)
]
