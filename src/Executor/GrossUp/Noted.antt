-- ===== src/Executor/GrossUp/Noted.antt =====
-- The invoice that a receive settles on, with the quotes of the run noted as they come.
use fedimint_wallets.Prelude.{List, [], ◌∷◌, In, inl, inr, refl}
use fedimint_wallets.Types.Federation.{Msat}
use fedimint_wallets.Fee.{GatewayFee}
use fedimint_wallets.Executor.Run.{Outcome, value, fault, out_of_fuel, Run, Returns, IsTotal}
use fedimint_wallets.Executor.GrossUp.{resolve_receive_gross_up}
use fedimint_wallets.Executor.GrossUp.Verified.{IsVerified, IsRecord}
use fedimint_wallets.Executor.GrossUp.Settled.{gross_up-IsVerified}

-- A quote's contract and its answer, the latest first.
abbrev pub Notes : Type 0
Notes = List (Msat × Msat)

abbrev pub note : {W : Type 0} → Msat → Notes → Outcome Msat × W → Outcome Msat × (Notes × W)
note c notes (value fee, w) = (value fee, ((c, fee) ∷ notes, w))
note c notes (fault e, w) = (fault e, (notes, w))
note c notes (out_of_fuel, w) = (out_of_fuel, (notes, w))

-- The same quotes, each noted.
abbrev pub noted : {W : Type 0} → (Msat → Run W Msat) → Msat → Run (Notes × W) Msat
noted quote c (notes, w) = note c notes (quote c w)

-- The quote of a contract is in the notes.
abbrev pub IsNoted : {W : Type 0} → Notes × W → Msat → Msat → Type 0
IsNoted (notes, w) c fee = In (c, fee) notes

module _ {W : Type 0} (quote : Msat → Run W Msat) (total : (c : Msat) → IsTotal (quote c)) where
  note_enters :
      (c : Msat) (notes : Notes) (r : Outcome Msat × W)
      → Returns (λ x w. Unit {0}) r
      → Returns (λ fee u. IsNoted u c fee) (note c notes r)
  note_enters c notes (value fee, w) ends = inl refl
  note_enters c notes (fault e, w) ends = tt
  note_enters c notes (out_of_fuel, w) ends = ends

  note_keeps :
      (c fee d : Msat) (notes : Notes) (r : Outcome Msat × W)
      → In (c, fee) notes
      → Returns (λ x w. Unit {0}) r
      → Returns (λ x u. IsNoted u c fee) (note d notes r)
  note_keeps c fee d notes (value x, w) at ends = inr at
  note_keeps c fee d notes (fault e, w) at ends = tt
  note_keeps c fee d notes (out_of_fuel, w) at ends = ends

  noted-IsRecord : IsRecord (noted quote) IsNoted
  noted-IsRecord = record {
    enters = λ c u. note_enters c u.0 (quote c u.1) (total c u.1);
    stays = λ c fee d u at. note_keeps c fee d u.0 (quote d u.1) at (total d u.1);
  }

  -- Over fee quotes that end but may answer differently each time, with each answer of the run noted
  -- beside its contract, the resolution of a receive ends. Unless it fails, its invoice reports a net
  -- of at most the ask, its contract is the invoice less the gateway's fee, and one of the noted
  -- quotes for this contract, not always the latest, predicts exactly the net that is reported.
  pub resolve_receive_gross_up-IsVerified :
      (g : GatewayFee) (amount : Msat) (w : W)
      → Returns
          (λ r u. IsVerified g amount (IsNoted u) r)
          (resolve_receive_gross_up g (noted quote) amount ([], w))
  resolve_receive_gross_up-IsVerified g amount w =
      gross_up-IsVerified g (noted quote) amount IsNoted noted-IsRecord ([], w)
