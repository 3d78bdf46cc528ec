-- ===== src/Executor/GrossUp/Verified.antt =====
-- What the passes of a receive verify, over any record of its quotes.
use Prim.Native.Nat.{compare, Ordering}
use fedimint_wallets.Prelude.{
  ℕ, zero, suc, ◌-◌, ◌≤◌, Option, some, none, ◌≡◌, refl, ◌⊎◌, inl, inr, leb, u64_max, arith,
  Bool-cases, leb→le, subst,
}
use fedimint_wallets.Types.Federation.{Msat}
use fedimint_wallets.Fee.{GatewayFee, GrossUp, contract_of, delivered_net, solved, predicted_net}
use fedimint_wallets.Fee.Exact.{IsSolution, gross_up_solves, gross_up_beyond}
use fedimint_wallets.Executor.Run.{
  Outcome, value, fault, out_of_fuel, Run, pure, Returns, Returns-bind, Returns-weaken, IsTotal,
}
use fedimint_wallets.Executor.GrossUp.{
  Passes, exact, inexact, solved_or, solve_gross_up, restated, next_pass, compare_pass,
  verify_passes,
}

pub predicted_net_le :
    (invoice : Msat) (g : GatewayFee) (fee : Msat) → predicted_net invoice g fee ≤ invoice
unfolding predicted_net contract_of
predicted_net_le invoice g fee = omega arith

-- What is left of an invoice under a quote of all that it does not deliver.
pub quote_back : (invoice net : ℕ) → net ≤ invoice → net ≡ invoice - (invoice - net)
quote_back invoice net h = omega arith

-- The invoice reports what a quote at its own contract, one of those `asked`, predicts that it
-- delivers, which is not above the ask.
pub record IsVerified (g : GatewayFee) (amount : Msat) (asked : Msat → Msat → Type 0) (r : GrossUp)
    : Type 0 where
  pub never_over : delivered_net r ≤ amount
  pub is_contract : r.contract_amount ≡ contract_of g r.invoice_amount
  pub fed_fee : Msat
  pub quoted : asked r.contract_amount fed_fee
  pub predicted : predicted_net r.invoice_amount g fed_fee ≡ delivered_net r

-- A record of the quotes, read off the state: a quote enters it, and those before it stay.
pub record IsRecord {W : Type 0} (fed_fee_quote : Msat → Run W Msat)
    (Asked : W → Msat → Msat → Type 0) : Type 0 where
  pub enters : (c : Msat) (w : W) → Returns (λ fee u. Asked u c fee) (fed_fee_quote c w)
  pub stays :
      (c fee d : Msat) (w : W) → Asked w c fee → Returns (λ x u. Asked u c fee) (fed_fee_quote d w)

-- A record of nothing.
pub no_record :
    {W : Type 0} (fed_fee_quote : Msat → Run W Msat)
    → ((c : Msat) → IsTotal (fed_fee_quote c))
    → IsRecord fed_fee_quote (λ w c fee. Unit {0})
no_record fed_fee_quote total = record {
  enters = λ c w. total c w;
  stays = λ c fee d w asked. total d w;
}

pub both_Returns :
    {W A : Type 0} (P Q : A → W → Type 0) (r : Outcome A × W)
    → Returns P r
    → Returns Q r
    → Returns (λ a w. P a w × Q a w) r
both_Returns P Q (value a, w) p q = (p, q)
both_Returns P Q (fault e, w) p q = tt
both_Returns P Q (out_of_fuel, w) p q = p

module _ {W : Type 0} (g : GatewayFee) (fed_fee_quote : Msat → Run W Msat) (amount : Msat) where
  -- A solve for the ask.
  abbrev pub IsSolve : GrossUp → Type 0
  IsSolve r = (delivered_net r ≡ amount) × (r.contract_amount ≡ contract_of g r.invoice_amount)

  module _ (Asked : W → Msat → Msat → Type 0) (kept : IsRecord fed_fee_quote Asked) where
    abbrev pub IsUnder : Option GrossUp → W → Type 0
    IsUnder none w = Unit
    IsUnder (some r) w = IsVerified g amount (Asked w) r

    abbrev pub IsPassed : Passes → W → Type 0
    IsPassed (exact r) w = IsVerified g amount (Asked w) r
    IsPassed (inexact under over) w = IsUnder under w

    -- What is verified stays so while more is quoted.
    IsUnder-stays :
        (under : Option GrossUp) (d : Msat) (w : W)
        → IsUnder under w
        → Returns (λ x u. IsUnder under u) (fed_fee_quote d w)
    IsUnder-stays none d w fine = Returns-weaken _ (λ x u asked. tt) (kept.enters d w)
    IsUnder-stays (some r) d w fine =
        Returns-weaken {P = λ x u. Asked u r.contract_amount fine.fed_fee}
          {Q = λ x u. IsVerified g amount (Asked u) r} (fed_fee_quote d w)
          (λ x u asked. record {
            never_over = fine.never_over;
            is_contract = fine.is_contract;
            fed_fee = fine.fed_fee;
            quoted = asked;
            predicted = fine.predicted;
          })
          (kept.stays r.contract_amount fine.fed_fee d w fine.quoted)

    -- A quote beside what is verified already.
    quote_beside :
        (under : Option GrossUp) (d : Msat) (w : W)
        → IsUnder under w
        → Returns (λ fee u. Asked u d fee × IsUnder under u) (fed_fee_quote d w)
    quote_beside under d w fine =
        both_Returns _ _ (fed_fee_quote d w) (kept.enters d w) (IsUnder-stays under d w fine)

    solved_or-IsSolve :
        (under : Option GrossUp) (fee : Msat) (r : Option GrossUp) (w : W)
        → IsUnder under w
        → ((s : GrossUp) → r ≡ some s → IsSolve s)
        → Returns
            (λ s u. IsSolve s × IsUnder under u)
            (solved_or g fed_fee_quote amount fee (some r) w)
    solved_or-IsSolve under fee none w fine is = tt
    solved_or-IsSolve under fee (some r) w fine is = (is r refl, fine)

    solution_IsSolve :
        (fee : Msat) (r : Option GrossUp)
        → IsSolution g (λ c. fee) amount r
        → (s : GrossUp) → r ≡ some s
        → IsSolve s
    solution_IsSolve fee none is s e = cc
    solution_IsSolve fee (some r) is s e =
        let same : r ≡ s = ground arith in subst IsSolve same (is.3, is.2)

    -- Also for an ask beyond u64, which no caller has.
    beyond_IsSolve :
        (fee : Msat) (r : Option GrossUp)
        → (r ≡ none) ⊎ (r ≡ some (solved g (λ c. fee) amount amount))
        → (s : GrossUp) → r ≡ some s
        → IsSolve s
    unfolding solved delivered_net
    beyond_IsSolve fee r (inl nothing) s e = cc
    beyond_IsSolve fee r (inr same) s e =
        let it : solved g (λ c. fee) amount amount ≡ s = ground arith in
        subst IsSolve it (omega arith, refl)

    pub solve_gross_up-IsSolve :
        (under : Option GrossUp) (fee : Msat) (w : W)
        → IsUnder under w
        → Returns (λ r u. IsSolve r × IsUnder under u) (solve_gross_up g fed_fee_quote amount fee w)
    unfolding solve_gross_up
    solve_gross_up-IsSolve under fee w fine = elim (Bool-cases (leb amount u64_max)) [
      | inl fit ↦
          let (r, e, is) =
            gross_up_solves g (λ c. fee) amount
              (record { grows = λ a b h. omega arith; gentle = λ a b h. omega arith })
              (leb→le amount u64_max fit) in
          rw e (solved_or-IsSolve under fee r w fine (solution_IsSolve fee r is))
      | inr big ↦
          let (r, e, is) = gross_up_beyond g (λ c. fee) amount (ground arith) in
          rw e (solved_or-IsSolve under fee r w fine (beyond_IsSolve fee r is))
    ]

    -- A pass, by how what it predicts compares with the ask.
    next_pass-IsPassed :
        (again : GrossUp → Option GrossUp → Option ℕ → Run W Passes) (left : ℕ) (fee : Msat)
        (under : Option GrossUp) (over : Option ℕ) (w : W)
        → ((r : GrossUp) (u : Option GrossUp) (o : Option ℕ) (v : W)
            → IsSolve r
            → IsUnder u v
            → Returns IsPassed (again r u o v))
        → IsUnder under w
        → Returns IsPassed (next_pass g fed_fee_quote amount again left fee under over w)
    next_pass-IsPassed again zero fee under over w ih fine = fine
    next_pass-IsPassed again (suc left) fee under over w ih fine =
        Returns-bind (λ r u. IsSolve r × IsUnder under u) IsPassed
          (solve_gross_up g fed_fee_quote amount fee w) _ (solve_gross_up-IsSolve under fee w fine)
          λ r v solve. ih r under over v solve.0 solve.1

    compare_pass-IsPassed :
        (again : GrossUp → Option GrossUp → Option ℕ → Run W Passes) (left : ℕ) (r : GrossUp)
        (fee : Msat) (under : Option GrossUp) (over : Option ℕ) (w : W) (o : Ordering)
        → compare (predicted_net r.invoice_amount g fee) amount ≡ o
        → ((s : GrossUp) (u : Option GrossUp) (x : Option ℕ) (v : W)
            → IsSolve s
            → IsUnder u v
            → Returns IsPassed (again s u x v))
        → IsSolve r
        → IsUnder under w
        → Asked w r.contract_amount fee
        → Returns IsPassed (
            compare_pass g fed_fee_quote amount o again left r
              (predicted_net r.invoice_amount g fee)
              fee
              under
              over
              w)
    unfolding delivered_net
    compare_pass-IsPassed again left r fee under over w Ordering.eq e ih solve fine asked = record {
      never_over = omega arith;
      is_contract = solve.1;
      fed_fee = fee;
      quoted = asked;
      predicted = ground arith;
    }
    compare_pass-IsPassed again left r fee under over w Ordering.lt e ih solve fine asked =
        let kept : predicted_net r.invoice_amount g fee
            ≡ r.invoice_amount - (r.invoice_amount - predicted_net r.invoice_amount g fee) =
          quote_back r.invoice_amount (predicted_net r.invoice_amount g fee)
            (predicted_net_le r.invoice_amount g fee) in
        next_pass-IsPassed again left fee
          (some (restated g fed_fee_quote amount r (predicted_net r.invoice_amount g fee))) over w
          ih
          (record {
            never_over = ground (arith, kept);
            is_contract = solve.1;
            fed_fee = fee;
            quoted = asked;
            predicted = kept;
          })
    compare_pass-IsPassed again left r fee under over w Ordering.gt e ih solve fine asked =
        next_pass-IsPassed again left fee under (some r.invoice_amount) w ih fine

    pub verify_passes-IsPassed :
        (left : ℕ) (r : GrossUp) (under : Option GrossUp) (over : Option ℕ) (w : W)
        → IsSolve r
        → IsUnder under w
        → Returns IsPassed (verify_passes g fed_fee_quote amount left r under over w)
    unfolding verify_passes
    verify_passes-IsPassed zero r under over w solve fine =
        Returns-bind (λ fee u. Asked u r.contract_amount fee × IsUnder under u) IsPassed
          (fed_fee_quote r.contract_amount w) _ (quote_beside under r.contract_amount w fine)
          λ fee u asked.
            compare_pass-IsPassed (λ s v o. pure (inexact v o)) 0 r fee under over u _ refl
              (λ s v o x is fit. fit) solve asked.1 asked.0
    verify_passes-IsPassed (suc left) r under over w solve fine =
        Returns-bind (λ fee u. Asked u r.contract_amount fee × IsUnder under u) IsPassed
          (fed_fee_quote r.contract_amount w) _ (quote_beside under r.contract_amount w fine)
          λ fee u asked.
            compare_pass-IsPassed (verify_passes g fed_fee_quote amount left) (suc left) r fee under
              over u _ refl (verify_passes-IsPassed left) solve asked.1 asked.0
