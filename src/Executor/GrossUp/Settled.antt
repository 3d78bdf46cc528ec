-- ===== src/Executor/GrossUp/Settled.antt =====
-- How the invoice of a receive is settled after its passes, and that it is verified.
use fedimint_wallets.Prelude.{
  ℕ, zero, suc, ◌+◌, ◌-◌, ◌/◌, ◌<◌, Option, some, none, ◌≡◌, refl, inl, inr, leb, ltb, arith,
  Bool-cases, ltb→lt,
}
use fedimint_wallets.Types.Federation.{Msat}
use fedimint_wallets.Fee.{GatewayFee, GrossUp, contract_of, delivered_net, predicted_net}
use fedimint_wallets.Executor.Run.{Run, ◌>>=◌, Returns, Returns-bind, Returns-weaken}
use fedimint_wallets.Executor.GrossUp.{
  Passes, exact, inexact, solve_gross_up, verify_passes, bisect_turn, bisect_invoice, checked,
  quoted_at, close_gap, finish, resolve_receive_gross_up, fed_fee_requote_passes,
}
use fedimint_wallets.Executor.GrossUp.Verified.{
  IsVerified, IsRecord, both_Returns, quote_back, predicted_net_le, IsSolve, IsPassed,
  solve_gross_up-IsSolve, verify_passes-IsPassed,
}

module _ {W : Type 0} (g : GatewayFee) (fed_fee_quote : Msat → Run W Msat) (amount : Msat)
    (Asked : W → Msat → Msat → Type 0) (kept : IsRecord fed_fee_quote Asked) where
  -- The fee that the bisection has verified at its lower end, if any.
  abbrev IsQuoted : ℕ × Option Msat → W → Type 0
  IsQuoted (lo, none) w = Unit
  IsQuoted (lo, some fee) w = Asked w (contract_of g lo) fee

  IsQuoted-stays :
      (lo : ℕ) (q : Option Msat) (d : Msat) (w : W)
      → IsQuoted (lo, q) w
      → Returns (λ x u. IsQuoted (lo, q) u) (fed_fee_quote d w)
  IsQuoted-stays lo none d w fine = Returns-weaken _ (λ x u asked. tt) (kept.enters d w)
  IsQuoted-stays lo (some fee) d w fine = kept.stays (contract_of g lo) fee d w fine

  bisect_invoice-IsQuoted :
      (fuel lo : ℕ) (q : Option Msat) (hi : ℕ) (w : W)
      → hi - lo < fuel
      → IsQuoted (lo, q) w
      → Returns IsQuoted (bisect_invoice g fed_fee_quote amount fuel lo q hi w)
  unfolding bisect_invoice
  bisect_invoice-IsQuoted zero lo q hi w less fine = absurd (omega arith)
  bisect_invoice-IsQuoted (suc fuel) lo q hi w less fine = elim (Bool-cases (ltb 1 (hi - lo))) [
    | inr done ↦ rw (done, bisect_turn) fine
    | inl more ↦
        let wide : 1 < hi - lo = ltb→lt 1 (hi - lo) more in
        rw (more, bisect_turn)
          (Returns-bind (λ fee u. Asked u (contract_of g mid) fee × IsQuoted (lo, q) u) IsQuoted
            (fed_fee_quote (contract_of g mid) w) _
            (both_Returns _ _ (fed_fee_quote (contract_of g mid) w)
              (kept.enters (contract_of g mid) w) (IsQuoted-stays lo q (contract_of g mid) w fine))
            λ fee u asked. elim (Bool-cases (ltb amount (predicted_net mid g fee))) [
              | inl over ↦ rw over (bisect_invoice-IsQuoted fuel lo q mid u (omega arith) asked.1)
              | inr under ↦
                  rw under (bisect_invoice-IsQuoted fuel mid (some fee) hi u (omega arith) asked.0)
            ])
  ]
    where
      mid : ℕ
      mid = lo + (hi - lo) / 2

  abbrev IsDone : GrossUp → W → Type 0
  IsDone r w = IsVerified g amount (Asked w) r

  checked-IsDone :
      (lo : ℕ) (fee : Msat) (w : W)
      → Asked w (contract_of g lo) fee
      → Returns IsDone (checked g fed_fee_quote amount lo fee w)
  unfolding delivered_net
  checked-IsDone lo fee w asked = elim (Bool-cases (ltb amount (predicted_net lo g fee))) [
    | inl over ↦ rw over tt
    | inr fit ↦
        let kept : predicted_net lo g fee ≡ lo - (lo - predicted_net lo g fee) =
          quote_back lo (predicted_net lo g fee) (predicted_net_le lo g fee) in
        rw fit (record {
          never_over = ground (arith, kept);
          is_contract = refl;
          fed_fee = fee;
          quoted = asked;
          predicted = kept;
        })
  ]

  close_gap-IsDone : (lo hi : ℕ) (w : W) → Returns IsDone (close_gap g fed_fee_quote amount lo hi w)
  close_gap-IsDone lo hi w =
      Returns-bind IsQuoted IsDone
        (bisect_invoice g fed_fee_quote amount (suc (hi - lo)) lo none hi w) _
        (bisect_invoice-IsQuoted (suc (hi - lo)) lo none hi w (omega arith) tt)
        λ r u quoted. with_quote r.0 r.1 u quoted
    where
      with_quote :
          (low : ℕ) (q : Option Msat) (u : W)
          → IsQuoted (low, q) u
          → Returns IsDone
              ((quoted_at g fed_fee_quote amount low q >>= checked g fed_fee_quote amount low) u)
      with_quote low (some fee) u asked = checked-IsDone low fee u asked
      with_quote low none u quoted =
          Returns-bind (λ fee v. Asked v (contract_of g low) fee) IsDone
            (fed_fee_quote (contract_of g low) u) _ (kept.enters (contract_of g low) u)
            λ fee v asked. checked-IsDone low fee v asked

  finish-IsDone :
      (p : Passes) (w : W)
      → IsPassed g fed_fee_quote amount Asked kept p w
      → Returns IsDone (finish g fed_fee_quote amount p w)
  finish-IsDone (exact r) w h = h
  finish-IsDone (inexact (some under) none) w h = h
  finish-IsDone (inexact none none) w h = tt
  finish-IsDone (inexact (some under) (some hi)) w h =
      elim (Bool-cases (leb hi under.invoice_amount)) [
        | inl below ↦ rw below h
        | inr above ↦ rw above (close_gap-IsDone under.invoice_amount hi w)
      ]
  finish-IsDone (inexact none (some hi)) w h = close_gap-IsDone amount _ w

  -- Over any record of the quotes.
  pub gross_up-IsVerified :
      (w : W)
      → Returns
          (λ r u. IsVerified g amount (Asked u) r)
          (resolve_receive_gross_up g fed_fee_quote amount w)
  unfolding resolve_receive_gross_up
  gross_up-IsVerified w =
      Returns-bind (λ fee u. Asked u amount fee) IsDone (fed_fee_quote amount w) _
        (kept.enters amount w)
        λ fee u asked.
          Returns-bind (λ r v. IsSolve g fed_fee_quote amount r × Unit {0}) IsDone
            (solve_gross_up g fed_fee_quote amount fee u) _
            (solve_gross_up-IsSolve g fed_fee_quote amount Asked kept none fee u tt)
            λ r v solve.
              Returns-bind (IsPassed g fed_fee_quote amount Asked kept) IsDone
                (verify_passes g fed_fee_quote amount fed_fee_requote_passes r none none v) _
                (verify_passes-IsPassed g fed_fee_quote amount Asked kept fed_fee_requote_passes r
                  none none v solve.0 tt)
                λ p x passed. finish-IsDone p x passed
