-- ===== src/Executor/GrossUp.antt =====
-- The invoice of a receive, verified against the federation's quoted fee
-- (`resolve_receive_gross_up` of wallet-fedimint/src/executor.rs). The fee is quoted by the SDK, and
-- may be another each time.
pub mod Verified
pub mod Settled
pub mod Noted
use fedimint_wallets.Prelude.{
  ℕ, zero, suc, ◌+◌, ◌-◌, ◌/◌, Bool, true, false, Option, some, none, List, [], ◌∷◌, Text, codes,
  leb, ltb, if◌then◌else◌, sat_add64,
}
use Prim.Native.Nat.{compare, Ordering}
use fedimint_wallets.Prelude.Print.{decimal, concat}
use fedimint_wallets.Types.Federation.{Msat}
use fedimint_wallets.Fee.{
  GatewayFee, GrossUp, fee_on, contract_of, unsolvable_gateway_ppm, gross_up, predicted_net,
}
use fedimint_wallets.Journal.{ExecError, retryable, permanent}
use fedimint_wallets.Executor.Run.{Outcome, Run, ◌>>=◌, pure, raise, starve}

-- The passes after the first verified solve.
abbrev pub fed_fee_requote_passes : ℕ
fed_fee_requote_passes = 3

cause_text : GatewayFee → Msat → Text
cause_text g fed_fee =
    if leb unsolvable_gateway_ppm g.ppm
    then concat (
        (codes "gateway receive fee is ")
        ∷ (decimal g.ppm)
        ∷ (codes " ppm (>= 100% of the invoice)")
        ∷ [])
    else (concat (
        (codes "the receive-side fixed point did not converge below u64::MAX (gateway ")
        ∷ (decimal g.ppm)
        ∷ (codes " ppm, federation fee ")
        ∷ (decimal fed_fee)
        ∷ (codes " msat)")
        ∷ []))

pub unsolvable_text : Msat → GatewayFee → Msat → Text
unfolding cause_text
unsolvable_text net g fed_fee = concat (
    (cause_text g fed_fee)
    ∷ (codes "; no invoice can net the requested ")
    ∷ (decimal net)
    ∷ (codes " msat")
    ∷ [])

abbrev pub unconverged : ExecError
unconverged = retryable (codes "receive fee quotes did not converge to a never-over invoice")

-- How the passes end: exact, or with the best invoice below the ask and the last one above it.
pub data Passes : Type 0 where
  exact : (solve : GrossUp) → Passes
  inexact : (safe_under : Option GrossUp) (last_over_invoice : Option ℕ) → Passes

module _ {W : Type 0} (g : GatewayFee) (fed_fee_quote : Msat → Run W Msat) (amount : Msat) where
  abbrev pub solved_or : Msat → Option (Option GrossUp) → Run W GrossUp
  solved_or fed_fee none = starve
  solved_or fed_fee (some none) = raise (permanent (unsolvable_text amount g fed_fee))
  solved_or fed_fee (some (some r)) = pure r

  unfoldable pub solve_gross_up : Msat → Run W GrossUp
  unfolding gross_up unsolvable_text
  solve_gross_up fed_fee = solved_or fed_fee (gross_up g (λ contract. fed_fee) amount)

  -- What an inexact pass remembers.
  abbrev pub restated : GrossUp → Msat → GrossUp
  restated grossed predicted = record grossed { receive_quote = grossed.invoice_amount - predicted }

  -- After a pass that did not reach the ask exactly: the last one ends the loop.
  abbrev pub next_pass :
      (GrossUp → Option GrossUp → Option ℕ → Run W Passes)
      → ℕ
      → Msat
      → Option GrossUp
      → Option ℕ
      → Run W Passes
  next_pass again zero fed_fee under over = pure (inexact under over)
  next_pass again (suc left) fed_fee under over = do
    grossed ← solve_gross_up fed_fee
    again grossed under over

  abbrev pub compare_pass :
      Ordering
      → (GrossUp → Option GrossUp → Option ℕ → Run W Passes)
      → ℕ
      → GrossUp
      → Msat
      → Msat
      → Option GrossUp
      → Option ℕ
      → Run W Passes
  compare_pass Ordering.eq again left grossed predicted fed_fee under over = pure (exact grossed)
  compare_pass Ordering.lt again left grossed predicted fed_fee under over =
      next_pass again left fed_fee (some (restated grossed predicted)) over
  compare_pass Ordering.gt again left grossed predicted fed_fee under over =
      next_pass again left fed_fee under (some grossed.invoice_amount)

  -- The loop of the passes; `left` counts those after this one.
  unfoldable pub verify_passes : ℕ → GrossUp → Option GrossUp → Option ℕ → Run W Passes
  unfolding solve_gross_up predicted_net
  verify_passes zero grossed under over = do
    fee ← fed_fee_quote grossed.contract_amount
    let predicted = predicted_net grossed.invoice_amount g fee
    compare_pass (compare predicted amount) (λ r u o. pure (inexact u o)) zero grossed predicted fee
        under over
  verify_passes (suc left) grossed under over = do
    fee ← fed_fee_quote grossed.contract_amount
    let predicted = predicted_net grossed.invoice_amount g fee
    compare_pass (compare predicted amount) (verify_passes left) (suc left) grossed predicted fee
        under over

  -- The bisection over the invoice, with fuel: the final `lo`, and the fee verified at it.
  abbrev pub bisect_turn :
      Bool
      → (ℕ → Option Msat → ℕ → Run W (ℕ × Option Msat))
      → ℕ
      → Option Msat
      → ℕ
      → Run W (ℕ × Option Msat)
  bisect_turn false again lo lo_quote hi = pure (lo, lo_quote)
  bisect_turn true again lo lo_quote hi =
      let mid = lo + (hi - lo) / 2 in
      fed_fee_quote (contract_of g mid) >>= λ mid_fee.
      if ltb amount (predicted_net mid g mid_fee)
      then (again lo lo_quote mid)
      else (again mid (some mid_fee) hi)

  unfoldable pub bisect_invoice : ℕ → ℕ → Option Msat → ℕ → Run W (ℕ × Option Msat)
  unfolding predicted_net contract_of
  bisect_invoice zero lo lo_quote hi = starve
  bisect_invoice (suc fuel) lo lo_quote hi =
      bisect_turn (ltb 1 (hi - lo)) (bisect_invoice fuel) lo lo_quote hi

  -- The invoice that the bisection leaves, with its fee verified.
  abbrev pub checked : ℕ → Msat → Run W GrossUp
  checked lo fed_fee =
      let predicted = predicted_net lo g fed_fee in
      if ltb amount predicted
      then (raise unconverged)
      else (pure (record {
        invoice_amount = lo;
        contract_amount = contract_of g lo;
        receive_quote = lo - predicted;
      }))

  abbrev pub quoted_at : ℕ → Option Msat → Run W Msat
  quoted_at lo none = fed_fee_quote (contract_of g lo)
  quoted_at lo (some fed_fee) = pure fed_fee

  abbrev pub close_gap : ℕ → ℕ → Run W GrossUp
  close_gap lo hi = do
    (low, low_quote) ← bisect_invoice (suc (hi - lo)) lo none hi
    fee ← quoted_at low low_quote
    checked low fee

  abbrev pub finish : Passes → Run W GrossUp
  finish (exact r) = pure r
  finish (inexact (some under) none) = pure under
  finish (inexact none none) = raise unconverged
  finish (inexact (some under) (some hi)) =
      if leb hi under.invoice_amount then (pure under) else (close_gap under.invoice_amount hi)
  finish (inexact none (some hi)) =
      close_gap amount (if leb hi amount then sat_add64 amount 1 else hi)

  unfoldable pub resolve_receive_gross_up : Run W GrossUp
  unfolding solve_gross_up verify_passes bisect_invoice
  resolve_receive_gross_up = do
    fee ← fed_fee_quote amount
    grossed ← solve_gross_up fee
    passes ← verify_passes fed_fee_requote_passes grossed none none
    finish passes
