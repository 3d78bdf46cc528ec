-- ===== src/Executor/Sizing/Exact.antt =====
-- Over quotes that hold still and fit up to some amount, the bisection finds that amount.
use fedimint_wallets.Prelude.{
  ℕ, suc, ◌≤◌, ◌<◌, Bool, true, false, Option, some, none, ◌≡◌, ◌⊎◌, inl, inr, arith, Bool-cases,
  sym, ◌∙◌,
}
use fedimint_wallets.Executor.Run.{Run, Returns, IsTotal, Answers, Returns-weaken}
use fedimint_wallets.Executor.Cost.{ProbeVerdict}
use fedimint_wallets.Executor.Sizing.{largest_fitting_amount}
use fedimint_wallets.Executor.Sizing.Frontier.{
  Probed, IsFrontier, largest_fitting_amount-IsFrontier,
}

-- The amounts of a range that fit, and the largest of them.
abbrev pub IsLargest : (fits : ℕ → Bool) → (floor hi : ℕ) → Option ℕ → Type 0
IsLargest fits floor hi none = (a : ℕ) → floor ≤ a → a ≤ hi → fits a ≡ false
IsLargest fits floor hi (some r) =
    (floor ≤ r) × (r ≤ hi) × (fits r ≡ true) × ((a : ℕ) → r < a → a ≤ hi → fits a ≡ false)

module _ {W : Type 0} (probe : ℕ → Run W ProbeVerdict) (total : (a : ℕ) → IsTotal (probe a))
    (fits : ℕ → Bool)
    (still : (a : ℕ) (v : ProbeVerdict) (w : W) → Answers (probe a) v w → v.fits ≡ fits a)
    (floor hi : ℕ)
    (falls : (a b : ℕ) → floor ≤ a → a ≤ b → b ≤ hi → fits b ≡ true → fits a ≡ true) where
  Probed-fits : (a : ℕ) (b : Bool) → Probed probe a b → fits a ≡ b
  Probed-fits a b (v, w, asked, e) = sym (still a v w asked) ∙ e

  misses_above : (a b : ℕ) → floor ≤ a → a ≤ b → b ≤ hi → fits a ≡ false → fits b ≡ false
  misses_above a b lo le top miss = elim (Bool-cases (fits b)) [
    | inl hit ↦ absurd (let back = falls a b lo le top hit in cc)
    | inr no_fit ↦ no_fit
  ]

  frontier_IsLargest : (r : Option ℕ) → IsFrontier probe floor hi r → IsLargest fits floor hi r
  frontier_IsLargest none (inl empty) = λ a lo le. absurd (omega arith)
  frontier_IsLargest none (inr miss) =
      λ a lo le. misses_above floor a (omega arith) lo le (Probed-fits floor false miss)
  frontier_IsLargest (some r) (lo, le, hit, edge) = (lo, le, Probed-fits r true hit, above edge)
    where
      above : (r ≡ hi) ⊎ Probed probe (suc r) false → (a : ℕ) → r < a → a ≤ hi → fits a ≡ false
      above (inl top) a less within = absurd (omega arith)
      above (inr miss) a less within =
          misses_above (suc r) a (omega arith) (omega arith) within (Probed-fits (suc r) false miss)

  -- For a positive floor and probes that end and always give an amount the same verdict, where
  -- within the range whatever fits lets every smaller amount fit, the search ends with the largest
  -- amount of the range that fits, or with nothing if none does, unless a probe fails.
  pub largest_fitting_amount-IsLargest :
      (osc : ℕ) (w : W)
      → 1 ≤ floor
      → Returns (λ r _. IsLargest fits floor hi r) (largest_fitting_amount probe floor hi osc w)
  largest_fitting_amount-IsLargest osc w pos =
      Returns-weaken (largest_fitting_amount probe floor hi osc w) (λ r _. frontier_IsLargest r)
        (largest_fitting_amount-IsFrontier probe total floor hi osc w pos)
