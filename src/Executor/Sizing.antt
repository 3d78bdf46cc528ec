-- ===== src/Executor/Sizing.antt =====
-- The robust bisection for the largest amount that probes as fitting
-- (`largest_fitting_amount` of wallet-fedimint/src/executor.rs). A probe may answer differently each
-- time it is asked.
pub mod Frontier
pub mod Exact
use fedimint_wallets.Prelude.{
  ℕ, zero, suc, ◌+◌, ◌-◌, Bool, true, false, Option, some, none, List, [], ◌∷◌, ltb, leb, div_ceil,
  if◌then◌else◌,
}
use fedimint_wallets.Executor.Run.{Outcome, Run, ◌>>=◌, pure, starve}
use fedimint_wallets.Executor.Cost.{ProbeVerdict}
use fedimint_wallets.Executor.Boundary.{note_boundaries_above}

abbrev pub middle : ℕ → ℕ → ℕ
middle lo hi = lo + div_ceil (hi - lo) 2

-- The ends of the range after a miss at `mid`.
abbrev pub after_miss : {W : Type 0} → (ℕ → ℕ → Run W ℕ) → ℕ → ℕ → ℕ → Option ℕ → Run W ℕ
after_miss again lo mid hi (some found) = again found hi
after_miss again lo mid hi none = again lo (mid - 1)

module _ {W : Type 0} (probe : ℕ → Run W ProbeVerdict) where
  unfoldable pub first_fitting_boundary : List ℕ → Run W (Option ℕ)
  first_fitting_boundary [] = pure none
  first_fitting_boundary (candidate ∷ rest) = do
    verdict ← probe candidate
    elim verdict.fits [ true ↦ pure (some candidate) | false ↦ first_fitting_boundary rest ]

  -- The boundaries above a miss are probed only if the miss is within the oscillation bound.
  unfoldable pub look_above : ℕ → ℕ → ℕ → ProbeVerdict → Run W (Option ℕ)
  unfolding first_fitting_boundary note_boundaries_above
  look_above oscillation mid hi verdict =
      if leb verdict.shortfall oscillation
      then (first_fitting_boundary (note_boundaries_above mid hi))
      else (pure none)

  abbrev pub after_probe : ℕ → (ℕ → ℕ → Run W ℕ) → ℕ → ℕ → ℕ → ProbeVerdict → Run W ℕ
  after_probe oscillation again lo mid hi verdict =
      if verdict.fits
      then (again mid hi)
      else (look_above oscillation mid hi verdict >>= after_miss again lo mid hi)

  -- One turn of the loop, by its test.
  abbrev pub turn : Bool → ℕ → (ℕ → ℕ → Run W ℕ) → ℕ → ℕ → Run W ℕ
  turn false oscillation again lo hi = pure lo
  turn true oscillation again lo hi =
      probe (middle lo hi) >>= after_probe oscillation again lo (middle lo hi) hi

  -- The loop, with fuel: the final `lo`.
  unfoldable pub narrow : ℕ → ℕ → ℕ → ℕ → Run W ℕ
  unfolding look_above
  narrow zero oscillation lo hi = starve
  narrow (suc fuel) oscillation lo hi = turn (ltb lo hi) oscillation (narrow fuel oscillation) lo hi

  -- `largest_fitting_amount`; the range shrinks in each round.
  unfoldable pub largest_fitting_amount : ℕ → ℕ → ℕ → Run W (Option ℕ)
  unfolding narrow
  largest_fitting_amount floor hi oscillation =
      if ltb hi floor
      then (pure none)
      else (narrow (hi + 2 - floor) oscillation (floor - 1) hi >>= λ lo.
          pure (if leb floor lo then some lo else none))
