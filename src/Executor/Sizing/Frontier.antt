-- ===== src/Executor/Sizing/Frontier.antt =====
-- Where the bisection stops, whatever the probes answer.
use fedimint_wallets.Prelude.{
  ℕ, zero, suc, ◌+◌, ◌-◌, ◌≤◌, ◌<◌, Bool, true, false, Option, some, none, List, [], ◌∷◌, ◌≡◌, refl,
  ◌⊎◌, inl, inr, ltb, leb, if◌then◌else◌, All, arith, Bool-cases, subst, sym,
}
use fedimint_wallets.Executor.Run.{
  Run, ◌>>=◌, Returns, IsTotal, Answers, Returns-Answers, Returns-bind,
}
use fedimint_wallets.Executor.Cost.{ProbeVerdict}
use fedimint_wallets.Executor.Boundary.{note_boundaries_above}
use fedimint_wallets.Executor.Boundary.Range.{IsAbove, note_boundaries_above-All}
use fedimint_wallets.Executor.Sizing.{
  first_fitting_boundary, look_above, after_miss, after_probe, middle, turn, narrow,
  largest_fitting_amount,
}

middle_bounds : (lo hi : ℕ) → lo < hi → (lo < middle lo hi) × (middle lo hi ≤ hi)
middle_bounds lo hi h = ground arith

module _ {W : Type 0} (probe : ℕ → Run W ProbeVerdict) where
  -- Some probe of the amount gave this verdict.
  abbrev pub Probed : ℕ → Bool → Type 0
  Probed amount fits = (v : ProbeVerdict) × (w : W) × Answers (probe amount) v w × (v.fits ≡ fits)

  -- A found boundary lies above the miss, and fits.
  abbrev IsFound : ℕ → ℕ → Option ℕ → Type 0
  IsFound mid hi none = Unit
  IsFound mid hi (some b) = IsAbove mid hi b × Probed b true

  -- The last amount that fits and the first beyond it that does not, in the range still searched.
  abbrev IsBetween : (floor top lo hi : ℕ) → Type 0
  IsBetween floor top lo hi =
      (floor ≤ suc lo)
      × (lo ≤ hi)
      × (hi ≤ top)
      × ((suc lo ≡ floor) ⊎ Probed lo true)
      × ((hi ≡ top) ⊎ Probed (suc hi) false)

  -- The result of the search: an amount of the range that fits and that is the largest, or whose
  -- successor does not fit; or the floor does not fit.
  abbrev pub IsFrontier : (floor hi : ℕ) → Option ℕ → Type 0
  IsFrontier floor hi none = (hi < floor) ⊎ Probed floor false
  IsFrontier floor hi (some r) =
      (floor ≤ r) × (r ≤ hi) × Probed r true × ((r ≡ hi) ⊎ Probed (suc r) false)

  module _ (total : (a : ℕ) → IsTotal (probe a)) where
    first_fitting_boundary-IsFound :
        (mid hi : ℕ) (candidates : List ℕ) (w : W)
        → All (IsAbove mid hi) candidates
        → Returns (λ r _. IsFound mid hi r) (first_fitting_boundary probe candidates w)
    unfolding first_fitting_boundary
    first_fitting_boundary-IsFound mid hi [] w h = tt
    first_fitting_boundary-IsFound mid hi (c ∷ rest) w h =
        Returns-bind (Answers (probe c)) _ (probe c w) _ (Returns-Answers (probe c) (total c) w)
          λ v w' asked. elim (Bool-cases v.fits) [
            | inl hit ↦ rw hit (h.0, (v, w', asked, hit))
            | inr miss ↦ rw miss (first_fitting_boundary-IsFound mid hi rest w' h.1)
          ]

    look_above-IsFound :
        (osc mid hi : ℕ) (v : ProbeVerdict) (w : W)
        → Returns (λ r _. IsFound mid hi r) (look_above probe osc mid hi v w)
    unfolding look_above
    look_above-IsFound osc mid hi v w = elim (Bool-cases (leb v.shortfall osc)) [
      | inl near ↦
          rw (near, look_above)
            (first_fitting_boundary-IsFound mid hi (note_boundaries_above mid hi) w
              (note_boundaries_above-All mid hi))
      | inr far ↦ rw far tt
    ]

    module _ (floor top : ℕ) where
      -- One round of the loop, where the search goes on as it should.
      round_IsBetween :
          (again : ℕ → ℕ → Run W ℕ) (osc lo hi : ℕ) (v : ProbeVerdict) (w : W)
          → lo < hi
          → IsBetween floor top lo hi
          → Answers (probe (middle lo hi)) v w
          → ((l h : ℕ) (u : W)
              → h - l < hi - lo
              → IsBetween floor top l h
              → Returns (λ r _. IsBetween floor top r r) (again l h u))
          → Returns
              (λ r _. IsBetween floor top r r)
              (after_probe probe osc again lo (middle lo hi) hi v w)
      round_IsBetween again osc lo hi v w less inv asked ih = elim (Bool-cases v.fits) [
        | inl hit ↦ subst by_fit (sym hit) (
            ih (middle lo hi) hi w (omega (arith, middle_bounds lo hi less)) (
              omega (arith, middle_bounds lo hi less),
              (middle_bounds lo hi less).1,
              inv.2,
              inr (v, w, asked, hit),
              inv.4,
            ))
        | inr miss ↦ subst by_fit (sym miss) (
            Returns-bind _ _ (look_above probe osc (middle lo hi) hi v w) _
              (look_above-IsFound osc (middle lo hi) hi v w) (after_miss_IsBetween miss))
      ]
        where
          by_fit : Bool → Type 0
          by_fit fits =
              Returns (λ r _. IsBetween floor top r r)
                ((if fits
                    then (again (middle lo hi) hi)
                    else (look_above probe osc (middle lo hi) hi v
                        >>= after_miss again lo (middle lo hi) hi))
                  w)

          missed : v.fits ≡ false → Probed (suc (middle lo hi - 1)) false
          missed miss =
              subst (λ (m : ℕ). Probed m false) (omega (arith, middle_bounds lo hi less))
                (v, w, asked, miss)

          after_miss_IsBetween :
              v.fits ≡ false
              → (found : Option ℕ) (u : W) → IsFound (middle lo hi) hi found
              → Returns
                  (λ r _. IsBetween floor top r r)
                  (after_miss again lo (middle lo hi) hi found u)
          after_miss_IsBetween miss none u h =
              ih lo (middle lo hi - 1) u (omega (arith, middle_bounds lo hi less)) (
                inv.0,
                omega (arith, middle_bounds lo hi less),
                omega (arith, middle_bounds lo hi less),
                inv.3,
                inr (missed miss),
              )
          after_miss_IsBetween miss (some b) u h =
              ih b hi u (omega (arith, middle_bounds lo hi less))
                (omega (arith, middle_bounds lo hi less), omega arith, inv.2, inr h.1, inv.4)

      narrow-IsBetween :
          (fuel osc lo hi : ℕ) (w : W)
          → hi - lo < fuel
          → IsBetween floor top lo hi
          → Returns (λ r _. IsBetween floor top r r) (narrow probe fuel osc lo hi w)
      unfolding narrow
      narrow-IsBetween zero osc lo hi w less inv = absurd (omega arith)
      narrow-IsBetween (suc fuel) osc lo hi w less inv = elim (Bool-cases (ltb lo hi)) [
        | inl more ↦
            rw (more, turn)
              (Returns-bind _ _ (probe (middle lo hi) w) _
                (Returns-Answers (probe (middle lo hi)) (total (middle lo hi)) w)
                λ v u asked.
                  round_IsBetween (narrow probe fuel osc) osc lo hi v u (ground arith) inv asked
                    λ l h w' smaller. narrow-IsBetween fuel osc l h w' (omega arith))
        | inr done ↦
            let same : hi ≡ lo = ground arith in
            rw (done, turn) (subst (λ (h : ℕ). IsBetween floor top lo h) same inv)
      ]

    -- What the loop's end says of the result.
    IsFrontier-end :
        (floor hi r : ℕ)
        → 1 ≤ floor
        → IsBetween floor hi r r
        → IsFrontier floor hi (if leb floor r then some r else none)
    IsFrontier-end floor hi r pos inv = elim (Bool-cases (leb floor r)) [
      | inl found ↦
          let in_range : floor ≤ r = ground arith in
          rw found (
            in_range,
            inv.2,
            elim inv.3 [ inl before ↦ absurd (omega arith) | inr fits ↦ fits ],
            inv.4,
          )
      | inr nothing ↦
          let below : r < floor = ground arith in
          let next : suc r ≡ floor = omega arith in
          rw nothing (elim inv.4 [
            | inl top ↦ inl (omega arith)
            | inr miss ↦ inr (subst (λ (a : ℕ). Probed a false) next miss)
          ])
    ]

    -- For a positive floor and probes that end but may answer differently each time, the search
    -- ends. Unless a probe fails, it returns an amount of the range that some probe saw fit, and
    -- this is the top of the range or its successor was seen to miss; or nothing, and then the
    -- range is empty or the floor was seen to miss.
    pub largest_fitting_amount-IsFrontier :
        (floor hi osc : ℕ) (w : W)
        → 1 ≤ floor
        → Returns (λ r _. IsFrontier floor hi r) (largest_fitting_amount probe floor hi osc w)
    unfolding largest_fitting_amount
    largest_fitting_amount-IsFrontier floor hi osc w pos = elim (Bool-cases (ltb hi floor)) [
      | inl empty ↦ rw empty (inl (ground arith))
      | inr range ↦ rw range (
          Returns-bind _ _ (narrow probe (hi + 2 - floor) osc (floor - 1) hi w) _
            (narrow-IsBetween floor hi (hi + 2 - floor) osc (floor - 1) hi w (ground arith)
              (omega arith, ground arith, omega arith, inl (omega arith), inl refl))
            λ r u inv. IsFrontier-end floor hi r pos inv)
    ]
