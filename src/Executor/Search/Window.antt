-- ===== src/Executor/Search/Window.antt =====
-- Over quotes that hold still, the search finds the window of amounts that it is made for.
use fedimint_wallets.Prelude.{
  ℕ, ◌≤◌, ◌<◌, Bool, true, false, Option, some, none, ◌≡◌, refl, inl, inr, leb, ltb, arith,
  Bool-cases, subst, sym, ap, ◌∙◌,
}
use fedimint_wallets.Types.Federation.{Msat, EvacFeeCap}
use fedimint_wallets.Executor.Run.{
  Outcome, Run, Returns, IsTotal, Answers, Answers-bind, Returns-Answers, Returns-bind,
}
use fedimint_wallets.Executor.Cost.{
  FreshMoveCost, CandidateQuote, priced, unquotable, ProbeVerdict, affordability, combined_verdict,
  combined_fits, within_affordable, within_fits_cap,
}
use fedimint_wallets.Executor.Sizing.{largest_fitting_amount}
use fedimint_wallets.Executor.Sizing.Exact.{IsLargest, largest_fitting_amount-IsLargest}
use fedimint_wallets.Executor.Search.{
  EvacuationSearch, top_serves, top_hint, afford_probe, requoted, first_pass, after_top,
  search_evacuation_net,
}
use fedimint_wallets.Executor.Search.Served.{afford_probe-IsTotal}

module _ {W : Type 0} (quote : Msat → Run W CandidateQuote) (total : (a : Msat) → IsTotal (quote a))
    (curve : Msat → CandidateQuote)
    (still : (a : Msat) (q : CandidateQuote) (w : W) → Answers (quote a) q w → q ≡ curve a)
    (spendable : Msat) (cap : EvacFeeCap) (floor desired osc : ℕ) (pos : 1 ≤ floor) where
  abbrev pub affords : Msat → Bool
  affords a = (affordability (curve a) spendable).fits

  afford_still :
      (a : ℕ) (v : ProbeVerdict) (w : W)
      → Answers (afford_probe quote floor desired spendable cap osc a) v w
      → v.fits ≡ affords a
  afford_still a v w asked =
      let (q, u, first, second) = Answers-bind (quote a) _ v w asked in
      let same : q ≡ curve a = still a q u first in
      let verdict : affordability q spendable ≡ v = ground arith in
      subst (λ (x : CandidateQuote). v.fits ≡ (affordability x spendable).fits) same
        (subst (λ (x : ProbeVerdict). x.fits ≡ (affordability q spendable).fits) verdict refl)

  -- The largest amount that the balance affords, which also fits the cap.
  module _
      (falls : (a b : ℕ) → floor ≤ a → a ≤ b → b ≤ desired → affords b ≡ true → affords a ≡ true)
      (m : Msat) (cost : FreshMoveCost) (lo : floor ≤ m) (le : m ≤ desired)
      (largest : (a : ℕ) → m < a → a ≤ desired → affords a ≡ false) (price : curve m ≡ priced cost)
      (fit : (combined_verdict (priced cost) cap spendable).fits ≡ true) where
    paid : affords m ≡ true
    paid =
        subst (λ (q : CandidateQuote). (affordability q spendable).fits ≡ true) (sym price)
          (within_affordable cost cap spendable (combined_fits cost cap spendable fit).0)

    abbrev IsFound : Outcome EvacuationSearch × W → Type 0
    IsFound r = Returns (λ s _. s.sized ≡ some (m, cost)) r

    first_pass-IsFound :
        (hint : Option Msat) (w : W)
        → IsFound (first_pass quote floor desired spendable cap osc hint (some m) w)
    first_pass-IsFound hint w =
        Returns-bind _ _ (quote m w) _ (Returns-Answers (quote m) (total m) w)
          λ q u asked. by_quote q u (still m q u asked)
      where
        by_quote :
            (q : CandidateQuote) (u : W)
            → q ≡ curve m
            → IsFound (requoted quote floor desired spendable cap osc hint m q u)
        by_quote q u e = rw (e, price, fit) refl

    found_is : (r : Option ℕ) → IsLargest affords floor desired r → r ≡ some m
    found_is none no_fit = absurd (let miss = no_fit m lo le in let hit = paid in cc)
    found_is (some r) (a, b, hit, above) =
        let not_less : r < m → ⊥ = λ less. let miss = above m less le in let again = paid in cc in
        let not_more : m < r → ⊥ = λ more. let miss = largest r more b in cc in
        let same : r ≡ m = ground (arith, not_less, not_more) in ground arith

    -- The full ask serves if it is the amount.
    top_serves_at :
        (q : CandidateQuote)
        → q ≡ curve desired
        → desired ≡ m
        → top_serves q cap spendable ≡ some cost
    top_serves_at q e same =
        let it : q ≡ priced cost = e ∙ (ap curve same ∙ price) in
        let afforded =
          within_affordable cost cap spendable (combined_fits cost cap spendable fit).0 in
        let capped = within_fits_cap cost cap spendable (combined_fits cost cap spendable fit).1 in
        rw it (rw (afforded, capped) refl)

    short_never_serves :
        (q : CandidateQuote)
        → (affordability q spendable).fits ≡ false
        → top_serves q cap spendable ≡ none
    short_never_serves (unquotable shortfall) short = refl
    short_never_serves (priced c) short = rw short refl

    below_the_top :
        (q : CandidateQuote) (w : W)
        → (affordability q spendable).fits ≡ false
        → IsFound (after_top quote floor desired spendable cap osc none q w)
    below_the_top q w short =
        let range : ltb desired floor ≡ false = ground arith in
        rw range (
          rw short (
            Returns-bind _ _ (largest_fitting_amount afford floor desired osc w) _
              (largest_fitting_amount-IsLargest afford
                (afford_probe-IsTotal quote spendable cap total floor desired osc pos) affords
                afford_still floor desired falls osc w pos)
              λ r u is.
                subst
                  (λ (x : Option ℕ). IsFound (
                    first_pass quote floor desired spendable cap osc (top_hint q spendable desired)
                      x u))
                  (sym (found_is r is)) (first_pass-IsFound (top_hint q spendable desired) u)))
      where
        afford : ℕ → Run W ProbeVerdict
        afford = afford_probe quote floor desired spendable cap osc

    after_top-IsFound :
        (q : CandidateQuote) (w : W)
        → q ≡ curve desired
        → IsFound (after_top quote floor desired spendable cap osc (top_serves q cap spendable) q w)
    after_top-IsFound q w e = elim (Bool-cases (leb desired m)) [
      | inl top ↦
          let same : desired ≡ m = ground arith in
          rw (top_serves_at q e same) (ap (λ (a : Msat). some (a, cost)) same)
      | inr below ↦
          let short : (affordability q spendable).fits ≡ false =
            subst (λ (x : CandidateQuote). (affordability x spendable).fits ≡ false) (sym e)
              (largest desired (ground arith) (omega arith)) in
          rw (short_never_serves q short) (below_the_top q w short)
    ]

    -- For a positive floor and quotes that end and always price an amount the same, where between
    -- the floor and the ask the source affords whatever is below an amount that it affords: if the
    -- largest amount that it affords there is also within the fee cap at what it delivers, the
    -- search sizes exactly this amount at its price, unless a quote fails.
    pub search_evacuation_net-IsFound :
        (w : W) → IsFound (search_evacuation_net quote floor desired spendable cap osc w)
    unfolding search_evacuation_net
    search_evacuation_net-IsFound w =
        Returns-bind _ _ (quote desired w) _ (Returns-Answers (quote desired) (total desired) w)
          λ q u asked. after_top-IsFound q u (still desired q u asked)
