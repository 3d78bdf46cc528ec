-- ===== src/Executor/Search/Served.antt =====
-- What a size that the search returns is worth, whatever the quotes answer.
use fedimint_wallets.Prelude.{
  ℕ, ◌≤◌, true, Option, some, none, ◌≡◌, refl, inl, inr, leb, ltb, arith, Bool-cases, subst,
}
use fedimint_wallets.Types.Federation.{Msat, EvacFeeCap, cap_at}
use fedimint_wallets.Executor.Run.{
  Outcome, Run, Returns, IsTotal, Answers, Returns-Answers, Returns-bind,
}
use fedimint_wallets.Executor.Cost.{
  FreshMoveCost, CandidateQuote, priced, unquotable, ProbeVerdict, delivered_net, total_fee,
  source_debit, affordability, fits_cap, combined_verdict, combined_fits, fits_cap_within,
  affordable_within,
}
use fedimint_wallets.Executor.Sizing.{largest_fitting_amount}
use fedimint_wallets.Executor.Sizing.Frontier.{IsFrontier, largest_fitting_amount-IsFrontier}
use fedimint_wallets.Executor.Search.{
  EvacuationSearch, IsHintWithin, top_serves, top_hint, afford_probe, combined_probe, revalidated,
  second_pass, fresh_hint, requoted, first_pass, after_top, search_evacuation_net,
}

module _ {W : Type 0} (quote : Msat → Run W CandidateQuote) (spendable : Msat)
    (cap : EvacFeeCap) where
  -- The last quote of the run priced the net so, which the balance can pay, and within the cap at
  -- what the quote delivers.
  abbrev pub IsPriced : Msat → FreshMoveCost → W → Type 0
  IsPriced net cost w =
      Answers (quote net) (priced cost) w
      × (source_debit cost ≤ spendable)
      × (total_fee cost ≤ cap_at cap (delivered_net cost))

  abbrev pub IsSizedWithin : Msat → Option (Msat × FreshMoveCost) → W → Type 0
  IsSizedWithin desired none w = Unit
  IsSizedWithin desired (some (net, cost)) w = (net ≤ desired) × IsPriced net cost w

  -- What a search of the quotes up to `desired` returns.
  abbrev pub IsSearched : Msat → EvacuationSearch → W → Type 0
  IsSearched desired s w =
      IsHintWithin desired s.largest_affordable_hint × IsSizedWithin desired s.sized w

  -- A quote that the combined check accepts.
  accepted_IsPriced :
      (net : Msat) (cost : FreshMoveCost) (w : W)
      → Answers (quote net) (priced cost) w
      → (combined_verdict (priced cost) cap spendable).fits ≡ true
      → IsPriced net cost w
  accepted_IsPriced net cost w asked h =
      let fit = combined_fits cost cap spendable h in (asked, fit.0, fit.1)

  module _ (total : (a : Msat) → IsTotal (quote a)) (floor desired osc : ℕ) (pos : 1 ≤ floor) where
    pub afford_probe-IsTotal :
        (a : ℕ) → IsTotal (afford_probe quote floor desired spendable cap osc a)
    afford_probe-IsTotal a w =
        Returns-bind _ _ (quote a w) _ (Returns-Answers (quote a) (total a) w) (λ q u h. tt)

    pub combined_probe-IsTotal :
        (a : ℕ) → IsTotal (combined_probe quote floor desired spendable cap osc a)
    combined_probe-IsTotal a w =
        Returns-bind _ _ (quote a w) _ (Returns-Answers (quote a) (total a) w) (λ q u h. tt)

    -- A sized result, of the combined check or of none.
    checked_within :
        (hint : Option Msat) (net : Msat) (q : CandidateQuote) (w : W)
        → IsHintWithin desired hint
        → net ≤ desired
        → Answers (quote net) q w
        → IsSearched desired (revalidated quote floor desired spendable cap osc hint net q) w
    checked_within hint net (unquotable shortfall) w small le asked = (small, tt)
    checked_within hint net (priced cost) w small le asked =
        elim (Bool-cases (combined_verdict (priced cost) cap spendable).fits) [
          | inl fit ↦ rw fit (small, (le, accepted_IsPriced net cost w asked fit))
          | inr over ↦ rw over (small, tt)
        ]

    -- The result of each part of the search, from the state where it begins.
    abbrev IsWithin : Outcome EvacuationSearch × W → Type 0
    IsWithin r = Returns (IsSearched desired) r

    second_pass-IsWithin :
        (hint : Option Msat) (top : ℕ) (r : Option ℕ) (w : W)
        → IsHintWithin desired hint
        → top ≤ desired
        → IsFrontier (combined_probe quote floor desired spendable cap osc) floor top r
        → IsWithin (second_pass quote floor desired spendable cap osc hint r w)
    second_pass-IsWithin hint top none w small le edge = (small, tt)
    second_pass-IsWithin hint top (some net) w small le edge =
        Returns-bind _ _ (quote net w) _ (Returns-Answers (quote net) (total net) w)
          λ q u asked. checked_within hint net q u small (omega arith) asked

    requoted-IsWithin :
        (hint : Option Msat) (net : Msat) (q : CandidateQuote) (w : W)
        → IsHintWithin desired hint
        → net ≤ desired
        → Answers (quote net) q w
        → IsWithin (requoted quote floor desired spendable cap osc hint net q w)
    requoted-IsWithin hint net (unquotable shortfall) w small le asked = (small, tt)
    requoted-IsWithin hint net (priced cost) w small le asked =
        elim (Bool-cases (combined_verdict (priced cost) cap spendable).fits) [
          | inl fit ↦ rw fit (fresh_within, (le, accepted_IsPriced net cost w asked fit))
          | inr over ↦ rw over (
              Returns-bind _ _ (largest_fitting_amount combined floor net osc w) _
                (largest_fitting_amount-IsFrontier combined combined_probe-IsTotal floor net osc w
                  pos)
                λ r u edge. second_pass-IsWithin hint' net r u fresh_within le edge)
        ]
      where
        combined : ℕ → Run W ProbeVerdict
        combined = combined_probe quote floor desired spendable cap osc

        hint' : Option Msat
        hint' = fresh_hint quote floor desired spendable cap osc cost net

        fresh_within : IsHintWithin desired hint'
        fresh_within = elim (Bool-cases (leb (source_debit cost) spendable)) [
          | inl paid ↦ rw paid le
          | inr short ↦ rw short tt
        ]

    first_pass-IsWithin :
        (hint : Option Msat) (r : Option ℕ) (w : W)
        → IsHintWithin desired hint
        → ((net : ℕ) → r ≡ some net → net ≤ desired)
        → IsWithin (first_pass quote floor desired spendable cap osc hint r w)
    first_pass-IsWithin hint none w small within = (small, tt)
    first_pass-IsWithin hint (some net) w small within =
        Returns-bind _ _ (quote net w) _ (Returns-Answers (quote net) (total net) w)
          λ q u asked. requoted-IsWithin hint net q u small (within net refl) asked

    frontier_within :
        (probe : ℕ → Run W ProbeVerdict) (r : Option ℕ)
        → IsFrontier probe floor desired r
        → (net : ℕ) → r ≡ some net
        → net ≤ desired
    frontier_within probe none edge net e = ground arith
    frontier_within probe (some a) edge net e = ground arith

    -- What the full ask's quote says when it serves.
    top_serves-IsPriced :
        (q : CandidateQuote) (cost : FreshMoveCost) (w : W)
        → Answers (quote desired) q w
        → top_serves q cap spendable ≡ some cost
        → IsPriced desired cost w
    top_serves-IsPriced (unquotable shortfall) cost w asked e = ground arith
    top_serves-IsPriced (priced c) cost w asked e =
        let paid : (affordability (priced c) spendable).fits ≡ true = ground arith in
        let capped : fits_cap c cap ≡ true = ground arith in
        let same : c ≡ cost = ground arith in
        subst (λ (x : FreshMoveCost). IsPriced desired x w) same
          (asked, affordable_within c cap spendable paid, fits_cap_within c cap spendable capped)

    top_hint_within : (q : CandidateQuote) → IsHintWithin desired (top_hint q spendable desired)
    top_hint_within (unquotable shortfall) = tt
    top_hint_within (priced c) = elim (Bool-cases (affordability (priced c) spendable).fits) [
      | inl paid ↦ rw paid (omega arith)
      | inr short ↦ rw short tt
    ]

    after_top-IsWithin :
        (serves : Option FreshMoveCost) (q : CandidateQuote) (w : W)
        → top_serves q cap spendable ≡ serves
        → Answers (quote desired) q w
        → IsWithin (after_top quote floor desired spendable cap osc serves q w)
    after_top-IsWithin (some cost) q w e asked =
        (top_hint_within q, (omega arith, top_serves-IsPriced q cost w asked e))
    after_top-IsWithin none q w e asked = elim (Bool-cases (ltb desired floor)) [
      | inl dust ↦ rw dust (top_hint_within q, tt)
      | inr range ↦ elim (Bool-cases (affordability q spendable).fits) [
        | inl paid ↦ rw range (
            rw paid (
              first_pass-IsWithin (top_hint q spendable desired) (some desired) w
                (top_hint_within q) (λ net e'. ground arith)))
        | inr short ↦ rw range (
            rw short (
              Returns-bind _ _ (largest_fitting_amount afford floor desired osc w) _
                (largest_fitting_amount-IsFrontier afford afford_probe-IsTotal floor desired osc w
                  pos)
                λ r u edge.
                  first_pass-IsWithin (top_hint q spendable desired) r u (top_hint_within q)
                    (frontier_within afford r edge)))
      ]
    ]
      where
        afford : ℕ → Run W ProbeVerdict
        afford = afford_probe quote floor desired spendable cap osc

    -- The search ends; a size that it returns is one that the last quote of the run priced, and the
    -- hint is not above the ask.
    pub search_evacuation_net-IsSearched :
        (w : W)
        → Returns
            (IsSearched desired)
            (search_evacuation_net quote floor desired spendable cap osc w)
    unfolding search_evacuation_net
    search_evacuation_net-IsSearched w =
        Returns-bind _ _ (quote desired w) _ (Returns-Answers (quote desired) (total desired) w)
          λ q u asked. after_top-IsWithin (top_serves q cap spendable) q u refl asked
