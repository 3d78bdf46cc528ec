-- ===== src/Fee/Exact.antt =====
-- What `gross_up` returns.
use fedimint_wallets.Prelude.{
  ℕ, zero, suc, ◌+◌, ◌-◌, ◌≤◌, ◌<◌, ◌≡◌, refl, true, false, Option, some, none, ltb, leb, ◌⊎◌,
  arith, u64_max, inl, inr, Bool-cases, leb→le, ap, ltb→lt, ◌==◌, sat_mul64,
}
use fedimint_wallets.Types.Federation.{Msat}
use fedimint_wallets.Fee.{
  GatewayFee, GrossUp, contract_of, delivered_net, forward, bracket, bisect, choose, solved,
  solve_between, gross_up,
}
use fedimint_wallets.Fee.Inversion.{
  IsFedFee, forward-grows, forward-gentle, forward-le, bisect-ends, bracket-ends,
}

-- The outcome of `gross_up`: a refusal because the gateway keeps everything or because not even the
-- largest invoice delivers the net, or the least invoice that delivers it, exactly.
abbrev pub IsSolution : GatewayFee → (Msat → Msat) → ℕ → Option GrossUp → Type 0
IsSolution g fed net none = (1000000 ≤ g.ppm) ⊎ (forward g fed u64_max < net)
IsSolution g fed net (some r) =
    (forward g fed r.invoice_amount ≡ net)
    × ((i : ℕ) → i < r.invoice_amount → forward g fed i < net)
    × (r.contract_amount ≡ contract_of g r.invoice_amount)
    × (delivered_net r ≡ net)
    × (r.invoice_amount ≤ u64_max)

module _ (g : GatewayFee) (fed : Msat → Msat) (rate : g.ppm ≤ 1000000) (ok : IsFedFee fed)
    (net : ℕ) where
  -- The end that is chosen solves the equation.
  end_solves :
      (l h : ℕ)
      → net ≤ l
      → l ≤ h
      → h ≤ l + 1
      → h ≤ u64_max
      → net ≤ forward g fed h
      → (l ≡ net) ⊎ (forward g fed l < net)
      → IsSolution g fed net (some (solved g fed net (choose g fed net (l, h))))
  unfolding choose solved delivered_net
  end_solves l h a b c top d k = elim (Bool-cases (leb net (forward g fed l))) [
    | inl low ↦
        let enough : net ≤ forward g fed l = leb→le _ _ low in
        let same : l ≡ net = elim k [ inl e ↦ e | inr short ↦ absurd (omega arith) ] in
        rw low (
          omega (arith, forward-le g fed l),
          λ i less. omega (arith, forward-le g fed i),
          refl,
          omega arith,
          omega arith,
        )
    | inr high ↦
        let short : forward g fed l < net = ground arith in
        let next : h ≡ l + 1 = elim (Bool-cases (ltb l h)) [
          | inl less ↦ omega (arith, ltb→lt l h less)
          | inr more ↦
              let same : h ≡ l = ground arith in absurd (omega (arith, ap (forward g fed) same))
        ] in
        rw high (
          omega (arith, forward-gentle g fed rate ok l, ap (forward g fed) next),
          λ i less.
              let at : i + (l - i) ≡ l = omega arith in
              omega (arith, forward-grows g fed rate ok i (l - i), ap (forward g fed) at),
          refl,
          omega arith,
          top,
        )
  ]

  between_solves :
      (hi : ℕ)
      → net ≤ hi
      → hi ≤ u64_max
      → net ≤ forward g fed hi
      → (r : GrossUp) × (solve_between g fed net (some (some hi)) ≡ some (some r))
        × IsSolution g fed net (some r)
  unfolding solve_between
  between_solves hi le top t =
      let (l, h, e, a, b, c, m, d, k) = bisect-ends g fed 64 net net hi le (omega arith) t in
      (
        solved g fed net (choose g fed net (l, h)),
        rw (e, solve_between),
        end_solves l h a b c (omega arith) d k,
      )

bracket_zero :
    (g : GatewayFee) (fed : Msat → Msat) (n : ℕ) → bracket g fed (suc n) 0 0 ≡ some (some 0)
unfolding bracket
bracket_zero g fed n = let fits : ltb (forward g fed 0) 0 ≡ false = ground arith in rw fits refl

-- For a net within u64, a gateway of any rate and a federation whose fee does not fall and takes at
-- most one of each further millisatoshi, `gross_up` ends within its fuel. It returns the least
-- invoice that delivers exactly the net, with its contract amount and a quote that leaves the net,
-- or it refuses, and then the gateway's rate reaches the whole amount or not even the largest
-- invoice delivers the net.
pub gross_up_solves :
    (g : GatewayFee) (fed : Msat → Msat) (net : ℕ)
    → IsFedFee fed
    → net ≤ u64_max
    → (r : Option GrossUp) × (gross_up g fed net ≡ some r) × IsSolution g fed net r
unfolding gross_up solve_between
gross_up_solves g fed zero ok le = elim (Bool-cases (leb 1000000 g.ppm)) [
  | inl all ↦ (none, rw all, inl (leb→le _ _ all))
  | inr part ↦
      let (r, at, is) = between_solves g fed (ground arith) ok 0 0 (omega arith) le (omega arith) in
      (some r, rw (part, bracket_zero g fed 65) at, is)
]
gross_up_solves g fed (suc net) ok le = elim (Bool-cases (leb 1000000 g.ppm)) [
  | inl all ↦ (none, rw all, inl (leb→le _ _ all))
  | inr part ↦ elim (bracket-ends g fed 65 (suc net) (suc net) (omega arith) le (omega arith)) [
    | inl (e, short) ↦ (none, rw (part, e), inr short)
    | inr (top, e, a, b, c) ↦
        let (r, at, is) = between_solves g fed (ground arith) ok (suc net) top a b c in
        (some r, rw (part, e) at, is)
  ]
]

-- Beyond u64 no amount exists; the solver ends there too.
module _ (g : GatewayFee) (fed : Msat → Msat) (net : ℕ) (beyond : u64_max < net) where
  bracket_beyond :
      (n : ℕ)
      → (bracket g fed (suc (suc n)) net net ≡ none)
        ⊎ (bracket g fed (suc (suc n)) net net ≡ some (some net))
  unfolding bracket
  bracket_beyond n = elim (Bool-cases (ltb (forward g fed net) net)) [
    | inr fits ↦ inr (rw fits refl)
    | inl short ↦
        let other : (net == u64_max) ≡ false = ground arith in
        let top : sat_mul64 net 2 ≡ u64_max = ground arith in
        let still : ltb (forward g fed u64_max) net ≡ true =
          ground (arith, forward-le g fed u64_max) in
        inl (rw (short, other, top, still) refl)
  ]

  bisect_still : (n : ℕ) → bisect g fed (suc n) net net net ≡ some (net, net)
  unfolding bisect
  bisect_still n = let narrow : ltb 1 (net - net) ≡ false = ground arith in rw narrow refl

  choose_same : choose g fed net (net, net) ≡ net
  unfolding choose
  choose_same = ground arith

  solve_still : solve_between g fed net (some (some net)) ≡ some (some (solved g fed net net))
  unfolding solve_between
  solve_still = rw (bisect_still 64, solve_between) (rw choose_same refl)

  solve_none : solve_between g fed net none ≡ some none
  unfolding solve_between
  solve_none = refl

  pub gross_up_beyond :
      (r : Option GrossUp) × (gross_up g fed net ≡ some r)
      × ((r ≡ none) ⊎ (r ≡ some (solved g fed net net)))
  unfolding gross_up
  gross_up_beyond = elim (Bool-cases (leb 1000000 g.ppm)) [
    | inl all ↦ (none, rw all refl, inl refl)
    | inr part ↦ elim (bracket_beyond 64) [
      | inl e ↦ (none, rw (part, e) solve_none, inl refl)
      | inr e ↦ (some (solved g fed net net), rw (part, e) solve_still, inr refl)
    ]
  ]
