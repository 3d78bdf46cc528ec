-- ===== src/Fee/Inversion.antt =====
-- The two loops of `gross_up`: the bracket and the bisection end, and where.
use fedimint_wallets.Prelude.{
  ℕ, zero, suc, ◌+◌, ◌-◌, ◌*◌, ◌/◌, ◌^◌, ◌≤◌, ◌<◌, ◌≡◌, refl, true, false, some, none, ltb, leb,
  ◌==◌, ◌⊎◌, arith, u64_max, sat_mul64, inl, inr, Bool-cases, ltb→lt, leb→le, ==_iff, ap,
  two_pow_pos,
}
use native.Mathlib.Nat.{pow-suc}
use fedimint_wallets.Types.Federation.{Msat}
use fedimint_wallets.Fee.{GatewayFee, fee_on, contract_of, forward, bracket, bisect}

-- What the source relies on of the federation's fee: it does not fall as the contract grows, and it
-- takes at most one millisatoshi of each further one.
pub record IsFedFee (fed : Msat → Msat) : Type 0 where
  pub grows : (a b : ℕ) → a ≤ b → fed a ≤ fed b
  pub gentle : (a b : ℕ) → a ≤ b → fed b ≤ fed a + (b - a)

ppm_share : (a k ppm : ℕ) → ppm ≤ 1000000 → (a + k) * ppm ≤ a * ppm + k * 1000000
ppm_share a k ppm h = grind arith

fee_on-gentle : (g : GatewayFee) (a k : ℕ) → g.ppm ≤ 1000000 → fee_on g (a + k) ≤ fee_on g a + k
unfolding fee_on
fee_on-gentle g a k h = omega (arith, ppm_share a k g.ppm h)

fee_on-grows : (g : GatewayFee) (a k : ℕ) → fee_on g a ≤ fee_on g (a + k)
unfolding fee_on
fee_on-grows g a k = grind arith

-- What an invoice delivers then neither falls as the invoice grows, nor rises faster than it.
module _ (g : GatewayFee) (fed : Msat → Msat) (rate : g.ppm ≤ 1000000) (ok : IsFedFee fed) where
  pub forward-grows : (a k : ℕ) → forward g fed a ≤ forward g fed (a + k)
  unfolding forward contract_of
  forward-grows a k =
      let contract : a - fee_on g a ≤ a + k - fee_on g (a + k) =
        omega (arith, fee_on-gentle g a k rate) in
      omega (arith, ok.gentle (a - fee_on g a) (a + k - fee_on g (a + k)) contract)

  pub forward-gentle : (a : ℕ) → forward g fed (a + 1) ≤ forward g fed a + 1
  unfolding forward contract_of
  forward-gentle a =
      let contract : a - fee_on g a ≤ a + 1 - fee_on g (a + 1) =
        omega (arith, fee_on-gentle g a 1 rate) in
      omega
        (arith, fee_on-grows g a 1, ok.grows (a - fee_on g a) (a + 1 - fee_on g (a + 1)) contract)

pub forward-le : (g : GatewayFee) (fed : Msat → Msat) (a : ℕ) → forward g fed a ≤ a
unfolding forward contract_of
forward-le g fed a = omega arith

doubled : (fuel hi : ℕ) → u64_max ≤ 2 ^ suc fuel * hi → u64_max ≤ 2 ^ fuel * sat_mul64 hi 2
doubled fuel hi big = elim (Bool-cases (leb (hi * 2) u64_max)) [
  | inl t ↦
      let room : hi * 2 ≤ u64_max = leb→le _ _ t in
      let same : sat_mul64 hi 2 ≡ hi * 2 = omega arith in
      rw same (omega (arith, ap (λ (x : ℕ). x * hi) (pow-suc 2 fuel)))
  | inr f ↦
      let top : sat_mul64 hi 2 ≡ u64_max = ground arith in rw top (omega (arith, two_pow_pos fuel))
]

module _ (g : GatewayFee) (fed : Msat → Msat) where
  -- A bisection whose upper end delivers ends with neighbours, the upper of which still delivers,
  -- and the lower of which does not unless it is where it began.
  pub bisect-ends :
      (fuel net lo hi : ℕ)
      → lo ≤ hi
      → hi - lo ≤ 2 ^ fuel
      → net ≤ forward g fed hi
      → (l h : ℕ) × (bisect g fed (suc fuel) net lo hi ≡ some (l, h))
        × (lo ≤ l)
        × (l ≤ h)
        × (h ≤ l + 1)
        × (h ≤ hi)
        × (net ≤ forward g fed h)
        × ((l ≡ lo) ⊎ (forward g fed l < net))
  unfolding bisect
  bisect-ends zero net lo hi le gap t =
      let stop : ltb 1 (hi - lo) ≡ false = ground arith in
      (lo, hi, rw stop, omega arith, le, omega arith, omega arith, t, inl refl)
  bisect-ends (suc fuel) net lo hi le gap t = elim (Bool-cases (ltb 1 (hi - lo))) [
    | inr stop ↦ (lo, hi, rw stop, omega arith, le, ground arith, omega arith, t, inl refl)
    | inl go ↦
        let wide : 1 < hi - lo = ltb→lt 1 (hi - lo) go in
        let halves : hi - lo ≤ 2 * 2 ^ fuel = omega (arith, pow-suc 2 fuel) in
        elim (Bool-cases (leb net (forward g fed (lo + (hi - lo) / 2)))) [
          | inl low ↦
              let (l, h, e, a, b, c, m, d, k) =
                bisect-ends fuel net lo (lo + (hi - lo) / 2) (omega arith) (omega arith)
                  (leb→le _ _ low) in
              (l, h, rw (go, low) e, a, b, c, omega arith, d, k)
          | inr high ↦
              let (l, h, e, a, b, c, m, d, k) =
                bisect-ends fuel net (lo + (hi - lo) / 2) hi (omega arith) (omega arith) t in
              (
                l,
                h,
                rw (go, high) e,
                omega arith,
                b,
                c,
                m,
                d,
                inr (elim k [ inl at ↦ rw at (ground arith) | inr q ↦ q ]),
              )
        ]
  ]

  -- While the bracket doubles, it stays at or above the net, and it ends in time.
  pub bracket-ends :
      (fuel net hi : ℕ)
      → net ≤ hi
      → hi ≤ u64_max
      → u64_max ≤ 2 ^ fuel * hi
      → (((bracket g fed (suc fuel) net hi ≡ none) × (forward g fed u64_max < net))
          ⊎ ((top : ℕ) × (bracket g fed (suc fuel) net hi ≡ some (some top))
              × (net ≤ top)
              × (top ≤ u64_max)
              × (net ≤ forward g fed top)))
  unfolding bracket
  bracket-ends zero net hi le max big = elim (Bool-cases (ltb (forward g fed hi) net)) [
    | inr fits ↦ rw fits (inr (hi, refl, le, max, ground arith))
    | inl short ↦
        let last : hi ≡ u64_max = omega arith in
        let stop : (hi == u64_max) ≡ true = ground arith in
        rw (short, stop) (inl (refl, rw (← last) (ltb→lt _ _ short)))
  ]
  bracket-ends (suc fuel) net hi le max big = elim (Bool-cases (ltb (forward g fed hi) net)) [
    | inr fits ↦ rw fits (inr (hi, refl, le, max, ground arith))
    | inl short ↦ elim (Bool-cases (hi == u64_max)) [
      | inl stop ↦
          let last : hi ≡ u64_max = (==_iff hi u64_max).0 stop in
          rw (short, stop) (inl (refl, rw (← last) (ltb→lt _ _ short)))
      | inr more ↦
          rw (short, more)
            (bracket-ends fuel net (sat_mul64 hi 2) (omega arith) (omega arith)
              (doubled fuel hi big))
    ]
  ]
