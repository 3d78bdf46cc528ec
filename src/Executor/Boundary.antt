-- ===== src/Executor/Boundary.antt =====
-- The note-selection boundaries around an amount, and the first of them that fits
-- (wallet-fedimint/src/executor.rs). The 128-bit products stay below 2^65, so nothing wraps.
pub mod Range
use mathlib.Core.List.{reverse}
use fedimint_wallets.Prelude.{
  ℕ, zero, suc, ◌+◌, ◌-◌, ◌*◌, ◌/◌, ◌^◌, min, true, false, List, [], ◌∷◌, ◌==◌, ltb, length,
  if◌then◌else◌, u64_max, div_ceil,
}
use fedimint_wallets.Types.Federation.{Msat}

abbrev pub note_boundary_probes : ℕ
note_boundary_probes = 8

-- `if out.last() != Some(&candidate) { out.push(candidate) }`, on a list with its last element first.
abbrev pub push_new : ℕ → List ℕ → List ℕ
push_new candidate [] = candidate ∷ []
push_new candidate (last ∷ out) = if candidate == last then last ∷ out else candidate ∷ (last ∷ out)

-- The next multiple of the tier 2^k strictly above the amount.
abbrev pub crossing_above : ℕ → ℕ → ℕ
crossing_above amount k = (amount / 2 ^ k + 1) * 2 ^ k

-- The loop for `k` from the highest bit down; `out` has its last element first.
unfoldable pub scan_above : ℕ → ℕ → ℕ → List ℕ → List ℕ
scan_above zero amount ceiling out = out
scan_above (suc k) amount ceiling out =
    let candidate = crossing_above amount k in
    let pushed = push_new candidate out in
    elim (ltb ceiling candidate) [
      | true ↦ scan_above k amount ceiling out
      | false ↦ elim (length pushed == note_boundary_probes) [
        | true ↦ pushed
        | false ↦ scan_above k amount ceiling pushed
      ]
    ]

unfoldable pub note_boundaries_above : ℕ → ℕ → List ℕ
unfolding scan_above
note_boundaries_above amount ceiling = reverse (scan_above 64 amount ceiling [])

-- The loop for `k` from `64 - left` up.
unfoldable pub scan_below : ℕ → ℕ → ℕ → List ℕ → List ℕ
scan_below zero amount floor out = out
scan_below (suc left) amount floor out =
    let step = 2 ^ (63 - left) in
    let boundary = amount / step * step in
    let candidate = boundary - 1 in
    let pushed = push_new candidate out in
    elim (boundary == 0) [
      | true ↦ out
      | false ↦ elim (ltb candidate floor) [
        | true ↦ out
        | false ↦ elim (length pushed == note_boundary_probes) [
          | true ↦ pushed
          | false ↦ scan_below left amount floor pushed
        ]
      ]
    ]

unfoldable pub note_boundaries_below : ℕ → ℕ → List ℕ
unfolding scan_below
note_boundaries_below amount floor = reverse (scan_below 64 amount floor [])

-- The highest rate that a mint may charge on a note, and its base fee.
abbrev pub mint_fee_base_msat : Msat
mint_fee_base_msat = 100

abbrev pub mint_fee_ppm_ceiling : ℕ
mint_fee_ppm_ceiling = 1000

-- `u64::BITS - n.leading_zeros()`, for n > 0, with fuel for the bits.
unfoldable pub bit_length : ℕ → ℕ → ℕ
bit_length zero n = 0
bit_length (suc f) n = let rest = bit_length f (n / 2) in if n == 0 then 0 else rest + 1

unfoldable pub oscillation_bound : Msat → ℕ
unfolding bit_length
oscillation_bound v_max =
    let tiers = bit_length 64 (if v_max == 0 then 1 else v_max) in
    min
      (6
        + 2 * (300 * tiers + mint_fee_base_msat)
        + 2100
        + 2 * div_ceil (v_max * mint_fee_ppm_ceiling) 1000000)
      u64_max
