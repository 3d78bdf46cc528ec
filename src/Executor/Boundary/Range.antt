-- ===== src/Executor/Boundary/Range.antt =====
-- Where the boundaries of a probe lie.
use native.Mathlib.Nat.{div-mul-le_self, lt-div-mul-add}
use mathlib.Core.List.{reverse, reverse-cons}
use fedimint_wallets.Prelude.{
  ℕ, zero, suc, ◌-◌, ◌*◌, ◌/◌, ◌^◌, ◌≤◌, ◌<◌, List, [], ◌∷◌, ltb, ◌==◌, length, All, All-append,
  arith, Bool-cases, inl, inr, two_pow_pos,
}
use fedimint_wallets.Executor.Boundary.{
  note_boundary_probes, push_new, crossing_above, scan_above, note_boundaries_above, scan_below,
  note_boundaries_below,
}

All-reverse : (P : ℕ → Type 0) (xs : List ℕ) → All P xs → All P (reverse xs)
All-reverse P [] h = h
All-reverse P (x ∷ xs) h =
    rw (reverse-cons x xs) (All-append P (reverse xs) (x ∷ []) (All-reverse P xs h.1) (h.0, tt))

push_new-All :
    (P : ℕ → Type 0) (candidate : ℕ) (out : List ℕ)
    → P candidate
    → All P out
    → All P (push_new candidate out)
push_new-All P candidate [] p h = (p, tt)
push_new-All P candidate (last ∷ out) p h = elim (Bool-cases (candidate == last)) [
  | inl same ↦ rw same h
  | inr new ↦ rw new (p, h)
]

crossing_above-gt : (amount k : ℕ) → amount < crossing_above amount k
crossing_above-gt amount k = grind (arith, lt-div-mul-add {a = amount} {b = 2 ^ k} (two_pow_pos k))

abbrev pub IsAbove : (amount ceiling candidate : ℕ) → Type 0
IsAbove amount ceiling candidate = (amount < candidate) × (candidate ≤ ceiling)

abbrev pub IsBelow : (amount floor candidate : ℕ) → Type 0
IsBelow amount floor candidate = (candidate < amount) × (floor ≤ candidate)

scan_above-All :
    (k amount ceiling : ℕ) (out : List ℕ)
    → All (IsAbove amount ceiling) out
    → All (IsAbove amount ceiling) (scan_above k amount ceiling out)
unfolding scan_above
scan_above-All zero amount ceiling out h = h
scan_above-All (suc k) amount ceiling out h = elim (Bool-cases (ltb ceiling candidate)) [
  | inl out_of_range ↦ rw (out_of_range, All) (scan_above-All k amount ceiling out h)
  | inr within ↦
      let kept : All (IsAbove amount ceiling) pushed =
        push_new-All _ candidate out (crossing_above-gt amount k, ground arith) h in
      elim (Bool-cases (length pushed == note_boundary_probes)) [
        | inl full ↦ rw (within, All) (rw (full, All) kept)
        | inr more ↦ rw (within, All) (rw (more, All) (scan_above-All k amount ceiling pushed kept))
      ]
]
  where
    candidate : ℕ
    candidate = crossing_above amount k

    pushed : List ℕ
    pushed = push_new candidate out

-- The boundaries above an amount lie above it, and not above the ceiling.
pub note_boundaries_above-All :
    (amount ceiling : ℕ) → All (IsAbove amount ceiling) (note_boundaries_above amount ceiling)
unfolding note_boundaries_above
note_boundaries_above-All amount ceiling =
    All-reverse _ (scan_above 64 amount ceiling []) (scan_above-All 64 amount ceiling [] tt)

scan_below-All :
    (left amount floor : ℕ) (out : List ℕ)
    → All (IsBelow amount floor) out
    → All (IsBelow amount floor) (scan_below left amount floor out)
unfolding scan_below
scan_below-All zero amount floor out h = h
scan_below-All (suc left) amount floor out h = elim (Bool-cases (boundary == 0)) [
  | inl done ↦ rw (done, All) h
  | inr positive ↦ elim (Bool-cases (ltb (boundary - 1) floor)) [
    | inl low ↦ rw (positive, All) (rw (low, All) h)
    | inr within ↦
        let kept : All (IsBelow amount floor) pushed =
          push_new-All _ (boundary - 1) out (ground (arith, div-mul-le_self amount step)) h in
        elim (Bool-cases (length pushed == note_boundary_probes)) [
          | inl full ↦ rw (positive, All) (rw (within, All) (rw (full, All) kept))
          | inr more ↦
              rw (positive, All)
                (rw (within, All) (rw (more, All) (scan_below-All left amount floor pushed kept)))
        ]
  ]
]
  where
    step : ℕ
    step = 2 ^ (63 - left)

    boundary : ℕ
    boundary = amount / step * step

    pushed : List ℕ
    pushed = push_new (boundary - 1) out

-- The boundaries below an amount lie below it, and not below the floor.
pub note_boundaries_below-All :
    (amount floor : ℕ) → All (IsBelow amount floor) (note_boundaries_below amount floor)
unfolding note_boundaries_below
note_boundaries_below-All amount floor =
    All-reverse _ (scan_below 64 amount floor []) (scan_below-All 64 amount floor [] tt)
