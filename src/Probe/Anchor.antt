-- ===== src/Probe/Anchor.antt =====
-- How long a passed verdict lasts.
use fedimint_wallets.Prelude.{
  ℕ, ◌-◌, ◌≤◌, ◌≡◌, refl, Bool, true, false, not, List, [], ◌∷◌, ltb, ◌==◌, if◌then◌else◌,
  Bool-cases, inl, inr, arith, ==_iff,
}
use fedimint_wallets.Types.Federation.{FederationId}
use fedimint_wallets.Probe.{
  ProbeAttempt, ProbePolicy, is_outside, from_partition, qualifying_slice_passes, anchor_from,
}
use fedimint_wallets.Probe.Window.{IsFrom, IsSorted}

-- More evidence, from earlier on, passes all the more.
more_passes :
    (policy : ProbePolicy) (a : ProbeAttempt) (rest : List ProbeAttempt)
    → IsFrom a.at_ms rest
    → qualifying_slice_passes policy rest ≡ true
    → qualifying_slice_passes policy (a ∷ rest) ≡ true
unfolding qualifying_slice_passes
more_passes policy a [] h e = absurd (cc)
more_passes policy a (b ∷ rest) (first, all) e = ground arith

module _ (policy : ProbePolicy) (now_ms : ℕ) where
  abbrev pub later : List ProbeAttempt → List ProbeAttempt
  later attempts = from_partition (is_outside now_ms policy) attempts

  abbrev pub is_past : ℕ → Bool
  is_past t = ltb policy.ttl_ms (now_ms - t)

  later_passes :
      (attempts : List ProbeAttempt)
      → IsSorted attempts
      → qualifying_slice_passes policy (later attempts) ≡ true
      → qualifying_slice_passes policy attempts ≡ true
  unfolding from_partition is_outside
  later_passes [] h e = e
  later_passes (a ∷ rest) (from_a, sorted) e = elim (Bool-cases (is_past a.at_ms)) [
    | inr inside ↦ rw inside at e
    | inl outside ↦ more_passes policy a rest from_a (later_passes rest sorted (rw outside at e))
  ]

  fails_later :
      (attempts : List ProbeAttempt)
      → IsSorted attempts
      → qualifying_slice_passes policy attempts ≡ false
      → qualifying_slice_passes policy (later attempts) ≡ false
  fails_later attempts sorted e =
      elim (Bool-cases (qualifying_slice_passes policy (later attempts))) [
        | inr f ↦ f
        | inl t ↦ absurd (let no = later_passes attempts sorted t in cc)
      ]

  -- What is kept of a list, for the time of its first attempts and what comes after them.
  abbrev pub StartsAt : ℕ → List ProbeAttempt → List ProbeAttempt → Type 0
  StartsAt t rest whole = later whole ≡ (if is_past t then later rest else whole)

  abbrev pub AnchorsAt : ℕ → List ProbeAttempt → Type 0
  AnchorsAt t whole = qualifying_slice_passes policy (later whole) ≡ not (is_past t)

  anchor_late :
      (source : FederationId) (t : ℕ) (rest : List ProbeAttempt)
      → IsFrom t rest
      → IsSorted rest
      → t ≤ anchor_from source policy t rest
  unfolding anchor_from
  anchor_late source t [] h sorted = omega arith
  anchor_late source t (a ∷ rest) (first, all) (from_a, sorted) =
      ground
        (arith, anchor_late source t rest all sorted, anchor_late source a.at_ms rest from_a sorted)

  pub anchor-AnchorsAt :
      (source : FederationId) (t : ℕ) (rest whole : List ProbeAttempt)
      → IsFrom t rest
      → IsSorted rest
      → qualifying_slice_passes policy whole ≡ true
      → StartsAt t rest whole
      → AnchorsAt (anchor_from source policy t rest) whole
  unfolding anchor_from from_partition is_outside qualifying_slice_passes
  anchor-AnchorsAt source t [] whole h sorted enough starts = elim (Bool-cases (is_past t)) [
    | inl past ↦ rw (starts, past) refl
    | inr fresh ↦ rw (starts, fresh) enough
  ]
  anchor-AnchorsAt source t (a ∷ rest) whole (first, all) (from_a, sorted) enough starts =
      elim (Bool-cases (a.at_ms == t)) [
        | inl same ↦
            let starts' : StartsAt t rest whole = ground (arith, ==_iff a.at_ms t) in
            rw same (anchor-AnchorsAt source t rest whole all sorted enough starts')
        | inr other ↦ elim (Bool-cases (qualifying_slice_passes policy (a ∷ rest))) [
          | inr stop ↦ elim (Bool-cases (is_past t)) [
            | inr fresh ↦ rw (other, stop, starts, fresh) enough
            | inl past ↦
                rw (other, stop, starts, past) (fails_later (a ∷ rest) (from_a, sorted) stop)
          ]
          | inl go ↦
              let next = anchor-AnchorsAt source a.at_ms rest (a ∷ rest) from_a sorted go refl in
              let bound = anchor_late source a.at_ms rest from_a sorted in
              elim (Bool-cases (is_past t)) [
                | inl past ↦ rw (other, go, starts, past) next
                | inr fresh ↦ rw (other, go, starts, fresh) (ground arith)
              ]
        ]
      ]
