-- ===== src/Probe/Lasting.antt =====
-- The verdict as a test of the evidence, and the time at which it stops being passed.
use fedimint_wallets.Prelude.{
  ℕ, ◌-◌, ◌≤◌, ◌≡◌, refl, sym, ap, ◌∙◌, ◌↔◌, Bool, true, false, not, some, List, [], ◌∷◌, ◌++◌, any,
  filter, Bool-cases, inl, inr, arith,
}
use fedimint_wallets.Types.Federation.{FederationId}
use fedimint_wallets.Probe.{
  ProbeAttempt, ProbePolicy, ActiveProbeVerdict, passed, qualifies, sort_by_time, is_outside,
  from_partition, to_partition, success_suffix, qualifying_slice_passes, suffix_verdict,
  window_verdict, probe_verdict, first_anchor, anchor_from, probe_pass_expiry_anchor_ms,
  before_last_failure, prior_qualifying_pass,
}
use fedimint_wallets.Probe.Window.{
  IsSorted, sort-IsSorted, filter-IsSorted, suffix-IsSorted, window-filter, window-suffix,
}
use fedimint_wallets.Probe.Anchor.{later, is_past, anchor-AnchorsAt}

abbrev is_passed : ActiveProbeVerdict → Bool
is_passed passed = true
is_passed _ = false

is_passed_iff : (v : ActiveProbeVerdict) → is_passed v ≡ true → v ≡ passed
is_passed_iff v h = ground arith

later_twice :
    (policy : ProbePolicy) (now_ms now_ms' : ℕ) (attempts : List ProbeAttempt)
    → now_ms ≤ now_ms'
    → later policy now_ms' (later policy now_ms attempts) ≡ later policy now_ms' attempts
unfolding from_partition is_outside
later_twice policy now_ms now_ms' [] h = refl
later_twice policy now_ms now_ms' (a ∷ rest) h = elim (Bool-cases (is_past policy now_ms a.at_ms)) [
  | inr inside ↦ rw inside refl
  | inl outside ↦
      let outside' : is_past policy now_ms' a.at_ms ≡ true = ground arith in
      rw (outside, outside') (later_twice policy now_ms now_ms' rest h)
]

module _ (source : FederationId) (policy : ProbePolicy) where
  suffix_verdict-passed :
      (stale window suffix : List ProbeAttempt)
      → is_passed (suffix_verdict source policy stale window suffix)
        ≡ qualifying_slice_passes policy (filter (qualifies source policy) suffix)
  unfolding suffix_verdict qualifying_slice_passes filter
  suffix_verdict-passed stale window [] =
      elim (Bool-cases
        (prior_qualifying_pass source policy (stale ++ before_last_failure window))) [
          | inl t ↦ rw t refl
          | inr f ↦ rw f refl
        ]
  suffix_verdict-passed stale window (a ∷ rest) =
      elim (Bool-cases
        (qualifying_slice_passes policy (filter (qualifies source policy) (a ∷ rest)))) [
          | inl t ↦ rw t refl
          | inr f ↦ rw f refl
        ]

  window_verdict-passed :
      (stale window : List ProbeAttempt)
      → is_passed (window_verdict source policy stale window)
        ≡ qualifying_slice_passes policy (filter (qualifies source policy) (success_suffix window))
  unfolding window_verdict qualifying_slice_passes filter success_suffix
  window_verdict-passed stale [] = elim (Bool-cases (any (qualifies source policy) stale)) [
    | inl t ↦ rw t refl
    | inr f ↦ rw f refl
  ]
  window_verdict-passed stale (a ∷ rest) =
      suffix_verdict-passed stale (a ∷ rest) (success_suffix (a ∷ rest))

  -- What counts for the verdict, before the window cuts it.
  abbrev evidence : List ProbeAttempt → List ProbeAttempt
  evidence attempts = filter (qualifies source policy) (success_suffix (sort_by_time attempts))

  window_evidence :
      (attempts : List ProbeAttempt) (now_ms : ℕ)
      → filter
          (qualifies source policy)
          (success_suffix (from_partition (is_outside now_ms policy) (sort_by_time attempts)))
        ≡ later policy now_ms (evidence attempts)
  window_evidence attempts now_ms =
      let sorted = sort-IsSorted attempts in
      ap (filter (qualifies source policy))
        (window-suffix now_ms policy (sort_by_time attempts) sorted)
      ∙ window-filter now_ms policy (qualifies source policy)
          (success_suffix (sort_by_time attempts)) (suffix-IsSorted (sort_by_time attempts) sorted)

  verdict-passed :
      (attempts : List ProbeAttempt) (now_ms : ℕ)
      → is_passed (probe_verdict source policy attempts now_ms)
        ≡ qualifying_slice_passes policy (later policy now_ms (evidence attempts))
  unfolding probe_verdict sort_by_time success_suffix filter from_partition qualifying_slice_passes
  verdict-passed [] now_ms = refl
  verdict-passed (a ∷ rest) now_ms =
      window_verdict-passed (to_partition (is_outside now_ms policy) (sort_by_time (a ∷ rest)))
        (from_partition (is_outside now_ms policy) (sort_by_time (a ∷ rest)))
      ∙ ap (qualifying_slice_passes policy) (window_evidence (a ∷ rest) now_ms)

  anchored :
      (attempts : List ProbeAttempt) (now_ms now_ms' : ℕ) (whole : List ProbeAttempt)
      → IsSorted whole
      → qualifying_slice_passes policy whole ≡ true
      → (t : ℕ) × (first_anchor source policy whole ≡ some t)
        × (qualifying_slice_passes policy (later policy now_ms' whole)
            ≡ not (is_past policy now_ms' t))
  unfolding first_anchor from_partition is_outside qualifying_slice_passes
  anchored attempts now_ms now_ms' [] sorted e = absurd (cc)
  anchored attempts now_ms now_ms' (a ∷ rest) (from_a, sorted) e = (
    anchor_from source policy a.at_ms rest,
    refl,
    anchor-AnchorsAt policy now_ms' source a.at_ms rest (a ∷ rest) from_a sorted e refl,
  )

  later-IsSorted :
      (attempts : List ProbeAttempt) (now_ms : ℕ)
      → IsSorted attempts
      → IsSorted (later policy now_ms attempts)
  unfolding from_partition is_outside
  later-IsSorted [] now_ms h = tt
  later-IsSorted (a ∷ rest) now_ms (from_a, sorted) =
      elim (Bool-cases (is_past policy now_ms a.at_ms)) [
        | inl outside ↦ rw outside (later-IsSorted rest now_ms sorted)
        | inr inside ↦ rw inside (from_a, sorted)
      ]

  until :
      (t : ℕ) (v : ActiveProbeVerdict) (now_ms : ℕ)
      → is_passed v ≡ not (is_past policy now_ms t)
      → (v ≡ passed) ↔ (now_ms - t ≤ policy.ttl_ms)
  until t v now_ms e = ground arith

  -- A federation whose verdict is passed has an expiry anchor, and without new attempts its verdict
  -- stays passed from then on until the time to live after the anchor is over, and not longer.
  pub passed_until_anchor :
      (attempts : List ProbeAttempt) (now_ms now_ms' : ℕ)
      → now_ms ≤ now_ms'
      → probe_verdict source policy attempts now_ms ≡ passed
      → (t : ℕ) × (probe_pass_expiry_anchor_ms source policy attempts now_ms ≡ some t)
        × ((probe_verdict source policy attempts now_ms' ≡ passed) ↔ (now_ms' - t ≤ policy.ttl_ms))
  unfolding probe_pass_expiry_anchor_ms
  passed_until_anchor attempts now_ms now_ms' h v =
      let whole = later policy now_ms (evidence attempts) in
      let sorted = later-IsSorted (evidence attempts) now_ms (
        filter-IsSorted (qualifies source policy) (success_suffix (sort_by_time attempts))
          (suffix-IsSorted (sort_by_time attempts) (sort-IsSorted attempts))) in
      let passes : qualifying_slice_passes policy whole ≡ true =
        sym (verdict-passed attempts now_ms) ∙ ap is_passed v in
      let (t, at, ends) = anchored attempts now_ms now_ms' whole sorted passes in
      let after : is_passed (probe_verdict source policy attempts now_ms')
          ≡ not (is_past policy now_ms' t) =
        verdict-passed attempts now_ms'
        ∙ ap (qualifying_slice_passes policy)
            (sym (later_twice policy now_ms now_ms' (evidence attempts) h))
        ∙ ends in
      (
        t,
        rw (window_evidence attempts now_ms, passes) at,
        until t (probe_verdict source policy attempts now_ms') now_ms' after,
      )
