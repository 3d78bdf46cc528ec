-- ===== src/Probe/Window.antt =====
-- Windows and suffixes of a sorted history.
use fedimint_wallets.Prelude.{
  ℕ, ◌-◌, ◌≤◌, ◌≡◌, refl, sym, Bool, false, List, [], ◌∷◌, All, any, filter, ltb, leb, Bool-cases,
  inl, inr, arith,
}
use fedimint_wallets.Probe.{
  ProbeAttempt, ProbePolicy, insert_by_time, sort_by_time, is_outside, from_partition, is_failure,
  success_suffix,
}

-- Not before a time, and sorted.
abbrev pub IsFrom : ℕ → List ProbeAttempt → Type 0
IsFrom t attempts = All (λ a. t ≤ a.at_ms) attempts

abbrev pub IsSorted : List ProbeAttempt → Type 0
IsSorted [] = Unit {0}
IsSorted (a ∷ rest) = IsFrom a.at_ms rest × IsSorted rest

pub IsFrom-earlier :
    (s t : ℕ) (attempts : List ProbeAttempt) → s ≤ t → IsFrom t attempts → IsFrom s attempts
IsFrom-earlier s t [] h all = tt
IsFrom-earlier s t (a ∷ rest) h (first, all) = (omega arith, IsFrom-earlier s t rest h all)

insert-IsFrom :
    (t : ℕ) (a : ProbeAttempt) (attempts : List ProbeAttempt)
    → t ≤ a.at_ms
    → IsFrom t attempts
    → IsFrom t (insert_by_time a attempts)
unfolding insert_by_time
insert-IsFrom t a [] h all = (h, tt)
insert-IsFrom t a (b ∷ rest) h (first, all) = elim (Bool-cases (leb a.at_ms b.at_ms)) [
  | inl before ↦ rw before (h, (first, all))
  | inr after ↦ rw after (first, insert-IsFrom t a rest h all)
]

insert-IsSorted :
    (a : ProbeAttempt) (attempts : List ProbeAttempt)
    → IsSorted attempts
    → IsSorted (insert_by_time a attempts)
unfolding insert_by_time
insert-IsSorted a [] h = (tt, tt)
insert-IsSorted a (b ∷ rest) (from_b, sorted) = elim (Bool-cases (leb a.at_ms b.at_ms)) [
  | inl before ↦
      let earlier = IsFrom-earlier a.at_ms b.at_ms rest (ground arith) from_b in
      rw before ((ground arith, earlier), (from_b, sorted))
  | inr after ↦
      rw after (insert-IsFrom b.at_ms a rest (ground arith) from_b, insert-IsSorted a rest sorted)
]

pub sort-IsSorted : (attempts : List ProbeAttempt) → IsSorted (sort_by_time attempts)
unfolding sort_by_time
sort-IsSorted [] = tt
sort-IsSorted (a ∷ rest) = insert-IsSorted a (sort_by_time rest) (sort-IsSorted rest)

-- Parts of a sorted history.
filter-IsFrom :
    (q : ProbeAttempt → Bool) (t : ℕ) (attempts : List ProbeAttempt)
    → IsFrom t attempts
    → IsFrom t (filter q attempts)
unfolding filter
filter-IsFrom q t [] h = tt
filter-IsFrom q t (a ∷ rest) (first, all) = elim (Bool-cases (q a)) [
  | inl keep ↦ rw keep (first, filter-IsFrom q t rest all)
  | inr drop ↦ rw drop (filter-IsFrom q t rest all)
]

pub filter-IsSorted :
    (q : ProbeAttempt → Bool) (attempts : List ProbeAttempt)
    → IsSorted attempts
    → IsSorted (filter q attempts)
unfolding filter
filter-IsSorted q [] h = tt
filter-IsSorted q (a ∷ rest) (from_a, sorted) = elim (Bool-cases (q a)) [
  | inl keep ↦ rw keep (filter-IsFrom q a.at_ms rest from_a, filter-IsSorted q rest sorted)
  | inr drop ↦ rw drop (filter-IsSorted q rest sorted)
]

suffix-IsFrom :
    (t : ℕ) (attempts : List ProbeAttempt) → IsFrom t attempts → IsFrom t (success_suffix attempts)
unfolding success_suffix
suffix-IsFrom t [] h = tt
suffix-IsFrom t (a ∷ rest) (first, all) = elim (Bool-cases (any is_failure rest)) [
  | inl later ↦ rw later (suffix-IsFrom t rest all)
  | inr last ↦ elim (Bool-cases (is_failure a)) [
    | inl bad ↦ rw (last, bad) all
    | inr good ↦ rw (last, good) (first, all)
  ]
]

pub suffix-IsSorted :
    (attempts : List ProbeAttempt) → IsSorted attempts → IsSorted (success_suffix attempts)
unfolding success_suffix
suffix-IsSorted [] h = tt
suffix-IsSorted (a ∷ rest) (from_a, sorted) = elim (Bool-cases (any is_failure rest)) [
  | inl later ↦ rw later (suffix-IsSorted rest sorted)
  | inr last ↦ elim (Bool-cases (is_failure a)) [
    | inl bad ↦ rw (last, bad) sorted
    | inr good ↦ rw (last, good) (from_a, sorted)
  ]
]

suffix_of_successes :
    (attempts : List ProbeAttempt)
    → any is_failure attempts ≡ false
    → success_suffix attempts ≡ attempts
unfolding success_suffix any
suffix_of_successes [] h = refl
suffix_of_successes (a ∷ rest) h = ground arith

module _ (now_ms : ℕ) (policy : ProbePolicy) where
  -- What the window leaves of a history that has nothing outside.
  pub all_inside :
      (t : ℕ) (attempts : List ProbeAttempt)
      → ltb policy.ttl_ms (now_ms - t) ≡ false
      → IsFrom t attempts
      → from_partition (is_outside now_ms policy) attempts ≡ attempts
  unfolding from_partition is_outside
  all_inside t [] h all = refl
  all_inside t (a ∷ rest) h (first, all) =
      let inside : ltb policy.ttl_ms (now_ms - a.at_ms) ≡ false = ground arith in rw inside refl

  pub window-filter :
      (q : ProbeAttempt → Bool) (attempts : List ProbeAttempt)
      → IsSorted attempts
      → filter q (from_partition (is_outside now_ms policy) attempts)
        ≡ from_partition (is_outside now_ms policy) (filter q attempts)
  unfolding from_partition filter is_outside
  window-filter q [] h = refl
  window-filter q (a ∷ rest) (from_a, sorted) =
      elim (Bool-cases (ltb policy.ttl_ms (now_ms - a.at_ms))) [
        | inl outside ↦ elim (Bool-cases (q a)) [
          | inl keep ↦ rw (outside, keep) (ground (arith, window-filter q rest sorted))
          | inr drop ↦ rw (outside, drop) (window-filter q rest sorted)
        ]
        | inr inside ↦ elim (Bool-cases (q a)) [
          | inl keep ↦ rw (inside, keep) (ground arith)
          | inr drop ↦
              rw (inside, drop)
                (sym
                  (all_inside a.at_ms (filter q rest) inside (filter-IsFrom q a.at_ms rest from_a)))
        ]
      ]

  pub window-suffix :
      (attempts : List ProbeAttempt)
      → IsSorted attempts
      → success_suffix (from_partition (is_outside now_ms policy) attempts)
        ≡ from_partition (is_outside now_ms policy) (success_suffix attempts)
  unfolding from_partition success_suffix is_outside
  window-suffix [] h = refl
  window-suffix (a ∷ rest) (from_a, sorted) =
      elim (Bool-cases (ltb policy.ttl_ms (now_ms - a.at_ms))) [
        | inr inside ↦ rw inside (
            sym (
              all_inside a.at_ms (success_suffix (a ∷ rest)) inside
                (suffix-IsFrom a.at_ms (a ∷ rest) (omega arith, from_a))))
        | inl outside ↦ elim (Bool-cases (any is_failure rest)) [
          | inl later ↦ rw (outside, later) (window-suffix rest sorted)
          | inr last ↦
              let same : success_suffix (from_partition (is_outside now_ms policy) rest)
                  ≡ from_partition (is_outside now_ms policy) rest =
                rw (suffix_of_successes rest last) at (window-suffix rest sorted) in
              elim (Bool-cases (is_failure a)) [
                | inl bad ↦ rw (outside, last, bad) same
                | inr good ↦ rw (outside, last, good, outside) same
              ]
        ]
      ]
