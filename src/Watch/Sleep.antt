-- ===== src/Watch/Sleep.antt =====
-- The watch loop does not oversleep.
use fedimint_wallets.Prelude.{
  ℕ, ◌-◌, ◌≤◌, ◌≡◌, refl, min, max, Option, some, none, List, [], ◌∷◌, ltb, map_or, All, inl, inr,
  arith, Bool-cases,
}
use fedimint_wallets.Watch.{
  WatchPolicy, AdaptiveSleepDeadlines, min_delay, routine_sleep, expiry_delay, probe_delay,
  concrete_delay, adaptive_sleep_ms, watch_busy_spin_floor_ms,
}

-- The least of a number and of what may stand beside it.
least_le : (a : ℕ) (o : Option ℕ) → map_or a (min a) o ≤ a
least_le a none = omega arith
least_le a (some m) = omega arith

least_expiry : (r m : ℕ) (p : Option ℕ) → map_or r (min r) (concrete_delay (some m) p) ≤ m
unfolding concrete_delay
least_expiry r m none = omega arith
least_expiry r m (some p) = omega arith

least_probe : (r m : ℕ) (e : Option ℕ) → map_or r (min r) (concrete_delay e (some m)) ≤ m
unfolding concrete_delay
least_probe r m none = omega arith
least_probe r m (some e) = omega arith

-- What is at most the least delay is at most each one.
min_delay-All :
    (f : ℕ → ℕ) (xs : List ℕ) (n : ℕ)
    → ((m : ℕ) → min_delay f xs ≡ some m → n ≤ m)
    → All (λ x. n ≤ f x) xs
unfolding min_delay
min_delay-All f [] n h = tt
min_delay-All f (x ∷ xs) n h =
    let first : n ≤ map_or (f x) (min (f x)) (min_delay f xs) = h _ refl in
    (
      omega (arith, least_le (f x) (min_delay f xs)),
      min_delay-All f xs n (λ m e. omega (arith, at_tail x xs m e, h _ refl)),
    )
  where
    at_tail :
        (y : ℕ) (ys : List ℕ) (m : ℕ)
        → min_delay f ys ≡ some m
        → map_or (f y) (min (f y)) (min_delay f ys) ≤ m
    at_tail y ys m e = rw e (omega arith)

expiry_delay-le :
    (now : ℕ) (policy : WatchPolicy) (expiry : ℕ) → expiry_delay now policy expiry ≤ expiry - now
unfolding expiry_delay
expiry_delay-le now policy expiry =
    elim (Bool-cases (ltb now (expiry - policy.evacuation_lead_ms))) [
      | inl t ↦ rw t (omega arith)
      | inr f ↦ rw f (omega arith)
    ]

sleep_routine :
    (now : ℕ) (policy : WatchPolicy) (deadlines : AdaptiveSleepDeadlines)
    → adaptive_sleep_ms now policy deadlines ≤ policy.base_interval_ms
unfolding adaptive_sleep_ms routine_sleep
sleep_routine now policy deadlines = omega (
  arith,
  least_le (routine_sleep now policy deadlines) (
      concrete_delay (min_delay (expiry_delay now policy) deadlines.expiries_ms)
        (min_delay (probe_delay now) deadlines.probe_due_ms)),
)

All-weaken : {P Q : ℕ → Type 0} (xs : List ℕ) → ((x : ℕ) → P x → Q x) → All P xs → All Q xs
All-weaken [] f h = tt
All-weaken (x ∷ xs) f h = (f x h.0, All-weaken xs f h.1)

-- Whatever deadlines it knows of, the watch loop never sleeps longer than its base interval, never
-- past the expiry of a federation in its list, and never longer than until the due time of a probe
-- in its list, or than its floor of one second where that is longer.
pub sleep_within_deadlines :
    (now : ℕ) (policy : WatchPolicy) (deadlines : AdaptiveSleepDeadlines)
    → (adaptive_sleep_ms now policy deadlines ≤ policy.base_interval_ms)
      × All (λ expiry. adaptive_sleep_ms now policy deadlines ≤ expiry - now) deadlines.expiries_ms
      × All
          (λ due. adaptive_sleep_ms now policy deadlines ≤ max (due - now) watch_busy_spin_floor_ms)
          deadlines.probe_due_ms
unfolding adaptive_sleep_ms probe_delay
sleep_within_deadlines now policy deadlines =
    let routine = routine_sleep now policy deadlines in
    let expiry = min_delay (expiry_delay now policy) deadlines.expiries_ms in
    let probe = min_delay (probe_delay now) deadlines.probe_due_ms in
    (
      sleep_routine now policy deadlines,
      All-weaken deadlines.expiries_ms (λ e le. omega (arith, le, expiry_delay-le now policy e))
          (min_delay-All (expiry_delay now policy) deadlines.expiries_ms
            (adaptive_sleep_ms now policy deadlines) (λ m e. rw e (least_expiry routine m probe))),
      min_delay-All (probe_delay now) deadlines.probe_due_ms _
          (λ m e. rw e (least_probe routine m expiry)),
    )
