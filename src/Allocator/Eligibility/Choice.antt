-- ===== src/Allocator/Eligibility/Choice.antt =====
-- Which federation an evacuation goes to (`safest_other`).
use fedimint_wallets.Prelude.{
  ℕ, ◌≤◌, ◌<◌, ◌≡◌, refl, ◌⊎◌, inl, inr, ◌≢◌, subst, Bool, true, Option, some, none, List, [], ◌∷◌,
  NatMap, arith, ◌==◌, ==_iff, In, filter, filter-In, In-filter, find-In, and_then, filter_option,
  or_else, filter_option-some, and_then-some, Option-cases,
}
use fedimint_wallets.Types.Federation.{FederationId, FederationStatus, AllocatorSnapshot}
use fedimint_wallets.Allocator.Eligibility.{
  find_fed, evacuation_reason, receive_blocker, cap_room_with, eligible_for_evacuation, min_by_id,
  safest_other,
}

pub find_fed-In :
    (s : AllocatorSnapshot) (id : FederationId) (f : FederationStatus)
    → find_fed s id ≡ some f
    → In f s.federations × (f.id ≡ id)
unfolding find_fed
find_fed-In s id f e =
    let (m, t) = find-In (λ f. f.id == id) s.federations f e in (m, (==_iff f.id id).0 t)

min_by_id-none : (xs : List FederationStatus) → min_by_id xs ≡ none → xs ≡ []
unfolding min_by_id
min_by_id-none [] e = refl
min_by_id-none (x ∷ xs) e = ground arith

-- The least id of a list, and where it stands.
min_by_id-In : (xs : List FederationStatus) (m : FederationStatus) → min_by_id xs ≡ some m → In m xs
unfolding min_by_id
min_by_id-In [] m e = ground arith
min_by_id-In (x ∷ xs) m e = elim (Option-cases (min_by_id xs)) [
  | inl n ↦ ground arith
  | inr (r, n) ↦ ground (arith, min_by_id-In xs r n)
]

min_by_id-le :
    (xs : List FederationStatus) (m f : FederationStatus)
    → min_by_id xs ≡ some m
    → In f xs
    → m.id ≤ f.id
unfolding min_by_id
min_by_id-le [] m f e h = absurd h
min_by_id-le (x ∷ xs) m f e (inl h) = elim (Option-cases (min_by_id xs)) [
  | inl n ↦ ground arith
  | inr (r, n) ↦ ground arith
]
min_by_id-le (x ∷ xs) m f e (inr h) = elim (Option-cases (min_by_id xs)) [
  | inl n ↦ absurd (subst (In f) (min_by_id-none xs n) h)
  | inr (r, n) ↦ ground (arith, min_by_id-le xs r f n h)
]

-- What makes a federation a destination for `source`.
abbrev pub IsDestination :
    AllocatorSnapshot → FederationStatus → NatMap ℕ → FederationStatus → Type 0
IsDestination s source credited fed =
    (fed.id ≢ source.id)
    × (evacuation_reason fed ≡ none)
    × (receive_blocker fed ≡ none)
    × (0 < cap_room_with s fed credited)

eligible-IsDestination :
    (s : AllocatorSnapshot) (source : FederationStatus) (credited : NatMap ℕ)
    (fed : FederationStatus)
    → eligible_for_evacuation s source credited fed ≡ true
    → IsDestination s source credited fed
unfolding eligible_for_evacuation
eligible-IsDestination s source credited fed h = ground arith

IsDestination-eligible :
    (s : AllocatorSnapshot) (source : FederationStatus) (credited : NatMap ℕ)
    (fed : FederationStatus)
    → IsDestination s source credited fed
    → eligible_for_evacuation s source credited fed ≡ true
unfolding eligible_for_evacuation
IsDestination-eligible s source credited fed h = ground arith

-- Where the designated standby stands in the snapshot.
abbrev pub standby_of : AllocatorSnapshot → Option FederationStatus
standby_of s = and_then s.standby_fed (find_fed s)

pub standby_of-In :
    (s : AllocatorSnapshot) (f : FederationStatus) → standby_of s ≡ some f → In f s.federations
standby_of-In s f e =
    let (id, _, e') = and_then-some s.standby_fed (find_fed s) f e in (find_fed-In s id f e').0

-- The choice: the standby if it is a destination, else the destination of the least id, else none.
abbrev pub IsChoice :
    AllocatorSnapshot → FederationStatus → NatMap ℕ → Option FederationStatus → Type 0
IsChoice s source credited none =
    (f : FederationStatus) → In f s.federations → ¬ IsDestination s source credited f
IsChoice s source credited (some dest) =
    In dest s.federations
    × IsDestination s source credited dest
    × ((standby_of s ≡ some dest)
        ⊎ (((f : FederationStatus) → standby_of s ≡ some f → ¬ IsDestination s source credited f)
            × ((f : FederationStatus)
                → In f s.federations
                → IsDestination s source credited f
                → dest.id ≤ f.id)))

module _ (s : AllocatorSnapshot) (source : FederationStatus) (credited : NatMap ℕ) where
  test : FederationStatus → Bool
  test = eligible_for_evacuation s source credited

  standby_refused :
      filter_option test (standby_of s) ≡ none
      → (f : FederationStatus) → standby_of s ≡ some f
      → ¬ IsDestination s source credited f
  unfolding test
  standby_refused n f e d =
      let t = IsDestination-eligible s source credited f d in absurd (ground arith)

  IsChoice-of_least :
      (o : Option FederationStatus)
      → filter_option test (standby_of s) ≡ none
      → min_by_id (filter test s.federations) ≡ o
      → IsChoice s source credited o
  unfolding test
  IsChoice-of_least none n e = λ f m d.
      subst (In f) (min_by_id-none _ e)
        (In-filter test s.federations f m (IsDestination-eligible s source credited f d))
  IsChoice-of_least (some dest) n e =
      let (m, t) = filter-In test s.federations dest (min_by_id-In _ dest e) in
      (
        m,
        eligible-IsDestination s source credited dest t,
        inr (
          standby_refused n,
          λ f h d.
              min_by_id-le _ dest f e
                (In-filter test s.federations f h (IsDestination-eligible s source credited f d)),
        ),
      )

  IsChoice-of_standby :
      (o : Option FederationStatus)
      → filter_option test (standby_of s) ≡ o
      → IsChoice s source credited (or_else o (min_by_id (filter test s.federations)))
  unfolding test
  IsChoice-of_standby none e = IsChoice-of_least _ e refl
  IsChoice-of_standby (some dest) e =
      let (m, t) = filter_option-some test (standby_of s) dest e in
      (standby_of-In s dest m, eligible-IsDestination s source credited dest t, inl m)

  -- An evacuation goes to the designated standby when that may receive it, else to the federation
  -- of the least id among those that may, and nowhere only when none may: a destination is another
  -- federation, not evacuating itself, not blocked from receiving, with room under the cap.
  pub safest_other-IsChoice : IsChoice s source credited (safest_other s source credited)
  unfolding safest_other test
  safest_other-IsChoice = IsChoice-of_standby (filter_option test (standby_of s)) refl

pub safest_other-IsDestination :
    (s : AllocatorSnapshot) (source : FederationStatus) (credited : NatMap ℕ)
    (dest : FederationStatus)
    → safest_other s source credited ≡ some dest
    → In dest s.federations × IsDestination s source credited dest
safest_other-IsDestination s source credited dest e =
    let h = subst (IsChoice s source credited) e (safest_other-IsChoice s source credited) in
    (h.0, h.1)
