-- ===== src/Watch/Rotation.antt =====
-- The window of a discovery pass (`discover_pass_plan` of wallet-core/src/watch.rs).
pub mod Window
use Prim.Native.Nat.{compare}
use fedimint_wallets.Prelude.{
  ℕ, zero, suc, ◌+◌, ◌%◌, ◌-◌, min, Bool, true, false, not, ◌&&◌, ◌||◌, Option, some, none, List,
  [], ◌∷◌, ◌++◌, length, any, ltb, ◌==◌, is_some, and_then, unwrap_or, if◌then◌else◌,
}
use fedimint_wallets.Prelude.Sets.{union}
use fedimint_wallets.Types.Federation.{FederationId}

pub record DiscoverPassPlan : Type 0 where
  pub window : List FederationId
  pub next_cursor : Option FederationId
  pub wrapped : Bool

-- `slice.get(i)`
unfoldable pub get_elem? : List FederationId → ℕ → Option FederationId
get_elem? [] i = none
get_elem? (x ∷ xs) zero = some x
get_elem? (x ∷ xs) (suc i) = get_elem? xs i

-- `iter().position(p)`
unfoldable pub position : (FederationId → Bool) → List FederationId → Option ℕ
position p [] = none
position p (x ∷ xs) =
    let rest = and_then (position p xs) (λ i. some (suc i)) in if p x then some 0 else rest

abbrev pub contains : List FederationId → FederationId → Bool
contains ids id = any (λ x. x == id) ids

-- `Vec::last`
unfoldable pub last : List FederationId → Option FederationId
last [] = none
last (x ∷ []) = some x
last (x ∷ y ∷ ys) = last (y ∷ ys)

-- The loop over the rotation. Its index stays below the length, so that `order[index]` is there.
module _ (order current : List FederationId) (cursor_known : Bool) (start take : ℕ) where
  unfoldable pub rotate : ℕ → ℕ → List FederationId → Bool → List FederationId × Bool
  rotate zero index window crossed_end = (window, crossed_end)
  rotate (suc rest) index window crossed_end =
      let crossed =
        crossed_end || (cursor_known && (not (start == 0) && index == length order - 1)) in
      let id = unwrap_or 0 (get_elem? order index) in
      let keep = contains current id in
      let window' = if keep then window ++ (id ∷ []) else window in
      let stop = keep && length window' == take in
      let later = rotate rest ((index + 1) % length order) window' crossed in
      if stop then (window', crossed) else later

unfoldable pub start_index : Option FederationId → List FederationId → List FederationId → ℕ
unfolding position
start_index none order current = 0
start_index (some cursor) order current = elim (position (λ id. id == cursor) order) [
  | some index ↦ (index + 1) % length order
  | none ↦ unwrap_or 0 (position (λ id. contains current id && ltb cursor id) order)
]

abbrev pub cursor_index : Option FederationId → List FederationId → Option ℕ
cursor_index cursor order = and_then cursor (λ c. position (λ id. id == c) order)

unfoldable pub plan_rotation :
    Option FederationId → List FederationId → List FederationId → ℕ → DiscoverPassPlan
unfolding rotate start_index last
plan_rotation cursor order current max_candidates_per_pass =
    let start = start_index cursor order current in
    let take = min max_candidates_per_pass (length current) in
    let (window, crossed_end) =
      rotate order current (is_some (cursor_index cursor order)) start take (length order) start []
        false in
    record {
      window = window;
      next_cursor = last window;
      wrapped = length window == length current || crossed_end;
    }

abbrev pub or_order : List FederationId → List FederationId → List FederationId
or_order [] current = current
or_order (x ∷ xs) current = x ∷ xs

unfoldable pub discover_pass_plan_in_rotation :
    Option FederationId → List FederationId → List FederationId → ℕ → DiscoverPassPlan
unfolding plan_rotation
discover_pass_plan_in_rotation cursor rotation_order [] max_candidates_per_pass = record {
  window = [];
  next_cursor = none;
  wrapped = true;
}
discover_pass_plan_in_rotation cursor rotation_order (c ∷ cs) max_candidates_per_pass =
    if max_candidates_per_pass == 0
    then record { window = []; next_cursor = none; wrapped = false }
    else plan_rotation cursor (or_order rotation_order (c ∷ cs)) (union compare [] (c ∷ cs))
        max_candidates_per_pass

unfoldable pub discover_pass_plan : Option FederationId → List FederationId → ℕ → DiscoverPassPlan
unfolding discover_pass_plan_in_rotation
discover_pass_plan cursor candidates max_candidates_per_pass =
    discover_pass_plan_in_rotation cursor candidates candidates max_candidates_per_pass
