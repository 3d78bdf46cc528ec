-- ===== src/Watch/Rotation/Window.antt =====
-- What a discovery pass looks at.
use Prim.Native.Nat.{compare}
use native.Mathlib.Omega.{compare-eq}
use fedimint_wallets.Prelude.{
  ℕ, zero, suc, ◌+◌, ◌%◌, ◌-◌, ◌≤◌, ◌<◌, min, ◌≡◌, refl, sym, ◌∙◌, Bool, true, false, not, ◌&&◌,
  ◌||◌, Option, List, [], ◌∷◌, ◌++◌, length, any, All, ◌==◌, is_some, unwrap_or, Bool-cases, inl,
  inr, arith,
}
use fedimint_wallets.Prelude.Sets.{union, any-union}
use fedimint_wallets.Types.Federation.{FederationId}
use fedimint_wallets.Watch.Rotation.{
  get_elem?, contains, rotate, cursor_index, or_order, start_index, plan_rotation,
  discover_pass_plan_in_rotation,
}

abbrev AllIn : List FederationId → List FederationId → Type 0
AllIn current window = All (λ id. contains current id ≡ true) window

AllIn-append :
    (current window : List FederationId) (id : FederationId)
    → AllIn current window
    → contains current id ≡ true
    → AllIn current (window ++ (id ∷ []))
AllIn-append current [] id h k = (k, tt)
AllIn-append current (x ∷ xs) id (hx, h) k = (hx, AllIn-append current xs id h k)

length-append :
    (window : List FederationId) (id : FederationId)
    → length (window ++ (id ∷ [])) ≡ length window + 1
length-append [] id = omega arith
length-append (x ∷ xs) id = omega (arith, length-append xs id)

-- At most as many as are taken, all of them current.
abbrev IsWindow : List FederationId → ℕ → List FederationId → Type 0
IsWindow current take window = (length window ≤ take) × AllIn current window

module _ (order current : List FederationId) (known : Bool) (start take : ℕ) where
  rotate-IsWindow :
      (rest index : ℕ) (window : List FederationId) (crossed : Bool)
      → length window < take
      → AllIn current window
      → IsWindow current take (rotate order current known start take rest index window crossed).0
  unfolding rotate
  rotate-IsWindow zero index window crossed room all = (omega arith, all)
  rotate-IsWindow (suc rest) index window crossed room all =
      let id = unwrap_or 0 (get_elem? order index) in
      let next = (index + 1) % length order in
      let crossed' = crossed || (known && (not (start == 0) && index == length order - 1)) in
      elim (Bool-cases (contains current id)) [
        | inr gone ↦ rw gone (rotate-IsWindow rest next window crossed' room all)
        | inl keep ↦
            let grown = AllIn-append current window id all keep in
            let size = length-append window id in
            elim (Bool-cases (length (window ++ (id ∷ [])) == take)) [
              | inl stop ↦ rw (keep, stop) (omega (arith, size), grown)
              | inr more ↦
                  rw (keep, more)
                    (rotate-IsWindow rest next (window ++ (id ∷ [])) crossed' (ground (arith, size))
                      grown)
            ]
      ]

AllIn-union :
    (candidates window : List FederationId)
    → AllIn (union compare [] candidates) window
    → AllIn candidates window
unfolding any
AllIn-union candidates [] h = tt
AllIn-union candidates (id ∷ rest) (here, h) =
    let same = any-union compare compare-eq (λ x. x == id) [] candidates in
    (sym same ∙ here, AllIn-union candidates rest h)

inhabited :
    (current : List FederationId) (c : FederationId)
    → contains current c ≡ true
    → 0 < length current
unfolding any
inhabited [] c h = absurd (cc)
inhabited (x ∷ xs) c h = omega arith

union_inhabited :
    (c : FederationId) (cs : List FederationId) → 0 < length (union compare [] (c ∷ cs))
unfolding any
union_inhabited c cs =
    let held = any-union compare compare-eq (λ x. x == c) [] (c ∷ cs) in
    let here : (c == c) ≡ true = ground arith in
    inhabited (union compare [] (c ∷ cs)) c (held ∙ rw here refl)

-- A discovery pass looks at no more candidates than the limit, and at current candidates only,
-- wherever the rotation order and the cursor come from.
pub pass-IsWindow :
    (cursor : Option FederationId) (rotation_order candidates : List FederationId) (limit : ℕ)
    → let plan = discover_pass_plan_in_rotation cursor rotation_order candidates limit in
      (length plan.window ≤ limit) × All (λ id. contains candidates id ≡ true) plan.window
unfolding discover_pass_plan_in_rotation plan_rotation
pass-IsWindow cursor rotation_order [] limit = (omega arith, tt)
pass-IsWindow cursor rotation_order (c ∷ cs) limit = elim (Bool-cases (limit == 0)) [
  | inl none_allowed ↦ rw none_allowed (omega arith, tt)
  | inr some_allowed ↦
      let order = or_order rotation_order (c ∷ cs) in
      let current = union compare [] (c ∷ cs) in
      let start = start_index cursor order current in
      let take = min limit (length current) in
      let room : 0 < take = ground (arith, union_inhabited c cs) in
      let (few, all) =
        rotate-IsWindow order current (is_some (cursor_index cursor order)) start take
          (length order) start [] false room tt in
      rw some_allowed (omega (arith, few), AllIn-union (c ∷ cs) _ all)
]
