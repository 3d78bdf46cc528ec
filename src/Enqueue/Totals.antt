-- ===== src/Enqueue/Totals.antt =====
-- The strict projection as a sum over the intents, which does not depend on their order.
use fedimint_wallets.Prelude.{
  ◌+◌, ◌≤◌, min, ◌≡◌, Bool, none, List, [], ◌∷◌, ◌++◌, filter, find, text_eq_refl, ◌==◌, sat_add64,
  u64_max, if◌then◌else◌, arith, Bool-cases, inl, inr,
}
use fedimint_wallets.Prelude.Sets.{text_cmp_sound}
use fedimint_wallets.Types.Federation.{FederationId, Msat, Reservations, outbound, inbound}
use fedimint_wallets.Types.Action.{
  Action, direct_inflow, move, evacuate, pay, receive, join, recover, refuse_inflow,
}
use fedimint_wallets.Intent.{Intent, pending, awaiting}
use fedimint_wallets.Reservation.{
  project_strict_action, project_reservations, strict_from, strict_step, no_reservations,
  is_terminal, add_move, add_inbound, add_outbound, add_target_credit,
}
use fedimint_wallets.Journal.{
  MemStore, lookup, put, mem_pending, mem_awaiting, mem_reservation_intents, same_status, is_driven,
}

-- What an action brings to a federation, and takes from it.
abbrev pub inflow : FederationId → Action → Msat
inflow fed (move s d a c g) = if d == fed then a else 0
inflow fed (evacuate s d a c g k) = if d == fed then a else 0
inflow fed (direct_inflow d a c) = if d == fed then a else 0
inflow fed (receive d a c n g) = if d == fed then a else 0
inflow fed _ = 0

abbrev pub outflow : FederationId → Action → Msat
outflow fed (move s d a c g) = if s == fed then sat_add64 a c else 0
outflow fed (evacuate s d a c g k) = if s == fed then sat_add64 a c else 0
outflow fed (pay s i a c h g) = if s == fed then sat_add64 a c else 0
outflow fed _ = 0

abbrev pub live : (Action → Msat) → Intent → Msat
live f i = if is_terminal i.status then 0 else f i.action

abbrev pub total : (Intent → Msat) → List Intent → Msat
total f [] = 0
total f (i ∷ is) = f i + total f is

-- What both projections are: capped sums.
action-inbound :
    (r : Reservations) (action : Action) (fed : FederationId)
    → inbound r fed ≤ u64_max
    → inbound (project_strict_action r action) fed ≡ min (inbound r fed + inflow fed action) u64_max
unfolding project_strict_action inbound add_move add_inbound add_outbound add_target_credit
action-inbound r (direct_inflow d a c) fed h = ground arith
action-inbound r (move s d a c g) fed h = ground arith
action-inbound r (evacuate s d a c g k) fed h = ground arith
action-inbound r (pay s i a c h' g) fed h = ground arith
action-inbound r (receive d a c n g) fed h = ground arith
action-inbound r (join f i m) fed h = ground arith
action-inbound r (recover f i) fed h = ground arith
action-inbound r (refuse_inflow f q d) fed h = ground arith

action-outbound :
    (r : Reservations) (action : Action) (fed : FederationId)
    → outbound r fed ≤ u64_max
    → outbound (project_strict_action r action) fed
      ≡ min (outbound r fed + outflow fed action) u64_max
unfolding project_strict_action outbound add_move add_inbound add_outbound add_target_credit
action-outbound r (direct_inflow d a c) fed h = ground arith
action-outbound r (move s d a c g) fed h = ground arith
action-outbound r (evacuate s d a c g k) fed h = ground arith
action-outbound r (pay s i a c h' g) fed h = ground arith
action-outbound r (receive d a c n g) fed h = ground arith
action-outbound r (join f i m) fed h = ground arith
action-outbound r (recover f i) fed h = ground arith
action-outbound r (refuse_inflow f q d) fed h = ground arith

from-inbound :
    (r : Reservations) (is : List Intent) (fed : FederationId)
    → inbound r fed ≤ u64_max
    → inbound (strict_from r is) fed ≡ min (inbound r fed + total (live (inflow fed)) is) u64_max
unfolding strict_from strict_step
from-inbound r [] fed h = omega arith
from-inbound r (i ∷ is) fed h = elim (Bool-cases (is_terminal i.status)) [
  | inl t ↦ rw t (omega (arith, from-inbound r is fed h))
  | inr n ↦
      let one = action-inbound r i.action fed h in
      rw n (
        omega
          (arith, one, from-inbound (project_strict_action r i.action) is fed (omega (arith, one))))
]

from-outbound :
    (r : Reservations) (is : List Intent) (fed : FederationId)
    → outbound r fed ≤ u64_max
    → outbound (strict_from r is) fed ≡ min (outbound r fed + total (live (outflow fed)) is) u64_max
unfolding strict_from strict_step
from-outbound r [] fed h = omega arith
from-outbound r (i ∷ is) fed h = elim (Bool-cases (is_terminal i.status)) [
  | inl t ↦ rw t (omega (arith, from-outbound r is fed h))
  | inr n ↦
      let one = action-outbound r i.action fed h in
      rw n (
        omega (
          arith,
          one,
          from-outbound (project_strict_action r i.action) is fed (omega (arith, one)),
        ))
]

total-append :
    (f : Intent → Msat) (is js : List Intent) → total f (is ++ js) ≡ total f is + total f js
total-append f [] js = omega arith
total-append f (i ∷ is) js = omega (arith, total-append f is js)

-- A new intent that the filter keeps adds its own amount, wherever its key puts it.
total-put :
    (f : Intent → Msat) (p : Intent → Bool) (i : Intent) (store : MemStore)
    → lookup i.idempotency_key store ≡ none
    → total f (filter p (put i store)) ≡ total f (filter p store) + (if p i then f i else 0)
unfolding filter put lookup find
total-put f p i [] free = ground arith
total-put f p i (j ∷ js) free = ground (
  arith,
  total-put f p i js,
  text_cmp_sound i.idempotency_key j.idempotency_key,
  text_eq_refl i.idempotency_key,
)

-- The reservation intents of the journal with a new pending one.
pub total-reservation_intents :
    (f : Action → Msat) (i : Intent) (store : MemStore)
    → lookup i.idempotency_key store ≡ none
    → i.status ≡ pending
    → total (live f) (mem_reservation_intents (put i store))
      ≡ total (live f) (mem_reservation_intents store) + f i.action
unfolding mem_reservation_intents mem_pending mem_awaiting same_status
total-reservation_intents f i store free fresh =
    let a = total-put (live f) (λ j. is_driven j.status) i store free in
    let b = total-put (live f) (λ j. same_status j.status awaiting) i store free in
    let c = total-append (live f) (mem_pending store) (mem_awaiting store) in
    let d = total-append (live f) (mem_pending (put i store)) (mem_awaiting (put i store)) in
    ground arith

pub projected-inbound :
    (is : List Intent) (fed : FederationId)
    → inbound (project_reservations is) fed ≡ min (total (live (inflow fed)) is) u64_max
unfolding project_reservations no_reservations inbound
projected-inbound is fed = omega (arith, from-inbound no_reservations is fed (omega arith))

pub projected-outbound :
    (is : List Intent) (fed : FederationId)
    → outbound (project_reservations is) fed ≡ min (total (live (outflow fed)) is) u64_max
unfolding project_reservations no_reservations outbound
projected-outbound is fed = omega (arith, from-outbound no_reservations is fed (omega arith))
