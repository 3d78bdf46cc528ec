-- ===== src/Reservation/Weakening.antt =====
-- The allocator's view never reserves more than the strict one.
use fedimint_wallets.Prelude.{
  ℕ, ◌≤◌, ◌≡◌, refl, true, Option, some, none, List, [], ◌∷◌, arith, Bool-cases, inl, inr,
  filter_option-some,
}
use fedimint_wallets.Types.Federation.{Reservations, EvacFeeCap, outbound, inbound, target_credit}
use fedimint_wallets.Types.Action.{
  Action, direct_inflow, move, evacuate, pay, receive, join, recover, refuse_inflow,
}
use fedimint_wallets.Types.Record.{
  MoveRecord, MovePhase, created, invoiced, sending, settled, refunded, failed, stranded,
}
use fedimint_wallets.Intent.{Intent}
use fedimint_wallets.Reservation.{
  no_reservations, project_strict_action, strict_step, strict_from, project_reservations, add_move,
  structural, record_is_trusted, move_by_phase, inflow_by_phase, allocator_action, Records,
  allocator_step, allocator_from, project_allocator_reservations, is_terminal,
}
use fedimint_wallets.Reservation.Views.{
  IsWeaker, IsBounded, add_move-IsWeaker, add_inbound-IsWeaker, released_source-IsWeaker,
  strict-IsBounded, strict-IsWeaker, released-IsWeaker,
}

module _ {r t : Reservations} (w : IsWeaker r t) (b : IsBounded t) where
  move_by_phase-IsWeaker :
      (p : MovePhase) (action : Action) (s d a c : ℕ) (m : MoveRecord)
      → ((q : Reservations) → project_strict_action q action ≡ add_move q s d a c)
      → m.amount ≤ a
      → m.fee_cap ≤ c
      → IsWeaker (move_by_phase p r action s d m) (project_strict_action t action)
  unfolding move_by_phase
  move_by_phase-IsWeaker created action s d a c m e h k = strict-IsWeaker w action
  move_by_phase-IsWeaker invoiced action s d a c m e h k =
      rw (e t) (add_move-IsWeaker w s d m.amount m.fee_cap a c h k)
  move_by_phase-IsWeaker sending action s d a c m e h k =
      rw (e t) (released_source-IsWeaker w s d m.amount a c b h)
  move_by_phase-IsWeaker settled action s d a c m e h k = released-IsWeaker w b action
  move_by_phase-IsWeaker refunded action s d a c m e h k = released-IsWeaker w b action
  move_by_phase-IsWeaker failed action s d a c m e h k = released-IsWeaker w b action
  move_by_phase-IsWeaker stranded action s d a c m e h k = released-IsWeaker w b action

  inflow_by_phase-IsWeaker :
      (p : MovePhase) (d a c : ℕ) (m : MoveRecord)
      → m.amount ≤ a
      → IsWeaker
          (inflow_by_phase p r (direct_inflow d a c) d m)
          (project_strict_action t (direct_inflow d a c))
  unfolding inflow_by_phase project_strict_action
  inflow_by_phase-IsWeaker created d a c m h = strict-IsWeaker w (direct_inflow d a c)
  inflow_by_phase-IsWeaker sending d a c m h = strict-IsWeaker w (direct_inflow d a c)
  inflow_by_phase-IsWeaker invoiced d a c m h = add_inbound-IsWeaker w d m.amount a h
  inflow_by_phase-IsWeaker settled d a c m h = released-IsWeaker w b (direct_inflow d a c)
  inflow_by_phase-IsWeaker refunded d a c m h = released-IsWeaker w b (direct_inflow d a c)
  inflow_by_phase-IsWeaker failed d a c m h = released-IsWeaker w b (direct_inflow d a c)
  inflow_by_phase-IsWeaker stranded d a c m h = released-IsWeaker w b (direct_inflow d a c)

-- A trusted record is sized within its action.
move-bounds :
    (s d a c : ℕ) (g : Option (List ℕ)) (m : MoveRecord)
    → structural (move s d a c g) m ≡ true
    → (m.amount ≤ a) × (m.fee_cap ≤ c)
unfolding structural
move-bounds s d a c g m h = ground arith

evacuate-bounds :
    (action : Action) (m : MoveRecord) (s d a c : ℕ) (g : Option (List ℕ)) (k : Option EvacFeeCap)
    → action ≡ evacuate s d a c g k
    → structural action m ≡ true
    → (m.amount ≤ a) × (m.fee_cap ≤ c)
unfolding structural
evacuate-bounds action m s d a c g k e h = ground arith

direct_inflow-bounds :
    (d a c : ℕ) (m : MoveRecord) → structural (direct_inflow d a c) m ≡ true → m.amount ≤ a
unfolding structural
direct_inflow-bounds d a c m h = ground arith

trusted-structural :
    (i : Intent) (m : MoveRecord) → record_is_trusted i m ≡ true → structural i.action m ≡ true
unfolding record_is_trusted
trusted-structural i m h = ground arith

module _ {r t : Reservations} (w : IsWeaker r t) (b : IsBounded t) where
  allocator_action-IsWeaker :
      (op : Option ℕ) (o : Option MoveRecord) (action : Action)
      → ((m : MoveRecord) → o ≡ some m → structural action m ≡ true)
      → IsWeaker (allocator_action r op o action) (project_strict_action t action)
  unfolding allocator_action
  allocator_action-IsWeaker op none (move s d a c g) h = strict-IsWeaker w (move s d a c g)
  allocator_action-IsWeaker op (some m) (move s d a c g) h =
      let (amount, cap) = move-bounds s d a c g m (h m refl) in
      move_by_phase-IsWeaker w b m.phase (move s d a c g) s d a c m
        (λ q. unfold project_strict_action in refl) amount cap
  allocator_action-IsWeaker op none (evacuate s d a c g k) h =
      strict-IsWeaker w (evacuate s d a c g k)
  allocator_action-IsWeaker op (some m) (evacuate s d a c g k) h =
      let (amount, cap) = evacuate-bounds (evacuate s d a c g k) m s d a c g k refl (h m refl) in
      move_by_phase-IsWeaker w b m.phase (evacuate s d a c g k) s d a c m
        (λ q. unfold project_strict_action in refl) amount cap
  allocator_action-IsWeaker op none (direct_inflow d a c) h =
      strict-IsWeaker w (direct_inflow d a c)
  allocator_action-IsWeaker op (some m) (direct_inflow d a c) h =
      inflow_by_phase-IsWeaker w b m.phase d a c m (direct_inflow-bounds d a c m (h m refl))
  allocator_action-IsWeaker (some x) o (pay s i a c p g) h = released-IsWeaker w b (pay s i a c p g)
  allocator_action-IsWeaker none o (pay s i a c p g) h = strict-IsWeaker w (pay s i a c p g)
  allocator_action-IsWeaker op o (receive d a c n g) h = strict-IsWeaker w (receive d a c n g)
  allocator_action-IsWeaker op o (join f i x) h = strict-IsWeaker w (join f i x)
  allocator_action-IsWeaker op o (recover f i) h = strict-IsWeaker w (recover f i)
  allocator_action-IsWeaker op o (refuse_inflow f q d) h = strict-IsWeaker w (refuse_inflow f q d)

  step-IsWeaker :
      (records : Records) (i : Intent) → IsWeaker (allocator_step records r i) (strict_step t i)
  unfolding allocator_step strict_step
  step-IsWeaker records i = elim (Bool-cases (is_terminal i.status)) [
    | inl e ↦ rw e w
    | inr e ↦ rw e (
        allocator_action-IsWeaker i.operation_id _ i.action λ m found.
          trusted-structural i m
            (filter_option-some (record_is_trusted i) (records i.idempotency_key) m found).1)
  ]

step-IsBounded : (t : Reservations) (i : Intent) → IsBounded t → IsBounded (strict_step t i)
unfolding strict_step
step-IsBounded t i b = elim (Bool-cases (is_terminal i.status)) [
  | inl e ↦ rw e b
  | inr e ↦ rw e (strict-IsBounded t i.action b)
]

from-IsWeaker :
    (records : Records) (is : List Intent) (r t : Reservations)
    → IsWeaker r t
    → IsBounded t
    → IsWeaker (allocator_from records r is) (strict_from t is)
unfolding allocator_from strict_from
from-IsWeaker records [] r t w b = w
from-IsWeaker records (i ∷ is) r t w b =
    from-IsWeaker records is (allocator_step records r i) (strict_step t i)
      (step-IsWeaker w b records i) (step-IsBounded t i b)

empty-IsWeaker : IsWeaker no_reservations no_reservations
empty-IsWeaker = record {
  out_le = λ fed. omega arith;
  in_le = λ fed. omega arith;
  credit_le = λ fed. omega arith;
}

empty-IsBounded : IsBounded no_reservations
unfolding no_reservations outbound inbound target_credit
empty-IsBounded fed = omega arith

-- For every list of intents and every state of the durable records, the allocator's view reserves
-- no more than the strict view: outbound, inbound and target credit, for every federation.
pub allocator_view-le-strict :
    (is : List Intent) (records : Records)
    → IsWeaker (project_allocator_reservations is records) (project_reservations is)
unfolding project_allocator_reservations project_reservations
allocator_view-le-strict is records =
    from-IsWeaker records is no_reservations no_reservations empty-IsWeaker empty-IsBounded
