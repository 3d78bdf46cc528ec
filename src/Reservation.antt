-- ===== src/Reservation.antt =====
-- The reservations that durable intents hold (`project_reservations`,
-- `project_allocator_reservations`, `allocator_record_is_trusted`,
-- `replaceable_evacuation_record_is_pristine` of wallet-core/src/executor.rs).
pub mod Views
pub mod Weakening
use fedimint_wallets.Prelude.{
  ℕ, Bool, true, false, not, ◌&&◌, ◌||◌, Option, some, none, List, [], ◌∷◌, ltb, leb, ◌==◌, text_eq,
  if◌then◌else◌, is_some, is_none, NatMap, put, empty_map, unwrap_or, sat_add64, filter_option,
}
use fedimint_wallets.Types.Federation.{FederationId, Msat, EvacFeeCap, cap_at, Reservations}
use fedimint_wallets.Types.Action.{
  Action, direct_inflow, move, evacuate, pay, receive, join, recover, refuse_inflow, IdempotencyKey,
}
use fedimint_wallets.Types.Record.{
  MoveRecord, MovePhase, created, invoiced, sending, settled, refunded, failed, stranded,
}
use fedimint_wallets.Intent.{Intent, IntentStatus}

unfoldable pub no_reservations : Reservations
no_reservations = record {
  per_fed_outbound = empty_map;
  per_fed_inbound = empty_map;
  per_fed_target_credit = empty_map;
}

-- `entry(fed).or_insert(Msat(0))` and the saturating addition.
abbrev pub bump : NatMap Msat → FederationId → Msat → NatMap Msat
bump m fed amount = put fed (sat_add64 (unwrap_or 0 (m fed)) amount) m

unfoldable pub add_outbound : Reservations → FederationId → Msat → Reservations
add_outbound r fed amount = record r { per_fed_outbound = bump r.per_fed_outbound fed amount }

unfoldable pub add_inbound : Reservations → FederationId → Msat → Reservations
add_inbound r fed amount = record r { per_fed_inbound = bump r.per_fed_inbound fed amount }

unfoldable pub add_target_credit : Reservations → FederationId → Msat → Reservations
add_target_credit r fed amount = record r {
  per_fed_target_credit = bump r.per_fed_target_credit fed amount;
}

-- A move's two ends.
unfoldable pub add_move : Reservations → FederationId → FederationId → Msat → Msat → Reservations
unfolding add_outbound add_inbound add_target_credit
add_move r source dest amount fee_cap =
    add_target_credit (add_inbound (add_outbound r source (sat_add64 amount fee_cap)) dest amount)
      dest amount

unfoldable pub project_strict_action : Reservations → Action → Reservations
unfolding add_move
project_strict_action r (move s d a c g) = add_move r s d a c
project_strict_action r (evacuate s d a c g k) = add_move r s d a c
project_strict_action r (direct_inflow d a c) = add_inbound r d a
project_strict_action r (receive d a c n g) = add_inbound r d a
project_strict_action r (pay s i a c h g) = add_outbound r s (sat_add64 a c)
project_strict_action r (join f i m) = r
project_strict_action r (recover f i) = r
project_strict_action r (refuse_inflow f q d) = r

abbrev pub is_terminal : IntentStatus → Bool
is_terminal IntentStatus.done = true
is_terminal IntentStatus.failed = true
is_terminal _ = false

unfoldable pub strict_step : Reservations → Intent → Reservations
strict_step r i = if is_terminal i.status then r else project_strict_action r i.action

-- The loop of `project_reservations`, from what was reserved before.
unfoldable pub strict_from : Reservations → List Intent → Reservations
strict_from r [] = r
strict_from r (i ∷ is) = strict_from (strict_step r i) is

unfoldable pub project_reservations : List Intent → Reservations
project_reservations is = strict_from no_reservations is

abbrev is_source : Option FederationId → FederationId → Bool
is_source none s = false
is_source (some t) s = t == s

-- The cap that an evacuation's record must carry.
unfoldable pub evac_cap_ok : Option EvacFeeCap → MoveRecord → Msat → Bool
evac_cap_ok none r cap = r.fee_cap == cap
evac_cap_ok (some k) r cap = r.fee_cap == cap_at k r.amount && leb r.fee_cap cap

unfoldable pub structural : Action → MoveRecord → Bool
unfolding evac_cap_ok
structural (move s d a c g) r =
    is_source r.source s && (r.dest == d && (r.send_required && (r.amount == a && r.fee_cap == c)))
structural (evacuate s d a c g k) r =
    is_source r.source s
    && (r.dest == d
        && (r.send_required && (ltb 0 r.amount && (leb r.amount a && evac_cap_ok k r c))))
structural (direct_inflow d a c) r =
    is_none r.source && (r.dest == d && (not r.send_required && (r.amount == a && r.fee_cap == c)))
structural (pay s i a c h g) r = false
structural (receive d a c n g) r = false
structural (join f i m) r = false
structural (recover f i) r = false
structural (refuse_inflow f q d) r = false

abbrev is_sender_phase : MovePhase → Bool
is_sender_phase sending = true
is_sender_phase refunded = true
is_sender_phase stranded = true
is_sender_phase _ = false

-- A receive-only inflow has no sender-side state.
unfoldable pub receive_only_ok : Action → MoveRecord → Bool
receive_only_ok (direct_inflow d a c) r =
    not (is_some r.send_op || (is_some r.preimage || is_some r.send_fee_quoted))
    && not (is_sender_phase r.phase)
receive_only_ok _ r = true

unfoldable pub phase_ok : MovePhase → MoveRecord → Bool
phase_ok created r = true
phase_ok invoiced r = is_some r.invoice && is_some r.recv_op
phase_ok sending r =
    r.send_required && ((is_some r.invoice && is_some r.recv_op) && is_some r.send_op)
phase_ok settled r =
    (is_some r.invoice && is_some r.recv_op)
    && (not r.send_required || (is_some r.send_op && is_some r.preimage))
phase_ok stranded r =
    (is_some r.invoice && is_some r.recv_op)
    && (not r.send_required || (is_some r.send_op && is_some r.preimage))
phase_ok refunded r =
    (is_some r.invoice && is_some r.recv_op)
    && (not r.send_required || (is_some r.send_op && is_none r.preimage))
phase_ok failed r =
    (is_some r.invoice && is_some r.recv_op)
    && (not r.send_required || (is_some r.send_op && is_none r.preimage))

unfoldable pub record_is_trusted : Intent → MoveRecord → Bool
unfolding structural receive_only_ok phase_ok
record_is_trusted i r =
    text_eq r.key i.idempotency_key
    && (structural i.action r && (receive_only_ok i.action r && phase_ok r.phase r))

abbrev is_created : MovePhase → Bool
is_created created = true
is_created _ = false

unfoldable pub record_is_pristine : Intent → MoveRecord → Bool
unfolding record_is_trusted
record_is_pristine i r =
    is_created r.phase
    && (record_is_trusted i r
        && (is_none r.invoice
            && (is_none r.recv_op
                && (is_none r.send_op && (is_none r.preimage && is_none r.outcome)))))

-- What a trusted record of a move leaves reserved.
unfoldable pub move_by_phase :
    MovePhase → Reservations → Action → FederationId → FederationId → MoveRecord → Reservations
unfolding add_move project_strict_action
move_by_phase created r action s d m = project_strict_action r action
move_by_phase invoiced r action s d m = add_move r s d m.amount m.fee_cap
move_by_phase sending r action s d m = add_target_credit (add_inbound r d m.amount) d m.amount
move_by_phase settled r action s d m = r
move_by_phase refunded r action s d m = r
move_by_phase failed r action s d m = r
move_by_phase stranded r action s d m = r

unfoldable pub inflow_by_phase :
    MovePhase → Reservations → Action → FederationId → MoveRecord → Reservations
unfolding add_inbound project_strict_action
inflow_by_phase created r action d m = project_strict_action r action
inflow_by_phase sending r action d m = project_strict_action r action
inflow_by_phase invoiced r action d m = add_inbound r d m.amount
inflow_by_phase settled r action d m = r
inflow_by_phase refunded r action d m = r
inflow_by_phase failed r action d m = r
inflow_by_phase stranded r action d m = r

-- One live intent, with its record if that is trusted.
unfoldable pub allocator_action :
    Reservations → Option ℕ → Option MoveRecord → Action → Reservations
unfolding move_by_phase inflow_by_phase
allocator_action r op none (move s d a c g) = project_strict_action r (move s d a c g)
allocator_action r op (some m) (move s d a c g) = move_by_phase m.phase r (move s d a c g) s d m
allocator_action r op none (evacuate s d a c g k) = project_strict_action r (evacuate s d a c g k)
allocator_action r op (some m) (evacuate s d a c g k) =
    move_by_phase m.phase r (evacuate s d a c g k) s d m
allocator_action r op none (direct_inflow d a c) = project_strict_action r (direct_inflow d a c)
allocator_action r op (some m) (direct_inflow d a c) =
    inflow_by_phase m.phase r (direct_inflow d a c) d m
allocator_action r (some _) m (pay s i a c h g) = r
allocator_action r none m (pay s i a c h g) = project_strict_action r (pay s i a c h g)
allocator_action r op m (receive d a c n g) = project_strict_action r (receive d a c n g)
allocator_action r op m (join f i b) = project_strict_action r (join f i b)
allocator_action r op m (recover f i) = project_strict_action r (recover f i)
allocator_action r op m (refuse_inflow f q d) = project_strict_action r (refuse_inflow f q d)

-- The durable records, by key.
abbrev pub Records : Type 0
Records = IdempotencyKey → Option MoveRecord

unfoldable pub allocator_step : Records → Reservations → Intent → Reservations
allocator_step records r i =
    if is_terminal i.status
    then r
    else (allocator_action r i.operation_id
        (filter_option (record_is_trusted i) (records i.idempotency_key)) i.action)

unfoldable pub allocator_from : Records → Reservations → List Intent → Reservations
allocator_from records r [] = r
allocator_from records r (i ∷ is) = allocator_from records (allocator_step records r i) is

unfoldable pub project_allocator_reservations : List Intent → Records → Reservations
project_allocator_reservations is records = allocator_from records no_reservations is
