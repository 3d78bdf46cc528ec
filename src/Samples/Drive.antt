-- ===== src/Samples/Drive.antt =====
-- The theorems on the journal, admission and the driver at concrete inputs.
use fedimint_wallets.Prelude.{
  ℕ, ◌+◌, ◌≤◌, ◌≡◌, refl, false, some, none, [], ◌∷◌, inl, arith, any, find, filter, text_eq, codes,
  NatMap,
}
use fedimint_wallets.Types.Federation.{inbound, outbound}
use fedimint_wallets.Types.Action.{
  Action, user, ReasonCode, AllocatorDecision, is_executable, fee_cap,
}
use fedimint_wallets.Intent.{Intent, IntentStatus, transition_allowed, from_decision}
use fedimint_wallets.Intent.Lifecycle.{Writes}
use fedimint_wallets.Journal.{
  MemStore, mem_journal, ok, lookup, put, mem_set_status_if, same_status, mem_reservation_intents,
  mem_pending, mem_awaiting, mem_upsert, upsert_check,
}
use fedimint_wallets.Journal.Effect.{run_writes, set_status, set_status_if}
use fedimint_wallets.Journal.Lifecycle.{journal-Writes, claim_once}
use fedimint_wallets.Drive.{
  World, PerformOutcome, Perform, empty_summary, add_skipped, drive_intent_step,
}
use fedimint_wallets.Drive.Settle.{IsSettled, IsQuiet, guarded}
use fedimint_wallets.Drive.Claim.{running_of, claimed_store, drive-IsSettled}
use fedimint_wallets.Drive.Skip.{stale_drive}
use fedimint_wallets.Drive.Tally.{tally}
use fedimint_wallets.Enqueue.{
  drive, decide_and_journal, decide_and_journal_inner, decide_existing, reservations_of,
  admit_and_journal, admit_intent, check_source, check_destination, available_in, committed_to,
  checked_source, checked_destination, journal_if,
}
use fedimint_wallets.Enqueue.Durable.{IsDurable, decide-IsDurable}
use fedimint_wallets.Enqueue.Limits.{journaled_within_cap, journaled_within_balance}
use fedimint_wallets.Enqueue.Apply.{apply_with_admission, apply_with_allocator_admission}
use fedimint_wallets.Enqueue.Tally.{batch_tally}
use fedimint_wallets.Reservation.{project_reservations, no_reservations, strict_from}

-- A payment and an inflow, as decisions and as journaled intents.
abbrev payment : AllocatorDecision
payment = record {
  action = Action.pay 1 (codes "lnbc2") 700 50 6 none;
  reason = ReasonCode.user_initiated;
  occurrence = 3;
  idempotency_key = codes "pay:1";
}

abbrev inflow_in : AllocatorDecision
inflow_in = record {
  action = Action.direct_inflow 2 400 10;
  reason = ReasonCode.user_initiated;
  occurrence = 3;
  idempotency_key = codes "in:1";
}

abbrev paying : IntentStatus → Intent
paying status = record {
  idempotency_key = codes "pay:1";
  attempt = 0;
  action = Action.pay 1 (codes "lnbc2") 700 50 6 none;
  max_fee = some 50;
  status = status;
  reason = ReasonCode.user_initiated;
  actor = user;
  created_at_ms = 0;
  operation_id = none;
  invoice = none;
  evacuation_refusal = none;
}

abbrev pending_payment : Intent
pending_payment = paying IntentStatus.pending

abbrev store_in : IntentStatus → MemStore
store_in status = paying status ∷ []

abbrev world_in : IntentStatus → World MemStore
world_in status = record { store = store_in status; in_flight = [] }

journal-Writes_example :
    (j : Intent) × (lookup (codes "pay:1") (
        run_writes
          (set_status_if (codes "pay:1") 0 IntentStatus.pending IntentStatus.executing
            ∷ (set_status (codes "pay:1") 0 IntentStatus.done none ∷ []))
          (store_in IntentStatus.pending))
      ≡ some j)
    × (j.attempt ≡ 0)
    × Writes IntentStatus.pending j.status
unfolding lookup find text_eq
journal-Writes_example =
    journal-Writes
      (set_status_if (codes "pay:1") 0 IntentStatus.pending IntentStatus.executing
        ∷ (set_status (codes "pay:1") 0 IntentStatus.done none ∷ []))
      (store_in IntentStatus.pending) (codes "pay:1") pending_payment refl

claim_once_example :
    let claimed_store =
      (mem_set_status_if
        (store_in IntentStatus.pending)
        (codes "pay:1")
        0
        IntentStatus.pending
        IntentStatus.executing).1 in
    mem_set_status_if claimed_store (codes "pay:1") 0 IntentStatus.pending IntentStatus.executing
    ≡ (ok false, claimed_store)
unfolding mem_set_status_if lookup find text_eq same_status transition_allowed
claim_once_example = claim_once (store_in IntentStatus.pending) (codes "pay:1") 0 0 refl

-- An execution that completes at once.
abbrev completes : Perform MemStore
completes = λ c w. (ok PerformOutcome.completed, w)

completes-IsQuiet : IsQuiet completes
completes-IsQuiet = record { keeps_intent = λ e v h. h; keeps_keys = λ e v. refl }

drive-IsSettled_example :
    IsSettled
      (running_of pending_payment)
      (completes (running_of pending_payment) (
        guarded (codes "pay:1") (record {
          store = claimed_store pending_payment (store_in IntentStatus.pending);
          in_flight = [];
        })))
      empty_summary
      []
      (drive_intent_step mem_journal completes
        (world_in IntentStatus.pending)
        pending_payment
        empty_summary)
unfolding lookup find text_eq any
drive-IsSettled_example =
    drive-IsSettled completes (world_in IntentStatus.pending) pending_payment empty_summary
      completes-IsQuiet refl (inl refl) refl

stale_drive_example :
    drive_intent_step mem_journal completes
      (world_in IntentStatus.done)
      pending_payment
      empty_summary
    ≡ (ok none, world_in IntentStatus.done, add_skipped empty_summary)
unfolding lookup find text_eq same_status
stale_drive_example =
    stale_drive completes (world_in IntentStatus.done) pending_payment empty_summary (inl refl) refl

batch_tally_example :
    (tally
        (apply_with_admission mem_journal completes user 0 none none
          (world_in IntentStatus.done)
          (payment ∷ inflow_in ∷ [])).1
      ≡ 2)
    × (tally
          (apply_with_allocator_admission mem_journal completes user 0 none none
            (world_in IntentStatus.done)
            no_reservations
            (payment ∷ inflow_in ∷ [])).1
        ≡ 2)
batch_tally_example =
    batch_tally mem_journal completes user 0 none none (world_in IntentStatus.done) no_reservations
      (payment ∷ inflow_in ∷ [])

abbrev balances : NatMap ℕ
balances fed = some 1000

decide-IsDurable_example : IsDurable (store_in IntentStatus.done) (codes "in:1") (
    decide_and_journal_inner mem_journal inflow_in user 0
      (some balances)
      (some 5000)
      none
      (store_in IntentStatus.done))
decide-IsDurable_example =
    decide-IsDurable inflow_in user 0 (some balances) (some 5000) none (store_in IntentStatus.done)

-- The journal after the inflow, and after the payment.
abbrev inflow_intent : Intent
inflow_intent = record {
  idempotency_key = codes "in:1";
  attempt = 0;
  action = Action.direct_inflow 2 400 10;
  max_fee = some 10;
  status = IntentStatus.pending;
  reason = ReasonCode.user_initiated;
  actor = user;
  created_at_ms = 0;
  operation_id = none;
  invoice = none;
  evacuation_refusal = none;
}

inflow_journaled :
    decide_and_journal mem_journal inflow_in user 0 (some balances) (some 5000) []
    ≡ (ok (drive inflow_intent), inflow_intent ∷ [])
unfolding decide_and_journal decide_and_journal_inner decide_existing from_decision lookup find
    text_eq put reservations_of mem_reservation_intents mem_pending mem_awaiting filter
    project_reservations strict_from no_reservations admit_and_journal admit_intent check_source
    check_destination available_in committed_to checked_source checked_destination outbound inbound
    journal_if mem_upsert upsert_check is_executable fee_cap
inflow_journaled = refl

journaled_within_cap_example :
    1000 + inbound (project_reservations (mem_reservation_intents (inflow_intent ∷ []))) 2 ≤ 5000
unfolding lookup find checked_destination
journaled_within_cap_example =
    journaled_within_cap inflow_in user 0 balances 5000 [] (inflow_intent ∷ []) inflow_intent refl
      inflow_journaled 2 400 refl (omega arith)

payment_journaled :
    decide_and_journal mem_journal payment user 0 (some balances) (some 5000) []
    ≡ (ok (drive pending_payment), pending_payment ∷ [])
unfolding decide_and_journal decide_and_journal_inner decide_existing from_decision lookup find
    text_eq put reservations_of mem_reservation_intents mem_pending mem_awaiting filter
    project_reservations strict_from no_reservations admit_and_journal admit_intent check_source
    check_destination available_in committed_to checked_source checked_destination outbound inbound
    journal_if mem_upsert upsert_check is_executable fee_cap
payment_journaled = refl

journaled_within_balance_example :
    outbound (project_reservations (mem_reservation_intents (pending_payment ∷ []))) 1 ≤ 1000
unfolding lookup find checked_source
journaled_within_balance_example =
    journaled_within_balance payment user 0 balances 5000 [] (pending_payment ∷ []) pending_payment
      refl payment_journaled 1 750 refl (omega arith)
