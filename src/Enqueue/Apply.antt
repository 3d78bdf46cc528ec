-- ===== src/Enqueue/Apply.antt =====
-- Applying a batch of decisions (`apply`, `apply_with_admission` and `apply_with_allocator_admission`
-- of wallet-core/src/executor.rs).
use fedimint_wallets.Prelude.{
  ℕ, ◌+◌, Bool, not, Option, List, [], ◌∷◌, any, text_eq, is_some, NatMap, if◌then◌else◌,
}
use fedimint_wallets.Types.Federation.{Msat, Reservations}
use fedimint_wallets.Types.Action.{IdempotencyKey, Actor, AllocatorDecision, is_executable}
use fedimint_wallets.Intent.{Intent}
use fedimint_wallets.Reservation.{no_reservations, project_strict_action}
use fedimint_wallets.Journal.{Journal, Result, ok, err}
use fedimint_wallets.Drive.{
  ExecutionSummary, empty_summary, World, Perform, Driven, add_skipped, add_failed,
  drive_intent_step,
}
use fedimint_wallets.Enqueue.{
  drive, skip, terminal_failed, Decided, decide_and_journal,
  decide_and_journal_with_allocator_reservations,
}

-- What the loop carries: the world, the keys it has seen, its summary, and the reservations that
-- the allocator's batch has folded in so far.
pub record Batch (S : Type 0) : Type 0 where
  pub world : World S
  pub seen : List IdempotencyKey
  pub summary : ExecutionSummary
  pub reserved : Reservations

abbrev pub add_terminal_failed : ExecutionSummary → ExecutionSummary
add_terminal_failed s = record s {
  skipped = s.skipped + 1;
  terminal_failed_skipped = s.terminal_failed_skipped + 1;
}

module _ {S : Type 0} where
  abbrev pub skipped_in : Batch S → Batch S
  skipped_in b = record b { summary = add_skipped b.summary }

  abbrev pub failed_in : Batch S → Batch S
  failed_in b = record b { summary = add_failed b.summary }

  abbrev pub left_by : Batch S → Driven S → Batch S
  left_by b (_, w, summary) = record b { world = w; summary = summary }

  abbrev pub stored_in : Batch S → S → Batch S
  stored_in b store = let w = b.world in record b { world = record w { store = store } }

  -- The folds into the allocator's view, for a key that was not in the journal before.
  unfoldable pub reserve_intent : Bool → Batch S → Intent → Batch S
  reserve_intent existed b i =
      if existed then b else record b { reserved = project_strict_action b.reserved i.action }

  unfoldable pub reserve_action : Bool → Batch S → AllocatorDecision → Batch S
  reserve_action existed b d =
      if existed then b else record b { reserved = project_strict_action b.reserved d.action }

module _ {S : Type 0} (journal : Journal S) (perform : Perform S) (a : Actor) (now_ms : ℕ)
    (balances : Option (NatMap Msat)) (per_fed_cap : Option Msat) where
  unfoldable pub drive_in : Batch S → Intent → Batch S
  drive_in b i = left_by b (drive_intent_step journal perform b.world i b.summary)

  unfoldable pub after_decision : Batch S → Decided S → Batch S
  unfolding drive_in
  after_decision b (ok terminal_failed, store) = record (stored_in b store) {
    summary = add_terminal_failed b.summary;
  }
  after_decision b (ok skip, store) = skipped_in (stored_in b store)
  after_decision b (ok (drive i), store) = drive_in (stored_in b store) i
  after_decision b (err e, store) = failed_in (stored_in b store)

  unfoldable pub apply_one : Batch S → AllocatorDecision → Batch S
  unfolding after_decision
  apply_one b d =
      if not (is_executable d.action)
      then skipped_in b
      else (if any (λ k. text_eq k d.idempotency_key) b.seen
          then skipped_in b
          else after_decision (record b { seen = d.idempotency_key ∷ b.seen })
              (decide_and_journal journal d a now_ms balances per_fed_cap b.world.store))

  unfoldable pub apply_from : Batch S → List AllocatorDecision → Batch S
  unfolding apply_one
  apply_from b [] = b
  apply_from b (d ∷ ds) = apply_from (apply_one b d) ds

  unfoldable pub apply_with_admission :
      World S → List AllocatorDecision → World S × ExecutionSummary
  unfolding apply_from
  apply_with_admission w ds =
      let b =
        apply_from
          (record { world = w; seen = []; summary = empty_summary; reserved = no_reservations })
          ds in
      (b.world, b.summary)

  -- The allocator's loop: the read before the call tells a fresh key from a known one.
  unfoldable pub after_allocator_decision : Bool → AllocatorDecision → Batch S → Decided S → Batch S
  unfolding drive_in reserve_intent reserve_action
  after_allocator_decision existed d b (ok terminal_failed, store) = record (stored_in b store) {
    summary = add_terminal_failed b.summary;
  }
  after_allocator_decision existed d b (ok skip, store) = skipped_in (stored_in b store)
  after_allocator_decision existed d b (ok (drive i), store) =
      drive_in (reserve_intent existed (stored_in b store) i) i
  after_allocator_decision existed d b (err e, store) =
      failed_in (reserve_action existed (stored_in b store) d)

  unfoldable pub decide_known : Result (Option Intent) → Batch S → AllocatorDecision → Batch S
  unfolding after_allocator_decision
  decide_known (err e) b d = failed_in b
  decide_known (ok existing) b d = after_allocator_decision (is_some existing) d b (
      decide_and_journal_with_allocator_reservations journal d a now_ms balances per_fed_cap
        b.reserved b.world.store)

  unfoldable pub allocate_one : Batch S → AllocatorDecision → Batch S
  unfolding decide_known
  allocate_one b d =
      if not (is_executable d.action)
      then skipped_in b
      else (if any (λ k. text_eq k d.idempotency_key) b.seen
          then skipped_in b
          else decide_known (journal.get b.world.store d.idempotency_key)
              (record b { seen = d.idempotency_key ∷ b.seen }) d)

  unfoldable pub allocate_from : Batch S → List AllocatorDecision → Batch S
  unfolding allocate_one
  allocate_from b [] = b
  allocate_from b (d ∷ ds) = allocate_from (allocate_one b d) ds

  unfoldable pub apply_with_allocator_admission :
      World S → Reservations → List AllocatorDecision → World S × ExecutionSummary
  unfolding allocate_from
  apply_with_allocator_admission w reservations ds =
      let b =
        allocate_from
          (record { world = w; seen = []; summary = empty_summary; reserved = reservations }) ds in
      (b.world, b.summary)
