-- ===== src/Enqueue/Tally.antt =====
-- Every decision of a batch is counted once, over any journal and any execution.
use fedimint_wallets.Prelude.{
  ℕ, ◌+◌, ◌≡◌, Bool, true, false, Option, List, [], ◌∷◌, length, any, text_eq, NatMap, is_some,
  Bool-cases, inl, inr, arith,
}
use fedimint_wallets.Types.Federation.{Msat, Reservations}
use fedimint_wallets.Types.Action.{Actor, AllocatorDecision, is_executable}
use fedimint_wallets.Intent.{Intent}
use fedimint_wallets.Journal.{Journal, Result, ok, err}
use fedimint_wallets.Drive.{World, Perform}
use fedimint_wallets.Drive.Tally.{tally, drive-IsCounted}
use fedimint_wallets.Enqueue.{
  drive, skip, terminal_failed, Decided, decide_and_journal,
  decide_and_journal_with_allocator_reservations,
}
use fedimint_wallets.Enqueue.Apply.{
  Batch, stored_in, reserve_intent, reserve_action, drive_in, after_decision, apply_one, apply_from,
  apply_with_admission, after_allocator_decision, decide_known, allocate_one, allocate_from,
  apply_with_allocator_admission,
}

module _ {S : Type 0} (journal : Journal S) (perform : Perform S) (a : Actor) (now_ms : ℕ)
    (balances : Option (NatMap Msat)) (per_fed_cap : Option Msat) where
  drive_in-tally :
      (b : Batch S) (i : Intent)
      → tally (drive_in journal perform a now_ms balances per_fed_cap b i).summary
        ≡ tally b.summary + 1
  unfolding drive_in
  drive_in-tally b i = drive-IsCounted journal perform b.summary b.world i

  after_decision-tally :
      (b : Batch S) (d : Decided S)
      → tally (after_decision journal perform a now_ms balances per_fed_cap b d).summary
        ≡ tally b.summary + 1
  unfolding after_decision
  after_decision-tally b (ok terminal_failed, store) = omega arith
  after_decision-tally b (ok skip, store) = omega arith
  after_decision-tally b (ok (drive i), store) = drive_in-tally (stored_in b store) i
  after_decision-tally b (err e, store) = omega arith

  apply_one-tally :
      (b : Batch S) (d : AllocatorDecision)
      → tally (apply_one journal perform a now_ms balances per_fed_cap b d).summary
        ≡ tally b.summary + 1
  unfolding apply_one
  apply_one-tally b d = elim (Bool-cases (is_executable d.action)) [
    | inr advisory ↦ rw advisory (omega arith)
    | inl fine ↦ elim (Bool-cases (any (λ k. text_eq k d.idempotency_key) b.seen)) [
      | inl again ↦ rw (fine, again) (omega arith)
      | inr first ↦
          rw (fine, first)
            (after_decision-tally (record b { seen = d.idempotency_key ∷ b.seen })
              (decide_and_journal journal d a now_ms balances per_fed_cap b.world.store))
    ]
  ]

  apply_from-tally :
      (b : Batch S) (ds : List AllocatorDecision)
      → tally (apply_from journal perform a now_ms balances per_fed_cap b ds).summary
        ≡ tally b.summary + length ds
  unfolding apply_from
  apply_from-tally b [] = omega arith
  apply_from-tally b (d ∷ ds) = omega (
    arith,
    apply_one-tally b d,
    apply_from-tally (apply_one journal perform a now_ms balances per_fed_cap b d) ds,
  )

  after_allocator-tally :
      (existed : Bool) (q : AllocatorDecision) (b : Batch S) (d : Decided S)
      → tally
          (after_allocator_decision journal perform a now_ms balances per_fed_cap existed q b
            d).summary
        ≡ tally b.summary + 1
  unfolding after_allocator_decision reserve_intent reserve_action
  after_allocator-tally existed q b (ok terminal_failed, store) = omega arith
  after_allocator-tally existed q b (ok skip, store) = omega arith
  after_allocator-tally true q b (ok (drive i), store) = drive_in-tally (stored_in b store) i
  after_allocator-tally false q b (ok (drive i), store) =
      drive_in-tally (reserve_intent false (stored_in b store) i) i
  after_allocator-tally true q b (err e, store) = omega arith
  after_allocator-tally false q b (err e, store) = omega arith

  decide_known-tally :
      (known : Result (Option Intent)) (b : Batch S) (d : AllocatorDecision)
      → tally (decide_known journal perform a now_ms balances per_fed_cap known b d).summary
        ≡ tally b.summary + 1
  unfolding decide_known
  decide_known-tally (err e) b d = omega arith
  decide_known-tally (ok known) b d = after_allocator-tally (is_some known) d b (
      decide_and_journal_with_allocator_reservations journal d a now_ms balances per_fed_cap
        b.reserved b.world.store)

  allocate_one-tally :
      (b : Batch S) (d : AllocatorDecision)
      → tally (allocate_one journal perform a now_ms balances per_fed_cap b d).summary
        ≡ tally b.summary + 1
  unfolding allocate_one
  allocate_one-tally b d = elim (Bool-cases (is_executable d.action)) [
    | inr advisory ↦ rw advisory (omega arith)
    | inl fine ↦ elim (Bool-cases (any (λ k. text_eq k d.idempotency_key) b.seen)) [
      | inl again ↦ rw (fine, again) (omega arith)
      | inr first ↦
          rw (fine, first)
            (decide_known-tally (journal.get b.world.store d.idempotency_key)
              (record b { seen = d.idempotency_key ∷ b.seen }) d)
    ]
  ]

  allocate_from-tally :
      (b : Batch S) (ds : List AllocatorDecision)
      → tally (allocate_from journal perform a now_ms balances per_fed_cap b ds).summary
        ≡ tally b.summary + length ds
  unfolding allocate_from
  allocate_from-tally b [] = omega arith
  allocate_from-tally b (d ∷ ds) = omega (
    arith,
    allocate_one-tally b d,
    allocate_from-tally (allocate_one journal perform a now_ms balances per_fed_cap b d) ds,
  )

  -- Whatever the journal and the execution answer, both ways of applying a batch count each of its
  -- decisions once: as performed, as skipped or as failed.
  pub batch_tally :
      (w : World S) (r : Reservations) (ds : List AllocatorDecision)
      → (tally (apply_with_admission journal perform a now_ms balances per_fed_cap w ds).1
          ≡ length ds)
        × (tally
              (apply_with_allocator_admission journal perform a now_ms balances per_fed_cap w r
                ds).1
            ≡ length ds)
  unfolding apply_with_admission apply_with_allocator_admission
  batch_tally w r ds =
      (omega (arith, apply_from-tally _ ds), omega (arith, allocate_from-tally _ ds))
