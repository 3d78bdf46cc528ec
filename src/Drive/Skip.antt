-- ===== src/Drive/Skip.antt =====
-- A drive that finds its snapshot out of date leaves everything as it was.
use fedimint_wallets.Prelude.{
  ◌≡◌, refl, subst, Bool, true, false, not, ◌&&◌, Option, some, none, text_eq, ◌==◌, Bool-cases,
  ◌⊎◌, inl, inr, arith,
}
use fedimint_wallets.Intent.{Intent, IntentStatus, pending, executing}
use fedimint_wallets.Journal.{MemStore, mem_journal, ok, same_status, lookup, mem_set_status_if}
use fedimint_wallets.Drive.{
  ExecutionSummary, World, Perform, add_skipped, perform_current, drive_guarded, after_claim,
  drive_intent_step,
}
use fedimint_wallets.Drive.Settle.{is_busy, guarded, release_lem}
use fedimint_wallets.Drive.Claim.{is_waiting, not_waiting}

-- The journal has the intent no longer as the snapshot has it.
abbrev pub is_stale : Option Intent → Intent → Bool
is_stale none i = true
is_stale (some c) i = not (c.attempt == i.attempt && same_status c.status i.status)

stale_claim :
    (store : MemStore) (i : Intent)
    → i.status ≡ pending
    → is_stale (lookup i.idempotency_key store) i ≡ true
    → mem_set_status_if store i.idempotency_key i.attempt pending executing ≡ (ok false, store)
unfolding mem_set_status_if same_status
stale_claim store i waiting stale = ground arith

stale_current :
    (perform : Perform MemStore) (v : World MemStore) (i : Intent) (summary : ExecutionSummary)
    (found : Option Intent)
    → i.status ≡ executing
    → is_stale found i ≡ true
    → perform_current mem_journal perform (ok found) i v summary ≡ (ok none, v, add_skipped summary)
unfolding perform_current
stale_current perform v i summary none running stale = refl
stale_current perform v i summary (some c) running stale =
    let test : (same_status c.status executing
          && (text_eq c.idempotency_key i.idempotency_key && c.attempt == i.attempt))
        ≡ false =
      (let other : (c.attempt == i.attempt && same_status c.status executing) ≡ false =
          subst (λ (s : IntentStatus). (c.attempt == i.attempt && same_status c.status s) ≡ false)
            running (ground arith) in
        ground arith) in
    rw test refl

stale_guarded :
    (perform : Perform MemStore) (w : World MemStore) (i : Intent) (summary : ExecutionSummary)
    → i.status ≡ executing
    → is_stale (lookup i.idempotency_key w.store) i ≡ true
    → drive_guarded mem_journal perform i w summary ≡ (ok none, w, add_skipped summary)
unfolding drive_guarded
stale_guarded perform w i summary running stale =
    let key = i.idempotency_key in
    elim (Bool-cases (is_busy key w.in_flight)) [
      | inl busy ↦ rw busy refl
      | inr free ↦
          let skipped =
            stale_current perform (guarded key w) i summary (lookup key w.store) running stale in
          rw (free, skipped, release_lem key w.in_flight free) refl
    ]

-- A drive of a pending or executing snapshot that the journal no longer has at its attempt and
-- status never performs anything: it leaves the journal and the running keys as they were and is
-- counted as skipped, whatever the execution would do.
pub stale_drive :
    (perform : Perform MemStore) (w : World MemStore) (i : Intent) (summary : ExecutionSummary)
    → (i.status ≡ pending) ⊎ (i.status ≡ executing)
    → is_stale (lookup i.idempotency_key w.store) i ≡ true
    → drive_intent_step mem_journal perform w i summary ≡ (ok none, w, add_skipped summary)
unfolding drive_intent_step after_claim
stale_drive perform w i summary (inl waiting) stale =
    rw (is_waiting i.status waiting, stale_claim w.store i waiting stale) refl
stale_drive perform w i summary (inr running) stale =
    rw (not_waiting i.status running) (stale_guarded perform w i summary running stale)
