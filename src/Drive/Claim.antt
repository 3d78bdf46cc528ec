-- ===== src/Drive/Claim.antt =====
-- One drive of an intent, from its claim to the result.
use fedimint_wallets.Prelude.{
  ◌≡◌, refl, true, false, ◌&&◌, some, ◌==◌, if◌then◌else◌, ◌⊎◌, inl, inr, arith,
}
use fedimint_wallets.Intent.{Intent, IntentStatus, pending, executing, transition_allowed}
use fedimint_wallets.Journal.{
  MemStore, mem_journal, ok, same_status, lookup, put, claimed, mem_set_status_if,
}
use fedimint_wallets.Journal.Lookup.{lookup-put_self}
use fedimint_wallets.Drive.{ExecutionSummary, World, Perform, after_claim, drive_intent_step}
use fedimint_wallets.Drive.Settle.{IsSettled, IsQuiet, guarded, is_busy, guarded-IsSettled}

pub is_waiting : (s : IntentStatus) → s ≡ pending → same_status s pending ≡ true
unfolding same_status
is_waiting s h = ground arith

pub not_waiting : (s : IntentStatus) → s ≡ executing → same_status s pending ≡ false
unfolding same_status
not_waiting s h = ground arith

claim_current :
    (store : MemStore) (i : Intent)
    → lookup i.idempotency_key store ≡ some i
    → i.status ≡ pending
    → mem_set_status_if store i.idempotency_key i.attempt pending executing
      ≡ (ok true, put (claimed i pending executing) store)
unfolding mem_set_status_if transition_allowed same_status
claim_current store i at waiting =
    let same : (i.attempt == i.attempt) ≡ true = ground arith in
    let test : (i.attempt == i.attempt
          && (same_status i.status pending && transition_allowed i.status executing))
        ≡ true =
      rw (same, waiting) refl in
    rw (at, mem_set_status_if, test) refl

lookup-claimed :
    (i : Intent) (store : MemStore)
    → lookup i.idempotency_key (put (claimed i pending executing) store)
      ≡ some (claimed i pending executing)
unfolding claimed
lookup-claimed i store = lookup-put_self (claimed i pending executing) store

claimed_attempt : (i : Intent) → (claimed i pending executing).attempt ≡ i.attempt
unfolding claimed
claimed_attempt i = refl

claimed_status : (i : Intent) → (claimed i pending executing).status ≡ executing
unfolding claimed
claimed_status i = refl

-- The intent that `perform` is given: a pending one is claimed first.
abbrev pub running_of : Intent → Intent
running_of c = if same_status c.status pending then claimed c pending executing else c

abbrev pub claimed_store : Intent → MemStore → MemStore
claimed_store c store =
    if same_status c.status pending then put (claimed c pending executing) store else store

-- With an execution that leaves the performed intent and the running keys alone: a drive of a
-- pending or executing intent that is as the in-memory journal has it, under a key that nobody
-- runs, leaves the store that one execution of the claimed intent left, with one write more: the
-- intent under its key, changed only in its status and the evidence of its refusal. The status is
-- done, awaiting, pending after a retryable or structural refusal, or failed, as that execution
-- ended. The caller and the summary are told its result, and the key is free again.
pub drive-IsSettled :
    (perform : Perform MemStore) (w : World MemStore) (i : Intent) (summary : ExecutionSummary)
    → IsQuiet perform
    → lookup i.idempotency_key w.store ≡ some i
    → (i.status ≡ pending) ⊎ (i.status ≡ executing)
    → is_busy i.idempotency_key w.in_flight ≡ false
    → IsSettled
        (running_of i)
        (perform
          (running_of i)
          (guarded i.idempotency_key (record w { store = claimed_store i w.store })))
        summary
        w.in_flight
        (drive_intent_step mem_journal perform w i summary)
unfolding drive_intent_step after_claim
drive-IsSettled perform w i summary quiet at (inr running) free =
    let test : same_status i.status pending ≡ false = not_waiting i.status running in
    rw test (guarded-IsSettled perform quiet summary i w i at refl running free)
drive-IsSettled perform w i summary quiet at (inl waiting) free =
    let test : same_status i.status pending ≡ true = is_waiting i.status waiting in
    let c = claimed i pending executing in
    let v : World MemStore = record w { store = put c w.store } in
    rw (test, claim_current w.store i at waiting)
      (guarded-IsSettled perform quiet summary i v c (lookup-claimed i w.store) (claimed_attempt i)
        (claimed_status i) free)
