-- ===== src/Drive/Settle.antt =====
-- What a drive over the in-memory journal leaves, for each way that the execution ends.
use fedimint_wallets.Prelude.{
  ◌≡◌, refl, sym, subst, Bool, true, false, not, Option, some, none, List, [], ◌∷◌, Text, codes,
  any, filter, text_eq, text_eq_refl, ◌==◌, arith,
}
use fedimint_wallets.Types.Action.{IdempotencyKey}
use fedimint_wallets.Intent.{
  Intent, IntentStatus, pending, executing, done, awaiting, failed, transition_allowed,
  EvacuationRefusalEvidence,
}
use fedimint_wallets.Journal.{
  MemStore, mem_journal, retryable, structural_evacuation_refusal, permanent, unsupported, Result,
  ok, err, same_status, lookup, put, status_check, mem_set_status, mem_reset_retryable,
}
use fedimint_wallets.Journal.Lookup.{lookup-put_self, lookup-key}
use fedimint_wallets.Drive.{
  ExecutionSummary, PerformOutcome, World, Perform, Driven, add_performed, add_failed, add_retried,
  release, status_of_outcome, settle, perform_current, drive_guarded,
}

-- What the journal, the caller and the summary are told of a result of `perform`.
abbrev pub status_after : Result PerformOutcome → IntentStatus
status_after (ok PerformOutcome.completed) = done
status_after (ok PerformOutcome.awaiting) = awaiting
status_after (ok PerformOutcome.awaiting_already_in_flight) = awaiting
status_after (err (retryable reason)) = pending
status_after (err (structural_evacuation_refusal evidence)) = pending
status_after (err (permanent reason)) = failed
status_after (err unsupported) = failed

abbrev pub result_after : Result PerformOutcome → Result (Option PerformOutcome)
result_after (ok outcome) = ok (some outcome)
result_after (err e) = err e

abbrev pub summary_after : Result PerformOutcome → ExecutionSummary → ExecutionSummary
summary_after (ok outcome) s = add_performed s
summary_after (err (retryable reason)) s = add_retried s
summary_after (err (structural_evacuation_refusal evidence)) s = add_retried s
summary_after (err (permanent reason)) s = add_failed s
summary_after (err unsupported) s = add_failed s

module _ (store : MemStore) (c : Intent) (at : lookup c.idempotency_key store ≡ some c)
    (running : c.status ≡ executing) where
  set_status_running :
      (s : IntentStatus) (error : Option Text)
      → mem_set_status store c.idempotency_key c.attempt s error
        ≡ (ok tt, put (record c { status = s }) store)
  unfolding mem_set_status status_check transition_allowed
  set_status_running s error =
      let same : (c.attempt == c.attempt) ≡ true = ground arith in
      let free : status_check c c.attempt s ≡ none = rw (same, running) refl in
      rw (at, mem_set_status, free) refl

  reset_running :
      (refusal : Option EvacuationRefusalEvidence)
      → mem_reset_retryable store c.idempotency_key c.attempt refusal
        ≡ (ok tt, put (record c { status = pending; evacuation_refusal = refusal }) store)
  unfolding mem_reset_retryable same_status
  reset_running refusal =
      let same : (c.attempt == c.attempt) ≡ true = ground arith in
      let own : same_status c.status executing ≡ true = rw running refl in
      rw (at, mem_reset_retryable, same, own) refl

-- The evidence of a refusal that a result leaves with the intent: a retry replaces it.
abbrev pub evidence_after :
    Result PerformOutcome → Option EvacuationRefusalEvidence → Option EvacuationRefusalEvidence
evidence_after (ok outcome) old = old
evidence_after (err (retryable reason)) old = none
evidence_after (err (structural_evacuation_refusal evidence)) old = some evidence
evidence_after (err (permanent reason)) old = old
evidence_after (err unsupported) old = old

-- The intent as a result leaves it: only its status and its evidence change.
abbrev pub settled_intent : Result PerformOutcome → Intent → Intent
settled_intent p c = record c {
  status = status_after p;
  evacuation_refusal = evidence_after p c.evacuation_refusal;
}

-- How a drive ends after an execution `ran`, its result and the world it left: the store is that of
-- this world, with the intent as the result leaves it written under its key, and the caller and the
-- summary are told the result.
pub record IsSettled (c : Intent) (ran : Result PerformOutcome × World MemStore)
    (summary : ExecutionSummary) (keys : List IdempotencyKey) (d : Driven MemStore) : Type 0 where
  pub stored : d.1.store ≡ put (settled_intent ran.0 c) ran.1.store
  pub found : lookup c.idempotency_key d.1.store ≡ some (settled_intent ran.0 c)
  pub told : d.0 ≡ result_after ran.0
  pub counted : d.2 ≡ summary_after ran.0 summary
  pub freed : d.1.in_flight ≡ keys

module _ (perform : Perform MemStore) (w : World MemStore) (c : Intent)
    (at : lookup c.idempotency_key w.store ≡ some c) (running : c.status ≡ executing)
    (summary : ExecutionSummary) where
  IsSettled-as :
      (p : Result PerformOutcome)
      → IsSettled c
          (p, w)
          summary
          w.in_flight
          (
            result_after p,
            record w { store = put (settled_intent p c) w.store },
            summary_after p summary,
          )
  IsSettled-as p = record {
    stored = refl;
    found = lookup-put_self (settled_intent p c) w.store;
    told = refl;
    counted = refl;
    freed = refl;
  }

  settle-IsSettled :
      (p : Result PerformOutcome)
      → IsSettled c (p, w) summary w.in_flight (settle mem_journal perform p c w summary)
  unfolding settle status_of_outcome
  settle-IsSettled (ok PerformOutcome.completed) =
      rw (set_status_running w.store c at running done none, settle)
        (IsSettled-as (ok PerformOutcome.completed))
  settle-IsSettled (ok PerformOutcome.awaiting) =
      rw (set_status_running w.store c at running awaiting none, settle)
        (IsSettled-as (ok PerformOutcome.awaiting))
  settle-IsSettled (ok PerformOutcome.awaiting_already_in_flight) =
      rw (set_status_running w.store c at running awaiting none, settle)
        (IsSettled-as (ok PerformOutcome.awaiting_already_in_flight))
  settle-IsSettled (err (retryable reason)) =
      rw (reset_running w.store c at running none, settle) (IsSettled-as (err (retryable reason)))
  settle-IsSettled (err (structural_evacuation_refusal evidence)) =
      rw (reset_running w.store c at running (some evidence), settle)
        (IsSettled-as (err (structural_evacuation_refusal evidence)))
  settle-IsSettled (err (permanent reason)) =
      rw (set_status_running w.store c at running failed (some reason), settle)
        (IsSettled-as (err (permanent reason)))
  settle-IsSettled (err unsupported) =
      rw
        (
          set_status_running w.store c at running failed
              (some (codes "executor does not support this action")),
          settle,
        )
        (IsSettled-as (err unsupported))

-- Nothing that runs under the guard changes the intent that is being performed, or the running keys.
pub record IsQuiet (perform : Perform MemStore) : Type 0 where
  pub keeps_intent :
      (e : Intent) (v : World MemStore)
      → lookup e.idempotency_key v.store ≡ some e
      → lookup e.idempotency_key (perform e v).1.store ≡ some e
  pub keeps_keys : (e : Intent) (v : World MemStore) → (perform e v).1.in_flight ≡ v.in_flight

abbrev pub is_busy : IdempotencyKey → List IdempotencyKey → Bool
is_busy key keys = any (λ k. text_eq k key) keys

filter_absent :
    (key : IdempotencyKey) (keys : List IdempotencyKey)
    → is_busy key keys ≡ false
    → filter (λ k. not (text_eq k key)) keys ≡ keys
unfolding any filter
filter_absent key [] h = refl
filter_absent key (k ∷ ks) h = ground (arith, filter_absent key ks)

pub release_lem :
    (key : IdempotencyKey) (keys : List IdempotencyKey)
    → is_busy key keys ≡ false
    → filter (λ k. not (text_eq k key)) (key ∷ keys) ≡ keys
unfolding filter
release_lem key keys h = rw (text_eq_refl key) (filter_absent key keys h)

release-IsSettled :
    (c : Intent) (ran : Result PerformOutcome × World MemStore) (summary : ExecutionSummary)
    (key : IdempotencyKey) (keys : List IdempotencyKey) (d : Driven MemStore)
    → is_busy key keys ≡ false
    → IsSettled c ran summary (key ∷ keys) d
    → IsSettled c ran summary keys (release key d)
release-IsSettled c ran summary key keys d free h = record {
  stored = h.stored;
  found = h.found;
  told = h.told;
  counted = h.counted;
  freed = rw h.freed (release_lem key keys free);
}

-- The world that `perform` is called in, and the intent that it is given.
abbrev pub guarded : IdempotencyKey → World MemStore → World MemStore
guarded key w = record w { in_flight = key ∷ w.in_flight }

module _ (perform : Perform MemStore) (quiet : IsQuiet perform) (summary : ExecutionSummary)
    (i : Intent) where
  current-IsSettled :
      (v : World MemStore) (c : Intent)
      → lookup i.idempotency_key v.store ≡ some c
      → c.attempt ≡ i.attempt
      → c.status ≡ executing
      → IsSettled c
          (perform c v)
          summary
          v.in_flight
          (perform_current mem_journal perform (ok (lookup i.idempotency_key v.store)) i v summary)
  unfolding perform_current same_status
  current-IsSettled v c at attempt running =
      let key = lookup-key i.idempotency_key v.store c at in
      let own : lookup c.idempotency_key v.store ≡ some c =
        subst (λ (k : IdempotencyKey). lookup k v.store ≡ some c) (sym key) at in
      let after = quiet.keeps_intent c v own in
      let same : (c.attempt == i.attempt) ≡ true = ground arith in
      let test : same_status c.status executing ≡ true = rw running refl in
      let name : text_eq c.idempotency_key i.idempotency_key ≡ true =
        rw key (text_eq_refl i.idempotency_key) in
      let d =
        perform_current mem_journal perform (ok (lookup i.idempotency_key v.store)) i v summary in
      let settled : IsSettled c (perform c v) summary (perform c v).1.in_flight d =
        rw (at, perform_current, test, name, same)
          (settle-IsSettled perform (perform c v).1 c after running summary (perform c v).0) in
      subst (λ (ks : List IdempotencyKey). IsSettled c (perform c v) summary ks d)
        (quiet.keeps_keys c v) settled

  pub guarded-IsSettled :
      (w : World MemStore) (c : Intent)
      → lookup i.idempotency_key w.store ≡ some c
      → c.attempt ≡ i.attempt
      → c.status ≡ executing
      → is_busy i.idempotency_key w.in_flight ≡ false
      → IsSettled c
          (perform c (guarded i.idempotency_key w))
          summary
          w.in_flight
          (drive_guarded mem_journal perform i w summary)
  unfolding drive_guarded
  guarded-IsSettled w c at attempt running free = rw free (
      release-IsSettled c (perform c (guarded i.idempotency_key w)) summary i.idempotency_key
        w.in_flight
        (perform_current mem_journal perform (ok (lookup i.idempotency_key w.store)) i
          (guarded i.idempotency_key w) summary)
        free (current-IsSettled (guarded i.idempotency_key w) c at attempt running))
