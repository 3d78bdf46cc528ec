-- ===== src/Drive.antt =====
-- Driving a journaled intent through one execution (`drive_intent_step` and `reconcile` of
-- wallet-core/src/executor.rs). The executor that moves the money is a parameter, which may change
-- the journal and the set of running keys while it runs.
pub mod Settle
pub mod Claim
pub mod Skip
pub mod Tally
use fedimint_wallets.Prelude.{
  ℕ, ◌+◌, Bool, true, false, not, ◌&&◌, Option, some, none, List, [], ◌∷◌, Text, codes, any, filter,
  text_eq, ◌==◌, if◌then◌else◌,
}
use fedimint_wallets.Types.Action.{IdempotencyKey}
use fedimint_wallets.Intent.{Intent, IntentStatus, EvacuationRefusalEvidence}
use fedimint_wallets.Journal.{
  Journal, ExecError, retryable, structural_evacuation_refusal, permanent, unsupported, Result, ok,
  err, same_status,
}

pub record ExecutionSummary : Type 0 where
  pub performed : ℕ
  pub skipped : ℕ
  pub failed : ℕ
  pub terminal_failed_skipped : ℕ
  pub retried : ℕ

abbrev pub empty_summary : ExecutionSummary
empty_summary = record {
  performed = 0;
  skipped = 0;
  failed = 0;
  terminal_failed_skipped = 0;
  retried = 0;
}

pub data PerformOutcome : Type 0 where
  completed awaiting awaiting_already_in_flight : PerformOutcome

-- The store of the journal, and `IN_FLIGHT_PERFORMS` for this store.
pub record World (S : Type 0) : Type 0 where
  pub store : S
  pub in_flight : List IdempotencyKey

-- `Executor::perform`
abbrev pub Perform : Type 0 → Type 0
Perform S = Intent → World S → Result PerformOutcome × World S

-- What a drive returns, beside what it leaves.
abbrev pub Driven : Type 0 → Type 0
Driven S = Result (Option PerformOutcome) × World S × ExecutionSummary

abbrev pub add_performed : ExecutionSummary → ExecutionSummary
add_performed s = record s { performed = s.performed + 1 }

abbrev pub add_skipped : ExecutionSummary → ExecutionSummary
add_skipped s = record s { skipped = s.skipped + 1 }

abbrev pub add_failed : ExecutionSummary → ExecutionSummary
add_failed s = record s { failed = s.failed + 1 }

abbrev pub add_retried : ExecutionSummary → ExecutionSummary
add_retried s = record s { failed = s.failed + 1; retried = s.retried + 1 }

unfoldable pub status_of_outcome : PerformOutcome → IntentStatus
status_of_outcome completed = IntentStatus.done
status_of_outcome awaiting = IntentStatus.awaiting
status_of_outcome awaiting_already_in_flight = IntentStatus.awaiting

-- `reset?; Err(e)` and its like: the error of the journal comes first.
abbrev pub or_journal_error : {A : Type 0} → Result (Unit {0}) → Result A → Result A
or_journal_error (ok _) r = r
or_journal_error (err e) r = err e

-- What follows the write of a result, by the write's own result.
module _ {S : Type 0} where
  abbrev pub told_outcome :
      PerformOutcome → World S → ExecutionSummary → Result (Unit {0}) × S → Driven S
  told_outcome outcome w summary (ok _, store) =
      (ok (some outcome), record w { store = store }, add_performed summary)
  told_outcome outcome w summary (err e, store) =
      (err e, record w { store = store }, add_failed summary)

  abbrev pub told_retry : ExecError → World S → ExecutionSummary → Result (Unit {0}) × S → Driven S
  told_retry e w summary (r, store) =
      (or_journal_error r (err e), record w { store = store }, add_retried summary)

  abbrev pub told_failure :
      ExecError → World S → ExecutionSummary → Result (Unit {0}) × S → Driven S
  told_failure e w summary (r, store) =
      (or_journal_error r (err e), record w { store = store }, add_failed summary)

  -- `InFlightPerform`: claimed, and released when the guard is dropped.
  abbrev pub release : IdempotencyKey → Driven S → Driven S
  release key (r, w, summary) =
      (r, record w { in_flight = filter (λ k. not (text_eq k key)) w.in_flight }, summary)

module _ {S : Type 0} (journal : Journal S) (perform : Perform S) where
  abbrev pub skip_drive : World S → ExecutionSummary → Driven S
  skip_drive w summary = (ok none, w, add_skipped summary)

  -- The first `match`: what is written for a result of `perform`.
  settle_outcome : PerformOutcome → Intent → World S → ExecutionSummary → Driven S
  settle_outcome outcome c w summary =
      told_outcome outcome w summary
        (journal.set_status w.store c.idempotency_key c.attempt (status_of_outcome outcome) none)

  settle_retry :
      Option EvacuationRefusalEvidence → ExecError → Intent → World S → ExecutionSummary → Driven S
  settle_retry refusal e c w summary =
      told_retry e w summary (journal.reset_retryable w.store c.idempotency_key c.attempt refusal)

  settle_failure : Text → ExecError → Intent → World S → ExecutionSummary → Driven S
  settle_failure reason e c w summary =
      told_failure e w summary
        (journal.set_status w.store c.idempotency_key c.attempt IntentStatus.failed (some reason))

  unfoldable pub settle : Result PerformOutcome → Intent → World S → ExecutionSummary → Driven S
  unfolding settle_outcome settle_retry settle_failure
  settle (ok outcome) c w summary = settle_outcome outcome c w summary
  settle (err (retryable reason)) c w summary = settle_retry none (retryable reason) c w summary
  settle (err (structural_evacuation_refusal evidence)) c w summary =
      settle_retry (some evidence) (structural_evacuation_refusal evidence) c w summary
  settle (err (permanent reason)) c w summary = settle_failure reason (permanent reason) c w summary
  settle (err unsupported) c w summary =
      settle_failure (codes "executor does not support this action") unsupported c w summary

  -- The stored intent, re-read under the guard.
  unfoldable pub perform_current :
      Result (Option Intent) → Intent → World S → ExecutionSummary → Driven S
  unfolding settle
  perform_current (err e) i w summary = (err e, w, add_failed summary)
  perform_current (ok none) i w summary = skip_drive w summary
  perform_current (ok (some c)) i w summary =
      if same_status c.status IntentStatus.executing
        && (text_eq c.idempotency_key i.idempotency_key && c.attempt == i.attempt)
      then (let (r, w') = perform c w in settle r c w' summary)
      else skip_drive w summary

  unfoldable pub drive_guarded : Intent → World S → ExecutionSummary → Driven S
  unfolding perform_current
  drive_guarded i w summary =
      if any (λ k. text_eq k i.idempotency_key) w.in_flight
      then skip_drive w summary
      else release i.idempotency_key (
          perform_current (journal.get w.store i.idempotency_key) i
            (record w { in_flight = i.idempotency_key ∷ w.in_flight }) summary)

  -- After the claim of a pending intent.
  unfoldable pub after_claim : Result Bool → Intent → World S → ExecutionSummary → Driven S
  unfolding drive_guarded
  after_claim (ok true) i w summary = drive_guarded i w summary
  after_claim (ok false) i w summary = skip_drive w summary
  after_claim (err e) i w summary = (err e, w, add_failed summary)

  abbrev pub claim_drive : Intent → World S → ExecutionSummary → Result Bool × S → Driven S
  claim_drive i w summary (r, store) = after_claim r i (record w { store = store }) summary

  unfoldable pub drive_intent_step : World S → Intent → ExecutionSummary → Driven S
  unfolding after_claim
  drive_intent_step w i summary =
      if same_status i.status IntentStatus.pending
      then (claim_drive i w summary (
          journal.set_status_if w.store i.idempotency_key i.attempt IntentStatus.pending
            IntentStatus.executing))
      else after_claim (ok true) i w summary

  -- `drive_to_terminal`, over the intents of a scan.
  unfoldable pub drive_all : World S → List Intent → ExecutionSummary → World S × ExecutionSummary
  unfolding drive_intent_step
  drive_all w [] summary = (w, summary)
  drive_all w (i ∷ is) summary =
      let (_, w', summary') = drive_intent_step w i summary in drive_all w' is summary'

  unfoldable pub reconcile : World S → World S × ExecutionSummary
  unfolding drive_all
  reconcile w = elim (journal.pending_intents w.store) [
    | ok is ↦ drive_all w is empty_summary
    | err e ↦ (w, add_failed empty_summary)
  ]
