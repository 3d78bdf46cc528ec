-- ===== src/Drive/Tally.antt =====
-- Every drive is counted once, over any journal and any execution.
use fedimint_wallets.Prelude.{
  ℕ, ◌+◌, ◌≡◌, Bool, true, false, ◌&&◌, Option, some, none, List, [], ◌∷◌, length, any, text_eq,
  ◌==◌, Bool-cases, inl, inr, arith,
}
use fedimint_wallets.Intent.{Intent, IntentStatus}
use fedimint_wallets.Journal.{
  Journal, retryable, structural_evacuation_refusal, permanent, unsupported, Result, ok, err,
  same_status,
}
use fedimint_wallets.Drive.{
  ExecutionSummary, PerformOutcome, World, Perform, Driven, told_outcome, settle, perform_current,
  drive_guarded, after_claim, drive_intent_step, drive_all,
}

abbrev pub tally : ExecutionSummary → ℕ
tally s = s.performed + (s.skipped + s.failed)

module _ {S : Type 0} (summary : ExecutionSummary) where
  -- A drive that is counted once.
  abbrev pub IsCounted : Driven S → Type 0
  IsCounted d = tally d.2 ≡ tally summary + 1

  told_outcome-IsCounted :
      (o : PerformOutcome) (w : World S) (r : Result (Unit {0}) × S)
      → IsCounted (told_outcome o w summary r)
  told_outcome-IsCounted o w (ok _, store) = omega arith
  told_outcome-IsCounted o w (err e, store) = omega arith

module _ {S : Type 0} (journal : Journal S) (perform : Perform S) (summary : ExecutionSummary) where
  settle-IsCounted :
      (p : Result PerformOutcome) (c : Intent) (w : World S)
      → IsCounted summary (settle journal perform p c w summary)
  unfolding settle
  settle-IsCounted (ok o) c w = told_outcome-IsCounted summary o w _
  settle-IsCounted (err (retryable reason)) c w = omega arith
  settle-IsCounted (err (structural_evacuation_refusal evidence)) c w = omega arith
  settle-IsCounted (err (permanent reason)) c w = omega arith
  settle-IsCounted (err unsupported) c w = omega arith

  current-IsCounted :
      (found : Result (Option Intent)) (i : Intent) (w : World S)
      → IsCounted summary (perform_current journal perform found i w summary)
  unfolding perform_current
  current-IsCounted (err e) i w = omega arith
  current-IsCounted (ok none) i w = omega arith
  current-IsCounted (ok (some c)) i w =
      elim (Bool-cases (
        same_status c.status IntentStatus.executing
        && (text_eq c.idempotency_key i.idempotency_key && c.attempt == i.attempt))) [
          | inl t ↦ rw t (settle-IsCounted (perform c w).0 c (perform c w).1)
          | inr f ↦ rw f (omega arith)
        ]

  guarded-IsCounted :
      (i : Intent) (w : World S) → IsCounted summary (drive_guarded journal perform i w summary)
  unfolding drive_guarded
  guarded-IsCounted i w = elim (Bool-cases (any (λ k. text_eq k i.idempotency_key) w.in_flight)) [
    | inl busy ↦ rw busy (omega arith)
    | inr free ↦
        let v : World S = record w { in_flight = i.idempotency_key ∷ w.in_flight } in
        rw free (current-IsCounted (journal.get w.store i.idempotency_key) i v)
  ]

  claim-IsCounted :
      (r : Result Bool) (i : Intent) (w : World S)
      → IsCounted summary (after_claim journal perform r i w summary)
  unfolding after_claim
  claim-IsCounted (ok true) i w = guarded-IsCounted i w
  claim-IsCounted (ok false) i w = omega arith
  claim-IsCounted (err e) i w = omega arith

  pub drive-IsCounted :
      (w : World S) (i : Intent) → IsCounted summary (drive_intent_step journal perform w i summary)
  unfolding drive_intent_step
  drive-IsCounted w i = elim (Bool-cases (same_status i.status IntentStatus.pending)) [
    | inr running ↦ rw running (claim-IsCounted (ok true) i w)
    | inl waiting ↦
        let (r, store) =
          journal.set_status_if w.store i.idempotency_key i.attempt IntentStatus.pending
            IntentStatus.executing in
        rw waiting (claim-IsCounted r i (record w { store = store }))
  ]

-- A scan counts each of its intents once.
pub scan-tally :
    {S : Type 0} (journal : Journal S) (perform : Perform S) (w : World S) (is : List Intent)
    (summary : ExecutionSummary)
    → tally (drive_all journal perform w is summary).1 ≡ tally summary + length is
unfolding drive_all
scan-tally journal perform w [] summary = omega arith
scan-tally journal perform w (i ∷ is) summary =
    let (r, w', summary') = drive_intent_step journal perform w i summary in
    let one = drive-IsCounted journal perform summary w i in
    omega (arith, one, scan-tally journal perform w' is summary')
