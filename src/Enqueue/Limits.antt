-- ===== src/Enqueue/Limits.antt =====
-- The limits that hold of balances and reservations once an intent is journaled.
use fedimint_wallets.Prelude.{
  ℕ, ◌+◌, ◌-◌, ◌≤◌, ◌<◌, ◌≡◌, refl, sym, ap, ◌∙◌, some, none, ltb, unwrap_or, NatMap, u64_max,
  Bool-cases, inl, inr, arith,
}
use fedimint_wallets.Types.Federation.{FederationId, Msat, Reservations, outbound, inbound}
use fedimint_wallets.Types.Action.{
  Action, direct_inflow, move, evacuate, pay, receive, join, recover, refuse_inflow, Actor,
  AllocatorDecision, is_executable,
}
use fedimint_wallets.Intent.{Intent, from_decision}
use fedimint_wallets.Reservation.{project_reservations}
use fedimint_wallets.Journal.{
  MemStore, mem_journal, Result, ok, err, lookup, put, mem_upsert, upsert_check,
  mem_reservation_intents,
}
use fedimint_wallets.Enqueue.{
  drive, Decided, checked_source, checked_destination, check_source, check_destination,
  available_in, committed_to, admit_intent, journal_if, admit_and_journal, decide_existing,
  decide_and_journal_inner, decide_and_journal, reservations_of, and_then_check, drive_after,
}
use fedimint_wallets.Enqueue.Totals.{
  inflow, outflow, total-reservation_intents, projected-inbound, projected-outbound,
}

upsert_free :
    (i : Intent) (store : MemStore)
    → lookup i.idempotency_key store ≡ none
    → mem_upsert store i ≡ (ok tt, put i store)
unfolding mem_upsert upsert_check
upsert_free i store free = rw (free, mem_upsert) refl

-- A fresh intent that was journaled was admitted.
journal_if-admitted :
    (r : Result (Unit {0})) (i j : Intent) (store store' : MemStore)
    → lookup i.idempotency_key store ≡ none
    → journal_if mem_journal r store i ≡ (ok (drive j), store')
    → (r ≡ ok tt) × (store' ≡ put i store)
unfolding journal_if
journal_if-admitted (ok _) i j store store' free e = (
  refl,
  sym (ap (λ (x : Decided MemStore). x.1) e)
      ∙ ap (λ (x : Decided MemStore). x.1) (ap (drive_after i) (upsert_free i store free)),
)
journal_if-admitted (err x) i j store store' free e = absurd (cc)

both_checks : (x y : Result (Unit {0})) → and_then_check x y ≡ ok tt → (x ≡ ok tt) × (y ≡ ok tt)
both_checks (ok _) y e = (refl, e)
both_checks (err z) y e = absurd (cc)

check_source-ok :
    (balances : NatMap Msat) (r : Reservations) (fed : FederationId) (required : Msat)
    → check_source balances r (some (fed, required)) ≡ ok tt
    → required ≤ unwrap_or 0 (balances fed) - outbound r fed
unfolding check_source available_in
check_source-ok balances r fed required e =
    elim (Bool-cases (ltb (unwrap_or 0 (balances fed) - outbound r fed) required)) [
      | inl short ↦ absurd (let no = rw short at e in cc)
      | inr enough ↦ ground arith
    ]

check_destination-ok :
    (balances : NatMap Msat) (r : Reservations) (cap : Msat) (fed : FederationId) (amount : Msat)
    → check_destination balances r (some cap) (some (fed, amount)) ≡ ok tt
    → committed_to balances r fed amount ≤ cap
unfolding check_destination
check_destination-ok balances r cap fed amount e =
    elim (Bool-cases (ltb cap (committed_to balances r fed amount))) [
      | inl over ↦ absurd (let no = rw over at e in cc)
      | inr within ↦ ground arith
    ]

-- The checked sides are those that are reserved.
destination-inflow :
    (action : Action) (fed : FederationId) (amount : Msat)
    → checked_destination action ≡ some (fed, amount)
    → inflow fed action ≡ amount
unfolding checked_destination
destination-inflow (direct_inflow d a c) fed amount e = ground arith
destination-inflow (move s d a c g) fed amount e = ground arith
destination-inflow (evacuate s d a c g k) fed amount e = ground arith
destination-inflow (receive d a c n g) fed amount e = ground arith
destination-inflow (pay s i a c h g) fed amount e = absurd (cc)
destination-inflow (join f i m) fed amount e = absurd (cc)
destination-inflow (recover f i) fed amount e = absurd (cc)
destination-inflow (refuse_inflow f q d) fed amount e = absurd (cc)

source-outflow :
    (action : Action) (fed : FederationId) (required : Msat)
    → checked_source action ≡ some (fed, required)
    → outflow fed action ≡ required
unfolding checked_source
source-outflow (move s d a c g) fed required e = ground arith
source-outflow (pay s i a c h g) fed required e = ground arith
source-outflow (direct_inflow d a c) fed required e = absurd (cc)
source-outflow (evacuate s d a c g k) fed required e = absurd (cc)
source-outflow (receive d a c n g) fed required e = absurd (cc)
source-outflow (join f i m) fed required e = absurd (cc)
source-outflow (recover f i) fed required e = absurd (cc)
source-outflow (refuse_inflow f q d) fed required e = absurd (cc)

module _ (d : AllocatorDecision) (a : Actor) (now_ms : ℕ) (balances : NatMap Msat) (cap : Msat)
    (store store' : MemStore) (j : Intent) (free : lookup d.idempotency_key store ≡ none)
    (e : decide_and_journal mem_journal d a now_ms (some balances) (some cap) store
      ≡ (ok (drive j), store')) where
  abbrev before : Reservations
  before = project_reservations (mem_reservation_intents store)

  admitted :
      (admit_intent (from_decision d a now_ms) (some balances) (some cap) before ≡ ok tt)
      × (store' ≡ put (from_decision d a now_ms) store)
  unfolding decide_and_journal decide_and_journal_inner decide_existing admit_and_journal
      from_decision reservations_of
  admitted = elim (Bool-cases (is_executable d.action)) [
    | inr advisory ↦ absurd (let no = rw advisory at e in cc)
    | inl fine ↦
        journal_if-admitted
          (admit_intent (from_decision d a now_ms) (some balances) (some cap) before)
          (from_decision d a now_ms) j store store' free (rw (free, decide_existing, fine) at e)
  ]

  -- When `decide_and_journal` journals a fresh intent that brings money to a federation, that
  -- federation's balance with all that the journal then reserves for it is within the cap, as long
  -- as the cap is below the largest 64-bit number.
  pub journaled_within_cap :
      (fed : FederationId) (amount : Msat)
      → checked_destination d.action ≡ some (fed, amount)
      → cap < u64_max
      → unwrap_or 0 (balances fed)
          + inbound (project_reservations (mem_reservation_intents store')) fed
        ≤ cap
  unfolding admit_intent from_decision committed_to before
  journaled_within_cap fed amount at small =
      let (ok', put') = admitted in
      let i = from_decision d a now_ms in
      let (_, checked) =
        both_checks (check_source balances before (checked_source d.action))
          (check_destination balances before (some cap) (checked_destination d.action)) ok' in
      let within = check_destination-ok balances before cap fed amount (rw at at checked) in
      let more = total-reservation_intents (inflow fed) i store free refl in
      rw put' (
        omega (
          arith,
          within,
          more,
          destination-inflow d.action fed amount at,
          projected-inbound (mem_reservation_intents store) fed,
          projected-inbound (mem_reservation_intents (put i store)) fed,
        ))

  -- When `decide_and_journal` journals a fresh move or payment that takes more than nothing, all
  -- that the journal then reserves out of the source is within the source's balance.
  pub journaled_within_balance :
      (fed : FederationId) (required : Msat)
      → checked_source d.action ≡ some (fed, required)
      → 0 < required
      → outbound (project_reservations (mem_reservation_intents store')) fed
        ≤ unwrap_or 0 (balances fed)
  unfolding admit_intent from_decision before
  journaled_within_balance fed required at some_required =
      let (ok', put') = admitted in
      let i = from_decision d a now_ms in
      let (checked, _) =
        both_checks (check_source balances before (checked_source d.action))
          (check_destination balances before (some cap) (checked_destination d.action)) ok' in
      let within = check_source-ok balances before fed required (rw at at checked) in
      let more = total-reservation_intents (outflow fed) i store free refl in
      rw put' (
        omega (
          arith,
          within,
          more,
          source-outflow d.action fed required at,
          projected-outbound (mem_reservation_intents store) fed,
          projected-outbound (mem_reservation_intents (put i store)) fed,
        ))
