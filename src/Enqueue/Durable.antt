-- ===== src/Enqueue/Durable.antt =====
-- What `decide_and_journal` hands over to be driven is in the journal.
use fedimint_wallets.Prelude.{
  ℕ, ◌≡◌, refl, sym, subst, false, ◌&&◌, Option, some, none, text_eq, is_none, NatMap, Bool-cases,
  Option-cases, ◌⊎◌, inl, inr,
}
use fedimint_wallets.Types.Federation.{Msat, Reservations}
use fedimint_wallets.Types.Action.{Action, IdempotencyKey, Actor, AllocatorDecision, is_executable}
use fedimint_wallets.Intent.{
  Intent, IntentStatus, pending, executing, done, awaiting, failed, from_decision,
}
use fedimint_wallets.Journal.{
  MemStore, mem_journal, Result, ok, err, same_status, lookup, put, mem_upsert, upsert_check,
}
use fedimint_wallets.Journal.Lookup.{lookup-put, lookup-put_self, lookup-key}
use fedimint_wallets.Enqueue.{
  drive, skip, terminal_failed, Decided, drive_after, refresh_gateway, attach_live, attach_as,
  attach_if, journal_if, admit_and_journal, admit_intent, decide_existing, decide_and_journal_inner,
  validate_attach, with_gateway, reservations_of,
}

abbrev pub IsLive : IntentStatus → Type 0
IsLive s = (s ≡ pending) ⊎ (s ≡ executing)

-- An intent to drive is live, and in the journal under the key of the decision, where every other
-- key has what it had before. Nothing is written otherwise.
abbrev pub IsDurable : MemStore → IdempotencyKey → Decided MemStore → Type 0
IsDurable store key (ok (drive i), store') =
    (i.idempotency_key ≡ key)
    × IsLive i.status
    × (lookup key store' ≡ some i)
    × ((other : IdempotencyKey)
        → text_eq key other ≡ false
        → lookup other store' ≡ lookup other store)
IsDurable store key (ok skip, store') = store' ≡ store
IsDurable store key (ok terminal_failed, store') = store' ≡ store
IsDurable store key (err e, store') = store' ≡ store

put-IsDurable :
    (i : Intent) (store : MemStore)
    → IsLive i.status
    → IsDurable store i.idempotency_key (ok (drive i), put i store)
put-IsDurable i store live =
    (refl, live, lookup-put_self i store, λ other apart. rw (lookup-put, apart) refl)

upsert-IsDurable :
    (i : Intent) (store : MemStore)
    → IsLive i.status
    → IsDurable store i.idempotency_key (drive_after i (mem_upsert store i))
unfolding mem_upsert
upsert-IsDurable i store live =
    elim (Option-cases (upsert_check (lookup i.idempotency_key store) i)) [
      | inl fine ↦ rw (fine, mem_upsert) (put-IsDurable i store live)
      | inr (e, bad) ↦ rw (bad, mem_upsert) refl
    ]

refresh-IsDurable :
    (store : MemStore) (i : Intent) (action : Option Action)
    → lookup i.idempotency_key store ≡ some i
    → IsLive i.status
    → IsDurable store i.idempotency_key (refresh_gateway mem_journal store i action)
unfolding refresh_gateway
refresh-IsDurable store i none at live = (refl, live, at, λ other apart. refl)
refresh-IsDurable store i (some action) at live =
    upsert-IsDurable (record i { action = action }) store live

module _ (store : MemStore) (i : Intent) (at : lookup i.idempotency_key store ≡ some i)
    (d : AllocatorDecision) where
  live-IsDurable :
      IsLive i.status → IsDurable store i.idempotency_key (attach_live mem_journal store i d)
  unfolding attach_live
  live-IsDurable live = elim (Bool-cases (same_status i.status pending && is_none i.operation_id)) [
    | inl t ↦ rw t (refresh-IsDurable store i (with_gateway i.action d.action) at live)
    | inr f ↦ rw f (refl, live, at, λ other apart. refl)
  ]

  attach-IsDurable :
      (s : IntentStatus)
      → i.status ≡ s
      → IsDurable store i.idempotency_key (attach_as mem_journal s store i d)
  unfolding attach_as
  attach-IsDurable failed h = refl
  attach-IsDurable done h = refl
  attach-IsDurable awaiting h = refl
  attach-IsDurable pending h = live-IsDurable (inl h)
  attach-IsDurable executing h = live-IsDurable (inr h)

  attach_if-IsDurable :
      (valid : Result (Unit {0}))
      → IsDurable store i.idempotency_key (attach_if mem_journal valid store i d)
  unfolding attach_if
  attach_if-IsDurable (ok _) = attach-IsDurable i.status refl
  attach_if-IsDurable (err e) = refl

module _ (store : MemStore) (i : Intent) (fresh : i.status ≡ pending) where
  journal_if-IsDurable :
      (admitted : Result (Unit {0}))
      → IsDurable store i.idempotency_key (journal_if mem_journal admitted store i)
  unfolding journal_if
  journal_if-IsDurable (ok _) = upsert-IsDurable i store (inl fresh)
  journal_if-IsDurable (err e) = refl

  admit-IsDurable :
      (reservations : Result Reservations) (balances : Option (NatMap Msat))
      (per_fed_cap : Option Msat)
      → IsDurable store i.idempotency_key
          (admit_and_journal mem_journal reservations store i balances per_fed_cap)
  unfolding admit_and_journal
  admit-IsDurable (err e) balances per_fed_cap = refl
  admit-IsDurable (ok r) balances per_fed_cap =
      journal_if-IsDurable (admit_intent i balances per_fed_cap r)

-- On every path of `decide_and_journal`, an intent that comes back to be driven is pending or
-- executing and stands in the journal under the decision's key, and no other key changed. With a
-- skip, a terminal failure or an error the journal is as it was.
pub decide-IsDurable :
    (d : AllocatorDecision) (a : Actor) (now_ms : ℕ) (balances : Option (NatMap Msat))
    (per_fed_cap : Option Msat) (reservations : Option Reservations) (store : MemStore)
    → IsDurable store d.idempotency_key
        (decide_and_journal_inner mem_journal d a now_ms balances per_fed_cap reservations store)
unfolding decide_and_journal_inner decide_existing from_decision
decide-IsDurable d a now_ms balances per_fed_cap reservations store =
    let key = d.idempotency_key in
    elim (Bool-cases (is_executable d.action)) [
      | inr advisory ↦ rw advisory refl
      | inl fine ↦ elim (Option-cases (lookup key store)) [
        | inl free ↦
            let in_flight = mem_journal.reservation_intents store in
            rw (fine, free, decide_existing)
              (admit-IsDurable store (from_decision d a now_ms) refl
                (reservations_of mem_journal in_flight reservations) balances per_fed_cap)
        | inr (i, at) ↦
            let own : i.idempotency_key ≡ key = lookup-key key store i at in
            let at' : lookup i.idempotency_key store ≡ some i =
              subst (λ (k : IdempotencyKey). lookup k store ≡ some i) (sym own) at in
            let all = attach_if-IsDurable store i at' d (validate_attach i d) in
            rw (fine, at, decide_existing)
              (subst
                (λ (k : IdempotencyKey).
                  IsDurable store k (attach_if mem_journal (validate_attach i d) store i d))
                own all)
      ]
    ]
