-- ===== src/Journal/Effect.antt =====
-- What one write of the journal does to the store.
use fedimint_wallets.Prelude.{
  ℕ, ◌≡◌, refl, true, not, ◌&&◌, ◌||◌, Option, some, none, List, [], ◌∷◌, Text, text_eq,
  text_eq_sound, ◌==◌, Bool-cases, Option-cases, ◌⊎◌, inl, inr, arith,
}
use fedimint_wallets.Types.Action.{IdempotencyKey}
use fedimint_wallets.Intent.{
  Intent, IntentStatus, pending, executing, done, awaiting, failed, transition_allowed,
  EvacuationRefusalEvidence,
}
use fedimint_wallets.Journal.{
  MemStore, same_status, lookup, put, upsert_check, status_check, mem_upsert, mem_set_status,
  mem_set_status_if, mem_reset_retryable, claimed,
}
use fedimint_wallets.Journal.Lookup.{lookup-put, lookup-key}

-- A call of one of the journal's writes.
pub data JournalWrite : Type 0 where
  upsert : (i : Intent) → JournalWrite
  set_status :
      (key : IdempotencyKey) (attempt : ℕ) (status : IntentStatus) (error : Option Text)
      → JournalWrite
  set_status_if : (key : IdempotencyKey) (attempt : ℕ) (expected new : IntentStatus) → JournalWrite
  reset_retryable :
      (key : IdempotencyKey) (attempt : ℕ) (refusal : Option EvacuationRefusalEvidence)
      → JournalWrite

abbrev pub run_write : JournalWrite → MemStore → MemStore
run_write (upsert i) store = (mem_upsert store i).1
run_write (set_status k a s e) store = (mem_set_status store k a s e).1
run_write (set_status_if k a x n) store = (mem_set_status_if store k a x n).1
run_write (reset_retryable k a r) store = (mem_reset_retryable store k a r).1

abbrev pub run_writes : List JournalWrite → MemStore → MemStore
run_writes [] store = store
run_writes (w ∷ ws) store = run_writes ws (run_write w store)

-- One write's effect on an intent: of the same attempt, by an allowed status.
abbrev pub Evolves : Intent → Option Intent → Type 0
Evolves i none = ⊥
Evolves i (some j) = (j.attempt ≡ i.attempt) × (transition_allowed i.status j.status ≡ true)

pub transition_allowed_refl : (s : IntentStatus) → transition_allowed s s ≡ true
unfolding transition_allowed
transition_allowed_refl pending = refl
transition_allowed_refl executing = refl
transition_allowed_refl done = refl
transition_allowed_refl awaiting = refl
transition_allowed_refl failed = refl

pub same_status_sound : (s t : IntentStatus) → same_status s t ≡ true → s ≡ t
unfolding same_status
same_status_sound s t h = ground arith

-- An intent put in the place of one of its key, or under another key.
put-Evolves :
    (j i old : Intent) (key : IdempotencyKey) (store : MemStore)
    → lookup key store ≡ some i
    → lookup j.idempotency_key store ≡ some old
    → Evolves old (some j)
    → Evolves i (lookup key (put j store))
put-Evolves j i old key store e f h =
    rw (lookup-put j key store) (elim (Bool-cases (text_eq j.idempotency_key key)) [
      | inl t ↦ rw t (
          let same : lookup j.idempotency_key store ≡ some i =
            rw (text_eq_sound j.idempotency_key key t) e in
          ground arith)
      | inr n ↦ rw (n, e) (refl, transition_allowed_refl i.status)
    ])

-- What may stand under a key before an intent is put there.
abbrev pub IsAllowed : Option Intent → Intent → Type 0
IsAllowed none j = Unit {0}
IsAllowed (some old) j = Evolves old (some j)

-- A write leaves the store alone, or puts one intent that its place allows.
abbrev pub IsEffect : MemStore → MemStore → Type 0
IsEffect store store' =
    (store' ≡ store)
    ⊎ ((j : Intent) × (store' ≡ put j store) × IsAllowed (lookup j.idempotency_key store) j)

upsert-IsEffect : (store : MemStore) (j : Intent) → IsEffect store (mem_upsert store j).1
unfolding mem_upsert upsert_check
upsert-IsEffect store j = elim (Option-cases (lookup j.idempotency_key store)) [
  | inl free ↦ rw (free, mem_upsert) (inr (j, refl, rw free tt))
  | inr (old, f) ↦ elim (Bool-cases (old.attempt == j.attempt)) [
    | inr stale ↦ rw (f, mem_upsert, stale) (inl refl)
    | inl current ↦ elim (Bool-cases (transition_allowed old.status j.status)) [
      | inr bad ↦ rw (f, mem_upsert, current, bad) (inl refl)
      | inl good ↦ rw (f, mem_upsert, current, good) (inr (j, refl, rw f (ground arith, good)))
    ]
  ]
]

-- The intent that stands in its place, with another status and marker.
own_place :
    (k : IdempotencyKey) (store : MemStore) (old j : Intent)
    → lookup k store ≡ some old
    → j.idempotency_key ≡ old.idempotency_key
    → Evolves old (some j)
    → IsAllowed (lookup j.idempotency_key store) j
own_place k store old j f same h = rw (same, lookup-key k store old f, f) h

set_status-IsEffect :
    (store : MemStore) (k : IdempotencyKey) (a : ℕ) (s : IntentStatus) (error : Option Text)
    → IsEffect store (mem_set_status store k a s error).1
unfolding mem_set_status status_check
set_status-IsEffect store k a s error = elim (Option-cases (lookup k store)) [
  | inl free ↦ rw (free, mem_set_status) (inl refl)
  | inr (old, f) ↦ elim (Bool-cases (old.attempt == a)) [
    | inr stale ↦ rw (f, mem_set_status, stale) (inl refl)
    | inl current ↦ elim (Bool-cases (transition_allowed old.status s)) [
      | inr bad ↦ rw (f, mem_set_status, current, bad) (inl refl)
      | inl good ↦
          let j = record old { status = s } in
          rw (f, mem_set_status, current, good)
            (inr (j, refl, own_place k store old j f refl (refl, good)))
    ]
  ]
]

set_status_if-IsEffect :
    (store : MemStore) (k : IdempotencyKey) (a : ℕ) (x n : IntentStatus)
    → IsEffect store (mem_set_status_if store k a x n).1
unfolding mem_set_status_if claimed
set_status_if-IsEffect store k a x n = elim (Option-cases (lookup k store)) [
  | inl free ↦ rw (free, mem_set_status_if) (inl refl)
  | inr (old, f) ↦
      elim (Bool-cases
        (old.attempt == a && (same_status old.status x && transition_allowed old.status n))) [
          | inr lost ↦ rw (f, mem_set_status_if, lost) (inl refl)
          | inl won ↦
              let j = claimed old x n in
              rw (f, mem_set_status_if, won)
                (inr (j, refl, own_place k store old j f refl (refl, ground arith)))
        ]
]

reset_retryable-IsEffect :
    (store : MemStore) (k : IdempotencyKey) (a : ℕ) (r : Option EvacuationRefusalEvidence)
    → IsEffect store (mem_reset_retryable store k a r).1
unfolding mem_reset_retryable transition_allowed
reset_retryable-IsEffect store k a r = elim (Option-cases (lookup k store)) [
  | inl free ↦ rw (free, mem_reset_retryable) (inl refl)
  | inr (old, f) ↦
      elim (Bool-cases (not (old.attempt == a) || not (same_status old.status executing))) [
        | inl other ↦ rw (f, mem_reset_retryable, other) (inl refl)
        | inr own ↦
            let at : old.status ≡ executing =
              same_status_sound old.status executing (ground arith) in
            let j = record old { status = pending; evacuation_refusal = r } in
            rw (f, mem_reset_retryable, own)
              (inr (j, refl, own_place k store old j f refl (refl, rw at refl)))
      ]
]

pub run_write-IsEffect : (w : JournalWrite) (store : MemStore) → IsEffect store (run_write w store)
run_write-IsEffect (upsert i) store = upsert-IsEffect store i
run_write-IsEffect (set_status k a s e) store = set_status-IsEffect store k a s e
run_write-IsEffect (set_status_if k a x n) store = set_status_if-IsEffect store k a x n
run_write-IsEffect (reset_retryable k a r) store = reset_retryable-IsEffect store k a r
