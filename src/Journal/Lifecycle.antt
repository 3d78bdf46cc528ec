-- ===== src/Journal/Lifecycle.antt =====
-- What any sequence of writes makes of an intent, and the claim.
use fedimint_wallets.Prelude.{
  ℕ, ◌≡◌, refl, subst, ◌∙◌, true, false, ◌&&◌, Option, some, List, [], ◌∷◌, text_eq, text_eq_sound,
  text_eq_refl, ◌==◌, Bool-cases, Option-cases, inl, inr, arith,
}
use fedimint_wallets.Types.Action.{IdempotencyKey}
use fedimint_wallets.Intent.{Intent, IntentStatus, pending, executing, transition_allowed}
use fedimint_wallets.Intent.Lifecycle.{Writes, start, write}
use fedimint_wallets.Journal.{MemStore, ok, same_status, lookup, put, mem_set_status_if, claimed}
use fedimint_wallets.Journal.Lookup.{lookup-put, lookup-key}
use fedimint_wallets.Journal.Effect.{
  JournalWrite, run_write, run_writes, Evolves, IsEffect, IsAllowed, run_write-IsEffect,
  same_status_sound, transition_allowed_refl,
}

effect-Evolves :
    (key : IdempotencyKey) (store store' : MemStore) (i : Intent)
    → lookup key store ≡ some i
    → IsEffect store store'
    → (j : Intent) × (lookup key store' ≡ some j) × Evolves i (some j)
effect-Evolves key store store' i e (inl same) =
    (i, rw same e, (refl, transition_allowed_refl i.status))
effect-Evolves key store store' i e (inr (j, at, h)) =
    elim (Bool-cases (text_eq j.idempotency_key key)) [
      | inr other ↦ (i, rw (at, lookup-put, other) e, (refl, transition_allowed_refl i.status))
      | inl own ↦
          let place : lookup j.idempotency_key store ≡ some i =
            rw (text_eq_sound j.idempotency_key key own) e in
          let allowed : Evolves i (some j) = subst (λ (o : Option Intent). IsAllowed o j) place h in
          (j, rw (at, lookup-put, own) refl, allowed)
    ]

then_write : {s t u : IntentStatus} → transition_allowed s t ≡ true → Writes t u → Writes s u
then_write e start = write start e
then_write e (write ws f) = write (then_write e ws) f

-- Through any sequence of journal writes an intent stays in the journal, of the same attempt, and
-- its status moves only by writes that `intent_status_transition_allowed` allows.
pub journal-Writes :
    (ws : List JournalWrite) (store : MemStore) (key : IdempotencyKey) (i : Intent)
    → lookup key store ≡ some i
    → (j : Intent) × (lookup key (run_writes ws store) ≡ some j)
      × (j.attempt ≡ i.attempt)
      × Writes i.status j.status
journal-Writes [] store key i e = (i, e, refl, start)
journal-Writes (w ∷ ws) store key i e =
    let (j, at, (same, allowed)) =
      effect-Evolves key store (run_write w store) i e (run_write-IsEffect w store) in
    let (k, at', same', moved) = journal-Writes ws (run_write w store) key j at in
    (k, at', same' ∙ same, then_write allowed moved)

-- A claim that wins found the intent pending at its attempt, and leaves it executing.
pub claim_won :
    (store : MemStore) (key : IdempotencyKey) (attempt : ℕ)
    → (mem_set_status_if store key attempt pending executing).0 ≡ ok true
    → (i : Intent) × (lookup key store ≡ some i)
      × (i.attempt ≡ attempt)
      × (i.status ≡ pending)
      × ((mem_set_status_if store key attempt pending executing).1
          ≡ put (claimed i pending executing) store)
unfolding mem_set_status_if
claim_won store key attempt won = elim (Option-cases (lookup key store)) [
  | inl free ↦ absurd (ground arith)
  | inr (i, e) ↦
      elim (Bool-cases (
        i.attempt == attempt
        && (same_status i.status pending && transition_allowed i.status executing))) [
          | inr lost ↦ absurd (ground arith)
          | inl t ↦ (
            i,
            e,
            ground arith,
            same_status_sound i.status pending (ground arith),
            rw (e, mem_set_status_if, t) refl,
          )
        ]
]

pub claim_lost :
    (store : MemStore) (key : IdempotencyKey) (attempt : ℕ) (i : Intent)
    → lookup key store ≡ some i
    → i.status ≡ executing
    → mem_set_status_if store key attempt pending executing ≡ (ok false, store)
unfolding mem_set_status_if same_status
claim_lost store key attempt i e s = ground arith

-- Once a claim of a pending intent has won, every further claim of it loses and changes nothing.
pub claim_once :
    (store : MemStore) (key : IdempotencyKey) (attempt attempt' : ℕ)
    → (mem_set_status_if store key attempt pending executing).0 ≡ ok true
    → let claimed_store = (mem_set_status_if store key attempt pending executing).1 in
      mem_set_status_if claimed_store key attempt' pending executing ≡ (ok false, claimed_store)
unfolding claimed
claim_once store key attempt attempt' won =
    let (i, e, a, s, at) = claim_won store key attempt won in
    let j = claimed i pending executing in
    let own : text_eq j.idempotency_key key ≡ true =
      rw (lookup-key key store i e) (text_eq_refl key) in
    let found : lookup key (put j store) ≡ some j = rw (lookup-put, own) refl in
    rw at (claim_lost (put j store) key attempt' j found refl)
