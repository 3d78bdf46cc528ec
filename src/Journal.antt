-- ===== src/Journal.antt =====
-- The journal of durable intents (`trait Journal` and `MemJournal` of wallet-core/src/executor.rs).
pub mod Lookup
pub mod Effect
pub mod Lifecycle
use Prim.Native.Nat.{Ordering}
use fedimint_wallets.Prelude.{
  ℕ, Bool, true, false, not, ◌&&◌, ◌||◌, Option, some, none, List, [], ◌∷◌, ◌++◌, Text, codes, find,
  filter, text_eq, ◌==◌, if◌then◌else◌,
}
use fedimint_wallets.Prelude.Sets.{text_cmp}
use fedimint_wallets.Prelude.Print.{decimal}
use fedimint_wallets.Types.Action.{IdempotencyKey}
use fedimint_wallets.Intent.{
  Intent, IntentStatus, pending, executing, done, awaiting, failed, transition_allowed,
  EvacuationRefusalEvidence,
}

pub data ExecError : Type 0 where
  retryable : (reason : Text) → ExecError
  structural_evacuation_refusal : (evidence : EvacuationRefusalEvidence) → ExecError
  permanent : (reason : Text) → ExecError
  unsupported : ExecError

pub data Result (A : Type 0) : Type 0 where
  ok : A → Result A
  err : ExecError → Result A

-- `trait Journal`, over the store that an implementation keeps. A write returns the store beside
-- its result.
pub record Journal (S : Type 0) : Type 0 where
  pub get : S → IdempotencyKey → Result (Option Intent)
  pub upsert : S → Intent → Result (Unit {0}) × S
  pub set_status : S → IdempotencyKey → ℕ → IntentStatus → Option Text → Result (Unit {0}) × S
  pub set_status_if : S → IdempotencyKey → ℕ → IntentStatus → IntentStatus → Result Bool × S
  pub reset_retryable :
      S → IdempotencyKey → ℕ → Option EvacuationRefusalEvidence → Result (Unit {0}) × S
  pub pending_intents : S → Result (List Intent)
  pub awaiting_intents : S → Result (List Intent)
  pub reservation_intents : S → Result (List Intent)
  pub failed_intents : S → List Intent

-- The derived equality of `IntentStatus`.
unfoldable pub same_status : IntentStatus → IntentStatus → Bool
same_status pending pending = true
same_status executing executing = true
same_status done done = true
same_status awaiting awaiting = true
same_status failed failed = true
same_status _ _ = false

-- `BTreeMap<IdempotencyKey, Intent>`: the intents in the order of their keys.
abbrev pub MemStore : Type 0
MemStore = List Intent

unfoldable pub lookup : IdempotencyKey → MemStore → Option Intent
lookup key store = find (λ i. text_eq i.idempotency_key key) store

unfoldable pub put : Intent → MemStore → MemStore
put i [] = i ∷ []
put i (j ∷ js) =
    let rest = j ∷ put i js in
    elim (text_cmp i.idempotency_key j.idempotency_key) [
      | Ordering.lt ↦ i ∷ j ∷ js
      | Ordering.eq ↦ i ∷ js
      | Ordering.gt ↦ rest
    ]

unfoldable pub status_name : IntentStatus → Text
status_name pending = codes "Pending"
status_name executing = codes "Executing"
status_name done = codes "Done"
status_name awaiting = codes "Awaiting"
status_name failed = codes "Failed"

unfoldable pub stale_attempt : ℕ → ℕ → ExecError
stale_attempt given current = permanent (
    codes "journal: stale attempt "
    ++ (decimal given ++ (codes " for current attempt " ++ decimal current)))

unfoldable pub invalid_transition : IntentStatus → IntentStatus → ExecError
invalid_transition old new = permanent (
    codes "journal: invalid status transition "
    ++ (status_name old ++ (codes " -> " ++ status_name new)))

unfoldable pub not_found : ExecError
not_found = permanent (codes "journal: intent not found")

-- The checks of `upsert` on the intent that it would replace.
unfoldable pub upsert_check : Option Intent → Intent → Option ExecError
upsert_check none i = none
upsert_check (some existing) i =
    if not (existing.attempt == i.attempt)
    then some (stale_attempt i.attempt existing.attempt)
    else (if not (transition_allowed existing.status i.status)
        then some (invalid_transition existing.status i.status)
        else none)

unfoldable pub mem_upsert : MemStore → Intent → Result (Unit {0}) × MemStore
mem_upsert store i = elim (upsert_check (lookup i.idempotency_key store) i) [
  | none ↦ (ok tt, put i store)
  | some e ↦ (err e, store)
]

unfoldable pub status_check : Intent → ℕ → IntentStatus → Option ExecError
status_check i expected_attempt status =
    if not (i.attempt == expected_attempt)
    then some (stale_attempt expected_attempt i.attempt)
    else (if not (transition_allowed i.status status)
        then some (invalid_transition i.status status)
        else none)

unfoldable pub mem_set_status :
    MemStore → IdempotencyKey → ℕ → IntentStatus → Option Text → Result (Unit {0}) × MemStore
mem_set_status store key expected_attempt status error = elim (lookup key store) [
  | none ↦ (err not_found, store)
  | some i ↦ elim (status_check i expected_attempt status) [
    | none ↦ (ok tt, put (record i { status = status }) store)
    | some e ↦ (err e, store)
  ]
]

-- The claim of a pending intent clears the marker of an earlier refusal.
abbrev pub claims : IntentStatus → IntentStatus → Bool
claims pending executing = true
claims _ _ = false

unfoldable pub claimed : Intent → IntentStatus → IntentStatus → Intent
claimed i expected new = record i {
  status = new;
  evacuation_refusal = if claims expected new then none else i.evacuation_refusal;
}

unfoldable pub mem_set_status_if :
    MemStore → IdempotencyKey → ℕ → IntentStatus → IntentStatus → Result Bool × MemStore
mem_set_status_if store key expected_attempt expected new = elim (lookup key store) [
  | none ↦ (ok false, store)
  | some i ↦
      if i.attempt == expected_attempt
        && (same_status i.status expected && transition_allowed i.status new)
      then (ok true, put (claimed i expected new) store)
      else (ok false, store)
]

unfoldable pub mem_reset_retryable :
    MemStore → IdempotencyKey → ℕ → Option EvacuationRefusalEvidence → Result (Unit {0}) × MemStore
mem_reset_retryable store key expected_attempt structural_refusal = elim (lookup key store) [
  | none ↦ (err not_found, store)
  | some i ↦
      if not (i.attempt == expected_attempt) || not (same_status i.status executing)
      then (
        err (permanent (codes "journal: retryable reset requires the current Executing attempt")),
        store,
      )
      else (
        ok tt,
        put (record i { status = pending; evacuation_refusal = structural_refusal }) store,
      )
]

abbrev pub is_driven : IntentStatus → Bool
is_driven pending = true
is_driven executing = true
is_driven _ = false

unfoldable pub mem_pending : MemStore → List Intent
mem_pending store = filter (λ i. is_driven i.status) store

unfoldable pub mem_awaiting : MemStore → List Intent
mem_awaiting store = filter (λ i. same_status i.status awaiting) store

unfoldable pub mem_failed : MemStore → List Intent
mem_failed store = filter (λ i. same_status i.status failed) store

-- The trait's own `reservation_intents`.
unfoldable pub mem_reservation_intents : MemStore → List Intent
mem_reservation_intents store = mem_pending store ++ mem_awaiting store

abbrev pub mem_journal : Journal MemStore
mem_journal = record {
  get = λ store key. ok (lookup key store);
  upsert = mem_upsert;
  set_status = mem_set_status;
  set_status_if = mem_set_status_if;
  reset_retryable = mem_reset_retryable;
  pending_intents = λ store. ok (mem_pending store);
  awaiting_intents = λ store. ok (mem_awaiting store);
  reservation_intents = λ store. ok (mem_reservation_intents store);
  failed_intents = mem_failed;
}
