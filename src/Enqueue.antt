-- ===== src/Enqueue.antt =====
-- Turning decisions into journaled intents (`decide_and_journal` and its kin, `validate_attach` and
-- `admit_intent` of wallet-core/src/executor.rs). The journal is a parameter. A 32-byte id is a
-- number, and a map of balances a function.
pub mod Durable
pub mod Totals
pub mod Limits
pub mod Apply
pub mod Tally
use fedimint_wallets.Prelude.{
  ℕ, ◌-◌, Bool, true, false, not, ◌&&◌, Option, some, none, List, ◌++◌, Text, codes, text_eq, ltb,
  ◌==◌, is_none, unwrap_or, sat_add64, NatMap, if◌then◌else◌,
}
use fedimint_wallets.Prelude.Print.{decimal}
use fedimint_wallets.Allocator.Keys.{to_hex}
use fedimint_wallets.Types.Federation.{FederationId, Msat, Reservations, outbound, inbound}
use fedimint_wallets.Types.Action.{
  Action, direct_inflow, move, evacuate, pay, receive, join, recover, refuse_inflow, Actor,
  AllocatorDecision, is_executable,
}
use fedimint_wallets.Intent.{
  Intent, IntentStatus, pending, executing, done, awaiting, failed, from_decision,
}
use fedimint_wallets.Reservation.{project_reservations}
use fedimint_wallets.Conflict.{goal_of_decision}
use fedimint_wallets.Journal.{Journal, ExecError, permanent, Result, ok, err, same_status}

pub data DecideAndJournal : Type 0 where
  drive : (intent : Intent) → DecideAndJournal
  skip terminal_failed : DecideAndJournal

-- The `match` on the two actions.
unfoldable pub matches_sizing : Action → Action → Bool
matches_sizing (pay s i a c h g) (pay s' i' a' c' h' g') =
    s == s' && (a == a' && (c == c' && h == h'))
matches_sizing (receive d a c n g) (receive d' a' c' n' g') =
    d == d' && (a == a' && (c == c' && text_eq n n'))
matches_sizing (join f i m) (join f' i' m') = f == f' && text_eq i i'
matches_sizing (recover f i) (recover f' i') = f == f' && text_eq i i'
matches_sizing (pay _ _ _ _ _ _) _ = false
matches_sizing (receive _ _ _ _ _) _ = false
matches_sizing (join _ _ _) _ = false
matches_sizing (recover _ _) _ = false
matches_sizing (direct_inflow _ _ _) _ = true
matches_sizing (move _ _ _ _ _) _ = true
matches_sizing (evacuate _ _ _ _ _ _) _ = true
matches_sizing (refuse_inflow _ _ _) _ = true

unfoldable pub validate_attach : Intent → AllocatorDecision → Result (Unit {0})
validate_attach i d =
    if not (matches_sizing i.action d.action)
    then (err (
        permanent (
          codes "intent "
          ++ (i.idempotency_key ++ codes " conflicts with the existing request's sizing fields"))))
    else (ok tt)

-- What an intent takes from a federation that is checked against its balance.
unfoldable pub checked_source : Action → Option (FederationId × Msat)
checked_source (move s d a c g) = some (s, sat_add64 a c)
checked_source (pay s i a c h g) = some (s, sat_add64 a c)
checked_source _ = none

unfoldable pub checked_destination : Action → Option (FederationId × Msat)
checked_destination (move s d a c g) = some (d, a)
checked_destination (evacuate s d a c g k) = some (d, a)
checked_destination (direct_inflow d a c) = some (d, a)
checked_destination (receive d a c n g) = some (d, a)
checked_destination _ = none

unfoldable pub insufficient_balance : FederationId → ℕ → ℕ → ExecError
insufficient_balance fed required available = permanent (
    codes "insufficient balance after reservations on federation "
    ++ (to_hex fed
        ++ (codes ": need "
            ++ (decimal required
                ++ (codes " msat, have " ++ (decimal available ++ codes " msat"))))))

unfoldable pub over_the_cap : FederationId → ℕ → ℕ → ExecError
over_the_cap fed committed cap = permanent (
    codes "destination would exceed the per-fed cap after reservations on federation "
    ++ (to_hex fed
        ++ (codes ": " ++ (decimal committed ++ (codes " > " ++ (decimal cap ++ codes " msat"))))))

unfoldable pub available_in : NatMap Msat → Reservations → FederationId → Msat
available_in balances reservations fed = unwrap_or 0 (balances fed) - outbound reservations fed

unfoldable pub check_source :
    NatMap Msat → Reservations → Option (FederationId × Msat) → Result (Unit {0})
check_source balances reservations none = ok tt
check_source balances reservations (some (fed, required)) =
    let available = available_in balances reservations fed in
    if ltb available required then (err (insufficient_balance fed required available)) else (ok tt)

unfoldable pub committed_to : NatMap Msat → Reservations → FederationId → Msat → Msat
committed_to balances reservations fed amount =
    sat_add64 (sat_add64 (unwrap_or 0 (balances fed)) (inbound reservations fed)) amount

unfoldable pub check_destination :
    NatMap Msat → Reservations → Option Msat → Option (FederationId × Msat) → Result (Unit {0})
check_destination balances reservations (some cap) (some (fed, amount)) =
    let committed = committed_to balances reservations fed amount in
    if ltb cap committed then (err (over_the_cap fed committed cap)) else (ok tt)
check_destination balances reservations _ _ = ok tt

-- `source_check?; destination_check`
abbrev pub and_then_check : Result (Unit {0}) → Result (Unit {0}) → Result (Unit {0})
and_then_check (ok _) r = r
and_then_check (err e) r = err e

unfoldable pub admit_intent :
    Intent → Option (NatMap Msat) → Option Msat → Reservations → Result (Unit {0})
admit_intent i none per_fed_cap reservations = ok tt
admit_intent i (some balances) per_fed_cap reservations =
    and_then_check (check_source balances reservations (checked_source i.action))
      (check_destination balances reservations per_fed_cap (checked_destination i.action))

unfoldable pub gateway_eq : Option Text → Option Text → Bool
gateway_eq none none = true
gateway_eq (some g) (some h) = text_eq g h
gateway_eq _ _ = false

-- The stored action with the gateway of the new request, if that is another.
unfoldable pub with_gateway : Action → Action → Option Action
with_gateway (pay s i a c h g) (pay s' i' a' c' h' g') =
    if gateway_eq g g' then none else some (pay s i a c h g')
with_gateway (receive d a c n g) (receive d' a' c' n' g') =
    if gateway_eq g g' then none else some (receive d a c n g')
with_gateway _ _ = none

abbrev pub Decided : Type 0 → Type 0
Decided S = Result DecideAndJournal × S

-- `journal.upsert(&intent).await?; Ok(Drive(intent))`
abbrev pub drive_after : {S : Type 0} → Intent → Result (Unit {0}) × S → Decided S
drive_after i (ok _, store) = (ok (drive i), store)
drive_after i (err e, store) = (err e, store)

module _ {S : Type 0} (journal : Journal S) where
  unfoldable pub refresh_gateway : S → Intent → Option Action → Decided S
  refresh_gateway store i none = (ok (drive i), store)
  refresh_gateway store i (some action) =
      drive_after (record i { action = action })
        (journal.upsert store (record i { action = action }))

  unfoldable pub attach_live : S → Intent → AllocatorDecision → Decided S
  unfolding refresh_gateway
  attach_live store i d =
      if same_status i.status pending && is_none i.operation_id
      then (refresh_gateway store i (with_gateway i.action d.action))
      else (ok (drive i), store)

  -- The `match` on the status, once the attach is valid.
  unfoldable pub attach_as : IntentStatus → S → Intent → AllocatorDecision → Decided S
  unfolding attach_live
  attach_as failed store i d = (ok terminal_failed, store)
  attach_as done store i d = (ok skip, store)
  attach_as awaiting store i d = (ok skip, store)
  attach_as pending store i d = attach_live store i d
  attach_as executing store i d = attach_live store i d

  unfoldable pub attach_if : Result (Unit {0}) → S → Intent → AllocatorDecision → Decided S
  unfolding attach_as
  attach_if (ok _) store i d = attach_as i.status store i d
  attach_if (err e) store i d = (err e, store)

  unfoldable pub journal_if : Result (Unit {0}) → S → Intent → Decided S
  journal_if (ok _) store i = drive_after i (journal.upsert store i)
  journal_if (err e) store i = (err e, store)

  unfoldable pub admit_and_journal :
      Result Reservations → S → Intent → Option (NatMap Msat) → Option Msat → Decided S
  unfolding journal_if
  admit_and_journal (err e) store i balances per_fed_cap = (err e, store)
  admit_and_journal (ok reservations) store i balances per_fed_cap =
      journal_if (admit_intent i balances per_fed_cap reservations) store i

  -- The allocator's own view, or the strict one of what is durable.
  unfoldable pub reservations_of : Result (List Intent) → Option Reservations → Result Reservations
  reservations_of in_flight (some reservations) = ok reservations
  reservations_of (ok in_flight) none = ok (project_reservations in_flight)
  reservations_of (err e) none = err e

  module _ (d : AllocatorDecision) (a : Actor) (now_ms : ℕ) (balances : Option (NatMap Msat))
      (per_fed_cap : Option Msat) (reservations : Option Reservations) where
    unfoldable pub decide_existing : Result (Option Intent) → S → Decided S
    unfolding attach_if admit_and_journal
    decide_existing (err e) store = (err e, store)
    decide_existing (ok (some i)) store = attach_if (validate_attach i d) store i d
    decide_existing (ok none) store =
        admit_and_journal (reservations_of (journal.reservation_intents store) reservations) store
          (from_decision d a now_ms) balances per_fed_cap

    unfoldable pub decide_and_journal_inner : S → Decided S
    unfolding decide_existing
    decide_and_journal_inner store =
        if not (is_executable d.action)
        then (err (permanent (codes "advisory actions are never journaled as intents")), store)
        else decide_existing (journal.get store d.idempotency_key) store

  module _ (d : AllocatorDecision) (a : Actor) (now_ms : ℕ) (balances : Option (NatMap Msat))
      (per_fed_cap : Option Msat) where
    unfoldable pub decide_and_journal : S → Decided S
    unfolding decide_and_journal_inner
    decide_and_journal store = decide_and_journal_inner d a now_ms balances per_fed_cap none store

    unfoldable pub decide_and_journal_with_allocator_reservations : Reservations → S → Decided S
    unfolding decide_and_journal_inner
    decide_and_journal_with_allocator_reservations reservations store =
        if is_none (goal_of_decision d a)
        then (
          err (permanent (codes "allocator reservation override requires an Agent allocator goal")),
          store,
        )
        else decide_and_journal_inner d a now_ms balances per_fed_cap (some reservations) store
