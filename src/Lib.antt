-- ===== src/Lib.antt =====
-- Verification library of the wallet's pure core: what the wallet decides to do with the money that
-- it holds in several federations, and what it takes those decisions from.
--
-- The parts. A tick takes a snapshot of the federations, their balances and their route prices, adds
-- the reservations of the durable intents, and asks the allocator for the decisions of one pass. The
-- allocator gives each federation that is failing an evacuation, then funds the spending federation
-- and the standby; a decision enters the pass only if no durable intent holds a conflicting goal,
-- and what it commits is kept in two maps that the later branches read. The scorer says before this
-- which federations may be funded at all. When a move is carried out, the fee model finds the
-- invoice that delivers its amount.
--
-- The executor sizes a fresh evacuation against the wallet as it is when the evacuation starts. It
-- asks the client of the source for the cost of an invoice, bisects for the largest amount that the
-- balance and the room of the destination allow, and verifies the invoice on the destination before
-- it commits to it. If nothing fits it diagnoses why, and refuses. A refusal of an evacuation is
-- evidence: the journal checks it before it lets another evacuation take the place of a failed one.
-- The executor then carries the move out in a loop: it mints the invoice, pays it and awaits both
-- legs, and writes the record to the journal around each call that moves money.
--
-- A decision is then journaled as an intent, unless its key is known or the balances and the
-- reservations forbid it, and a driver claims the intent, has it executed and writes the result
-- back. A move that is resumed is put together again from the operation log and a cached record, and
-- a step function says what it does next. Each operation has a row in the ledger, which only moves
-- forward. Between ticks the watch loop decides how long to sleep, when to probe a federation again
-- and which candidates a discovery pass looks at; the verdict on a federation's probes decides
-- whether it may be funded.
--
-- The files, beside the code that each one models:
--   Types (wallet-core/src/types.rs, and the actor of wallet-core/src/ledger.rs): the data.
--   Journal (wallet-core/src/executor.rs): the trait `Journal` as a record of operations, and
--     `MemJournal`, whose store is the list of its intents in the order of their keys.
--   Enqueue (wallet-core/src/executor.rs): `validate_attach`, `admit_intent` and
--     `decide_and_journal`; Apply has the loops of `apply_with_admission` and
--     `apply_with_allocator_admission`.
--   Drive (wallet-core/src/executor.rs): `drive_intent_step`, cut at its matches, and `reconcile`.
--   MoveProtocol (wallet-fedimint/src/move_protocol.rs): `next_step` and `assemble_move_record`.
--   Ledger (wallet-core/src/ledger.rs): the rows of the ledger and `advance`.
--   Probe (wallet-core/src/probe.rs): `probe_verdict` and `probe_pass_expiry_anchor_ms`.
--   Allocator (wallet-core/src/allocator.rs): Sizing has the arithmetic, Keys the idempotency keys,
--     Eligibility the choice of a destination, Admission `push_decision`, `push_and_reserve` and
--     `push_if_eligible_and_reserve`, Evacuation `evacuate_decision`, Funding `fund_into` cut at its
--     early returns, and Decide the pass, `decide_with_diagnostics`.
--   Conflict (wallet-core/src/conflict.rs): `AllocatorGoal` and `GoalBlockers`.
--   Intent (wallet-core/src/executor.rs): `IntentStatus`, `Intent` and the evidence of a refusal;
--     Refusal has `assess_evacuation_structural_refusal`.
--   Executor (wallet-fedimint/src/executor.rs): Run has the results of its awaits, Cost
--     `FreshMoveCost` and the verdicts on it, Boundary `note_boundaries_above` and `_below`, Sizing
--     `largest_fitting_amount`, Search `search_evacuation_net`, Diagnosis
--     `no_fitting_amount_reason`, Evacuation `size_evacuation`, GrossUp `resolve_receive_gross_up`,
--     and Fresh `size_fresh_evacuation`. Perform has the loop of `perform`: Verdicts the checks
--     between its awaits, Calls what it calls, and Create, Pay and Await its steps.
--   Replacement (wallet-fedimint/src/journal.rs): `validate_marked_evacuation_evidence`.
--   Reservation (wallet-core/src/executor.rs): `project_reservations` and
--     `project_allocator_reservations`.
--   Scorer (wallet-core/src/scorer.rs): `structural_floor`, `rank` and `score`.
--   Discovery (wallet-core/src/discovery.rs): `auto_join_budget`.
--   Watch (wallet-core/src/watch.rs): `adaptive_sleep_ms` and its closures, and `probe_budget_ok`;
--     Schedule has the probe deadlines and the budget usage, Rotation the windows of discovery.
--   Route (wallet-fedimint/src/route_econ.rs): `min_viable_amount`, `modelled_fee` and
--     `select_gateway`; Funding has `funding_pairs` and `maximum_funding_amount`.
--   Fee (wallet-fedimint/src/fee.rs): `gross_up` and its closure.
--   Samples: the theorems at concrete inputs.
--
-- How the state corresponds. The mutable arguments of a function are a record that it takes and
-- returns: `Pass` holds the three lists of `AllocatorOutcome` and the maps `credited` and `debited`.
-- A map that is only looked up is a function into Option, a set that is walked in order is a sorted
-- list without doubles. Identifiers of 32 bytes are numbers, texts are lists of code points. 64-bit
-- amounts are numbers; saturating additions and products are cut at 2 ^ 64 - 1 where the source cuts
-- them, and a saturating subtraction is the one that stops at 0.
--
-- Loops are recursion on lists, but for the two loops of `gross_up`, which run on fuel: 66 steps for
-- the doubling, enough since 64 of them reach the largest 64-bit number from 1, and 65 for the
-- bisection, enough since each halves a gap of less than 2 ^ 64.
--
-- The bisections of the executor run on fuel that is taken from their interval, its length and one
-- or two more, since each step leaves a shorter interval; an answer is there whatever the clients
-- say, as long as they say something. The loop over a rotation has the length of the rotation as
-- its fuel, as in the source. The loop of a move has fuel for four steps, of which each brings it
-- to a later one: create, pay, await, return.
--
-- The journal and the set of keys that are being driven are a `World`, which each operation takes
-- and returns; `drive_intent_step` re-reads it where the code awaits.
--
-- Parameters. The federation's own fee is a closure of the caller; `IsFedFee` says that it does not
-- fall and takes at most one of each further millisatoshi. The executor that moves the money is a
-- function of the intent and the world, which may change the world; `IsQuiet` says that while it
-- runs nobody changes the intent that is being performed or the running keys. The least contract
-- that the lightning protocol takes is a number. The balances, the gateways' fees and the quotes of
-- the clients are functions of a state of the wallet's surroundings, which each call may change, so
-- that two equal questions may have different answers; so are the operations and awaits of a move,
-- beside which the model keeps the trail of what was journaled, minted and paid. The driver and the
-- batches are over any `Journal`; what is said of a store is said of the in-memory one.
--
-- Not modelled: of the executor, the raw payments and receipts, the joins and the resolution of a
-- route, which are calls of the fedimint SDK; of the journal on the database, all but the check of
-- an evidence, since the rest is its encoding; the asynchronous services; the JSON form of a move's
-- metadata; the fetching of route quotes; the mock executor; serialization; the equality of
-- `RefusalDiagnostics`, which the source makes constant.
pub mod Prelude
pub mod Types
pub mod Intent
pub mod Conflict
pub mod Allocator
pub mod Reservation
pub mod Fee
pub mod Route
pub mod Scorer
pub mod Discovery
pub mod Watch
pub mod Probe
pub mod Ledger
pub mod MoveProtocol
pub mod Journal
pub mod Drive
pub mod Enqueue
pub mod Executor
pub mod Replacement
mod Samples
