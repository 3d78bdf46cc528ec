-- ===== src/Executor/Perform/Carried.antt =====
-- The loop of a move ends, and its trail is careful.
use fedimint_wallets.Prelude.{
  ℕ, zero, suc, Bool, true, false, Option, List, [], ◌≡◌, refl, ◌≤◌, any, arith, if◌then◌else◌,
}
use fedimint_wallets.Types.Federation.{Msat, EvacFeeCap}
use fedimint_wallets.Types.Record.{MoveRecord}
use fedimint_wallets.Intent.{Intent}
use fedimint_wallets.Drive.{PerformOutcome}
use fedimint_wallets.MoveProtocol.{
  MoveStep, create_invoice, pay_invoice, await_settle, step_done, step_failed, next_step,
  step_in_flight,
}
use fedimint_wallets.Executor.Run.{Outcome, value, fault, out_of_fuel, Run}
use fedimint_wallets.Executor.Perform.{take_step, follow, carry, carry_move}
use fedimint_wallets.Executor.Perform.Calls.{Client, Event, Turn, go_on, stop, Course, is_evacuate}
use fedimint_wallets.Executor.Perform.Create.{create_step}
use fedimint_wallets.Executor.Perform.Pay.{pay_step}
use fedimint_wallets.Executor.Perform.Await.{await_legs, await_payer}
use fedimint_wallets.Executor.Perform.Total.{IsTotalClient}
use fedimint_wallets.Executor.Perform.Leaves.{Leaves, Leaves-bind}
use fedimint_wallets.Executor.Perform.Careful.{IsCareful, IsUnderway, is_settled, IsEnd}
use fedimint_wallets.Executor.Perform.Steps.{steps_left, IsGoing, create-IsGoing}
use fedimint_wallets.Executor.Perform.Legs.{pay-IsGoing, await_legs-IsGoing, await_payer-IsGoing}

steps_left-bounds : (s : MoveStep) → (1 ≤ steps_left s) × (steps_left s ≤ 4)
steps_left-bounds create_invoice = (omega arith, omega arith)
steps_left-bounds pay_invoice = (omega arith, omega arith)
steps_left-bounds await_settle = (omega arith, omega arith)
steps_left-bounds step_done = (omega arith, omega arith)
steps_left-bounds step_failed = (omega arith, omega arith)

next_step-done : (rec : MoveRecord) → next_step rec ≡ step_done → is_settled rec.phase ≡ true
unfolding next_step step_in_flight
next_step-done rec e = ground arith

IsGoing-weaken :
    (evacuates : Bool) (k n : ℕ) (turn : Turn) (t : List Event)
    → k ≤ n
    → IsGoing evacuates k turn t
    → IsGoing evacuates n turn t
IsGoing-weaken evacuates k n (go_on rec) t le (left, underway) = (omega arith, underway)
IsGoing-weaken evacuates k n (stop outcome) t le end = end

Leaves-weaken :
    {W : Type 0} (evacuates : Bool) (k n : ℕ) (r : Outcome Turn × Course W)
    → k ≤ n
    → Leaves (IsCareful evacuates) (IsGoing evacuates k) r
    → Leaves (IsCareful evacuates) (IsGoing evacuates n) r
Leaves-weaken evacuates k n (value turn, (t, w)) le going =
    IsGoing-weaken evacuates k n turn t le going
Leaves-weaken evacuates k n (fault e, (t, w)) le right = right
Leaves-weaken evacuates k n (out_of_fuel, (t, w)) le never = never

module _ {W : Type 0} (client : Client W) (total : IsTotalClient client) (hard_cap : Option Msat)
    (components : Option EvacFeeCap) (intent : Intent) where
  abbrev evacuates : Bool
  evacuates = is_evacuate intent.action

  abbrev await_if : Bool → MoveRecord → List Event → W → Outcome Turn × Course W
  await_if b rec t w =
      (if b then (await_legs client intent rec) else (await_payer client intent rec)) (t, w)

  await_if-IsGoing :
      (b : Bool) (rec : MoveRecord) (t : List Event) (w : W)
      → rec.send_required ≡ b
      → IsUnderway evacuates rec t
      → Leaves (IsCareful evacuates) (IsGoing evacuates 1) (await_if b rec t w)
  await_if-IsGoing true rec t w sends underway =
      await_legs-IsGoing client total intent rec t w underway
  await_if-IsGoing false rec t w sends underway =
      await_payer-IsGoing client total intent rec t w sends underway

  take_step-IsGoing :
      (s : MoveStep) (n : ℕ) (rec : MoveRecord) (t : List Event) (w : W)
      → next_step rec ≡ s
      → steps_left s ≤ suc n
      → IsUnderway evacuates rec t
      → Leaves
          (IsCareful evacuates)
          (IsGoing evacuates n)
          (take_step client hard_cap components intent s rec (t, w))
  unfolding take_step
  take_step-IsGoing create_invoice n rec t w is le underway =
      Leaves-weaken evacuates 3 n (create_step client hard_cap components intent rec (t, w))
        (omega arith) (create-IsGoing client total hard_cap components intent rec t w underway is)
  take_step-IsGoing pay_invoice n rec t w is le underway =
      Leaves-weaken evacuates 2 n (pay_step client intent rec (t, w)) (omega arith)
        (pay-IsGoing client total intent rec t w underway is)
  take_step-IsGoing await_settle n rec t w is le underway =
      Leaves-weaken evacuates 1 n (await_if rec.send_required rec t w) (omega arith)
        (await_if-IsGoing rec.send_required rec t w refl underway)
  take_step-IsGoing step_done n rec t w is le underway = (
    underway.careful,
    record {
      rec = rec;
      journaled = underway.filed (next_step-done rec is);
      is_settled = next_step-done rec is;
    },
  )
  take_step-IsGoing step_failed n rec t w is le underway = underway.careful

  follow-IsEnd :
      (n : ℕ) (again : MoveRecord → Run (Course W) PerformOutcome)
      → ((rec : MoveRecord) (t : List Event) (w : W)
          → steps_left (next_step rec) ≤ n
          → IsUnderway evacuates rec t
          → Leaves (IsCareful evacuates) (IsEnd evacuates) (again rec (t, w)))
      → (turn : Turn) (t : List Event) (w : W) → IsGoing evacuates n turn t
      → Leaves
          (IsCareful evacuates)
          (IsEnd evacuates)
          (follow client hard_cap components intent again turn (t, w))
  follow-IsEnd n again ends (go_on rec) t w (le, underway) = ends rec t w le underway
  follow-IsEnd n again ends (stop outcome) t w end = end

  carry-IsEnd :
      (n : ℕ) (rec : MoveRecord) (t : List Event) (w : W)
      → steps_left (next_step rec) ≤ n
      → IsUnderway evacuates rec t
      → Leaves
          (IsCareful evacuates)
          (IsEnd evacuates)
          (carry client hard_cap components intent n rec (t, w))
  unfolding carry
  carry-IsEnd zero rec t w le underway =
      let bounds = steps_left-bounds (next_step rec) in omega arith
  carry-IsEnd (suc n) rec t w le underway =
      Leaves-bind (IsCareful evacuates) (IsGoing evacuates n) (IsEnd evacuates)
        (take_step client hard_cap components intent (next_step rec) rec (t, w))
        (follow client hard_cap components intent (carry client hard_cap components intent n))
        (take_step-IsGoing (next_step rec) n rec t w refl le underway)
        (follow-IsEnd n _ (carry-IsEnd n))

  -- Over calls that end but may answer differently each time, the loop of a move whose record is not
  -- settled ends within its fuel. Whether or not it fails, it asks for at most one invoice and one
  -- payment, the invoice not after the payment, each right after the journal took the record with
  -- the quotes so far. The mint carries what the invoice delivers, at most the ask, and a cap that
  -- its quote fits; the payment is of the recorded invoice, from the recorded source, and carries
  -- the recorded amount and cap: the sum of its quotes, cut at 64 bits, fits the cap and, for an
  -- evacuation, the amount. If the loop completes, its last write is of a settled record; if it
  -- awaits an external payer, it has not paid.
  pub carry_move-IsEnd :
      (rec : MoveRecord) (w : W)
      → is_settled rec.phase ≡ false
      → Leaves
          (IsCareful evacuates)
          (IsEnd evacuates)
          (carry_move client hard_cap components intent rec ([], w))
  unfolding carry_move any
  carry_move-IsEnd rec w unsettled =
      carry-IsEnd 4 rec [] w (steps_left-bounds (next_step rec)).1 (record {
        careful = tt;
        unminted = λ e. refl;
        unpaid = λ e. refl;
        external = λ e. refl;
        filed = λ e. ground arith;
      })
