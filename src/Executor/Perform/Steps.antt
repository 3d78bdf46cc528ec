-- ===== src/Executor/Perform/Steps.antt =====
-- Each step of the loop of a move goes on with fewer steps left, and leaves a careful trail.
use fedimint_wallets.Prelude.{
  ℕ, Bool, true, false, Option, List, ◌∷◌, Text, ◌≡◌, refl, ◌≤◌, any, is_some, not, ◌&&◌, ltb, ◌==◌,
  arith, if◌then◌else◌,
}
use fedimint_wallets.Types.Federation.{Msat, EvacFeeCap, cap_at}
use fedimint_wallets.Types.Record.{MoveRecord}
use fedimint_wallets.Fee.{GrossUp, total_within_cap}
use fedimint_wallets.Fee
use fedimint_wallets.Drive.{awaiting}
use fedimint_wallets.Intent.{Intent}
use fedimint_wallets.Journal.{ExecError, retryable}
use fedimint_wallets.MoveProtocol.{
  MoveStep, create_invoice, pay_invoice, await_settle, step_done, step_failed, next_step,
  step_in_flight,
}
use fedimint_wallets.MoveProtocol.Resume.{next_step-create}
use fedimint_wallets.Executor.Run.{Run, resume, raise}
use fedimint_wallets.Executor.Perform.Verdicts.{delivered_move_amount, receive_over_net}
use fedimint_wallets.Executor.Perform.Calls.{
  Client, Event, stored, minted, Turn, go_on, stop, Course, is_evacuate, with_receive_quote,
  with_invoice, settle_net, put_move_for_intent,
}
use fedimint_wallets.Executor.Perform.Create.{
  refuse_unless, cap_rule, receive_meta, mint, gate, create_step,
  validate_move_gateway_before_receive, fresh_cap, gross_up_move, minted_verdict,
}
use fedimint_wallets.Executor.Perform.Total.{
  IsTotalClient, validate_move_gateway-IsTotal, fresh_cap-IsTotal, gross_up_move-within,
  minted_verdict-IsTotal,
}
use fedimint_wallets.Executor.Perform.Leaves.{
  Leaves, Leaves-bind, Leaves-call, Leaves-ask, Leaves-put,
}
use fedimint_wallets.Executor.Perform.Careful.{
  IsMint, is_mint, is_payment, IsCareful, IsUnderway, IsEnd,
}

abbrev pub steps_left : MoveStep → ℕ
steps_left create_invoice = 4
steps_left pay_invoice = 3
steps_left await_settle = 2
steps_left step_done = 1
steps_left step_failed = 1

-- The end of a step with at most `n` steps to come.
abbrev pub IsGoing : Bool → ℕ → Turn → List Event → Type 0
IsGoing evacuates n (go_on rec) t = (steps_left (next_step rec) ≤ n) × IsUnderway evacuates rec t
IsGoing evacuates n (stop outcome) t = IsEnd evacuates outcome t

module _ {W : Type 0} (client : Client W) (total : IsTotalClient client) (hard_cap : Option Msat)
    (components : Option EvacFeeCap) (intent : Intent) where
  abbrev evacuates : Bool
  evacuates = is_evacuate intent.action

  Leaves-refuse :
      {B : Type 0} (Q : B → List Event → Type 0) (t : List Event)
      → IsCareful evacuates t
      → (b : Bool) (rec : MoveRecord) (e : ExecError) (w : W) (f : Unit {0} → Run (Course W) B)
      → (b ≡ true → Leaves (IsCareful evacuates) Q (f tt (t, w)))
      → Leaves
          (IsCareful evacuates)
          Q
          (resume (refuse_unless client hard_cap components intent b rec e (t, w)) f)
  Leaves-refuse Q t right true rec e w f next = next refl
  Leaves-refuse Q t right false rec e w f next =
      let E = IsCareful evacuates in
      let refusal : Unit {0} → Run (Course W) (Unit {0}) = λ u. raise e in
      Leaves-bind E (λ _ _. ⊥) Q (resume (put_move_for_intent client intent rec (t, w)) refusal) f
        (Leaves-put E (λ _ _. ⊥) t right client total intent rec w refusal (λ u. right))
        (λ a t' w' never. elim never [ ])

  -- The record after the mint waits for its payment.
  minted-steps :
      (b : Bool) (rec : MoveRecord) (invoice : Text) (op : ℕ) (net cap : Msat)
      → is_some rec.send_op ≡ false
      → rec.send_required ≡ true
      → next_step (
          if b
          then (with_invoice rec invoice op)
          else (record (with_invoice rec invoice op) { amount = net; fee_cap = cap }))
        ≡ pay_invoice
  unfolding next_step step_in_flight
  minted-steps true rec invoice op net cap unsent sends = ground arith
  minted-steps false rec invoice op net cap unsent sends = ground arith

  minted-IsGoing :
      (b s : Bool) (rec : MoveRecord) (invoice : Text) (op : ℕ) (net cap : Msat) (t : List Event)
      → IsCareful evacuates t
      → is_some rec.send_op ≡ false
      → any is_payment t ≡ false
      → rec.send_required ≡ s
      → let after =
          (if b
            then (with_invoice rec invoice op)
            else (record (with_invoice rec invoice op) { amount = net; fee_cap = cap })) in
        IsGoing evacuates 3 (if s then (go_on after) else (stop awaiting)) (stored after ∷ t)
  unfolding any
  minted-IsGoing true true rec invoice op net cap t right unsent unpaid sends = (
    ground (arith, minted-steps true rec invoice op net cap unsent sends),
    record {
      careful = right;
      unminted = λ e. ground arith;
      unpaid = λ e. unpaid;
      external = λ e. unpaid;
      filed = λ e. refl;
    },
  )
  minted-IsGoing false true rec invoice op net cap t right unsent unpaid sends = (
    ground (arith, minted-steps false rec invoice op net cap unsent sends),
    record {
      careful = right;
      unminted = λ e. ground arith;
      unpaid = λ e. unpaid;
      external = λ e. unpaid;
      filed = λ e. refl;
    },
  )
  minted-IsGoing true false rec invoice op net cap t right unsent unpaid sends = (right, unpaid)
  minted-IsGoing false false rec invoice op net cap t right unsent unpaid sends = (right, unpaid)

  mint-IsGoing :
      (rec : MoveRecord) (grossed : GrossUp) (net : Msat) (t : List Event) (w : W)
      → IsCareful evacuates t
      → is_some rec.send_op ≡ false
      → any is_payment t ≡ false
      → IsMint
          (stored rec ∷ t)
          grossed.invoice_amount
          (receive_meta client hard_cap components intent rec net)
      → Leaves
          (IsCareful evacuates)
          (IsGoing evacuates 3)
          (mint client hard_cap components intent rec grossed net (t, w))
  unfolding mint settle_net any
  mint-IsGoing rec grossed net t w right unsent unpaid minting =
      let E = IsCareful evacuates in
      let Q = IsGoing evacuates 3 in
      let meta = receive_meta client hard_cap components intent rec net in
      let after = minted grossed.invoice_amount meta ∷ stored rec ∷ t in
      let careful : E after = (minting, right) in
      Leaves-put E Q t right client total intent rec w _ λ u.
        Leaves-ask E Q after careful
          (client.receive rec.dest grossed.invoice_amount rec.gateway meta grossed.contract_amount)
          u _
          (total.receive rec.dest grossed.invoice_amount rec.gateway meta grossed.contract_amount)
          λ issued v.
            Leaves-ask E Q after careful (client.receive_contract_amounts rec.dest issued.1) v _
              (total.receive_contract_amounts rec.dest issued.1)
              λ amounts x.
                Leaves-ask E Q after careful (minted_verdict amounts) x _
                  (minted_verdict-IsTotal amounts)
                  λ agreed y. Leaves-put E Q after careful client total intent _ y _ λ z.
                    minted-IsGoing (rec.amount == net) rec.send_required rec issued.0 issued.1 net _
                      after careful unsent unpaid refl

  -- The receive leg is quoted within the cap at what the invoice delivers, which is what it asks for.
  quoted-IsMint :
      (before : MoveRecord) (grossed : GrossUp) (t : List Event)
      → Fee.delivered_net grossed ≤ before.amount
      → total_within_cap grossed.receive_quote 0
          (cap_at (cap_rule client hard_cap components intent before) (Fee.delivered_net grossed))
        ≡ true
      → any is_mint t ≡ false
      → any is_payment t ≡ false
      → IsMint
          (stored (with_receive_quote before grossed.receive_quote) ∷ t)
          grossed.invoice_amount
          (receive_meta client hard_cap components intent
            (with_receive_quote before grossed.receive_quote)
            (delivered_move_amount (Fee.delivered_net grossed) before.amount))
  unfolding any total_within_cap delivered_move_amount Fee.delivered_net
  quoted-IsMint before grossed t within capped unminted unpaid =
      let rule = cap_rule client hard_cap components intent before in
      let net = delivered_move_amount (Fee.delivered_net grossed) before.amount in
      let all : net ≡ Fee.delivered_net grossed = ground arith in
      record {
        rec = with_receive_quote before grossed.receive_quote;
        journaled = refl;
        quote = grossed.receive_quote;
        quoted = refl;
        delivers = all;
        within_ask = ground arith;
        cap = cap_at rule net;
        capped = refl;
        within_cap = rw all (ground arith);
        first = unminted;
        unpaid = unpaid;
      }

  -- The step from the solve of the receive leg on.
  offer :
      (before : MoveRecord) (t : List Event)
      → IsCareful evacuates t
      → is_some before.send_op ≡ false
      → any is_payment t ≡ false
      → any is_mint t ≡ false
      → (grossed : GrossUp) (w : W) → Fee.delivered_net grossed ≤ before.amount
      → Leaves
          (IsCareful evacuates)
          (IsGoing evacuates 3)
          (gate client hard_cap components intent before grossed (t, w))
  unfolding gate
  offer before t right unsent unpaid unminted grossed w within =
      let Q = IsGoing evacuates 3 in
      let rec = with_receive_quote before grossed.receive_quote in
      let delivered = Fee.delivered_net grossed in
      let net = delivered_move_amount delivered rec.amount in
      let next : Unit {0} → Run (Course W) Turn =
        λ u. mint client hard_cap components intent rec grossed net in
      Leaves-refuse Q t right _ rec _ w _ λ capped.
        Leaves-refuse Q t right (not (evacuates && ltb delivered grossed.receive_quote)) rec
          (retryable (receive_over_net grossed.receive_quote delivered)) w next
          λ viable.
            mint-IsGoing rec grossed net t w right unsent unpaid
              (quoted-IsMint before grossed t within capped unminted unpaid)

  pub create-IsGoing :
      (before : MoveRecord) (t : List Event) (w : W)
      → IsUnderway evacuates before t
      → next_step before ≡ create_invoice
      → Leaves
          (IsCareful evacuates)
          (IsGoing evacuates 3)
          (create_step client hard_cap components intent before (t, w))
  unfolding create_step
  create-IsGoing before t w underway creates =
      let E = IsCareful evacuates in
      let Q = IsGoing evacuates 3 in
      let right = underway.careful in
      let (uninvoiced, unsent) = next_step-create before creates in
      let unpaid = underway.unpaid unsent in
      Leaves-ask E Q t right
        (validate_move_gateway_before_receive client hard_cap components intent before) w _
        (validate_move_gateway-IsTotal client total hard_cap components intent before)
        λ a u.
          Leaves-ask E Q t right (fresh_cap client hard_cap components intent before) u _
            (fresh_cap-IsTotal client total hard_cap components intent before)
            λ b v.
              Leaves-call E Q t right (λ r x. Fee.delivered_net r ≤ before.amount)
                (gross_up_move client hard_cap components intent before v) _
                (gross_up_move-within client total hard_cap components intent before v)
                (offer before t right unsent unpaid (underway.unminted uninvoiced))
