-- ===== src/Executor/Perform/Legs.antt =====
-- The steps of the loop of a move that pay and that await go on with fewer steps left, and leave a
-- careful trail.
use fedimint_wallets.Prelude.{
  ℕ, Bool, true, false, Option, some, List, ◌∷◌, Text, ◌≡◌, refl, ◌≤◌, ◌-◌, any, sat_add64, arith,
  if◌then◌else◌,
}
use fedimint_wallets.Types.Federation.{FederationId, Msat}
use fedimint_wallets.Types.Record.{
  MoveRecord, MovePhase, created, invoiced, sending, settled, refunded, failed, stranded,
}
use fedimint_wallets.Fee.{total_within_cap}
use fedimint_wallets.Intent.{Intent}
use fedimint_wallets.MoveProtocol.{
  pay_invoice, await_settle, next_step, step_in_flight, is_settlement,
}
use fedimint_wallets.MoveProtocol.Resume.{next_step-pay}
use fedimint_wallets.Executor.Run.{Returns}
use fedimint_wallets.Executor.Perform.Verdicts.{
  Awaited, observed, unobserved, ReceiveState, claimed, expired, receive_failed, SendState, success,
  send_refunded, send_failed, accepted, settle_after_successful_send, pay_step_cap_verdict,
  evacuation_viability_verdict,
}
use fedimint_wallets.Executor.Perform.Calls.{
  Client, Event, stored, paid, is_evacuate, with_quotes, with_send_op, with_preimage, with_end,
  verify_recovered_receive_contract,
}
use fedimint_wallets.Executor.Perform.Pay.{
  live_invoice, quote_send, send_meta, sent_op, viable, send, pay_fixed, pay_step,
}
use fedimint_wallets.Executor.Perform.Await.{
  settlement, sent_state, close, after_send, await_legs, await_payer,
}
use fedimint_wallets.Executor.Perform.Total.{
  IsTotalClient, verify_recovered_receive_contract-IsTotal, live_invoice-IsTotal,
  quote_send-IsTotal, sent_op-IsTotal, sent_state-IsTotal,
}
use fedimint_wallets.Executor.Perform.Leaves.{
  Leaves, Leaves-call, Leaves-ask, Leaves-put, Leaves-respect, Leaves-require,
}
use fedimint_wallets.Executor.Perform.Steps.{steps_left, IsGoing}
use fedimint_wallets.Executor.Perform.Careful.{IsPayment, IsCareful, IsUnderway}

-- A quote that the verdicts accept.
pay_step_cap_verdict-accepted :
    (receive_quote send_quote cap : Msat)
    → pay_step_cap_verdict receive_quote send_quote cap ≡ accepted
    → sat_add64 receive_quote send_quote ≤ cap
unfolding pay_step_cap_verdict total_within_cap
pay_step_cap_verdict-accepted receive_quote send_quote cap e = ground arith

evacuation_viability_verdict-accepted :
    (b : Bool) (receive_quote send_quote net : Msat)
    → (if b then (evacuation_viability_verdict receive_quote send_quote net) else accepted)
      ≡ accepted
    → b ≡ true
    → sat_add64 receive_quote send_quote ≤ net
unfolding evacuation_viability_verdict
evacuation_viability_verdict-accepted b receive_quote send_quote net e evacuates = ground arith

ended-steps :
    (rec : MoveRecord) (p : MovePhase) (o : Option Text)
    → is_settlement p ≡ true
    → steps_left (next_step (with_end rec (p, o))) ≤ 1
unfolding next_step
ended-steps rec settled o e = omega arith
ended-steps rec refunded o e = omega arith
ended-steps rec failed o e = omega arith
ended-steps rec stranded o e = omega arith
ended-steps rec created o e = ground arith
ended-steps rec invoiced o e = ground arith
ended-steps rec sending o e = ground arith

sent-steps : (rec : MoveRecord) (op : ℕ) → next_step (with_send_op rec op) ≡ await_settle
unfolding next_step step_in_flight
sent-steps rec op = ground arith

settlement-ends :
    {W : Type 0} (a : Awaited ReceiveState) (w : W)
    → Returns (λ end _. is_settlement end.0 ≡ true) (settlement a w)
unfolding settle_after_successful_send
settlement-ends (observed claimed) w = refl
settlement-ends (observed expired) w = refl
settlement-ends (observed (receive_failed reason)) w = refl
settlement-ends (unobserved e) w = tt

module _ {W : Type 0} (client : Client W) (total : IsTotalClient client) (intent : Intent) where
  abbrev evacuates : Bool
  evacuates = is_evacuate intent.action

  abbrev E : List Event → Type 0
  E = IsCareful evacuates

  send-IsGoing :
      (rec : MoveRecord) (source : FederationId) (invoice : Text) (t : List Event) (w : W)
      → E t
      → rec.send_required ≡ true
      → rec.invoice ≡ some invoice
      → IsPayment evacuates (stored rec ∷ t) source invoice (send_meta client intent rec)
      → Leaves E (IsGoing evacuates 2) (send client intent rec source invoice (stored rec ∷ t, w))
  unfolding send
  send-IsGoing rec source invoice t w right sends invoiced_as paying =
      let Q = IsGoing evacuates 2 in
      let meta = send_meta client intent rec in
      let after = paid source invoice meta ∷ stored rec ∷ t in
      let careful : E after = (paying, right) in
      Leaves-ask E Q after careful (client.pay source invoice rec.gateway meta) w _
        (total.pay source invoice rec.gateway meta)
        λ reply u. Leaves-ask E Q after careful (sent_op reply) u _ (sent_op-IsTotal reply) λ op v.
          Leaves-put E Q after careful client total intent (with_send_op rec op) v _ λ x. (
            ground (arith, sent-steps rec op),
            record {
              careful = careful;
              unminted = λ e. ground arith;
              unpaid = λ e. ground arith;
              external = λ e. ground (arith, sends);
              filed = λ e. refl;
            },
          )

  pay_fixed-IsGoing :
      (before : MoveRecord) (invoice : Text) (source : FederationId) (t : List Event) (w : W)
      → IsUnderway evacuates before t
      → next_step before ≡ pay_invoice
      → before.invoice ≡ some invoice
      → before.source ≡ some source
      → Leaves E (IsGoing evacuates 2) (pay_fixed client intent before invoice source (t, w))
  unfolding pay_fixed any
  pay_fixed-IsGoing before invoice source t w underway pays of_invoice of_source =
      let Q = IsGoing evacuates 2 in
      let right = underway.careful in
      let (sends, known, unsent) = next_step-pay before pays in
      Leaves-ask E Q t right (verify_recovered_receive_contract client before) w _
        (verify_recovered_receive_contract-IsTotal client total before)
        λ a u.
          Leaves-ask E Q t right (live_invoice client intent before invoice) u _
            (live_invoice-IsTotal client total intent before invoice)
            λ msat v.
              Leaves-ask E Q t right (quote_send client intent before source invoice msat) v _
                (quote_send-IsTotal client total intent before source invoice msat)
                λ quote x.
                  let rec = with_quotes before (msat - before.amount) quote in
                  Leaves-put E Q t right client total intent rec x _ λ y.
                    Leaves-respect E Q (stored rec ∷ t) right
                      (pay_step_cap_verdict (msat - before.amount) quote before.fee_cap) y _
                      λ capped.
                        Leaves-respect E Q (stored rec ∷ t) right
                          (viable client intent rec (msat - before.amount) quote) y _
                          λ worth.
                            send-IsGoing rec source invoice t y right sends of_invoice (record {
                              rec = rec;
                              journaled = refl;
                              sends = sends;
                              of_invoice = of_invoice;
                              of_source = of_source;
                              receive_quote = msat - before.amount;
                              send_quote = quote;
                              receive_quoted = refl;
                              send_quoted = refl;
                              within_cap = pay_step_cap_verdict-accepted _ quote _ capped;
                              worth =
                                  evacuation_viability_verdict-accepted evacuates _ quote _ worth;
                              same_amount = refl;
                              same_cap = refl;
                              first = underway.unpaid unsent;
                            })

  pub pay-IsGoing :
      (rec : MoveRecord) (t : List Event) (w : W)
      → IsUnderway evacuates rec t
      → next_step rec ≡ pay_invoice
      → Leaves E (IsGoing evacuates 2) (pay_step client intent rec (t, w))
  unfolding pay_step
  pay-IsGoing rec t w underway pays =
      let Q = IsGoing evacuates 2 in
      let right = underway.careful in
      Leaves-require E Q t right rec.invoice _ w _ λ invoice of_invoice.
        Leaves-require E Q t right rec.source _ w _ λ source of_source.
          pay_fixed-IsGoing rec invoice source t w underway pays of_invoice of_source

  close-IsGoing :
      (rec : MoveRecord) (p : MovePhase) (o : Option Text) (t : List Event) (w : W)
      → IsUnderway evacuates rec t
      → is_settlement p ≡ true
      → Leaves E (IsGoing evacuates 1) (close client intent rec (p, o) (t, w))
  unfolding any
  close-IsGoing rec p o t w underway ends =
      Leaves-put E (IsGoing evacuates 1) t underway.careful client total intent
        (with_end rec (p, o)) w _
        λ u. (
          ended-steps rec p o ends,
          record {
            careful = underway.careful;
            unminted = underway.unminted;
            unpaid = underway.unpaid;
            external = underway.external;
            filed = λ e. refl;
          },
        )

  after_send-IsGoing :
      (rec : MoveRecord) (state : SendState) (t : List Event) (w : W)
      → IsUnderway evacuates rec t
      → Leaves E (IsGoing evacuates 1) (after_send client intent rec state (t, w))
  unfolding any
  after_send-IsGoing rec send_refunded t w underway = close-IsGoing rec refunded _ t w underway refl
  after_send-IsGoing rec (send_failed reason) t w underway =
      close-IsGoing rec failed _ t w underway refl
  after_send-IsGoing before (success preimage) t w underway =
      let Q = IsGoing evacuates 1 in
      let right = underway.careful in
      let rec = with_preimage before preimage in
      let kept : IsUnderway evacuates rec (stored rec ∷ t) = record {
        careful = right;
        unminted = underway.unminted;
        unpaid = underway.unpaid;
        external = underway.external;
        filed = λ e. refl;
      } in
      Leaves-put E Q t right client total intent rec w _ λ u.
        Leaves-require E Q (stored rec ∷ t) right rec.recv_op _ u _ λ op known.
          Leaves-ask E Q (stored rec ∷ t) right (client.await_receive rec.dest op) u _
            (total.await_receive rec.dest op)
            λ reply v.
              Leaves-call E Q (stored rec ∷ t) right (λ end x. is_settlement end.0 ≡ true)
                (settlement reply v) _ (settlement-ends reply v)
                λ end x ends. close-IsGoing rec end.0 end.1 (stored rec ∷ t) x kept ends

  pub await_legs-IsGoing :
      (rec : MoveRecord) (t : List Event) (w : W)
      → IsUnderway evacuates rec t
      → Leaves E (IsGoing evacuates 1) (await_legs client intent rec (t, w))
  unfolding await_legs
  await_legs-IsGoing rec t w underway =
      let Q = IsGoing evacuates 1 in
      let right = underway.careful in
      Leaves-require E Q t right rec.source _ w _ λ source of_source.
        Leaves-require E Q t right rec.send_op _ w _ λ op known.
          Leaves-ask E Q t right (client.await_send source op) w _ (total.await_send source op)
            λ reply u.
              Leaves-ask E Q t right (sent_state reply) u _ (sent_state-IsTotal reply)
                λ state v. after_send-IsGoing rec state t v underway

  pub await_payer-IsGoing :
      (rec : MoveRecord) (t : List Event) (w : W)
      → rec.send_required ≡ false
      → IsUnderway evacuates rec t
      → Leaves E (IsGoing evacuates 1) (await_payer client intent rec (t, w))
  unfolding await_payer any
  await_payer-IsGoing rec t w external underway =
      let Q = IsGoing evacuates 1 in
      let right = underway.careful in
      Leaves-ask E Q t right (verify_recovered_receive_contract client rec) w _
        (verify_recovered_receive_contract-IsTotal client total rec)
        λ a u.
          Leaves-put E Q t right client total intent rec u _
            λ v. (right, underway.external external)
