-- ===== src/Executor/Perform/Await.antt =====
-- The step that awaits the legs of a move (wallet-fedimint/src/executor.rs).
use fedimint_wallets.Prelude.{Option, some, Text, codes}
use fedimint_wallets.Types.Record.{MoveRecord, MovePhase, refunded, failed}
use fedimint_wallets.Intent.{Intent}
use fedimint_wallets.Journal.{permanent}
use fedimint_wallets.Drive.{awaiting}
use fedimint_wallets.Executor.Run.{Run, ◌>>=◌, ◌>>◌, pure, raise}
use fedimint_wallets.Executor.Perform.Verdicts.{
  SendState, success, send_refunded, send_failed, ReceiveState, Awaited, observed, unobserved,
  settle_after_successful_send, post_successful_send_destination_unknown, committed_send_unknown,
}
use fedimint_wallets.Executor.Perform.Calls.{
  Client, Turn, go_on, stop, Course, ask, require, with_preimage, with_end, put_move_for_intent,
  verify_recovered_receive_contract,
}

abbrev pub settlement : {W : Type 0} → Awaited ReceiveState → Run W (MovePhase × Option Text)
settlement (observed state) = pure (settle_after_successful_send state)
settlement (unobserved e) = raise (post_successful_send_destination_unknown e)

abbrev pub sent_state : {W : Type 0} → Awaited SendState → Run W SendState
sent_state (observed state) = pure state
sent_state (unobserved e) = raise (committed_send_unknown e)

module _ {W : Type 0} (client : Client W) (intent : Intent) where
  abbrev pub close : MoveRecord → MovePhase × Option Text → Run (Course W) Turn
  close rec end =
      put_move_for_intent client intent (with_end rec end) >>= λ u. pure (go_on (with_end rec end))

  -- What follows the end of the send leg: the preimage is kept before the receive leg is awaited.
  abbrev pub after_send : MoveRecord → SendState → Run (Course W) Turn
  after_send rec send_refunded = close rec (refunded, some (codes "send refunded"))
  after_send rec (send_failed reason) = close rec (failed, some reason)
  after_send before (success preimage) = do
    let rec = with_preimage before preimage
    put_move_for_intent client intent rec
    op ←
        require rec.recv_op
          (post_successful_send_destination_unknown (codes "the record has no receive op"))
    reply ← ask (client.await_receive rec.dest op)
    end ← ask (settlement reply)
    close rec end

  -- The step `AwaitSettle` of a move that sends.
  unfoldable pub await_legs : MoveRecord → Run (Course W) Turn
  unfolding put_move_for_intent settle_after_successful_send committed_send_unknown
      post_successful_send_destination_unknown
  await_legs rec = do
    source ← require rec.source (permanent (codes "AwaitSettle reached with no source federation"))
    op ← require rec.send_op (permanent (codes "AwaitSettle reached with no send op"))
    reply ← ask (client.await_send source op)
    state ← ask (sent_state reply)
    after_send rec state

  -- The step `AwaitSettle` of a move whose payer is external.
  unfoldable pub await_payer : MoveRecord → Run (Course W) Turn
  unfolding put_move_for_intent verify_recovered_receive_contract
  await_payer rec = do
    ask (verify_recovered_receive_contract client rec)
    put_move_for_intent client intent rec
    pure (stop awaiting)
