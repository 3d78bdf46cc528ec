-- ===== src/Samples/Durable.antt =====
-- The theorems on rows and moves at concrete inputs.
use fedimint_wallets.Prelude.{◌≡◌, refl, true, false, some, none, [], ◌∷◌, filter, text_eq, codes}
use fedimint_wallets.Types.Action.{user, ReasonCode}
use fedimint_wallets.Ledger.{
  OperationStatus, OperationKind, OperationRecord, RawOpUpdate, WriteKind, advance, refuses,
  is_terminal, status_rank, advanced_kind, advanced_fees, advanced_error, enrich_kind, merge_fees,
}
use fedimint_wallets.Ledger.Advance.{IsOutcome, advance-IsOutcome}
use fedimint_wallets.Ledger.Replay.{Write, after_all, settled_forever, advance_replay}
use fedimint_wallets.MoveProtocol.{
  OpArtifact, MoveParams, receive_leg, assemble_move_record, next_step, merge_sources, gather,
  take_artifact, take_receive, derive_phase, step_in_flight, cached_cap,
}
use fedimint_wallets.MoveProtocol.Reassembly.{assemble_again}
use fedimint_wallets.MoveProtocol.Resume.{
  knows_invoice, knows_send, resume_creates_once, resume_pays_once,
}

-- A row of a payment, unfinished, and one that is done.
abbrev row_in : OperationStatus → OperationRecord
row_in status = record {
  seq = 4;
  correlation_key = codes "pay:1";
  kind = OperationKind.pay 1 (some 700) none none none;
  actor = user;
  reason = ReasonCode.user_initiated;
  status = status;
  created_at_ms = 10;
  updated_at_ms = 10;
  fees = record { fee_cap = some 9; receive_fee = none; send_fee_quoted = none };
  error = none;
  repaired = false;
}

abbrev update : RawOpUpdate
update = record {
  op_id = some 77;
  gateway = some (codes "gw");
  invoice_amount = none;
  payment_hash = some 5;
  fees = some (record { fee_cap = none; receive_fee = none; send_fee_quoted = some 4 });
  fees_definitive = true;
}

advance-IsOutcome_example :
    IsOutcome
      (row_in OperationStatus.awaiting)
      OperationStatus.succeeded
      20
      (some update)
      none
      WriteKind.authoritative
      (advance
        (row_in OperationStatus.awaiting)
        OperationStatus.succeeded
        20
        (some update)
        none
        WriteKind.authoritative)
advance-IsOutcome_example =
    advance-IsOutcome (row_in OperationStatus.awaiting) OperationStatus.succeeded 20 (some update)
      none WriteKind.authoritative

abbrev late_failure : Write
late_failure = record {
  status = OperationStatus.failed;
  now_ms = 30;
  upd = some update;
  error = some (codes "late");
  write = WriteKind.authoritative;
}

settled_forever_example :
    after_all (row_in OperationStatus.succeeded) (late_failure ∷ late_failure ∷ [])
    ≡ row_in OperationStatus.succeeded
unfolding is_terminal
settled_forever_example =
    settled_forever (row_in OperationStatus.succeeded) (late_failure ∷ late_failure ∷ []) refl refl

abbrev advanced_row : OperationRecord
advanced_row = record {
  seq = 4;
  correlation_key = codes "pay:1";
  kind = OperationKind.pay 1 (some 700) (some 5) (some 77) (some (codes "gw"));
  actor = user;
  reason = ReasonCode.user_initiated;
  status = OperationStatus.awaiting;
  created_at_ms = 10;
  updated_at_ms = 20;
  fees = record { fee_cap = some 9; receive_fee = none; send_fee_quoted = some 4 };
  error = none;
  repaired = false;
}

advance_replay_example :
    advance advanced_row OperationStatus.awaiting 20 (some update) none WriteKind.authoritative
    ≡ some advanced_row
unfolding advance refuses is_terminal status_rank advanced_kind advanced_fees advanced_error
    enrich_kind merge_fees fedimint_wallets.Ledger.same_status
advance_replay_example =
    advance_replay (row_in OperationStatus.started) OperationStatus.awaiting 20 (some update) none
      WriteKind.authoritative advanced_row refl refl

-- A move, with nothing done yet, and with its invoice.
abbrev params : MoveParams
params = record {
  key = codes "move:1";
  operation_key = codes "move:1";
  source = some 1;
  dest = 2;
  amount = 500;
  fee_cap = 20;
  fee_cap_components = none;
  gateway = codes "gw";
  send_required = true;
}

abbrev received : OpArtifact
received = record {
  move_id = codes "move:1";
  leg = receive_leg;
  op_id = 8;
  amount = 500;
  fee_cap = some 20;
  invoice = some (codes "lnbc1");
}

assemble_again_example :
    assemble_move_record params
      (received ∷ [])
      (some (assemble_move_record params (received ∷ []) none))
    ≡ assemble_move_record params (received ∷ []) none
assemble_again_example = assemble_again params (received ∷ []) none

resume_creates_once_example :
    (knows_invoice params [] none ≡ false) × (knows_send params [] none ≡ false)
unfolding assemble_move_record merge_sources gather derive_phase next_step step_in_flight cached_cap
    filter
resume_creates_once_example = resume_creates_once params [] none refl

resume_pays_once_example :
    (params.send_required ≡ true)
    × (knows_invoice params (received ∷ []) none ≡ true)
    × (knows_send params (received ∷ []) none ≡ false)
unfolding assemble_move_record merge_sources gather take_artifact take_receive derive_phase
    next_step step_in_flight cached_cap filter text_eq
resume_pays_once_example = resume_pays_once params (received ∷ []) none refl
