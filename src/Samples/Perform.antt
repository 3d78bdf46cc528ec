-- ===== src/Samples/Perform.antt =====
-- The loop of a move at a concrete input.
use fedimint_wallets.Prelude.{true, false, none, some, [], ◌≡◌, refl, codes}
use fedimint_wallets.Types.Federation.{cap_at}
use fedimint_wallets.Types.Action.{evacuate, user, ReasonCode}
use fedimint_wallets.Fee.{solve_between, bracket, forward, fee_on, bisect, solved, choose}
use fedimint_wallets.Intent.{Intent, IntentStatus}
use fedimint_wallets.MoveProtocol.{step_in_flight}
use fedimint_wallets.Drive.{completed}
use fedimint_wallets.Executor.Run.{value, pure}
use fedimint_wallets.Executor.Perform.{carry_move}
use fedimint_wallets.Executor.Perform.Verdicts.{observed, started, success, claimed}
use fedimint_wallets.Executor.Perform.Calls.{Client, parsed, is_evacuate}
use fedimint_wallets.Executor.Perform.Total.{IsTotalClient}
use fedimint_wallets.Executor.Perform.Leaves.{Leaves}
use fedimint_wallets.Executor.Perform.Careful.{IsCareful, IsEnd}
use fedimint_wallets.Executor.Perform.Carried.{carry_move-IsEnd}
use fedimint_wallets.Samples.Sizing.{sdk, sdk-IsTotalSdk, draft}

abbrev client : Client (Unit {0})
client = record {
  sdk = sdk;
  put_move_if_attempt = λ i r. pure true;
  validate_gateway = λ f g. pure tt;
  receive = λ f a g m c. pure (codes "lnbc1", 11);
  receive_contract_amounts = λ f op. pure (observed (9951, some 9951));
  is_open = λ f. pure true;
  parse_invoice = λ i. parsed (some 10061);
  is_expired = λ i. pure false;
  send_gateway_fee = λ f g i. pure (record { base_msat = 100; ppm = 1000 });
  send_fee_quote = λ f a. pure 50;
  pay = λ f i g m. pure (started 12);
  await_send = λ f op. pure (observed (success 99));
  await_receive = λ f op. pure (observed claimed);
}

client-IsTotalClient : IsTotalClient client
client-IsTotalClient = record {
  sdk = sdk-IsTotalSdk;
  put_move = λ i r w. tt;
  validate_gateway = λ f g w. tt;
  receive = λ f a g m c w. tt;
  receive_contract_amounts = λ f op w. tt;
  is_open = λ f w. tt;
  is_expired = λ i w. tt;
  send_gateway_fee = λ f g i w. tt;
  send_fee_quote = λ f a w. tt;
  pay = λ f i g m w. tt;
  await_send = λ f op w. tt;
  await_receive = λ f op w. tt;
}

abbrev evacuation : Intent
evacuation = record {
  idempotency_key = codes "evac";
  attempt = 0;
  action = evacuate 1 2 9900 5000 none none;
  max_fee = some 5000;
  status = IntentStatus.executing;
  reason = ReasonCode.user_initiated;
  actor = user;
  created_at_ms = 0;
  operation_id = none;
  invoice = none;
  evacuation_refusal = none;
}

-- The move is minted, paid and settled.
carried : (carry_move client none none evacuation (draft 9900 5000) ([], tt)).0 ≡ value completed
unfolding carry_move step_in_flight cap_at solve_between bracket forward fee_on bisect solved choose
carried = refl

carry_move-IsEnd_example :
    Leaves
      (IsCareful (is_evacuate evacuation.action))
      (IsEnd (is_evacuate evacuation.action))
      (carry_move client none none evacuation (draft 9900 5000) ([], tt))
carry_move-IsEnd_example =
    carry_move-IsEnd client client-IsTotalClient none none evacuation (draft 9900 5000) tt refl
