-- ===== src/Samples/Sizing.antt =====
-- The sizing of an evacuation at concrete inputs.
use fedimint_wallets.Prelude.{
  ℕ, ◌+◌, ◌-◌, ◌≤◌, ◌<◌, Bool, true, false, none, some, ◌≡◌, refl, codes, arith, leb, ltb,
  if◌then◌else◌, List, [], ◌∷◌,
}
use fedimint_wallets.Types.Federation.{Msat, EvacFeeCap, cap_at}
use fedimint_wallets.Types.Action.{evacuate}
use fedimint_wallets.Types.Record.{MoveRecord, MovePhase}
use fedimint_wallets.Fee.{
  GatewayFee, solve_between, bracket, forward, fee_on, bisect, solved, choose,
}
use fedimint_wallets.Executor.Run.{value, Run, pure, Returns, Answers}
use fedimint_wallets.Executor.Cost.{
  CandidateQuote, priced, ProbeVerdict, affordability, combined_verdict,
}
use fedimint_wallets.Executor.Boundary.{oscillation_bound}
use fedimint_wallets.Executor.Sizing.{largest_fitting_amount}
use fedimint_wallets.Executor.Sizing.Frontier.{IsFrontier, largest_fitting_amount-IsFrontier}
use fedimint_wallets.Executor.Sizing.Exact.{IsLargest, largest_fitting_amount-IsLargest}
use fedimint_wallets.Executor.Search.{search_evacuation_net}
use fedimint_wallets.Executor.Search.Window.{search_evacuation_net-IsFound}
use fedimint_wallets.Executor.Evacuation.{has_move_artifact}
use fedimint_wallets.Executor.Fresh.{Sdk, tx_fee, size_fresh_evacuation}
use fedimint_wallets.Executor.Fresh.Priced.{IsTotalSdk}
use fedimint_wallets.Executor.Fresh.Sized.{IsSizedFresh, size_fresh_evacuation-IsSizedFresh}
use fedimint_wallets.Executor.GrossUp.{resolve_receive_gross_up}
use fedimint_wallets.Executor.GrossUp.Verified.{IsVerified}
use fedimint_wallets.Executor.GrossUp.Noted.{noted, IsNoted, resolve_receive_gross_up-IsVerified}

abbrev pub gateway_fee : GatewayFee
gateway_fee = record { base_msat = 100; ppm = 1000 }

abbrev pub sdk : Sdk (Unit {0})
sdk = record {
  balance = λ f. pure 100000;
  receive_gateway_fee = λ f g. pure gateway_fee;
  direct_swap_send_gateway_fee = λ f g. pure gateway_fee;
  receive_fee_quote = λ f a. pure 50;
  send_fee_quote_for_amount = λ f a. pure (tx_fee 50);
  minimum_incoming_contract = 5000;
}

pub sdk-IsTotalSdk : IsTotalSdk sdk
sdk-IsTotalSdk = record {
  balance = λ f w. tt;
  receive_gateway_fee = λ f g w. tt;
  send_gateway_fee = λ f g w. tt;
  receive_fee_quote = λ f a w. tt;
  send_fee_quote = λ f a w. tt;
}

abbrev components : EvacFeeCap
components = record { base_msat = 2000; bps = 300 }

abbrev pub draft : ℕ → ℕ → MoveRecord
draft amount fee_cap = record {
  key = codes "evac";
  source = some 1;
  dest = 2;
  amount = amount;
  fee_cap = fee_cap;
  gateway = codes "gw";
  send_required = true;
  invoice = none;
  recv_op = none;
  send_op = none;
  phase = MovePhase.created;
  outcome = none;
  preimage = none;
  receive_fee_quoted = none;
  send_fee_quoted = none;
}

draft_fresh : has_move_artifact (draft 100000 5000) ≡ false
unfolding has_move_artifact
draft_fresh = refl

-- The whole balance cannot pay its own fees: the sizing takes the largest amount that can.
sized_to :
    size_fresh_evacuation sdk
      (some 1000000)
      7
      (evacuate 1 2 100000 5000 none (some components))
      (draft 100000 5000)
      tt
    ≡ (value (draft 99502 4985), tt)
unfolding size_fresh_evacuation solve_between bracket forward fee_on bisect solved choose
    oscillation_bound cap_at
sized_to = refl

size_fresh_evacuation-IsSizedFresh_example :
    Returns (IsSizedFresh sdk (some 1000000) (some components) 100000 1 (draft 100000 5000)) (
      size_fresh_evacuation sdk
        (some 1000000)
        7
        (evacuate 1 2 100000 5000 none (some components))
        (draft 100000 5000)
        tt)
size_fresh_evacuation-IsSizedFresh_example =
    size_fresh_evacuation-IsSizedFresh sdk sdk-IsTotalSdk (omega arith) (some 1000000) 7 1 2 100000
      5000 none (some components) (draft 100000 5000) 1 tt draft_fresh refl

-- A federation fee with a step, so that the first solve is not exact.
abbrev step_fee : Msat → Run (Unit {0}) Msat
step_fee contract = pure (if ltb contract 9960 then 40 else 60)

resolve_receive_gross_up-IsVerified_example :
    Returns
      (λ r u. IsVerified gateway_fee 9900 (IsNoted u) r)
      (resolve_receive_gross_up gateway_fee (noted step_fee) 9900 ([], tt))
resolve_receive_gross_up-IsVerified_example =
    resolve_receive_gross_up-IsVerified step_fee (λ c w. tt) gateway_fee 9900 tt

-- Quotes that are read off a list, whatever the contract.
abbrev scripted : Msat → Run (List Msat) Msat
scripted contract [] = (value 0, [])
scripted contract (fee ∷ rest) = (value fee, rest)

abbrev free_gateway : GatewayFee
free_gateway = record { base_msat = 0; ppm = 0 }

-- The first under-netting invoice is kept, though the latest quote of its contract is lower.
stale_under :
    resolve_receive_gross_up free_gateway
      (noted scripted)
      1000
      ([], 10 ∷ (20 ∷ (10 ∷ (5 ∷ (1 ∷ [])))))
    ≡ (
      value (record { invoice_amount = 1010; contract_amount = 1010; receive_quote = 20 }),
      ((1005, 1) ∷ ((1010, 5) ∷ ((1020, 10) ∷ ((1010, 20) ∷ ((1000, 10) ∷ [])))), []),
    )
unfolding resolve_receive_gross_up solve_between bracket forward fee_on bisect solved choose
stale_under = refl

-- Amounts up to 6000 fit.
abbrev fits : ℕ → Bool
fits a = leb a 6000

abbrev probe : ℕ → Run (Unit {0}) ProbeVerdict
probe a = pure (record { fits = fits a; shortfall = a - 6000 })

largest_fitting_amount-IsFrontier_example :
    Returns (λ r _. IsFrontier probe 5000 9000 r) (largest_fitting_amount probe 5000 9000 100 tt)
largest_fitting_amount-IsFrontier_example =
    largest_fitting_amount-IsFrontier probe (λ a w. tt) 5000 9000 100 tt (omega arith)

probe_still : (a : ℕ) (v : ProbeVerdict) (w : Unit {0}) → Answers (probe a) v w → v.fits ≡ fits a
probe_still a v w asked = let e = asked.1 in ground arith

fits_falls : (a b : ℕ) → 5000 ≤ a → a ≤ b → b ≤ 9000 → fits b ≡ true → fits a ≡ true
fits_falls a b lo le top h = ground arith

largest_fitting_amount-IsLargest_example :
    Returns (λ r _. IsLargest fits 5000 9000 r) (largest_fitting_amount probe 5000 9000 100 tt)
largest_fitting_amount-IsLargest_example =
    largest_fitting_amount-IsLargest probe (λ a w. tt) fits probe_still 5000 9000 fits_falls 100 tt
      (omega arith)

-- Quotes that hold still, of which a balance of 10000 affords those up to 9800.
abbrev curve : Msat → CandidateQuote
curve a = priced (record { invoice_amount = a + 100; receive_quote = 100; send_quote = 100 })

abbrev curve_quote : Msat → Run (Unit {0}) CandidateQuote
curve_quote a = pure (curve a)

curve_still :
    (a : Msat) (q : CandidateQuote) (w : Unit {0}) → Answers (curve_quote a) q w → q ≡ curve a
curve_still a q w asked = let e = asked.1 in ground arith

module _ (a b : Msat) where
  curve_falls :
      5000 ≤ a
      → a ≤ b
      → b ≤ 20000
      → (affordability (curve b) 10000).fits ≡ true
      → (affordability (curve a) 10000).fits ≡ true
  unfolding affordability
  curve_falls lo le top h = ground arith

curve_largest : (a : Msat) → 9800 < a → a ≤ 20000 → (affordability (curve a) 10000).fits ≡ false
unfolding affordability
curve_largest a more le = ground arith

curve_fit : (combined_verdict (curve 9800) components 10000).fits ≡ true
unfolding combined_verdict cap_at
curve_fit = refl

search_evacuation_net-IsFound_example :
    Returns
      (λ s _.
        s.sized
        ≡ some (9800, record { invoice_amount = 9900; receive_quote = 100; send_quote = 100 }))
      (search_evacuation_net curve_quote 5000 20000 10000 components 100 tt)
search_evacuation_net-IsFound_example =
    search_evacuation_net-IsFound curve_quote (λ a w. tt) curve curve_still 10000 components 5000
      20000 100 (omega arith) curve_falls 9800 _ (omega arith) (omega arith) curve_largest refl
      curve_fit tt
