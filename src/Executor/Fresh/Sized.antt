-- ===== src/Executor/Fresh/Sized.antt =====
-- What the record of a freshly sized evacuation commits to.
use fedimint_wallets.Prelude.{
  ℕ, ◌+◌, ◌-◌, ◌*◌, ◌≤◌, Bool, false, Option, some, none, ◌≡◌, refl, inl, inr, ltb, if◌then◌else◌,
  arith, Bool-cases, subst, sym,
}
use fedimint_wallets.Types.Federation.{FederationId, Msat, GatewayUrl, EvacFeeCap, cap_at}
use fedimint_wallets.Types.Action.{evacuate}
use fedimint_wallets.Types.Record.{MoveRecord}
use fedimint_wallets.Executor.Run.{pure, Returns, IsTotal, Answers, Returns-Answers, Returns-bind}
use fedimint_wallets.Executor.Cost.{
  FreshMoveCost, priced, delivered_net, total_fee, source_debit, evacuation_cap_rule,
  apply_evacuation_sizing,
}
use fedimint_wallets.Executor.Diagnosis.{EvacuationSizing, sized, refused, structural_refused}
use fedimint_wallets.Executor.Evacuation.{has_move_artifact, size_evacuation}
use fedimint_wallets.Executor.Evacuation.Worth.{IsWorth, size_evacuation-IsWorth}
use fedimint_wallets.Executor.Fresh.{
  Sdk, FreshSendRequiredGatewayFees, evacuation_cap_room, quote_fresh_send_required_cost,
  fresh_send_required_gateway_fees, clamp_to_room, clamp_desired_to_cap_room, commit_sizing,
  size_from, size_with_source, size_fresh_evacuation,
}
use fedimint_wallets.Executor.Fresh.Priced.{IsTotalSdk, quote-IsTotal, quoted_within}

cap_at-grows : (cap : EvacFeeCap) (a b : Msat) → a ≤ b → cap_at cap a ≤ cap_at cap b
unfolding cap_at
cap_at-grows cap a b h = let product : a * cap.bps ≤ b * cap.bps = grind arith in omega arith

module _ {W : Type 0} (sdk : Sdk W) where
  -- With a hard cap, a balance of the destination that leaves room for the net was read.
  abbrev pub HasRoom : Option Msat → FederationId → Msat → Type 0
  HasRoom none dest net = Unit
  HasRoom (some cap) dest net =
      (balance : Msat) × (u : W) × Answers (sdk.balance dest) balance u × (balance + net ≤ cap)

  -- The record carries a net of at most the ask, for which the destination has room; the last quote
  -- priced it within a balance of the source that was read, its fees are within the record's cap, and
  -- it delivers at least what it costs.
  pub record IsSizedFresh (hard_cap : Option Msat) (components : Option EvacFeeCap) (asked : Msat)
      (source : FederationId) (rec rec' : MoveRecord) (w : W) : Type 0 where
    pub net : Msat
    pub cost : FreshMoveCost
    pub spendable : Msat
    pub fees : FreshSendRequiredGatewayFees
    pub committed :
        rec' ≡ apply_evacuation_sizing rec (evacuation_cap_rule components rec.fee_cap) net
    pub within_ask : net ≤ asked
    pub has_room : HasRoom hard_cap rec.dest net
    pub balance_read : (u : W) × Answers (sdk.balance source) spendable u
    pub quoted :
        Answers (quote_fresh_send_required_cost sdk source rec.dest fees net) (priced cost) w
    pub paid : source_debit cost ≤ spendable
    pub capped : total_fee cost ≤ rec'.fee_cap
    pub delivers : (total_fee cost ≤ delivered_net cost) × (delivered_net cost ≤ rec'.amount)

  -- A clamped ask.
  abbrev IsClamped : Option Msat → FederationId → Msat → Msat → Type 0
  IsClamped hard_cap dest asked desired =
      (desired ≤ asked) × ((net : Msat) → net ≤ desired → HasRoom hard_cap dest net)

  module _ (total : IsTotalSdk sdk) where
    clamp_to_room-IsClamped :
        (cap : Msat) (dest : FederationId) (asked balance : Msat) (u w : W)
        → Answers (sdk.balance dest) balance u
        → Returns
            (λ d _. IsClamped (some cap) dest asked d)
            (clamp_to_room sdk dest asked cap balance (evacuation_cap_room balance cap) w)
    unfolding evacuation_cap_room
    clamp_to_room-IsClamped cap dest asked balance u w read =
        elim (Bool-cases (ltb 0 (cap - balance))) [
          | inl room ↦ rw room (omega arith, λ net le. (balance, u, read, ground arith))
          | inr full ↦ rw full tt
        ]

    clamp_desired_to_cap_room-IsClamped :
        (hard_cap : Option Msat) (dest : FederationId) (asked : Msat) (w : W)
        → Returns
            (λ d _. IsClamped hard_cap dest asked d)
            (clamp_desired_to_cap_room sdk hard_cap dest asked w)
    unfolding clamp_desired_to_cap_room
    clamp_desired_to_cap_room-IsClamped none dest asked w = (omega arith, λ net le. tt)
    clamp_desired_to_cap_room-IsClamped (some cap) dest asked w =
        Returns-bind _ _ (sdk.balance dest w) _
          (Returns-Answers (sdk.balance dest) (total.balance dest) w)
          λ b u read. clamp_to_room-IsClamped cap dest asked b u u read

    fresh_fees-IsTotal :
        (source dest : FederationId) (g : GatewayUrl)
        → IsTotal (fresh_send_required_gateway_fees sdk source dest g)
    unfolding fresh_send_required_gateway_fees
    fresh_fees-IsTotal source dest g w =
        Returns-bind _ _ (sdk.receive_gateway_fee dest g w) _
          (Returns-Answers (sdk.receive_gateway_fee dest g) (total.receive_gateway_fee dest g) w)
          λ a u x.
            Returns-bind _ _ (sdk.direct_swap_send_gateway_fee source g u) _
              (Returns-Answers (sdk.direct_swap_send_gateway_fee source g)
                (total.send_gateway_fee source g) u)
              λ b v y. tt

    module _ (hard_cap : Option Msat) (components : Option EvacFeeCap) (asked : Msat)
        (source : FederationId) (rec : MoveRecord) where
      commit_sizing-IsSizedFresh :
          (desired spendable : Msat) (fees : FreshSendRequiredGatewayFees) (s : EvacuationSizing)
          (w : W)
          → IsClamped hard_cap rec.dest asked desired
          → (u : W) × Answers (sdk.balance source) spendable u
          → IsWorth
              (quote_fresh_send_required_cost sdk source rec.dest fees)
              (quote-IsTotal sdk total source rec.dest fees)
              sdk.minimum_incoming_contract
              desired
              spendable
              (evacuation_cap_rule components rec.fee_cap)
              s
              w
          → Returns (IsSizedFresh hard_cap components asked source rec) (
              commit_sizing sdk rec desired spendable
                (evacuation_cap_rule components rec.fee_cap)
                s
                w)
      unfolding apply_evacuation_sizing
      commit_sizing-IsSizedFresh desired spendable fees (refused reason) w clamped read worth = tt
      commit_sizing-IsSizedFresh desired spendable fees (structural_refused e) w clamped read
            worth =
          tt
      commit_sizing-IsSizedFresh desired spendable fees (sized net) w clamped read
            (cost, le, good, viable) =
          let delivered : delivered_net cost ≤ net =
            quoted_within sdk total source rec.dest fees net cost w good.0 in
          record {
            net = net;
            cost = cost;
            spendable = spendable;
            fees = fees;
            committed = refl;
            within_ask = omega (arith, clamped.0);
            has_room = clamped.1 net le;
            balance_read = read;
            quoted = good.0;
            paid = good.1;
            capped = omega (
              arith,
              good.2,
              cap_at-grows (evacuation_cap_rule components rec.fee_cap) _ net delivered,
            );
            delivers = (viable, delivered);
          }

      size_from-IsSizedFresh :
          (now_ms : ℕ) (w : W)
          → 1 ≤ sdk.minimum_incoming_contract
          → Returns
              (IsSizedFresh hard_cap components asked source rec)
              (size_from sdk hard_cap components asked now_ms rec source w)
      size_from-IsSizedFresh now_ms w floor =
          Returns-bind _ _ (clamp_desired_to_cap_room sdk hard_cap rec.dest asked w) _
            (clamp_desired_to_cap_room-IsClamped hard_cap rec.dest asked w)
            λ desired w₁ clamped.
              Returns-bind _ _ (sdk.balance source w₁) _
                (Returns-Answers (sdk.balance source) (total.balance source) w₁)
                λ spendable w₂ read.
                  Returns-bind _ _
                    (fresh_send_required_gateway_fees sdk source rec.dest rec.gateway w₂) _
                    (fresh_fees-IsTotal source rec.dest rec.gateway w₂)
                    λ fees w₃ x.
                      Returns-bind _ _
                        (size_evacuation (quote_fresh_send_required_cost sdk source rec.dest fees)
                          sdk.minimum_incoming_contract desired spendable
                          (evacuation_cap_rule components rec.fee_cap) now_ms w₃)
                        _
                        (size_evacuation-IsWorth
                          (quote_fresh_send_required_cost sdk source rec.dest fees)
                          (quote-IsTotal sdk total source rec.dest fees)
                          sdk.minimum_incoming_contract desired spendable
                          (evacuation_cap_rule components rec.fee_cap) now_ms w₃ floor)
                        λ s w₄ worth.
                          commit_sizing-IsSizedFresh desired spendable fees s w₄ clamped (w₂, read)
                            worth

      size_with_source-IsSizedFresh :
          (now_ms : ℕ) (w : W) (o : Option FederationId)
          → 1 ≤ sdk.minimum_incoming_contract
          → o ≡ some source
          → Returns
              (IsSizedFresh hard_cap components asked source rec)
              (size_with_source sdk hard_cap components asked now_ms rec o w)
      size_with_source-IsSizedFresh now_ms w o floor e =
          rw e (size_from-IsSizedFresh now_ms w floor)

  -- For an evacuation whose record has a source and no artifact, over SDK calls that end but may
  -- answer differently each time and a positive contract minimum, the sizing ends. Unless it
  -- fails, it returns the record with its amount and fee cap set together for a net that is at
  -- most the ask; with a hard cap, the net fits beside a balance of the destination that was read.
  -- The last quote priced the net so that a balance of the source that was read pays it, its fees
  -- are within the record's new cap and at most what it delivers, and it delivers at most the
  -- record's amount.
  pub size_fresh_evacuation-IsSizedFresh :
      IsTotalSdk sdk
      → 1 ≤ sdk.minimum_incoming_contract
      → (hard_cap : Option Msat) (now_ms : ℕ) (s d : FederationId) (asked c : Msat)
        (g : Option GatewayUrl) (components : Option EvacFeeCap) (rec : MoveRecord)
        (source : FederationId) (w : W)
      → has_move_artifact rec ≡ false
      → rec.source ≡ some source
      → Returns
          (IsSizedFresh hard_cap components asked source rec)
          (size_fresh_evacuation sdk hard_cap now_ms (evacuate s d asked c g components) rec w)
  unfolding size_fresh_evacuation
  size_fresh_evacuation-IsSizedFresh total floor hard_cap now_ms s d asked c g components rec source
        w fresh from =
      subst
        (λ (b : Bool). Returns (IsSizedFresh hard_cap components asked source rec) (
          (if b
              then (pure rec)
              else (size_with_source sdk hard_cap components asked now_ms rec rec.source))
            w))
        (sym fresh)
        (size_with_source-IsSizedFresh total hard_cap components asked source rec now_ms w
          rec.source floor from)
