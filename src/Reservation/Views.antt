-- ===== src/Reservation/Views.antt =====
-- The allocator's view of the reservations against the strict one.
use fedimint_wallets.Prelude.{ℕ, ◌≤◌, arith, u64_max}
use fedimint_wallets.Types.Federation.{FederationId, Reservations, outbound, inbound, target_credit}
use fedimint_wallets.Types.Action.{
  Action, direct_inflow, move, evacuate, pay, receive, join, recover, refuse_inflow,
}
use fedimint_wallets.Reservation.{
  project_strict_action, add_move, add_inbound, add_outbound, add_target_credit,
}

-- Nothing is reserved in `r` that is not in `t`, on any side of any federation.
pub record IsWeaker (r t : Reservations) : Type 0 where
  pub out_le : (fed : FederationId) → outbound r fed ≤ outbound t fed
  pub in_le : (fed : FederationId) → inbound r fed ≤ inbound t fed
  pub credit_le : (fed : FederationId) → target_credit r fed ≤ target_credit t fed

-- `add_*` only grow a reservation, up to the largest 64-bit number.
abbrev pub IsBounded : Reservations → Type 0
IsBounded t =
    (fed : FederationId)
    → (outbound t fed ≤ u64_max) × (inbound t fed ≤ u64_max) × (target_credit t fed ≤ u64_max)

-- Reserving less, or nothing, keeps the order.
module _ {r t : Reservations} (w : IsWeaker r t) where
  pub add_move-IsWeaker :
      (s d a c a' c' : ℕ) → a ≤ a' → c ≤ c' → IsWeaker (add_move r s d a c) (add_move t s d a' c')
  unfolding add_move outbound inbound target_credit
  add_move-IsWeaker s d a c a' c' h k = record {
    out_le = λ fed. ground (arith, w.out_le fed, w.out_le s);
    in_le = λ fed. ground (arith, w.in_le fed, w.in_le d);
    credit_le = λ fed. ground (arith, w.credit_le fed, w.credit_le d);
  }

  pub add_inbound-IsWeaker :
      (d a a' : ℕ) → a ≤ a' → IsWeaker (add_inbound r d a) (add_inbound t d a')
  unfolding add_inbound outbound inbound target_credit
  add_inbound-IsWeaker d a a' h = record {
    out_le = λ fed. ground (arith, w.out_le fed);
    in_le = λ fed. ground (arith, w.in_le fed, w.in_le d);
    credit_le = λ fed. ground (arith, w.credit_le fed);
  }

  pub add_outbound-IsWeaker :
      (s a a' : ℕ) → a ≤ a' → IsWeaker (add_outbound r s a) (add_outbound t s a')
  unfolding add_outbound outbound inbound target_credit
  add_outbound-IsWeaker s a a' h = record {
    out_le = λ fed. ground (arith, w.out_le fed, w.out_le s);
    in_le = λ fed. ground (arith, w.in_le fed);
    credit_le = λ fed. ground (arith, w.credit_le fed);
  }

  -- The phases that release one side, or both.
  pub released_source-IsWeaker :
      (s d a a' c : ℕ)
      → IsBounded t
      → a ≤ a'
      → IsWeaker (add_target_credit (add_inbound r d a) d a) (add_move t s d a' c)
  unfolding add_move add_inbound add_target_credit outbound inbound target_credit
  released_source-IsWeaker s d a a' c b h = record {
    out_le = λ fed. ground (arith, w.out_le fed, w.out_le s, b fed);
    in_le = λ fed. ground (arith, w.in_le fed, w.in_le d);
    credit_le = λ fed. ground (arith, w.credit_le fed, w.credit_le d);
  }

pub strict-IsBounded :
    (t : Reservations) (action : Action) → IsBounded t → IsBounded (project_strict_action t action)
unfolding project_strict_action outbound inbound target_credit
strict-IsBounded t (direct_inflow d a c) b fed = ground (arith, b fed)
strict-IsBounded t (move s d a c g) b fed = ground (arith, b fed)
strict-IsBounded t (evacuate s d a c g k) b fed = ground (arith, b fed)
strict-IsBounded t (pay s i a c h g) b fed = ground (arith, b fed)
strict-IsBounded t (receive d a c n g) b fed = ground (arith, b fed)
strict-IsBounded t (join f i m) b fed = b fed
strict-IsBounded t (recover f i) b fed = b fed
strict-IsBounded t (refuse_inflow f q d) b fed = b fed

module _ {r t : Reservations} (w : IsWeaker r t) where
  pub strict-IsWeaker :
      (action : Action) → IsWeaker (project_strict_action r action) (project_strict_action t action)
  unfolding project_strict_action
  strict-IsWeaker (direct_inflow d a c) = add_inbound-IsWeaker w d a a (omega arith)
  strict-IsWeaker (move s d a c g) = add_move-IsWeaker w s d a c a c (omega arith) (omega arith)
  strict-IsWeaker (evacuate s d a c g k) =
      add_move-IsWeaker w s d a c a c (omega arith) (omega arith)
  strict-IsWeaker (pay s i a c h g) = add_outbound-IsWeaker w s _ _ (omega arith)
  strict-IsWeaker (receive d a c n g) = add_inbound-IsWeaker w d a a (omega arith)
  strict-IsWeaker (join f i m) = w
  strict-IsWeaker (recover f i) = w
  strict-IsWeaker (refuse_inflow f q d) = w

  module _ (b : IsBounded t) where
    pub released-IsWeaker : (action : Action) → IsWeaker r (project_strict_action t action)
    unfolding project_strict_action outbound inbound target_credit
    released-IsWeaker (direct_inflow d a c) = record {
      out_le = λ fed. ground (arith, w.out_le fed);
      in_le = λ fed. ground (arith, w.in_le fed, b fed);
      credit_le = λ fed. ground (arith, w.credit_le fed);
    }
    released-IsWeaker (move s d a c g) = record {
      out_le = λ fed. ground (arith, w.out_le fed, b fed);
      in_le = λ fed. ground (arith, w.in_le fed, b fed);
      credit_le = λ fed. ground (arith, w.credit_le fed, b fed);
    }
    released-IsWeaker (evacuate s d a c g k) = record {
      out_le = λ fed. ground (arith, w.out_le fed, b fed);
      in_le = λ fed. ground (arith, w.in_le fed, b fed);
      credit_le = λ fed. ground (arith, w.credit_le fed, b fed);
    }
    released-IsWeaker (pay s i a c h g) = record {
      out_le = λ fed. ground (arith, w.out_le fed, b fed);
      in_le = λ fed. ground (arith, w.in_le fed);
      credit_le = λ fed. ground (arith, w.credit_le fed);
    }
    released-IsWeaker (receive d a c n g) = record {
      out_le = λ fed. ground (arith, w.out_le fed);
      in_le = λ fed. ground (arith, w.in_le fed, b fed);
      credit_le = λ fed. ground (arith, w.credit_le fed);
    }
    released-IsWeaker (join f i m) = w
    released-IsWeaker (recover f i) = w
    released-IsWeaker (refuse_inflow f q d) = w
