-- ===== src/Allocator/Decide/Steps.antt =====
-- A pass of the allocator as a sequence of steps, each of which admits a planned decision, records
-- a refusal, or withholds one (`decide_with_diagnostics` of wallet-core/src/allocator.rs).
use fedimint_wallets.Prelude.{ℕ, ◌≤◌, ◌<◌, ◌≡◌, ◌≢◌, true, false, some, none, [], ◌∷◌, ◌++◌, In}
use fedimint_wallets.Types.Federation.{FederationStatus, AllocatorSnapshot, Occurrence, cap_at}
use fedimint_wallets.Types.Action.{is_executable, AllocatorDecision, agent}
use fedimint_wallets.Conflict.{GoalBlockers, blocks_decision}
use fedimint_wallets.Allocator.Sizing.{move_fee_cap, max_fundable}
use fedimint_wallets.Allocator.Eligibility.{evacuation_reason, receive_blocker, cap_room_with}
use fedimint_wallets.Allocator.Evacuation.{source_available, evac_fee_cap}
use fedimint_wallets.Allocator.Admission.{
  Pass, DeferredFunding, reservation_of, push_decision, push_and_reserve, record_decision,
}
use fedimint_wallets.Allocator.Admission.Books.{funding_fee}
use fedimint_wallets.Allocator.Decide.{source_budget}

-- What a move of `amount` under the fee cap `cap` is: the drain of a federation that must be left,
-- or the funding of another out of a budget that leaves `kept` behind.
pub data MoveKind (s : AllocatorSnapshot) (p : Pass) (source : FederationStatus)
    (d : AllocatorDecision) (amount cap : ℕ) : Type 0 where
  drains :
      evacuation_reason source ≡ some d.reason
      → funding_fee d.action ≡ 0
      → cap ≡ cap_at (evac_fee_cap s) amount
      → MoveKind s p source d amount cap
  funds :
      evacuation_reason source ≡ none
      → funding_fee d.action ≡ cap
      → cap ≡ move_fee_cap amount s.max_fee_bps_of_move
      → s.min_move ≤ amount
      → (kept : ℕ) → amount ≤ max_fundable (source_budget s kept p source) s.max_fee_bps_of_move
      → MoveKind s p source d amount cap

-- A money move that is planned against the state `p` of the pass.
pub record Planned (s : AllocatorSnapshot) (p : Pass) (d : AllocatorDecision) : Type 0 where
  pub source : FederationStatus
  pub dest : FederationStatus
  pub amount : ℕ
  pub cap : ℕ
  pub source_known : In source s.federations
  pub dest_known : In dest s.federations
  pub moves : reservation_of d.action ≡ some (source.id, dest.id, amount, cap)
  pub distinct : dest.id ≢ source.id
  pub positive : 0 < amount
  pub room : amount ≤ cap_room_with s dest p.credited
  pub affordable : amount ≤ source_available s source p.debited
  pub receivable : receive_blocker dest ≡ none
  pub stays : evacuation_reason dest ≡ none
  pub kind : MoveKind s p source d amount cap

pub data Step (s : AllocatorSnapshot) (o : Occurrence) (b : GoalBlockers) (p : Pass)
    : Pass → Type 0 where
  refuse :
      (d : AllocatorDecision) → is_executable d.action ≡ false → Step s o b p (record_decision p d)
  suppress :
      (d : AllocatorDecision)
      → blocks_decision b d (agent o) ≡ true
      → Step s o b p (record p { suppressed = (push_decision p.suppressed d).0 })
  defer :
      (x : DeferredFunding)
      → x.want < x.floor
      → Step s o b p (record p { deferred = p.deferred ++ (x ∷ []) })
  admit :
      (d : AllocatorDecision)
      → blocks_decision b d (agent o) ≡ false
      → Planned s p d
      → Step s o b p (push_and_reserve p d).0

pub data Steps (s : AllocatorSnapshot) (o : Occurrence) (b : GoalBlockers) (p : Pass)
    : Pass → Type 0 where
  done : Steps s o b p p
  then_step : {q r : Pass} → Steps s o b p q → Step s o b q r → Steps s o b p r
