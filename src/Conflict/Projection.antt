-- ===== src/Conflict/Projection.antt =====
-- The sets of held goals, seen through the decisions that they withhold (`from_intents`,
-- `hold_decision`, `extend`, `excluding_key`).
use Prim.Native.Nat.{Ordering}
use fedimint_wallets.Prelude.{
  ◌≡◌, refl, ◌∙◌, ap, Bool, true, false, ◌&&◌, ◌||◌, Option, some, none, List, [], ◌∷◌, arith, any,
  filter, if◌then◌else◌,
}
use fedimint_wallets.Prelude.Sets.{any-insert, text_cmp_sound}
use fedimint_wallets.Types.Action.{Action, Actor, AllocatorDecision, IdempotencyKey}
use fedimint_wallets.Intent.{Intent}
use fedimint_wallets.Conflict.{
  AllocatorGoal, fund_into, drain, goal_cmp, goal_of_intent, Holder, holder_cmp, GoalBlockers,
  no_blockers, hold_goal, record_holder_source, is_live, hold_intents, from_intents,
  blocks_decision,
}
use fedimint_wallets.Conflict.Suppression.{withholds, blocks_decision-any}

goal_cmp_sound : (g h : AllocatorGoal) → goal_cmp g h ≡ Ordering.eq → g ≡ h
unfolding goal_cmp
goal_cmp_sound (fund_into a) (fund_into b) e = ground arith
goal_cmp_sound (fund_into a) (drain b) e = ground arith
goal_cmp_sound (drain a) (fund_into b) e = ground arith
goal_cmp_sound (drain a) (drain b) e = ground arith

holder_cmp_sound : (x y : Holder) → holder_cmp x y ≡ Ordering.eq → x ≡ y
holder_cmp_sound (g, k) (h, l) e = ground (arith, goal_cmp_sound g h, text_cmp_sound k l)

-- Whether work on a goal under a key withholds a decision.
abbrev pub goal_withholds : Option AllocatorGoal → IdempotencyKey → AllocatorDecision → Actor → Bool
goal_withholds none key d actor = false
goal_withholds (some g) key d actor = withholds d actor (g, key)

-- Where a holder's source is recorded changes no holder.
holders-record_holder_source :
    (b : GoalBlockers) (g : AllocatorGoal) (key : IdempotencyKey) (action : Action)
    → (record_holder_source b g key action).holders ≡ b.holders
unfolding record_holder_source
holders-record_holder_source b g key action = ground arith

blocks-hold_goal :
    (b : GoalBlockers) (o : Option AllocatorGoal) (key : IdempotencyKey) (action : Action)
    (d : AllocatorDecision) (actor : Actor)
    → blocks_decision (hold_goal b o key action) d actor
      ≡ (goal_withholds o key d actor || blocks_decision b d actor)
unfolding hold_goal
blocks-hold_goal b none key action d actor = refl
blocks-hold_goal b (some g) key action d actor =
    rw
      (
        blocks_decision-any _ d actor,
        holders-record_holder_source _ g key action,
        blocks_decision-any b d actor,
      )
      (any-insert holder_cmp holder_cmp_sound (withholds d actor) (g, key) b.holders)

-- Whether one durable intent withholds a decision.
abbrev pub intent_withholds : AllocatorDecision → Actor → Intent → Bool
intent_withholds d actor i =
    is_live i.status && goal_withholds (goal_of_intent i) i.idempotency_key d actor

blocks-hold_if :
    (c : Bool) (b : GoalBlockers) (o : Option AllocatorGoal) (key : IdempotencyKey)
    (action : Action) (d : AllocatorDecision) (actor : Actor)
    → blocks_decision (if c then hold_goal b o key action else b) d actor
      ≡ ((c && goal_withholds o key d actor) || blocks_decision b d actor)
blocks-hold_if true b o key action d actor = blocks-hold_goal b o key action d actor
blocks-hold_if false b o key action d actor = refl

or_swap : (a b c : Bool) → (a || (b || c)) ≡ ((b || a) || c)
or_swap a b c = ground arith

blocks-hold_intents :
    (b : GoalBlockers) (is : List Intent) (d : AllocatorDecision) (actor : Actor)
    → blocks_decision (hold_intents b is) d actor
      ≡ (any (intent_withholds d actor) is || blocks_decision b d actor)
unfolding hold_intents any
blocks-hold_intents b [] d actor = refl
blocks-hold_intents b (i ∷ is) d actor =
    blocks-hold_intents
      (if is_live i.status then hold_goal b (goal_of_intent i) i.idempotency_key i.action else b) is
      d actor
    ∙ ap (◌||◌ (any (intent_withholds d actor) is))
        (blocks-hold_if (is_live i.status) b (goal_of_intent i) i.idempotency_key i.action d actor)
    ∙ or_swap (any (intent_withholds d actor) is) (intent_withholds d actor i)
        (blocks_decision b d actor)

-- The projection of a scan withholds a decision exactly when some intent of the scan does that is
-- neither done nor failed, pursues a conflicting goal, and has another key.
pub blocks-from_intents :
    (is : List Intent) (d : AllocatorDecision) (actor : Actor)
    → blocks_decision (from_intents is) d actor ≡ any (intent_withholds d actor) is
unfolding from_intents no_blockers any
blocks-from_intents is d actor =
    blocks-hold_intents no_blockers is d actor
    ∙ ground (arith, blocks_decision-any no_blockers d actor)

any-filter-and :
    {A : Type 0} (p q : A → Bool) (xs : List A) → any p (filter q xs) ≡ any (λ x. q x && p x) xs
unfolding any filter
any-filter-and p q [] = refl
any-filter-and p q (x ∷ xs) = ground (arith, any-filter-and p q xs)
