-- ===== src/Conflict.antt =====
-- The conflict model of the allocator's work (wallet-core/src/conflict.rs): the logical goal of a
-- decision, and the goals that durable work already holds.
pub mod Suppression
pub mod Projection
use Prim.Native.Nat.{Ordering, compare}
use fedimint_wallets.Prelude.{
  ℕ, ◌≡◌, refl, Bool, true, false, not, ◌&&◌, ◌||◌, Option, some, none, List, [], ◌∷◌, arith, any,
  find, filter, text_eq, is_some, map_or, ◌==◌, if◌then◌else◌, length, map,
}
use fedimint_wallets.Prelude.Sets.{insert, union, text_cmp, text_cmp_sound, then_cmp}
use fedimint_wallets.Types.Federation.{FederationId}
use fedimint_wallets.Types.Action.{
  Action, direct_inflow, move, evacuate, pay, receive, join, recover, refuse_inflow, Actor, user,
  agent, ReasonCode, spending_below_target, standby_below_target, IdempotencyKey, AllocatorDecision,
}
use fedimint_wallets.Intent.{Intent, IntentStatus}

pub data AllocatorGoal : Type 0 where
  fund_into : (destination : FederationId) → AllocatorGoal
  drain : (source : FederationId) → AllocatorGoal

-- The derived order and equality of goals: `FundInto` stands before `Evacuate`.
unfoldable pub goal_cmp : AllocatorGoal → AllocatorGoal → Ordering
goal_cmp (fund_into a) (fund_into b) = compare a b
goal_cmp (fund_into a) (drain b) = Ordering.lt
goal_cmp (drain a) (fund_into b) = Ordering.gt
goal_cmp (drain a) (drain b) = compare a b

unfoldable pub goal_eq : AllocatorGoal → AllocatorGoal → Bool
goal_eq (fund_into a) (fund_into b) = a == b
goal_eq (drain a) (drain b) = a == b
goal_eq _ _ = false

abbrev pub is_agent : Actor → Bool
is_agent user = false
is_agent (agent o) = true

-- The reasons under which a move is a funding move.
abbrev pub is_funding_reason : ReasonCode → Bool
is_funding_reason spending_below_target = true
is_funding_reason standby_below_target = true
is_funding_reason _ = false

goal_of_action : Action → ReasonCode → Option AllocatorGoal
goal_of_action (move s d a c g) reason =
    if is_funding_reason reason then some (fund_into d) else none
goal_of_action (evacuate s d a c g k) reason = some (drain s)
goal_of_action (direct_inflow d a c) reason = none
goal_of_action (pay s i a c h g) reason = none
goal_of_action (receive d a c n g) reason = none
goal_of_action (join f i m) reason = none
goal_of_action (recover f i) reason = none
goal_of_action (refuse_inflow f r d) reason = none

-- `AllocatorGoal::of`, `of_intent` and `of_decision`.
unfoldable pub goal_of : Action → ReasonCode → Actor → Option AllocatorGoal
unfolding goal_of_action
goal_of action reason actor = if not (is_agent actor) then none else goal_of_action action reason

unfoldable pub goal_of_intent : Intent → Option AllocatorGoal
unfolding goal_of
goal_of_intent i = goal_of i.action i.reason i.actor

unfoldable pub goal_of_decision : AllocatorDecision → Actor → Option AllocatorGoal
unfolding goal_of
goal_of_decision d actor = goal_of d.action d.reason actor

unfoldable pub funding_move_touches : Action → FederationId → Bool
funding_move_touches (move s d a c g) federation = s == federation || d == federation
funding_move_touches _ _ = false

held_source_touched : AllocatorGoal → Action → Bool
unfolding funding_move_touches
held_source_touched (fund_into d) action = false
held_source_touched (drain s) action = funding_move_touches action s

-- `conflicts_with`: the held goal comes first.
unfoldable pub conflicts_with : AllocatorGoal → AllocatorGoal → Action → Bool
unfolding goal_eq held_source_touched
conflicts_with held candidate action = goal_eq held candidate || held_source_touched held action

unfoldable pub conflicts_with_decision : AllocatorGoal → AllocatorDecision → Actor → Bool
unfolding conflicts_with goal_of_decision
conflicts_with_decision held d actor =
    map_or false (λ candidate. conflicts_with held candidate d.action) (goal_of_decision d actor)

unfoldable pub conflicts_with_funding_pair : AllocatorGoal → FederationId → FederationId → Bool
conflicts_with_funding_pair (fund_into held) source destination = held == destination
conflicts_with_funding_pair (drain held) source destination = held == source || held == destination

abbrev pub Holder : Type 0
Holder = AllocatorGoal × IdempotencyKey

abbrev pub HolderSource : Type 0
HolderSource = AllocatorGoal × IdempotencyKey × FederationId

abbrev pub holder_cmp : Holder → Holder → Ordering
holder_cmp (g, k) (h, l) = then_cmp (goal_cmp g h) (text_cmp k l)

abbrev pub holder_source_cmp : HolderSource → HolderSource → Ordering
holder_source_cmp (g, k, s) (h, l, t) =
    then_cmp (goal_cmp g h) (then_cmp (text_cmp k l) (compare s t))

pub record GoalBlockers : Type 0 where
  pub holders : List Holder
  pub holder_sources : List HolderSource

unfoldable pub no_blockers : GoalBlockers
no_blockers = record { holders = []; holder_sources = [] }

unfoldable pub excluding_key : GoalBlockers → IdempotencyKey → GoalBlockers
excluding_key b key = record {
  holders = filter (λ h. not (text_eq h.1 key)) b.holders;
  holder_sources = filter (λ h. not (text_eq h.1 key)) b.holder_sources;
}

unfoldable pub extend : GoalBlockers → GoalBlockers → GoalBlockers
extend b other = record {
  holders = union holder_cmp b.holders other.holders;
  holder_sources = union holder_source_cmp b.holder_sources other.holder_sources;
}

record_holder_source : GoalBlockers → AllocatorGoal → IdempotencyKey → Action → GoalBlockers
record_holder_source b goal key (move s d a c g) = record b {
  holder_sources = insert holder_source_cmp (goal, key, s) b.holder_sources;
}
record_holder_source b goal key (evacuate s d a c g k) = record b {
  holder_sources = insert holder_source_cmp (goal, key, s) b.holder_sources;
}
record_holder_source b goal key _ = b

hold_goal : GoalBlockers → Option AllocatorGoal → IdempotencyKey → Action → GoalBlockers
unfolding record_holder_source
hold_goal b none key action = b
hold_goal b (some goal) key action =
    record_holder_source (record b { holders = insert holder_cmp (goal, key) b.holders }) goal key
      action

abbrev pub is_live : IntentStatus → Bool
is_live IntentStatus.done = false
is_live IntentStatus.failed = false
is_live _ = true

-- The loop of `from_intents`, whose accumulator is the set so far.
unfoldable pub hold_intents : GoalBlockers → List Intent → GoalBlockers
unfolding hold_goal
hold_intents b [] = b
hold_intents b (i ∷ is) =
    hold_intents
      (if is_live i.status then hold_goal b (goal_of_intent i) i.idempotency_key i.action else b) is

unfoldable pub from_intents : List Intent → GoalBlockers
unfolding hold_intents no_blockers
from_intents is = hold_intents no_blockers is

unfoldable pub hold_decision : GoalBlockers → AllocatorDecision → Actor → GoalBlockers
unfolding hold_goal
hold_decision b d actor = hold_goal b (goal_of_decision d actor) d.idempotency_key d.action

-- The test of `blocking_holder` on one holder.
abbrev pub blocks : AllocatorGoal → IdempotencyKey → Action → Holder → Bool
blocks candidate key action (held, holder) =
    not (text_eq holder key) && conflicts_with held candidate action

-- `blocking_holder`, once the candidate goal is known.
unfoldable pub first_conflict :
    Option AllocatorGoal → IdempotencyKey → Action → List Holder → Option IdempotencyKey
first_conflict none key action holders = none
first_conflict (some candidate) key action holders =
    elim (find (blocks candidate key action) holders) [ none ↦ none | some h ↦ some h.1 ]

unfoldable pub blocking_holder : GoalBlockers → AllocatorDecision → Actor → Option IdempotencyKey
unfolding first_conflict
blocking_holder b d actor =
    first_conflict (goal_of_decision d actor) d.idempotency_key d.action b.holders

unfoldable pub blocks_decision : GoalBlockers → AllocatorDecision → Actor → Bool
unfolding blocking_holder
blocks_decision b d actor = is_some (blocking_holder b d actor)

unfoldable pub holds_goal_from : GoalBlockers → AllocatorGoal → FederationId → Bool
holds_goal_from b goal source = any (λ h. goal_eq h.0 goal && h.2 == source) b.holder_sources

-- The test of `has_blocking_holder_from` on one holder.
abbrev pub vouches :
    List HolderSource → IdempotencyKey → Action → FederationId → AllocatorGoal → Holder → Bool
vouches sources key action current_source candidate h =
    blocks candidate key action h
    && any (λ e. goal_eq e.0 h.0 && (text_eq e.1 h.1 && e.2 == current_source)) sources

unfoldable pub any_vouches :
    Option AllocatorGoal → GoalBlockers → IdempotencyKey → Action → FederationId → Bool
any_vouches none b key action current_source = false
any_vouches (some candidate) b key action current_source =
    any (vouches b.holder_sources key action current_source candidate) b.holders

unfoldable pub has_blocking_holder_from :
    GoalBlockers → AllocatorDecision → Actor → FederationId → Bool
unfolding any_vouches
has_blocking_holder_from b d actor current_source =
    any_vouches (goal_of_decision d actor) b d.idempotency_key d.action current_source

unfoldable pub blocks_funding_pair : GoalBlockers → FederationId → FederationId → Bool
blocks_funding_pair b source destination =
    any (λ h. conflicts_with_funding_pair h.0 source destination) b.holders

unfoldable pub holder_of : GoalBlockers → AllocatorGoal → Option IdempotencyKey
holder_of b goal = elim (find (λ h. goal_eq h.0 goal) b.holders) [ none ↦ none | some h ↦ some h.1 ]

unfoldable pub blockers_is_empty : GoalBlockers → Bool
blockers_is_empty b = elim b.holders [ [] ↦ true | h ∷ hs ↦ false ]

unfoldable pub blockers_len : GoalBlockers → ℕ
blockers_len b = length b.holders
