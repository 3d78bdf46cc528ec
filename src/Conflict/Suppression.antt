-- ===== src/Conflict/Suppression.antt =====
-- Which decisions a set of held goals withholds (`blocks_decision`, `conflicts_with`).
use fedimint_wallets.Prelude.{
  ℕ, ◌≡◌, refl, sym, ◌∙◌, Bool, true, false, not, ◌&&◌, Option, some, none, List, [], ◌∷◌, arith,
  any, find, is_some, map_or, text_eq,
}
use fedimint_wallets.Types.Federation.{FederationId, Msat, GatewayUrl, EvacFeeCap}
use fedimint_wallets.Types.Action.{
  Action, move, evacuate, Actor, agent, AllocatorDecision, IdempotencyKey,
}
use fedimint_wallets.Conflict.{
  AllocatorGoal, drain, goal_eq, goal_of_decision, conflicts_with, conflicts_with_decision,
  conflicts_with_funding_pair, Holder, GoalBlockers, blocks, first_conflict, any_vouches, vouches,
  blocks_decision, blocks_funding_pair, is_funding_reason,
}

find-any : {A : Type 0} (p : A → Bool) (xs : List A) → is_some (find p xs) ≡ any p xs
unfolding find any
find-any p [] = refl
find-any p (x ∷ xs) = ground (arith, find-any p xs)

pub any-cong :
    {A : Type 0} (p q : A → Bool) (xs : List A) → ((x : A) → p x ≡ q x) → any p xs ≡ any q xs
unfolding any
any-cong p q [] h = refl
any-cong p q (x ∷ xs) h = ground (arith, any-cong p q xs h, h x)

any_mono :
    {A : Type 0} (p q : A → Bool) (xs : List A)
    → ((x : A) → p x ≡ true → q x ≡ true)
    → any p xs ≡ true
    → any q xs ≡ true
unfolding any
any_mono p q [] h t = t
any_mono p q (x ∷ xs) h t = ground (arith, any_mono p q xs h, h x)

any-false : {A : Type 0} (xs : List A) → any (λ x. false) xs ≡ false
unfolding any
any-false [] = refl
any-false (x ∷ xs) = any-false xs

-- Whether one holder withholds a decision.
abbrev pub withholds : AllocatorDecision → Actor → Holder → Bool
withholds d actor h = not (text_eq h.1 d.idempotency_key) && conflicts_with_decision h.0 d actor

first_conflict-any :
    (o : Option AllocatorGoal) (key : IdempotencyKey) (action : Action) (holders : List Holder)
    → is_some (first_conflict o key action holders)
      ≡ any
          (λ h. not (text_eq h.1 key) && map_or false (λ c. conflicts_with h.0 c action) o)
          holders
unfolding first_conflict
first_conflict-any none key action holders =
    sym (any-cong _ (λ h. false) holders (λ h. ground arith) ∙ any-false holders)
first_conflict-any (some g) key action holders =
    ground (arith, find-any (blocks g key action) holders)

-- A decision is withheld exactly when some holder under another key conflicts with it.
pub blocks_decision-any :
    (b : GoalBlockers) (d : AllocatorDecision) (actor : Actor)
    → blocks_decision b d actor ≡ any (withholds d actor) b.holders
unfolding blocks_decision conflicts_with_decision
blocks_decision-any b d actor =
    first_conflict-any (goal_of_decision d actor) d.idempotency_key d.action b.holders

-- An agent's evacuation out of `s`, and its funding move from `s` to `d`.
abbrev pub IsEvacuationFrom : FederationId → AllocatorDecision → Type 0
IsEvacuationFrom s x =
    (dest : FederationId) × (amount cap : Msat) × (g : Option GatewayUrl) × (k : Option EvacFeeCap)
    × (x.action ≡ evacuate s dest amount cap g k)

abbrev pub IsFundingOf : FederationId → FederationId → AllocatorDecision → Type 0
IsFundingOf s d x =
    (amount cap : Msat) × (g : Option GatewayUrl) × (x.action ≡ move s d amount cap g)
    × (is_funding_reason x.reason ≡ true)

withholds-evacuation :
    (s o : ℕ) (x : AllocatorDecision) (h : Holder)
    → IsEvacuationFrom s x
    → withholds x (agent o) h ≡ (not (text_eq h.1 x.idempotency_key) && goal_eq h.0 (drain s))
unfolding conflicts_with_decision conflicts_with goal_of_decision goal_eq
withholds-evacuation s o x h e = ground arith

withholds-funding :
    (s d o : ℕ) (x : AllocatorDecision) (h : Holder)
    → IsFundingOf s d x
    → withholds x (agent o) h
      ≡ (not (text_eq h.1 x.idempotency_key) && conflicts_with_funding_pair h.0 s d)
unfolding conflicts_with_decision conflicts_with goal_of_decision goal_eq
    conflicts_with_funding_pair
withholds-funding s d o x h e = ground arith

-- An agent's evacuation is withheld exactly when another key already holds the drain of the same
-- source: no funding goal, and no other federation's drain, ever holds one back.
pub blocks-evacuation :
    (b : GoalBlockers) (s o : ℕ) (x : AllocatorDecision)
    → IsEvacuationFrom s x
    → blocks_decision b x (agent o)
      ≡ any (λ h. not (text_eq h.1 x.idempotency_key) && goal_eq h.0 (drain s)) b.holders
blocks-evacuation b s o x e =
    blocks_decision-any b x (agent o)
    ∙ any-cong (withholds x (agent o)) _ b.holders (λ h. withholds-evacuation s o x h e)

blocks-funding :
    (b : GoalBlockers) (s d o : ℕ) (x : AllocatorDecision)
    → IsFundingOf s d x
    → blocks_decision b x (agent o)
      ≡ any
          (λ h. not (text_eq h.1 x.idempotency_key) && conflicts_with_funding_pair h.0 s d)
          b.holders
blocks-funding b s d o x e =
    blocks_decision-any b x (agent o)
    ∙ any-cong (withholds x (agent o)) _ b.holders (λ h. withholds-funding s d o x h e)

-- Route pricing is conservative: every funding move that admission withholds has a pair that
-- pricing had blocked before the move was sized.
pub blocks_funding_pair_covers :
    (b : GoalBlockers) (s d o : ℕ) (x : AllocatorDecision)
    → IsFundingOf s d x
    → blocks_decision b x (agent o) ≡ true
    → blocks_funding_pair b s d ≡ true
unfolding blocks_funding_pair
blocks_funding_pair_covers b s d o x e t =
    any_mono (λ h. not (text_eq h.1 x.idempotency_key) && conflicts_with_funding_pair h.0 s d) _
      b.holders (λ h u. ground arith) (sym (blocks-funding b s d o x e) ∙ t)

vouched-blocks :
    (o : Option AllocatorGoal) (b : GoalBlockers) (key : IdempotencyKey) (action : Action)
    (source : FederationId)
    → any_vouches o b key action source ≡ true
    → is_some (first_conflict o key action b.holders) ≡ true
unfolding any_vouches first_conflict
vouched-blocks none b key action source t = ground arith
vouched-blocks (some g) b key action source t =
    let blocked =
      any_mono (vouches b.holder_sources key action source g) (blocks g key action) b.holders
        (λ h u. ground arith) t in
    ground (arith, find-any (blocks g key action) b.holders)
