-- ===== src/Allocator/Decide/FundingTrace.antt =====
-- A funding goal is worked off in the steps of `Steps` (`fund_into`).
use fedimint_wallets.Prelude.{
  ℕ, ◌≤◌, ◌<◌, ◌≡◌, refl, ◌≢◌, inl, inr, Bool, true, false, not, ◌&&◌, ◌||◌, Option, some, none,
  arith, In, ltb, ◌==◌, min, Bool-cases, Option-cases, is_none, is_some, and_then, and_then-some,
  filter_option-some,
}
use fedimint_wallets.Types.Federation.{
  FederationId, FederationStatus, AllocatorSnapshot, Occurrence,
}
use fedimint_wallets.Types.Action.{
  is_executable, ReasonCode, AllocatorDecision, RefusalDiagnostics, over_cap, uneconomic_route,
}
use fedimint_wallets.Conflict.{GoalBlockers}
use fedimint_wallets.Allocator.Sizing.{max_fundable}
use fedimint_wallets.Allocator.Eligibility.{
  find_fed, usable_source, evacuation_reason, receive_blocker, cap_room_with,
}
use fedimint_wallets.Allocator.Evacuation.{source_available, gateway_of}
use fedimint_wallets.Allocator.Admission.{
  Pass, empty_pass, reservation_of, refuse_decision, suppression_refusal_or_ordinary,
}
use fedimint_wallets.Allocator.Funding.{
  Goal, FundKind, top_up, standby, kind_reason, is_self_fund, move_decision, route_of, floor_of,
  uneconomic, defer_funding, funded_amount, admit_move, refuse_if, fund_refusals, fund_sized,
  fund_into, refusal_figures, deferred_goal,
}
use fedimint_wallets.Allocator.Decide.{
  source_budget, fund_goal, funding_goal, fund_spending, fund_standby, decide_with_diagnostics,
}
use fedimint_wallets.Allocator.Eligibility.Choice.{find_fed-In}
use fedimint_wallets.Allocator.Decide.Trace.{visit_all-Steps}
use fedimint_wallets.Allocator.Decide.Steps.{Steps, Planned, refuse, defer, done, then_step, funds}
use fedimint_wallets.Allocator.Decide.Trace.{admission-Steps, Steps-trans}

pub max_fundable-le_budget : (budget bps : ℕ) → max_fundable budget bps ≤ budget
unfolding max_fundable
max_fundable-le_budget budget bps = grind arith

min_move-le-floor_of : (g : Goal) → g.snapshot.min_move ≤ floor_of g
unfolding floor_of
min_move-le-floor_of g = ground arith

-- A funded amount fits the shortfall, the cap room and the availability, and clears the floor.
funded_amount_bounds :
    (g : Goal) (p : Pass)
    → 0 < funded_amount g p
    → (funded_amount g p ≤ g.want)
      × (funded_amount g p ≤ cap_room_with g.snapshot g.dest p.credited)
      × (funded_amount g p ≤ g.available)
      × (floor_of g ≤ funded_amount g p)
unfolding funded_amount
funded_amount_bounds g p h = ground arith

-- What is known of the source of a funding goal.
abbrev pub SourceFacts : Goal → Pass → ℕ → FederationStatus → Type 0
SourceFacts g p kept source =
    In source g.snapshot.federations
    × (evacuation_reason source ≡ none)
    × (g.available
        ≡ max_fundable (source_budget g.snapshot kept p source) g.snapshot.max_fee_bps_of_move)

module _ (g : Goal) (p : Pass) (kept : ℕ) (known : In g.dest g.snapshot.federations)
    (stays : evacuation_reason g.dest ≡ none) (receivable : receive_blocker g.dest ≡ none) where
  move-Planned :
      (source : FederationStatus)
      → SourceFacts g p kept source
      → g.dest.id ≢ source.id
      → 0 < funded_amount g p
      → Planned g.snapshot p (
          move_decision g.kind source.id g.dest.id
            (funded_amount g p)
            g.snapshot
            g.occurrence
            (gateway_of (route_of g)))
  unfolding move_decision reservation_of source_budget source_available
  move-Planned source facts apart h =
      let bounds = funded_amount_bounds g p h in
      let budget =
        max_fundable-le_budget (source_budget g.snapshot kept p source)
          g.snapshot.max_fee_bps_of_move in
      record {
        source = source;
        dest = g.dest;
        amount = funded_amount g p;
        cap = _;
        source_known = facts.0;
        dest_known = known;
        moves = refl;
        distinct = apart;
        positive = h;
        room = bounds.1;
        affordable = omega (arith, bounds, budget, facts.2);
        receivable = receivable;
        stays = stays;
        kind =
            funds facts.1 refl refl (omega (arith, bounds, min_move-le-floor_of g)) kept
              (omega (arith, bounds, facts.2));
      }

  admit_move-Steps :
      (o : Option FederationStatus)
      → g.source ≡ o
      → ((source : FederationStatus) → g.source ≡ some source → SourceFacts g p kept source)
      → is_self_fund g ≡ false
      → Steps g.snapshot g.occurrence g.blocked p (admit_move g (funded_amount g p) p).0
  unfolding admit_move
  admit_move-Steps none e facts apart = rw (e, admit_move) done
  admit_move-Steps (some source) e facts apart = elim (Bool-cases (funded_amount g p == 0)) [
    | inl t ↦ rw (e, t, admit_move) done
    | inr f ↦
        rw (e, f, admit_move)
          (admission-Steps g.snapshot g.occurrence g.blocked p _
            (inr (move-Planned source (facts source e) (ground arith) (ground arith))))
  ]

refuse_decision-advisory :
    (fed : FederationId) (reason : ReasonCode) (o : Occurrence) (figures : RefusalDiagnostics)
    → is_executable (refuse_decision fed reason o figures).action ≡ false
unfolding refuse_decision is_executable
refuse_decision-advisory fed reason o figures = refl

-- The closing refusals move no money.
refuse_if-Steps :
    (g : Goal) (c : Bool) (candidate : Option AllocatorDecision) (figures : RefusalDiagnostics)
    (reason : ReasonCode) (p : Pass)
    → Steps g.snapshot g.occurrence g.blocked p (refuse_if c g candidate figures reason p)
unfolding suppression_refusal_or_ordinary is_executable
refuse_if-Steps g true candidate figures reason p = then_step done (refuse _ refl)
refuse_if-Steps g false candidate figures reason p = done

fund_refusals-Steps :
    (g : Goal) (cap_room amount : ℕ) (candidate : Option AllocatorDecision) (p : Pass)
    → Steps g.snapshot g.occurrence g.blocked p (fund_refusals g cap_room amount candidate p)
unfolding fund_refusals
fund_refusals-Steps g cap_room amount candidate p =
    let figures = refusal_figures g cap_room amount candidate in
    let over = refuse_if-Steps g (ltb cap_room g.want) candidate figures over_cap p in
    elim (Bool-cases (uneconomic g)) [
      | inl t ↦
          rw (t, fund_refusals)
            (Steps-trans over (refuse_if-Steps g true candidate figures uneconomic_route _))
      | inr f ↦
          rw (f, fund_refusals)
            (Steps-trans over (
              refuse_if-Steps g (is_some candidate || ltb amount (min g.want cap_room)) candidate
                figures (kind_reason g.kind) _))
    ]

-- Everything that one funding goal does is a sequence of steps.
pub fund_into-Steps :
    (g : Goal) (p : Pass) (kept : ℕ)
    → In g.dest g.snapshot.federations
    → evacuation_reason g.dest ≡ none
    → ((source : FederationStatus) → g.source ≡ some source → SourceFacts g p kept source)
    → Steps g.snapshot g.occurrence g.blocked p (fund_into g p)
unfolding fund_into fund_sized
fund_into-Steps g p kept known stays facts = elim (Option-cases (receive_blocker g.dest)) [
  | inr (blocker, e) ↦
      rw (e, fund_into) (then_step done (refuse _ (refuse_decision-advisory _ _ _ _)))
  | inl n ↦
      rw (n, fund_into)
        (elim (Bool-cases (is_self_fund g)) [
          | inl t ↦ rw t done
          | inr apart ↦
              rw apart (elim (Bool-cases (ltb g.want (floor_of g) && not (uneconomic g))) [
                | inl t ↦ rw t (
                    unfold defer_funding in then_step done (defer (deferred_goal g) (ground arith)))
                | inr f ↦ rw f (
                    Steps-trans (admit_move-Steps g p kept known stays n g.source refl facts apart)
                      (fund_refusals-Steps g _ _ _ _))
              ])
        ])
]

fund_goal-Steps :
    (g : Goal) (p : Pass) (kept : ℕ)
    → In g.dest g.snapshot.federations
    → ((source : FederationStatus) → g.source ≡ some source → SourceFacts g p kept source)
    → Steps g.snapshot g.occurrence g.blocked p (fund_goal g p)
unfolding fund_goal
fund_goal-Steps g p kept known facts =
    elim (Bool-cases (is_none (evacuation_reason g.dest) && ltb 0 g.want)) [
      | inl t ↦ rw t (fund_into-Steps g p kept known (ground arith) facts)
      | inr f ↦ rw f done
    ]

-- A usable source stands in the snapshot and is not evacuating.
usable_source-facts :
    (s : AllocatorSnapshot) (o : Option FederationId) (f : FederationStatus)
    → usable_source (and_then o (find_fed s)) ≡ some f
    → In f s.federations × (evacuation_reason f ≡ none)
unfolding usable_source
usable_source-facts s o f e =
    let (e', t) = filter_option-some _ (and_then o (find_fed s)) f e in
    let (id, _, e'') = and_then-some o (find_fed s) f e' in
    ((find_fed-In s id f e'').0, ground arith)

module _ (s : AllocatorSnapshot) (o : Occurrence) (b : GoalBlockers) (p : Pass) where
  funding_goal-Steps :
      (kind : FundKind) (kept target : ℕ) (dest : FederationStatus) (id : Option FederationId)
      → In dest s.federations
      → Steps s o b p (
          fund_goal
            (funding_goal s o b kind kept target dest (usable_source (and_then id (find_fed s))) p)
            p)
  unfolding funding_goal
  funding_goal-Steps kind kept target dest id known =
      fund_goal-Steps _ p kept known
        λ source e. let (m, stays) = usable_source-facts s id source e in (m, stays, rw e)

  fund_spending-Steps : Steps s o b p (fund_spending s o b p)
  unfolding fund_spending
  fund_spending-Steps = elim (Option-cases (and_then s.spending_fed (find_fed s))) [
    | inl n ↦ rw (n, fund_spending) done
    | inr (dest, e) ↦
        let (id, _, e') = and_then-some s.spending_fed (find_fed s) dest e in
        rw (e, fund_spending)
          (funding_goal-Steps top_up 0 s.target_spending_balance dest s.standby_fed
            (find_fed-In s id dest e').0)
  ]

  fund_standby-Steps : Steps s o b p (fund_standby s o b p)
  unfolding fund_standby
  fund_standby-Steps = elim (Option-cases (and_then s.standby_fed (find_fed s))) [
    | inl n ↦ rw (n, fund_standby) done
    | inr (dest, e) ↦
        let (id, _, e') = and_then-some s.standby_fed (find_fed s) dest e in
        rw (e, fund_standby)
          (funding_goal-Steps standby s.target_spending_balance s.standby_target dest s.spending_fed
            (find_fed-In s id dest e').0)
  ]

-- Every pass is a sequence of steps, from the empty pass.
pub decide-Steps :
    (s : AllocatorSnapshot) (o : Occurrence) (b : GoalBlockers)
    → Steps s o b empty_pass (decide_with_diagnostics s o b)
unfolding decide_with_diagnostics
decide-Steps s o b =
    Steps-trans (visit_all-Steps s o b s.federations empty_pass (λ f m. m))
      (Steps-trans (fund_spending-Steps s o b _) (fund_standby-Steps s o b _))
