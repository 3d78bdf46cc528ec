-- ===== src/Route/Choice.antt =====
-- The gateway that a pair is priced with.
use fedimint_wallets.Prelude.{
  ℕ, ◌≤◌, ◌≡◌, refl, ap, sym, ◌∙◌, subst, Option, some, none, List, [], ◌∷◌, In, leb, leb→le,
  Bool-cases, map_or, ◌⊎◌, inl, inr, arith,
}
use fedimint_wallets.Types.Federation.{Msat, RouteEconomics, routable}
use fedimint_wallets.Route.{
  FloorEstimate, routable_from, never_economic, indeterminate, min_viable_amount, modelled_fee,
  GatewayQuotes, Priced, Candidates, cheaper, cheapest, quotes_of, sort_candidate, sort_candidates,
  route_of_candidates, uneconomic_route, select_gateway,
}

-- A least one of a list, or nothing of an empty list.
abbrev IsLeast : List Priced → Option Priced → Type 0
IsLeast ps none = ps ≡ []
IsLeast ps (some b) = In b ps × ((p : Priced) → In p ps → b.cost ≤ p.cost)

cheaper-IsLeast :
    (x : Priced) (xs : List Priced) (o : Option Priced)
    → IsLeast xs o
    → IsLeast (x ∷ xs) (some (cheaper x o))
unfolding cheaper
cheaper-IsLeast x xs none empty = (
  inl refl,
  λ p at. elim at [
    | inl same ↦ omega (arith, ap (λ (y : Priced). y.cost) same)
    | inr later ↦ absurd (subst (λ (l : List Priced). In p l) empty later)
  ],
)
cheaper-IsLeast x xs (some best) (there, least) = elim (Bool-cases (leb x.cost best.cost)) [
  | inl first ↦
      rw (first, cheaper)
        (
          inl refl,
          λ p at. elim at [
            | inl same ↦ omega (arith, ap (λ (y : Priced). y.cost) same)
            | inr later ↦ omega (arith, least p later, leb→le x.cost best.cost first)
          ],
        )
  | inr other ↦
      let pick : cheaper x (some best) ≡ best = rw (other, cheaper) refl in
      let more : best.cost ≤ x.cost = ground arith in
      subst (λ (b : Priced). IsLeast (x ∷ xs) (some b)) (sym pick)
        (
          inr there,
          λ p at. elim at [
            | inl same ↦ omega (arith, more, ap (λ (y : Priced). y.cost) same)
            | inr later ↦ least p later
          ],
        )
]

cheapest-IsLeast : (ps : List Priced) → IsLeast ps (cheapest ps)
unfolding cheapest
cheapest-IsLeast [] = refl
cheapest-IsLeast (x ∷ xs) = cheaper-IsLeast x xs (cheapest xs) (cheapest-IsLeast xs)

not_routable :
    (o : Option Priced) (e : RouteEconomics) → uneconomic_route o ≡ some e → e.status ≡ routable → ⊥
unfolding uneconomic_route
not_routable none e is ok = cc
not_routable (some p) e is ok =
    let same = ap (λ (o : Option RouteEconomics). map_or routable (λ x. x.status) o) is in cc

module _ (minimum recv_fed send_fed reference : Msat) (bps : ℕ) where
  abbrev pub estimate : GatewayQuotes → FloorEstimate
  estimate g = min_viable_amount minimum (quotes_of minimum recv_fed send_fed reference bps g) bps

  abbrev pub cost_of : GatewayQuotes → ℕ
  cost_of g = modelled_fee reference (quotes_of minimum recv_fed send_fed reference bps g)

  abbrev sorted_of : List GatewayQuotes → Candidates
  sorted_of gs = sort_candidates minimum recv_fed send_fed reference bps gs

  -- A kept candidate is one of those given, with its floor and cost.
  abbrev IsOf : List GatewayQuotes → Priced → Type 0
  IsOf gs p =
      (g : GatewayQuotes) × In g gs
      × (estimate g ≡ routable_from p.floor)
      × (p.gateway ≡ g.gateway)
      × (p.cost ≡ cost_of g)

  sort_candidate-IsOf :
      (g : GatewayQuotes) (gs : List GatewayQuotes) (v : FloorEstimate) (p : Priced)
      → estimate g ≡ v
      → ((r : Priced) → In r (sorted_of gs).routable_ones → IsOf gs r)
      → In p
          (sort_candidate minimum recv_fed send_fed reference bps v g (sorted_of gs)).routable_ones
      → IsOf (g ∷ gs) p
  unfolding sort_candidate
  sort_candidate-IsOf g gs (routable_from floor) p e all (inl same) = (
    g,
    inl refl,
    e ∙ ap (λ (y : Priced). routable_from y.floor) (sym same),
    ap (λ (y : Priced). y.gateway) same,
    ap (λ (y : Priced). y.cost) same,
  )
  sort_candidate-IsOf g gs (routable_from floor) p e all (inr later) =
      let (h, at, a, b, c) = all p later in (h, inr at, a, b, c)
  sort_candidate-IsOf g gs never_economic p e all later =
      let (h, at, a, b, c) = all p later in (h, inr at, a, b, c)
  sort_candidate-IsOf g gs indeterminate p e all later =
      let (h, at, a, b, c) = all p later in (h, inr at, a, b, c)

  kept-IsOf : (gs : List GatewayQuotes) (p : Priced) → In p (sorted_of gs).routable_ones → IsOf gs p
  unfolding sort_candidates
  kept-IsOf [] p at = absurd at
  kept-IsOf (g ∷ gs) p at =
      sort_candidate-IsOf g gs (estimate g) p refl (λ r there. kept-IsOf gs r there) at

  -- And every routable candidate is kept.
  sort_candidate-keeps :
      (g h : GatewayQuotes) (gs : List GatewayQuotes) (v : FloorEstimate) (floor : Msat)
      → estimate g ≡ v
      → estimate h ≡ routable_from floor
      → (h ≡ g) ⊎ ((p : Priced) × In p (sorted_of gs).routable_ones × (p.cost ≡ cost_of h))
      → (p : Priced) × In p
          (sort_candidate minimum recv_fed send_fed reference bps v g (sorted_of gs)).routable_ones
        × (p.cost ≡ cost_of h)
  unfolding sort_candidate
  sort_candidate-keeps g h gs (routable_from f) floor e k (inl same) =
      (_, inl refl, ap cost_of (sym same))
  sort_candidate-keeps g h gs (routable_from f) floor e k (inr (p, at, cost)) = (p, inr at, cost)
  sort_candidate-keeps g h gs never_economic floor e k (inl same) =
      absurd (let no = sym e ∙ ap estimate (sym same) ∙ k in cc)
  sort_candidate-keeps g h gs never_economic floor e k (inr there) = there
  sort_candidate-keeps g h gs indeterminate floor e k (inl same) =
      absurd (let no = sym e ∙ ap estimate (sym same) ∙ k in cc)
  sort_candidate-keeps g h gs indeterminate floor e k (inr there) = there

  routable_kept :
      (gs : List GatewayQuotes) (h : GatewayQuotes) (floor : Msat)
      → In h gs
      → estimate h ≡ routable_from floor
      → (p : Priced) × In p (sorted_of gs).routable_ones × (p.cost ≡ cost_of h)
  unfolding sort_candidates
  routable_kept [] h floor at k = absurd at
  routable_kept (g ∷ gs) h floor (inl same) k =
      sort_candidate-keeps g h gs (estimate g) floor refl k (inl same)
  routable_kept (g ∷ gs) h floor (inr later) k =
      sort_candidate-keeps g h gs (estimate g) floor refl k (inr (routable_kept gs h floor later k))

  -- A routable choice is one of the candidates with its floor, and costs no more than any candidate
  -- that is routable.
  abbrev pub IsChosen : List GatewayQuotes → RouteEconomics → Type 0
  IsChosen gs e =
      (g : GatewayQuotes) × In g gs
      × (estimate g ≡ routable_from e.min_viable_amount)
      × (e.resolved_gateway ≡ some g.gateway)
      × ((h : GatewayQuotes) (floor : Msat)
          → In h gs
          → estimate h ≡ routable_from floor
          → cost_of g ≤ cost_of h)

  least-IsChosen :
      (gs : List GatewayQuotes) (o : Option Priced) (e : RouteEconomics)
      → IsLeast (sorted_of gs).routable_ones o
      → route_of_candidates o (sorted_of gs) ≡ some e
      → e.status ≡ routable
      → IsChosen gs e
  unfolding route_of_candidates uneconomic_route
  least-IsChosen gs (some b) e (at, least) is ok =
      let (g, there, floor, gateway, cost) = kept-IsOf gs b at in
      let same : record {
        resolved_gateway = some b.gateway;
        min_viable_amount = b.floor;
        status = routable;
      }
          ≡ e =
        (cc) in
      subst (λ (y : RouteEconomics). IsChosen gs y) same
        (
          g,
          there,
          floor,
          ap some gateway,
          λ h f here k.
              let (p, kept, cost') = routable_kept gs h f here k in
              omega (arith, least p kept, cost, cost'),
        )
  least-IsChosen gs none e empty is ok = elim (Bool-cases (sorted_of gs).some_indeterminate) [
    | inl unsure ↦ absurd (let no = rw unsure at is in cc)
    | inr sure ↦
        absurd (not_routable (cheapest (sorted_of gs).uneconomic_ones) e (rw sure at is) ok)
  ]

  -- A pair that is priced as routable is priced with the gateway of a candidate and that candidate's
  -- floor, and no routable candidate costs less at the reference amount.
  pub select_gateway-IsChosen :
      (gs : List GatewayQuotes) (e : RouteEconomics)
      → select_gateway minimum gs recv_fed send_fed reference bps ≡ some e
      → e.status ≡ routable
      → IsChosen gs e
  unfolding select_gateway
  select_gateway-IsChosen gs e is ok =
      least-IsChosen gs (cheapest (sorted_of gs).routable_ones) e
        (cheapest-IsLeast (sorted_of gs).routable_ones) is ok
