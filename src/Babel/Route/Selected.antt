-- ===== src/Babel/Route/Selected.antt =====
-- What `selectRoute` of internal/babel/route.go selects.
use mathlib.Core.Logic.{◌≢◌, ◌⊎◌, inl, inr}
use mathlib.Core.Path.{subst}
use mathlib.Core.Option.{some-injective, none-ne-some}
use ranet_lite.Prelude.{ℕ, ◌≤◌, ◌≡◌, refl, sym, ◌∙◌, ap, arith}
use ranet_lite.Prelude.{true, Bool-cases, Option-cases}
use ranet_lite.Prelude.{Option, none, some, List, [], ◌∷◌, ◌==◌}
use ranet_lite.Prelude.Assoc.{get, Distinct}
use ranet_lite.Babel.Metric.{metric_infinity}
use ranet_lite.Babel.Keys.{RouteKey, RouteKey-discrete}
use ranet_lite.Babel.Neighbor.{NeighborState}
use ranet_lite.Babel.Route.{Floats, NeighborId, RouteInfo, KeyEntry, RouteTable, is_neighbor}
use ranet_lite.Babel.Route.{find_entry, advertised, route_cost, smooth}
use ranet_lite.Babel.Source.{feasible}
use ranet_lite.Babel.Route.Select.{Candidate, Pass, choose, selection_for, run_pass, select_route}
use ranet_lite.Babel.Route.Select.{settle, first_pass}
use ranet_lite.Babel.Route.Select.{pass_live, pass_route, pass_routes, age, offer}
use ranet_lite.Babel.Route.Choice.{Offers, Beats, pass_best, pass_incumbent, pass-Beats}
use ranet_lite.Babel.Route.Winner.{
  choose_cases, choose-some, selection_neighbor, selection_cases, entries-publish, entries-ask,
}
use ranet_lite.Babel.Route.Winner.{
  find-store_entry, gone-store_entry, find-store_entry_ne, store_entry-Distinct, snoc-nonempty,
}

module _ (fl : Floats) where
  open fl use {Float, less}

  module _ (rt : RouteTable fl) (net : NeighborId → NeighborState) (key : RouteKey)
      (entry : KeyEntry fl) (now : ℕ) where
    -- A pass that found a candidate kept its route.
    abbrev Populated : Pass fl → Type 0
    Populated p = (p.best ≡ none) ⊎ (p.kept ≢ [])

    live-Populated :
        (n : NeighborId) (r : RouteInfo fl) (p : Pass fl)
        → Populated
            (pass_live fl net rt.sources rt.cost rt.tau key entry.selected.neighbor now n r p)
    unfolding pass_live offer
    live-Populated n r p =
        let c = route_cost fl r (net n) now rt.cost in
        let r' = smooth fl r c now rt.tau in
        elim (Bool-cases (c == metric_infinity)) [
          | inl far ↦ rw far (inr (snoc-nonempty fl _ _))
          | inr near ↦
              elim (Bool-cases (feasible rt.sources key (advertised fl r') (net n).peer_id)) [
                | inl ok ↦ rw (near, ok) (inr (snoc-nonempty fl _ _))
                | inr bad ↦ rw (near, bad) (inr (snoc-nonempty fl _ _))
              ]
        ]

    pass-Populated :
        (routes : List (NeighborId × RouteInfo fl)) (p : Pass fl)
        → Populated p
        → Populated
            (pass_routes fl net rt.sources rt.cost rt.tau key entry.selected.neighbor now routes p)
    unfolding pass_routes pass_route
    pass-Populated [] p h = h
    pass-Populated ((n, r) ∷ rest) p h = pass-Populated rest _ (elim (Option-cases (age fl r now)) [
      | inl gone ↦ rw (gone, pass_route) h
      | inr (r', kept) ↦ rw (kept, pass_route) (live-Populated n r' p)
    ])

    abbrev pub result : Pass fl
    result = run_pass fl rt net key entry now

    abbrev pub verdict : Option (Candidate fl)
    verdict = choose fl result.best result.incumbent

    abbrev pub outcome : KeyEntry fl
    outcome = settle fl entry result.kept (selection_for fl result.kept verdict)

    pub find-select_route :
        result.kept ≢ [] → find_entry fl key (select_route fl rt net key entry now) ≡ some outcome
    unfolding select_route settle
    find-select_route ne = find-store_entry fl _ key outcome ne

    pub gone-select_route :
        Distinct RouteKey-discrete rt.entries
        → result.kept ≡ []
        → find_entry fl key (select_route fl rt net key entry now) ≡ none
    unfolding select_route settle
    gone-select_route d empty =
        gone-store_entry fl _ key outcome
          (subst (λ x. Distinct RouteKey-discrete x)
            (sym (entries-ask fl _ key result _ _ ∙ entries-publish fl _ key _ _)) d)
          empty

    pub find-select_route_ne :
        (j : RouteKey)
        → key ≢ j
        → find_entry fl j (select_route fl rt net key entry now) ≡ find_entry fl j rt
    unfolding select_route settle
    find-select_route_ne j ne =
        find-store_entry_ne fl _ key j outcome ne
        ∙ ap (λ x. get RouteKey-discrete j x)
            (entries-ask fl _ key result _ _ ∙ entries-publish fl _ key _ _)

    pub select_route-Distinct :
        Distinct RouteKey-discrete rt.entries
        → Distinct RouteKey-discrete (select_route fl rt net key entry now).entries
    unfolding select_route settle
    select_route-Distinct d = store_entry-Distinct fl _ key outcome (
        subst (λ x. Distinct RouteKey-discrete x)
          (sym (entries-ask fl _ key result _ _ ∙ entries-publish fl _ key _ _)) d)

    pub kept_cases : (xs : List (NeighborId × RouteInfo fl)) → (xs ≡ []) ⊎ (xs ≢ [])
    kept_cases [] = inl refl
    kept_cases (x ∷ xs) = inr (λ e. cc)

    -- The routes of this prefix, as the pass meets them.
    abbrev pub Offered : Candidate fl → Type 0
    Offered = Offers fl net rt.sources rt.cost rt.tau key entry.selected.neighbor now entry.routes

    verdict-Offered : (c : Candidate fl) → verdict ≡ some c → Offered c
    unfolding run_pass
    verdict-Offered c e = elim (choose_cases fl result.best result.incumbent c e) [
      | inl b ↦
          elim (pass_best fl net rt.sources rt.cost rt.tau key entry.selected.neighbor now
            entry.routes _ c b) [ inl there ↦ there | inr never ↦ absurd cc ]
      | inr i ↦
          elim (pass_incumbent fl net rt.sources rt.cost rt.tau key entry.selected.neighbor now
            entry.routes _ c i) [ inl there ↦ there.0 | inr never ↦ absurd cc ]
    ]

    kept_of : (b : Candidate fl) → result.best ≡ some b → result.kept ≢ []
    unfolding run_pass
    kept_of b is = elim (pass-Populated entry.routes (first_pass fl rt) (inl refl)) [
      | inl never ↦ absurd cc
      | inr ne ↦ ne
    ]

    incumbent_of :
        (w : Candidate fl)
        → result.incumbent ≡ some w
        → is_neighbor (some w.neighbor) entry.selected.neighbor ≡ true
    unfolding run_pass
    incumbent_of w e =
        elim (pass_incumbent fl net rt.sources rt.cost rt.tau key entry.selected.neighbor now
          entry.routes _ w e) [ inl there ↦ there.1 | inr never ↦ absurd cc ]

    at_most :
        (b w : Candidate fl) {k id : ℕ}
        → some b ≡ some w
        → Beats fl net rt.sources rt.cost rt.tau key entry.selected.neighbor now (some b) k id
        → w.cost ≤ k
    at_most b w same h = rw⁻¹ (some-injective b w same) (ground arith)

    -- A next hop that the pass selects is a route that may be selected: it has not expired, its
    -- cost is finite and is the cost of the selection, and it is feasible.
    pub select_route-Offered :
        (e : KeyEntry fl) (n : NeighborId)
        → Distinct RouteKey-discrete rt.entries
        → find_entry fl key (select_route fl rt net key entry now) ≡ some e
        → e.selected.neighbor ≡ some n
        → (c : Candidate fl) × (c.neighbor ≡ n) × (c.cost ≡ e.selected.cost) × Offered c
    unfolding settle
    select_route-Offered e n d found at = elim (kept_cases result.kept) [
      | inl empty ↦ absurd (none-ne-some e (sym (gone-select_route d empty) ∙ found))
      | inr ne ↦
          let same : outcome ≡ e = some-injective _ _ (sym (find-select_route ne) ∙ found) in
          let own : outcome.selected.neighbor ≡ some n = ap (λ x. x.selected.neighbor) same ∙ at in
          let (c, is, name, costs) = selection_cases fl result.kept verdict n own in
          (c, name, sym costs ∙ ap (λ x. x.selected.cost) same, verdict-Offered c is)
    ]

    -- Where a route may be selected, one is: its cost is at most that of every such route, unless
    -- the selection stays with the next hop that the entry had.
    pub select_route-best :
        (c : Candidate fl)
        → Offered c
        → (e : KeyEntry fl) × (find_entry fl key (select_route fl rt net key entry now) ≡ some e)
          × ((n : NeighborId) × (e.selected.neighbor ≡ some n)
              × ((e.selected.cost ≤ c.cost)
                  ⊎ (is_neighbor (some n) entry.selected.neighbor ≡ true)))
    unfolding settle run_pass
    select_route-best c here = by_best result.best refl (
        pass-Beats fl net rt.sources rt.cost rt.tau key entry.selected.neighbor now entry.routes _ c
          here)
      where
        by_best :
            (o : Option (Candidate fl))
            → result.best ≡ o
            → Beats fl net rt.sources rt.cost rt.tau key entry.selected.neighbor now o c.cost
                (net c.neighbor).peer_id
            → (e : KeyEntry fl) × (find_entry fl key (select_route fl rt net key entry now)
                ≡ some e)
              × ((n : NeighborId) × (e.selected.neighbor ≡ some n)
                  × ((e.selected.cost ≤ c.cost)
                      ⊎ (is_neighbor (some n) entry.selected.neighbor ≡ true)))
        by_best none is h = absurd h
        by_best (some b) is h =
            let (w, chosen, which) = choose-some fl b result.incumbent in
            let chose : verdict ≡ some w = rw is chosen in
            let (at, costs) = selection_neighbor fl result.kept w in
            (
              outcome,
              find-select_route (kept_of b is),
              (
                w.neighbor,
                rw chose at,
                elim which [
                  | inl best ↦ inl (rw (chose, costs) (at_most b w best h))
                  | inr stays ↦ inr (incumbent_of w stays)
                ],
              ),
            )
