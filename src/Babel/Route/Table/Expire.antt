-- ===== src/Babel/Route/Table/Expire.antt =====
-- `expireNeighbor` of internal/babel/route.go leaves nothing of the neighbor.
use native.Mathlib.Decide.{ℕ_discrete}
use mathlib.Core.Option.{some-injective, none-ne-some}
use ranet_lite.Prelude.{ℕ, ◌≡◌, ◌≢◌, refl, sym, ap, ◌∙◌, inl, inr, Option-cases, Bool-cases}
use ranet_lite.Prelude.{Option, none, some, List, [], ◌∷◌, ◌++◌, ◌==◌}
use ranet_lite.Prelude.Order.{All, All-append}
use ranet_lite.Prelude.Assoc.{
  get, Absent, Distinct, Within, Within-self, get-Absent, remove-Absent, get_tail,
}
use ranet_lite.Babel.Metric.{metric_infinity}
use ranet_lite.Babel.Keys.{RouteKey, RouteKey-discrete}
use ranet_lite.Babel.Source.{feasible}
use ranet_lite.Babel.Neighbor.{NeighborState}
use ranet_lite.Babel.Route.{
  Floats, NeighborId, RouteInfo, KeyEntry, RouteTable, find_entry, find_route, advertised,
  route_cost, smooth,
}
use ranet_lite.Babel.Route.Select.{
  select_route, Pass, pass_live, pass_route, pass_routes, age, offer, settle, run_pass, first_pass,
}
use ranet_lite.Babel.Route.Selected.{
  find-select_route, gone-select_route, find-select_route_ne, select_route-Distinct, kept_cases,
  result, outcome,
}
use ranet_lite.Babel.Route.Table.{expire_neighbor, expire_loop, without, forget_retraction}

module _ (fl : Floats) (net : NeighborId → NeighborState) (n : NeighborId) (now : ℕ) where
  abbrev Free : List (NeighborId × RouteInfo fl) → Type 0
  Free m = Absent ℕ_discrete n m

  module _ (rt : RouteTable fl) (key : RouteKey) (entry : KeyEntry fl) where
    snoc-Free :
        (xs : List (NeighborId × RouteInfo fl)) (m : NeighborId) (r : RouteInfo fl)
        → m ≢ n
        → Free xs
        → Free (xs ++ ((m, r) ∷ []))
    snoc-Free xs m r ne h = All-append _ xs ((m, r) ∷ []) h (ne, tt)

    live-Free :
        (m : NeighborId) (r : RouteInfo fl) (p : Pass fl)
        → m ≢ n
        → Free p.kept
        → Free
            (pass_live fl net rt.sources rt.cost rt.tau key entry.selected.neighbor now m r p).kept
    unfolding pass_live offer
    live-Free m r p ne h =
        let c = route_cost fl r (net m) now rt.cost in
        let r' = smooth fl r c now rt.tau in
        elim (Bool-cases (c == metric_infinity)) [
          | inl far ↦ rw far (snoc-Free _ _ _ ne h)
          | inr near ↦
              elim (Bool-cases (feasible rt.sources key (advertised fl r') (net m).peer_id)) [
                | inl ok ↦ rw (near, ok) (snoc-Free _ _ _ ne h)
                | inr bad ↦ rw (near, bad) (snoc-Free _ _ _ ne h)
              ]
        ]

    pass-Free :
        (routes : List (NeighborId × RouteInfo fl)) (p : Pass fl)
        → Free routes
        → Free p.kept
        → Free
            (pass_routes fl net rt.sources rt.cost rt.tau key entry.selected.neighbor now routes
              p).kept
    unfolding pass_routes pass_route
    pass-Free [] p h k = k
    pass-Free ((m, r) ∷ rest) p h k = pass-Free rest _ h.1 (elim (Option-cases (age fl r now)) [
      | inl gone ↦ rw (gone, pass_route) k
      | inr (r', kept) ↦ rw (kept, pass_route) (live-Free m r' p h.0 k)
    ])

    -- A pass over routes that are not the neighbor's keeps none of it.
    step-Free :
        (e : KeyEntry fl)
        → Distinct RouteKey-discrete rt.entries
        → Free entry.routes
        → find_entry fl key (select_route fl rt net key entry now) ≡ some e
        → find_route fl n e ≡ none
    unfolding settle run_pass
    step-Free e d h found =
        elim (kept_cases fl rt net key entry now (result fl rt net key entry now).kept) [
          | inl empty ↦
              absurd
                (none-ne-some e (sym (gone-select_route fl rt net key entry now d empty) ∙ found))
          | inr ne ↦
              let same : outcome fl rt net key entry now ≡ e =
                some-injective _ _ (sym (find-select_route fl rt net key entry now ne) ∙ found) in
              ap (λ x. find_route fl n x) (sym same)
              ∙ get-Absent ℕ_discrete n _ (pass-Free entry.routes (first_pass fl rt) h tt)
        ]

  -- The entries that are left to visit are what the table holds, and the rest is free of `n`.
  record Visited (rest : List (RouteKey × KeyEntry fl)) (rt : RouteTable fl) : Type 0 where
    pub distinct : Distinct RouteKey-discrete rt.entries
    pub apart : Distinct RouteKey-discrete rest
    pub there : Within RouteKey-discrete rest rt.entries
    pub done :
        (j : RouteKey) (e : KeyEntry fl)
        → find_entry fl j rt ≡ some e
        → get RouteKey-discrete j rest ≡ none
        → find_route fl n e ≡ none

  abbrev Routes : RouteKey × KeyEntry fl → Type 0
  Routes e = Distinct ℕ_discrete e.1.routes

  same_entry :
      {a b : Option (KeyEntry fl)} {x y : KeyEntry fl} → a ≡ some x → b ≡ some y → a ≡ b → x ≡ y
  same_entry p q e = some-injective _ _ (sym p ∙ e ∙ q)

  module _ (rt : RouteTable fl) (key : RouteKey) (entry : KeyEntry fl)
      (rest : List (RouteKey × KeyEntry fl)) (v : Visited ((key, entry) ∷ rest) rt) where
    skip-Visited : get ℕ_discrete n entry.routes ≡ none → Visited rest rt
    skip-Visited none_here = record {
      distinct = v.distinct;
      apart = v.apart.1;
      there = v.there.1;
      done = λ j e at out. elim (RouteKey-discrete key j) [
        | yes p ↦
            let same : entry ≡ e = same_entry v.there.0 at (ap (λ k. find_entry fl k rt) p) in
            ap (λ x. find_route fl n x) (sym same) ∙ none_here
        | no ne ↦ v.done j e at (get_tail RouteKey-discrete j key entry rest ne ∙ out)
      ];
    }

    abbrev moved : RouteTable fl
    moved = select_route fl rt net key (without fl net n now entry) now

    kept-Within :
        (part : List (RouteKey × KeyEntry fl))
        → Absent RouteKey-discrete key part
        → Within RouteKey-discrete part rt.entries
        → Within RouteKey-discrete part moved.entries
    kept-Within [] h w = tt
    kept-Within ((j, e) ∷ part) h w = (
      find-select_route_ne fl rt net key _ now j (λ p. h.0 (sym p)) ∙ w.0,
      kept-Within part h.1 w.1,
    )

    drop-Visited : Distinct ℕ_discrete entry.routes → Visited rest moved
    drop-Visited d = record {
      distinct = select_route-Distinct fl rt net key _ now v.distinct;
      apart = v.apart.1;
      there = kept-Within rest v.apart.0 v.there.1;
      done = λ j e at out. elim (RouteKey-discrete key j) [
        | yes p ↦
            step-Free rt key (without fl net n now entry) e v.distinct
              (remove-Absent ℕ_discrete n entry.routes d) (ap (λ k. find_entry fl k moved) p ∙ at)
        | no ne ↦
            v.done j e (sym (find-select_route_ne fl rt net key _ now j ne) ∙ at)
              (get_tail RouteKey-discrete j key entry rest ne ∙ out)
      ];
    }

  loop-Visited :
      (rest : List (RouteKey × KeyEntry fl)) (rt : RouteTable fl)
      → All Routes rest
      → Visited rest rt
      → Visited [] (expire_loop fl net n now rest rt)
  unfolding expire_loop
  loop-Visited [] rt d v = v
  loop-Visited ((key, entry) ∷ rest) rt d v = elim (Option-cases (get ℕ_discrete n entry.routes)) [
    | inl gone ↦
        rw (gone, expire_loop) (loop-Visited rest rt d.1 (skip-Visited rt key entry rest v gone))
    | inr (r, here) ↦
        rw (here, expire_loop)
          (loop-Visited rest (moved rt key entry rest v) d.1 (drop-Visited rt key entry rest v d.0))
  ]

  -- Once a neighbor has been expired, no prefix has a route through it.
  pub expire_neighbor_lem :
      (rt : RouteTable fl) (key : RouteKey) (e : KeyEntry fl)
      → Distinct RouteKey-discrete rt.entries
      → All Routes rt.entries
      → find_entry fl key (expire_neighbor fl net n now rt) ≡ some e
      → find_route fl n e ≡ none
  unfolding expire_neighbor get
  expire_neighbor_lem rt key e d h found =
      (loop-Visited rt.entries (forget_retraction fl rt n) h start).done key e found refl
    where
      start : Visited rt.entries (forget_retraction fl rt n)
      start = record {
        distinct = d;
        apart = d;
        there = Within-self RouteKey-discrete rt.entries d;
        done = λ j x at out. absurd (none-ne-some x (sym out ∙ at));
      }
