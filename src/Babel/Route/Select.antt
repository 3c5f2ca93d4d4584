-- ===== src/Babel/Route/Select.antt =====
-- `selectRoute` of internal/babel/route.go: one pass over the routes of a prefix, in the order in
-- which the map is met, and what follows from it.
use native.Mathlib.Decide.{ℕ_discrete}
use ranet_lite.Prelude.{ℕ, ◌+◌, Bool, true, not, ◌&&◌, ◌||◌}
use ranet_lite.Prelude.{Option, none, some, List, [], ◌∷◌, ◌++◌, ltb, ◌==◌, if◌then◌else◌}
use ranet_lite.Prelude.Assoc.{get, put, remove}
use ranet_lite.Babel.Metric.{metric_infinity, CostParams}
use ranet_lite.Babel.Keys.{RouteKey, RouteKey-discrete}
use ranet_lite.Babel.Source.{SourceTable, feasible}
use ranet_lite.Babel.Neighbor.{NeighborState}
use ranet_lite.Babel.Route.{Floats, NeighborId, Selection, no_selection, install, forget}
use ranet_lite.Babel.Route.{
  RouteInfo, KeyEntry, RouteTable, earlier, significant, is_neighbor, is_nil,
}
use ranet_lite.Babel.Route.{advertised, route_cost, smooth, starve}

module _ (fl : Floats) where
  open fl use {Float, less}

  pub record Candidate : Type 0 where
    pub neighbor : NeighborId
    pub cost : ℕ
    pub smoothed : Float

  -- The variables of the loop. `kept` is the routes that it has passed and not deleted.
  pub record Pass : Type 0 where
    pub kept : List (NeighborId × RouteInfo fl)
    pub expiry : ℕ
    pub best : Option Candidate
    pub incumbent : Option Candidate
    pub unfeasible : List NeighborId

  -- A route that has expired goes to infinity first, and is deleted the next time.
  unfoldable pub age : RouteInfo fl → ℕ → Option (RouteInfo fl)
  age r now =
      if ltb now r.expires_at
      then some r
      else if r.rx_metric == metric_infinity
      then none
      else some (record r { rx_metric = metric_infinity; expires_at = now + r.hold })

  -- Ties go to the smaller name, so that the order of the map does not matter.
  unfoldable pub beats : (NeighborId → NeighborState) → Candidate → Option Candidate → Bool
  beats net c none = true
  beats net c (some b) =
      ltb c.cost b.cost
      || (c.cost == b.cost && ltb (net c.neighbor).peer_id (net b.neighbor).peer_id)

  unfoldable pub offer : (NeighborId → NeighborState) → Option NeighborId → Candidate → Pass → Pass
  offer net selected c p = record p {
    incumbent = if is_neighbor (some c.neighbor) selected then some c else p.incumbent;
    best = if beats net c p.best then some c else p.best;
  }

  -- Everything that the loop reads and does not change.
  module _ (net : NeighborId → NeighborState) (sources : SourceTable) (cost : CostParams) (tau : ℕ)
      (key : RouteKey) (selected : Option NeighborId) (now : ℕ) where
    -- A route that has not been deleted.
    unfoldable pub pass_live : NeighborId → RouteInfo fl → Pass → Pass
    pass_live n r p =
        let expiry = earlier p.expiry r.expires_at in
        let c = route_cost fl r (net n) now cost in
        let r' = smooth fl r c now tau in
        let seen = record p { kept = p.kept ++ ((n, r') ∷ []); expiry = expiry } in
        if c == metric_infinity
        then record p { kept = p.kept ++ ((n, r) ∷ []); expiry = expiry }
        else if not (feasible sources key (advertised fl r') (net n).peer_id)
        then record seen { unfeasible = p.unfeasible ++ (n ∷ []) }
        else offer net selected (record { neighbor = n; cost = c; smoothed = r'.smoothed }) seen

    unfoldable pub pass_route : NeighborId → RouteInfo fl → Pass → Pass
    pass_route n r p = elim (age r now) [ none ↦ p | some r' ↦ pass_live n r' p ]

    unfoldable pub pass_routes : List (NeighborId × RouteInfo fl) → Pass → Pass
    pass_routes [] p = p
    pass_routes ((n, r) ∷ rest) p = pass_routes rest (pass_route n r p)

  -- The winner: the incumbent stays unless the best is better on both metrics.
  unfoldable pub choose : Option Candidate → Option Candidate → Option Candidate
  choose none incumbent = none
  choose (some b) none = some b
  choose (some b) (some i) =
      if b.neighbor == i.neighbor
      then some b
      else if ltb b.cost i.cost && less b.smoothed i.smoothed
      then some b
      else some i

  -- A candidate is one of the routes of the entry, so the lookup succeeds.
  unfoldable pub selection_for : List (NeighborId × RouteInfo fl) → Option Candidate → Selection
  selection_for routes none = no_selection
  selection_for routes (some c) = elim (get ℕ_discrete c.neighbor routes) [
    | none ↦ record { neighbor = some c.neighbor; cost = c.cost; router_id = 0; seqno = 0 }
    | some r ↦ record {
      neighbor = some c.neighbor;
      cost = c.cost;
      router_id = r.router_id;
      seqno = r.seqno;
    }
  ]

  -- One seqno request for each unfeasible route.
  unfoldable pub starve_all :
      RouteTable fl → RouteKey → List (NeighborId × RouteInfo fl) → List NeighborId → RouteTable fl
  starve_all rt key routes [] = rt
  starve_all rt key routes (n ∷ ns) = elim (get ℕ_discrete n routes) [
    | none ↦ starve_all rt key routes ns
    | some r ↦ starve_all (starve fl rt key n (advertised fl r)) key routes ns
  ]

  abbrev pub mark_dirty : RouteTable fl → RouteKey → RouteTable fl
  mark_dirty rt key = record rt { dirty = put RouteKey-discrete key tt rt.dirty }

  -- The forwarding table is told of a changed next hop only, the neighbors of a significant change.
  unfoldable pub publish : RouteTable fl → RouteKey → Selection → Selection → RouteTable fl
  publish rt key previous selected =
      let rt' =
        if is_neighbor selected.neighbor previous.neighbor
        then rt
        else record rt { calls = rt.calls ++ (install key selected ∷ []) } in
      if significant rt.trigger previous selected then mark_dirty rt' key else rt'

  unfoldable pub settle : KeyEntry fl → List (NeighborId × RouteInfo fl) → Selection → KeyEntry fl
  settle entry routes selected = record {
    routes = routes;
    selected = selected;
    retract_id = if is_nil selected.neighbor then entry.retract_id else selected.router_id;
    retract_seqno = if is_nil selected.neighbor then entry.retract_seqno else selected.seqno;
  }

  -- An entry without a route is deleted, and its hold with it.
  unfoldable pub store_entry : RouteTable fl → RouteKey → KeyEntry fl → RouteTable fl
  store_entry rt key entry = elim entry.routes [
    | [] ↦
        let rt' =
          mark_dirty (record rt { entries = remove RouteKey-discrete key rt.entries }) key in
        record rt' { calls = rt'.calls ++ (forget key ∷ []) }
    | r ∷ rs ↦ record rt { entries = put RouteKey-discrete key entry rt.entries }
  ]

  abbrev pub first_pass : RouteTable fl → Pass
  first_pass rt = record {
    kept = [];
    expiry = rt.next_expiry_at;
    best = none;
    incumbent = none;
    unfeasible = [];
  }

  unfoldable pub run_pass :
      RouteTable fl → (NeighborId → NeighborState) → RouteKey → KeyEntry fl → ℕ → Pass
  run_pass rt net key entry now =
      pass_routes net rt.sources rt.cost rt.tau key entry.selected.neighbor now entry.routes
        (first_pass rt)

  -- Only the transition to no route at all asks for sequence numbers.
  unfoldable pub ask : RouteTable fl → RouteKey → Pass → Selection → Selection → RouteTable fl
  ask rt key p previous selected =
      if is_nil selected.neighbor && not (is_nil previous.neighbor)
      then starve_all rt key p.kept p.unfeasible
      else rt

  unfoldable pub select_route :
      RouteTable fl → (NeighborId → NeighborState) → RouteKey → KeyEntry fl → ℕ → RouteTable fl
  select_route rt net key entry now =
      let p = run_pass rt net key entry now in
      let selected = selection_for p.kept (choose p.best p.incumbent) in
      let rt' = record rt { next_expiry_at = p.expiry } in
      let rt'' = publish rt' key entry.selected selected in
      store_entry (ask rt'' key p entry.selected selected) key (settle entry p.kept selected)
