-- ===== src/Babel/Route/Table.antt =====
-- The operations of the route table, internal/babel/route.go: acquisition, the passes over all
-- prefixes, and what the speaker takes. `range` over the map of entries is a list of the keys and
-- entries that the pass meets; `selectRoute` changes or deletes only the entry that it is given.
pub mod Hold
pub mod Bounds
pub mod Expire
use native.Mathlib.Decide.{ℕ_discrete}
use ranet_lite.Prelude.{ℕ, zero, suc, ◌+◌, Bool, true, false, not, ◌&&◌, ◌||◌, length, map}
use ranet_lite.Prelude.{Option, none, some, List, [], ◌∷◌, ◌++◌, ltb, leb, ◌==◌, if◌then◌else◌}
use ranet_lite.Prelude.Assoc.{get, put, remove}
use ranet_lite.Babel.Metric.{metric_infinity, CostParams}
use ranet_lite.Babel.Keys.{RouteKey, RouteKey-discrete, Advertisement}
use ranet_lite.Babel.Source.{SourceTable, feasible, sweep_sources}
use ranet_lite.Babel.Neighbor.{NeighborState}
use ranet_lite.Babel.Route.{Floats, NeighborId, no_selection, StarveRequest, max_route_keys}
use ranet_lite.Babel.Route.{RouteInfo, KeyEntry, RouteTable, is_neighbor, starve, find_entry}
use ranet_lite.Babel.Route.Select.{select_route}

module _ (fl : Floats) where
  open fl use {Float, of_cost}

  abbrev pub forget_retraction : RouteTable fl → NeighborId → RouteTable fl
  forget_retraction rt n = record rt { retracted = remove ℕ_discrete n rt.retracted }

  -- `overfull` keeps the report to one; the log line itself is left out.
  abbrev pub overfull : RouteTable fl → RouteTable fl
  overfull rt = record rt { warned_overfull = true }

  abbrev pub new_route : RouteInfo fl
  new_route = record {
    router_id = 0;
    seqno = 0;
    rx_metric = 0;
    hold = 0;
    expires_at = 0;
    smoothed = of_cost 0;
    smoothed_at = 0;
  }

  abbrev pub new_entry : KeyEntry fl
  new_entry = record { routes = []; selected = no_selection; retract_id = 0; retract_seqno = 0 }

  -- The hold of a retraction starts when the route is retracted, and only then.
  unfoldable pub acquire : RouteInfo fl → Advertisement → ℕ → ℕ → RouteInfo fl
  acquire r adv hold now =
      let retracting = adv.metric == metric_infinity && not (r.rx_metric == metric_infinity) in
      let r' : RouteInfo fl = record r {
        router_id = adv.router_id;
        seqno = adv.seqno;
        rx_metric = adv.metric;
      } in
      if not (adv.metric == metric_infinity)
      then record r' { hold = hold; expires_at = now + hold }
      else if retracting && ltb 0 r.hold
      then record r' { expires_at = now + r.hold }
      else r'

  -- The rest of `update`, once the entry and the route are there.
  unfoldable pub update_entry :
      RouteTable fl
      → (NeighborId → NeighborState)
      → NeighborId
      → RouteKey
      → KeyEntry fl
      → RouteInfo fl
      → Advertisement
      → ℕ
      → ℕ
      → RouteTable fl
  update_entry rt net n key entry r adv hold now =
      let entry' : KeyEntry fl = record entry {
        routes = put ℕ_discrete n (acquire r adv hold now) entry.routes;
      } in
      let rt' =
        if not (feasible rt.sources key adv (net n).peer_id)
          && is_neighbor entry.selected.neighbor (some n)
        then starve fl rt key n adv
        else rt in
      select_route fl rt' net key entry' now

  -- Nothing is made of an unfeasible update, a retraction or one that has expired.
  unfoldable pub is_refused : RouteTable fl → NeighborState → RouteKey → Advertisement → ℕ → Bool
  is_refused rt n key adv hold =
      not (feasible rt.sources key adv n.peer_id) || adv.metric == metric_infinity || hold == 0

  -- `update` after it has forgotten the retraction.
  unfoldable pub update_table :
      RouteTable fl
      → (NeighborId → NeighborState)
      → NeighborId
      → RouteKey
      → Advertisement
      → ℕ
      → ℕ
      → RouteTable fl
  update_table rt net n key adv hold now = elim (find_entry fl key rt) [
    | none ↦
        if is_refused rt (net n) key adv hold
        then rt
        else if leb max_route_keys (length rt.entries)
        then overfull rt
        else update_entry rt net n key new_entry new_route adv hold now
    | some entry ↦ elim (get ℕ_discrete n entry.routes) [
      | none ↦
          if is_refused rt (net n) key adv hold
          then rt
          else update_entry rt net n key entry new_route adv hold now
      | some r ↦ update_entry rt net n key entry r adv hold now
    ]
  ]

  unfoldable pub update :
      RouteTable fl
      → (NeighborId → NeighborState)
      → NeighborId
      → RouteKey
      → Advertisement
      → ℕ
      → ℕ
      → RouteTable fl
  update rt net n key adv hold now =
      if adv.metric == metric_infinity
      then update_table rt net n key adv hold now
      else update_table (forget_retraction rt n) net n key adv hold now

  -- A neighbor's route in one entry, retracted by a wildcard retraction.
  unfoldable pub retract_route : RouteInfo fl → ℕ → RouteInfo fl
  retract_route r now =
      if not (r.rx_metric == metric_infinity) && ltb 0 r.hold
      then record r { rx_metric = metric_infinity; expires_at = now + r.hold }
      else record r { rx_metric = metric_infinity }

  module _ (net : NeighborId → NeighborState) (n : NeighborId) (now : ℕ) where
    unfoldable pub recompute_loop : List (RouteKey × KeyEntry fl) → RouteTable fl → RouteTable fl
    recompute_loop [] rt = rt
    recompute_loop ((key, entry) ∷ rest) rt = elim (get ℕ_discrete n entry.routes) [
      | none ↦ recompute_loop rest rt
      | some r ↦ recompute_loop rest (select_route fl rt net key entry now)
    ]

    unfoldable pub recompute_neighbor : RouteTable fl → RouteTable fl
    recompute_neighbor rt = recompute_loop rt.entries rt

    abbrev pub without : KeyEntry fl → KeyEntry fl
    without entry = record entry { routes = remove ℕ_discrete n entry.routes }

    unfoldable pub expire_loop : List (RouteKey × KeyEntry fl) → RouteTable fl → RouteTable fl
    expire_loop [] rt = rt
    expire_loop ((key, entry) ∷ rest) rt = elim (get ℕ_discrete n entry.routes) [
      | none ↦ expire_loop rest rt
      | some r ↦ expire_loop rest (select_route fl rt net key (without entry) now)
    ]

    unfoldable pub expire_neighbor : RouteTable fl → RouteTable fl
    expire_neighbor rt = expire_loop rt.entries (forget_retraction rt n)

    unfoldable pub retract_loop : List (RouteKey × KeyEntry fl) → RouteTable fl → RouteTable fl
    retract_loop [] rt = rt
    retract_loop ((key, entry) ∷ rest) rt = elim (get ℕ_discrete n entry.routes) [
      | none ↦ retract_loop rest rt
      | some r ↦
          let entry' : KeyEntry fl = record entry {
            routes = put ℕ_discrete n (retract_route r now) entry.routes;
          } in
          retract_loop rest (select_route fl rt net key entry' now)
    ]

    unfoldable pub retract_neighbor : RouteTable fl → RouteTable fl
    retract_neighbor rt = elim (get ℕ_discrete n rt.retracted) [
      | some t ↦ rt
      | none ↦ retract_loop rt.entries (record rt { retracted = put ℕ_discrete n tt rt.retracted })
    ]

  unfoldable pub sweep_routes :
      (NeighborId → NeighborState)
      → ℕ
      → List (RouteKey × KeyEntry fl)
      → RouteTable fl
      → RouteTable fl
  sweep_routes net now [] rt = rt
  sweep_routes net now ((key, entry) ∷ rest) rt =
      sweep_routes net now rest (select_route fl rt net key entry now)

  -- The deadline is cleared and made exact again by the pass.
  unfoldable pub sweep_expired : RouteTable fl → (NeighborId → NeighborState) → ℕ → RouteTable fl
  sweep_expired rt net now =
      let rt' = sweep_routes net now rt.entries (record rt { next_expiry_at = 0 }) in
      record rt' { sources = sweep_sources rt'.sources now }

  unfoldable pub take_dirty : RouteTable fl → List RouteKey × RouteTable fl
  take_dirty rt = (map (λ (d : RouteKey × Unit {0}). d.0) rt.dirty, record rt { dirty = [] })

  unfoldable pub take_starved : RouteTable fl → List StarveRequest × RouteTable fl
  take_starved rt = (rt.starved, record rt { starved = [] })
