-- ===== src/Babel/Route.antt =====
-- The route table of internal/babel/route.go. A neighbor is a number, which stands for the pointer
-- to its state; `net` gives the state. Times are nanoseconds, and 0 is the zero time.
pub mod Select
pub mod Choice
pub mod Winner
pub mod Selected
pub mod Table
use mathlib.Core.Bool.{xor}
use native.Mathlib.Decide.{ℕ_discrete}
use ranet_lite.Prelude.{ℕ, zero, suc, ◌+◌, ◌-◌, ◌*◌, ◌^◌, max, Bool, true, false, not, ◌&&◌, ◌||◌}
use ranet_lite.Prelude.{
  Option, none, some, List, [], ◌∷◌, ◌++◌, length, ltb, leb, ◌==◌, if◌then◌else◌,
}
use ranet_lite.Prelude.Assoc.{get, put, remove}
use ranet_lite.Babel.Metric.{saturating_add, metric_infinity, CostParams}
use ranet_lite.Babel.Keys.{RouteKey, RouteKey-discrete, RouterId, Advertisement}
use ranet_lite.Babel.Source.{SourceTable, feasible, request_seqno, sweep_sources}
use ranet_lite.Babel.Neighbor.{NeighborState, link_cost}

-- The float64 operations that `smooth` and the selection use. `decay cost smoothed elapsed tau` is
-- `cost + (smoothed - cost) * exp(-elapsed / tau)`.
pub record Floats : Type 1 where
  pub Float : Type 0
  pub of_cost : ℕ → Float
  pub less : Float → Float → Bool
  pub at_least : Float → Float → Bool
  pub larger : Float → Float → Float
  pub decay : Float → Float → ℕ → ℕ → Float

abbrev pub NeighborId : Type 0
NeighborId = ℕ

abbrev pub max_route_keys : ℕ
max_route_keys = 16384

pub record Selection : Type 0 where
  pub neighbor : Option NeighborId
  pub cost : ℕ
  pub router_id : RouterId
  pub seqno : ℕ

abbrev pub no_selection : Selection
no_selection = record { neighbor = none; cost = 0; router_id = 0; seqno = 0 }

pub record StarveRequest : Type 0 where
  pub key : RouteKey
  pub neighbor : NeighborId
  pub router_id : RouterId
  pub seqno : ℕ

-- The calls of the two callbacks, oldest first.
pub data Call : Type 0 where
  install : RouteKey → Selection → Call
  forget : RouteKey → Call

unfoldable pub earlier : ℕ → ℕ → ℕ
earlier a b = if a == 0 || (not (b == 0) && ltb b a) then b else a

-- Pointers are equal, nil included.
unfoldable pub is_neighbor : Option NeighborId → Option NeighborId → Bool
is_neighbor none none = true
is_neighbor (some a) (some b) = a == b
is_neighbor _ _ = false

unfoldable pub is_nil : Option NeighborId → Bool
is_nil none = true
is_nil (some a) = false

-- Whether a selection change earns a triggered update.
unfoldable pub significant : ℕ → Selection → Selection → Bool
unfolding is_neighbor is_nil
significant trigger old new =
    if xor (is_nil old.neighbor) (is_nil new.neighbor)
    then true
    else if is_nil new.neighbor
    then false
    else if not (is_neighbor old.neighbor new.neighbor)
        || (not (old.router_id == new.router_id) || not (old.seqno == new.seqno))
    then true
    else ltb old.cost new.cost && leb trigger (new.cost - old.cost)

module _ (fl : Floats) where
  open fl use {Float, of_cost, less, at_least, larger, decay}

  pub record RouteInfo : Type 0 where
    pub router_id : RouterId
    pub seqno : ℕ
    pub rx_metric : ℕ
    pub hold : ℕ
    pub expires_at : ℕ
    pub smoothed : Float
    pub smoothed_at : ℕ

  pub record KeyEntry : Type 0 where
    pub routes : List (NeighborId × RouteInfo)
    pub selected : Selection
    pub retract_id : RouterId
    pub retract_seqno : ℕ

  -- `retracted` and `dirty` are sets. `calls` is what install and forget were called with.
  pub record RouteTable : Type 0 where
    pub entries : List (RouteKey × KeyEntry)
    pub sources : SourceTable
    pub retracted : List (NeighborId × Unit {0})
    pub dirty : List (RouteKey × Unit {0})
    pub starved : List StarveRequest
    pub tau : ℕ
    pub trigger : ℕ
    pub cost : CostParams
    pub calls : List Call
    pub warned_overfull : Bool
    pub next_expiry_at : ℕ

  unfoldable pub advertised : RouteInfo → Advertisement
  advertised r = record { router_id = r.router_id; seqno = r.seqno; metric = r.rx_metric }

  unfoldable pub route_cost : RouteInfo → NeighborState → ℕ → CostParams → ℕ
  route_cost r n now cost = saturating_add (max 1 (link_cost n now cost)) r.rx_metric

  unfoldable pub smooth : RouteInfo → ℕ → ℕ → ℕ → RouteInfo
  smooth r cost now tau =
      let elapsed = now - r.smoothed_at in
      let c = of_cost cost in
      let s =
        if r.smoothed_at == 0 || (tau == 0 || at_least c r.smoothed)
        then c
        else if ltb 0 elapsed
        then decay c r.smoothed elapsed tau
        else r.smoothed in
      record r { smoothed = larger s c; smoothed_at = now }

  unfoldable pub starve : RouteTable → RouteKey → NeighborId → Advertisement → RouteTable
  starve rt key n adv = record rt {
    starved =
        rt.starved
        ++ (record {
          key = key;
          neighbor = n;
          router_id = adv.router_id;
          seqno = request_seqno rt.sources key adv;
        }
            ∷ []);
  }

  abbrev pub find_entry : RouteKey → RouteTable → Option KeyEntry
  find_entry key rt = get RouteKey-discrete key rt.entries

  abbrev pub find_route : NeighborId → KeyEntry → Option RouteInfo
  find_route n entry = get ℕ_discrete n entry.routes
