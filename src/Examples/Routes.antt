-- ===== src/Examples/Routes.antt =====
-- The route table of internal/babel/route.go at concrete inputs.
use native.Mathlib.Decide.{ℕ_discrete}
use mathlib.Core.Logic.{◌⊎◌, inl, inr}
use ranet_lite.Prelude.{ℕ, ◌+◌, ◌≡◌, ◌≤◌, refl, arith, true, false, none, some, max}
use ranet_lite.Prelude.{[], ◌∷◌, length, ltb, leb}
use ranet_lite.Prelude.Assoc.{get, remove}
use ranet_lite.Babel.Metric.{metric_infinity, saturating_add, scale_cost, rtt_penalty}
use ranet_lite.Babel.Hello.{count_bits, received_cost, is_etx, link_quality_cost, beta}
use ranet_lite.Babel.Source.{feasible, has_room}
use ranet_lite.Babel.Neighbor.{link_cost, is_alive, hello_expiry}
use ranet_lite.Babel.Route.{
  Floats, NeighborId, RouteInfo, KeyEntry, RouteTable, no_selection, route_cost, advertised,
}
use ranet_lite.Babel.Route.{find_entry, find_route, is_neighbor, max_route_keys}
use ranet_lite.Babel.Route.Select.{Candidate, select_route}
use ranet_lite.Babel.Route.Choice.{IsUsable}
use ranet_lite.Babel.Route.Selected.{select_route-Offered, select_route-best, Offered}
use ranet_lite.Babel.Route.Table.{update, expire_neighbor, expire_loop}
use ranet_lite.Babel.Route.Table.Hold.{Arrival, acquire_hold, acquire_all}
use ranet_lite.Babel.Route.Table.Bounds.{length-update}
use ranet_lite.Babel.Route.Table.Expire.{expire_neighbor_lem}
use ranet_lite.Examples.Sources.{dest_key, adv_at, empty_sources}
use ranet_lite.Examples.Links.{neighbor_named, params}

-- Whole numbers for float64, with a decay that has run its course.
abbrev floats : Floats
floats = record {
  Float = ℕ;
  of_cost = λ c. c;
  less = ltb;
  at_least = λ a b. leb b a;
  larger = max;
  decay = λ c s e t. c;
}

abbrev route_of : ℕ → RouteInfo floats
route_of metric = record {
  router_id = 7;
  seqno = 5;
  rx_metric = metric;
  hold = 100;
  expires_at = 3000;
  smoothed = 0;
  smoothed_at = 0;
}

abbrev two_routes : KeyEntry floats
two_routes = record {
  routes = (1, route_of 96) ∷ (2, route_of 10) ∷ [];
  selected = no_selection;
  retract_id = 0;
  retract_seqno = 0;
}

abbrev table : RouteTable floats
table = record {
  entries = (dest_key, two_routes) ∷ [];
  sources = empty_sources;
  retracted = [];
  dirty = [];
  starved = [];
  tau = 0;
  trigger = 0;
  cost = params;
  calls = [];
  warned_overfull = false;
  next_expiry_at = 0;
}

abbrev second : Candidate floats
second = record { neighbor = 2; cost = 154; smoothed = 0 }

second-IsUsable :
    IsUsable floats neighbor_named empty_sources params 0 dest_key none 2000 2 (route_of 10) 154
unfolding route_cost link_cost is_alive hello_expiry saturating_add link_quality_cost beta
    count_bits received_cost is_etx scale_cost rtt_penalty feasible has_room get advertised
second-IsUsable = record {
  live = omega arith;
  cost_is = refl;
  finite = omega arith;
  is_feasible = refl;
}

select_route-best_example :
    (e : KeyEntry floats) × (find_entry floats dest_key
        (select_route floats table neighbor_named dest_key two_routes 2000)
      ≡ some e)
    × ((n : NeighborId) × (e.selected.neighbor ≡ some n)
        × ((e.selected.cost ≤ 154) ⊎ (is_neighbor (some n) none ≡ true)))
select_route-best_example =
    select_route-best floats table neighbor_named dest_key two_routes 2000 second
      (inr (inl (refl, second-IsUsable)))

-- What the pass selects here.
chosen :
    (e : KeyEntry floats) × (find_entry floats dest_key
        (select_route floats table neighbor_named dest_key two_routes 2000)
      ≡ some e)
    × ((n : NeighborId) × (e.selected.neighbor ≡ some n)
        × ((e.selected.cost ≤ 154) ⊎ (is_neighbor (some n) none ≡ true)))
chosen =
    select_route-best floats table neighbor_named dest_key two_routes 2000 second
      (inr (inl (refl, second-IsUsable)))

select_route-Offered_example :
    (c : Candidate floats) × (c.neighbor ≡ chosen.2.0)
    × (c.cost ≡ chosen.0.selected.cost)
    × Offered floats table neighbor_named dest_key two_routes 2000 c
select_route-Offered_example =
    select_route-Offered floats table neighbor_named dest_key two_routes 2000 chosen.0 chosen.2.0
      (tt, tt) chosen.1 chosen.2.1

after_expiry :
    (e : KeyEntry floats) × (find_entry floats dest_key
        (expire_neighbor floats neighbor_named 1 2000 table)
      ≡ some e)
unfolding expire_neighbor expire_loop get remove ℕ_discrete select_route
after_expiry =
    let r =
      select_route-best floats table neighbor_named dest_key
        (record two_routes { routes = (2, route_of 10) ∷ [] }) 2000 second
        (inl (refl, second-IsUsable)) in
    (r.0, r.1)

expire_neighbor_lem_example : find_route floats 1 after_expiry.0 ≡ none
expire_neighbor_lem_example =
    expire_neighbor_lem floats neighbor_named 1 2000 table dest_key after_expiry.0 (tt, tt)
      (((omega arith, tt), (tt, tt)), tt) after_expiry.1

length-update_example :
    length (update floats table neighbor_named 3 dest_key (adv_at 9 40) 100 2000).entries
    ≤ max_route_keys
length-update_example =
    length-update floats table neighbor_named 3 dest_key (adv_at 9 40) 100 2000 (omega arith)

abbrev retraction_at : ℕ → Arrival
retraction_at t = record { adv = adv_at 9 metric_infinity; hold = 5; now = t }

acquire_hold_example :
    let q =
      acquire_all floats
        (route_of 96)
        (retraction_at 2000 ∷ retraction_at 2050 ∷ retraction_at 2090 ∷ []) in
    (q.rx_metric ≡ metric_infinity) × (q.hold ≡ 100) × (q.expires_at ≡ 2000 + 100)
acquire_hold_example =
    acquire_hold floats (route_of 96) (retraction_at 2000)
      (retraction_at 2050 ∷ retraction_at 2090 ∷ []) refl (refl, (refl, tt)) (omega arith)
      (omega arith)
