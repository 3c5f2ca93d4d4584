-- ===== src/Babel/Route/Table/Bounds.antt =====
-- The size of the route table, internal/babel/route.go.
use native.Mathlib.Decide.{ℕ_discrete}
use ranet_lite.Prelude.{ℕ, suc, ◌≤◌, ◌≡◌, refl, ap, ◌∙◌, arith}
use ranet_lite.Prelude.{not, ◌&&◌, Option-cases, Bool-cases, length, leb, ◌==◌}
use ranet_lite.Prelude.{inl, inr, Option, none, some, List, [], ◌∷◌}
use ranet_lite.Prelude.Assoc.{get, put, length-put_new, length-put_old, length-remove-le}
use ranet_lite.Babel.Metric.{metric_infinity}
use ranet_lite.Babel.Keys.{RouteKey, RouteKey-discrete, Advertisement}
use ranet_lite.Babel.Source.{feasible}
use ranet_lite.Babel.Neighbor.{NeighborState}
use ranet_lite.Babel.Route.{
  Floats, NeighborId, RouteInfo, KeyEntry, RouteTable, find_entry, is_neighbor, starve,
  max_route_keys,
}
use ranet_lite.Babel.Route.Select.{select_route, store_entry}
use ranet_lite.Babel.Route.Winner.{entries-ask, entries-publish}
use ranet_lite.Babel.Route.Table.{update, update_table, update_entry, is_refused, forget_retraction}
use ranet_lite.Babel.Route.Table.{new_route, new_entry}

module _ (fl : Floats) where
  -- How many keys a table may have once an entry is stored.
  abbrev room : Option (KeyEntry fl) → ℕ → ℕ
  room none n = suc n
  room (some e) n = n

  room_at : {o p : Option (KeyEntry fl)} → o ≡ p → (n : ℕ) → room o n ≡ room p n
  room_at e n = ap (λ o. room o n) e

  room-ge : (o : Option (KeyEntry fl)) (n : ℕ) → n ≤ room o n
  room-ge none n = omega arith
  room-ge (some e) n = omega arith

  length-store_entry :
      (rt : RouteTable fl) (key : RouteKey) (entry : KeyEntry fl)
      → length (store_entry fl rt key entry).entries
        ≤ room (find_entry fl key rt) (length rt.entries)
  unfolding store_entry
  length-store_entry rt key entry = by_routes entry.routes refl
    where
      put_room :
          (e : KeyEntry fl)
          → length (put RouteKey-discrete key e rt.entries)
            ≤ room (find_entry fl key rt) (length rt.entries)
      put_room e = elim (Option-cases (find_entry fl key rt)) [
        | inl new ↦ rw new (omega (arith, length-put_new RouteKey-discrete key e rt.entries new))
        | inr (old, at) ↦
            rw at (omega (arith, length-put_old RouteKey-discrete key e old rt.entries at))
      ]

      by_routes :
          (rs : List (NeighborId × RouteInfo fl))
          → entry.routes ≡ rs
          → length (store_entry fl rt key entry).entries
            ≤ room (find_entry fl key rt) (length rt.entries)
      by_routes [] e = rw e (
          omega (
            arith,
            length-remove-le RouteKey-discrete key rt.entries,
            room-ge (find_entry fl key rt) (length rt.entries),
          ))
      by_routes (r ∷ rs) e = rw e (put_room _)

  length-store_of :
      (rt rt' : RouteTable fl) (key : RouteKey) (entry : KeyEntry fl)
      → rt'.entries ≡ rt.entries
      → length (store_entry fl rt' key entry).entries
        ≤ room (find_entry fl key rt) (length rt.entries)
  length-store_of rt rt' key entry same = rw⁻¹ same (length-store_entry rt' key entry)

  pub length-select_route :
      (rt : RouteTable fl) (net : NeighborId → NeighborState) (key : RouteKey) (entry : KeyEntry fl)
      (now : ℕ)
      → length (select_route fl rt net key entry now).entries
        ≤ room (find_entry fl key rt) (length rt.entries)
  unfolding select_route
  length-select_route rt net key entry now =
      length-store_of rt _ key _ (entries-ask fl _ key _ _ _ ∙ entries-publish fl _ key _ _)

  length-update_entry :
      (rt : RouteTable fl) (net : NeighborId → NeighborState) (n : NeighborId) (key : RouteKey)
      (entry : KeyEntry fl) (r : RouteInfo fl) (adv : Advertisement) (hold now : ℕ)
      → length (update_entry fl rt net n key entry r adv hold now).entries
        ≤ room (find_entry fl key rt) (length rt.entries)
  unfolding update_entry starve
  length-update_entry rt net n key entry r adv hold now =
      elim (Bool-cases (
        not (feasible rt.sources key adv (net n).peer_id)
        && is_neighbor entry.selected.neighbor (some n))) [
          | inl starved ↦ rw starved (length-select_route _ net key _ now)
          | inr fine ↦ rw fine (length-select_route rt net key _ now)
        ]

  length-update_table :
      (rt : RouteTable fl) (net : NeighborId → NeighborState) (n : NeighborId) (key : RouteKey)
      (adv : Advertisement) (hold now : ℕ)
      → length rt.entries ≤ max_route_keys
      → length (update_table fl rt net n key adv hold now).entries ≤ max_route_keys
  unfolding update_table
  length-update_table rt net n key adv hold now le = elim (Option-cases (find_entry fl key rt)) [
    | inl new ↦ elim (Bool-cases (is_refused fl rt (net n) key adv hold)) [
      | inl bad ↦ rw (new, bad, update_table) le
      | inr good ↦ elim (Bool-cases (leb max_route_keys (length rt.entries))) [
        | inl full ↦ rw (new, good, full, update_table) le
        | inr free ↦ rw (new, good, free, update_table) (grown new (ground arith))
      ]
    ]
    | inr (entry, at) ↦ elim (Option-cases (get ℕ_discrete n entry.routes)) [
      | inl absent ↦ elim (Bool-cases (is_refused fl rt (net n) key adv hold)) [
        | inl bad ↦ rw (at, absent, bad, update_table) le
        | inr good ↦ rw (at, absent, good, update_table) (kept entry at (new_route fl))
      ]
      | inr (r, there) ↦ rw (at, there, update_table) (kept entry at r)
    ]
  ]
    where
      grown :
          find_entry fl key rt ≡ none
          → suc (length rt.entries) ≤ max_route_keys
          → length (update_entry fl rt net n key (new_entry fl) (new_route fl) adv hold now).entries
            ≤ max_route_keys
      grown new free =
          let step = length-update_entry rt net n key (new_entry fl) (new_route fl) adv hold now in
          omega (arith, step, free, room_at new (length rt.entries))

      kept :
          (entry : KeyEntry fl)
          → find_entry fl key rt ≡ some entry
          → (r : RouteInfo fl)
          → length (update_entry fl rt net n key entry r adv hold now).entries ≤ max_route_keys
      kept entry at r =
          let step = length-update_entry rt net n key entry r adv hold now in
          omega (arith, step, le, room_at at (length rt.entries))

  -- However many prefixes its neighbors send, the table never has more than `max_route_keys`.
  pub length-update :
      (rt : RouteTable fl) (net : NeighborId → NeighborState) (n : NeighborId) (key : RouteKey)
      (adv : Advertisement) (hold now : ℕ)
      → length rt.entries ≤ max_route_keys
      → length (update fl rt net n key adv hold now).entries ≤ max_route_keys
  unfolding update
  length-update rt net n key adv hold now le = elim (Bool-cases (adv.metric == metric_infinity)) [
    | inl gone ↦ rw (gone, update) (length-update_table rt net n key adv hold now le)
    | inr finite ↦
        rw (finite, update)
          (length-update_table (forget_retraction fl rt n) net n key adv hold now le)
  ]
