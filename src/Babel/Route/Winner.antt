-- ===== src/Babel/Route/Winner.antt =====
-- What `selectRoute` of internal/babel/route.go leaves in the table.
use native.Mathlib.Decide.{ℕ_discrete}
use mathlib.Core.Logic.{◌≢◌, ◌⊎◌, inl, inr}
use ranet_lite.Prelude.{◌≡◌, refl, arith}
use ranet_lite.Prelude.{◌&&◌, Bool-cases, Option-cases}
use ranet_lite.Prelude.{Option, none, some, List, [], ◌∷◌, ◌++◌, ltb, ◌==◌}
use ranet_lite.Prelude.Assoc.{
  get, get-put_self, get-remove_self, Distinct, get-remove_ne, get-put_ne, Distinct-put,
  Distinct-remove,
}
use ranet_lite.Babel.Keys.{RouteKey, RouteKey-discrete}
use ranet_lite.Babel.Route.{Floats, NeighborId, RouteInfo, KeyEntry, RouteTable, Selection}
use ranet_lite.Babel.Route.{find_entry, starve, advertised}
use ranet_lite.Babel.Route.Select.{Candidate, Pass, choose, selection_for}
use ranet_lite.Babel.Route.Select.{store_entry, publish, ask, starve_all}

module _ (fl : Floats) where
  open fl use {Float, less}

  -- The choice is the best candidate, or the incumbent.
  pub choose_cases :
      (b i : Option (Candidate fl)) (c : Candidate fl)
      → choose fl b i ≡ some c
      → (b ≡ some c) ⊎ (i ≡ some c)
  unfolding choose
  choose_cases none i c e = cc
  choose_cases (some b) none c e = inl e
  choose_cases (some b) (some i) c e = ground arith

  -- Where there is a best candidate there is a choice.
  pub choose-some :
      (b : Candidate fl) (i : Option (Candidate fl))
      → (c : Candidate fl) × (choose fl (some b) i ≡ some c) × ((some b ≡ some c) ⊎ (i ≡ some c))
  unfolding choose
  choose-some b none = (b, refl, inl refl)
  choose-some b (some i) = elim (Bool-cases (b.neighbor == i.neighbor)) [
    | inl same ↦ (b, rw same refl, inl refl)
    | inr other ↦ elim (Bool-cases (ltb b.cost i.cost && less b.smoothed i.smoothed)) [
      | inl better ↦ (b, rw (other, better) refl, inl refl)
      | inr worse ↦ (i, rw (other, worse) refl, inr refl)
    ]
  ]

  pub selection_neighbor :
      (routes : List (NeighborId × RouteInfo fl)) (c : Candidate fl)
      → ((selection_for fl routes (some c)).neighbor ≡ some c.neighbor)
        × ((selection_for fl routes (some c)).cost ≡ c.cost)
  unfolding selection_for
  selection_neighbor routes c = ground arith

  pub selection_cases :
      (routes : List (NeighborId × RouteInfo fl)) (o : Option (Candidate fl)) (n : NeighborId)
      → (selection_for fl routes o).neighbor ≡ some n
      → (c : Candidate fl) × (o ≡ some c)
        × (c.neighbor ≡ n)
        × ((selection_for fl routes o).cost ≡ c.cost)
  selection_cases routes none n e = unfold selection_for in cc
  selection_cases routes (some c) n e =
      let (at, costs) = selection_neighbor routes c in (c, refl, ground arith, costs)

  pub entries-publish :
      (rt : RouteTable fl) (key : RouteKey) (old new : Selection)
      → (publish fl rt key old new).entries ≡ rt.entries
  unfolding publish
  entries-publish rt key old new = ground arith

  entries-starve_all :
      (rt : RouteTable fl) (key : RouteKey) (routes : List (NeighborId × RouteInfo fl))
      (ns : List NeighborId)
      → (starve_all fl rt key routes ns).entries ≡ rt.entries
  unfolding starve_all starve
  entries-starve_all rt key routes [] = refl
  entries-starve_all rt key routes (n ∷ ns) = elim (Option-cases (get ℕ_discrete n routes)) [
    | inl none_left ↦ rw (none_left, starve_all) (entries-starve_all rt key routes ns)
    | inr (r, at) ↦
        rw (at, starve_all)
          (entries-starve_all (starve fl rt key n (advertised fl r)) key routes ns)
  ]

  pub entries-ask :
      (rt : RouteTable fl) (key : RouteKey) (p : Pass fl) (old new : Selection)
      → (ask fl rt key p old new).entries ≡ rt.entries
  unfolding ask
  entries-ask rt key p old new = ground (arith, entries-starve_all rt key p.kept p.unfeasible)

  pub find-store_entry :
      (rt : RouteTable fl) (key : RouteKey) (entry : KeyEntry fl)
      → entry.routes ≢ []
      → find_entry fl key (store_entry fl rt key entry) ≡ some entry
  unfolding store_entry
  find-store_entry rt key entry ne = by_routes entry.routes refl
    where
      by_routes :
          (rs : List (NeighborId × RouteInfo fl))
          → entry.routes ≡ rs
          → find_entry fl key (store_entry fl rt key entry) ≡ some entry
      by_routes [] e = absurd (ne e)
      by_routes (r ∷ rs) e = rw e (get-put_self RouteKey-discrete key _ rt.entries)

  pub gone-store_entry :
      (rt : RouteTable fl) (key : RouteKey) (entry : KeyEntry fl)
      → Distinct RouteKey-discrete rt.entries
      → entry.routes ≡ []
      → find_entry fl key (store_entry fl rt key entry) ≡ none
  unfolding store_entry
  gone-store_entry rt key entry d e = rw e (get-remove_self RouteKey-discrete key rt.entries d)

  pub snoc-nonempty :
      (xs : List (NeighborId × RouteInfo fl)) (x : NeighborId × RouteInfo fl)
      → (xs ++ (x ∷ [])) ≢ []
  snoc-nonempty [] x e = cc
  snoc-nonempty (y ∷ ys) x e = cc

  pub find-store_entry_ne :
      (rt : RouteTable fl) (key j : RouteKey) (entry : KeyEntry fl)
      → key ≢ j
      → find_entry fl j (store_entry fl rt key entry) ≡ find_entry fl j rt
  unfolding store_entry
  find-store_entry_ne rt key j entry ne = by_routes entry.routes refl
    where
      by_routes :
          (rs : List (NeighborId × RouteInfo fl))
          → entry.routes ≡ rs
          → find_entry fl j (store_entry fl rt key entry) ≡ find_entry fl j rt
      by_routes [] e = rw e (get-remove_ne RouteKey-discrete key j rt.entries ne)
      by_routes (r ∷ rs) e = rw e (get-put_ne RouteKey-discrete key j _ rt.entries ne)

  pub store_entry-Distinct :
      (rt : RouteTable fl) (key : RouteKey) (entry : KeyEntry fl)
      → Distinct RouteKey-discrete rt.entries
      → Distinct RouteKey-discrete (store_entry fl rt key entry).entries
  unfolding store_entry
  store_entry-Distinct rt key entry d = by_routes entry.routes refl
    where
      by_routes :
          (rs : List (NeighborId × RouteInfo fl))
          → entry.routes ≡ rs
          → Distinct RouteKey-discrete (store_entry fl rt key entry).entries
      by_routes [] e = rw e (Distinct-remove RouteKey-discrete key rt.entries d)
      by_routes (r ∷ rs) e = rw e (Distinct-put RouteKey-discrete key _ rt.entries d)
