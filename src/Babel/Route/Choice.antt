-- ===== src/Babel/Route/Choice.antt =====
-- What the pass of `selectRoute` finds, internal/babel/route.go.
use mathlib.Core.Logic.{◌≢◌, ◌⊎◌, inl, inr}
use mathlib.Core.Path.{subst}
use native.Mathlib.Nat.{le_refl}
use ranet_lite.Prelude.{ℕ, ◌+◌, ◌≤◌, ◌<◌, ◌≡◌, refl, sym, ◌∙◌, arith}
use ranet_lite.Prelude.{true, Bool-cases}
use ranet_lite.Prelude.{Option, none, some, List, [], ◌∷◌, ltb, ◌==◌, if◌then◌else◌}
use ranet_lite.Babel.Metric.{metric_infinity, CostParams, saturating_add}
use ranet_lite.Babel.Keys.{RouteKey}
use ranet_lite.Babel.Source.{SourceTable, feasible}
use ranet_lite.Babel.Neighbor.{NeighborState}
use ranet_lite.Babel.Route.{
  Floats, NeighborId, RouteInfo, advertised, route_cost, smooth, is_neighbor,
}
use ranet_lite.Babel.Route.Select.{Candidate, Pass, age, beats, offer, pass_live, pass_route}
use ranet_lite.Babel.Route.Select.{pass_routes}

module _ (fl : Floats) where
  open fl use {Float, less}

  -- A retracted route costs infinity, whatever the link.
  retracted_cost :
      (r : RouteInfo fl) (n : NeighborState) (now : ℕ) (cost : CostParams)
      → r.rx_metric ≡ metric_infinity
      → route_cost fl r n now cost ≡ metric_infinity
  unfolding route_cost saturating_add
  retracted_cost r n now cost e = ground arith

  smooth_keeps :
      (r : RouteInfo fl) (c now tau : ℕ) → advertised fl (smooth fl r c now tau) ≡ advertised fl r
  unfolding smooth advertised
  smooth_keeps r c now tau = refl

  module _ (net : NeighborId → NeighborState) (sources : SourceTable) (cost : CostParams) (tau : ℕ)
      (key : RouteKey) (selected : Option NeighborId) (now : ℕ) where
    -- A route that may be selected at the cost `c`: it has not expired, the link and the
    -- neighbor's metric make a finite cost, and the feasibility condition holds.
    pub record IsUsable (n : NeighborId) (r : RouteInfo fl) (c : ℕ) : Type 0 where
      pub live : now < r.expires_at
      pub cost_is : route_cost fl r (net n) now cost ≡ c
      pub finite : c ≢ metric_infinity
      pub is_feasible : feasible sources key (advertised fl r) (net n).peer_id ≡ true

    -- One round either offers the route as a candidate or leaves both winners alone.
    pub data Round (n : NeighborId) (r : RouteInfo fl) (p q : Pass fl) : Type 0 where
      skipped :
          ((c : ℕ) → IsUsable n r c → ⊥)
          → q.best ≡ p.best
          → q.incumbent ≡ p.incumbent
          → Round n r p q
      offered :
          (c : Candidate fl)
          → c.neighbor ≡ n
          → IsUsable n r c.cost
          → q.best ≡ (if beats fl net c p.best then some c else p.best)
          → q.incumbent ≡ (if is_neighbor (some n) selected then some c else p.incumbent)
          → Round n r p q

    live_Round :
        (n : NeighborId) (r : RouteInfo fl) (p : Pass fl)
        → now < r.expires_at
        → Round n r p (pass_live fl net sources cost tau key selected now n r p)
    unfolding pass_live offer
    live_Round n r p live = elim (Bool-cases (c == metric_infinity)) [
      | inl e ↦ rw e (skipped (λ k u. absurd (ground (arith, u.cost_is, u.finite))) refl refl)
      | inr finite ↦ elim (Bool-cases (feasible sources key (advertised fl r) (net n).peer_id)) [
        | inl ok ↦
            rw (finite, smooth_keeps r c now tau, ok)
              (offered
                (record { neighbor = n; cost = c; smoothed = (smooth fl r c now tau).smoothed })
                refl
                (record { live = live; cost_is = refl; finite = ground arith; is_feasible = ok })
                refl refl)
        | inr bad ↦
            rw (finite, smooth_keeps r c now tau, bad)
              (skipped (λ k u. ground (arith, u.is_feasible)) refl refl)
      ]
    ]
      where
        c : ℕ
        c = route_cost fl r (net n) now cost

    retracted_Pass :
        (n : NeighborId) (r : RouteInfo fl) (p : Pass fl)
        → r.rx_metric ≡ metric_infinity
        → let q = pass_live fl net sources cost tau key selected now n r p in
          (q.best ≡ p.best) × (q.incumbent ≡ p.incumbent)
    unfolding pass_live
    retracted_Pass n r p e = rw (retracted_cost r (net n) now cost e) (refl, refl)

    pass_Round :
        (n : NeighborId) (r : RouteInfo fl) (p : Pass fl)
        → Round n r p (pass_route fl net sources cost tau key selected now n r p)
    unfolding pass_route age
    pass_Round n r p = elim (Bool-cases (ltb now r.expires_at)) [
      | inl live ↦ rw (live, pass_route) (live_Round n r p (ground arith))
      | inr old ↦ elim (Bool-cases (r.rx_metric == metric_infinity)) [
        | inl gone ↦ rw (old, gone, pass_route) (skipped (λ k u. ground (arith, u.live)) refl refl)
        | inr held ↦
            let r' : RouteInfo fl = record r {
              rx_metric = metric_infinity;
              expires_at = now + r.hold;
            } in
            let (b, i) = retracted_Pass n r' p refl in
            rw (old, held, pass_route) (skipped (λ k u. ground (arith, u.live)) b i)
      ]
    ]

    -- The candidate is one of the routes, and may be selected.
    abbrev pub Offers : List (NeighborId × RouteInfo fl) → Candidate fl → Type 0
    Offers [] c = ⊥
    Offers ((n, r) ∷ rest) c = ((c.neighbor ≡ n) × IsUsable n r c.cost) ⊎ Offers rest c

    -- The winner is at least as good as a cost at a name.
    abbrev pub Beats : Option (Candidate fl) → ℕ → ℕ → Type 0
    Beats none k id = ⊥
    Beats (some b) k id = (b.cost < k) ⊎ ((b.cost ≡ k) × ((net b.neighbor).peer_id ≤ id))

    Round-best :
        (n : NeighborId) (r : RouteInfo fl) (p q : Pass fl) (c : Candidate fl)
        → Round n r p q
        → q.best ≡ some c
        → ((c.neighbor ≡ n) × IsUsable n r c.cost) ⊎ (p.best ≡ some c)
    Round-best n r p q c (skipped never b i) e = inr (sym b ∙ e)
    Round-best n r p q c (offered d at u b i) e = elim (Bool-cases (beats fl net d p.best)) [
      | inl won ↦
          let same : d ≡ c = ground arith in
          inl (subst (λ (x : Candidate fl). (x.neighbor ≡ n) × IsUsable n r x.cost) same (at, u))
      | inr lost ↦ inr (ground arith)
    ]

    Round-incumbent :
        (n : NeighborId) (r : RouteInfo fl) (p q : Pass fl) (c : Candidate fl)
        → Round n r p q
        → q.incumbent ≡ some c
        → (((c.neighbor ≡ n) × IsUsable n r c.cost)
            × (is_neighbor (some c.neighbor) selected ≡ true))
          ⊎ (p.incumbent ≡ some c)
    Round-incumbent n r p q c (skipped never b i) e = inr (sym i ∙ e)
    Round-incumbent n r p q c (offered d at u b i) e =
        elim (Bool-cases (is_neighbor (some n) selected)) [
          | inl own ↦
              let same : d ≡ c = ground arith in
              inl (
                subst (λ (x : Candidate fl). (x.neighbor ≡ n) × IsUsable n r x.cost) same (at, u),
                subst (λ (x : Candidate fl). is_neighbor (some x.neighbor) selected ≡ true) same
                    (rw at own),
              )
          | inr other ↦ inr (ground arith)
        ]

    Round-keep :
        (n : NeighborId) (r : RouteInfo fl) (p q : Pass fl) (k id : ℕ)
        → Round n r p q
        → Beats p.best k id
        → Beats q.best k id
    unfolding beats
    Round-keep n r p q k id (skipped never b i) h = rw b h
    Round-keep n r p q k id (offered d at u b i) h = rw b (by_best p.best h)
      where
        by_best :
            (o : Option (Candidate fl))
            → Beats o k id
            → Beats (if beats fl net d o then some d else o) k id
        by_best none h = absurd h
        by_best (some x) h = elim (Bool-cases (beats fl net d (some x))) [
          | inl won ↦ rw (won, beats) (ground arith)
          | inr lost ↦ rw (lost, beats) h
        ]

    Round-Beats :
        (n : NeighborId) (r : RouteInfo fl) (p q : Pass fl) (c : ℕ)
        → Round n r p q
        → IsUsable n r c
        → Beats q.best c (net n).peer_id
    unfolding beats
    Round-Beats n r p q c (skipped never b i) u = absurd (never c u)
    Round-Beats n r p q c (offered d at v b i) u =
        let k : d.cost ≡ c = sym v.cost_is ∙ u.cost_is in rw (b, ← k, ← at) (by_best p.best)
      where
        by_best :
            (o : Option (Candidate fl))
            → Beats (if beats fl net d o then some d else o) d.cost (net d.neighbor).peer_id
        by_best none = inr (refl, le_refl _)
        by_best (some x) = elim (Bool-cases (beats fl net d (some x))) [
          | inl won ↦ rw (won, beats) (inr (refl, le_refl _))
          | inr lost ↦ rw (lost, beats) (ground arith)
        ]

    abbrev after_pass : List (NeighborId × RouteInfo fl) → Pass fl → Pass fl
    after_pass routes p = pass_routes fl net sources cost tau key selected now routes p

    pub pass_best :
        (routes : List (NeighborId × RouteInfo fl)) (p : Pass fl) (c : Candidate fl)
        → (after_pass routes p).best ≡ some c
        → Offers routes c ⊎ (p.best ≡ some c)
    unfolding pass_routes
    pass_best [] p c e = inr e
    pass_best ((n, r) ∷ rest) p c e = elim (pass_best rest _ c e) [
      | inl later ↦ inl (inr later)
      | inr sooner ↦ elim (Round-best n r p _ c (pass_Round n r p) sooner) [
        | inl here ↦ inl (inl here)
        | inr before ↦ inr before
      ]
    ]

    pub pass_incumbent :
        (routes : List (NeighborId × RouteInfo fl)) (p : Pass fl) (c : Candidate fl)
        → (after_pass routes p).incumbent ≡ some c
        → (Offers routes c × (is_neighbor (some c.neighbor) selected ≡ true))
          ⊎ (p.incumbent ≡ some c)
    unfolding pass_routes
    pass_incumbent [] p c e = inr e
    pass_incumbent ((n, r) ∷ rest) p c e = elim (pass_incumbent rest _ c e) [
      | inl later ↦ inl (inr later.0, later.1)
      | inr sooner ↦ elim (Round-incumbent n r p _ c (pass_Round n r p) sooner) [
        | inl here ↦ inl (inl here.0, here.1)
        | inr before ↦ inr before
      ]
    ]

    pass_keeps :
        (routes : List (NeighborId × RouteInfo fl)) (p : Pass fl) (k id : ℕ)
        → Beats p.best k id
        → Beats (after_pass routes p).best k id
    unfolding pass_routes
    pass_keeps [] p k id h = h
    pass_keeps ((n, r) ∷ rest) p k id h =
        pass_keeps rest _ k id (Round-keep n r p _ k id (pass_Round n r p) h)

    pub pass-Beats :
        (routes : List (NeighborId × RouteInfo fl)) (p : Pass fl) (c : Candidate fl)
        → Offers routes c
        → Beats (after_pass routes p).best c.cost (net c.neighbor).peer_id
    unfolding pass_routes
    pass-Beats [] p c h = absurd h
    pass-Beats ((n, r) ∷ rest) p c (inl (at, u)) =
        rw at (
          pass_keeps rest _ c.cost (net n).peer_id
            (Round-Beats n r p _ c.cost (pass_Round n r p) u))
    pass-Beats ((n, r) ∷ rest) p c (inr later) = pass-Beats rest _ c later
