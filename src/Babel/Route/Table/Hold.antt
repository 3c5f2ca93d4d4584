-- ===== src/Babel/Route/Table/Hold.antt =====
-- The hold of a retracted route, `update` of internal/babel/route.go.
use ranet_lite.Prelude.{ℕ, ◌+◌, ◌<◌, ◌≡◌, ◌≢◌, refl, ◌∙◌, arith}
use ranet_lite.Prelude.{List, [], ◌∷◌}
use ranet_lite.Prelude.Order.{All}
use ranet_lite.Babel.Metric.{metric_infinity}
use ranet_lite.Babel.Keys.{Advertisement}
use ranet_lite.Babel.Route.{Floats, RouteInfo}
use ranet_lite.Babel.Route.Table.{acquire}

-- An update as it arrives: what it says, the hold of its interval and the time.
pub record Arrival : Type 0 where
  pub adv : Advertisement
  pub hold : ℕ
  pub now : ℕ

abbrev pub IsRetraction : Arrival → Type 0
IsRetraction a = a.adv.metric ≡ metric_infinity

module _ (fl : Floats) where
  -- The route after updates that arrive one after the other.
  abbrev pub acquire_all : RouteInfo fl → List Arrival → RouteInfo fl
  acquire_all r [] = r
  acquire_all r (a ∷ later) = acquire_all (acquire fl r a.adv a.hold a.now) later

  acquire_again :
      (r : RouteInfo fl) (a : Arrival)
      → IsRetraction a
      → r.rx_metric ≡ metric_infinity
      → let q = acquire fl r a.adv a.hold a.now in
        (q.rx_metric ≡ metric_infinity) × (q.hold ≡ r.hold) × (q.expires_at ≡ r.expires_at)
  unfolding acquire
  acquire_again r a e f = ground arith

  acquire_repeated :
      (r : RouteInfo fl) (later : List Arrival)
      → All IsRetraction later
      → r.rx_metric ≡ metric_infinity
      → let q = acquire_all r later in
        (q.rx_metric ≡ metric_infinity) × (q.hold ≡ r.hold) × (q.expires_at ≡ r.expires_at)
  acquire_repeated r [] h f = (f, refl, refl)
  acquire_repeated r (a ∷ later) h f =
      let (m, k, t) = acquire_again r a h.0 f in
      let (m', k', t') = acquire_repeated (acquire fl r a.adv a.hold a.now) later h.1 m in
      (m', k' ∙ k, t' ∙ t)

  -- However often a neighbor repeats a retraction, the route is held at infinity from the first one
  -- for the interval of the update that it replaced, and no longer.
  pub acquire_hold :
      (r : RouteInfo fl) (a : Arrival) (later : List Arrival)
      → IsRetraction a
      → All IsRetraction later
      → r.rx_metric ≢ metric_infinity
      → 0 < r.hold
      → let q = acquire_all r (a ∷ later) in
        (q.rx_metric ≡ metric_infinity) × (q.hold ≡ r.hold) × (q.expires_at ≡ a.now + r.hold)
  unfolding acquire
  acquire_hold r a later e h finite pos =
      let (m, k, t) = acquire_repeated (acquire fl r a.adv a.hold a.now) later h (ground arith) in
      (m, k ∙ ground arith, t ∙ ground arith)
