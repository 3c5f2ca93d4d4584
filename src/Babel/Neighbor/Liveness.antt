-- ===== src/Babel/Neighbor/Liveness.antt =====
-- When a neighbor counts as up, and what its link costs then, internal/babel/neighbor.go.
use ranet_lite.Prelude.{ℕ, ◌+◌, ◌<◌, ◌≡◌, refl, arith, Bool, true, false, ◌↔◌, ◌⊎◌}
use ranet_lite.Babel.Metric.{CostParams, metric_infinity}
use ranet_lite.Babel.Neighbor.{NeighborState, hello_expiry, is_alive, link_cost, forget_link}
use ranet_lite.Babel.Neighbor.{dead_timeout}

-- A promise of one Hello class that still covers the time.
abbrev pub Covers : ℕ → ℕ → ℕ → Type 0
Covers time interval now = (0 < interval) × (now < time + dead_timeout interval)

-- A neighbor is up exactly while it is marked alive and one of its two Hello classes still covers
-- the time, three and a half intervals from its last scheduled Hello.
pub is_alive_iff :
    (n : NeighborState) (now : ℕ)
    → (is_alive n now ≡ true) ↔ (
        (n.alive ≡ true)
        × (Covers n.last_hello_time n.hello_interval now
            ⊎ Covers n.unicast_hello_time n.unicast_hello_interval now))
unfolding is_alive hello_expiry
is_alive_iff n now = (λ h. ground arith, λ h. ground arith)

-- A link has a finite cost only while the neighbor is up and its last IHU has not expired, and
-- forgetting the link makes it infinite at once.
pub link_cost_finite :
    (n : NeighborState) (now : ℕ) (p : CostParams)
    → link_cost n now p < metric_infinity
    → (is_alive n now ≡ true)
      × (n.have_reported_cost ≡ true)
      × (now < n.ihu_expiry)
      × (link_cost (forget_link n) now p ≡ metric_infinity)
unfolding link_cost forget_link is_alive
link_cost_finite n now p h = (ground arith, ground arith, ground arith, down n.alive)
  where
    down : (b : Bool) → link_cost (forget_link (record n { alive = b })) now p ≡ metric_infinity
    down true = ground arith
    down false = refl
