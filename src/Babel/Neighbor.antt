-- ===== src/Babel/Neighbor.antt =====
-- What the speaker keeps of one neighbor, internal/babel/neighbor.go, and the cost that it puts on
-- the link. Times are nanoseconds, and 0 is the zero time, which is before every other.
pub mod Liveness
use ranet_lite.Prelude.{ℕ, ◌+◌, ◌*◌, ◌/◌, ◌^◌, Bool, true, false, not, ◌&&◌, ◌||◌}
use ranet_lite.Prelude.{Option, none, some, ltb, leb, if◌then◌else◌}
use ranet_lite.Babel.Metric.{CostParams, metric_infinity, saturating_add, rtt_penalty}
use ranet_lite.Babel.Hello.{HelloHistory, empty_history, link_quality_cost}
use ranet_lite.Babel.Keys.{PeerId}

-- The fields that liveness and costs read; `addr` is the number of the 128-bit address.
pub record NeighborState : Type 0 where
  pub peer_id : PeerId
  pub addr : Option ℕ
  pub alive : Bool
  pub last_hello_time : ℕ
  pub hello_interval : ℕ
  pub unicast_hello_time : ℕ
  pub unicast_hello_interval : ℕ
  pub multicast_history : HelloHistory
  pub next_hello_due : ℕ
  pub reported_cost : ℕ
  pub have_reported_cost : Bool
  pub ihu_expiry : ℕ
  pub measured_rtt : ℕ
  pub have_rtt : Bool
  pub rtt_expiry : ℕ

-- ff02::1:6
abbrev pub multicast_group : ℕ
multicast_group = 0xff02_0000_0000_0000_0000_0000_0001_0006

unfoldable pub destination : NeighborState → ℕ
destination n = elim n.addr [ none ↦ multicast_group | some a ↦ a ]

abbrev pub dead_timeout : ℕ → ℕ
dead_timeout interval = interval * 7 / 2

-- The later of the two promises; a class that never promised counts as the zero time.
unfoldable pub hello_expiry : NeighborState → ℕ
hello_expiry n =
    let deadline =
      if ltb 0 n.hello_interval then n.last_hello_time + dead_timeout n.hello_interval else 0 in
    let unicast = n.unicast_hello_time + dead_timeout n.unicast_hello_interval in
    if ltb 0 n.unicast_hello_interval && ltb deadline unicast then unicast else deadline

unfoldable pub is_alive : NeighborState → ℕ → Bool
unfolding hello_expiry
is_alive n now = n.alive && ltb now (hello_expiry n)

unfoldable pub forget_link : NeighborState → NeighborState
forget_link n = record n {
  multicast_history = empty_history;
  next_hello_due = 0;
  last_hello_time = 0;
  hello_interval = 0;
  unicast_hello_time = 0;
  unicast_hello_interval = 0;
}

unfoldable pub link_cost : NeighborState → ℕ → CostParams → ℕ
link_cost n now cost =
    if not (is_alive n now) || not n.have_reported_cost || not (ltb now n.ihu_expiry)
    then metric_infinity
    else saturating_add (link_quality_cost cost n.multicast_history n.reported_cost)
        (rtt_penalty cost n.measured_rtt n.have_rtt)
