-- ===== src/Examples/Links.antt =====
-- The Hello history, the costs and the liveness of a link at concrete inputs, internal/babel.
use mathlib.Core.Logic.{◌⊎◌, ◌↔◌}
use ranet_lite.Prelude.{ℕ, ◌+◌, ◌*◌, ◌%◌, ◌^◌, ◌≡◌, ◌≤◌, ◌<◌, refl, arith, Bool, true, false, ◌-◌}
use ranet_lite.Prelude.{Option, none, some, List, [], ◌∷◌, length}
use ranet_lite.Babel.Metric.{
  seqno_gt, CostParams, etx, scale_cost, rtt_penalty, micro_delta, pos, negsuc, metric_infinity,
  saturating_add,
}
use ranet_lite.Babel.Metric.Laws.{seqno_gt_iff, rtt_penalty_lem, micro_delta_lem}
use ranet_lite.Babel.Hello.{
  count_bits, received_cost, is_etx, HelloHistory, missed, beta, rx_cost, link_quality_cost,
}
use ranet_lite.Babel.Hello.Vector.{Holds, recent}
use ranet_lite.Babel.Hello.History.{
  Reads, Becomes, record_hello-Becomes, missed-Holds, beta-Holds, count_true,
}
use ranet_lite.Babel.Hello.Costs.{etx_cost, etx_costs, le-link_quality_cost}
use ranet_lite.Babel.Neighbor.{NeighborState, hello_expiry, is_alive, link_cost, forget_link}
use ranet_lite.Babel.Neighbor.Liveness.{is_alive_iff, link_cost_finite, Covers}

seqno_gt_iff_example :
    (seqno_gt 2 65535 ≡ true) ↔ ((d : ℕ) × (0 < d) × (d < 2 ^ 15) × (2 ≡ (65535 + d) % 2 ^ 16))
seqno_gt_iff_example = seqno_gt_iff 2 65535 (omega arith) (omega arith)

abbrev pub params : CostParams
params = record { rx_cost = 96; rtt = record { weight = 192; low = 10; high = 110 }; quality = etx }

rtt_penalty_lem_example :
    (rtt_penalty params 20 true ≤ rtt_penalty params 60 true)
    × (rtt_penalty params 60 true ≤ 192)
    × (rtt_penalty params 7 true ≡ 0)
    × (rtt_penalty params 113 true ≡ 192)
    × (rtt_penalty params 60 false ≡ 0)
rtt_penalty_lem_example = rtt_penalty_lem params 20 60 3 (omega arith) (omega arith) (omega arith)

micro_delta_lem_example :
    (micro_delta ((4_294_967_290 + 10) % 2 ^ 32) 4_294_967_290 ≡ pos (10 * 1000))
    × (micro_delta 4_294_967_290 ((4_294_967_290 + 10) % 2 ^ 32) ≡ negsuc (10 * 1000 - 1))
micro_delta_lem_example = micro_delta_lem 4_294_967_290 10 (omega arith) (omega arith) (omega arith)

-- Arrived, lost, arrived: the latest in the low bit.
abbrev seen : List Bool
seen = true ∷ false ∷ true ∷ []

abbrev pub history : HelloHistory
history = record { bits = 5; expected = 65535; started = true; samples = 3 }

history-Holds : Holds history seen
history-Holds = record { bits = refl; samples = refl; fits = omega arith }

record_hello-Becomes_example : (r : Option (List Bool)) × Reads seen 65535 1 r × Becomes history 1 r
record_hello-Becomes_example =
    record_hello-Becomes history 1 seen history-Holds refl (omega arith) (omega arith)

missed-Holds_example :
    Holds (missed history) (recent (false ∷ seen))
    × ((missed history).expected ≡ 0)
    × ((missed history).started ≡ true)
missed-Holds_example = missed-Holds history seen history-Holds refl

beta-Holds_example :
    beta history ≡ some (record { received = count_true seen; window = length seen })
beta-Holds_example = beta-Holds history seen history-Holds refl

etx_costs_example :
    (rx_cost params history ≡ etx_cost 96 seen)
    × (link_quality_cost params history 100 ≡ etx_cost 100 seen)
etx_costs_example = etx_costs params history seen 100 refl history-Holds refl

le-link_quality_cost_example : 100 ≤ link_quality_cost params history 100
le-link_quality_cost_example =
    le-link_quality_cost params history seen 100 history-Holds (omega arith)

abbrev lossless : HelloHistory
lossless = record { bits = 7; expected = 9; started = true; samples = 3 }

abbrev lossy : HelloHistory
lossy = record { bits = 0; expected = 9; started = true; samples = 3 }

abbrev pub neighbor_named : ℕ → NeighborState
neighbor_named n = record {
  peer_id = n;
  addr = none;
  alive = true;
  last_hello_time = 1000;
  hello_interval = 400;
  unicast_hello_time = 0;
  unicast_hello_interval = 0;
  multicast_history = history;
  next_hello_due = 1400;
  reported_cost = 96;
  have_reported_cost = true;
  ihu_expiry = 3000;
  measured_rtt = 0;
  have_rtt = false;
  rtt_expiry = 0;
}

is_alive_iff_example :
    (is_alive (neighbor_named 1) 2399 ≡ true)
    ↔ ((true ≡ true) × (Covers 1000 400 2399 ⊎ Covers 0 0 2399))
is_alive_iff_example = is_alive_iff (neighbor_named 1) 2399

finite_link : link_cost (neighbor_named 1) 2399 params < metric_infinity
unfolding link_cost is_alive hello_expiry saturating_add link_quality_cost beta count_bits
    received_cost is_etx scale_cost rtt_penalty
finite_link = omega arith

link_cost_finite_example :
    (is_alive (neighbor_named 1) 2399 ≡ true)
    × (true ≡ true)
    × (2399 < 3000)
    × (link_cost (forget_link (neighbor_named 1)) 2399 params ≡ metric_infinity)
link_cost_finite_example = link_cost_finite (neighbor_named 1) 2399 params finite_link
