-- ===== src/Babel/Metric.antt =====
-- The 16-bit arithmetic of the Babel speaker: sequence numbers (internal/babel/route.go),
-- saturating costs and the round-trip penalty (internal/babel/rtt.go, internal/babel/etx.go).
pub mod Laws
use ranet_lite.Prelude.{ℕ, ◌+◌, ◌-◌, ◌*◌, ◌/◌, ◌%◌, ◌^◌, Bool}
use ranet_lite.Prelude.{ltb, leb, ◌==◌, if◌then◌else◌, ◌&&◌, ◌||◌}
use ranet_lite.Prelude.Bytes.{u16, u64}
use ranet_lite.Prelude.{not, Option, some, none}

abbrev pub metric_infinity : ℕ
metric_infinity = 0xffff

-- `a - b` on uint16.
abbrev pub sub16 : ℕ → ℕ → ℕ
sub16 a b = (a + 2 ^ 16 - b) % 2 ^ 16

-- `int16(d) > 0`.
unfoldable pub seqno_gt : ℕ → ℕ → Bool
seqno_gt a b = ltb 0 (sub16 a b) && ltb (sub16 a b) (2 ^ 15)

unfoldable pub saturating_add : ℕ → ℕ → ℕ
saturating_add a b =
    if a == metric_infinity || b == metric_infinity
    then metric_infinity
    else if leb metric_infinity (a + b)
    then metric_infinity
    else u16 (a + b)

-- The products stay below 2 ^ 64: a uint16 times at most sixteen.
unfoldable pub scale_cost : ℕ → ℕ → ℕ → ℕ
scale_cost base window received =
    let scaled = base * window / received in
    if leb metric_infinity scaled then metric_infinity else u16 scaled

-- RTTCost and CostParams. A duration is a number of nanoseconds; one that is negative in the
-- source takes the branch of 0, since `low` is not negative.
pub record RttCost : Type 0 where
  pub weight : ℕ
  pub low : ℕ
  pub high : ℕ

pub data LinkQuality : Type 0 where
  etx off : LinkQuality

pub record CostParams : Type 0 where
  pub rx_cost : ℕ
  pub rtt : RttCost
  pub quality : LinkQuality

unfoldable pub rtt_penalty : CostParams → ℕ → Bool → ℕ
rtt_penalty p rtt have_rtt =
    if not have_rtt || p.rtt.weight == 0 || leb p.rtt.high p.rtt.low || leb rtt p.rtt.low
    then 0
    else if leb p.rtt.high rtt
    then p.rtt.weight
    else u16 (u64 (p.rtt.weight * (rtt - p.rtt.low)) / (p.rtt.high - p.rtt.low))

unfoldable pub cost : CostParams → ℕ → Bool → ℕ
cost p rtt have_rtt = saturating_add p.rx_cost (rtt_penalty p rtt have_rtt)

-- A signed duration: `negsuc n` is `-(n + 1)`.
pub data ℤ : Type 0 where
  pos negsuc : ℕ → ℤ

-- `microDelta` reads the difference of two clocks as an int32, in microseconds.
unfoldable pub micro_delta : ℕ → ℕ → ℤ
micro_delta b a =
    let d = (b + 2 ^ 32 - a) % 2 ^ 32 in
    if ltb d (2 ^ 31) then pos (d * 1000) else negsuc ((2 ^ 32 - d) * 1000 - 1)
