-- ===== src/Babel/Metric/Laws.antt =====
-- What the 16-bit arithmetic of internal/babel/route.go, rtt.go and etx.go computes.
use native.Mathlib.Nat.{div-le_of_le-mul, le-div_iff_mul-le, div-mul-le_self}
use native.Mathlib.Nat.{mul-le-mul_left, mul-le-mul, le_trans}
use native.Mathlib.Decide.{ℕ_discrete, dec_le}
use mathlib.Core.Logic.{◌⊎◌, inl, inr}
use ranet_lite.Prelude.{ℕ, ◌+◌, ◌-◌, ◌*◌, ◌/◌, ◌%◌, ◌^◌, ◌≤◌, ◌<◌, min, ◌≡◌, arith}
use ranet_lite.Prelude.{true, false, ◌↔◌, leb, ltb, if◌then◌else◌}
use ranet_lite.Prelude.{◌||◌}
use ranet_lite.Prelude.Bytes.{IsU16, IsU32, u16, u64}
use ranet_lite.Babel.Metric.{
  seqno_gt, saturating_add, scale_cost, rtt_penalty, micro_delta, pos, negsuc,
}
use ranet_lite.Babel.Metric.{metric_infinity, CostParams, RttCost, sub16}

seqno_gt_ahead :
    (a b : ℕ)
    → IsU16 a
    → IsU16 b
    → seqno_gt a b ≡ true
    → (d : ℕ) × (0 < d) × (d < 2 ^ 15) × (a ≡ (b + d) % 2 ^ 16)
unfolding seqno_gt
seqno_gt_ahead a b ha hb h = (sub16 a b, ground arith, ground arith, omega arith)

-- `seqno_gt a b` says exactly that `a` is 1 to 2 ^ 15 - 1 steps ahead of `b` on the circle.
pub seqno_gt_iff :
    (a b : ℕ)
    → IsU16 a
    → IsU16 b
    → (seqno_gt a b ≡ true) ↔ ((d : ℕ) × (0 < d) × (d < 2 ^ 15) × (a ≡ (b + d) % 2 ^ 16))
unfolding seqno_gt
seqno_gt_iff a b ha hb = (seqno_gt_ahead a b ha hb, λ (d, p, q, e). ground arith)

-- Of two sequence numbers either one is ahead of the other and not the reverse, or neither is, and
-- then they are equal or opposite on the circle.
pub seqno_gt_asymm :
    (a b : ℕ)
    → IsU16 a
    → IsU16 b
    → ((seqno_gt a b ≡ true) × (seqno_gt b a ≡ false))
      ⊎ (((seqno_gt a b ≡ false) × (seqno_gt b a ≡ true))
          ⊎ ((seqno_gt a b ≡ false)
              × (seqno_gt b a ≡ false)
              × ((a ≡ b) ⊎ (a ≡ (b + 2 ^ 15) % 2 ^ 16))))
unfolding seqno_gt
seqno_gt_asymm a b ha hb = elim (ℕ_discrete (sub16 a b) 0) [
  | yes e ↦ inr (inr (ground arith, ground arith, inl (ground arith)))
  | no e ↦ elim (ℕ_discrete (sub16 a b) (2 ^ 15)) [
    | yes h ↦ inr (inr (ground arith, ground arith, inr (ground arith)))
    | no h ↦ elim (dec_le (sub16 a b) (2 ^ 15)) [
      | yes l ↦ inl (ground arith, ground arith)
      | no g ↦ inr (inl (ground arith, ground arith))
    ]
  ]
]

-- The saturating sum of two metrics is their sum, cut off at infinity.
pub saturating_add-eq-min :
    (a b : ℕ) → IsU16 a → IsU16 b → saturating_add a b ≡ min (a + b) metric_infinity
unfolding saturating_add
saturating_add-eq-min a b ha hb = ground arith

-- The scaled cost is the exact quotient, cut off at infinity.
pub scale_cost-eq-min :
    (base window received : ℕ)
    → scale_cost base window received ≡ min (base * window / received) metric_infinity
unfolding scale_cost
scale_cost-eq-min base window received = ground arith

pub div_mono : (a b c : ℕ) → 0 < c → a ≤ b → a / c ≤ b / c
div_mono a b c positive h = (le-div_iff_mul-le positive).1 (le_trans (div-mul-le_self a c) h)

-- A link's figure never improves by scaling: at most `window` of its Hellos arrived.
pub le-scale_cost :
    (base window received : ℕ)
    → IsU16 base
    → 0 < received
    → received ≤ window
    → base ≤ scale_cost base window received
le-scale_cost base window received hb positive h = rw scale_cost-eq-min (
    omega (
      arith,
      (le-div_iff_mul-le {x = base} {y = base * window} positive).1 (mul-le-mul_left base h),
    ))

-- Between the two bounds nothing wraps, and the penalty is the exact quotient.
rtt_quotient :
    (w x y : ℕ)
    → IsU16 w
    → x < y
    → x < 2 ^ 47
    → (u16 (u64 (w * x) / y) ≡ w * x / y) × (w * x / y ≤ w)
rtt_quotient w x y hw hx hy =
    let below : w * x ≤ w * y = mul-le-mul_left w (omega arith) in
    let wide : w * x ≤ 2 ^ 16 * 2 ^ 47 =
      mul-le-mul {n₂ = 2 ^ 16} {m₂ = 2 ^ 47} (omega arith) (omega arith) in
    let fits : u64 (w * x) ≡ w * x = omega arith in
    let quotient : w * x / y ≤ w = div-le_of_le-mul y (omega arith) in
    (rw fits (omega arith), quotient)

-- The penalty at a measured round trip, without a wrap.
unfoldable pub penalty_line : RttCost → ℕ → ℕ
penalty_line c rtt =
    if leb c.high c.low || leb rtt c.low
    then 0
    else if leb c.high rtt
    then c.weight
    else c.weight * (rtt - c.low) / (c.high - c.low)

module _ (p : CostParams) (r : ℕ) (weight : IsU16 p.rtt.weight) (short : r < 2 ^ 47) where
  rtt_penalty-line : rtt_penalty p r true ≡ penalty_line p.rtt r
  unfolding rtt_penalty penalty_line
  rtt_penalty-line =
      ground (arith, rtt_quotient p.rtt.weight (r - p.rtt.low) (p.rtt.high - p.rtt.low))

  penalty_line-le : penalty_line p.rtt r ≤ p.rtt.weight
  unfolding penalty_line
  penalty_line-le =
      ground (arith, rtt_quotient p.rtt.weight (r - p.rtt.low) (p.rtt.high - p.rtt.low))

penalty_line_mono :
    (p : CostParams) (r s : ℕ)
    → IsU16 p.rtt.weight
    → s < 2 ^ 47
    → r ≤ s
    → penalty_line p.rtt r ≤ penalty_line p.rtt s
unfolding penalty_line
penalty_line_mono p r s hw hs h =
    let c : RttCost = p.rtt in
    ground (
      arith,
      rtt_quotient c.weight (r - c.low) (c.high - c.low),
      div_mono (c.weight * (r - c.low)) (c.weight * (s - c.low)) (c.high - c.low),
      mul-le-mul_left {m = r - c.low} {n = s - c.low} c.weight,
    )

-- For a 16-bit weight and round trips below 2 ^ 47 nanoseconds, and any two bounds, the penalty
-- does not wrap: it never falls as the round trip grows and never exceeds the weight. At any round
-- trip up to the lower bound it is 0. At any from the upper bound on it is the weight, if the
-- bounds are in order, and 0 if they are equal or swapped. Without a measurement it is 0.
pub rtt_penalty_lem :
    (p : CostParams) (r s d : ℕ)
    → IsU16 p.rtt.weight
    → s < 2 ^ 47
    → r ≤ s
    → (rtt_penalty p r true ≤ rtt_penalty p s true)
      × (rtt_penalty p s true ≤ p.rtt.weight)
      × (rtt_penalty p (p.rtt.low - d) true ≡ 0)
      × (rtt_penalty p (p.rtt.high + d) true
          ≡ (if ltb p.rtt.low p.rtt.high then p.rtt.weight else 0))
      × (rtt_penalty p s false ≡ 0)
rtt_penalty_lem p r s d h short le =
    rw (rtt_penalty-line p r h (omega (arith, short, le)), rtt_penalty-line p s h short)
      (
        penalty_line_mono p r s h short le,
        penalty_line-le p s h short,
        unfold rtt_penalty in ground arith,
        unfold rtt_penalty in ground arith,
        unfold rtt_penalty in ground arith,
      )

-- For two readings of a 32-bit microsecond clock that are more than 0 and less than half the range
-- apart, the difference is the gap in nanoseconds in one direction and minus the gap in the other.
pub micro_delta_lem :
    (a d : ℕ)
    → IsU32 a
    → 0 < d
    → d < 2 ^ 31
    → (micro_delta ((a + d) % 2 ^ 32) a ≡ pos (d * 1000))
      × (micro_delta a ((a + d) % 2 ^ 32) ≡ negsuc (d * 1000 - 1))
unfolding micro_delta
micro_delta_lem a d ha positive hd = (ground arith, ground arith)
