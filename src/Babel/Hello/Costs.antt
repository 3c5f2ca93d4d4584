-- ===== src/Babel/Hello/Costs.antt =====
-- `rxCost` and `linkQualityCost` of internal/babel/etx.go in terms of the outcomes held.
use native.Mathlib.Nat.{mul-div_left}
use ranet_lite.Prelude.{ℕ, zero, suc, ◌*◌, ◌/◌, ◌≤◌, min, ◌≡◌, refl, arith}
use ranet_lite.Prelude.{
  Bool, true, false, List, [], ◌∷◌, length, replicate, ◌==◌, if◌then◌else◌, none, inl, inr,
  Bool-cases,
}
use ranet_lite.Prelude.{◌∙◌, length-replicate}
use ranet_lite.Prelude.Bytes.{IsU16}
use ranet_lite.Babel.Metric.{metric_infinity, CostParams, etx}
use ranet_lite.Babel.Metric.Laws.{scale_cost-eq-min, le-scale_cost}
use ranet_lite.Babel.Hello.{HelloHistory, rx_cost, link_quality_cost, received_cost, is_etx, beta}
use ranet_lite.Babel.Hello.Vector.{Holds}
use ranet_lite.Babel.Hello.History.{count_true, beta-Holds}

-- The expected transmission count of a link over which the outcomes `l` were seen.
abbrev pub etx_cost : ℕ → List Bool → ℕ
etx_cost base l =
    if count_true l == 0
    then metric_infinity
    else min (base * length l / count_true l) metric_infinity

count_true-le : (l : List Bool) → count_true l ≤ length l
count_true-le [] = omega arith
count_true-le (true ∷ l) = omega (arith, count_true-le l)
count_true-le (false ∷ l) = omega (arith, count_true-le l)

infinite_cost : (l : List Bool) → etx_cost metric_infinity l ≡ metric_infinity
infinite_cost l = ground (
  arith,
  scale_cost-eq-min metric_infinity (length l) (count_true l),
  le-scale_cost metric_infinity (length l) (count_true l),
  count_true-le l,
)

received_cost-etx :
    (base : ℕ) (l : List Bool)
    → received_cost base (record { received = count_true l; window = length l }) ≡ etx_cost base l
unfolding received_cost
received_cost-etx base l = ground (arith, scale_cost-eq-min base (length l) (count_true l))

module _ (p : CostParams) (h : HelloHistory) (l : List Bool) (q : p.quality ≡ etx) (w : Holds h l)
    (run : h.started ≡ true) where
  rx_cost-etx : rx_cost p h ≡ etx_cost p.rx_cost l
  unfolding rx_cost is_etx
  rx_cost-etx = rw (beta-Holds h l w run, q, rx_cost) (received_cost-etx p.rx_cost l)

  link_quality_cost-etx : (txcost : ℕ) → link_quality_cost p h txcost ≡ etx_cost txcost l
  unfolding link_quality_cost is_etx
  link_quality_cost-etx txcost =
      rw (beta-Holds h l w run, q) (ground (arith, received_cost-etx txcost l, infinite_cost l))

-- Under `quality etx`, with at least one Hello recorded, both costs are the base figure times the
-- inverse of the share of Hellos that arrived, cut off at infinity, and infinity if none did.
pub etx_costs :
    (p : CostParams) (h : HelloHistory) (l : List Bool) (txcost : ℕ)
    → p.quality ≡ etx
    → Holds h l
    → h.started ≡ true
    → (rx_cost p h ≡ etx_cost p.rx_cost l) × (link_quality_cost p h txcost ≡ etx_cost txcost l)
etx_costs p h l txcost q w run =
    (rx_cost-etx p h l q w run, link_quality_cost-etx p h l q w run txcost)

beta-unstarted : (h : HelloHistory) → h.started ≡ false → beta h ≡ none
unfolding beta
beta-unstarted h e = rw e refl

-- A link never looks better than the 16-bit figure that its neighbor reports, under either
-- estimator, before the first Hello and for every outcome held after it.
pub le-link_quality_cost :
    (p : CostParams) (h : HelloHistory) (l : List Bool) (txcost : ℕ)
    → Holds h l
    → IsU16 txcost
    → txcost ≤ link_quality_cost p h txcost
unfolding link_quality_cost received_cost is_etx
le-link_quality_cost p h l txcost w fits = elim (Bool-cases h.started) [
  | inr unstarted ↦ let none_yet = beta-unstarted h unstarted in rw none_yet (ground arith)
  | inl run ↦
      rw (beta-Holds h l w run)
        (ground (arith, le-scale_cost txcost (length l) (count_true l), count_true-le l))
]

all_true : (n : ℕ) → count_true (replicate n true) ≡ n
all_true zero = refl
all_true (suc n) = omega (arith, all_true n)

all_false : (n : ℕ) → count_true (replicate n false) ≡ 0
all_false zero = refl
all_false (suc n) = omega (arith, all_false n)

lossless : (n base : ℕ) → IsU16 base → etx_cost base (replicate (suc n) true) ≡ base
lossless n base h =
    rw
      (all_true (suc n), length-replicate (suc n) true, mul-div_left base {n = suc n} (omega arith))
      (ground arith)

lost_all : (n base : ℕ) → etx_cost base (replicate (suc n) false) ≡ metric_infinity
lost_all n base = rw (all_false (suc n)) refl

-- A link that lost nothing keeps exactly the configured figure and the neighbor's, and one that
-- delivered nothing costs infinity in both directions.
pub lossless_costs :
    (p : CostParams) (h g : HelloHistory) (n txcost : ℕ)
    → p.quality ≡ etx
    → IsU16 p.rx_cost
    → IsU16 txcost
    → Holds h (replicate (suc n) true)
    → h.started ≡ true
    → Holds g (replicate (suc n) false)
    → g.started ≡ true
    → (rx_cost p h ≡ p.rx_cost)
      × (link_quality_cost p h txcost ≡ txcost)
      × (rx_cost p g ≡ metric_infinity)
      × (link_quality_cost p g txcost ≡ metric_infinity)
lossless_costs p h g n txcost q hr ht w run v run' = (
  rx_cost-etx p h (replicate (suc n) true) q w run ∙ lossless n p.rx_cost hr,
  link_quality_cost-etx p h (replicate (suc n) true) q w run txcost ∙ lossless n txcost ht,
  rx_cost-etx p g (replicate (suc n) false) q v run' ∙ lost_all n p.rx_cost,
  link_quality_cost-etx p g (replicate (suc n) false) q v run' txcost ∙ lost_all n txcost,
)
