-- ===== src/Babel/Hello.antt =====
-- The Hello history and the link-quality costs of internal/babel/etx.go.
pub mod Vector
pub mod History
pub mod Costs
use ranet_lite.Prelude.{ℕ, zero, suc, ◌+◌, ◌-◌, ◌*◌, ◌/◌, ◌%◌, ◌^◌, min, bit_and, bit_or}
use ranet_lite.Prelude.{Bool, true, false, not, ◌||◌, ltb, leb, ◌==◌, if◌then◌else◌}
use ranet_lite.Prelude.{Option, none, some}
use ranet_lite.Prelude.Bytes.{u16}
use ranet_lite.Babel.Metric.{sub16, scale_cost, metric_infinity, CostParams, LinkQuality, etx, off}

abbrev pub history_depth : ℕ
history_depth = 16

abbrev pub reboot_drift : ℕ
reboot_drift = 16

abbrev pub beta_window : ℕ
beta_window = history_depth

pub record HelloHistory : Type 0 where
  pub bits : ℕ
  pub expected : ℕ
  pub started : Bool
  pub samples : ℕ

abbrev pub empty_history : HelloHistory
empty_history = record { bits = 0; expected = 0; started = false; samples = 0 }

unfoldable pub shift_in : HelloHistory → ℕ → ℕ → HelloHistory
shift_in h bit count =
    if leb history_depth count
    then record h { bits = if bit == 0 then 0 else 2 ^ 16 - 1; samples = history_depth }
    else record h {
      bits = bit_or (u16 (h.bits * 2 ^ count)) bit;
      samples = min (h.samples + count) history_depth;
    }

-- The end of `record`, shared by its two branches that keep the vector.
unfoldable pub arrive : HelloHistory → ℕ → HelloHistory
arrive h seqno = record (shift_in h 1 1) { expected = u16 (seqno + 1) }

-- `max(0, samples - behind)` is the truncated subtraction.
unfoldable pub record_hello : HelloHistory → ℕ → HelloHistory × Bool
record_hello h seqno =
    let ahead = sub16 seqno h.expected in
    let behind = sub16 h.expected seqno in
    if not h.started
    then (record { bits = 1; expected = u16 (seqno + 1); started = true; samples = 1 }, true)
    else if leb ahead reboot_drift
    then (arrive (shift_in h 0 ahead) seqno, true)
    else if leb behind reboot_drift
    then (
      arrive (record h { bits = h.bits / 2 ^ behind; samples = h.samples - behind }) seqno,
      true,
    )
    else (h, false)

unfoldable pub missed : HelloHistory → HelloHistory
missed h =
    if not h.started
    then h
    else let h' = shift_in h 0 1 in record h' { expected = u16 (h'.expected + 1) }

-- `for i := range window`: `left` rounds to go from bit `i` on.
unfoldable pub count_bits : ℕ → ℕ → ℕ → ℕ → ℕ
count_bits bits zero i received = received
count_bits bits (suc left) i received =
    count_bits bits left (i + 1) (if bit_and bits (2 ^ i) == 0 then received else received + 1)

pub record Reception : Type 0 where
  pub received : ℕ
  pub window : ℕ

-- `none` is `ok == false`.
unfoldable pub beta : HelloHistory → Option Reception
beta h =
    let window = min beta_window h.samples in
    if not h.started
    then none
    else some (record { received = count_bits h.bits window 0 0; window = window })

unfoldable pub is_etx : LinkQuality → Bool
is_etx etx = true
is_etx off = false

-- The cost of a base figure at a reception.
unfoldable pub received_cost : ℕ → Reception → ℕ
received_cost base r =
    if r.received == 0 then metric_infinity else scale_cost base r.window r.received

unfoldable pub rx_cost : CostParams → HelloHistory → ℕ
rx_cost p h = elim (beta h) [
  | none ↦ p.rx_cost
  | some r ↦ if not (is_etx p.quality) then p.rx_cost else received_cost p.rx_cost r
]

unfoldable pub link_quality_cost : CostParams → HelloHistory → ℕ → ℕ
link_quality_cost p h txcost =
    if txcost == metric_infinity
    then metric_infinity
    else if not (is_etx p.quality)
    then txcost
    else elim (beta h) [ none ↦ txcost | some r ↦ received_cost txcost r ]
