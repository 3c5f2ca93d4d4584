-- ===== src/Sadr/Address.antt =====
-- Addresses of the forwarding table, sadr/table.go. A [16]byte is the number that its bytes are, the
-- first one highest, so the bit that the source counts as p is the digit 127 - p.
pub mod Heads
pub mod Common
use ranet_lite.Prelude.{ℕ, zero, suc, ◌+◌, ◌-◌, ◌*◌, ◌/◌, ◌%◌, ◌^◌, bit_xor}
use ranet_lite.Prelude.{Bool, ◌&&◌, leb, ◌==◌, if◌then◌else◌}
use ranet_lite.Prelude.Bits.{test_bit}

abbrev pub byte_at : ℕ → ℕ → ℕ
byte_at a i = a / 2 ^ (8 * (15 - i)) % 256

unfoldable pub branch : ℕ → ℕ → ℕ
branch a p = byte_at a (p / 8) / 2 ^ (7 - p % 8) % 2

-- `binary.BigEndian.Uint64` of the first and of the last eight bytes.
abbrev pub high : ℕ → ℕ
high a = a / 2 ^ 64

abbrev pub low : ℕ → ℕ
low a = a % 2 ^ 64

-- `bits.LeadingZeros64` at any width.
unfoldable pub leading_zeros : ℕ → ℕ → ℕ
leading_zeros zero x = 0
leading_zeros (suc w) x = let rest = leading_zeros w x in if test_bit x w == 1 then 0 else suc rest

unfoldable pub common_bits : ℕ → ℕ → ℕ
common_bits a b =
    let common = leading_zeros 64 (bit_xor (high a) (high b)) in
    if common == 64 then common + leading_zeros 64 (bit_xor (low a) (low b)) else common

-- `matches`, of a node with this address and length.
unfoldable pub prefix_matches : ℕ → ℕ → ℕ → ℕ → Bool
prefix_matches address prefix_len hi lo =
    let high_diff = bit_xor (high address) hi in
    if leb prefix_len 64
    then high_diff / 2 ^ (64 - prefix_len) == 0
    else high_diff == 0 && bit_xor (low address) lo / 2 ^ (128 - prefix_len) == 0
