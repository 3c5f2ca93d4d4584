-- ===== src/Esp/Replay/Spans/Masks.antt =====
-- The masks that `clearSpan` of esp/replay.go shifts together, digit by digit.
use native.Mathlib.Nat.{mod-lt, one-le-pow, div-le_self}
use ranet_lite.Prelude.{ℕ, ◌+◌, ◌-◌, ◌*◌, ◌/◌, ◌^◌, ◌≤◌, ◌<◌}
use ranet_lite.Prelude.{◌≡◌, sym, ap, ◌∙◌, arith}
use ranet_lite.Prelude.Bytes.{u64}
use ranet_lite.Prelude.Bits.{test_bit, test_bit-zero, test_bit-div_pow}
use ranet_lite.Prelude.Bits.{test_bit-mod_pow, test_bit-mul_pow_above, test_bit-mul_pow_below}
use ranet_lite.Prelude.Bits.{test_bit-complement, test_bit_of_lt}
use ranet_lite.Esp.Replay.{all_ones}

pub ones_below : (k : ℕ) → k < 64 → test_bit all_ones k ≡ 1
ones_below k h =
    test_bit-complement 64 0 k (omega arith) h ∙ ap (λ (d : ℕ). 1 - d) (test_bit-zero k)

ones_above : (k : ℕ) → 64 ≤ k → test_bit all_ones k ≡ 0
ones_above k h = test_bit_of_lt all_ones 64 k (omega arith) h

pub u64-lt : (x : ℕ) → u64 x < 2 ^ 64
u64-lt x = mod-lt x (one-le-pow 64 2 (omega arith))

-- `x << s` on 64 bits, at a digit of the word.
pub shifted_above : (x s k : ℕ) → k < 64 → s ≤ k → test_bit (u64 (x * 2 ^ s)) k ≡ test_bit x (k - s)
shifted_above x s k h le =
    let e : s + (k - s) ≡ k = omega arith in
    test_bit-mod_pow (x * 2 ^ s) 64 k h
    ∙ ap (λ (t : ℕ). test_bit (x * 2 ^ s) t) (sym e)
    ∙ test_bit-mul_pow_above x s (k - s)

pub shifted_below : (x s k : ℕ) → k < 64 → k < s → test_bit (u64 (x * 2 ^ s)) k ≡ 0
shifted_below x s k h lt = test_bit-mod_pow (x * 2 ^ s) 64 k h ∙ test_bit-mul_pow_below x s k lt

-- The mask of a span within one word.
abbrev pub inner_mask : ℕ → ℕ → ℕ
inner_mask s n = u64 (all_ones / 2 ^ (64 - n) * 2 ^ s)

pub inner_mask-in : (s n k : ℕ) → s + n ≤ 64 → s ≤ k → k < s + n → test_bit (inner_mask s n) k ≡ 1
inner_mask-in s n k h le lt =
    shifted_above (all_ones / 2 ^ (64 - n)) s k (omega arith) le
    ∙ test_bit-div_pow all_ones (64 - n) (k - s)
    ∙ ones_below (64 - n + (k - s)) (omega arith)

pub inner_mask-before : (s n k : ℕ) → k < 64 → k < s → test_bit (inner_mask s n) k ≡ 0
inner_mask-before s n k h lt = shifted_below (all_ones / 2 ^ (64 - n)) s k h lt

pub inner_mask-after :
    (s n k : ℕ) → s + n ≤ 64 → k < 64 → s + n ≤ k → test_bit (inner_mask s n) k ≡ 0
inner_mask-after s n k h lt le =
    shifted_above (all_ones / 2 ^ (64 - n)) s k lt (omega arith)
    ∙ test_bit-div_pow all_ones (64 - n) (k - s)
    ∙ ones_above (64 - n + (k - s)) (omega arith)

abbrev pub tail_mask : ℕ → ℕ
tail_mask t = all_ones / 2 ^ (64 - t)

pub tail_mask-in : (t k : ℕ) → t ≤ 64 → k < t → test_bit (tail_mask t) k ≡ 1
tail_mask-in t k h lt = test_bit-div_pow all_ones (64 - t) k ∙ ones_below (64 - t + k) (omega arith)

pub tail_mask-out : (t k : ℕ) → t ≤ 64 → t ≤ k → test_bit (tail_mask t) k ≡ 0
tail_mask-out t k h le =
    test_bit-div_pow all_ones (64 - t) k ∙ ones_above (64 - t + k) (omega arith)

pub tail_mask-lt : (t : ℕ) → tail_mask t < 2 ^ 64
tail_mask-lt t = omega (arith, div-le_self all_ones (2 ^ (64 - t)))
