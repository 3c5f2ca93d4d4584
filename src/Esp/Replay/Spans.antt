-- ===== src/Esp/Replay/Spans.antt =====
-- What `clearRange` of esp/replay.go clears, digit by digit.
pub mod Digits
pub mod Masks
pub mod Span
pub mod Words
use native.Mathlib.Decide.{ℕ_discrete, dec_lt, dec_le}
use native.Mathlib.Nat.{mod-lt, one-le-pow, div-le_self}
use ranet_lite.Prelude.{ℕ, zero, suc, ◌+◌, ◌-◌, ◌*◌, ◌/◌, ◌%◌, ◌^◌, ◌≤◌, ◌<◌, min}
use ranet_lite.Prelude.{◌≡◌, ◌≢◌, refl, sym, ap, ◌∙◌, ◌⊎◌, inl, inr, arith}
use ranet_lite.Prelude.{Bool, true, false, ◌&&◌, ◌||◌, List, [], ◌∷◌, bit_and, bit_or}
use ranet_lite.Prelude.{
  ltb, leb, ◌==◌, if◌then◌else◌, Bool-cases, leb→le, ==_iff, ==_ne, get_or, set, length,
}
use ranet_lite.Prelude.{get_or-set_self, get_or-set_ne, length-set}
use ranet_lite.Prelude.Bytes.{u32, u64}
use ranet_lite.Prelude.Bits.{
  test_bit, test_bit-zero, test_bit-le-one, test_bit-bit_and, test_bit-div_pow,
}
use ranet_lite.Prelude.Bits.{test_bit-mod_pow, test_bit-mul_pow_above, test_bit-mul_pow_below}
use ranet_lite.Prelude.Bits.{test_bit-complement, test_bit_of_lt}
use ranet_lite.Esp.Replay.{ReplayWindow, all_ones, clear_bits, clear_words, clear_head, clear_tail}
use ranet_lite.Esp.Replay.{clear_span, clear_range}
use ranet_lite.Esp.Replay.Spans.Digits.{digit}
use ranet_lite.Esp.Replay.Spans.Span.{clear_span-none, clear_span_lem}

if_or :
    (p q r : Bool) (d : ℕ)
    → (p || q) ≡ r
    → (if p then 0 else if q then 0 else d) ≡ (if r then 0 else d)
if_or true q r d e = rw (← e) refl
if_or false q r d e = rw (← e) refl

-- How far a position of the window stands after the start of a range, around the window.
abbrev pub steps_after : ℕ → ℕ → ℕ → ℕ
steps_after window start b = if leb start b then b - start else b + window - start

module _ (w : ReplayWindow) (start n b : ℕ) (small : w.window < 2 ^ 31) (some_window : 0 < w.window)
    (fits : n ≤ w.window) (inside : b < w.window) where
  abbrev from : ℕ
  from = start % w.window

  from-lt : from < w.window
  from-lt = mod-lt start some_window

  range_once : from + n ≤ w.window → clear_range w start n ≡ clear_span w from n
  unfolding clear_range
  range_once h = elim (Bool-cases (n == 0)) [
    | inl k ↦ rw k (sym (clear_span-none w from n b (omega (arith, h, small)) ((==_iff _ _).0 k)))
    | inr k ↦
        let flat : ltb w.window (u32 (from + n)) ≡ false = ground (arith, h, small) in
        rw (k, flat) refl
  ]

  range_twice :
      w.window < from + n
      → clear_range w start n
        ≡ clear_span (clear_span w from (w.window - from)) 0 (n - (w.window - from))
  unfolding clear_range
  range_twice h =
      let some_bits : (n == 0) ≡ false = ground (arith, h, from-lt) in
      let wraps : ltb w.window (u32 (from + n)) ≡ true = ground (arith, h, small, fits, from-lt) in
      rw (some_bits, wraps) refl

  -- For a window of at least one bit and below 2 ^ 31 and at most as many bits to clear as it
  -- has, `clear_range` clears the positions of the window that stand fewer than n steps after its
  -- start, around the window, and no other position of the window.
  pub clear_range_lem :
      digit (clear_range w start n).mask b
      ≡ (if ltb (steps_after w.window (start % w.window) b) n then 0 else digit w.mask b)
  clear_range_lem = elim (dec_le (from + n) w.window) [
    | yes h ↦
        let same : (leb from b && ltb b (from + n)) ≡ ltb (steps_after w.window from b) n =
          ground (arith, h, from-lt, inside) in
        rw (range_once h, ← same) (clear_span_lem w from n b (omega (arith, h, small)))
    | no h ↦
        let head : ℕ = w.window - from in
        let half = clear_span_lem w from head b (omega (arith, from-lt, small)) in
        let whole =
          clear_span_lem (clear_span w from head) 0 (n - head) b (omega (arith, fits, small)) in
        let either : ((leb 0 b && ltb b (0 + (n - head))) || (leb from b && ltb b (from + head)))
            ≡ ltb (steps_after w.window from b) n =
          ground (arith, h, fits, from-lt, inside) in
        rw (range_twice (omega (arith, h)), whole, half)
          (if_or (leb 0 b && ltb b (0 + (n - head))) (leb from b && ltb b (from + head))
            (ltb (steps_after w.window from b) n) (digit w.mask b) either)
  ]
