-- ===== src/Esp/Replay/Spans/Words.antt =====
-- The words that `clearSpan` of esp/replay.go clears, and the two at its ends.
use native.Mathlib.Decide.{ℕ_discrete, dec_le}
use ranet_lite.Prelude.{ℕ, zero, suc, ◌+◌, ◌-◌, ◌*◌, ◌/◌, ◌%◌, ◌^◌, ◌≤◌, ◌<◌}
use ranet_lite.Prelude.{◌≡◌, ◌≢◌, refl, ◌∙◌, inl, inr, arith}
use ranet_lite.Prelude.{false, List}
use ranet_lite.Prelude.{◌==◌, Bool-cases, set}
use ranet_lite.Prelude.Bytes.{u64}
use ranet_lite.Esp.Replay.{all_ones, clear_words, clear_head, clear_tail}
use ranet_lite.Esp.Replay.Spans.Digits.{
  digit, digit-set_zero, digit-set_ne, clear_bits-in, clear_bits-out, clear_bits-kept,
}
use ranet_lite.Esp.Replay.Spans.Masks.{
  ones_below, u64-lt, shifted_above, shifted_below, tail_mask, tail_mask-in, tail_mask-out,
  tail_mask-lt,
}

pub clear_words-kept :
    (count first : ℕ) (mask : List ℕ) (b : ℕ)
    → digit mask b ≡ 0
    → digit (clear_words first count mask) b ≡ 0
unfolding clear_words
clear_words-kept zero first mask b z = z
clear_words-kept (suc count) first mask b z =
    clear_words-kept count (suc first) (set mask first 0) b (elim (ℕ_discrete (b / 64) first) [
      | no ne ↦ digit-set_ne mask first 0 b ne ∙ z
      | yes e ↦ digit-set_zero mask first b e
    ])

pub clear_words-in :
    (count first : ℕ) (mask : List ℕ) (b : ℕ)
    → first ≤ b / 64
    → b / 64 < first + count
    → digit (clear_words first count mask) b ≡ 0
unfolding clear_words
clear_words-in zero first mask b le lt = absurd (omega (arith, le, lt))
clear_words-in (suc count) first mask b le lt = elim (ℕ_discrete (b / 64) first) [
  | no ne ↦ clear_words-in count (suc first) (set mask first 0) b (omega arith) (omega arith)
  | yes e ↦ clear_words-kept count (suc first) (set mask first 0) b (digit-set_zero mask first b e)
]

pub clear_words-out :
    (count first : ℕ) (mask : List ℕ) (b : ℕ)
    → (first ≤ b / 64 → first + count ≤ b / 64)
    → digit (clear_words first count mask) b ≡ digit mask b
unfolding clear_words
clear_words-out zero first mask b o = refl
clear_words-out (suc count) first mask b o =
    let ne : b / 64 ≢ first = λ e. absurd (omega (arith, o (omega (arith, e)), e)) in
    clear_words-out count (suc first) (set mask first 0) b
      (λ le. omega (arith, o (omega (arith, le))))
    ∙ digit-set_ne mask first 0 b ne

pub clear_head-in :
    (mask : List ℕ) (start b : ℕ)
    → start ≤ b
    → b / 64 ≡ start / 64
    → start % 64 ≢ 0
    → digit (clear_head mask start) b ≡ 0
unfolding clear_head
clear_head-in mask start b le e ne =
    let partial : (start % 64 == 0) ≡ false = ground arith in
    rw partial (
      clear_bits-in mask (start / 64) (u64 (all_ones * 2 ^ (start % 64))) b (u64-lt _) e (
        shifted_above all_ones (start % 64) (b % 64) (omega arith) (omega (arith, le, e))
        ∙ ones_below (b % 64 - start % 64) (omega arith)))

pub clear_head-out :
    (mask : List ℕ) (start b : ℕ)
    → (start ≤ b → b / 64 ≢ start / 64)
    → digit (clear_head mask start) b ≡ digit mask b
unfolding clear_head
clear_head-out mask start b apart = elim (Bool-cases (start % 64 == 0)) [
  | inl k ↦ rw k refl
  | inr k ↦ rw k (
      clear_bits-out mask (start / 64) (u64 (all_ones * 2 ^ (start % 64))) b (u64-lt _) (λ e.
        elim (dec_le start b) [
          | yes le ↦ absurd (apart le e)
          | no lt ↦
              shifted_below all_ones (start % 64) (b % 64) (omega arith) (omega (arith, lt, e))
        ]))
]

pub clear_tail-in :
    (mask : List ℕ) (end last b : ℕ)
    → b / 64 ≡ last
    → b % 64 < end % 64
    → digit (clear_tail mask end last) b ≡ 0
unfolding clear_tail
clear_tail-in mask end last b e lt =
    let partial : (end % 64 == 0) ≡ false = ground arith in
    rw partial (
      clear_bits-in mask last (tail_mask (end % 64)) b (tail_mask-lt (end % 64)) e
        (tail_mask-in (end % 64) (b % 64) (omega arith) lt))

pub clear_tail-out :
    (mask : List ℕ) (end last b : ℕ)
    → (b / 64 ≡ last → end % 64 ≤ b % 64)
    → digit (clear_tail mask end last) b ≡ digit mask b
unfolding clear_tail
clear_tail-out mask end last b past = elim (Bool-cases (end % 64 == 0)) [
  | inl k ↦ rw k refl
  | inr k ↦ rw k (
      clear_bits-out mask last (tail_mask (end % 64)) b (tail_mask-lt (end % 64))
        (λ e. tail_mask-out (end % 64) (b % 64) (omega arith) (past e)))
]

pub clear_tail-kept :
    (mask : List ℕ) (end last b : ℕ) → digit mask b ≡ 0 → digit (clear_tail mask end last) b ≡ 0
unfolding clear_tail
clear_tail-kept mask end last b z = elim (Bool-cases (end % 64 == 0)) [
  | inl k ↦ rw k z
  | inr k ↦ rw k (clear_bits-kept mask last (tail_mask (end % 64)) b (tail_mask-lt (end % 64)) z)
]
