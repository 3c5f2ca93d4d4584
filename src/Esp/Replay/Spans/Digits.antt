-- ===== src/Esp/Replay/Spans/Digits.antt =====
-- A word of the bitmap of esp/replay.go written or masked, digit by digit.
use native.Mathlib.Decide.{ℕ_discrete, dec_lt}
use ranet_lite.Prelude.{ℕ, zero, suc, ◌-◌, ◌/◌, ◌%◌, ◌^◌, ◌≤◌, ◌<◌, min}
use ranet_lite.Prelude.{◌≡◌, ◌≢◌, refl, sym, ap, ◌∙◌, ◌⊎◌, inl, inr, arith}
use ranet_lite.Prelude.{List, [], ◌∷◌, bit_and}
use ranet_lite.Prelude.{get_or, set, length}
use ranet_lite.Prelude.{get_or-set_self, get_or-set_ne, length-set}
use ranet_lite.Prelude.Bits.{test_bit, test_bit-zero, test_bit-le-one, test_bit-bit_and}
use ranet_lite.Prelude.Bits.{test_bit-complement}
use ranet_lite.Esp.Replay.{all_ones, clear_bits}

-- The digit of the bitmap at a position.
abbrev pub digit : List ℕ → ℕ → ℕ
digit mask b = test_bit (get_or mask (b / 64) 0) (b % 64)

get_or_past : (xs : List ℕ) (i : ℕ) → length xs ≤ i → get_or xs i 0 ≡ 0
get_or_past [] i h = refl
get_or_past (x ∷ xs) zero h = absurd (omega arith)
get_or_past (x ∷ xs) (suc i) h = get_or_past xs i (omega arith)

-- A word written, or nothing where there is no such word.
digit-set :
    (mask : List ℕ) (i v b : ℕ)
    → b / 64 ≡ i
    → (digit (set mask i v) b ≡ test_bit v (b % 64))
      ⊎ ((digit (set mask i v) b ≡ 0) × (digit mask b ≡ 0))
digit-set mask i v b e = elim (dec_lt i (length mask)) [
  | yes lt ↦ inl (rw (e, get_or-set_self mask i v 0 lt) refl)
  | no ge ↦ inr (
    rw
        (
          e,
          get_or_past (set mask i v) i (omega (arith, length-set mask i v)),
          test_bit-zero (b % 64),
        )
        refl,
    rw (e, get_or_past mask i (omega arith), test_bit-zero (b % 64)) refl,
  )
]

pub digit-set_zero : (mask : List ℕ) (i b : ℕ) → b / 64 ≡ i → digit (set mask i 0) b ≡ 0
digit-set_zero mask i b e = elim (digit-set mask i 0 b e) [
  | inl g ↦ g ∙ test_bit-zero (b % 64)
  | inr (g, h) ↦ g
]

pub digit-set_ne : (mask : List ℕ) (i v b : ℕ) → b / 64 ≢ i → digit (set mask i v) b ≡ digit mask b
digit-set_ne mask i v b ne = rw (get_or-set_ne mask i (b / 64) v 0 (λ e. ne (sym e))) refl

module _ (mask : List ℕ) (i m b : ℕ) (small : m < 2 ^ 64) where
  -- The word that is left where the word is cleared by a mask.
  cleared_word :
      test_bit (bit_and (get_or mask i 0) (all_ones - m)) (b % 64)
      ≡ min (test_bit (get_or mask i 0) (b % 64)) (1 - test_bit m (b % 64))
  cleared_word =
      test_bit-bit_and (get_or mask i 0) (all_ones - m) (b % 64)
      ∙ ap (λ (d : ℕ). min (test_bit (get_or mask i 0) (b % 64)) d)
          (test_bit-complement 64 m (b % 64) small (omega arith))

  pub clear_bits-in : b / 64 ≡ i → test_bit m (b % 64) ≡ 1 → digit (clear_bits mask i m) b ≡ 0
  unfolding clear_bits
  clear_bits-in e one = elim (digit-set mask i (bit_and (get_or mask i 0) (all_ones - m)) b e) [
    | inl g ↦ omega (arith, g, cleared_word, one)
    | inr (g, h) ↦ g
  ]

  pub clear_bits-out :
      (b / 64 ≡ i → test_bit m (b % 64) ≡ 0) → digit (clear_bits mask i m) b ≡ digit mask b
  unfolding clear_bits
  clear_bits-out zeroed = elim (ℕ_discrete (b / 64) i) [
    | no ne ↦ digit-set_ne mask i (bit_and (get_or mask i 0) (all_ones - m)) b ne
    | yes e ↦ elim (digit-set mask i (bit_and (get_or mask i 0) (all_ones - m)) b e) [
      | inl g ↦
          let before : digit mask b ≡ test_bit (get_or mask i 0) (b % 64) =
            ap (λ (t : ℕ). test_bit (get_or mask t 0) (b % 64)) e in
          omega
            (arith, g, before, cleared_word, zeroed e, test_bit-le-one (get_or mask i 0) (b % 64))
      | inr (g, h) ↦ g ∙ sym h
    ]
  ]

  pub clear_bits-kept : digit mask b ≡ 0 → digit (clear_bits mask i m) b ≡ 0
  unfolding clear_bits
  clear_bits-kept z = elim (ℕ_discrete (b / 64) i) [
    | no ne ↦ digit-set_ne mask i (bit_and (get_or mask i 0) (all_ones - m)) b ne ∙ z
    | yes e ↦ elim (digit-set mask i (bit_and (get_or mask i 0) (all_ones - m)) b e) [
      | inl g ↦ omega (arith, g, cleared_word, rw e at z)
      | inr (g, h) ↦ g
    ]
  ]
