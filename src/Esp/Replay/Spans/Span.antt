-- ===== src/Esp/Replay/Spans/Span.antt =====
-- `clearSpan` of esp/replay.go, digit by digit.
use native.Mathlib.Decide.{ℕ_discrete, dec_lt, dec_le}
use ranet_lite.Prelude.{ℕ, suc, ◌+◌, ◌-◌, ◌/◌, ◌%◌, ◌^◌, ◌≤◌, ◌<◌}
use ranet_lite.Prelude.{◌≡◌, ◌≢◌, refl, ◌∙◌, ◌⊎◌, inl, inr, arith}
use ranet_lite.Prelude.{true, false, ◌&&◌, List}
use ranet_lite.Prelude.{ltb, leb, ◌==◌, if◌then◌else◌, Bool-cases, leb→le, ==_iff, ==_ne}
use ranet_lite.Prelude.Bytes.{u32}
use ranet_lite.Esp.Replay.{ReplayWindow, clear_bits, clear_words, clear_head, clear_tail}
use ranet_lite.Esp.Replay.{clear_span}
use ranet_lite.Esp.Replay.Spans.Digits.{digit, clear_bits-in, clear_bits-out}
use ranet_lite.Esp.Replay.Spans.Masks.{
  u64-lt, inner_mask, inner_mask-in, inner_mask-before, inner_mask-after,
}
use ranet_lite.Esp.Replay.Spans.Words.{
  clear_words-kept, clear_words-in, clear_words-out, clear_head-in, clear_head-out, clear_tail-in,
  clear_tail-out, clear_tail-kept,
}

-- The first word and the last that a span covers whole, and the words at its ends.
abbrev first_whole : ℕ → ℕ
first_whole start = if start % 64 == 0 then start / 64 else start / 64 + 1

abbrev last_whole : ℕ → ℕ
last_whole end =
    let last = u32 (end + 2 ^ 32 - 1) / 64 in
    if end % 64 == 0 then last else u32 (last + 2 ^ 32 - 1)

module _ (mask : List ℕ) (start end b : ℕ) (several : start / 64 < (end - 1) / 64)
    (small : end < 2 ^ 32) where
  abbrev ends : List ℕ
  ends = clear_tail (clear_head mask start) end (u32 (end + 2 ^ 32 - 1) / 64)

  last_word : u32 (end + 2 ^ 32 - 1) / 64 ≡ (end - 1) / 64
  last_word = omega (arith, several, small)

  first_whole_lem :
      (first_whole start ≡ start / 64) × (start % 64 ≡ 0)
      ⊎ (first_whole start ≡ start / 64 + 1) × (start % 64 ≢ 0)
  first_whole_lem = elim (Bool-cases (start % 64 == 0)) [
    | inl k ↦ inl (rw k refl, (==_iff _ _).0 k)
    | inr k ↦ inr (rw k refl, ==_ne _ _ k)
  ]

  last_whole_lem : suc (last_whole end) ≡ end / 64
  last_whole_lem = elim (Bool-cases (end % 64 == 0)) [
    | inl k ↦
        let e : end % 64 ≡ 0 = (==_iff _ _).0 k in
        let whole : last_whole end ≡ u32 (end + 2 ^ 32 - 1) / 64 = rw k refl in
        omega (arith, whole, last_word, e, several, small)
    | inr k ↦
        let ne : end % 64 ≢ 0 = ==_ne _ _ k in
        let part : last_whole end ≡ u32 (u32 (end + 2 ^ 32 - 1) / 64 + 2 ^ 32 - 1) = rw k refl in
        omega (arith, part, last_word, ne, several, small)
  ]

  ends-in :
      start ≤ b
      → b < end
      → (first_whole start ≤ b / 64 → b / 64 ≤ last_whole end → ⊥)
      → digit ends b ≡ 0
  ends-in le lt apart = elim (dec_le (first_whole start) (b / 64)) [
    | no before ↦
        clear_tail-kept (clear_head mask start) end (u32 (end + 2 ^ 32 - 1) / 64) b
          (elim first_whole_lem [
            | inl (e, z) ↦ absurd (omega (arith, e, z, before, le))
            | inr (e, ne) ↦ clear_head-in mask start b le (omega (arith, e, before, le)) ne
          ])
    | yes from ↦
        let beyond : end / 64 ≤ b / 64 = elim (dec_le (b / 64) (last_whole end)) [
          | yes k ↦ absurd (apart from k)
          | no k ↦ omega (arith, k, last_whole_lem)
        ] in
        clear_tail-in (clear_head mask start) end (u32 (end + 2 ^ 32 - 1) / 64) b
          (omega (arith, beyond, lt, last_word)) (omega (arith, beyond, lt))
  ]

  ends-out : (start ≤ b → end ≤ b) → digit ends b ≡ digit mask b
  ends-out o =
      clear_tail-out (clear_head mask start) end (u32 (end + 2 ^ 32 - 1) / 64) b
        (λ e. omega (arith, o (omega (arith, e, last_word, several)), e, last_word))
      ∙ clear_head-out mask start b (λ le e. absurd (omega (arith, o le, e, several)))

  words_out :
      (start ≤ b → end ≤ b)
      → first_whole start ≤ last_whole end
      → first_whole start ≤ b / 64
      → first_whole start + (last_whole end - first_whole start + 1) ≤ b / 64
  words_out o h le = elim first_whole_lem [
    | inl (e, z) ↦ omega (arith, e, z, h, le, last_whole_lem, o (omega (arith, e, z, le)))
    | inr (e, ne) ↦ omega (arith, e, h, le, last_whole_lem, o (omega (arith, e, le)))
  ]

  if_words-in :
      start ≤ b
      → b < end
      → digit
          (if leb (first_whole start) (last_whole end)
            then clear_words (first_whole start) (last_whole end - first_whole start + 1) ends
            else ends)
          b
        ≡ 0
  if_words-in le lt = elim (Bool-cases (leb (first_whole start) (last_whole end))) [
    | inr k ↦
        let over : last_whole end < first_whole start = ground (arith, k) in
        rw k (ends-in le lt (λ f l. absurd (omega (arith, over, f, l))))
    | inl k ↦
        let count : ℕ = last_whole end - first_whole start + 1 in
        let order : first_whole start ≤ last_whole end = leb→le _ _ k in
        rw k (elim (dec_le (first_whole start) (b / 64)) [
          | no f ↦
              clear_words-kept count (first_whole start) ends b
                (ends-in le lt (λ g l. absurd (f g)))
          | yes f ↦ elim (dec_le (b / 64) (last_whole end)) [
            | no l ↦
                clear_words-kept count (first_whole start) ends b
                  (ends-in le lt (λ g m. absurd (l m)))
            | yes l ↦ clear_words-in count (first_whole start) ends b f (omega (arith, order, f, l))
          ]
        ])
  ]

  if_words-out :
      (start ≤ b → end ≤ b)
      → digit
          (if leb (first_whole start) (last_whole end)
            then clear_words (first_whole start) (last_whole end - first_whole start + 1) ends
            else ends)
          b
        ≡ digit mask b
  if_words-out o = elim (Bool-cases (leb (first_whole start) (last_whole end))) [
    | inr k ↦ rw k (ends-out o)
    | inl k ↦ rw k (
        clear_words-out (last_whole end - first_whole start + 1) (first_whole start) ends b
          (words_out o (leb→le _ _ k))
        ∙ ends-out o)
  ]

module _ (w : ReplayWindow) (start n b : ℕ) (small : start + n < 2 ^ 32) where
  abbrev end_lem : u32 (start + n) ≡ start + n
  end_lem = omega (arith, small)

  abbrev covered : ℕ
  covered = last_whole (start + n) - first_whole start + 1

  clear_span-one :
      n ≢ 0
      → start / 64 ≡ (start + n - 1) / 64
      → (clear_span w start n).mask ≡ clear_bits w.mask (start / 64) (inner_mask (start % 64) n)
  unfolding clear_span
  clear_span-one ne e =
      let some_bits : (n == 0) ≡ false = ground arith in
      let one : (start / 64 == u32 (start + n + 2 ^ 32 - 1) / 64) ≡ true =
        ground (arith, e, ne, small) in
      rw (some_bits, end_lem, one) refl

  clear_span-several :
      start / 64 < (start + n - 1) / 64
      → (clear_span w start n).mask ≡ (
          let ends =
            clear_tail (clear_head w.mask start) (start + n) (u32 (start + n + 2 ^ 32 - 1) / 64) in
          if leb (first_whole start) (last_whole (start + n))
          then clear_words (first_whole start) covered ends
          else ends)
  unfolding clear_span
  clear_span-several lt =
      let some_bits : (n == 0) ≡ false = ground (arith, lt) in
      let apart : (start / 64 == u32 (start + n + 2 ^ 32 - 1) / 64) ≡ false =
        ground (arith, lt, small) in
      rw (some_bits, end_lem, apart)
        (elim (Bool-cases (leb (first_whole start) (last_whole (start + n)))) [
          | inl k ↦ rw k refl
          | inr k ↦ rw k refl
        ])

  clear_span-in : start ≤ b → b < start + n → digit (clear_span w start n).mask b ≡ 0
  clear_span-in le lt = elim (dec_lt (start / 64) ((start + n - 1) / 64)) [
    | yes several ↦
        rw (clear_span-several several) (if_words-in w.mask start (start + n) b several small le lt)
    | no h ↦
        let one : start / 64 ≡ (start + n - 1) / 64 = omega (arith, h, le, lt) in
        rw (clear_span-one (omega (arith, le, lt)) one) (
          clear_bits-in w.mask (start / 64) (inner_mask (start % 64) n) b (u64-lt _)
            (omega (arith, one, le, lt))
            (inner_mask-in (start % 64) n (b % 64) (omega (arith, one, le, lt))
              (omega (arith, one, le, lt)) (omega (arith, one, le, lt))))
  ]

  pub clear_span-none : n ≡ 0 → clear_span w start n ≡ w
  unfolding clear_span
  clear_span-none e = let none : (n == 0) ≡ true = (==_iff _ _).1 e in rw none refl

  clear_span-out :
      (start ≤ b → start + n ≤ b) → digit (clear_span w start n).mask b ≡ digit w.mask b
  clear_span-out o = elim (ℕ_discrete n 0) [
    | yes e ↦ rw (clear_span-none e) refl
    | no ne ↦ elim (dec_lt (start / 64) ((start + n - 1) / 64)) [
      | yes several ↦
          rw (clear_span-several several) (if_words-out w.mask start (start + n) b several small o)
      | no h ↦
          let one : start / 64 ≡ (start + n - 1) / 64 = omega (arith, h, ne) in
          let room : start % 64 + n ≤ 64 = omega (arith, one, ne) in
          rw (clear_span-one ne one) (
            clear_bits-out w.mask (start / 64) (inner_mask (start % 64) n) b (u64-lt _) (λ e.
              elim (dec_le start b) [
                | no lt ↦
                    inner_mask-before (start % 64) n (b % 64) (omega arith) (omega (arith, lt, e))
                | yes le ↦
                    inner_mask-after (start % 64) n (b % 64) room (omega arith)
                      (omega (arith, o le, e))
              ]))
    ]
  ]

  -- For a span that does not wrap, `clear_span`, which works by words, leaves the bitmap that
  -- has 0 at every position of the span and its old digit at every other position.
  pub clear_span_lem :
      digit (clear_span w start n).mask b
      ≡ (if leb start b && ltb b (start + n) then 0 else digit w.mask b)
  clear_span_lem = elim (dec_le start b) [
    | no lt ↦
        let k : (leb start b && ltb b (start + n)) ≡ false = ground (arith, lt) in
        rw k (clear_span-out (λ le. absurd (lt le)))
    | yes le ↦ elim (dec_lt b (start + n)) [
      | yes h ↦
          let k : (leb start b && ltb b (start + n)) ≡ true = ground (arith, le, h) in
          rw k (clear_span-in le h)
      | no h ↦
          let k : (leb start b && ltb b (start + n)) ≡ false = ground (arith, h) in
          rw k (clear_span-out (λ g. omega (arith, h)))
    ]
  ]
