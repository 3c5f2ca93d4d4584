-- ===== src/Babel/Prefixes/Clean.antt =====
-- Addresses with no bit past the length of their prefix, and what `masked`, the padding and the tail
-- mask of internal/babel/update.go do to them.
use native.Mathlib.Decide.{dec_lt, ℕ_discrete}
use native.Mathlib.Nat.{div-mul-le_self}
use ranet_lite.Prelude.{ℕ, zero, suc, ◌+◌, ◌-◌, ◌*◌, ◌/◌, ◌%◌, ◌^◌, ◌<◌, ◌≤◌}
use ranet_lite.Prelude.{◌≡◌, refl, sym, ap, ◌∙◌, inl, inr, arith}
use ranet_lite.Prelude.{Bool, true, not, ◌&&◌, List, [], ◌∷◌, length, take, bit_and}
use ranet_lite.Prelude.{ltb, leb, ◌==◌, Bool-cases, replicate, get_or, set, and_iff, ==_iff}
use ranet_lite.Prelude.Order.{All}
use ranet_lite.Prelude.Bytes.{IsByte, u8}
use ranet_lite.Prelude.Bits.{test_bit, test_bit-zero, test_bit-bit_and, test_bit-div_pow}
use ranet_lite.Prelude.Bits.{test_bit-mod_pow, test_bit-mul_pow_above, test_bit-mul_pow_below}
use ranet_lite.Prelude.Bits.{test_bit-complement, eq_of_test_bit, test_bit-le-one, bit_and-lt_pow}
use ranet_lite.Babel.Prefixes.{prefix_byte_len, pad, masked, clear_prefix_tail}

-- One bit of an address, counted from its first one.
abbrev pub address_bit : List ℕ → ℕ → ℕ
address_bit octets k = test_bit (get_or octets (k / 8) 0) (7 - k % 8)

-- Bytes, of which no bit at or past the length is set.
pub record IsClean (octets : List ℕ) (plen : ℕ) : Type 0 where
  pub bytes : All IsByte octets
  pub zeros : (k : ℕ) → plen ≤ k → address_bit octets k ≡ 0

byte_zero : (b : ℕ) → b < 256 → ((j : ℕ) → j < 8 → test_bit b j ≡ 0) → b ≡ 0
byte_zero b h z = eq_of_test_bit 8 b 0 h (omega arith) (λ j lt. z j lt ∙ sym (test_bit-zero j))

-- A byte whose low bits are clear is unchanged by the two shifts that clear them.
shifted_back : (b s : ℕ) → b < 256 → ((j : ℕ) → j < s → test_bit b j ≡ 0) → b / 2 ^ s * 2 ^ s ≡ b
shifted_back b s h z =
    eq_of_test_bit 8 (b / 2 ^ s * 2 ^ s) b (omega (arith, div-mul-le_self b (2 ^ s), h)) h (λ j lt.
      elim (dec_lt j s) [
        | yes low ↦ test_bit-mul_pow_below (b / 2 ^ s) s j low ∙ sym (z j low)
        | no high ↦
            let e : s + (j - s) ≡ j = omega (arith, high) in
            ap (λ (t : ℕ). test_bit (b / 2 ^ s * 2 ^ s) t) (sym e)
            ∙ test_bit-mul_pow_above (b / 2 ^ s) s (j - s)
            ∙ test_bit-div_pow b s (j - s)
            ∙ ap (λ (t : ℕ). test_bit b t) e
      ])

-- The mask of a partial byte.
tail_mask-above : (s j : ℕ) → j < 8 → s ≤ j → test_bit (u8 (0xff * 2 ^ s)) j ≡ 1
tail_mask-above s j h le =
    let e : s + (j - s) ≡ j = omega (arith, le) in
    test_bit-mod_pow (0xff * 2 ^ s) 8 j h
    ∙ ap (λ (t : ℕ). test_bit (0xff * 2 ^ s) t) (sym e)
    ∙ test_bit-mul_pow_above 0xff s (j - s)
    ∙ test_bit-complement 8 0 (j - s) (omega arith) (omega arith)
    ∙ ap (λ (d : ℕ). 1 - d) (test_bit-zero (j - s))

masked_byte :
    (b s : ℕ) → b < 256 → ((j : ℕ) → j < s → test_bit b j ≡ 0) → bit_and b (u8 (0xff * 2 ^ s)) ≡ b
masked_byte b s h z =
    eq_of_test_bit 8 (bit_and b (u8 (0xff * 2 ^ s))) b (bit_and-lt_pow 8 b (u8 (0xff * 2 ^ s)) h) h
      (λ j lt. test_bit-bit_and b (u8 (0xff * 2 ^ s)) j ∙ (elim (dec_lt j s) [
        | yes low ↦ omega (arith, z j low)
        | no high ↦ omega (arith, tail_mask-above s j lt (omega arith), test_bit-le-one b j)
      ]))

byte_at : (xs : List ℕ) (i : ℕ) → All IsByte xs → get_or xs i 0 < 256
byte_at [] i w = omega arith
byte_at (x ∷ xs) zero w = w.0
byte_at (x ∷ xs) (suc i) w = byte_at xs i w.1

-- The same zeros, byte by byte: bit j of byte i, counted from the low end of the byte.
abbrev ClearAfter : List ℕ → ℕ → Type 0
ClearAfter xs plen = (i j : ℕ) → j < 8 → plen ≤ 8 * i + (7 - j) → test_bit (get_or xs i 0) j ≡ 0

IsClean-ClearAfter : (xs : List ℕ) (plen : ℕ) → IsClean xs plen → ClearAfter xs plen
IsClean-ClearAfter xs plen w i j lt le =
    let k : ℕ = 8 * i + (7 - j) in
    let at : k / 8 ≡ i = omega arith in
    let low : 7 - k % 8 ≡ j = omega arith in
    ap (λ (t : ℕ). test_bit (get_or xs t 0) j) (sym at)
    ∙ ap (λ (t : ℕ). test_bit (get_or xs (k / 8) 0) t) (sym low)
    ∙ w.zeros k le

masked_same : (xs : List ℕ) (plen : ℕ) → All IsByte xs → ClearAfter xs plen → masked xs plen ≡ xs
unfolding masked
masked_same [] plen w z = refl
masked_same (b ∷ bs) plen w z =
    let rest : masked bs (plen - 8) ≡ bs =
      masked_same bs (plen - 8) w.1 (λ i j lt le. z (suc i) j lt (omega (arith, le))) in
    rw rest (elim (Bool-cases (leb 8 plen)) [
      | inl whole ↦ rw whole refl
      | inr partial ↦
          rw
            (
              partial,
              shifted_back b (8 - plen) w.0 (λ j lt. z 0 j (omega (arith, lt)) (omega (arith, lt))),
            )
            refl
    ])

-- `take` and the padding put back what was cut off.
all_zeros : (xs : List ℕ) → ((i : ℕ) → get_or xs i 0 ≡ 0) → replicate (length xs) 0 ≡ xs
all_zeros [] z = refl
all_zeros (x ∷ xs) z = rw (z 0) (ap (λ (l : List ℕ). 0 ∷ l) (all_zeros xs (λ i. z (suc i))))

padded :
    (n : ℕ) (xs : List ℕ) → ((i : ℕ) → n ≤ i → get_or xs i 0 ≡ 0) → pad (length xs) (take n xs) ≡ xs
padded zero xs z =
    let e : length xs - 0 ≡ length xs = omega arith in rw e (all_zeros xs (λ i. z i (omega arith)))
padded (suc n) [] z = refl
padded (suc n) (x ∷ xs) z =
    let e : suc (length xs) - suc (length (take n xs)) ≡ length xs - length (take n xs) =
      omega arith in
    rw e (ap (λ (l : List ℕ). x ∷ l) (padded n xs (λ i le. z (suc i) (omega (arith, le)))))

set_same : (xs : List ℕ) (i v : ℕ) → v ≡ get_or xs i 0 → set xs i v ≡ xs
set_same [] i v e = refl
set_same (x ∷ xs) zero v e = rw e refl
set_same (x ∷ xs) (suc i) v e = ap (λ (l : List ℕ). x ∷ l) (set_same xs i v e)

module _ (xs : List ℕ) (plen : ℕ) (w : IsClean xs plen) where
  pub masked-IsClean : masked xs plen ≡ xs
  masked-IsClean = masked_same xs plen w.bytes (IsClean-ClearAfter xs plen w)

  -- The bytes that travel are enough.
  pub pad-IsClean : pad (length xs) (take (prefix_byte_len plen) xs) ≡ xs
  pad-IsClean = padded (prefix_byte_len plen) xs (λ i le.
      byte_zero (get_or xs i 0) (byte_at xs i w.bytes)
        (λ j lt. IsClean-ClearAfter xs plen w i j lt (omega (arith, le))))

  pub clear_prefix_tail-IsClean : clear_prefix_tail xs plen ≡ xs
  unfolding clear_prefix_tail
  clear_prefix_tail-IsClean = elim (Bool-cases (ltb 0 plen && not (plen % 8 == 0))) [
    | inr k ↦ rw k refl
    | inl k ↦ rw k (
        set_same xs (plen / 8) _ (
          masked_byte (get_or xs (plen / 8) 0) (8 - plen % 8) (byte_at xs (plen / 8) w.bytes)
            (λ j lt.
              IsClean-ClearAfter xs plen w (plen / 8) j (omega (arith, lt, some_bits k))
                (omega (arith, lt)))))
  ]
    where
      some_bits : (ltb 0 plen && not (plen % 8 == 0)) ≡ true → 0 < plen % 8
      some_bits k = ground (arith, k)

-- A test for it, bit by bit from the length to the end.
abbrev clear_from : ℕ → ℕ → List ℕ → Bool
clear_from zero k xs = true
clear_from (suc n) k xs = address_bit xs k == 0 && clear_from n (suc k) xs

clear_from-zeros :
    (n k : ℕ) (xs : List ℕ)
    → clear_from n k xs ≡ true
    → (j : ℕ) → k ≤ j
    → j < k + n
    → address_bit xs j ≡ 0
clear_from-zeros zero k xs h j le lt = absurd (omega (arith, le, lt))
clear_from-zeros (suc n) k xs h j le lt =
    let (first, rest) = (and_iff (address_bit xs k == 0) (clear_from n (suc k) xs)).0 h in
    elim (ℕ_discrete j k) [
      | yes e ↦ rw e ((==_iff _ _).0 first)
      | no ne ↦ clear_from-zeros n (suc k) xs rest j (omega (arith, le, ne)) (omega (arith, lt))
    ]

past_end : (xs : List ℕ) (i : ℕ) → length xs ≤ i → get_or xs i 0 ≡ 0
past_end [] i h = refl
past_end (x ∷ xs) zero h = absurd (omega (arith, h))
past_end (x ∷ xs) (suc i) h = past_end xs i (omega (arith, h))

pub clear_from-IsClean :
    (xs : List ℕ) (plen : ℕ)
    → All IsByte xs
    → clear_from (8 * length xs - plen) plen xs ≡ true
    → IsClean xs plen
clear_from-IsClean xs plen w h = record {
  bytes = w;
  zeros = λ j le. elim (dec_lt j (8 * length xs)) [
    | yes lt ↦ clear_from-zeros (8 * length xs - plen) plen xs h j le (omega (arith, le, lt))
    | no ge ↦ rw (past_end xs (j / 8) (omega (arith, ge))) (test_bit-zero (7 - j % 8))
  ];
}
