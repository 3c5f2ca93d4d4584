-- ===== src/Sadr/Address/Common.antt =====
-- `commonBits` of sadr/table.go is the number of first bits on which two addresses agree.
use native.Mathlib.Decide.{dec_lt}
use ranet_lite.Prelude.{ℕ, zero, suc, ◌+◌, ◌-◌, ◌^◌, ◌≤◌, ◌<◌, bit_xor}
use ranet_lite.Prelude.{◌≡◌, ◌≢◌, sym, ◌∙◌, inl, inr, arith}
use ranet_lite.Prelude.{Bool-cases, ==_iff, ==_ne, ◌==◌}
use ranet_lite.Prelude.Bits.{test_bit, test_bit-le-one, test_bit_of_lt, eq_of_bits}
use ranet_lite.Prelude.Bits.Xor.{test_bit-bit_xor_iff}
use ranet_lite.Sadr.Address.{branch, high, low, leading_zeros, common_bits}
use ranet_lite.Sadr.Address.Heads.{
  head, head-suc, head_eq-coarser, test_bit-head, test_bit-high, test_bit-low, branch-test_bit,
}

leading_zeros-le : (w x : ℕ) → leading_zeros w x ≤ w
unfolding leading_zeros
leading_zeros-le zero x = omega arith
leading_zeros-le (suc w) x = ground (arith, leading_zeros-le w x)

leading_zeros-clear : (w x k : ℕ) → k < w → w ≤ leading_zeros w x + k → test_bit x k ≡ 0
unfolding leading_zeros
leading_zeros-clear zero x k h g = absurd (omega arith)
leading_zeros-clear (suc w) x k h g = elim (Bool-cases (test_bit x w == 1)) [
  | inl one ↦ absurd (omega (arith, rw one at g))
  | inr clear ↦ elim (dec_lt k w) [
    | yes lt ↦ leading_zeros-clear w x k lt (omega (arith, rw clear at g))
    | no ge ↦
        let e : k ≡ w = omega arith in rw e (omega (arith, ==_ne _ _ clear, test_bit-le-one x w))
  ]
]

leading_zeros-stop : (w x : ℕ) → leading_zeros w x < w → test_bit x (w - 1 - leading_zeros w x) ≡ 1
unfolding leading_zeros
leading_zeros-stop zero x h = absurd (omega arith)
leading_zeros-stop (suc w) x h = elim (Bool-cases (test_bit x w == 1)) [
  | inl one ↦ let e : suc w - 1 - 0 ≡ w = omega arith in rw (one, e) ((==_iff _ _).0 one)
  | inr clear ↦
      let e : suc w - 1 - suc (leading_zeros w x) ≡ w - 1 - leading_zeros w x = omega arith in
      rw (clear, e) (leading_zeros-stop w x (omega (arith, rw clear at h)))
]

pub common_bits-le : (a b : ℕ) → common_bits a b ≤ 128
unfolding common_bits
common_bits-le a b = ground (
  arith,
  leading_zeros-le 64 (bit_xor (high a) (high b)),
  leading_zeros-le 64 (bit_xor (low a) (low b)),
)

xor_clear :
    (x y k : ℕ) → k < 64 → 64 ≤ leading_zeros 64 (bit_xor x y) + k → test_bit x k ≡ test_bit y k
xor_clear x y k h g = (test_bit-bit_xor_iff x y k).0 (leading_zeros-clear 64 (bit_xor x y) k h g)

xor_stop :
    (x y : ℕ)
    → let z = leading_zeros 64 (bit_xor x y) in z < 64 → test_bit x (63 - z) ≢ test_bit y (63 - z)
xor_stop x y h e =
    let z = leading_zeros 64 (bit_xor x y) in
    let set : test_bit (bit_xor x y) (64 - 1 - z) ≡ 1 = leading_zeros-stop 64 (bit_xor x y) h in
    let k : 64 - 1 - z ≡ 63 - z = omega arith in
    omega (arith, (test_bit-bit_xor_iff x y (63 - z)).1 e, rw k at set)

same_high :
    (a b k : ℕ)
    → 64 ≤ k
    → test_bit (high a) (k - 64) ≡ test_bit (high b) (k - 64)
    → test_bit a k ≡ test_bit b k
same_high a b k h e = sym (test_bit-high a k h) ∙ e ∙ test_bit-high b k h

common_bits-same : (a b k : ℕ) → k < 128 → 128 ≤ common_bits a b + k → test_bit a k ≡ test_bit b k
unfolding common_bits
common_bits-same a b k h g =
    elim (Bool-cases (leading_zeros 64 (bit_xor (high a) (high b)) == 64)) [
      | inl all ↦
          let whole = (==_iff _ _).0 all in
          elim (dec_lt k 64) [
            | yes lt ↦
                sym (test_bit-low a k lt)
                ∙ xor_clear (low a) (low b) k lt (omega (arith, rw all at g, whole))
                ∙ test_bit-low b k lt
            | no ge ↦
                same_high a b k (omega arith)
                  (xor_clear (high a) (high b) (k - 64) (omega arith) (omega (arith, whole)))
          ]
      | inr some ↦
          let le = leading_zeros-le 64 (bit_xor (high a) (high b)) in
          let g' = rw some at g in
          same_high a b k (omega arith)
            (xor_clear (high a) (high b) (k - 64) (omega arith) (omega arith))
    ]

common_bits-stop :
    (a b : ℕ)
    → common_bits a b < 128
    → test_bit a (127 - common_bits a b) ≢ test_bit b (127 - common_bits a b)
unfolding common_bits
common_bits-stop a b h = elim (Bool-cases (leading_zeros 64 (bit_xor (high a) (high b)) == 64)) [
  | inl all ↦
      let z = leading_zeros 64 (bit_xor (low a) (low b)) in
      let whole = (==_iff _ _).0 all in
      let h' : z < 64 = omega (arith, rw all at h, whole) in
      let k : 127 - (64 + z) ≡ 63 - z = omega arith in
      rw
        (
          all,
          whole,
          k,
          sym (test_bit-low a (63 - z) (omega arith)),
          sym (test_bit-low b (63 - z) (omega arith)),
        )
        (xor_stop (low a) (low b) h')
  | inr some ↦
      let z = leading_zeros 64 (bit_xor (high a) (high b)) in
      let le = leading_zeros-le 64 (bit_xor (high a) (high b)) in
      let ne : z ≢ 64 = ==_ne _ _ some in
      let k : 127 - z - 64 ≡ 63 - z = omega arith in
      rw
        (
          some,
          sym (test_bit-high a (127 - z) (omega arith)),
          sym (test_bit-high b (127 - z) (omega arith)),
          k,
        )
        (xor_stop (high a) (high b) (omega arith))
]

pub head-common_bits :
    (a b : ℕ) → a < 2 ^ 128 → b < 2 ^ 128 → head (common_bits a b) a ≡ head (common_bits a b) b
head-common_bits a b ha hb = eq_of_bits _ _ (λ k.
    let c = common_bits a b in
    let j = 128 - c + k in
    rw (test_bit-head c a k, test_bit-head c b k)
      (elim (dec_lt j 128) [
        | yes lt ↦ common_bits-same a b j lt (omega arith)
        | no ge ↦
            test_bit_of_lt a 128 j ha (omega arith) ∙ sym (test_bit_of_lt b 128 j hb (omega arith))
      ]))

pub branch-common_bits :
    (a b : ℕ) → common_bits a b < 128 → branch a (common_bits a b) ≢ branch b (common_bits a b)
branch-common_bits a b h =
    rw (branch-test_bit a (common_bits a b) h, branch-test_bit b (common_bits a b) h)
      (common_bits-stop a b h)

-- Addresses that agree on p bits have p bits in common.
pub common_bits-ge : (a b p : ℕ) → p ≤ 128 → head p a ≡ head p b → p ≤ common_bits a b
common_bits-ge a b p h e = elim (dec_lt (common_bits a b) p) [
  | no ge ↦ omega arith
  | yes lt ↦
      let c = common_bits a b in
      let short : c < 128 = omega arith in
      let longer = head_eq-coarser (suc c) p a b (omega arith) h e in
      let shorter = head_eq-coarser c p a b (omega arith) h e in
      absurd (
        branch-common_bits a b short
          (omega (arith, head-suc c a short, head-suc c b short, longer, shorter)))
]
