-- ===== src/Sadr/Address/Heads.antt =====
-- The first p bits of an address of sadr/table.go as a number, and what `branch`, `commonBits` and
-- `matches` say of them.
use native.Mathlib.Decide.{dec_lt}
use native.Mathlib.Nat.{mod-lt, one-le-pow}
use ranet_lite.Prelude.Bits.Xor.{div_pow_twice, test_bit_mod, test_bit-bit_xor_iff, xor_shift}
use ranet_lite.Prelude.{ℕ, suc, ◌+◌, ◌-◌, ◌*◌, ◌/◌, ◌%◌, ◌^◌, ◌≤◌, ◌<◌, bit_xor}
use ranet_lite.Prelude.{◌≡◌, ◌↔◌, refl, sym, ap, ◌∙◌, arith, true, false}
use ranet_lite.Prelude.{and_iff, ==_iff, leb}
use ranet_lite.Prelude.Bits.{test_bit, test_bit-le-one, test_bit-div_pow, test_bit-mod_pow}
use ranet_lite.Prelude.Bits.{test_bit_of_lt, eq_of_bits, test_bit-zero}
use ranet_lite.Sadr.Address.{byte_at, branch, high, low, prefix_matches}

abbrev pub head : ℕ → ℕ → ℕ
head p a = a / 2 ^ (128 - p)

pub test_bit-head : (p a k : ℕ) → test_bit (head p a) k ≡ test_bit a (128 - p + k)
test_bit-head p a k = test_bit-div_pow a (128 - p) k

pub branch-test_bit : (a p : ℕ) → p < 128 → branch a p ≡ test_bit a (127 - p)
unfolding branch
branch-test_bit a p h =
    let e : 8 * (15 - p / 8) + (7 - p % 8) ≡ 127 - p = omega arith in
    rw⁻¹ (test_bit_mod (byte_at a (p / 8)) (7 - p % 8)) (
      test_bit-mod_pow (a / 2 ^ (8 * (15 - p / 8))) 8 (7 - p % 8) (omega arith)
      ∙ test_bit-div_pow a (8 * (15 - p / 8)) (7 - p % 8)
      ∙ ap (test_bit a) e)

pub branch-le-one : (a p : ℕ) → p < 128 → branch a p ≤ 1
branch-le-one a p h = rw (branch-test_bit a p h) (test_bit-le-one a (127 - p))

-- One more bit is one more binary digit.
pub head-suc : (p a : ℕ) → p < 128 → head (suc p) a ≡ 2 * head p a + branch a p
head-suc p a h =
    let half : head p a ≡ head (suc p) a / 2 =
      let e : 128 - suc p + 1 ≡ 128 - p = omega arith in
      sym (div_pow_twice a (128 - suc p) 1 ∙ ap (λ t. a / 2 ^ t) e) in
    let bit : branch a p ≡ head (suc p) a % 2 =
      let e : 127 - p ≡ 128 - suc p = omega arith in
      branch-test_bit a p h ∙ test_bit_mod a (127 - p) ∙ ap (λ t. a / 2 ^ t % 2) e in
    omega (arith, half, bit)

pub head-coarser : (q p a : ℕ) → q ≤ p → p ≤ 128 → head q a ≡ head p a / 2 ^ (p - q)
head-coarser q p a h k =
    let e : 128 - p + (p - q) ≡ 128 - q = omega arith in
    rw (div_pow_twice a (128 - p) (p - q), e) refl

pub head_eq-coarser : (q p a b : ℕ) → q ≤ p → p ≤ 128 → head p a ≡ head p b → head q a ≡ head q b
head_eq-coarser q p a b h k e = rw (head-coarser q p a h k, head-coarser q p b h k, e) refl

-- Both children of a prefix are read off it.
pub head-zero : (a : ℕ) → a < 2 ^ 128 → head 0 a ≡ 0
head-zero a h = omega arith

pub test_bit-high : (a k : ℕ) → 64 ≤ k → test_bit (high a) (k - 64) ≡ test_bit a k
test_bit-high a k h =
    let e : 64 + (k - 64) ≡ k = omega arith in test_bit-div_pow a 64 (k - 64) ∙ ap (test_bit a) e

pub test_bit-low : (a k : ℕ) → k < 64 → test_bit (low a) k ≡ test_bit a k
test_bit-low a k h = test_bit-mod_pow a 64 k h

test_bit-low_past : (a k : ℕ) → 64 ≤ k → test_bit (low a) k ≡ 0
test_bit-low_past a k h = test_bit_of_lt (low a) 64 k (mod-lt a (one-le-pow 64 2 (omega arith))) h

-- The two words of an address, against the address.
words_iff :
    (a b s : ℕ)
    → s ≤ 64
    → ((high a ≡ high b) × (low a / 2 ^ s ≡ low b / 2 ^ s)) ↔ (a / 2 ^ s ≡ b / 2 ^ s)
words_iff a b s h = (
  λ e. eq_of_bits _ _ (λ k. rw (test_bit-div_pow a s k, test_bit-div_pow b s k) (joined e k)),
  λ e. (
    rw (words a, words b, e) refl,
    eq_of_bits _ _
        (λ k. rw (test_bit-div_pow (low a) s k, test_bit-div_pow (low b) s k) (lower e k)),
  ),
)
  where
    words : (x : ℕ) → high x ≡ x / 2 ^ s / 2 ^ (64 - s)
    words x = let e : s + (64 - s) ≡ 64 = omega arith in rw (div_pow_twice x s (64 - s), e) refl

    digit : a / 2 ^ s ≡ b / 2 ^ s → (k : ℕ) → test_bit a (s + k) ≡ test_bit b (s + k)
    digit e k = sym (test_bit-div_pow a s k) ∙ ap (λ t. test_bit t k) e ∙ test_bit-div_pow b s k

    lower : a / 2 ^ s ≡ b / 2 ^ s → (k : ℕ) → test_bit (low a) (s + k) ≡ test_bit (low b) (s + k)
    lower e k = elim (dec_lt (s + k) 64) [
      | yes lt ↦ test_bit-low a (s + k) lt ∙ digit e k ∙ sym (test_bit-low b (s + k) lt)
      | no ge ↦
          test_bit-low_past a (s + k) (omega arith)
          ∙ sym (test_bit-low_past b (s + k) (omega arith))
    ]

    joined :
        (high a ≡ high b) × (low a / 2 ^ s ≡ low b / 2 ^ s)
        → (k : ℕ) → test_bit a (s + k) ≡ test_bit b (s + k)
    joined e k = elim (dec_lt (s + k) 64) [
      | yes lt ↦
          sym (test_bit-low a (s + k) lt)
          ∙ sym (test_bit-div_pow (low a) s k)
          ∙ ap (λ t. test_bit t k) e.1
          ∙ test_bit-div_pow (low b) s k
          ∙ test_bit-low b (s + k) lt
      | no ge ↦
          sym (test_bit-high a (s + k) (omega arith))
          ∙ ap (λ t. test_bit t (s + k - 64)) e.0
          ∙ test_bit-high b (s + k) (omega arith)
    ]

xor_zero : (a b : ℕ) → (bit_xor a b ≡ 0) ↔ (a ≡ b)
xor_zero a b = (
  λ e.
      eq_of_bits a b
        (λ k. (test_bit-bit_xor_iff a b k).0 (ap (λ t. test_bit t k) e ∙ test_bit-zero k)),
  λ e.
      eq_of_bits _ 0
        (λ k. rw (test_bit-zero k) ((test_bit-bit_xor_iff a b k).1 (ap (λ t. test_bit t k) e))),
)

-- A node's prefix is the first bits of the address looked up.
pub prefix_matches_iff :
    (a n b : ℕ) → n ≤ 128 → (prefix_matches a n (high b) (low b) ≡ true) ↔ (head n a ≡ head n b)
unfolding prefix_matches
prefix_matches_iff a n b h = elim (dec_lt 64 n) [
  | no small ↦
      let short : leb n 64 ≡ true = ground arith in
      let (x0, x1) = xor_shift (high a) (high b) (64 - n) in
      (
        λ t.
            sym (ends (omega arith) a) ∙ x0 ((==_iff _ 0).0 (rw short at t)) ∙ ends (omega arith) b,
        λ e. rw short ((==_iff _ 0).1 (x1 (ends (omega arith) a ∙ e ∙ sym (ends (omega arith) b)))),
      )
  | yes long ↦
      let wide : leb n 64 ≡ false = ground arith in
      let (to_head, of_head) = words_iff a b (128 - n) (omega arith) in
      let (h0, h1) = xor_zero (high a) (high b) in
      let (l0, l1) = xor_shift (low a) (low b) (128 - n) in
      (
        λ t.
            let (p, q) = (and_iff _ _).0 (rw wide at t) in
            to_head (h0 ((==_iff _ 0).0 p), l0 ((==_iff _ 0).0 q)),
        λ e.
            let (p, q) = of_head e in
            rw wide ((and_iff _ _).1 ((==_iff _ 0).1 (h1 p), (==_iff _ 0).1 (l1 q))),
      )
]
  where
    ends : n ≤ 64 → (x : ℕ) → high x / 2 ^ (64 - n) ≡ head n x
    ends le x =
        div_pow_twice x 64 (64 - n)
        ∙ (let e : 64 + (64 - n) ≡ 128 - n = omega arith in ap (λ t. x / 2 ^ t) e)
