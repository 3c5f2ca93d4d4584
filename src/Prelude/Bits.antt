-- ===== src/Prelude/Bits.antt =====
-- The binary digits of a number, and what the native operations and the shifts do to them. Go's
-- `x << s`, `x >> s` and `^x` on w bits are `x * 2 ^ s % 2 ^ w`, `x / 2 ^ s` and `2 ^ w - 1 - x`.
pub mod Xor
use Prim.Native.Nat.{ℕ, zero, suc, ◌+◌, ◌-◌, ◌*◌, ◌/◌, ◌%◌, ◌^◌, ◌≤◌, ◌<◌, min, max}
use Prim.Native.Nat.{bit_and, bit_or, digits, bit_and-bitwise, bit_or-bitwise}
use mathlib.Core.Path.{◌≡◌, refl, ap, sym, ◌∙◌}
use mathlib.Core.Logic.{◌≢◌}
use native.Mathlib.Decide.{dec_lt, ℕ_discrete}
use ranet_lite.Prelude.Tests.{◌==◌}
use native.Mathlib.Nat.{pow-suc, one-le-pow, le_refl, mul_comm, div-div-eq-div-mul}
use native.Mathlib.Nat.{div-add-mod, mod-lt, mod-eq_of_lt, mul-add-mod_self_left}
use Prim.Native.Nat.add
use native.Mathlib.Omega.{arith}

abbrev pub test_bit : ℕ → ℕ → ℕ
test_bit x zero = x % 2
test_bit x (suc k) = test_bit (x / 2) k

pub test_bit-le-one : (x k : ℕ) → test_bit x k ≤ 1
test_bit-le-one x zero = omega arith
test_bit-le-one x (suc k) = test_bit-le-one (x / 2) k

pub test_bit-zero : (k : ℕ) → test_bit 0 k ≡ 0
test_bit-zero zero = refl
test_bit-zero (suc k) = test_bit-zero k

module _ (z : ℕ → ℕ) (f : ℕ → ℕ → ℕ) (small : (x y : ℕ) → x ≤ 1 → y ≤ 1 → f x y ≤ 1)
    (empty : (b k : ℕ) → test_bit (z b) k ≡ f 0 (test_bit b k)) where
  test_bit-digits :
      (n a b k : ℕ) → a ≤ n → test_bit (digits z f n a b) k ≡ f (test_bit a k) (test_bit b k)
  test_bit-digits zero zero b k h = rw test_bit-zero (empty b k)
  test_bit-digits zero (suc a) b k h = absurd (omega arith)
  test_bit-digits (suc n) zero b k h = rw test_bit-zero (empty b k)
  test_bit-digits (suc n) (suc a) b zero h =
      omega (arith, small (suc a % 2) (b % 2) (omega arith) (omega arith))
  test_bit-digits (suc n) (suc a) b (suc k) h =
      let d : ℕ = digits z f n (suc a / 2) (b / 2) in
      let half : (d * 2 + f (suc a % 2) (b % 2)) / 2 ≡ d =
        omega (arith, small (suc a % 2) (b % 2) (omega arith) (omega arith)) in
      rw half (test_bit-digits n (suc a / 2) (b / 2) k (omega arith))

pub test_bit-bit_and : (a b k : ℕ) → test_bit (bit_and a b) k ≡ min (test_bit a k) (test_bit b k)
test_bit-bit_and a b k = rw (bit_and-bitwise a b) (
    test_bit-digits (λ _. 0) min (λ x y p q. omega arith) (λ c j. rw test_bit-zero (omega arith)) a
      a b k (le_refl a))

pub test_bit-bit_or : (a b k : ℕ) → test_bit (bit_or a b) k ≡ max (test_bit a k) (test_bit b k)
test_bit-bit_or a b k =
    rw (bit_or-bitwise a b) (
      test_bit-digits (λ c. c) max (λ x y p q. omega arith) (λ c j. omega arith) a a b k
        (le_refl a))

pub test_bit-div_pow : (x s k : ℕ) → test_bit (x / 2 ^ s) k ≡ test_bit x (s + k)
test_bit-div_pow x zero k = let e : x / 2 ^ 0 ≡ x = omega arith in rw (e, add.zero) refl
test_bit-div_pow x (suc s) k =
    let e : x / 2 ^ suc s ≡ x / 2 / 2 ^ s = rw (pow-suc, mul_comm, div-div-eq-div-mul) in
    rw (e, add.suc) (test_bit-div_pow (x / 2) s k)

pub test_bit-mul_pow_above : (x s k : ℕ) → test_bit (x * 2 ^ s) (s + k) ≡ test_bit x k
test_bit-mul_pow_above x zero k = let e : x * 2 ^ 0 ≡ x = omega arith in rw (e, add.zero) refl
test_bit-mul_pow_above x (suc s) k =
    let e : x * 2 ^ suc s / 2 ≡ x * 2 ^ s =
      omega (arith, pow-suc 2 s, ap (λ (t : ℕ). x * t) (pow-suc 2 s)) in
    rw add.suc (ap (λ (t : ℕ). test_bit t (s + k)) e ∙ test_bit-mul_pow_above x s k)

pub test_bit-mul_pow_below : (x s k : ℕ) → k < s → test_bit (x * 2 ^ s) k ≡ 0
test_bit-mul_pow_below x zero k h = elim h [ ]
test_bit-mul_pow_below x (suc s) zero h = omega (arith, ap (λ (t : ℕ). x * t) (pow-suc 2 s))
test_bit-mul_pow_below x (suc s) (suc k) h =
    let e : x * 2 ^ suc s / 2 ≡ x * 2 ^ s = omega (arith, ap (λ (t : ℕ). x * t) (pow-suc 2 s)) in
    rw e (test_bit-mul_pow_below x s k (omega arith))

-- Half of a remainder by twice a number.
pub mod_double : (x p : ℕ) → 0 < p → (x % (2 * p) % 2 ≡ x % 2) × (x % (2 * p) / 2 ≡ x / 2 % p)
mod_double x p pos =
    let r : ℕ = x % (2 * p) in
    let q : ℕ = x / (2 * p) in
    let whole : 2 * (p * q) + r ≡ x = omega (arith, div-add-mod x (2 * p)) in
    let half : p * q + r / 2 ≡ x / 2 = omega arith in
    let small : r / 2 < p = omega (arith, mod-lt x {m = 2 * p} (omega arith)) in
    (omega arith, sym (rw (← half) (mul-add-mod_self_left p q (r / 2) ∙ mod-eq_of_lt small)))

pub test_bit-mod_pow : (x w k : ℕ) → k < w → test_bit (x % 2 ^ w) k ≡ test_bit x k
test_bit-mod_pow x zero k h = elim h [ ]
test_bit-mod_pow x (suc w) zero h =
    rw (pow-suc, mul_comm) (mod_double x (2 ^ w) (one-le-pow w 2 (omega arith))).0
test_bit-mod_pow x (suc w) (suc k) h =
    let e : x % 2 ^ suc w / 2 ≡ x / 2 % 2 ^ w =
      rw (pow-suc, mul_comm) (mod_double x (2 ^ w) (one-le-pow w 2 (omega arith))).1 in
    rw e (test_bit-mod_pow (x / 2) w k (omega arith))

pub test_bit_of_lt : (x w k : ℕ) → x < 2 ^ w → w ≤ k → test_bit x k ≡ 0
test_bit_of_lt x zero k h le = let e : x ≡ 0 = omega arith in rw e (test_bit-zero k)
test_bit_of_lt x (suc w) zero h le = absurd (omega arith)
test_bit_of_lt x (suc w) (suc k) h le =
    test_bit_of_lt (x / 2) w k (omega (arith, pow-suc 2 w)) (omega arith)

-- The complement within w bits.
pub test_bit-complement :
    (w x k : ℕ) → x < 2 ^ w → k < w → test_bit (2 ^ w - 1 - x) k ≡ 1 - test_bit x k
test_bit-complement zero x k h lt = elim lt [ ]
test_bit-complement (suc w) x zero h lt = omega (arith, pow-suc 2 w)
test_bit-complement (suc w) x (suc k) h lt =
    let e : (2 ^ suc w - 1 - x) / 2 ≡ 2 ^ w - 1 - x / 2 = omega (arith, pow-suc 2 w) in
    rw e (test_bit-complement w (x / 2) k (omega (arith, pow-suc 2 w)) (omega arith))

-- Two numbers below 2 ^ w with the same digits are one.
pub eq_of_test_bit :
    (w x y : ℕ) → x < 2 ^ w → y < 2 ^ w → ((k : ℕ) → k < w → test_bit x k ≡ test_bit y k) → x ≡ y
eq_of_test_bit zero x y hx hy h = omega arith
eq_of_test_bit (suc w) x y hx hy h =
    let halves : x / 2 ≡ y / 2 =
      eq_of_test_bit w (x / 2) (y / 2) (omega (arith, pow-suc 2 w)) (omega (arith, pow-suc 2 w))
        (λ k lt. h (suc k) (omega arith)) in
    omega (arith, h 0 (omega arith))

eq_of_bits_fuel : (n x y : ℕ) → x ≤ n → y ≤ n → ((k : ℕ) → test_bit x k ≡ test_bit y k) → x ≡ y
eq_of_bits_fuel zero x y hx hy h = omega arith
eq_of_bits_fuel (suc n) x y hx hy h =
    let halves : x / 2 ≡ y / 2 =
      eq_of_bits_fuel n (x / 2) (y / 2) (omega arith) (omega arith) (λ k. h (suc k)) in
    omega (arith, h 0)

-- Two numbers with the same digits are one.
pub eq_of_bits : (x y : ℕ) → ((k : ℕ) → test_bit x k ≡ test_bit y k) → x ≡ y
eq_of_bits x y h = eq_of_bits_fuel (x + y) x y (omega arith) (omega arith) h

pub lt_pow_of_bits : (w x : ℕ) → ((k : ℕ) → w ≤ k → test_bit x k ≡ 0) → x < 2 ^ w
lt_pow_of_bits w x h =
    let small : x % 2 ^ w < 2 ^ w = mod-lt x (one-le-pow w 2 (omega arith)) in
    let same : x % 2 ^ w ≡ x = eq_of_bits (x % 2 ^ w) x (λ k. elim (dec_lt k w) [
      | yes lt ↦ test_bit-mod_pow x w k lt
      | no ge ↦ test_bit_of_lt (x % 2 ^ w) w k small (omega arith) ∙ sym (h k (omega arith))
    ]) in
    omega arith

pub bit_or-lt_pow : (w a b : ℕ) → a < 2 ^ w → b < 2 ^ w → bit_or a b < 2 ^ w
bit_or-lt_pow w a b ha hb = lt_pow_of_bits w (bit_or a b) λ k le.
    omega (arith, test_bit-bit_or a b k, test_bit_of_lt a w k ha le, test_bit_of_lt b w k hb le)

pub bit_and-lt_pow : (w a b : ℕ) → a < 2 ^ w → bit_and a b < 2 ^ w
bit_and-lt_pow w a b ha =
    lt_pow_of_bits w (bit_and a b)
      λ k le. omega (arith, test_bit-bit_and a b k, test_bit_of_lt a w k ha le)

pub bit_or-zero : (a : ℕ) → bit_or a 0 ≡ a
bit_or-zero a =
    eq_of_bits (bit_or a 0) a (λ k. omega (arith, test_bit-bit_or a 0 k, test_bit-zero k))

pub bit_or-one_even : (m : ℕ) → bit_or (m * 2) 1 ≡ m * 2 + 1
bit_or-one_even m = eq_of_bits (bit_or (m * 2) 1) (m * 2 + 1) digits_agree
  where
    digits_agree : (k : ℕ) → test_bit (bit_or (m * 2) 1) k ≡ test_bit (m * 2 + 1) k
    digits_agree zero = omega (arith, test_bit-bit_or (m * 2) 1 0)
    digits_agree (suc k) =
        let e : m * 2 / 2 ≡ m = omega arith in
        let o : (m * 2 + 1) / 2 ≡ m = omega arith in
        rw (test_bit-bit_or (m * 2) 1 (suc k)) (
          omega (
            arith,
            test_bit-zero k,
            ap (λ (t : ℕ). test_bit t k) e,
            ap (λ (t : ℕ). test_bit t k) o,
          ))

pub test_bit-pow_self : (i : ℕ) → test_bit (2 ^ i) i ≡ 1
test_bit-pow_self zero = refl
test_bit-pow_self (suc i) =
    let e : 2 ^ suc i / 2 ≡ 2 ^ i = omega (arith, pow-suc 2 i) in
    ap (λ (t : ℕ). test_bit t i) e ∙ test_bit-pow_self i

pub test_bit-pow_ne : (i k : ℕ) → i ≢ k → test_bit (2 ^ i) k ≡ 0
test_bit-pow_ne zero zero ne = absurd (ne refl)
test_bit-pow_ne zero (suc k) ne = test_bit-zero k
test_bit-pow_ne (suc i) zero ne = omega (arith, pow-suc 2 i)
test_bit-pow_ne (suc i) (suc k) ne =
    let e : 2 ^ suc i / 2 ≡ 2 ^ i = omega (arith, pow-suc 2 i) in
    ap (λ (t : ℕ). test_bit t k) e ∙ test_bit-pow_ne i k (λ p. ne (ap suc p))

and_pow_digit : (x i k : ℕ) → test_bit (bit_and x (2 ^ i)) k ≡ test_bit x i * test_bit (2 ^ i) k
and_pow_digit x i k = elim (ℕ_discrete i k) [
  | yes e ↦
      rw (← e, test_bit-bit_and x (2 ^ i) i, test_bit-pow_self i)
        (omega (arith, test_bit-le-one x i))
  | no ne ↦ rw (test_bit-bit_and x (2 ^ i) k, test_bit-pow_ne i k ne) (omega arith)
]

-- Go's `x & (1 << i)`, at a digit that is clear and at one that is set.
pub bit_and-pow_clear : (x i : ℕ) → test_bit x i ≡ 0 → bit_and x (2 ^ i) ≡ 0
bit_and-pow_clear x i h =
    eq_of_bits (bit_and x (2 ^ i)) 0 λ k. rw (and_pow_digit x i k, h, test_bit-zero k) (omega arith)

pub bit_and-pow_set : (x i : ℕ) → test_bit x i ≡ 1 → bit_and x (2 ^ i) ≡ 2 ^ i
bit_and-pow_set x i h =
    eq_of_bits (bit_and x (2 ^ i)) (2 ^ i) λ k. rw (and_pow_digit x i k, h) (omega arith)

-- Go's test `x & (1 << i) == 0` reads the digit.
pub is_clear : (x i : ℕ) → (bit_and x (2 ^ i) == 0) ≡ (test_bit x i == 0)
is_clear x i = ground (
  arith,
  test_bit-le-one x i,
  bit_and-pow_clear x i,
  bit_and-pow_set x i,
  one-le-pow i 2 (omega arith),
)
