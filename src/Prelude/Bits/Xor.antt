-- ===== src/Prelude/Bits/Xor.antt =====
-- The exclusive or of two numbers, and shifts of it.
use native.Mathlib.Nat.{add_assoc, le_refl}
use Prim.Native.Nat.{bit_xor-bitwise, differ, bit_xor}
use Prim.Native.Nat.{ℕ, zero, suc, ◌+◌, ◌/◌, ◌%◌, ◌^◌, ◌≤◌}
use mathlib.Core.Path.{◌≡◌, refl, ap, sym, ◌∙◌}
use mathlib.Core.Logic.{◌↔◌}
use native.Mathlib.Omega.{arith}
use ranet_lite.Prelude.Bits.{test_bit, test_bit-le-one, test_bit-div_pow}
use ranet_lite.Prelude.Bits.{eq_of_bits, test_bit-zero, test_bit-digits}

pub div_pow_twice : (x s t : ℕ) → x / 2 ^ s / 2 ^ t ≡ x / 2 ^ (s + t)
div_pow_twice x s t = eq_of_bits _ _ (λ k.
    rw
      (
        test_bit-div_pow (x / 2 ^ s) t k,
        test_bit-div_pow x s (t + k),
        test_bit-div_pow x (s + t) k,
        add_assoc,
      )
      refl)

pub test_bit_mod : (x k : ℕ) → test_bit x k ≡ x / 2 ^ k % 2
test_bit_mod x k = let e : k + 0 ≡ k = omega arith in rw e at (sym (test_bit-div_pow x k 0))

differ_bit : (x y : ℕ) → x ≤ 1 → y ≤ 1 → differ x y ≤ 1
differ_bit zero y h k = k
differ_bit (suc x) zero h k = h
differ_bit (suc zero) (suc zero) h k = omega arith
differ_bit (suc zero) (suc (suc y)) h k = absurd (omega arith)
differ_bit (suc (suc x)) (suc y) h k = absurd (omega arith)

differ-zero : (x y : ℕ) → x ≤ 1 → y ≤ 1 → (differ x y ≡ 0) ↔ (x ≡ y)
differ-zero zero y h k = (λ e. sym e, λ e. sym e)
differ-zero (suc x) zero h k = (λ e. e, λ e. e)
differ-zero (suc zero) (suc zero) h k = (λ e. refl, λ e. refl)
differ-zero (suc zero) (suc (suc y)) h k = absurd (omega arith)
differ-zero (suc (suc x)) (suc y) h k = absurd (omega arith)

test_bit-bit_xor : (a b k : ℕ) → test_bit (bit_xor a b) k ≡ differ (test_bit a k) (test_bit b k)
test_bit-bit_xor a b k =
    rw (bit_xor-bitwise a b)
      (test_bit-digits (λ c. c) differ differ_bit (λ c j. refl) a a b k (le_refl a))

pub test_bit-bit_xor_iff :
    (a b k : ℕ) → (test_bit (bit_xor a b) k ≡ 0) ↔ (test_bit a k ≡ test_bit b k)
test_bit-bit_xor_iff a b k =
    rw (test_bit-bit_xor a b k)
      (differ-zero (test_bit a k) (test_bit b k) (test_bit-le-one a k) (test_bit-le-one b k))

-- The exclusive or vanishes past some digit when the numbers agree past it.
pub xor_shift : (a b s : ℕ) → (bit_xor a b / 2 ^ s ≡ 0) ↔ (a / 2 ^ s ≡ b / 2 ^ s)
xor_shift a b s = (
  λ e. eq_of_bits _ _ (λ k.
      rw (test_bit-div_pow a s k, test_bit-div_pow b s k)
        ((test_bit-bit_xor_iff a b (s + k)).0
          (sym (test_bit-div_pow (bit_xor a b) s k) ∙ ap (λ t. test_bit t k) e ∙ test_bit-zero k))),
  λ e. eq_of_bits _ _ (λ k.
      rw (test_bit-div_pow (bit_xor a b) s k, test_bit-zero k)
        ((test_bit-bit_xor_iff a b (s + k)).1
          (sym (test_bit-div_pow a s k) ∙ ap (λ t. test_bit t k) e ∙ test_bit-div_pow b s k))),
)
