-- ===== src/Prelude/Longest.antt =====
-- The greatest number up to a bound at which a partial function has a value, for longest matches.
use native.Mathlib.Decide.{dec_lt}
use Prim.Native.Nat.{ℕ, zero, suc, ◌≤◌, ◌<◌}
use mathlib.Core.Path.{◌≡◌, refl, sym}
use mathlib.Core.Option.{Option, none, some}
use native.Mathlib.Omega.{arith}
use ranet_lite.Prelude.Tests.{or_else, or_else-none, or_else_assoc}

-- The answer at the greatest number up to `k` that has one.
unfoldable pub longest {ℓ} : {A : Type ℓ} → (ℕ → Option A) → ℕ → Option A
longest f zero = f zero
longest f (suc k) = let rest = longest f k in or_else (f (suc k)) rest

module _ {ℓ} {A : Type ℓ} where
  pub longest_ext :
      (f g : ℕ → Option A) (k : ℕ) → ((l : ℕ) → l ≤ k → f l ≡ g l) → longest f k ≡ longest g k
  unfolding longest
  longest_ext f g zero h = h 0 (omega arith)
  longest_ext f g (suc k) h =
      rw (h (suc k) (omega arith), longest_ext f g k (λ l le. h l (omega arith))) refl

  pub longest-none :
      (f : ℕ → Option A) (k : ℕ) → ((l : ℕ) → l ≤ k → f l ≡ none) → longest f k ≡ none
  unfolding longest
  longest-none f zero h = h 0 (omega arith)
  longest-none f (suc k) h =
      rw (h (suc k) (omega arith), longest-none f k (λ l le. h l (omega arith))) refl

  -- An answer with none past it.
  pub longest_top :
      (f : ℕ → Option A) (k j : ℕ) (x : A)
      → k ≤ j
      → f k ≡ some x
      → ((l : ℕ) → k < l → f l ≡ none)
      → longest f j ≡ some x
  unfolding longest
  longest_top f k zero x le e above = let g : k ≡ 0 = omega arith in rw g at e
  longest_top f k (suc j) x le e above = elim (dec_lt k (suc j)) [
    | yes lt ↦ rw (above (suc j) lt, longest_top f k j x (omega arith) e above) refl
    | no ge ↦ let g : k ≡ suc j = omega arith in rw (rw g at e) refl
  ]

  -- An answer at `k`, those of `g` past it, and none before it.
  pub longest_split :
      (f g : ℕ → Option A) (k j : ℕ)
      → k ≤ j
      → ((l : ℕ) → l < k → f l ≡ none)
      → ((l : ℕ) → l ≤ k → g l ≡ none)
      → ((l : ℕ) → k < l → l ≤ j → f l ≡ g l)
      → longest f j ≡ or_else (longest g j) (f k)
  unfolding longest
  longest_split f g k zero le below low above =
      let e : k ≡ 0 = omega arith in rw (low 0 (omega arith), e) refl
  longest_split f g k (suc j) le below low above = elim (dec_lt k (suc j)) [
    | yes lt ↦
        rw
          (
            above (suc j) lt (omega arith),
            longest_split f g k j (omega arith) below low (λ l p q. above l p (omega arith)),
          )
          (sym (or_else_assoc (g (suc j)) (longest g j) (f k)))
    | no ge ↦
        let e : k ≡ suc j = omega arith in
        rw
          (
            longest-none f j (λ l p. below l (omega arith)),
            low (suc j) (omega arith),
            longest-none g j (λ l p. low l (omega arith)),
            e,
            or_else-none (f (suc j)),
          )
          refl
  ]
