-- ===== src/Babel/Messages/Mapped.antt =====
-- Which addresses `To4` takes, for internal/babel/hello_ihu.go and request.go.
use ranet_lite.Prelude.{ℕ, zero, suc, ◌+◌, ◌≡◌, ◌≢◌, refl, ap, ◌∙◌, inl, inr, arith}
use ranet_lite.Prelude.{true, ◌&&◌, none, some, List, [], ◌∷◌, ◌++◌}
use ranet_lite.Prelude.{length, take, drop, replicate, ◌==◌, if◌then◌else◌, Bool-cases}
use ranet_lite.Prelude.{and_iff, ==_iff, length-take, length-drop}
use ranet_lite.Babel.Messages.{all_equal, to_4}

all_equal-replicate : (v : ℕ) (xs : List ℕ) → all_equal v xs ≡ true → xs ≡ replicate (length xs) v
unfolding all_equal
all_equal-replicate v [] h = refl
all_equal-replicate v (x ∷ xs) h =
    let (same, rest) = (and_iff (x == v) (all_equal v xs)).0 h in
    rw ((==_iff x v).0 same) (ap (λ (l : List ℕ). v ∷ l) (all_equal-replicate v xs rest))

take-add : (m n : ℕ) (xs : List ℕ) → take (m + n) xs ≡ take m xs ++ take n (drop m xs)
take-add zero n xs = let e : zero + n ≡ n = omega arith in rw e refl
take-add (suc m) zero [] = let e : suc m + zero ≡ suc m = omega arith in rw e refl
take-add (suc m) (suc n) [] = let e : suc m + suc n ≡ suc (m + suc n) = omega arith in rw e refl
take-add (suc m) n (x ∷ xs) =
    let e : suc m + n ≡ suc (m + n) = omega arith in
    rw e (ap (λ (l : List ℕ). x ∷ l) (take-add m n xs))

-- The first 12 bytes of an IPv4 address mapped into IPv6.
abbrev pub mapped_head : List ℕ
mapped_head = replicate 10 0 ++ (0xff ∷ 0xff ∷ [])

mapped :
    (xs : List ℕ)
    → (length xs == 16 && (all_equal 0 (take 10 xs) && all_equal 0xff (take 2 (drop 10 xs)))) ≡ true
    → take 12 xs ≡ mapped_head
mapped xs h =
    let (size, both) = (and_iff _ _).0 h in
    let (zeros, ones) = (and_iff _ _).0 both in
    let long : length xs ≡ 16 = (==_iff _ _).0 size in
    let ten : length (take 10 xs) ≡ 10 = omega (arith, length-take 10 xs, long) in
    let two : length (take 2 (drop 10 xs)) ≡ 2 =
      omega (arith, length-take 2 (drop 10 xs), length-drop 10 xs, long) in
    take-add 10 2 xs
    ∙ rw
        (
          all_equal-replicate 0 (take 10 xs) zeros,
          all_equal-replicate 0xff (take 2 (drop 10 xs)) ones,
        )
        (rw (ten, two) refl)

pub to_4-native :
    (xs : List ℕ) → take 12 xs ≢ mapped_head → to_4 xs ≡ (if length xs == 4 then some xs else none)
unfolding to_4
to_4-native xs ne = elim (Bool-cases (length xs == 4)) [
  | inl k ↦ rw k refl
  | inr k ↦
      rw k
        (elim (Bool-cases
          (length xs == 16 && (all_equal 0 (take 10 xs) && all_equal 0xff (take 2 (drop 10 xs))))) [
            | inl m ↦ absurd (ne (mapped xs m))
            | inr m ↦ rw m refl
          ])
]
