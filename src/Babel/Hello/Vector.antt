-- ===== src/Babel/Hello/Vector.antt =====
-- What the 16-bit vector of internal/babel/etx.go stands for: the outcomes of the last Hellos,
-- most recent first.
use native.Mathlib.Nat.{pow-suc, one-le-pow, zero-mod, zero-div, div-div-eq-div-mul}
use ranet_lite.Prelude.Bits.{mod_double, bit_or-zero, bit_or-one_even}
use ranet_lite.Prelude.Bytes.{u16}
use ranet_lite.Prelude.{
  length-append, length-replicate, length-take, length-drop, Bool-cases, inl, inr,
}
use ranet_lite.Prelude.{ℕ, zero, suc, ◌+◌, ◌-◌, ◌*◌, ◌/◌, ◌%◌, ◌^◌, ◌≤◌, ◌<◌, min, ◌≡◌, refl, arith}
use ranet_lite.Prelude.{Bool, true, false, List, [], ◌∷◌, ◌++◌, length, take, drop, replicate}
use ranet_lite.Prelude.{ap, sym, ◌∙◌, leb, bit_or}
use ranet_lite.Babel.Hello.{HelloHistory, shift_in, history_depth}

abbrev pub digit : Bool → ℕ
digit true = 1
digit false = 0

abbrev pub vector : List Bool → ℕ
vector [] = 0
vector (b ∷ l) = digit b + 2 * vector l

-- The outcomes that the vector can hold once `l` is recorded.
abbrev pub recent : List Bool → List Bool
recent l = take history_depth l

pub record Holds (h : HelloHistory) (l : List Bool) : Type 0 where
  pub bits : h.bits ≡ vector l
  pub samples : h.samples ≡ length l
  pub fits : length l ≤ history_depth

digit-le-one : (b : Bool) → digit b ≤ 1
digit-le-one true = omega arith
digit-le-one false = omega arith

vector-lt : (l : List Bool) → vector l < 2 ^ length l
vector-lt [] = omega arith
vector-lt (true ∷ l) = omega (arith, vector-lt l, pow-suc 2 (length l))
vector-lt (false ∷ l) = omega (arith, vector-lt l, pow-suc 2 (length l))

-- Cutting the list off is cutting the number off.
vector-take : (n : ℕ) (l : List Bool) → vector (take n l) ≡ vector l % 2 ^ n
vector-take zero l = omega arith
vector-take (suc n) [] = sym (zero-mod (2 ^ suc n))
vector-take (suc n) (b ∷ l) =
    let x : ℕ = digit b + 2 * vector l in
    let e : 2 ^ suc n ≡ 2 * 2 ^ n = omega (arith, pow-suc 2 n) in
    let (low, high) = mod_double x (2 ^ n) (one-le-pow n 2 (omega arith)) in
    let half : x / 2 ≡ vector l = omega (arith, digit-le-one b) in
    rw e (omega (arith, digit-le-one b, vector-take n l, ap (λ (t : ℕ). t % 2 ^ n) half))

vector-drop : (n : ℕ) (l : List Bool) → vector (drop n l) ≡ vector l / 2 ^ n
vector-drop zero l = omega arith
vector-drop (suc n) [] = sym (zero-div (2 ^ suc n))
vector-drop (suc n) (b ∷ l) =
    let x : ℕ = digit b + 2 * vector l in
    let e : 2 ^ suc n ≡ 2 * 2 ^ n = omega (arith, pow-suc 2 n) in
    let half : x / 2 ≡ vector l = omega (arith, digit-le-one b) in
    rw (e, ← div-div-eq-div-mul x 2 (2 ^ n), half) (vector-drop n l)

vector-zeros : (n : ℕ) (l : List Bool) → vector (replicate n false ++ l) ≡ vector l * 2 ^ n
vector-zeros zero l = omega arith
vector-zeros (suc n) l = omega (arith, vector-zeros n l, ap (λ (t : ℕ). vector l * t) (pow-suc 2 n))

take-eq_self : (n : ℕ) (l : List Bool) → length l ≤ n → take n l ≡ l
take-eq_self zero [] h = refl
take-eq_self zero (b ∷ l) h = absurd (omega arith)
take-eq_self (suc n) [] h = refl
take-eq_self (suc n) (b ∷ l) h = ap (λ (t : List Bool). b ∷ t) (take-eq_self n l (omega arith))

-- The bit that is shifted in lands in the place that the shift left.
or-shifted : (v : ℕ) → bit_or (u16 (v * 2 ^ 1)) 1 ≡ u16 (v * 2) + 1
or-shifted v =
    let e : u16 (v * 2 ^ 1) ≡ v % 2 ^ 15 * 2 = omega arith in
    rw (e, bit_or-one_even (v % 2 ^ 15)) (omega arith)

zeros_value :
    (h : HelloHistory) (count : ℕ)
    → count ≤ history_depth
    → ((shift_in h 0 count).bits ≡ u16 (h.bits * 2 ^ count))
      × ((shift_in h 0 count).samples ≡ min (count + h.samples) history_depth)
unfolding shift_in
zeros_value h count le = elim (Bool-cases (leb history_depth count)) [
  | inl full ↦ let e : count ≡ 16 = ground arith in rw (full, e) (omega arith, omega arith)
  | inr room ↦ rw room (bit_or-zero _, omega arith)
]

length-zeros : (n : ℕ) (l : List Bool) → length (replicate n false ++ l) ≡ n + length l
length-zeros n l = rw (length-append, length-replicate) refl

-- Shifting in `count` zeros records as many missed Hellos.
pub zeros-Holds :
    (h : HelloHistory) (l : List Bool) (count : ℕ)
    → count ≤ history_depth
    → Holds h l
    → Holds (shift_in h 0 count) (recent (replicate count false ++ l))
zeros-Holds h l count le w =
    let (value, filled) = zeros_value h count le in
    record {
      bits =
          value
          ∙ rw (vector-take 16 (replicate count false ++ l), vector-zeros count l, w.bits) refl;
      samples = omega (
        arith,
        length-take 16 (replicate count false ++ l),
        length-zeros count l,
        w.samples,
        filled,
      );
      fits = omega (arith, length-take 16 (replicate count false ++ l));
    }

-- Shifting in a one records a Hello that arrived.
pub one-Holds :
    (h : HelloHistory) (l : List Bool) → Holds h l → Holds (shift_in h 1 1) (recent (true ∷ l))
unfolding shift_in
one-Holds h l w = record {
  bits = or-shifted h.bits ∙ omega (arith, vector-take 15 l, w.bits);
  samples = omega (arith, length-take 16 (true ∷ l), w.samples);
  fits = omega (arith, length-take 16 (true ∷ l));
}

-- Shifting out takes the latest outcomes back.
pub undo-Holds :
    (h : HelloHistory) (l : List Bool) (n : ℕ)
    → Holds h l
    → Holds (record h { bits = h.bits / 2 ^ n; samples = h.samples - n }) (drop n l)
undo-Holds h l n w = record {
  bits = rw (vector-drop n l, w.bits) refl;
  samples = omega (arith, length-drop n l, w.samples);
  fits = omega (arith, length-drop n l, w.fits);
}
