-- ===== src/Babel/Hello/History.antt =====
-- `record`, `missed` and `beta` of internal/babel/etx.go over the outcomes that the vector holds.
use native.Mathlib.Nat.{pow-suc, div-div-eq-div-mul, add-zero}
use native.Mathlib.Numerals.{add-one}
use native.Mathlib.Decide.{dec_le}
use ranet_lite.Prelude.{ℕ, zero, suc, ◌+◌, ◌-◌, ◌*◌, ◌/◌, ◌%◌, ◌^◌, ◌≤◌, ◌<◌, min, ◌≡◌, refl, arith}
use ranet_lite.Prelude.{Bool, true, false, List, [], ◌∷◌, ◌++◌, length, drop, replicate}
use ranet_lite.Prelude.{ap, sym, ◌∙◌, leb, Option, some, none}
use ranet_lite.Prelude.Bytes.{u16, IsU16}
use ranet_lite.Prelude.Bits.{is_clear, test_bit, test_bit-div_pow}
use ranet_lite.Babel.Metric.{sub16}
use ranet_lite.Babel.Hello.{HelloHistory, shift_in, arrive, record_hello, missed}
use ranet_lite.Babel.Hello.{reboot_drift, beta, beta_window, count_bits}
use ranet_lite.Babel.Hello.Vector.{Holds, recent, vector, digit, zeros-Holds, one-Holds, undo-Holds}

-- The history after a call: what it holds, and the number it waits for.
pub record Follows (r : HelloHistory × Bool) (l : List Bool) (next : ℕ) : Type 0 where
  pub accepted : r.1 ≡ true
  pub running : r.0.started ≡ true
  pub holds : Holds r.0 l
  pub expects : r.0.expected ≡ next

shift_in-started : (h : HelloHistory) (bit n : ℕ) → (shift_in h bit n).started ≡ h.started
unfolding shift_in
shift_in-started h bit n = ground arith

shift_in-expected : (h : HelloHistory) (bit n : ℕ) → (shift_in h bit n).expected ≡ h.expected
unfolding shift_in
shift_in-expected h bit n = ground arith

missed_running :
    (h : HelloHistory)
    → h.started ≡ true
    → missed h ≡ record (shift_in h 0 1) { expected = u16 ((shift_in h 0 1).expected + 1) }
unfolding missed
missed_running h run = ground arith

arrive-Follows :
    (h : HelloHistory) (seqno : ℕ) (l : List Bool)
    → Holds h l
    → h.started ≡ true
    → Follows (arrive h seqno, true) (recent (true ∷ l)) (u16 (seqno + 1))
unfolding arrive
arrive-Follows h seqno l w run =
    let o = one-Holds h l w in
    record {
      accepted = refl;
      running = shift_in-started h 1 1 ∙ run;
      holds = record { bits = o.bits; samples = o.samples; fits = o.fits };
      expects = refl;
    }

module _ (h : HelloHistory) (seqno : ℕ) where
  first-Follows : h.started ≡ false → Follows (record_hello h seqno) (true ∷ []) (u16 (seqno + 1))
  unfolding record_hello
  first-Follows e = rw e (record {
    accepted = refl;
    running = refl;
    holds = record { bits = refl; samples = refl; fits = omega arith };
    expects = refl;
  })

  module _ (run : h.started ≡ true) where
    record_ahead :
        leb (sub16 seqno h.expected) reboot_drift ≡ true
        → record_hello h seqno ≡ (arrive (shift_in h 0 (sub16 seqno h.expected)) seqno, true)
    unfolding record_hello
    record_ahead e = ground arith

    record_behind :
        leb (sub16 seqno h.expected) reboot_drift ≡ false
        → leb (sub16 h.expected seqno) reboot_drift ≡ true
        → let n = sub16 h.expected seqno in
          record_hello h seqno
          ≡ (arrive (record h { bits = h.bits / 2 ^ n; samples = h.samples - n }) seqno, true)
    unfolding record_hello
    record_behind e f = ground arith

    record_reboot :
        leb (sub16 seqno h.expected) reboot_drift ≡ false
        → leb (sub16 h.expected seqno) reboot_drift ≡ false
        → record_hello h seqno ≡ (h, false)
    unfolding record_hello
    record_reboot e f = ground arith

    module _ (l : List Bool) (w : Holds h l) (number : IsU16 h.expected) where
      gap-Follows :
          (d : ℕ)
          → d ≤ reboot_drift
          → seqno ≡ (h.expected + d) % 2 ^ 16
          → Follows
              (record_hello h seqno)
              (recent (true ∷ recent (replicate d false ++ l)))
              (u16 (seqno + 1))
      gap-Follows d le e =
          let ahead : sub16 seqno h.expected ≡ d = omega arith in
          rw (record_ahead (ground arith), ahead)
            (arrive-Follows (shift_in h 0 d) seqno (recent (replicate d false ++ l))
              (zeros-Holds h l d le w) (shift_in-started h 0 d ∙ run))

      undo-Follows :
          (d : ℕ)
          → 0 < d
          → d ≤ reboot_drift
          → IsU16 seqno
          → h.expected ≡ (seqno + d) % 2 ^ 16
          → Follows (record_hello h seqno) (recent (true ∷ drop d l)) (u16 (seqno + 1))
      undo-Follows d pos le hs e =
          let behind : sub16 h.expected seqno ≡ d = omega arith in
          rw (record_behind (ground arith) (ground arith), behind)
            (arrive-Follows (record h { bits = h.bits / 2 ^ d; samples = h.samples - d }) seqno
              (drop d l) (undo-Holds h l d w) run)

      reboot_refused :
          (d : ℕ)
          → reboot_drift < d
          → d < 2 ^ 16 - reboot_drift
          → seqno ≡ (h.expected + d) % 2 ^ 16
          → record_hello h seqno ≡ (h, false)
      reboot_refused d lo hi e = record_reboot (ground arith) (ground arith)

-- What a sequence number tells a node that holds the outcomes `l` and waits for `expected`: Hellos
-- were lost, zeros were written too early, or the sender lost its counter.
pub data Reads (l : List Bool) (expected seqno : ℕ) : Option (List Bool) → Type 0 where
  lost :
      (d : ℕ)
      → d ≤ reboot_drift
      → seqno ≡ (expected + d) % 2 ^ 16
      → Reads l expected seqno (some (recent (true ∷ recent (replicate d false ++ l))))
  early :
      (d : ℕ)
      → 0 < d
      → d ≤ reboot_drift
      → expected ≡ (seqno + d) % 2 ^ 16
      → Reads l expected seqno (some (recent (true ∷ drop d l)))
  rebooted :
      (d : ℕ)
      → reboot_drift < d
      → d < 2 ^ 16 - reboot_drift
      → seqno ≡ (expected + d) % 2 ^ 16
      → Reads l expected seqno none

abbrev pub Becomes : HelloHistory → ℕ → Option (List Bool) → Type 0
Becomes h seqno none = record_hello h seqno ≡ (h, false)
Becomes h seqno (some l) = Follows (record_hello h seqno) l (u16 (seqno + 1))

-- On a running history that holds the outcomes `l`, every sequence number is read in one of the
-- three ways, and `record` then holds just the outcomes that this reading says, waits for the next
-- number, and answers true; or it leaves the history alone and answers false.
pub record_hello-Becomes :
    (h : HelloHistory) (seqno : ℕ) (l : List Bool)
    → Holds h l
    → h.started ≡ true
    → IsU16 h.expected
    → IsU16 seqno
    → (r : Option (List Bool)) × Reads l h.expected seqno r × Becomes h seqno r
record_hello-Becomes h seqno l w run number hs = elim (dec_le ahead reboot_drift) [
  | yes le ↦ (
    _,
    Reads.lost ahead le (omega arith),
    gap-Follows h seqno run l w number ahead le (omega arith),
  )
  | no far ↦ elim (dec_le behind reboot_drift) [
    | yes le ↦ (
      _,
      Reads.early behind (omega arith) le (omega arith),
      undo-Follows h seqno run l w number behind (omega arith) le hs (omega arith),
    )
    | no further ↦ (
      none,
      Reads.rebooted ahead (omega arith) (omega arith) (omega arith),
      reboot_refused h seqno run l w number ahead (omega arith) (omega arith) (omega arith),
    )
  ]
]
  where
    ahead : ℕ
    ahead = sub16 seqno h.expected

    behind : ℕ
    behind = sub16 h.expected seqno

-- A Hello that never came is one more zero, and the next number is waited for.
pub missed-Holds :
    (h : HelloHistory) (l : List Bool)
    → Holds h l
    → h.started ≡ true
    → Holds (missed h) (recent (false ∷ l))
      × ((missed h).expected ≡ u16 (h.expected + 1))
      × ((missed h).started ≡ true)
missed-Holds h l w run =
    let z = zeros-Holds h l 1 (omega arith) w in
    rw (missed_running h run) (
      record { bits = z.bits; samples = z.samples; fits = z.fits },
      ap (λ (t : ℕ). u16 (t + 1)) (shift_in-expected h 0 1),
      shift_in-started h 0 1 ∙ run,
    )

abbrev pub count_true : List Bool → ℕ
count_true [] = 0
count_true (b ∷ l) = digit b + count_true l

-- The number of ones among the low `n` bits.
ones : ℕ → ℕ → ℕ
ones x zero = 0
ones x (suc n) = x % 2 + ones (x / 2) n

count_bits-ones : (x left i acc : ℕ) → count_bits x left i acc ≡ acc + ones (x / 2 ^ i) left
unfolding count_bits ones
count_bits-ones x zero i acc = omega arith
count_bits-ones x (suc left) i acc =
    let low : test_bit x i ≡ x / 2 ^ i % 2 =
      sym (test_bit-div_pow x i 0 ∙ ap (λ (t : ℕ). test_bit x t) (add-zero i)) in
    let next : x / 2 ^ (i + 1) ≡ x / 2 ^ i / 2 = rw (add-one, pow-suc, div-div-eq-div-mul) refl in
    rw (is_clear x i, low) (count_bits-ones x left (i + 1) _ ∙ rw next (ground arith))

ones-vector : (l : List Bool) → ones (vector l) (length l) ≡ count_true l
unfolding ones
ones-vector [] = refl
ones-vector (true ∷ l) =
    let e : (1 + 2 * vector l) / 2 ≡ vector l = omega arith in rw e (omega (arith, ones-vector l))
ones-vector (false ∷ l) =
    let e : (0 + 2 * vector l) / 2 ≡ vector l = omega arith in rw e (omega (arith, ones-vector l))

-- The reception is the exact share of Hellos that arrived among the outcomes held.
pub beta-Holds :
    (h : HelloHistory) (l : List Bool)
    → Holds h l
    → h.started ≡ true
    → beta h ≡ some (record { received = count_true l; window = length l })
unfolding beta
beta-Holds h l w run =
    let full : min beta_window h.samples ≡ length l = omega (arith, w.samples, w.fits) in
    let whole : vector l / 2 ^ 0 ≡ vector l = omega arith in
    let count : count_bits h.bits (length l) 0 0 ≡ count_true l =
      rw (w.bits, count_bits-ones (vector l) (length l) 0 0, whole)
        (omega (arith, ones-vector l)) in
    rw (run, full, count)
