-- ===== src/Esp/Replay/Refusal.antt =====
-- The anti-replay window after a packet has been committed, esp/replay.go.
use native.Mathlib.Nat.{mul-add-mod_self_left, mod-eq_of_lt, mod-lt}
use native.Mathlib.Decide.{ℕ_discrete, dec_le}
use ranet_lite.Prelude.{
  ℕ, zero, suc, ◌+◌, ◌-◌, ◌*◌, ◌/◌, ◌%◌, ◌^◌, ◌≤◌, ◌<◌, ◌≡◌, refl, sym, ap, ◌∙◌, arith,
}
use ranet_lite.Prelude.{Bool, true, false, ◌||◌, none, some, List, bit_and, bit_or}
use ranet_lite.Prelude.{
  ltb, leb, ◌==◌, if◌then◌else◌, get_or, set, length, length-set, length-replicate, get_or-set_self,
}
use ranet_lite.Prelude.Bytes.{u32}
use ranet_lite.Prelude.Bits.{
  test_bit, test_bit-zero, test_bit-bit_and, test_bit-bit_or, test_bit-mul_pow_above,
}
use ranet_lite.Esp.Replay.{ReplayWindow, replayed, check, commit, mark, is_set, bit_at, advance}
use ranet_lite.Esp.Replay.{
  clear_all, clear_range, clear_span, clear_words, clear_bits, clear_head, clear_tail,
}

one_bit : (k : ℕ) → test_bit (2 ^ k) k ≡ 1
one_bit k =
    let one : 1 * 2 ^ k ≡ 2 ^ k = omega arith in
    let here : k + 0 ≡ k = omega arith in
    ap (λ (t : ℕ). test_bit t k) (sym one)
    ∙ (ap (λ (t : ℕ). test_bit (1 * 2 ^ k) t) (sym here) ∙ test_bit-mul_pow_above 1 k 0)

marked : (x k : ℕ) → (bit_and (bit_or x (2 ^ k)) (2 ^ k) == 0) ≡ false
marked x k = ground (
  arith,
  test_bit-bit_and (bit_or x (2 ^ k)) (2 ^ k) k,
  test_bit-bit_or x (2 ^ k) k,
  one_bit k,
  test_bit-zero k,
  zero_bit (bit_and (bit_or x (2 ^ k)) (2 ^ k)) k,
)
  where
    zero_bit : (y k : ℕ) → (y ≡ 0) → test_bit y k ≡ 0
    zero_bit y k e = rw e (test_bit-zero k)

is_set-mark :
    (w : ReplayWindow) (bit : ℕ) → bit / 64 < length w.mask → is_set (mark w bit) bit ≡ true
unfolding is_set mark
is_set-mark w bit h =
    rw
      (
        get_or-set_self w.mask (bit / 64) (bit_or (get_or w.mask (bit / 64) 0) (2 ^ (bit % 64))) 0
            h,
        marked (get_or w.mask (bit / 64) 0) (bit % 64),
      )
      refl

length-clear_words :
    (count first : ℕ) (mask : List ℕ) → length (clear_words first count mask) ≡ length mask
unfolding clear_words
length-clear_words zero first mask = refl
length-clear_words (suc count) first mask =
    length-clear_words count (suc first) (set mask first 0) ∙ length-set mask first 0

length-clear_bits : (mask : List ℕ) (i m : ℕ) → length (clear_bits mask i m) ≡ length mask
unfolding clear_bits
length-clear_bits mask i m = length-set mask i _

-- Clearing changes neither the size of the bitmap nor that of the window.
record Kept (v w : ReplayWindow) : Type 0 where
  pub size : length v.mask ≡ length w.mask
  pub width : v.window ≡ w.window

Kept-trans : {u v w : ReplayWindow} → Kept u v → Kept v w → Kept u w
Kept-trans h k = record { size = h.size ∙ k.size; width = h.width ∙ k.width }

masked-Kept :
    (w : ReplayWindow) (mask : List ℕ)
    → length mask ≡ length w.mask
    → Kept (record w { mask = mask }) w
masked-Kept w mask e = record { size = e; width = refl }

if-Kept : (b : Bool) (u v w : ReplayWindow) → Kept u w → Kept v w → Kept (if b then u else v) w
if-Kept true u v w h k = h
if-Kept false u v w h k = k

if-length :
    (b : Bool) (xs ys : List ℕ) (n : ℕ)
    → length xs ≡ n
    → length ys ≡ n
    → length (if b then xs else ys) ≡ n
if-length true xs ys n h k = h
if-length false xs ys n h k = k

length-ends :
    (mask : List ℕ) (start end last : ℕ)
    → length (clear_tail (clear_head mask start) end last) ≡ length mask
unfolding clear_tail clear_head
length-ends mask start end last =
    if-length (end % 64 == 0) _ _ (length mask) head
      (length-clear_bits (clear_head mask start) _ _ ∙ head)
  where
    head : length (clear_head mask start) ≡ length mask
    head = if-length (start % 64 == 0) _ _ (length mask) refl (length-clear_bits mask _ _)

clear_span-Kept : (w : ReplayWindow) (start n : ℕ) → Kept (clear_span w start n) w
unfolding clear_span
clear_span-Kept w start n = if-Kept _ _ _ w (masked-Kept w w.mask refl) (
    if-Kept _ _ _ w (masked-Kept w _ (length-clear_bits w.mask _ _)) (
      if-Kept _ _ _ w (masked-Kept w _ (length-clear_words _ _ _ ∙ length-ends w.mask start _ _))
        (masked-Kept w _ (length-ends w.mask start _ _))))

clear_range-Kept : (w : ReplayWindow) (start n : ℕ) → Kept (clear_range w start n) w
unfolding clear_range
clear_range-Kept w start n = if-Kept _ _ _ w (masked-Kept w w.mask refl) (
    if-Kept _ _ _ w (Kept-trans (clear_span-Kept (clear_span w _ _) 0 _) (clear_span-Kept w _ _))
      (clear_span-Kept w _ _))

advance-Kept : (w : ReplayWindow) (seq : ℕ) → Kept (advance w seq) w
unfolding advance clear_all
advance-Kept w seq =
    if-Kept _ _ _ w (masked-Kept w _ (length-replicate (length w.mask) 0)) (clear_range-Kept w _ _)

-- The bitmap has room for the window.
abbrev pub IsSized : ReplayWindow → Type 0
IsSized w = length w.mask ≡ (w.window + 63) / 64

word_in : (w : ReplayWindow) (k : ℕ) → IsSized w → 0 < w.window → k % w.window / 64 < length w.mask
word_in w k h pos = omega (arith, h, mod-lt k {m = w.window} pos)

-- The newest packet stands at its own remainder.
bit_at_self :
    (w : ReplayWindow) (seq : ℕ)
    → 0 < w.window
    → w.window < 2 ^ 31
    → bit_at w seq 0 ≡ u32 (seq + 2 ^ 32 - 1) % w.window
unfolding bit_at
bit_at_self w seq pos narrow =
    let r : ℕ = u32 (seq + 2 ^ 32 - 1) % w.window in
    let small : r < w.window = mod-lt (u32 (seq + 2 ^ 32 - 1)) {m = w.window} pos in
    let whole : u32 (r + w.window + 2 ^ 32 - 0) ≡ w.window * 1 + r = omega arith in
    rw whole (mul-add-mod_self_left w.window 1 r ∙ mod-eq_of_lt small)

bit_at-mark :
    (u : ReplayWindow) (bit last diff : ℕ) → bit_at (mark u bit) last diff ≡ bit_at u last diff
unfolding bit_at mark
bit_at-mark u bit last diff = refl

-- Once a position within the window is marked, its sequence number is refused.
refused :
    (u : ReplayWindow) (seq k : ℕ)
    → 0 < u.window
    → 0 < seq
    → seq ≤ u.last
    → u.last - seq < u.window
    → k % u.window ≡ bit_at u u.last (u.last - seq)
    → IsSized u
    → check (mark u (k % u.window)) seq ≡ some (replayed seq)
refused u seq k pos some_seq le near at sized =
    let bit : ℕ = k % u.window in
    let on : is_set (mark u bit) bit ≡ true = is_set-mark u bit (word_in u k sized pos) in
    let a : (u.window == 0) ≡ false = ground arith in
    let b : (seq == 0) ≡ false = ground arith in
    let c : (u.last == 0 || ltb u.last seq) ≡ false = ground arith in
    let e : leb u.window (u.last - seq) ≡ false = ground arith in
    let there : is_set (mark u bit) (bit_at (mark u bit) u.last (u.last - seq)) ≡ true =
      rw (bit_at-mark u bit u.last (u.last - seq), ← at) on in
    unfold check mark in (rw (a, b, c, e, there) refl)

-- The newest packet is refused once it is marked.
newest_refused :
    (u : ReplayWindow) (seq n : ℕ)
    → n ≡ u.window
    → 0 < u.window
    → u.window < 2 ^ 31
    → 0 < seq
    → u.last ≡ seq
    → IsSized u
    → check (mark u (u32 (seq + 2 ^ 32 - 1) % n)) seq ≡ some (replayed seq)
unfolding bit_at
newest_refused u seq n same pos narrow some_seq e sized =
    let none_off : u.last - seq ≡ 0 = omega arith in
    rw same (
      refused u seq (u32 (seq + 2 ^ 32 - 1)) pos some_seq (omega arith) (omega arith)
        (sym (rw (none_off, e) (bit_at_self u seq pos narrow))) sized)

module _ (w : ReplayWindow) (seq : ℕ) (pos : 0 < w.window) (free : check w seq ≡ none) where
  some_seq : 0 < seq
  some_seq = unfold check in (ground arith)

  near : 0 < w.last → seq ≤ w.last → w.last - seq < w.window
  near some_last le = unfold check in (ground arith)

  commit_first :
      w.last ≡ 0 → commit w seq ≡ mark (record w { last = seq }) (u32 (seq + 2 ^ 32 - 1) % w.window)
  unfolding commit
  commit_first e =
      let a : (w.window == 0) ≡ false = ground arith in
      let b : (w.last == 0) ≡ true = ground arith in rw (a, b) refl

  commit_ahead :
      0 < w.last
      → w.last < seq
      → commit w seq
        ≡ mark (record (advance w seq) { last = seq }) (u32 (seq + 2 ^ 32 - 1) % w.window)
  unfolding commit
  commit_ahead some_last ahead =
      let a : (w.window == 0) ≡ false = ground arith in
      let b : (w.last == 0) ≡ false = ground arith in
      let c : ltb w.last seq ≡ true = ground arith in rw (a, b, c) refl

  commit_behind : 0 < w.last → seq ≤ w.last → commit w seq ≡ mark w (bit_at w w.last (w.last - seq))
  unfolding commit
  commit_behind some_last le =
      let a : (w.window == 0) ≡ false = ground arith in
      let b : (w.last == 0) ≡ false = ground arith in
      let c : ltb w.last seq ≡ false = ground arith in rw (a, b, c) refl

  behind_refused :
      IsSized w → 0 < w.last → seq ≤ w.last → check (commit w seq) seq ≡ some (replayed seq)
  behind_refused sized some_last le =
      rw (commit_behind some_last le)
        (unfold bit_at in refused w seq _ pos some_seq le (near some_last le) refl sized)

  ahead_refused :
      IsSized w
      → w.window < 2 ^ 31
      → 0 < w.last
      → w.last < seq
      → check (commit w seq) seq ≡ some (replayed seq)
  ahead_refused sized narrow some_last ahead =
      let k = advance-Kept w seq in
      let wide : 0 < (advance w seq).window = rw k.width pos in
      let slim : (advance w seq).window < 2 ^ 31 = rw k.width narrow in
      rw (commit_ahead some_last ahead) (
        newest_refused (record (advance w seq) { last = seq }) seq w.window (sym k.width) wide slim
          some_seq refl (k.size ∙ sized ∙ ap (λ (t : ℕ). (t + 63) / 64) (sym k.width)))

-- For a window of fewer than 2 ^ 31 packets whose bitmap has room for it: once a sequence number
-- that passed the check has been committed, checking it again reports a replay.
pub check-commit :
    (w : ReplayWindow) (seq : ℕ)
    → IsSized w
    → 0 < w.window
    → w.window < 2 ^ 31
    → check w seq ≡ none
    → check (commit w seq) seq ≡ some (replayed seq)
check-commit w seq sized pos narrow free = elim (ℕ_discrete w.last 0) [
  | yes e ↦ rw (commit_first w seq pos free e) (
      newest_refused (record w { last = seq }) seq w.window refl pos narrow
        (some_seq w seq pos free) refl sized)
  | no some_last ↦ elim (dec_le seq w.last) [
    | yes le ↦ behind_refused w seq pos free sized (omega arith) le
    | no ahead ↦ ahead_refused w seq pos free sized narrow (omega arith) (omega arith)
  ]
]
