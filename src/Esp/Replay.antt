-- ===== src/Esp/Replay.antt =====
-- The anti-replay window of esp/replay.go: a circular bitmap of 64-bit words.
pub mod Refusal
pub mod Spans
use ranet_lite.Prelude.{ℕ, zero, suc, ◌+◌, ◌-◌, ◌*◌, ◌/◌, ◌%◌, ◌^◌, bit_and, bit_or}
use ranet_lite.Prelude.{Bool, true, false, not, ◌&&◌, ◌||◌, Option, none, some, List, [], ◌∷◌}
use ranet_lite.Prelude.{ltb, leb, ◌==◌, if◌then◌else◌, get_or, set, replicate, length}
use ranet_lite.Prelude.Bytes.{u32, u64}

pub record ReplayWindow : Type 0 where
  pub window : ℕ
  pub last : ℕ
  pub mask : List ℕ

pub data ReplayError : Type 0 where
  zero_sequence : ReplayError
  too_old replayed : ℕ → ReplayError

unfoldable pub new_replay_window : ℕ → ReplayWindow
new_replay_window window = record {
  window = window;
  last = 0;
  mask = replicate ((window + 63) / 64) 0;
}

-- `last` is never 0 here; the subtraction is that of uint32.
unfoldable pub bit_at : ReplayWindow → ℕ → ℕ → ℕ
bit_at w last diff =
    let pos = u32 (last + 2 ^ 32 - 1) % w.window in u32 (pos + w.window + 2 ^ 32 - diff) % w.window

unfoldable pub is_set : ReplayWindow → ℕ → Bool
is_set w bit = not (bit_and (get_or w.mask (bit / 64) 0) (2 ^ (bit % 64)) == 0)

unfoldable pub mark : ReplayWindow → ℕ → ReplayWindow
mark w bit = record w {
  mask = set w.mask (bit / 64) (bit_or (get_or w.mask (bit / 64) 0) (2 ^ (bit % 64)));
}

abbrev pub all_ones : ℕ
all_ones = 2 ^ 64 - 1

-- `w.mask[i] &^= m`. An index past the end panics there and changes nothing here; the window's own
-- positions are all inside the mask that `new_replay_window` makes.
unfoldable pub clear_bits : List ℕ → ℕ → ℕ → List ℕ
clear_bits mask i m = set mask i (bit_and (get_or mask i 0) (all_ones - m))

-- `clear(w.mask[first : first+count])`
unfoldable pub clear_words : ℕ → ℕ → List ℕ → List ℕ
clear_words first zero mask = mask
clear_words first (suc count) mask = clear_words (suc first) count (set mask first 0)

-- The partial word at the start of a span, and the one at its end.
unfoldable pub clear_head : List ℕ → ℕ → List ℕ
clear_head mask start =
    if start % 64 == 0
    then mask
    else clear_bits mask (start / 64) (u64 (all_ones * 2 ^ (start % 64)))

unfoldable pub clear_tail : List ℕ → ℕ → ℕ → List ℕ
clear_tail mask end last =
    if end % 64 == 0 then mask else clear_bits mask last (all_ones / 2 ^ (64 - end % 64))

unfoldable pub clear_span : ReplayWindow → ℕ → ℕ → ReplayWindow
clear_span w start n =
    let end = u32 (start + n) in
    let first = start / 64 in
    let last = u32 (end + 2 ^ 32 - 1) / 64 in
    let offset = start % 64 in
    let tail = end % 64 in
    let first' = if offset == 0 then first else first + 1 in
    let ends = clear_tail (clear_head w.mask start) end last in
    let last' = if tail == 0 then last else u32 (last + 2 ^ 32 - 1) in
    if n == 0
    then w
    else if first == last
    then record w {
      mask = clear_bits w.mask first (u64 (all_ones / 2 ^ (64 - n) * 2 ^ (start % 64)));
    }
    else if leb first' last'
    then record w { mask = clear_words first' (last' - first' + 1) ends }
    else record w { mask = ends }

unfoldable pub clear_range : ReplayWindow → ℕ → ℕ → ReplayWindow
clear_range w start₀ n =
    let start = start₀ % w.window in
    let head = w.window - start in
    if n == 0
    then w
    else if ltb w.window (u32 (start + n))
    then clear_span (clear_span w start head) 0 (n - head)
    else clear_span w start n

-- `none` is no error.
unfoldable pub check : ReplayWindow → ℕ → Option ReplayError
check w seq =
    let diff = w.last - seq in
    if w.window == 0
    then none
    else if seq == 0
    then some zero_sequence
    else if w.last == 0 || ltb w.last seq
    then none
    else if leb w.window diff
    then some (too_old seq)
    else if is_set w (bit_at w w.last diff)
    then some (replayed seq)
    else none

unfoldable pub clear_all : ReplayWindow → ReplayWindow
clear_all w = record w { mask = replicate (length w.mask) 0 }

-- A jump forward clears what it skips, and all of it if it leaves the window.
unfoldable pub advance : ReplayWindow → ℕ → ReplayWindow
advance w seq =
    let diff = seq - w.last in
    if leb w.window diff
    then clear_all w
    else clear_range w (u32 (w.last + 2 ^ 32 - 1) % w.window + 1) (diff - 1)

unfoldable pub commit : ReplayWindow → ℕ → ReplayWindow
commit w seq =
    let bit = u32 (seq + 2 ^ 32 - 1) % w.window in
    if w.window == 0
    then w
    else if w.last == 0
    then mark (record w { last = seq }) bit
    else if ltb w.last seq
    then mark (record (advance w seq) { last = seq }) bit
    else mark w (bit_at w w.last (w.last - seq))
