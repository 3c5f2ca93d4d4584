-- ===== src/Examples/Tunnels.antt =====
-- The ESP anti-replay window at concrete inputs.
use ranet_lite.Prelude.{◌≡◌, refl, arith, some, none, [], ◌∷◌, ◌-◌, ◌^◌}
use ranet_lite.Esp.Replay.{ReplayWindow, check, commit, replayed, bit_at, is_set, clear_range}
use ranet_lite.Esp.Replay.Refusal.{check-commit}
use ranet_lite.Esp.Replay.Spans.{clear_range_lem}
use ranet_lite.Esp.Replay.Spans.Digits.{digit}

-- 100 was the newest; 99 and 100 have been seen.
abbrev window : ReplayWindow
window = record { window = 128; last = 100; mask = 0 ∷ 0xc_0000_0000 ∷ [] }

unseen : check window 98 ≡ none
unfolding check bit_at is_set
unseen = refl

check-commit_example : check (commit window 98) 98 ≡ some (replayed 98)
check-commit_example = check-commit window 98 refl (omega arith) (omega arith) unseen

-- Three positions from 127, around the window: 127, 0 and 1.
abbrev seen_all : ReplayWindow
seen_all = record { window = 128; last = 127; mask = (2 ^ 64 - 1) ∷ (2 ^ 64 - 1) ∷ [] }

clear_range_lem_example : digit (clear_range seen_all 127 3).mask 1 ≡ 0
clear_range_lem_example =
    clear_range_lem seen_all 127 3 1 (omega arith) (omega arith) (omega arith) (omega arith)
