-- ===== src/Sadr/Trie/Contents/Forks.antt =====
-- The sources that a node and its children hold together, for `edit` of sadr/table.go.
use ranet_lite.Prelude.{ℕ, zero, suc, ◌≤◌}
use ranet_lite.Prelude.{◌≡◌, ◌≢◌, refl, ◌⊎◌, inl, inr, arith}
use ranet_lite.Prelude.{Bool, true, false, List, [], ◌++◌, append-nil}
use ranet_lite.Prelude.{if◌then◌else◌}
use ranet_lite.Sadr.Sources.{SrcEntry}
use ranet_lite.Sadr.Trie.{TrieNode, Trie, nil, set_child, fork_of}
use ranet_lite.Sadr.Trie.Shape.{is_at}
use ranet_lite.Sadr.Trie.Shape.{sources_at}

module _ {V : Type 0} where
  abbrev pub here_or_none : Bool → List (SrcEntry V) → List (SrcEntry V)
  here_or_none b es = if b then es else []

  pub here_or_none-nil : (k : Bool) → here_or_none k [] ≡ []
  here_or_none-nil true = refl
  here_or_none-nil false = refl

  pub sources_at-fork_one :
      (b m : ℕ) (n : TrieNode V) (bit : ℕ) (t : Trie V)
      → sources_at b m (fork_of n (set_child bit t (nil, nil)))
        ≡ here_or_none (is_at b m n) n.srcs ++ sources_at b m t
  unfolding fork_of set_child sources_at
  sources_at-fork_one b m n zero t = rw (append-nil (sources_at b m t)) refl
  sources_at-fork_one b m n (suc bit) t = refl

  -- The order of two children does not matter when one of them holds nothing there.
  pub sources_at-fork_two :
      (b m : ℕ) (n : TrieNode V) (bit bit' : ℕ) (t u : Trie V)
      → bit ≤ 1
      → bit' ≤ 1
      → bit ≢ bit'
      → (sources_at b m t ≡ []) ⊎ (sources_at b m u ≡ [])
      → sources_at b m (fork_of n (set_child bit' u (set_child bit t (nil, nil))))
        ≡ here_or_none (is_at b m n) n.srcs ++ (sources_at b m t ++ sources_at b m u)
  unfolding fork_of set_child sources_at
  sources_at-fork_two b m n zero zero t u h k ne o = absurd (ne refl)
  sources_at-fork_two b m n zero (suc x) t u h k ne o = refl
  sources_at-fork_two b m n (suc x) zero t u h k ne (inl e) =
      rw (e, append-nil (sources_at b m u)) refl
  sources_at-fork_two b m n (suc x) zero t u h k ne (inr e) =
      rw (e, append-nil (sources_at b m t)) refl
  sources_at-fork_two b m n (suc x) (suc y) t u h k ne o = absurd (ne (omega (arith, h, k)))
