-- ===== src/Examples/Tables.antt =====
-- The theorems on the forwarding table at concrete inputs.
use native.Mathlib.Decide.{ℕ_discrete}
use ranet_lite.Prelude.{
  ℕ, ◌*◌, ◌^◌, ◌≤◌, ◌<◌, ◌≡◌, ◌≢◌, refl, ap, arith, or_else, Option, none, some, true, false, List,
  [], ◌∷◌,
}
use ranet_lite.Babel.Keys.{Prefix}
use mathlib.Core.Option.{some-injective}
use ranet_lite.Prelude.Order.{All}
use ranet_lite.Sadr.Sources.{
  Addr, SrcEntry, mask, masked, node_match, scan, set_source, remove_source,
}
use ranet_lite.Sadr.Sources.{
  match_all_source, index_srcs, count_runs, contains, has_source, insert_source, replace_source,
  same_source,
}
use ranet_lite.Sadr.Address.{common_bits, leading_zeros, branch, prefix_matches}
use mathlib.Core.Bool.{xor}
use ranet_lite.Sadr.Sources.Canonical.{IsCanonical, IsMasked}
use ranet_lite.Sadr.Sources.Index.{node_match-scan}
use ranet_lite.Sadr.Trie.{
  Trie, nil, edit, lookup_from, edit_above, new_trie_node, set_srcs, set_child, fork_of, compact,
  is_empty,
}
use ranet_lite.Sadr.Trie.Shape.{IsTrie, sources_at}
use ranet_lite.Sadr.Trie.Edit.{edit-IsTrie}
use ranet_lite.Sadr.Trie.Contents.{sources_at-edit}
use ranet_lite.Sadr.Table.{
  empty, lookup, set, remove, change, change_at, valid_prefixes, masked_source,
}
use ranet_lite.Sadr.Table.Views.{answer, IsPrefix}
use ranet_lite.Sadr.Table.Refines.{Op, IsOp, set_op, remove_op, run, replay, no_routes, lookup-run}

abbrev v4 : ℕ → ℕ → Prefix
v4 addr plen = record { is_4 = true; addr = addr; plen = plen }

-- 10.0.0.0/8 to 192.168.0.0/16 by 1, all to 192.168.1.0/24 by 2 and by 3 to 0.0.0.0/0.
abbrev ops : List (Op ℕ)
ops =
    set_op (some (v4 0x0a000001 8)) (some (v4 0xc0a80000 16)) 1
    ∷ set_op none (some (v4 0xc0a80100 24)) 2
    ∷ set_op none (some (v4 0 0)) 3
    ∷ remove_op none (some (v4 0xc0a80100 24))
    ∷ []

abbrev host : ℕ → Addr
host a = record { is_4 = true; value = a; zoned = false }

ops-valid : All IsOp ops
ops-valid = (
  (
    prefix 0x0a000001 8 (omega arith) (omega arith),
    prefix 0xc0a80000 16 (omega arith) (omega arith),
  ),
  (
    (tt, prefix 0xc0a80100 24 (omega arith) (omega arith)),
    (
      (tt, prefix 0 0 (omega arith) (omega arith)),
      ((tt, prefix 0xc0a80100 24 (omega arith) (omega arith)), tt),
    ),
  ),
)
  where
    prefix : (addr plen : ℕ) → plen ≤ 32 → addr < 2 ^ 32 → IsPrefix (v4 addr plen)
    prefix addr plen h k = record { short = h; in_range = k }

lookup-run_example :
    lookup (some (host 0x0a010203)) (some (host 0xc0a80105)) (run ℕ_discrete ops empty)
    ≡ answer (replay ℕ_discrete ops no_routes) (some (host 0x0a010203)) (host 0xc0a80105)
lookup-run_example =
    lookup-run ℕ_discrete ops (some (host 0x0a010203)) (host 0xc0a80105) ops-valid refl

-- The removed destination is out of the way, and the source of the next one holds the address.
lookup-ops :
    lookup (some (host 0x0a010203)) (some (host 0xc0a80105)) (run ℕ_discrete ops empty) ≡ some 1
unfolding lookup run set remove change change_at valid_prefixes masked_source masked edit set_source
    remove_source lookup_from edit_above new_trie_node set_srcs set_child fork_of compact is_empty
    common_bits leading_zeros branch prefix_matches match_all_source node_match index_srcs
    count_runs scan contains xor has_source insert_source replace_source same_source
lookup-ops = refl

abbrev add : ℕ → List (SrcEntry ℕ) → List (SrcEntry ℕ)
add v es = record { src = none; value = v } ∷ es

-- 2001:db8::/32 in an empty trie.
abbrev one_node : Trie ℕ
one_node = edit (0x20010db8 * 2 ^ 96) 32 (add 1) nil

one_node-IsTrie : IsTrie 0 0 one_node
one_node-IsTrie =
    edit-IsTrie (0x20010db8 * 2 ^ 96) 32 (add 1) (omega arith) (omega arith) nil 0 0 tt
      (omega arith) refl

edit-IsTrie_example : IsTrie 0 0 (edit (0x20010db9 * 2 ^ 96) 32 (add 2) one_node)
edit-IsTrie_example =
    edit-IsTrie (0x20010db9 * 2 ^ 96) 32 (add 2) (omega arith) (omega arith) one_node 0 0
      one_node-IsTrie (omega arith) refl

sources_at-edit_example :
    sources_at (0x20010db8 * 2 ^ 96) 32 (edit (0x20010db9 * 2 ^ 96) 32 (add 2) one_node)
    ≡ sources_at (0x20010db8 * 2 ^ 96) 32 one_node
sources_at-edit_example =
    sources_at-edit (0x20010db9 * 2 ^ 96) 32 (add 2) (omega arith) (omega arith)
      (0x20010db8 * 2 ^ 96) 32 one_node 0 0 one_node-IsTrie (omega arith) refl

-- Four sources of one length, which is enough for an index.
abbrev four : List (SrcEntry ℕ)
four = entry 0x0a000000 ∷ entry 0x0b000000 ∷ entry 0x0c000000 ∷ entry 0x0d000000 ∷ []
  where
    entry : ℕ → SrcEntry ℕ
    entry a = record { src = some (v4 a 8); value = a }

four-IsCanonical : IsCanonical four
four-IsCanonical = (
  masked 0x0a000000 refl,
  (
    apart 0x0b000000 0x0a000000 (omega arith),
    (apart 0x0c000000 0x0a000000 (omega arith), (apart 0x0d000000 0x0a000000 (omega arith), tt)),
  ),
  (
    masked 0x0b000000 refl,
    (apart 0x0c000000 0x0b000000 (omega arith), (apart 0x0d000000 0x0b000000 (omega arith), tt)),
    (
      masked 0x0c000000 refl,
      (apart 0x0d000000 0x0c000000 (omega arith), tt),
      (masked 0x0d000000 refl, tt, tt),
    ),
  ),
)
  where
    masked : (a : ℕ) → mask true 8 a ≡ a → IsMasked (v4 a 8)
    masked a h = record { short = omega arith; clear = h }

    apart : (a b : ℕ) → a ≢ b → ◌≢◌ {A = Option Prefix} (some (v4 a 8)) (some (v4 b 8))
    apart a b ne e = ne (ap (λ (p : Prefix). p.addr) (some-injective (v4 a 8) (v4 b 8) e))

node_match-scan_example :
    node_match four (some 9) (some (host 0x0c010203))
    ≡ or_else (scan four (some (host 0x0c010203))) (some 9)
node_match-scan_example =
    node_match-scan (some (host 0x0c010203)) four (some 9) refl four-IsCanonical
