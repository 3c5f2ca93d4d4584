-- ===== src/Sadr/Trie.antt =====
-- The trie of one address family, sadr/table.go: nodes, `edit`, `compact`, `removeValue`, the loop of
-- `Lookup` and the walk of `All`. The index of a node is built from its sources where it is read.
pub mod Shape
pub mod Edit
pub mod Contents
pub mod Find
pub mod Drop
use ranet_lite.Prelude.{ℕ, zero, suc, ◌-◌, ◌/◌, ◌%◌, ◌^◌, min, Option, none, some}
use ranet_lite.Prelude.{Bool, true, false, not, ◌&&◌, List, [], ◌∷◌, ◌++◌, map}
use ranet_lite.Prelude.{ltb, ◌==◌, or_else, if◌then◌else◌}
use ranet_lite.Sadr.Address.{byte_at, branch, high, low, common_bits, prefix_matches}
use ranet_lite.Sadr.Sources.{Addr, SrcEntry, match_all_source, node_match}
use ranet_lite.Sadr.Sources.{holds_value, without_value}

pub record TrieNode (V : Type 0) : Type 0 where
  pub address : ℕ
  pub prefix_len : ℕ
  pub byte_index : ℕ
  pub bit_shift : ℕ
  pub srcs : List (SrcEntry V)
  pub any_src : Option V

-- `nil` is the nil pointer.
pub data Trie (V : Type 0) : Type 0 where
  nil : Trie V
  fork : TrieNode V → Trie V → Trie V → Trie V

module _ {V : Type 0} where
  unfoldable pub is_empty : List (SrcEntry V) → Bool
  is_empty [] = true
  is_empty (e ∷ es) = false

  unfoldable pub set_srcs : TrieNode V → List (SrcEntry V) → TrieNode V
  set_srcs n srcs = record n { srcs = srcs; any_src = match_all_source srcs }

  unfoldable pub new_trie_node : ℕ → ℕ → List (SrcEntry V) → TrieNode V
  new_trie_node address prefix_len srcs =
      set_srcs
        (record {
          address = address;
          prefix_len = prefix_len;
          byte_index = prefix_len / 8;
          bit_shift = 7 - prefix_len % 8;
          srcs = [];
          any_src = none;
        })
        srcs

  -- `child[bit] = t`
  unfoldable pub set_child : ℕ → Trie V → Trie V × Trie V → Trie V × Trie V
  set_child zero t children = (t, children.1)
  set_child (suc bit) t children = (children.0, t)

  unfoldable pub fork_of : TrieNode V → Trie V × Trie V → Trie V
  fork_of n children = fork n children.0 children.1

  unfoldable pub compact : Trie V → Trie V
  compact nil = nil
  compact (fork n nil r) = if is_empty n.srcs then r else fork n nil r
  compact (fork n (fork m a b) nil) =
      if is_empty n.srcs then fork m a b else fork n (fork m a b) nil
  compact (fork n (fork m a b) (fork k c d)) = fork n (fork m a b) (fork k c d)

  module _ (address prefix_len : ℕ) (change : List (SrcEntry V) → List (SrcEntry V)) where
    -- The destination leaves the path at `common`, above this node.
    unfoldable pub edit_above : ℕ → TrieNode V → Trie V → Trie V → Trie V
    edit_above common n l r =
        let srcs = change [] in
        let parent = new_trie_node address common [] in
        let children = set_child (branch n.address common) (fork n l r) (nil, nil) in
        let leaf = fork (new_trie_node address prefix_len srcs) nil nil in
        if is_empty srcs
        then fork n l r
        else if common == prefix_len
        then fork_of (set_srcs parent srcs) children
        else fork_of parent (set_child (branch address common) leaf children)

    unfoldable pub edit : Trie V → Trie V
    edit nil =
        let srcs = change [] in
        if is_empty srcs then nil else fork (new_trie_node address prefix_len srcs) nil nil
    edit (fork n l r) =
        let common = min (common_bits n.address address) (min n.prefix_len prefix_len) in
        let left = edit l in
        let right = edit r in
        if ltb common n.prefix_len
        then edit_above common n l r
        else compact (
            if n.prefix_len == prefix_len
            then fork (set_srcs n (change n.srcs)) l r
            else if branch address n.prefix_len == 0
            then fork n left r
            else fork n l right)

  -- The loop of `Lookup`, from a node with the answer of those above it.
  unfoldable pub lookup_from : Option Addr → ℕ → Trie V → Option V → Option V
  lookup_from src address nil result = result
  lookup_from src address (fork n l r) result =
      let found = or_else (node_match n.srcs n.any_src src) result in
      let left = lookup_from src address l found in
      let right = lookup_from src address r found in
      if prefix_matches n.address n.prefix_len (high address) (low address)
      then if n.prefix_len == 128
        then found
        else if byte_at address n.byte_index / 2 ^ n.bit_shift % 2 == 0
        then left
        else right
      else result

  -- The nodes in the order in which `All` yields their routes.
  unfoldable pub nodes : Trie V → List (TrieNode V)
  nodes nil = []
  nodes (fork n l r) = n ∷ nodes l ++ nodes r

module _ {V : Type 0} (dec : Discrete V) where
  -- The second part says whether the answer is the same node, as the pointers of the source say.
  unfoldable pub remove_value : V → Trie V → Trie V × Bool
  remove_value v nil = (nil, true)
  remove_value v (fork n l r) =
      let left = remove_value v l in
      let right = remove_value v r in
      let match = holds_value dec v n.srcs in
      let kept = if match then set_srcs n (without_value dec v n.srcs) else n in
      if not match && (left.1 && right.1)
      then (fork n l r, true)
      else (compact (fork kept left.0 right.0), false)
