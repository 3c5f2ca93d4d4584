-- ===== src/Sadr/Trie/Edit.antt =====
-- What `edit` of sadr/table.go keeps of the shape of a trie, and what it does to the sources.
use ranet_lite.Prelude.{ℕ, zero, suc, ◌+◌, ◌*◌, ◌^◌, ◌≤◌, ◌<◌, min}
use ranet_lite.Prelude.{◌≡◌, ◌≢◌, refl, sym, ap, ◌∙◌, inl, inr, arith}
use ranet_lite.Prelude.{false, List, []}
use ranet_lite.Prelude.{ltb, Bool-cases, ==_iff, ==_ne, ltb→lt, ◌==◌}
use ranet_lite.Sadr.Address.{branch, common_bits}
use ranet_lite.Sadr.Address.Heads.{head, head-suc, head_eq-coarser, branch-le-one}
use ranet_lite.Sadr.Address.Common.{
  head-common_bits, branch-common_bits, common_bits-ge, common_bits-le,
}
use ranet_lite.Sadr.Sources.{SrcEntry}
use ranet_lite.Sadr.Trie.{TrieNode, Trie, nil, fork, is_empty, set_child, fork_of}
use ranet_lite.Sadr.Trie.{set_srcs, new_trie_node, edit_above, edit}
use ranet_lite.Sadr.Trie.Shape.{IsNode, IsTrie, side, is_nil, compact-IsTrie, set_srcs-IsNode}

module _ {V : Type 0} where
  new_trie_node-IsNode :
      (p h a l : ℕ) (es : List (SrcEntry V))
      → p ≤ l
      → l ≤ 128
      → head p a ≡ h
      → a < 2 ^ 128
      → IsNode p h (new_trie_node a l es)
  unfolding new_trie_node set_srcs
  new_trie_node-IsNode p h a l es d s u r = record {
    deep = d;
    short = s;
    under = u;
    in_range = r;
    byte = refl;
    shift = refl;
    any = refl;
  }

  -- Two children on the sides that their addresses say.
  fork_of-IsTrie_one :
      (p h : ℕ) (n : TrieNode V) (bit : ℕ) (t : Trie V)
      → IsNode p h n
      → is_empty n.srcs ≡ false
      → bit ≤ 1
      → IsTrie (suc n.prefix_len) (side n bit) t
      → IsTrie p h (fork_of n (set_child bit t (nil, nil)))
  unfolding fork_of set_child
  fork_of-IsTrie_one p h n zero t w e b k = (w, inl e, k, tt)
  fork_of-IsTrie_one p h n (suc zero) t w e b k = (w, inl e, tt, k)
  fork_of-IsTrie_one p h n (suc (suc bit)) t w e b k = absurd (omega arith)

  fork_of-IsTrie_two :
      (p h : ℕ) (n : TrieNode V) (bit bit' : ℕ) (t u : Trie V)
      → IsNode p h n
      → is_nil t ≡ false
      → is_nil u ≡ false
      → bit ≤ 1
      → bit' ≤ 1
      → bit ≢ bit'
      → IsTrie (suc n.prefix_len) (side n bit) t
      → IsTrie (suc n.prefix_len) (side n bit') u
      → IsTrie p h (fork_of n (set_child bit' u (set_child bit t (nil, nil))))
  unfolding fork_of set_child
  fork_of-IsTrie_two p h n zero zero t u w e f b c ne kt ku = absurd (ne refl)
  fork_of-IsTrie_two p h n zero (suc zero) t u w e f b c ne kt ku = (w, inr (e, f), kt, ku)
  fork_of-IsTrie_two p h n (suc zero) zero t u w e f b c ne kt ku = (w, inr (f, e), ku, kt)
  fork_of-IsTrie_two p h n (suc zero) (suc zero) t u w e f b c ne kt ku = absurd (ne refl)
  fork_of-IsTrie_two p h n (suc (suc x)) y t u w e f b c ne kt ku = absurd (omega arith)
  fork_of-IsTrie_two p h n zero (suc (suc y)) t u w e f b c ne kt ku = absurd (omega arith)
  fork_of-IsTrie_two p h n (suc zero) (suc (suc y)) t u w e f b c ne kt ku = absurd (omega arith)

  -- The node moved below a new parent with the bits that it shares with the destination.
  pub below_parent :
      (n : TrieNode V) (t u : Trie V) (p h a c : ℕ) (es : List (SrcEntry V))
      → IsTrie p h (fork n t u)
      → c < n.prefix_len
      → head c n.address ≡ head c a
      → let parent = new_trie_node a c es in
        IsTrie (suc parent.prefix_len) (side parent (branch n.address c)) (fork n t u)
  unfolding new_trie_node set_srcs
  below_parent n t u p h a c es w lt e =
      let short : c < 128 = omega (arith, lt, w.0.short) in
      (
        record {
          deep = omega arith;
          short = w.0.short;
          under = omega (arith, head-suc c n.address short, e);
          in_range = w.0.in_range;
          byte = w.0.byte;
          shift = w.0.shift;
          any = w.0.any;
        },
        w.1,
        w.2,
        w.3,
      )

  -- How far the destination goes along with a node.
  abbrev pub shared : ℕ → ℕ → TrieNode V → ℕ
  shared a l n = min (common_bits n.address a) (min n.prefix_len l)

  module _ (a l : ℕ) (change : List (SrcEntry V) → List (SrcEntry V)) (range : a < 2 ^ 128)
      (long : l ≤ 128) where
    pub shared-head :
        (n : TrieNode V) (p h : ℕ)
        → IsNode p h n
        → head (shared a l n) n.address ≡ head (shared a l n) a
    shared-head n p h w =
        head_eq-coarser (shared a l n) (common_bits n.address a) n.address a (omega arith)
          (common_bits-le n.address a) (head-common_bits n.address a w.in_range range)

    pub shared-ge :
        (n : TrieNode V) (p h : ℕ) → IsNode p h n → p ≤ l → head p a ≡ h → p ≤ shared a l n
    shared-ge n p h w le e = omega (
      arith,
      common_bits-ge n.address a p (omega (arith, w.deep, w.short)) (w.under ∙ sym e),
      le,
      w.deep,
    )

    -- The side on which a destination below a node stands.
    pub shared-side :
        (n : TrieNode V) (p h : ℕ)
        → IsNode p h n
        → n.prefix_len ≤ shared a l n
        → n.prefix_len ≢ l
        → (suc n.prefix_len ≤ l) × (head (suc n.prefix_len) a ≡ side n (branch a n.prefix_len))
    shared-side n p h w ge ne =
        let further : suc n.prefix_len ≤ l = omega (arith, ge, ne) in
        let agree : head n.prefix_len n.address ≡ head n.prefix_len a =
          head_eq-coarser n.prefix_len (common_bits n.address a) n.address a (omega (arith, ge))
            (common_bits-le n.address a) (head-common_bits n.address a w.in_range range) in
        (
          further,
          head-suc n.prefix_len a (omega (arith, long))
              ∙ ap (λ t. 2 * t + branch a n.prefix_len) (sym agree),
        )

    leaf-IsTrie :
        (p h : ℕ)
        → p ≤ l
        → head p a ≡ h
        → is_empty (change []) ≡ false
        → IsTrie p h (fork (new_trie_node a l (change [])) nil nil)
    unfolding new_trie_node set_srcs
    leaf-IsTrie p h le e some =
        (new_trie_node-IsNode p h a l (change []) le long e range, inl some, tt, tt)

    edit_above-IsTrie :
        (n : TrieNode V) (t u : Trie V) (p h : ℕ)
        → IsTrie p h (fork n t u)
        → p ≤ l
        → head p a ≡ h
        → shared a l n < n.prefix_len
        → IsTrie p h (edit_above a l change (shared a l n) n t u)
    unfolding edit_above new_trie_node set_srcs
    edit_above-IsTrie n t u p h w le e lt = elim (Bool-cases (is_empty (change []))) [
      | inl none ↦ rw none w
      | inr some ↦ elim (Bool-cases (shared a l n == l)) [
        | inl here ↦
            rw (some, here)
              (fork_of-IsTrie_one p h (new_trie_node a c (change [])) (branch n.address c)
                (fork n t u) (fresh (change [])) some bit
                (below_parent n t u p h a c (change []) w lt agree))
        | inr beyond ↦
            let past : c < l = omega (arith, ==_ne _ _ beyond) in
            let own : common_bits n.address a ≡ c = omega (arith, lt, past) in
            let apart : branch n.address c ≢ branch a c =
              rw own at (branch-common_bits n.address a (omega (arith, own, short))) in
            rw (some, beyond)
              (fork_of-IsTrie_two p h (new_trie_node a c []) (branch n.address c) (branch a c)
                (fork n t u) (fork (new_trie_node a l (change [])) nil nil) (fresh []) refl refl bit
                (branch-le-one a c short) apart (below_parent n t u p h a c [] w lt agree)
                (leaf-IsTrie (suc c) (2 * head c a + branch a c) (omega arith) (head-suc c a short)
                  some))
      ]
    ]
      where
        c : ℕ
        c = shared a l n

        short : c < 128
        short = omega (arith, lt, w.0.short)

        agree : head c n.address ≡ head c a
        agree = shared-head n p h w.0

        bit : branch n.address c ≤ 1
        bit = branch-le-one n.address c short

        fresh : (es : List (SrcEntry V)) → IsNode p h (new_trie_node a c es)
        fresh es = new_trie_node-IsNode p h a c es (shared-ge n p h w.0 le e) (omega arith) e range

    -- `edit` at a destination that may stand in a well-formed trie keeps it well formed: every
    -- child is longer than its parent, agrees with it and stands on the side of its next bit, no
    -- node without sources has an empty side, and what a node caches is up to date.
    pub edit-IsTrie :
        (t : Trie V) (p h : ℕ)
        → IsTrie p h t
        → p ≤ l
        → head p a ≡ h
        → IsTrie p h (edit a l change t)
    unfolding edit set_srcs
    edit-IsTrie nil p h w le e = elim (Bool-cases (is_empty (change []))) [
      | inl none ↦ rw none tt
      | inr some ↦ rw some (leaf-IsTrie p h le e some)
    ]
    edit-IsTrie (fork n t u) p h w le e = elim (Bool-cases (ltb (shared a l n) n.prefix_len)) [
      | inl lt ↦ rw lt (edit_above-IsTrie n t u p h w le e (ltb→lt _ _ lt))
      | inr ge ↦ rw ge (elim (Bool-cases (n.prefix_len == l)) [
        | inl here ↦ rw here (
            compact-IsTrie (set_srcs n (change n.srcs)) t u p h
              (set_srcs-IsNode p h n (change n.srcs) w.0) w.2 w.3)
        | inr deeper ↦
            let (further, bits) =
              shared-side n p h w.0 (omega (arith, ge_shared ge)) (==_ne _ _ deeper) in
            rw deeper (elim (Bool-cases (branch a n.prefix_len == 0)) [
              | inl clear ↦
                  let b : branch a n.prefix_len ≡ 0 = (==_iff _ _).0 clear in
                  rw clear (
                    compact-IsTrie n (edit a l change t) u p h w.0
                      (edit-IsTrie t (suc n.prefix_len) (side n 0) w.2 further
                        (omega (arith, bits, b)))
                      w.3)
              | inr one ↦
                  let b : branch a n.prefix_len ≡ 1 = omega (
                    arith,
                    branch-le-one a n.prefix_len (omega (arith, further, long)),
                    ==_ne _ _ one,
                  ) in
                  rw one (
                    compact-IsTrie n t (edit a l change u) p h w.0 w.2 (
                      edit-IsTrie u (suc n.prefix_len) (side n 1) w.3 further
                        (omega (arith, bits, b))))
            ])
      ])
    ]
      where
        ge_shared : ltb (shared a l n) n.prefix_len ≡ false → n.prefix_len ≤ shared a l n
        ge_shared ge = ground arith
