-- ===== src/Sadr/Trie/Contents.antt =====
-- The sources that `edit` of sadr/table.go leaves at each destination.
pub mod Forks
use ranet_lite.Prelude.{ℕ, zero, suc, ◌^◌, ◌≤◌, ◌<◌}
use ranet_lite.Prelude.{◌≡◌, ◌≢◌, refl, sym, ◌∙◌, ◌⊎◌, inl, inr, arith}
use ranet_lite.Prelude.{Bool, true, false, ◌&&◌, List, [], ◌++◌, append-nil}
use ranet_lite.Prelude.{ltb, Bool-cases, and_iff, ==_iff, ==_ne, ltb→lt, ◌==◌, if◌then◌else◌}
use mathlib.Core.Bool.{false≢true}
use ranet_lite.Sadr.Address.{branch, common_bits}
use ranet_lite.Sadr.Address.Heads.{head, head_eq-coarser, branch-le-one}
use ranet_lite.Sadr.Address.Common.{
  common_bits-ge, branch-common_bits, common_bits-le, head-common_bits,
}
use ranet_lite.Sadr.Sources.{SrcEntry}
use ranet_lite.Sadr.Trie.{TrieNode, Trie, nil, fork, is_empty, set_child, fork_of}
use ranet_lite.Sadr.Trie.{set_srcs, new_trie_node, edit_above, edit}
use ranet_lite.Sadr.Trie.Shape.{IsTrie, side, is_at, is_at-own, is_at-other, is_empty_lem}
use ranet_lite.Sadr.Trie.Shape.{
  sources_at, sources_at-outside, sources_at-compact, sources_at-sides, IsTrie-own,
}
use ranet_lite.Sadr.Trie.Edit.{shared, shared-side}
use ranet_lite.Sadr.Trie.Contents.Forks.{
  here_or_none, here_or_none-nil, sources_at-fork_one, sources_at-fork_two,
}

module _ {V : Type 0} where
  module _ (a l : ℕ) (change : List (SrcEntry V) → List (SrcEntry V)) (range : a < 2 ^ 128)
      (long : l ≤ 128) (b m : ℕ) where
    -- The destination read is the one that is changed.
    abbrev pub is_same : Bool
    is_same = l == m && head m a == head m b

    abbrev pub edited : Bool → List (SrcEntry V) → List (SrcEntry V)
    edited k es = if k then change es else es

    is_same-at : is_same ≡ true → (l ≡ m) × (head m a ≡ head m b)
    is_same-at k = let (e, f) = (and_iff _ _).0 k in ((==_iff _ _).0 e, (==_iff _ _).0 f)

    is_at-same :
        (n : TrieNode V) → n.prefix_len ≡ l → head l n.address ≡ head l a → is_at b m n ≡ is_same
    is_at-same n e f = elim (Bool-cases is_same) [
      | inl k ↦ let (g, h) = is_same-at k in rw k (is_at-own b m n (e ∙ g) (rw g at f ∙ h))
      | inr k ↦ rw k (
          is_at-other b m n (λ g h.
            let same : l ≡ m = sym e ∙ g in
            false≢true (
              sym k
              ∙ (and_iff _ _).1 ((==_iff _ _).1 same, (==_iff _ _).1 (sym (rw same at f) ∙ h)))))
    ]

    is_at-apart : (n : TrieNode V) → n.prefix_len ≢ l → is_same ≡ true → is_at b m n ≡ false
    is_at-apart n ne k = is_at-other b m n (λ e f. ne (e ∙ sym (is_same-at k).0))

    -- A destination that leaves the path above a node has nothing below.
    above_outside :
        (n : TrieNode V) (t u : Trie V) (p h : ℕ)
        → IsTrie p h (fork n t u)
        → shared a l n < n.prefix_len
        → is_same ≡ true
        → sources_at b m (fork n t u) ≡ []
    above_outside n t u p h w lt k =
        sources_at-outside (fork n t u) n.prefix_len (head n.prefix_len n.address) b m
          (IsTrie-own n t u p h w)
          (λ c.
            let (e, f) = is_same-at k in
            let agree : head n.prefix_len n.address ≡ head n.prefix_len a =
              sym c.2 ∙ sym (head_eq-coarser n.prefix_len m a b c.1 (omega (arith, e, long)) f) in
            let ge = common_bits-ge n.address a n.prefix_len c.0 agree in
            omega (arith, lt, ge, c.1, e))

    sources_at-leaf :
        sources_at b m (fork (new_trie_node a l (change [])) nil nil)
        ≡ here_or_none is_same (change [])
    unfolding new_trie_node set_srcs sources_at
    sources_at-leaf = append-nil (here_or_none is_same (change []))

    -- The new parent holds what the change makes, or a leaf beside the node does.
    sources_at-edit_above :
        (n : TrieNode V) (t u : Trie V) (p h : ℕ)
        → IsTrie p h (fork n t u)
        → shared a l n < n.prefix_len
        → sources_at b m (edit_above a l change (shared a l n) n t u)
          ≡ edited is_same (sources_at b m (fork n t u))
    unfolding edit_above new_trie_node set_srcs
    sources_at-edit_above n t u p h w lt = elim (Bool-cases (is_empty (change []))) [
      | inl none ↦
          let gone : change [] ≡ [] = is_empty_lem (change []) none in
          rw none (elim (Bool-cases is_same) [
            | inl k ↦ rw (k, above_outside n t u p h w lt k, gone) refl
            | inr k ↦ rw k refl
          ])
      | inr some ↦ rw some (elim (Bool-cases (shared a l n == l)) [
        | inl here ↦
            rw (here, (==_iff _ _).0 here)
              (sources_at-fork_one b m (set_srcs (new_trie_node a l []) (change []))
                  (branch n.address l) (fork n t u)
                ∙ at_parent)
        | inr beyond ↦
            let c = shared a l n in
            let past : c < l = omega (arith, ==_ne _ _ beyond) in
            let own : common_bits n.address a ≡ c = omega (arith, lt, past) in
            let short : c < 128 = omega (arith, past, long) in
            let apart : branch n.address c ≢ branch a c =
              rw own at (branch-common_bits n.address a (omega (arith, own, short))) in
            rw beyond (
              sources_at-fork_two b m (new_trie_node a c []) (branch n.address c) (branch a c)
                (fork n t u) (fork (new_trie_node a l (change [])) nil nil)
                (branch-le-one n.address c short) (branch-le-one a c short) apart one_side
              ∙ beside (is_at {V = V} b m (new_trie_node a c [])))
      ])
    ]
      where
        leaf : Trie V
        leaf = fork (new_trie_node a l (change [])) nil nil

        one_side : (sources_at b m (fork n t u) ≡ []) ⊎ (sources_at b m leaf ≡ [])
        one_side = elim (Bool-cases is_same) [
          | inl k ↦ inl (above_outside n t u p h w lt k)
          | inr k ↦ inr (rw k at sources_at-leaf)
        ]

        beside :
            (k : Bool)
            → here_or_none k [] ++ (sources_at b m (fork n t u) ++ sources_at b m leaf)
              ≡ edited is_same (sources_at b m (fork n t u))
        beside x =
            rw (here_or_none-nil x, sources_at-leaf)
              (elim (Bool-cases is_same) [
                | inl k ↦ rw (k, above_outside n t u p h w lt k) refl
                | inr k ↦ rw k (append-nil (sources_at b m (fork n t u)))
              ])

        at_parent :
            here_or_none is_same (change []) ++ sources_at b m (fork n t u)
            ≡ edited is_same (sources_at b m (fork n t u))
        at_parent = elim (Bool-cases is_same) [
          | inl k ↦ rw (k, above_outside n t u p h w lt k) (append-nil (change []))
          | inr k ↦ rw k refl
        ]

    sources_at-here :
        (n : TrieNode V) (t u : Trie V) (p h : ℕ)
        → IsTrie p h (fork n t u)
        → n.prefix_len ≡ l
        → n.prefix_len ≤ shared a l n
        → sources_at b m (fork (set_srcs n (change n.srcs)) t u)
          ≡ edited is_same (sources_at b m (fork n t u))
    unfolding set_srcs sources_at
    sources_at-here n t u p h w e ge = rw (is_at-same n e agree) (elim (Bool-cases is_same) [
      | inl k ↦
          rw (k, sides t 0 w.2 k, sides u 1 w.3 k, append-nil n.srcs) (append-nil (change n.srcs))
      | inr k ↦ rw k refl
    ])
      where
        agree : head l n.address ≡ head l a
        agree =
            head_eq-coarser l (common_bits n.address a) n.address a (omega (arith, ge, e))
              (common_bits-le n.address a) (head-common_bits n.address a w.0.in_range range)

        sides :
            (s : Trie V) (bit : ℕ)
            → IsTrie (suc n.prefix_len) (side n bit) s
            → is_same ≡ true
            → sources_at b m s ≡ []
        sides s bit ws k =
            sources_at-sides n s bit b m ws (λ le. absurd (omega (arith, le, e, (is_same-at k).0)))

    -- Below a node, the side that the destination is not on holds nothing for it.
    other_side :
        (n : TrieNode V) (s : Trie V) (bit : ℕ)
        → IsTrie (suc n.prefix_len) (side n bit) s
        → suc n.prefix_len ≤ l
        → head (suc n.prefix_len) a ≢ side n bit
        → is_same ≡ true
        → sources_at b m s ≡ []
    other_side n s bit w further ne k =
        let (e, f) = is_same-at k in
        sources_at-sides n s bit b m w
          (λ le g. ne (head_eq-coarser (suc n.prefix_len) m a b le (omega (arith, e, long)) f ∙ g))

    edit_left :
        (n : TrieNode V) (t t' u : Trie V)
        → n.prefix_len ≢ l
        → (is_same ≡ true → sources_at b m u ≡ [])
        → sources_at b m t' ≡ edited is_same (sources_at b m t)
        → sources_at b m (fork n t' u) ≡ edited is_same (sources_at b m (fork n t u))
    unfolding sources_at
    edit_left n t t' u ne out e = rw e (elim (Bool-cases is_same) [
      | inl k ↦
          rw (k, is_at-apart n ne k, out k, append-nil (sources_at b m t))
            (append-nil (change (sources_at b m t)))
      | inr k ↦ rw k refl
    ])

    edit_right :
        (n : TrieNode V) (t u u' : Trie V)
        → n.prefix_len ≢ l
        → (is_same ≡ true → sources_at b m t ≡ [])
        → sources_at b m u' ≡ edited is_same (sources_at b m u)
        → sources_at b m (fork n t u') ≡ edited is_same (sources_at b m (fork n t u))
    unfolding sources_at
    edit_right n t u u' ne out e = rw e (elim (Bool-cases is_same) [
      | inl k ↦ rw (k, is_at-apart n ne k, out k) refl
      | inr k ↦ rw k refl
    ])

    sources_at-edit_nil : sources_at b m (edit a l change nil) ≡ edited is_same (sources_at b m nil)
    unfolding edit sources_at
    sources_at-edit_nil = elim (Bool-cases (is_empty (change []))) [
      | inl none ↦
          let gone : change [] ≡ [] = is_empty_lem (change []) none in
          rw none (elim (Bool-cases is_same) [ inl k ↦ rw (k, gone) refl | inr k ↦ rw k refl ])
      | inr some ↦ rw some sources_at-leaf
    ]

    -- In a well-formed trie, for a destination that may stand in it, `edit` changes the sources
    -- that the trie holds for its destination by the function given, and leaves those of every
    -- other address and length as they were.
    pub sources_at-edit :
        (t : Trie V) (p h : ℕ)
        → IsTrie p h t
        → p ≤ l
        → head p a ≡ h
        → sources_at b m (edit a l change t) ≡ edited is_same (sources_at b m t)
    unfolding edit
    sources_at-edit nil p h w le e = sources_at-edit_nil
    sources_at-edit (fork n t u) p h w le e = elim (Bool-cases (ltb (shared a l n) n.prefix_len)) [
      | inl lt ↦ rw lt (sources_at-edit_above n t u p h w (ltb→lt _ _ lt))
      | inr ge ↦ rw ge (elim (Bool-cases (n.prefix_len == l)) [
        | inl here ↦ rw here (
            sources_at-compact (set_srcs n (change n.srcs)) t u b m
            ∙ sources_at-here n t u p h w ((==_iff _ _).0 here) (ge_shared ge))
        | inr deeper ↦
            let (further, bits) =
              shared-side a l change range long n p h w.0 (ge_shared ge) (==_ne _ _ deeper) in
            rw deeper (elim (Bool-cases (branch a n.prefix_len == 0)) [
              | inl clear ↦ rw clear (
                  sources_at-compact n (edit a l change t) u b m
                  ∙ edit_left n t (edit a l change t) u (==_ne _ _ deeper)
                      (other_side n u 1 w.3 further
                        (other 1 (omega (arith, (==_iff _ _).0 clear)) bits))
                      (sources_at-edit t (suc n.prefix_len) (side n 0) w.2 further
                        (omega (arith, bits, (==_iff _ _).0 clear))))
              | inr one ↦ rw one (
                  sources_at-compact n t (edit a l change u) b m
                  ∙ edit_right n t u (edit a l change u) (==_ne _ _ deeper)
                      (other_side n t 0 w.2 further (other 0 (==_ne _ _ one) bits))
                      (sources_at-edit u (suc n.prefix_len) (side n 1) w.3 further (
                        omega (
                          arith,
                          bits,
                          ==_ne _ _ one,
                          branch-le-one a n.prefix_len (omega (arith, further, long)),
                        ))))
            ])
      ])
    ]
      where
        other :
            (bit : ℕ)
            → branch a n.prefix_len ≢ bit
            → head (suc n.prefix_len) a ≡ side n (branch a n.prefix_len)
            → head (suc n.prefix_len) a ≢ side n bit
        other bit ne bits f = ne (omega (arith, bits, f))

        ge_shared : ltb (shared a l n) n.prefix_len ≡ false → n.prefix_len ≤ shared a l n
        ge_shared ge = ground arith
