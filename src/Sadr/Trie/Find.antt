-- ===== src/Sadr/Trie/Find.antt =====
-- The loop of `Lookup` of sadr/table.go finds the longest destination that answers the source.
use ranet_lite.Prelude.{ℕ, suc, ◌/◌, ◌%◌, ◌^◌, ◌≤◌, ◌<◌}
use ranet_lite.Prelude.{◌≡◌, ◌≢◌, refl, sym, ap, ◌∙◌, inl, inr, arith, Option, none}
use ranet_lite.Prelude.{List, [], ◌++◌, append-nil}
use ranet_lite.Prelude.{or_else, or_else_assoc}
use ranet_lite.Prelude.{Bool-cases, ==_iff, ==_ne, ◌==◌, if◌then◌else◌}
use mathlib.Core.Bool.{false≢true}
use ranet_lite.Prelude.Longest.{longest, longest-none, longest_split}
use ranet_lite.Sadr.Address.{byte_at, branch, high, low, prefix_matches}
use ranet_lite.Sadr.Address.Heads.{head, head-suc, prefix_matches_iff}
use ranet_lite.Sadr.Sources.{
  Addr, SrcEntry, match_all_source, node_match, index_srcs, count_runs, scan,
}
use ranet_lite.Sadr.Trie.{TrieNode, Trie, nil, fork, lookup_from}
use ranet_lite.Sadr.Trie.Shape.{IsNode, IsTrie, IsTrie-own, side, is_at, is_at-own, is_at-other}
use ranet_lite.Sadr.Trie.Shape.{sources_at, sources_at-outside, sources_at-sides}

module _ {V : Type 0} where
  -- What a node with these sources answers.
  abbrev pub source_match : Option Addr → List (SrcEntry V) → Option V
  source_match src es = node_match es (match_all_source es) src

  source_match-nil : (src : Option Addr) → source_match src [] ≡ none
  unfolding node_match match_all_source index_srcs count_runs scan
  source_match-nil src = refl

  module _ (src : Option Addr) (a : ℕ) where
    -- What the table answers for the destination prefix of one length.
    abbrev pub match_at : Trie V → ℕ → Option V
    match_at t l = source_match src (sources_at a l t)

    match_at-none : (t : Trie V) (l : ℕ) → sources_at a l t ≡ [] → match_at t l ≡ none
    match_at-none t l e = rw e (source_match-nil src)

    -- A node that does not match hides all below it.
    mismatch :
        (n : TrieNode V) (t u : Trie V) (p h l : ℕ)
        → IsTrie p h (fork n t u)
        → head n.prefix_len n.address ≢ head n.prefix_len a
        → sources_at a l (fork n t u) ≡ []
    mismatch n t u p h l w ne =
        sources_at-outside (fork n t u) n.prefix_len (head n.prefix_len n.address) a l
          (IsTrie-own n t u p h w) (λ c. ne (sym c.2))

    -- From a node that matches, only one child has anything to add.
    module _ (n : TrieNode V) (t s : Trie V) (bit p h : ℕ) (w : IsNode p h n)
        (ws : IsTrie (suc n.prefix_len) (side n bit) s)
        (agree : head n.prefix_len n.address ≡ head n.prefix_len a)
        (joined : (l : ℕ)
          → sources_at a l t ≡ (if is_at a l n then n.srcs else []) ++ sources_at a l s) where
      child_short : (l : ℕ) → l ≤ n.prefix_len → sources_at a l s ≡ []
      child_short l le = sources_at-sides n s bit a l ws (λ deep. absurd (omega (arith, deep, le)))

      joined_away : (l : ℕ) → n.prefix_len ≢ l → sources_at a l t ≡ sources_at a l s
      joined_away l ne = rw (is_at-other a l n (λ e f. ne e)) at (joined l)

      joined_own : sources_at a n.prefix_len t ≡ n.srcs
      joined_own =
          (rw (is_at-own a n.prefix_len n refl agree) at (joined n.prefix_len))
          ∙ rw (child_short n.prefix_len (omega arith)) (append-nil n.srcs)

      longest-child :
          longest (match_at t) 128 ≡ or_else (longest (match_at s) 128) (source_match src n.srcs)
      longest-child =
          longest_split (match_at t) (match_at s) n.prefix_len 128 w.short
            (λ l lt.
              match_at-none t l
                (joined_away l (λ e. omega (arith, lt, e)) ∙ child_short l (omega arith)))
            (λ l le. match_at-none s l (child_short l le))
            (λ l lt le. ap (source_match src) (joined_away l (λ e. omega (arith, lt, e))))
          ∙ ap (λ es. or_else (longest (match_at s) 128) (source_match src es)) joined_own

    sources_at-nil : (l : ℕ) → sources_at {V = V} a l nil ≡ []
    unfolding sources_at
    sources_at-nil l = refl

    nil-longest : longest (match_at nil) 128 ≡ none
    unfolding sources_at
    nil-longest = longest-none (match_at nil) 128 (λ l le. source_match-nil src)

    fork-right :
        (n : TrieNode V) (t u : Trie V) (l : ℕ)
        → sources_at a l t ≡ []
        → sources_at a l (fork n t u) ≡ (if is_at a l n then n.srcs else []) ++ sources_at a l u
    unfolding sources_at
    fork-right n t u l e = rw e refl

    fork-left :
        (n : TrieNode V) (t u : Trie V) (l : ℕ)
        → sources_at a l u ≡ []
        → sources_at a l (fork n t u) ≡ (if is_at a l n then n.srcs else []) ++ sources_at a l t
    unfolding sources_at
    fork-left n t u l e = rw (e, append-nil (sources_at a l t)) refl

    -- The bit that the cached position reads is the one after the prefix.
    child_bit :
        (n : TrieNode V) (p h : ℕ)
        → IsNode p h n
        → byte_at a n.byte_index / 2 ^ n.bit_shift % 2 ≡ branch a n.prefix_len
    unfolding branch
    child_bit n p h w = rw (w.byte, w.shift) refl

    -- The answer so far stands behind what the child finds.
    with_child :
        (n : TrieNode V) (t s : Trie V) (result : Option V) {p h : ℕ}
        → IsNode p h n
        → longest (match_at t) 128 ≡ or_else (longest (match_at s) 128) (source_match src n.srcs)
        → or_else (longest (match_at s) 128) (or_else (node_match n.srcs n.any_src src) result)
          ≡ or_else (longest (match_at t) 128) result
    with_child n t s result w e =
        ap (λ o. or_else (longest (match_at s) 128) (or_else (node_match n.srcs o src) result))
          w.any
        ∙ sym (or_else_assoc (longest (match_at s) 128) (source_match src n.srcs) result)
        ∙ ap (λ o. or_else o result) (sym e)

    pub lookup_from-longest :
        (t : Trie V) (p h : ℕ) (result : Option V)
        → IsTrie p h t
        → lookup_from src a t result ≡ or_else (longest (match_at t) 128) result
    unfolding lookup_from
    lookup_from-longest nil p h result w = rw nil-longest refl
    lookup_from-longest (fork n t u) p h result w =
        elim (Bool-cases (prefix_matches n.address n.prefix_len (high a) (low a))) [
          | inr no_match ↦
              let ne : head n.prefix_len n.address ≢ head n.prefix_len a = λ e.
                false≢true
                  (sym no_match ∙ (prefix_matches_iff n.address n.prefix_len a w.0.short).1 e) in
              rw
                (
                  no_match,
                  longest-none (match_at (fork n t u)) 128
                      (λ l le. match_at-none (fork n t u) l (mismatch n t u p h l w ne)),
                )
                refl
          | inl matched ↦
              let agree : head n.prefix_len n.address ≡ head n.prefix_len a =
                (prefix_matches_iff n.address n.prefix_len a w.0.short).0 matched in
              rw matched (elim (Bool-cases (n.prefix_len == 128)) [
                | inl last ↦
                    let gone =
                      λ (s : Trie V) (bit : ℕ) (ws : IsTrie (suc n.prefix_len) (side n bit) s)
                          (l : ℕ).
                        sources_at-outside s (suc n.prefix_len) (side n bit) a l ws
                          (λ c. omega (arith, c.0, (==_iff _ _).0 last)) in
                    rw last (
                      ap (λ o. or_else o (or_else (node_match n.srcs n.any_src src) result))
                        (sym nil-longest)
                      ∙ with_child n (fork n t u) nil result w.0 (
                          longest-child n (fork n t u) nil 0 p h w.0 tt agree (λ l.
                            fork-left n t u l (gone u 1 w.3 l)
                            ∙ ap (λ es. (if is_at a l n then n.srcs else []) ++ es)
                                (gone t 0 w.2 l ∙ sym (sources_at-nil l)))))
                | inr inner ↦
                    let short : n.prefix_len < 128 = omega (arith, ==_ne _ _ inner, w.0.short) in
                    let next = head-suc n.prefix_len a short in
                    rw (inner, child_bit n p h w.0)
                      (elim (Bool-cases (branch a n.prefix_len == 0)) [
                        | inl clear ↦ rw clear (
                            lookup_from-longest t (suc n.prefix_len) (side n 0) _ w.2
                            ∙ with_child n (fork n t u) t result w.0 (
                                longest-child n (fork n t u) t 0 p h w.0 w.2 agree (λ l.
                                  fork-left n t u l (
                                    sources_at-sides n u 1 a l w.3 (λ le e.
                                      omega (arith, e, next, agree, (==_iff _ _).0 clear))))))
                        | inr one ↦ rw one (
                            lookup_from-longest u (suc n.prefix_len) (side n 1) _ w.3
                            ∙ with_child n (fork n t u) u result w.0 (
                                longest-child n (fork n t u) u 1 p h w.0 w.3 agree (λ l.
                                  fork-right n t u l (
                                    sources_at-sides n t 0 a l w.2
                                      (λ le e. omega (arith, e, next, agree, ==_ne _ _ one))))))
                      ])
              ])
        ]
