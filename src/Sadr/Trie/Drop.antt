-- ===== src/Sadr/Trie/Drop.antt =====
-- `removeValue` of sadr/table.go filters the sources of every destination and keeps the shape.
use ranet_lite.Prelude.{ℕ, suc, ◌≡◌, refl, sym, ap, ◌∙◌, inl, inr, arith}
use ranet_lite.Prelude.{Bool, true, false, not, ◌&&◌, List, [], ◌∷◌, ◌++◌}
use ranet_lite.Prelude.{Bool-cases, and_iff, if◌then◌else◌}
use ranet_lite.Sadr.Sources.{SrcEntry, holds_value, without_value}
use ranet_lite.Sadr.Trie.{TrieNode, Trie, nil, fork, compact, set_srcs, remove_value}
use ranet_lite.Sadr.Trie.Shape.{IsNode, IsTrie, side, is_at, compact-IsTrie, set_srcs-IsNode}
use ranet_lite.Sadr.Trie.Shape.{sources_at, sources_at-compact}

module _ {V : Type 0} (dec : Discrete V) (v : V) where
  without_value-append :
      (xs ys : List (SrcEntry V))
      → without_value dec v (xs ++ ys) ≡ without_value dec v xs ++ without_value dec v ys
  unfolding without_value
  without_value-append [] ys = refl
  without_value-append (e ∷ es) ys = ground (arith, without_value-append es ys)

  without_value-absent :
      (es : List (SrcEntry V)) → holds_value dec v es ≡ false → without_value dec v es ≡ es
  unfolding without_value holds_value
  without_value-absent [] h = refl
  without_value-absent (e ∷ es) h = ground (arith, without_value-absent es)

  -- The same node is the same trie.
  remove_value-same : (t : Trie V) → (remove_value dec v t).1 ≡ true → (remove_value dec v t).0 ≡ t
  unfolding remove_value
  remove_value-same nil h = refl
  remove_value-same (fork n t u) h = ground arith

  -- A node that holds the value loses it.
  abbrev kept : TrieNode V → TrieNode V
  kept n = if holds_value dec v n.srcs then set_srcs n (without_value dec v n.srcs) else n

  kept_srcs :
      (n : TrieNode V) (b m : ℕ)
      → (if is_at b m (kept n) then (kept n).srcs else [])
        ≡ without_value dec v (if is_at b m n then n.srcs else [])
  unfolding set_srcs without_value
  kept_srcs n b m = elim (Bool-cases (holds_value dec v n.srcs)) [
    | inl held ↦ rw held (filtered (is_at b m n) n.srcs)
    | inr absent ↦ rw absent (
        sym (ap (λ es. if is_at b m n then es else []) (without_value-absent n.srcs absent))
        ∙ filtered (is_at b m n) n.srcs)
  ]
    where
      filtered :
          (k : Bool) (es : List (SrcEntry V))
          → (if k then without_value dec v es else []) ≡ without_value dec v (if k then es else [])
      filtered true es = refl
      filtered false es = refl

  kept-IsTrie :
      (n : TrieNode V) (t u : Trie V) (p h : ℕ)
      → IsNode p h n
      → IsTrie (suc n.prefix_len) (side n 0) t
      → IsTrie (suc n.prefix_len) (side n 1) u
      → IsTrie p h (compact (fork (kept n) t u))
  unfolding set_srcs
  kept-IsTrie n t u p h w kt ku = elim (Bool-cases (holds_value dec v n.srcs)) [
    | inl held ↦ rw held (
        compact-IsTrie (set_srcs n (without_value dec v n.srcs)) t u p h
          (set_srcs-IsNode p h n (without_value dec v n.srcs) w) kt ku)
    | inr absent ↦ rw absent (compact-IsTrie n t u p h w kt ku)
  ]

  abbrev unchanged : TrieNode V → Trie V → Trie V → Bool
  unchanged n t u =
      not (holds_value dec v n.srcs) && ((remove_value dec v t).1 && (remove_value dec v u).1)

  pub remove_value-IsTrie :
      (t : Trie V) (p h : ℕ) → IsTrie p h t → IsTrie p h (remove_value dec v t).0
  unfolding remove_value
  remove_value-IsTrie nil p h w = tt
  remove_value-IsTrie (fork n t u) p h w = elim (Bool-cases (unchanged n t u)) [
    | inl same ↦ rw same w
    | inr differs ↦ rw differs (
        kept-IsTrie n (remove_value dec v t).0 (remove_value dec v u).0 p h w.0
          (remove_value-IsTrie t (suc n.prefix_len) (side n 0) w.2)
          (remove_value-IsTrie u (suc n.prefix_len) (side n 1) w.3))
  ]

  sources_at-kept :
      (n : TrieNode V) (t u t' u' : Trie V) (b m : ℕ)
      → sources_at b m t' ≡ without_value dec v (sources_at b m t)
      → sources_at b m u' ≡ without_value dec v (sources_at b m u)
      → sources_at b m (fork (kept n) t' u') ≡ without_value dec v (sources_at b m (fork n t u))
  unfolding sources_at
  sources_at-kept n t u t' u' b m e f =
      let own = if is_at b m n then n.srcs else [] in
      rw
        (
          kept_srcs n b m,
          e,
          f,
          without_value-append own (sources_at b m t ++ sources_at b m u),
          without_value-append (sources_at b m t) (sources_at b m u),
        )
        refl

  unchanged-fork :
      (n : TrieNode V) (t u : Trie V)
      → unchanged n t u ≡ true
      → fork n t u ≡ fork (kept n) (remove_value dec v t).0 (remove_value dec v u).0
  unchanged-fork n t u h =
      let (absent, below) = (and_iff _ _).0 h in
      let (left, right) = (and_iff _ _).0 below in
      rw (remove_value-same t left, remove_value-same u right, not_true _ absent) refl
    where
      not_true : (k : Bool) → not k ≡ true → k ≡ false
      not_true true e = sym e
      not_true false e = refl

  sources_at-remove_nil : (b m : ℕ) → sources_at b m nil ≡ without_value dec v (sources_at b m nil)
  unfolding sources_at without_value
  sources_at-remove_nil b m = refl

  pub sources_at-remove_value :
      (t : Trie V) (b m : ℕ)
      → sources_at b m (remove_value dec v t).0 ≡ without_value dec v (sources_at b m t)
  unfolding remove_value
  sources_at-remove_value nil b m = sources_at-remove_nil b m
  sources_at-remove_value (fork n t u) b m =
      let t' = (remove_value dec v t).0 in
      let u' = (remove_value dec v u).0 in
      let kept_sources =
        sources_at-kept n t u t' u' b m (sources_at-remove_value t b m)
          (sources_at-remove_value u b m) in
      elim (Bool-cases (unchanged n t u)) [
        | inl same ↦ rw same (ap (sources_at b m) (unchanged-fork n t u same) ∙ kept_sources)
        | inr differs ↦ rw differs (sources_at-compact (kept n) t' u' b m ∙ kept_sources)
      ]
