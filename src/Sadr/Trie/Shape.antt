-- ===== src/Sadr/Trie/Shape.antt =====
-- The shape that every trie of sadr/table.go has, and the sources that it holds for a destination.
use ranet_lite.Prelude.{ℕ, suc, ◌+◌, ◌-◌, ◌*◌, ◌/◌, ◌%◌, ◌^◌, ◌≤◌, ◌<◌}
use ranet_lite.Prelude.{◌≡◌, ◌≢◌, refl, sym, ◌∙◌, ◌⊎◌, inl, inr, arith}
use ranet_lite.Prelude.{Bool, true, false, ◌&&◌, List, [], ◌∷◌, ◌++◌, append-nil}
use ranet_lite.Prelude.{Bool-cases, and_iff, ==_iff, ◌==◌, if◌then◌else◌}
use mathlib.Core.Bool.{false≢true}
use ranet_lite.Sadr.Address.Heads.{head, head-suc, branch-le-one, head_eq-coarser}
use ranet_lite.Sadr.Sources.{SrcEntry, match_all_source}
use ranet_lite.Sadr.Trie.{TrieNode, Trie, nil, fork, is_empty, compact, set_srcs}

-- The destination may stand where the first `p` bits are `h`.
abbrev pub Covers : ℕ → ℕ → ℕ → ℕ → Type 0
Covers p h a l = (p ≤ 128) × (p ≤ l) × (head p a ≡ h)

module _ {V : Type 0} where
  -- A node that may stand where the first `p` bits are `h`.
  pub record IsNode (p h : ℕ) (n : TrieNode V) : Type 0 where
    pub deep : p ≤ n.prefix_len
    pub short : n.prefix_len ≤ 128
    pub under : head p n.address ≡ h
    pub in_range : n.address < 2 ^ 128
    pub byte : n.byte_index ≡ n.prefix_len / 8
    pub shift : n.bit_shift ≡ 7 - n.prefix_len % 8
    pub any : n.any_src ≡ match_all_source n.srcs

  abbrev pub is_nil : Trie V → Bool
  is_nil nil = true
  is_nil (fork n l r) = false

  -- A node without sources is there for its two children.
  abbrev pub IsUseful : TrieNode V → Trie V → Trie V → Type 0
  IsUseful n l r = (is_empty n.srcs ≡ false) ⊎ ((is_nil l ≡ false) × (is_nil r ≡ false))

  -- The first bits of what stands below a node on one side.
  abbrev pub side : TrieNode V → ℕ → ℕ
  side n bit = 2 * head n.prefix_len n.address + bit

  abbrev pub IsTrie : ℕ → ℕ → Trie V → Type 0
  IsTrie p h nil = Unit
  IsTrie p h (fork n l r) =
      IsNode p h n
      × IsUseful n l r
      × IsTrie (suc n.prefix_len) (side n 0) l
      × IsTrie (suc n.prefix_len) (side n 1) r

  abbrev pub is_at : ℕ → ℕ → TrieNode V → Bool
  is_at a l n = n.prefix_len == l && head l n.address == head l a

  -- Every source that some node holds for the destination, wherever the node stands.
  unfoldable pub sources_at : ℕ → ℕ → Trie V → List (SrcEntry V)
  sources_at a l nil = []
  sources_at a l (fork n t u) =
      (if is_at a l n then n.srcs else []) ++ (sources_at a l t ++ sources_at a l u)

  -- What agrees with one side of a node agrees with the node.
  side-head :
      (n : TrieNode V) (bit a : ℕ)
      → bit ≤ 1
      → suc n.prefix_len ≤ 128
      → head (suc n.prefix_len) a ≡ side n bit
      → head n.prefix_len a ≡ head n.prefix_len n.address
  side-head n bit a h k e =
      omega (arith, head-suc n.prefix_len a k, branch-le-one a n.prefix_len k, e)

  pub side-Covers :
      (p h : ℕ) (n : TrieNode V) (bit a l : ℕ)
      → IsNode p h n
      → bit ≤ 1
      → Covers (suc n.prefix_len) (side n bit) a l
      → Covers p h a l
  side-Covers p h n bit a l w b c = (
    omega (arith, w.deep, c.0),
    omega (arith, w.deep, c.1),
    head_eq-coarser p n.prefix_len a n.address w.deep w.short (side-head n bit a b c.0 c.2)
        ∙ w.under,
  )

  is_at-Covers :
      (p h : ℕ) (n : TrieNode V) (a l : ℕ) → IsNode p h n → is_at a l n ≡ true → Covers p h a l
  is_at-Covers p h n a l w e =
      let (same, agree) = (and_iff _ _).0 e in
      let len : n.prefix_len ≡ l = (==_iff _ _).0 same in
      let short : l ≤ 128 = omega (arith, w.short) in
      let deep : p ≤ l = omega (arith, w.deep) in
      (
        omega arith,
        deep,
        sym (head_eq-coarser p l n.address a deep short ((==_iff _ _).0 agree)) ∙ w.under,
      )

  -- Nothing is held for a destination that may not stand there.
  pub sources_at-outside :
      (t : Trie V) (p h a l : ℕ) → IsTrie p h t → (Covers p h a l → ⊥) → sources_at a l t ≡ []
  unfolding sources_at
  sources_at-outside nil p h a l w out = refl
  sources_at-outside (fork n t u) p h a l w out = elim (Bool-cases (is_at a l n)) [
    | inl here ↦ absurd (out (is_at-Covers p h n a l w.0 here))
    | inr away ↦
        let below = λ (bit : ℕ) (b : bit ≤ 1) (c : Covers (suc n.prefix_len) (side n bit) a l).
          out (side-Covers p h n bit a l w.0 b c) in
        rw
          (
            away,
            sources_at-outside t (suc n.prefix_len) (side n 0) a l w.2 (below 0 (omega arith)),
            sources_at-outside u (suc n.prefix_len) (side n 1) a l w.3 (below 1 (omega arith)),
          )
          refl
  ]

  IsNode-move :
      (n : TrieNode V) (q g p h : ℕ)
      → IsNode q g n
      → p ≤ n.prefix_len
      → head p n.address ≡ h
      → IsNode p h n
  IsNode-move n q g p h w d e = record {
    deep = d;
    short = w.short;
    under = e;
    in_range = w.in_range;
    byte = w.byte;
    shift = w.shift;
    any = w.any;
  }

  -- A child may stand where its parent may.
  pub IsTrie-side :
      (t : Trie V) (p h : ℕ) (n : TrieNode V) (bit : ℕ)
      → IsNode p h n
      → bit ≤ 1
      → IsTrie (suc n.prefix_len) (side n bit) t
      → IsTrie p h t
  IsTrie-side nil p h n bit w b k = tt
  IsTrie-side (fork m t u) p h n bit w b k = (
    IsNode-move m (suc n.prefix_len) (side n bit) p h k.0 (omega (arith, w.deep, k.0.deep)) (
        head_eq-coarser p n.prefix_len m.address n.address w.deep w.short
          (side-head n bit m.address b (omega (arith, k.0.deep, k.0.short)) k.0.under)
        ∙ w.under),
    k.1,
    k.2,
    k.3,
  )

  -- A node stands where its own bits say.
  pub IsTrie-own :
      (n : TrieNode V) (t u : Trie V) (p h : ℕ)
      → IsTrie p h (fork n t u)
      → IsTrie n.prefix_len (head n.prefix_len n.address) (fork n t u)
  IsTrie-own n t u p h w = (
    IsNode-move n p h n.prefix_len (head n.prefix_len n.address) w.0 (omega arith) refl,
    w.1,
    w.2,
    w.3,
  )

  pub compact-IsTrie :
      (n : TrieNode V) (t u : Trie V) (p h : ℕ)
      → IsNode p h n
      → IsTrie (suc n.prefix_len) (side n 0) t
      → IsTrie (suc n.prefix_len) (side n 1) u
      → IsTrie p h (compact (fork n t u))
  unfolding compact
  compact-IsTrie n nil u p h w kt ku = elim (Bool-cases (is_empty n.srcs)) [
    | inl e ↦ rw e (IsTrie-side u p h n 1 w (omega arith) ku)
    | inr e ↦ rw e (w, inl e, kt, ku)
  ]
  compact-IsTrie n (fork m a b) nil p h w kt ku = elim (Bool-cases (is_empty n.srcs)) [
    | inl e ↦ rw e (IsTrie-side (fork m a b) p h n 0 w (omega arith) kt)
    | inr e ↦ rw e (w, inl e, kt, ku)
  ]
  compact-IsTrie n (fork m a b) (fork k c d) p h w kt ku = (w, inr (refl, refl), kt, ku)

  pub is_empty_lem : (es : List (SrcEntry V)) → is_empty es ≡ true → es ≡ []
  unfolding is_empty
  is_empty_lem [] h = refl
  is_empty_lem (e ∷ es) h = absurd (false≢true h)

  -- No sources of its own are none anywhere.
  own :
      (a l : ℕ) (n : TrieNode V) (es : List (SrcEntry V))
      → es ≡ (if is_at a l n then [] else []) ++ es
  own a l n es = ground arith

  pub sources_at-compact :
      (n : TrieNode V) (t u : Trie V) (a l : ℕ)
      → sources_at a l (compact (fork n t u)) ≡ sources_at a l (fork n t u)
  unfolding compact sources_at
  sources_at-compact n nil u a l = elim (Bool-cases (is_empty n.srcs)) [
    | inl e ↦ rw (e, is_empty_lem n.srcs e) (own a l n (sources_at a l u))
    | inr e ↦ rw e refl
  ]
  sources_at-compact n (fork m t r) nil a l = elim (Bool-cases (is_empty n.srcs)) [
    | inl e ↦
        rw (e, is_empty_lem n.srcs e, append-nil (sources_at a l (fork m t r)))
          (own a l n (sources_at a l (fork m t r)))
    | inr e ↦ rw e refl
  ]
  sources_at-compact n (fork m t r) (fork k c d) a l = refl

  pub is_at-own :
      (b m : ℕ) (n : TrieNode V)
      → n.prefix_len ≡ m
      → head m n.address ≡ head m b
      → is_at b m n ≡ true
  is_at-own b m n e f = (and_iff _ _).1 ((==_iff _ _).1 e, (==_iff _ _).1 f)

  pub is_at-other :
      (b m : ℕ) (n : TrieNode V)
      → ((n.prefix_len ≡ m) → head m n.address ≡ head m b → ⊥)
      → is_at b m n ≡ false
  is_at-other b m n out = elim (Bool-cases (is_at b m n)) [
    | inr e ↦ e
    | inl e ↦ let (x, y) = (and_iff _ _).0 e in absurd (out ((==_iff _ _).0 x) ((==_iff _ _).0 y))
  ]

  -- Past its own length a node's sides tell the destinations apart.
  pub sources_at-sides :
      (n : TrieNode V) (t : Trie V) (bit b m : ℕ)
      → IsTrie (suc n.prefix_len) (side n bit) t
      → (suc n.prefix_len ≤ m → head (suc n.prefix_len) b ≢ side n bit)
      → sources_at b m t ≡ []
  sources_at-sides n t bit b m w out =
      sources_at-outside t (suc n.prefix_len) (side n bit) b m w (λ c. out c.1 c.2)

  pub set_srcs-IsNode :
      (p h : ℕ) (n : TrieNode V) (es : List (SrcEntry V))
      → IsNode p h n
      → IsNode p h (set_srcs n es)
  unfolding set_srcs
  set_srcs-IsNode p h n es w = record {
    deep = w.deep;
    short = w.short;
    under = w.under;
    in_range = w.in_range;
    byte = w.byte;
    shift = w.shift;
    any = refl;
  }
