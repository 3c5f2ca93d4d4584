-- ===== src/Sadr/Sources/Longest.antt =====
-- The ordered scan of sadr/table.go finds the longest source prefix that holds the address.
use ranet_lite.Prelude.{ℕ, suc, ◌≤◌, ◌≡◌, ◌≢◌, refl, sym, ap, ◌∙◌, inl, inr, arith}
use ranet_lite.Prelude.{Option, none, some, false, List, [], ◌∷◌}
use ranet_lite.Prelude.{leb, or_else, Bool-cases, Option-cases}
use ranet_lite.Prelude.Longest.{longest, longest_ext, longest-none, longest_top}
use mathlib.Core.Bool.{false≢true}
use mathlib.Core.Option.{some-injective}
use ranet_lite.Prelude.Order.{All}
use ranet_lite.Babel.Keys.{Prefix}
use ranet_lite.Sadr.Sources.{
  Addr, SrcEntry, contains, prefix_from, bits_plus_one, scan, same_source, bit_len, mask,
}
use ranet_lite.Sadr.Sources.{match_all_source, node_match}
use ranet_lite.Sadr.Sources.Index.{IsUnzoned, node_match-scan, scan-none}
use ranet_lite.Sadr.Sources.Canonical.{
  IsCanonical, IsSorted, value_of, none_ne_some, same_source_iff,
}
use ranet_lite.Sadr.Sources.Canonical.{
  match_all_source-value_of, contains-prefix_from, prefix_from-contains,
}

prefix_from-len :
    (a : Addr) (bits : ℕ) (p : Prefix) → prefix_from (some a) bits ≡ some p → p.plen ≡ bits
unfolding prefix_from
prefix_from-len a bits p e = elim (Bool-cases (leb bits (bit_len a.is_4))) [
  | inr wide ↦ absurd (none_ne_some p (rw wide at e))
  | inl fits ↦
      let q : Prefix = record { is_4 = a.is_4; addr = mask a.is_4 bits a.value; plen = bits } in
      ap (λ (r : Prefix). r.plen) (sym (some-injective q p (rw fits at e)))
]

module _ {V : Type 0} where
  abbrev at_key : (Option Prefix → Option V) → Option Prefix → Option V
  at_key m none = none
  at_key m (some p) = m (some p)

  -- What a map from sources holds for the first bits of an address, when the address has the bits.
  unfoldable pub source_at : (Option Prefix → Option V) → Option Addr → ℕ → Option V
  source_at m src bits = at_key m (prefix_from src bits)

  -- The longest source of the map that holds the address, and then the source that matches all.
  unfoldable pub longest_source : (Option Prefix → Option V) → Option Addr → Option V
  longest_source m src = or_else (longest (source_at m src) 128) (m none)

  source_at-none :
      (es : List (SrcEntry V)) (bits : ℕ) → source_at (λ s. value_of s es) none bits ≡ none
  unfolding source_at prefix_from
  source_at-none es bits = refl

  module _ (a : Addr) (z : a.zoned ≡ false) where
    -- Entries that are shorter than `bits` hold nothing for that many.
    value_of-short :
        (es : List (SrcEntry V)) (bits : ℕ)
        → All (λ (f : SrcEntry V). bits_plus_one f.src ≤ bits) es
        → source_at (λ s. value_of s es) (some a) bits ≡ none
    unfolding source_at value_of
    value_of-short es bits h = elim (Option-cases (prefix_from (some a) bits)) [
      | inl e ↦ rw e refl
      | inr (p, e) ↦ rw e (absent es h p (prefix_from-len a bits p e))
    ]
      where
        absent :
            (es : List (SrcEntry V))
            → All (λ (f : SrcEntry V). bits_plus_one f.src ≤ bits) es
            → (p : Prefix) → p.plen ≡ bits
            → value_of (some p) es ≡ none
        absent [] h p len = refl
        absent (f ∷ es) h p len = elim (Bool-cases (same_source f.src (some p))) [
          | inr other ↦ rw other (absent es h.1 p len)
          | inl same ↦
              let e : f.src ≡ some p = (same_source_iff f.src (some p)).0 same in
              absurd (omega (arith, ap bits_plus_one e, h.0, len))
        ]

    abbrev IsFound : List (SrcEntry V) → Type 0
    IsFound es = scan es (some a) ≡ longest (source_at (λ s. value_of s es) (some a)) 128

    value_of-cons_ne :
        (s t : Option Prefix) (v : V) (es : List (SrcEntry V))
        → s ≢ t
        → value_of t (record { src = s; value = v } ∷ es) ≡ value_of t es
    unfolding value_of
    value_of-cons_ne s t v es ne = elim (Bool-cases (same_source s t)) [
      | inl same ↦ absurd (ne ((same_source_iff s t).0 same))
      | inr other ↦ rw other refl
    ]

    value_of-cons_self :
        (s : Option Prefix) (v : V) (es : List (SrcEntry V))
        → value_of s (record { src = s; value = v } ∷ es) ≡ some v
    unfolding value_of
    value_of-cons_self s v es = rw ((same_source_iff s s).1 refl) refl

    -- An entry that the address does not mask to changes no answer.
    source_at-skip :
        (s : Option Prefix) (v : V) (es : List (SrcEntry V)) (bits : ℕ)
        → ((q : Prefix) → prefix_from (some a) bits ≡ some q → s ≢ some q)
        → source_at (λ t. value_of t es) (some a) bits
          ≡ source_at (λ t. value_of t (record { src = s; value = v } ∷ es)) (some a) bits
    unfolding source_at
    source_at-skip s v es bits ne = elim (Option-cases (prefix_from (some a) bits)) [
      | inl e ↦ rw e refl
      | inr (q, e) ↦ rw e (sym (value_of-cons_ne s (some q) v es (ne q e)))
    ]

    source_at-own :
        (p : Prefix) (v : V) (es : List (SrcEntry V))
        → prefix_from (some a) p.plen ≡ some p
        → source_at (λ t. value_of t (record { src = some p; value = v } ∷ es)) (some a) p.plen
          ≡ some v
    unfolding source_at
    source_at-own p v es e = rw e (value_of-cons_self (some p) v es)

    All-le :
        (es : List (SrcEntry V)) (k l : ℕ)
        → k ≤ l
        → All (λ (f : SrcEntry V). bits_plus_one f.src ≤ k) es
        → All (λ (f : SrcEntry V). bits_plus_one f.src ≤ l) es
    All-le [] k l le h = tt
    All-le (f ∷ es) k l le h = (omega (arith, le, h.0), All-le es k l le h.1)

    IsFound-nil : IsFound []
    unfolding scan
    IsFound-nil = sym (longest-none _ 128 (λ l le. value_of-short [] l tt))

    IsFound-cons :
        (s : Option Prefix) (v : V) (es : List (SrcEntry V))
        → let e : SrcEntry V = record { src = s; value = v } in
          IsCanonical (e ∷ es) → IsSorted (e ∷ es) → IsFound es → IsFound (e ∷ es)
    unfolding scan
    IsFound-cons none v es w o next =
        next ∙ longest_ext _ _ 128 (λ l le. source_at-skip none v es l (λ q e. none_ne_some q))
    IsFound-cons (some p) v es w o next = elim (Bool-cases (contains p (some a))) [
      | inl c ↦
          let e : SrcEntry V = record { src = some p; value = v } in
          let key = contains-prefix_from p a w.0 z c in
          let short : p.plen ≤ 128 = ground (arith, w.0.short) in
          rw c (
            sym (
              longest_top (source_at (λ t. value_of t (e ∷ es)) (some a)) p.plen 128 v short
                (source_at-own p v es key)
                (λ l lt. value_of-short (e ∷ es) l (lt, All-le es (suc p.plen) l lt o.0))))
      | inr out ↦ rw out (
          next
          ∙ longest_ext _ _ 128 (λ l le. source_at-skip (some p) v es l (λ q e f.
            let same : p ≡ q = some-injective p q f in
            let len : p.plen ≡ l = ap (λ (r : Prefix). r.plen) same ∙ prefix_from-len a l q e in
            let key : prefix_from (some a) p.plen ≡ some p =
              ap (prefix_from (some a)) len ∙ e ∙ sym f in
            false≢true (sym out ∙ prefix_from-contains p a w.0 z key))))
    ]

    scan-longest : (es : List (SrcEntry V)) → IsCanonical es → IsSorted es → IsFound es
    scan-longest [] w o = IsFound-nil
    scan-longest (e ∷ es) w o = IsFound-cons e.src e.value es w o (scan-longest es w.2 o.1)

  -- A node with an ordered list answers by its longest source.
  pub node_match-longest :
      (src : Option Addr) (es : List (SrcEntry V))
      → IsUnzoned src
      → IsCanonical es
      → IsSorted es
      → node_match es (match_all_source es) src ≡ longest_source (λ s. value_of s es) src
  unfolding longest_source
  node_match-longest src es z w o =
      node_match-scan src es (match_all_source es) z w
      ∙ ap (or_else (scan es src)) (match_all_source-value_of es)
      ∙ ap (λ x. or_else x (value_of none es)) (found src z)
    where
      found :
          (src : Option Addr)
          → IsUnzoned src
          → scan es src ≡ longest (source_at (λ s. value_of s es) src) 128
      found none u =
          scan-none es
          ∙ sym
              (longest-none (source_at (λ s. value_of s es) none) 128 (λ l le. source_at-none es l))
      found (some a) u = scan-longest a u es w o
