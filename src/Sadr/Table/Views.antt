-- ===== src/Sadr/Table/Views.antt =====
-- The table of sadr/table.go as a map from a family, a destination prefix and a source to a value.
use native.Mathlib.Nat.{mul-div_cancel, one-le-pow}
use mathlib.Core.Bool.{xor}
use ranet_lite.Prelude.{ℕ, ◌+◌, ◌-◌, ◌*◌, ◌/◌, ◌^◌, ◌≤◌, ◌<◌, ◌≡◌, refl, ap, ◌∙◌, inl, inr, arith}
use ranet_lite.Prelude.{Option, none, some, Bool, true, false, not, ◌&&◌, List}
use ranet_lite.Prelude.{◌==◌, if◌then◌else◌, or_else-none, Bool-cases}
use ranet_lite.Prelude.Longest.{longest, longest_ext}
use ranet_lite.Babel.Keys.{Prefix}
use ranet_lite.Sadr.Address.Heads.{head, head-zero}
use ranet_lite.Sadr.Sources.{Addr, SrcEntry, bit_len, masked}
use ranet_lite.Sadr.Sources.Canonical.{IsSource, value_of}
use ranet_lite.Sadr.Sources.Index.{IsUnzoned}
use ranet_lite.Sadr.Sources.Longest.{longest_source, node_match-longest}
use ranet_lite.Sadr.Sources.Edits.{IsOrdered}
use ranet_lite.Sadr.Trie.{Trie, edit}
use ranet_lite.Sadr.Trie.Shape.{IsTrie, sources_at}
use ranet_lite.Sadr.Trie.Edit.{edit-IsTrie}
use ranet_lite.Sadr.Trie.Contents.{sources_at-edit}
use ranet_lite.Sadr.Trie.Find.{lookup_from-longest}
use ranet_lite.Sadr.Table.{Table, as_16, masked_source, change_at, lookup}

-- A prefix as net/netip keeps it: the length and the address fit the family.
pub record IsPrefix (p : Prefix) : Type 0 where
  pub short : p.plen ≤ bit_len p.is_4
  pub in_range : p.addr < 2 ^ bit_len p.is_4

abbrev pub IsPrefixOrNone : Option Prefix → Type 0
IsPrefixOrNone none = Unit
IsPrefixOrNone (some p) = IsPrefix p

-- The length of a destination in the 128 bits of the trie.
abbrev pub key_len : Prefix → ℕ
key_len d = if d.is_4 then d.plen + 96 else d.plen

abbrev pub same_family : Bool → Bool → Bool
same_family f g = not (xor f g)

-- The destination is the first `l` bits of `a`, in this family.
abbrev pub is_dest : Prefix → Bool → ℕ → ℕ → Bool
is_dest d f a l =
    same_family f d.is_4 && (key_len d == l && head l (as_16 d.is_4 d.addr) == head l a)

pub masked_source-IsSource : (s : Option Prefix) → IsPrefixOrNone s → IsSource (masked_source s)
unfolding masked_source masked
masked_source-IsSource none w = tt
masked_source-IsSource (some p) w = record {
  short = w.short;
  clear =
      ap (λ q. q * 2 ^ (bit_len p.is_4 - p.plen))
        (mul-div_cancel (p.addr / 2 ^ (bit_len p.is_4 - p.plen))
          (one-le-pow (bit_len p.is_4 - p.plen) 2 (omega arith)));
}

as_16-range : (f : Bool) (a : ℕ) → a < 2 ^ bit_len f → as_16 f a < 2 ^ 128
as_16-range true a h = omega (arith, h)
as_16-range false a h = h

head_none : (p : Prefix) → IsPrefix p → head 0 (as_16 p.is_4 p.addr) ≡ 0
head_none p w = head-zero (as_16 p.is_4 p.addr) (as_16-range p.is_4 p.addr w.in_range)

key_len-le : (p : Prefix) → IsPrefix p → key_len p ≤ 128
key_len-le p w = ground (arith, w.short)

-- A map from destinations and sources. Only the first `l` bits of an address matter to a table.
abbrev pub RouteMap : Type 0 → Type 0
RouteMap V = Bool → ℕ → ℕ → Option Prefix → Option V

module _ {V : Type 0} where
  abbrev pub root : Table V → Bool → Trie V
  root t f = if f then t.ipv4 else t.ipv6

  pub record IsTable (t : Table V) : Type 0 where
    pub shape : (f : Bool) → IsTrie 0 0 (root t f)
    pub ordered : (f : Bool) (a l : ℕ) → IsOrdered (sources_at a l (root t f))

  unfoldable pub view : Table V → RouteMap V
  view t f a l s = value_of s (sources_at a l (root t f))

  -- Destination first: the longest destination with a source that holds the address, and there the
  -- longest source.
  unfoldable pub answer : RouteMap V → Option Addr → Addr → Option V
  answer m src d = longest (λ l. longest_source (m d.is_4 (as_16 d.is_4 d.value) l) src) 128

  pub lookup-answer :
      (t : Table V) (src : Option Addr) (d : Addr)
      → IsTable t
      → IsUnzoned src
      → lookup src (some d) t ≡ answer (view t) src d
  unfolding lookup answer view
  lookup-answer t src d w z =
      let a = as_16 d.is_4 d.value in
      lookup_from-longest src a (root t d.is_4) 0 0 none (w.shape d.is_4)
      ∙ or_else-none _
      ∙ longest_ext _ _ 128 (λ l le.
        let o = w.ordered d.is_4 a l in
        node_match-longest src (sources_at a l (root t d.is_4)) z o.0 o.1)

  -- One destination changed.
  abbrev pub edited_at :
      Bool → (List (SrcEntry V) → List (SrcEntry V)) → List (SrcEntry V) → List (SrcEntry V)
  edited_at k fn es = if k then fn es else es

  -- The change is made in one trie, at the destination in the form of the trie.
  change_at-root :
      (d : Prefix) (fn : List (SrcEntry V) → List (SrcEntry V)) (t : Table V) (f : Bool)
      → root (change_at d fn t) f ≡ (
          if same_family f d.is_4
          then edit (as_16 d.is_4 d.addr) (key_len d) fn (root t f)
          else root t f)
  unfolding change_at xor
  change_at-root d fn t f = ground arith

  pub sources_at-change_at :
      (d : Prefix) (fn : List (SrcEntry V) → List (SrcEntry V)) (t : Table V) (f : Bool) (a l : ℕ)
      → IsPrefix d
      → IsTable t
      → sources_at a l (root (change_at d fn t) f)
        ≡ edited_at (is_dest d f a l) fn (sources_at a l (root t f))
  sources_at-change_at d fn t f a l p w = elim (Bool-cases (same_family f d.is_4)) [
    | inr other ↦ rw (change_at-root d fn t f, other) refl
    | inl same ↦
        let b = as_16 d.is_4 d.addr in
        rw (change_at-root d fn t f, same)
          (sources_at-edit b (key_len d) fn (as_16-range d.is_4 d.addr p.in_range) (key_len-le d p)
            a l (root t f) 0 0 (w.shape f) (omega arith) (head_none d p))
  ]

  pub change_at-shape :
      (d : Prefix) (fn : List (SrcEntry V) → List (SrcEntry V)) (t : Table V) (f : Bool)
      → IsPrefix d
      → IsTable t
      → IsTrie 0 0 (root (change_at d fn t) f)
  change_at-shape d fn t f p w = elim (Bool-cases (same_family f d.is_4)) [
    | inr other ↦ rw (change_at-root d fn t f, other) (w.shape f)
    | inl same ↦
        let b = as_16 d.is_4 d.addr in
        rw (change_at-root d fn t f, same)
          (edit-IsTrie b (key_len d) fn (as_16-range d.is_4 d.addr p.in_range) (key_len-le d p)
            (root t f) 0 0 (w.shape f) (omega arith) (head_none d p))
  ]
