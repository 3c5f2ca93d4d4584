-- ===== src/Sadr/Sources.antt =====
-- The sources of one destination, sadr/table.go: the ordered list, the scan, the index by length and
-- the edits that `Set` and `Remove` make. A source that is not valid, which matches every address,
-- is `none`.
pub mod Canonical
pub mod Index
pub mod Longest
pub mod Edits
pub mod Values
use ranet_lite.Prelude.{ℕ, zero, suc, ◌+◌, ◌-◌, ◌*◌, ◌/◌, ◌^◌, Option, none, some}
use ranet_lite.Prelude.{Bool, true, false, not, ◌&&◌, ◌||◌, List, [], ◌∷◌, length}
use ranet_lite.Prelude.{ltb, leb, ◌==◌, or_else, if◌then◌else◌}
use mathlib.Core.Logic.{ite}
use mathlib.Core.Bool.{xor}
use ranet_lite.Prelude.Assoc.{get, put}
use ranet_lite.Babel.Keys.{Prefix, Prefix-discrete}

-- The parts of net/netip that the table uses. An address that is not valid is `none`.
pub record Addr : Type 0 where
  pub is_4 : Bool
  pub value : ℕ
  pub zoned : Bool

abbrev pub bit_len : Bool → ℕ
bit_len is_4 = if is_4 then 32 else 128

-- The bits of an address past the first `plen` cleared.
abbrev pub mask : Bool → ℕ → ℕ → ℕ
mask is_4 plen a = a / 2 ^ (bit_len is_4 - plen) * 2 ^ (bit_len is_4 - plen)

unfoldable pub masked : Prefix → Prefix
masked p = record p { addr = mask p.is_4 p.plen p.addr }

-- `Bits()` is one less, so that it is -1 for a source that is not valid.
abbrev pub bits_plus_one : Option Prefix → ℕ
bits_plus_one none = 0
bits_plus_one (some p) = suc p.plen

-- `Prefix.Contains`, false for an address with a zone.
unfoldable pub contains : Prefix → Option Addr → Bool
contains p none = false
contains p (some a) =
    not a.zoned
    && (not (xor p.is_4 a.is_4)
        && p.addr / 2 ^ (bit_len p.is_4 - p.plen) == a.value / 2 ^ (bit_len p.is_4 - p.plen))

-- `netip.PrefixFrom(src, bits).Masked()`, which drops the zone.
unfoldable pub prefix_from : Option Addr → ℕ → Option Prefix
prefix_from none bits = none
prefix_from (some a) bits =
    if leb bits (bit_len a.is_4)
    then some (record { is_4 = a.is_4; addr = mask a.is_4 bits a.value; plen = bits })
    else none

pub record SrcEntry (V : Type 0) : Type 0 where
  pub src : Option Prefix
  pub value : V

-- Every source prefix of one length.
pub record SrcIndex (V : Type 0) : Type 0 where
  pub bits : ℕ
  pub m : List (Prefix × V)

abbrev pub index_threshold : ℕ
index_threshold = 4

-- Equality of two sources, as Go's `==`.
unfoldable pub same_source : Option Prefix → Option Prefix → Bool
same_source none none = true
same_source none (some q) = false
same_source (some p) none = false
same_source (some p) (some q) = ite (Prefix-discrete p q) true false

module _ {V : Type 0} where
  unfoldable pub match_all_source : List (SrcEntry V) → Option V
  match_all_source [] = none
  match_all_source (e ∷ es) = elim e.src [ none ↦ some e.value | some p ↦ match_all_source es ]

  -- `prev` is the entry before, if any. The answer is (specific, runs).
  unfoldable pub count_runs : Option (Option Prefix) → List (SrcEntry V) → ℕ × ℕ
  count_runs prev [] = (0, 0)
  count_runs prev (e ∷ es) =
      let (specific, runs) = count_runs (some e.src) es in
      elim e.src [
        | none ↦ (specific, runs)
        | some p ↦ (suc specific, if starts prev e.src then suc runs else runs)
      ]
    where
      starts : Option (Option Prefix) → Option Prefix → Bool
      starts none src = true
      starts (some before) src = not (bits_plus_one before == bits_plus_one src)

  -- The entries of one length at the front, and what follows them.
  unfoldable pub take_run :
      ℕ → List (SrcEntry V) → List (Prefix × V) → List (Prefix × V) × List (SrcEntry V)
  take_run bits [] m = (m, [])
  take_run bits (e ∷ es) m = elim e.src [
    | none ↦ (m, e ∷ es)
    | some p ↦
        let rest = take_run bits es (put Prefix-discrete p e.value m) in
        if p.plen == bits then rest else (m, e ∷ es)
  ]

  -- Every step passes at least one entry, so the length of the list is enough fuel.
  unfoldable pub group_srcs : ℕ → List (SrcEntry V) → List (SrcIndex V)
  group_srcs zero srcs = []
  group_srcs (suc fuel) [] = []
  group_srcs (suc fuel) (e ∷ es) = elim e.src [
    | none ↦ group_srcs fuel es
    | some p ↦
        let (m, rest) = take_run p.plen (e ∷ es) [] in
        record { bits = p.plen; m = m } ∷ group_srcs fuel rest
  ]

  unfoldable pub index_srcs : List (SrcEntry V) → Option (List (SrcIndex V))
  index_srcs srcs =
      let (specific, runs) = count_runs none srcs in
      if runs == 0 || ltb specific (runs * index_threshold)
      then none
      else some (group_srcs (length srcs) srcs)

  unfoldable pub scan : List (SrcEntry V) → Option Addr → Option V
  scan [] src = none
  scan (e ∷ es) src = elim e.src [
    | none ↦ scan es src
    | some p ↦ if contains p src then some e.value else scan es src
  ]

  -- A key that is not valid is in no group.
  unfoldable pub get_source : Option Prefix → List (Prefix × V) → Option V
  get_source none m = none
  get_source (some p) m = get Prefix-discrete p m

  unfoldable pub probe : List (SrcIndex V) → Option Addr → Option V
  probe [] src = none
  probe (g ∷ gs) src =
      let rest = probe gs src in or_else (get_source (prefix_from src g.bits) g.m) rest

  -- The answer of one node, `matched` or not: the entries with a source, then the one without.
  unfoldable pub node_match : List (SrcEntry V) → Option V → Option Addr → Option V
  node_match srcs any_src src = or_else (answer (index_srcs srcs)) any_src
    where
      answer : Option (List (SrcIndex V)) → Option V
      answer none = scan srcs src
      answer (some by_len) = probe by_len src

  unfoldable pub has_source : Option Prefix → List (SrcEntry V) → Bool
  has_source src [] = false
  has_source src (e ∷ es) = same_source e.src src || has_source src es

  unfoldable pub replace_source : Option Prefix → V → List (SrcEntry V) → List (SrcEntry V)
  replace_source src v [] = []
  replace_source src v (e ∷ es) =
      if same_source e.src src then record e { value = v } ∷ es else e ∷ replace_source src v es

  -- `slices.BinarySearchFunc` and `slices.Insert`, on a list in the order that the search asks for.
  unfoldable pub insert_source : Option Prefix → V → List (SrcEntry V) → List (SrcEntry V)
  insert_source src v [] = record { src = src; value = v } ∷ []
  insert_source src v (e ∷ es) =
      if ltb (bits_plus_one src) (bits_plus_one e.src)
      then e ∷ insert_source src v es
      else record { src = src; value = v } ∷ e ∷ es

  -- What `Set` does with the sources of the destination.
  unfoldable pub set_source : Option Prefix → V → List (SrcEntry V) → List (SrcEntry V)
  set_source src v srcs =
      if has_source src srcs then replace_source src v srcs else insert_source src v srcs

  -- What `Remove` does.
  unfoldable pub remove_source : Option Prefix → List (SrcEntry V) → List (SrcEntry V)
  remove_source src [] = []
  remove_source src (e ∷ es) = if same_source e.src src then es else e ∷ remove_source src es

module _ {V : Type 0} (dec : Discrete V) where
  unfoldable pub holds_value : V → List (SrcEntry V) → Bool
  holds_value v [] = false
  holds_value v (e ∷ es) = ite (dec e.value v) true (holds_value v es)

  unfoldable pub without_value : V → List (SrcEntry V) → List (SrcEntry V)
  without_value v [] = []
  without_value v (e ∷ es) = ite (dec e.value v) (without_value v es) (e ∷ without_value v es)
