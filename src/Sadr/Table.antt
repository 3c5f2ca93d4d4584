-- ===== src/Sadr/Table.antt =====
-- `Table` of sadr/table.go: both families, and the operations.
pub mod Views
pub mod Refines
use ranet_lite.Prelude.{ℕ, ◌+◌, ◌*◌, ◌^◌, ◌-◌, Option, none, some}
use ranet_lite.Prelude.{Bool, true, false, not, ◌||◌, List, [], ◌∷◌, ◌++◌, map, if◌then◌else◌}
use mathlib.Core.Bool.{xor}
use ranet_lite.Babel.Keys.{Prefix}
use ranet_lite.Sadr.Sources.{Addr, SrcEntry, masked, set_source, remove_source}
use ranet_lite.Sadr.Trie.{
  Trie, TrieNode, nil, edit, lookup_from, nodes, remove_value as remove_trie_value,
}

pub record Table (V : Type 0) : Type 0 where
  pub ipv4 : Trie V
  pub ipv6 : Trie V

-- `As16`: an IPv4 address in its mapped form.
abbrev pub as_16 : Bool → ℕ → ℕ
as_16 is_4 a = if is_4 then 0xffff * 2 ^ 32 + a else a

pub record Route (V : Type 0) : Type 0 where
  pub source : Option Prefix
  pub destination : Prefix
  pub value : V

unfoldable pub masked_source : Option Prefix → Option Prefix
masked_source none = none
masked_source (some p) = some (masked p)

-- A destination that is not valid is `none`.
unfoldable pub valid_prefixes : Option Prefix → Option Prefix → Bool
valid_prefixes src none = false
valid_prefixes none (some d) = true
valid_prefixes (some p) (some d) = not (xor p.is_4 d.is_4)

module _ {V : Type 0} where
  -- The zero value, which has no roots yet.
  abbrev pub empty : Table V
  empty = record { ipv4 = nil; ipv6 = nil }

  unfoldable pub change_at : Prefix → (List (SrcEntry V) → List (SrcEntry V)) → Table V → Table V
  change_at d fn t =
      if d.is_4
      then record t { ipv4 = edit (as_16 true d.addr) (d.plen + 96) fn t.ipv4 }
      else record t { ipv6 = edit (as_16 false d.addr) d.plen fn t.ipv6 }

  unfoldable pub change :
      Option Prefix → Option Prefix → (List (SrcEntry V) → List (SrcEntry V)) → Table V → Table V
  change src dst fn t =
      if valid_prefixes src dst then (elim dst [ none ↦ t | some d ↦ change_at d fn t ]) else t

  unfoldable pub set : Option Prefix → Option Prefix → V → Table V → Table V
  set src dst v t = let s = masked_source src in change s dst (set_source s v) t

  unfoldable pub remove : Option Prefix → Option Prefix → Table V → Table V
  remove src dst t = let s = masked_source src in change s dst (remove_source s) t

  unfoldable pub lookup : Option Addr → Option Addr → Table V → Option V
  lookup src none t = none
  lookup src (some d) t =
      lookup_from src (as_16 d.is_4 d.value) (if d.is_4 then t.ipv4 else t.ipv6) none

  abbrev pub node_routes : Bool → TrieNode V → List (Route V)
  node_routes is_4 n =
      let bits = if is_4 then n.prefix_len - 96 else n.prefix_len in
      let addr = if is_4 then n.address - as_16 true 0 else n.address in
      let d = masked (record { is_4 = is_4; addr = addr; plen = bits }) in
      map (λ e. record { source = e.src; destination = d; value = e.value }) n.srcs

  abbrev pub trie_routes : Bool → List (TrieNode V) → List (Route V)
  trie_routes is_4 [] = []
  trie_routes is_4 (n ∷ ns) = node_routes is_4 n ++ trie_routes is_4 ns

  -- Everything that `All` yields when it is not stopped.
  unfoldable pub all : Table V → List (Route V)
  all t = trie_routes true (nodes t.ipv4) ++ trie_routes false (nodes t.ipv6)

module _ {V : Type 0} (dec : Discrete V) where
  unfoldable pub remove_value : V → Table V → Table V
  remove_value v t = record {
    ipv4 = (remove_trie_value dec v t.ipv4).0;
    ipv6 = (remove_trie_value dec v t.ipv6).0;
  }
