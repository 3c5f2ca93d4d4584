-- ===== src/Sadr/Table/Refines.antt =====
-- Any sequence of calls on the table of sadr/table.go, against the same calls on a map.
use mathlib.Core.Path.{fun_ext}
use ranet_lite.Prelude.{◌≡◌, refl, ap, ◌∙◌, inl, inr}
use ranet_lite.Prelude.{
  Option, none, some, Bool, true, false, List, [], ◌∷◌, if◌then◌else◌, Bool-cases,
}
use ranet_lite.Prelude.Order.{All}
use ranet_lite.Babel.Keys.{Prefix}
use ranet_lite.Sadr.Sources.{Addr, SrcEntry, set_source, remove_source}
use ranet_lite.Sadr.Sources.Canonical.{value_of}
use ranet_lite.Sadr.Sources.Index.{IsUnzoned}
use ranet_lite.Sadr.Sources.Edits.{
  IsOrdered, set_source-IsOrdered, remove_source-IsOrdered, without_value-IsOrdered,
}
use ranet_lite.Sadr.Sources.Values.{update_source, drop_value, value_of-set_source}
use ranet_lite.Sadr.Sources.Values.{value_of-remove_source, value_of-without_value}
use ranet_lite.Sadr.Trie.{nil, remove_value as remove_trie_value}
use ranet_lite.Sadr.Trie.Shape.{sources_at}
use ranet_lite.Sadr.Trie.Drop.{remove_value-IsTrie, sources_at-remove_value}
use ranet_lite.Sadr.Table.{Table, empty, masked_source, valid_prefixes, change_at, change}
use ranet_lite.Sadr.Table.{set, remove, remove_value, lookup}
use ranet_lite.Sadr.Table.Views.{
  IsPrefixOrNone, IsPrefix, IsTable, RouteMap, is_dest, root, view, answer,
}
use ranet_lite.Sadr.Table.Views.{
  masked_source-IsSource, sources_at-change_at, change_at-shape, edited_at, lookup-answer,
}

pub data Op (V : Type 0) : Type 0 where
  set_op : Option Prefix → Option Prefix → V → Op V
  remove_op : Option Prefix → Option Prefix → Op V
  remove_value_op : V → Op V

module _ {V : Type 0} where
  -- The prefixes of a call are prefixes of net/netip, valid or not.
  abbrev pub IsOp : Op V → Type 0
  IsOp (set_op s d v) = IsPrefixOrNone s × IsPrefixOrNone d
  IsOp (remove_op s d) = IsPrefixOrNone s × IsPrefixOrNone d
  IsOp (remove_value_op v) = Unit

  -- The map with one source of one destination changed.
  abbrev pub update_route : Prefix → Option Prefix → Option V → RouteMap V → RouteMap V
  update_route d s o m f a l q =
      if is_dest d f a l then update_source s o (m f a l) q else m f a l q

  -- Pairs that the table ignores change nothing.
  unfoldable pub update_valid : Option Prefix → Option Prefix → Option V → RouteMap V → RouteMap V
  update_valid s none o m = m
  update_valid s (some d) o m = if valid_prefixes s (some d) then update_route d s o m else m

  change_at-IsTable :
      (d : Prefix) (fn : List (SrcEntry V) → List (SrcEntry V)) (t : Table V)
      → IsPrefix d
      → ((es : List (SrcEntry V)) → IsOrdered es → IsOrdered (fn es))
      → IsTable t
      → IsTable (change_at d fn t)
  change_at-IsTable d fn t p keeps w = record {
    shape = λ f. change_at-shape d fn t f p w;
    ordered = λ f a l.
        rw (sources_at-change_at d fn t f a l p w)
          (edited (is_dest d f a l) (sources_at a l (root t f)) (w.ordered f a l));
  }
    where
      edited : (k : Bool) (es : List (SrcEntry V)) → IsOrdered es → IsOrdered (edited_at k fn es)
      edited true es o = keeps es o
      edited false es o = o

  change-IsTable :
      (s d : Option Prefix) (fn : List (SrcEntry V) → List (SrcEntry V)) (t : Table V)
      → IsPrefixOrNone d
      → ((es : List (SrcEntry V)) → IsOrdered es → IsOrdered (fn es))
      → IsTable t
      → IsTable (change s d fn t)
  unfolding change valid_prefixes
  change-IsTable s none fn t p keeps w = w
  change-IsTable s (some d) fn t p keeps w = elim (Bool-cases (valid_prefixes s (some d))) [
    | inl valid ↦ rw valid (change_at-IsTable d fn t p keeps w)
    | inr ignored ↦ rw ignored w
  ]

  change-view :
      (s d : Option Prefix) (o : Option V) (fn : List (SrcEntry V) → List (SrcEntry V))
      (t : Table V)
      → IsPrefixOrNone d
      → ((es : List (SrcEntry V)) (q : Option Prefix)
          → IsOrdered es
          → value_of q (fn es) ≡ update_source s o (λ r. value_of r es) q)
      → IsTable t
      → view (change s d fn t) ≡ update_valid s d o (view t)
  unfolding change update_valid view valid_prefixes
  change-view s none o fn t p one w = refl
  change-view s (some d) o fn t p one w = elim (Bool-cases (valid_prefixes s (some d))) [
    | inr ignored ↦ rw ignored refl
    | inl valid ↦ rw valid (
        fun_ext (λ f. fun_ext (λ a. fun_ext (λ l. fun_ext (λ q.
          rw (sources_at-change_at d fn t f a l p w)
            (edited (is_dest d f a l) (sources_at a l (root t f)) q (w.ordered f a l)))))))
  ]
    where
      edited :
          (k : Bool) (es : List (SrcEntry V)) (q : Option Prefix)
          → IsOrdered es
          → value_of q (edited_at k fn es)
            ≡ (if k then update_source s o (λ r. value_of r es) q else value_of q es)
      edited true es q h = one es q h
      edited false es q h = refl

  pub set-IsTable :
      (s d : Option Prefix) (v : V) (t : Table V)
      → IsPrefixOrNone s
      → IsPrefixOrNone d
      → IsTable t
      → IsTable (set s d v t)
  unfolding set
  set-IsTable s d v t ps pd w =
      change-IsTable (masked_source s) d (set_source (masked_source s) v) t pd
        (λ es o. set_source-IsOrdered (masked_source s) v es (masked_source-IsSource s ps) o) w

  pub remove-IsTable :
      (s d : Option Prefix) (t : Table V) → IsPrefixOrNone d → IsTable t → IsTable (remove s d t)
  unfolding remove
  remove-IsTable s d t pd w =
      change-IsTable (masked_source s) d (remove_source (masked_source s)) t pd
        (λ es o. remove_source-IsOrdered (masked_source s) es o) w

  set-view :
      (s d : Option Prefix) (v : V) (t : Table V)
      → IsPrefixOrNone d
      → IsTable t
      → view (set s d v t) ≡ update_valid (masked_source s) d (some v) (view t)
  unfolding set
  set-view s d v t pd w =
      change-view (masked_source s) d (some v) (set_source (masked_source s) v) t pd
        (λ es q o. value_of-set_source (masked_source s) v es q) w

  remove-view :
      (s d : Option Prefix) (t : Table V)
      → IsPrefixOrNone d
      → IsTable t
      → view (remove s d t) ≡ update_valid (masked_source s) d none (view t)
  unfolding remove
  remove-view s d t pd w =
      change-view (masked_source s) d none (remove_source (masked_source s)) t pd
        (λ es q o. value_of-remove_source (masked_source s) es q o.0) w

  -- The map of the zero table.
  abbrev pub no_routes : RouteMap V
  no_routes f a l q = none

  root-empty : (f : Bool) → root {V = V} empty f ≡ nil
  root-empty true = refl
  root-empty false = refl

  pub empty-IsTable : IsTable {V = V} empty
  unfolding sources_at
  empty-IsTable = record {
    shape = λ f. rw (root-empty f) tt;
    ordered = λ f a l. rw (root-empty f) (tt, tt);
  }

  empty-view : view {V = V} empty ≡ no_routes
  unfolding view sources_at value_of
  empty-view = fun_ext (λ f. fun_ext (λ a. fun_ext (λ l. fun_ext (λ q. rw (root-empty f) refl))))

  module _ (dec : Discrete V) where
    remove_value-root :
        (v : V) (t : Table V) (f : Bool)
        → root (remove_value dec v t) f ≡ (remove_trie_value dec v (root t f)).0
    unfolding remove_value
    remove_value-root v t true = refl
    remove_value-root v t false = refl

    pub remove_value-IsTable : (v : V) (t : Table V) → IsTable t → IsTable (remove_value dec v t)
    remove_value-IsTable v t w = record {
      shape =
          λ f. rw (remove_value-root v t f) (remove_value-IsTrie dec v (root t f) 0 0 (w.shape f));
      ordered = λ f a l.
          rw (remove_value-root v t f, sources_at-remove_value dec v (root t f) a l)
            (without_value-IsOrdered dec v (sources_at a l (root t f)) (w.ordered f a l));
    }

    remove_value-view :
        (v : V) (t : Table V)
        → IsTable t
        → view (remove_value dec v t) ≡ (λ f a l q. drop_value dec v (view t f a l q))
    unfolding view
    remove_value-view v t w = fun_ext (λ f. fun_ext (λ a. fun_ext (λ l. fun_ext (λ q.
        rw (remove_value-root v t f, sources_at-remove_value dec v (root t f) a l)
          (value_of-without_value dec v (sources_at a l (root t f)) q (w.ordered f a l).0)))))

    unfoldable pub run : List (Op V) → Table V → Table V
    run [] t = t
    run (set_op s d v ∷ ops) t = run ops (set s d v t)
    run (remove_op s d ∷ ops) t = run ops (remove s d t)
    run (remove_value_op v ∷ ops) t = run ops (remove_value dec v t)

    -- The same calls, on a map.
    unfoldable pub replay : List (Op V) → RouteMap V → RouteMap V
    replay [] m = m
    replay (set_op s d v ∷ ops) m = replay ops (update_valid (masked_source s) d (some v) m)
    replay (remove_op s d ∷ ops) m = replay ops (update_valid (masked_source s) d none m)
    replay (remove_value_op v ∷ ops) m = replay ops (λ f a l q. drop_value dec v (m f a l q))

    run-view :
        (ops : List (Op V)) (t : Table V)
        → All IsOp ops
        → IsTable t
        → IsTable (run ops t) × (view (run ops t) ≡ replay ops (view t))
    unfolding run replay
    run-view [] t h w = (w, refl)
    run-view (set_op s d v ∷ ops) t h w =
        let (valid, same) = run-view ops (set s d v t) h.1 (set-IsTable s d v t h.0.0 h.0.1 w) in
        (valid, same ∙ ap (replay ops) (set-view s d v t h.0.1 w))
    run-view (remove_op s d ∷ ops) t h w =
        let (valid, same) = run-view ops (remove s d t) h.1 (remove-IsTable s d t h.0.1 w) in
        (valid, same ∙ ap (replay ops) (remove-view s d t h.0.1 w))
    run-view (remove_value_op v ∷ ops) t h w =
        let (valid, same) = run-view ops (remove_value dec v t) h.1 (remove_value-IsTable v t w) in
        (valid, same ∙ ap (replay ops) (remove_value-view v t w))

    -- After any sequence of Set, Remove and RemoveValue with prefixes of net/netip on the empty
    -- table, a Lookup of a source without a zone and a valid destination answers as the map that
    -- the same calls leave: at the longest destination prefix with a source that holds the address,
    -- and there at the longest source, the one that matches everything last.
    pub lookup-run :
        (ops : List (Op V)) (src : Option Addr) (d : Addr)
        → All IsOp ops
        → IsUnzoned src
        → lookup src (some d) (run ops empty) ≡ answer (replay ops no_routes) src d
    lookup-run ops src d h z =
        let (valid, same) = run-view ops empty h empty-IsTable in
        lookup-answer (run ops empty) src d valid z
        ∙ ap (λ m. answer m src d) (same ∙ ap (replay ops) empty-view)
