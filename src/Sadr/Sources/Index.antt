-- ===== src/Sadr/Sources/Index.antt =====
-- The index of sadr/table.go answers what the ordered scan answers.
use ranet_lite.Prelude.{ℕ, zero, suc, ◌≤◌, ◌≡◌, ◌≢◌, refl, sym, ap, ◌∙◌, inl, inr, arith}
use ranet_lite.Prelude.{Option, none, some, false, List, [], ◌∷◌, length}
use ranet_lite.Prelude.{◌==◌, if◌then◌else◌, or_else, Bool-cases, Option-cases, ==_iff}
use ranet_lite.Prelude.{◌||◌, ◌*◌, ltb}
use native.Mathlib.Nat.{le_refl}
use mathlib.Core.Bool.{false≢true}
use ranet_lite.Prelude.Order.{All}
use ranet_lite.Prelude.Assoc.{get, put, get-put_self, get-put_ne}
use ranet_lite.Babel.Keys.{Prefix, Prefix-discrete}
use ranet_lite.Sadr.Sources.{Addr, SrcEntry, SrcIndex, contains, prefix_from, get_source, take_run}
use ranet_lite.Sadr.Sources.{
  group_srcs, index_srcs, index_threshold, count_runs, scan, probe, node_match,
}
use ranet_lite.Sadr.Sources.Canonical.{
  IsMasked, IsCanonical, contains-prefix_from, prefix_from-contains,
}

module _ {V : Type 0} (a : Addr) (z : a.zoned ≡ false) where
  -- No entry of the list is in the map yet.
  abbrev Fresh : List (SrcEntry V) → List (Prefix × V) → Type 0
  Fresh es m =
      All (λ (e : SrcEntry V). (p : Prefix) → e.src ≡ some p → get Prefix-discrete p m ≡ none) es

  Fresh-put :
      (es : List (SrcEntry V)) (m : List (Prefix × V)) (p : Prefix) (v : V)
      → All (λ (f : SrcEntry V). f.src ≢ some p) es
      → Fresh es m
      → Fresh es (put Prefix-discrete p v m)
  Fresh-put [] m p v ne h = tt
  Fresh-put (e ∷ es) m p v ne h = (
    λ q g. get-put_ne Prefix-discrete p q v m (λ s. ne.0 (g ∙ ap some (sym s))) ∙ h.0 q g,
    Fresh-put es m p v ne.1 h.1,
  )

  -- One more entry in the map, or before the scan.
  scan-put :
      (p : Prefix) (bits : ℕ) (v : V) (es : List (SrcEntry V)) (m : List (Prefix × V))
      → IsMasked p
      → p.plen ≡ bits
      → get Prefix-discrete p m ≡ none
      → or_else
          (get_source (prefix_from (some a) bits) (put Prefix-discrete p v m))
          (scan es (some a))
        ≡ or_else
            (get_source (prefix_from (some a) bits) m)
            (if contains p (some a) then some v else scan es (some a))
  unfolding get_source
  scan-put p bits v es m w len new = elim (Bool-cases (contains p (some a))) [
    | inl c ↦
        let e : prefix_from (some a) bits ≡ some p =
          ap (prefix_from (some a)) (sym len) ∙ contains-prefix_from p a w z c in
        rw (c, e, new, get-put_self Prefix-discrete p v m) refl
    | inr out ↦ elim (Option-cases (prefix_from (some a) bits)) [
      | inl e ↦ rw (out, e) refl
      | inr (q, e) ↦
          let ne : p ≢ q = λ f. false≢true (
            sym out
            ∙ prefix_from-contains p a w z (ap (prefix_from (some a)) len ∙ e ∙ ap some (sym f))) in
          rw (out, e, get-put_ne Prefix-discrete p q v m ne) refl
    ]
  ]

  -- A run in the map and the entries after it answer as the entries did.
  abbrev IsRun : List (SrcEntry V) → ℕ → List (Prefix × V) → Type 0
  IsRun es bits m =
      let (m', rest) = take_run bits es m in
      or_else (get_source (prefix_from (some a) bits) m') (scan rest (some a))
      ≡ or_else (get_source (prefix_from (some a) bits) m) (scan es (some a))

  IsRun-cons :
      (s : Option Prefix) (v : V) (es : List (SrcEntry V)) (bits : ℕ) (m : List (Prefix × V))
      → let e : SrcEntry V = record { src = s; value = v } in
        IsCanonical (e ∷ es)
        → Fresh (e ∷ es) m
        → ((m' : List (Prefix × V)) → Fresh es m' → IsRun es bits m')
        → IsRun (e ∷ es) bits m
  unfolding take_run scan
  IsRun-cons none v es bits m w h next = refl
  IsRun-cons (some p) v es bits m w h next = elim (Bool-cases (p.plen == bits)) [
    | inr other ↦ rw other refl
    | inl same ↦ rw same (
        next (put Prefix-discrete p v m) (Fresh-put es m p v w.1 h.1)
        ∙ scan-put p bits v es m w.0 ((==_iff _ _).0 same) (h.0 p refl))
  ]

  IsRun-nil : (bits : ℕ) (m : List (Prefix × V)) → IsRun [] bits m
  unfolding take_run
  IsRun-nil bits m = refl

  IsRun_lem :
      (es : List (SrcEntry V)) (bits : ℕ) (m : List (Prefix × V))
      → IsCanonical es
      → Fresh es m
      → IsRun es bits m
  IsRun_lem [] bits m w h = IsRun-nil bits m
  IsRun_lem (e ∷ es) bits m w h =
      IsRun-cons e.src e.value es bits m w h (λ m' fresh. IsRun_lem es bits m' w.2 fresh)

module _ {V : Type 0} where
  abbrev IsRest : List (SrcEntry V) → ℕ → List (Prefix × V) → Type 0
  IsRest es bits m =
      IsCanonical (take_run bits es m).1 × (length (take_run bits es m).1 ≤ length es)

  IsRest-cons :
      (s : Option Prefix) (v : V) (es : List (SrcEntry V)) (bits : ℕ) (m : List (Prefix × V))
      → let e : SrcEntry V = record { src = s; value = v } in
        IsCanonical (e ∷ es)
        → ((m' : List (Prefix × V)) → IsRest es bits m')
        → IsRest (e ∷ es) bits m
  unfolding take_run
  IsRest-cons none v es bits m w next = (w, omega arith)
  IsRest-cons (some p) v es bits m w next = elim (Bool-cases (p.plen == bits)) [
    | inr other ↦ rw other (w, omega arith)
    | inl same ↦
        let (canonical, le) = next (put Prefix-discrete p v m) in
        rw same (canonical, omega (arith, le))
  ]

  take_run-IsRest :
      (es : List (SrcEntry V)) (bits : ℕ) (m : List (Prefix × V))
      → IsCanonical es
      → IsRest es bits m
  unfolding take_run
  take_run-IsRest [] bits m w = (tt, omega arith)
  take_run-IsRest (e ∷ es) bits m w =
      IsRest-cons e.src e.value es bits m w (λ m'. take_run-IsRest es bits m' w.2)

  -- The run of the first entry takes that entry.
  take_run-shorter :
      (p : Prefix) (v : V) (es : List (SrcEntry V))
      → IsCanonical es
      → length (take_run p.plen (record { src = some p; value = v } ∷ es) []).1 ≤ length es
  unfolding take_run
  take_run-shorter p v es w =
      rw ((==_iff p.plen p.plen).1 refl)
        ((take_run-IsRest es p.plen (put Prefix-discrete p v []) w).1)

get_source-nil : {V : Type 0} (s : Option Prefix) → get_source {V = V} s [] ≡ none
unfolding get_source get
get_source-nil none = refl
get_source-nil (some p) = refl

module _ {V : Type 0} (a : Addr) (z : a.zoned ≡ false) where
  abbrev IsIndexed : ℕ → List (SrcEntry V) → Type 0
  IsIndexed fuel es = probe (group_srcs fuel es) (some a) ≡ scan es (some a)

  Fresh-nil : (es : List (SrcEntry V)) → Fresh a z es []
  unfolding get
  Fresh-nil [] = tt
  Fresh-nil (e ∷ es) = (λ p h. refl, Fresh-nil es)

  IsIndexed-cons :
      (s : Option Prefix) (v : V) (es : List (SrcEntry V)) (fuel : ℕ)
      → let e : SrcEntry V = record { src = s; value = v } in
        IsCanonical (e ∷ es)
        → length es ≤ fuel
        → ((rest : List (SrcEntry V)) → length rest ≤ fuel → IsCanonical rest → IsIndexed fuel rest)
        → IsIndexed (suc fuel) (e ∷ es)
  unfolding group_srcs probe scan
  IsIndexed-cons none v es fuel w le next = next es le w.2
  IsIndexed-cons (some p) v es fuel w le next =
      let e : SrcEntry V = record { src = some p; value = v } in
      let rest = (take_run p.plen (e ∷ es) []).1 in
      let shorter = take_run-shorter p v es w.2 in
      ap (λ o. or_else (get_source (prefix_from (some a) p.plen) (take_run p.plen (e ∷ es) []).0) o)
        (next rest (omega (arith, shorter, le)) (take_run-IsRest (e ∷ es) p.plen [] w).0)
      ∙ IsRun_lem a z (e ∷ es) p.plen [] w (Fresh-nil (e ∷ es))
      ∙ ap (λ o. or_else o (scan (e ∷ es) (some a))) (get_source-nil (prefix_from (some a) p.plen))

  IsIndexed-nil : (fuel : ℕ) → IsIndexed fuel []
  unfolding group_srcs probe scan
  IsIndexed-nil zero = refl
  IsIndexed-nil (suc fuel) = refl

  -- Any fuel that the list does not exceed is enough.
  pub probe-scan :
      (fuel : ℕ) (es : List (SrcEntry V)) → length es ≤ fuel → IsCanonical es → IsIndexed fuel es
  probe-scan fuel [] le w = IsIndexed-nil fuel
  probe-scan zero (e ∷ es) le w = absurd (omega arith)
  probe-scan (suc fuel) (e ∷ es) le w =
      IsIndexed-cons e.src e.value es fuel w (omega arith) (λ rest h k. probe-scan fuel rest h k)

-- No address has a zone, the address that is not valid included.
abbrev pub IsUnzoned : Option Addr → Type 0
IsUnzoned none = Unit
IsUnzoned (some a) = a.zoned ≡ false

module _ {V : Type 0} where
  probe-none : (gs : List (SrcIndex V)) → probe gs none ≡ none
  unfolding probe prefix_from get_source
  probe-none [] = refl
  probe-none (g ∷ gs) = probe-none gs

  pub scan-none : (es : List (SrcEntry V)) → scan es none ≡ none
  unfolding scan contains
  scan-none [] = refl
  scan-none (e ∷ es) = ground (arith, scan-none es)

  indexed :
      (src : Option Addr) (es : List (SrcEntry V))
      → IsUnzoned src
      → IsCanonical es
      → probe (group_srcs (length es) es) src ≡ scan es src
  indexed none es z w = probe-none (group_srcs (length es) es) ∙ sym (scan-none es)
  indexed (some a) es z w = probe-scan a z (length es) es (le_refl (length es)) w

  -- For a source without a zone and a list whose sources are masked and distinct, a node answers
  -- what the ordered scan and then the match-all entry answer, whether it has an index or not.
  pub node_match-scan :
      (src : Option Addr) (es : List (SrcEntry V)) (any_src : Option V)
      → IsUnzoned src
      → IsCanonical es
      → node_match es any_src src ≡ or_else (scan es src) any_src
  unfolding node_match index_srcs
  node_match-scan src es any_src z w =
      let (specific, runs) = count_runs none es in
      elim (Bool-cases (runs == 0 || ltb specific (runs * index_threshold))) [
        | inl few ↦ rw few refl
        | inr many ↦ rw (many, indexed src es z w) refl
      ]
