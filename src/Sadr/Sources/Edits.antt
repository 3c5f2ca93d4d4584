-- ===== src/Sadr/Sources/Edits.antt =====
-- The edits of a source list, sadr/table.go: they keep its order, and change one source of the map
-- that it is, or drop one value from it.
use ranet_lite.Prelude.{ℕ, ◌≤◌, ◌≡◌, ◌≢◌, sym, ◌∙◌, inl, inr, arith}
use ranet_lite.Prelude.{Option, false, List, [], ◌∷◌}
use ranet_lite.Prelude.{ltb, Bool-cases, ltb→lt}
use mathlib.Core.Bool.{false≢true}
use mathlib.Core.Logic.{if_pos, if_neg}
use ranet_lite.Prelude.Order.{All}
use ranet_lite.Babel.Keys.{Prefix}
use ranet_lite.Sadr.Sources.{SrcEntry, bits_plus_one, same_source, has_source, replace_source}
use ranet_lite.Sadr.Sources.{insert_source, set_source, remove_source, without_value}
use ranet_lite.Sadr.Sources.Canonical.{IsSource, IsCanonical, IsSorted, same_source_iff}

module _ {V : Type 0} where
  -- The order of every list that the table keeps.
  abbrev pub IsOrdered : List (SrcEntry V) → Type 0
  IsOrdered es = IsCanonical es × IsSorted es

  -- Edits that keep or drop sources keep what holds of all of them.
  module _ {ℓ} (Q : Option Prefix → Type ℓ) where
    abbrev AllSources : List (SrcEntry V) → Type ℓ
    AllSources es = All (λ (f : SrcEntry V). Q f.src) es

    AllSources-replace :
        (s : Option Prefix) (v : V) (es : List (SrcEntry V))
        → AllSources es
        → AllSources (replace_source s v es)
    unfolding replace_source
    AllSources-replace s v [] h = tt
    AllSources-replace s v (e ∷ es) h = elim (Bool-cases (same_source e.src s)) [
      | inl same ↦ rw same h
      | inr other ↦ rw other (h.0, AllSources-replace s v es h.1)
    ]

    AllSources-insert :
        (s : Option Prefix) (v : V) (es : List (SrcEntry V))
        → Q s
        → AllSources es
        → AllSources (insert_source s v es)
    unfolding insert_source
    AllSources-insert s v [] q h = (q, tt)
    AllSources-insert s v (e ∷ es) q h =
        elim (Bool-cases (ltb (bits_plus_one s) (bits_plus_one e.src))) [
          | inl longer ↦ rw longer (h.0, AllSources-insert s v es q h.1)
          | inr shorter ↦ rw shorter (q, h)
        ]

    AllSources-remove :
        (s : Option Prefix) (es : List (SrcEntry V))
        → AllSources es
        → AllSources (remove_source s es)
    unfolding remove_source
    AllSources-remove s [] h = tt
    AllSources-remove s (e ∷ es) h = elim (Bool-cases (same_source e.src s)) [
      | inl same ↦ rw same h.1
      | inr other ↦ rw other (h.0, AllSources-remove s es h.1)
    ]

    AllSources-without :
        (dec : Discrete V) (v : V) (es : List (SrcEntry V))
        → AllSources es
        → AllSources (without_value dec v es)
    unfolding without_value
    AllSources-without dec v [] h = tt
    AllSources-without dec v (e ∷ es) h = elim (dec e.value v) [
      | yes same ↦
          rw (if_pos (dec e.value v) same (without_value dec v es) (e ∷ without_value dec v es))
            (AllSources-without dec v es h.1)
      | no other ↦
          rw (if_neg (dec e.value v) other (without_value dec v es) (e ∷ without_value dec v es))
            (h.0, AllSources-without dec v es h.1)
    ]

  replace_source-IsOrdered :
      (s : Option Prefix) (v : V) (es : List (SrcEntry V))
      → IsOrdered es
      → IsOrdered (replace_source s v es)
  unfolding replace_source
  replace_source-IsOrdered s v [] w = w
  replace_source-IsOrdered s v (e ∷ es) w = elim (Bool-cases (same_source e.src s)) [
    | inl same ↦ rw same w
    | inr other ↦
        let (canonical, sorted) = replace_source-IsOrdered s v es (w.0.2, w.1.1) in
        rw other (
          (w.0.0, AllSources-replace (λ q. q ≢ e.src) s v es w.0.1, canonical),
          (AllSources-replace (λ q. bits_plus_one q ≤ bits_plus_one e.src) s v es w.1.0, sorted),
        )
  ]

  has_source-absent :
      (s : Option Prefix) (es : List (SrcEntry V))
      → has_source s es ≡ false
      → All (λ (f : SrcEntry V). f.src ≢ s) es
  unfolding has_source
  has_source-absent s [] h = tt
  has_source-absent s (e ∷ es) h = elim (Bool-cases (same_source e.src s)) [
    | inl same ↦ absurd (false≢true (sym (rw same at h)))
    | inr other ↦ (
      λ f. false≢true (sym other ∙ (same_source_iff e.src s).1 f),
      has_source-absent s es (rw other at h),
    )
  ]

  All-shorter :
      (es : List (SrcEntry V)) (k l : ℕ)
      → k ≤ l
      → All (λ (f : SrcEntry V). bits_plus_one f.src ≤ k) es
      → All (λ (f : SrcEntry V). bits_plus_one f.src ≤ l) es
  All-shorter [] k l le h = tt
  All-shorter (f ∷ es) k l le h = (omega (arith, le, h.0), All-shorter es k l le h.1)

  insert_source-IsOrdered :
      (s : Option Prefix) (v : V) (es : List (SrcEntry V))
      → IsSource s
      → All (λ (f : SrcEntry V). f.src ≢ s) es
      → IsOrdered es
      → IsOrdered (insert_source s v es)
  unfolding insert_source
  insert_source-IsOrdered s v [] q new w = ((q, tt, tt), (tt, tt))
  insert_source-IsOrdered s v (e ∷ es) q new w =
      elim (Bool-cases (ltb (bits_plus_one s) (bits_plus_one e.src))) [
        | inl longer ↦
            let (canonical, sorted) = insert_source-IsOrdered s v es q new.1 (w.0.2, w.1.1) in
            let lt = ltb→lt _ _ longer in
            rw longer (
              (
                w.0.0,
                AllSources-insert (λ p. p ≢ e.src) s v es (λ f. new.0 (sym f)) w.0.1,
                canonical,
              ),
              (
                AllSources-insert (λ p. bits_plus_one p ≤ bits_plus_one e.src) s v es
                    (omega (arith, lt)) w.1.0,
                sorted,
              ),
            )
        | inr shorter ↦
            let le : bits_plus_one e.src ≤ bits_plus_one s = ground arith in
            rw shorter (
              (q, new, w.0),
              ((le, All-shorter es (bits_plus_one e.src) (bits_plus_one s) le w.1.0), w.1),
            )
      ]

  pub set_source-IsOrdered :
      (s : Option Prefix) (v : V) (es : List (SrcEntry V))
      → IsSource s
      → IsOrdered es
      → IsOrdered (set_source s v es)
  unfolding set_source
  set_source-IsOrdered s v es q w = elim (Bool-cases (has_source s es)) [
    | inl old ↦ rw old (replace_source-IsOrdered s v es w)
    | inr new ↦ rw new (insert_source-IsOrdered s v es q (has_source-absent s es new) w)
  ]

  pub remove_source-IsOrdered :
      (s : Option Prefix) (es : List (SrcEntry V)) → IsOrdered es → IsOrdered (remove_source s es)
  unfolding remove_source
  remove_source-IsOrdered s [] w = w
  remove_source-IsOrdered s (e ∷ es) w = elim (Bool-cases (same_source e.src s)) [
    | inl same ↦ rw same (w.0.2, w.1.1)
    | inr other ↦
        let (canonical, sorted) = remove_source-IsOrdered s es (w.0.2, w.1.1) in
        rw other (
          (w.0.0, AllSources-remove (λ q. q ≢ e.src) s es w.0.1, canonical),
          (AllSources-remove (λ q. bits_plus_one q ≤ bits_plus_one e.src) s es w.1.0, sorted),
        )
  ]

  pub without_value-IsOrdered :
      (dec : Discrete V) (v : V) (es : List (SrcEntry V))
      → IsOrdered es
      → IsOrdered (without_value dec v es)
  unfolding without_value
  without_value-IsOrdered dec v [] w = w
  without_value-IsOrdered dec v (e ∷ es) w =
      let (canonical, sorted) = without_value-IsOrdered dec v es (w.0.2, w.1.1) in
      elim (dec e.value v) [
        | yes same ↦
            rw (if_pos (dec e.value v) same (without_value dec v es) (e ∷ without_value dec v es))
              (canonical, sorted)
        | no other ↦
            rw (if_neg (dec e.value v) other (without_value dec v es) (e ∷ without_value dec v es))
              (
                (w.0.0, AllSources-without (λ q. q ≢ e.src) dec v es w.0.1, canonical),
                (
                  AllSources-without (λ q. bits_plus_one q ≤ bits_plus_one e.src) dec v es w.1.0,
                  sorted,
                ),
              )
      ]
