-- ===== src/Sadr/Sources/Values.antt =====
-- A source list of sadr/table.go as a map: what `Set`, `Remove` and `RemoveValue` do to each source.
use ranet_lite.Prelude.{◌≡◌, ◌≢◌, refl, sym, ◌∙◌, inl, inr}
use ranet_lite.Prelude.{Option, none, some, true, false, List, [], ◌∷◌}
use ranet_lite.Prelude.{ltb, if◌then◌else◌, Bool-cases}
use mathlib.Core.Bool.{false≢true}
use mathlib.Core.Logic.{ite, if_pos, if_neg}
use ranet_lite.Prelude.Order.{All}
use ranet_lite.Babel.Keys.{Prefix}
use ranet_lite.Sadr.Sources.{SrcEntry, bits_plus_one, same_source, has_source, replace_source}
use ranet_lite.Sadr.Sources.{insert_source, set_source, remove_source, without_value}
use ranet_lite.Sadr.Sources.Canonical.{IsCanonical, value_of, same_source_iff}

same_source_trans :
    (r s t : Option Prefix) → same_source r s ≡ true → same_source r t ≡ same_source s t
same_source_trans r s t h = rw ((same_source_iff r s).0 h) refl

same_source-apart :
    (r s t : Option Prefix)
    → same_source r s ≡ false
    → same_source r t ≡ true
    → same_source s t ≡ false
same_source-apart r s t h k = elim (Bool-cases (same_source s t)) [
  | inr other ↦ other
  | inl same ↦
      let e : r ≡ s = (same_source_iff r t).0 k ∙ sym ((same_source_iff s t).0 same) in
      absurd (false≢true (sym h ∙ (same_source_iff r s).1 e))
]

module _ {V : Type 0} where
  -- A map with the value of one source changed.
  abbrev pub update_source :
      Option Prefix → Option V → (Option Prefix → Option V) → Option Prefix → Option V
  update_source s o m t = if same_source s t then o else m t

  -- A map without one value.
  abbrev pub drop_value : Discrete V → V → Option V → Option V
  drop_value dec v none = none
  drop_value dec v (some w) = ite (dec w v) none (some w)

  abbrev cons : Option Prefix → V → List (SrcEntry V) → List (SrcEntry V)
  cons q v es = record { src = q; value = v } ∷ es

  -- The entry of the source itself is the one that changes.
  value_of-cons_same :
      (q s : Option Prefix) (v w : V) (es : List (SrcEntry V)) (t : Option Prefix)
      → same_source q s ≡ true
      → value_of t (cons q v es) ≡ update_source s (some v) (λ r. value_of r (cons q w es)) t
  unfolding value_of
  value_of-cons_same q s v w es t h =
      rw (same_source_trans q s t h)
        (elim (Bool-cases (same_source s t)) [ inl k ↦ rw k refl | inr k ↦ rw k refl ])

  -- An entry of another source stays in front of the change.
  value_of-cons_other :
      (e : SrcEntry V) (s : Option Prefix) (o : Option V) (es es' : List (SrcEntry V))
      (t : Option Prefix)
      → same_source e.src s ≡ false
      → value_of t es' ≡ update_source s o (λ r. value_of r es) t
      → value_of t (e ∷ es') ≡ update_source s o (λ r. value_of r (e ∷ es)) t
  unfolding value_of
  value_of-cons_other e s o es es' t h next = elim (Bool-cases (same_source e.src t)) [
    | inl k ↦ rw (k, same_source-apart e.src s t h k) refl
    | inr k ↦ rw (k, next) refl
  ]

  value_of-replace_source :
      (s : Option Prefix) (v : V) (es : List (SrcEntry V)) (t : Option Prefix)
      → has_source s es ≡ true
      → value_of t (replace_source s v es) ≡ update_source s (some v) (λ q. value_of q es) t
  unfolding replace_source has_source
  value_of-replace_source s v [] t h = absurd (false≢true h)
  value_of-replace_source s v (e ∷ es) t h = elim (Bool-cases (same_source e.src s)) [
    | inl same ↦ rw same (value_of-cons_same e.src s v e.value es t same)
    | inr other ↦ rw other (
        value_of-cons_other e s (some v) es (replace_source s v es) t other
          (value_of-replace_source s v es t (rw other at h)))
  ]

  value_of-insert_source :
      (s : Option Prefix) (v : V) (es : List (SrcEntry V)) (t : Option Prefix)
      → has_source s es ≡ false
      → value_of t (insert_source s v es) ≡ update_source s (some v) (λ q. value_of q es) t
  unfolding insert_source has_source value_of
  value_of-insert_source s v [] t h = refl
  value_of-insert_source s v (e ∷ es) t h = elim (Bool-cases (same_source e.src s)) [
    | inl same ↦ absurd (false≢true (sym (rw same at h)))
    | inr other ↦ elim (Bool-cases (ltb (bits_plus_one s) (bits_plus_one e.src))) [
      | inl longer ↦ rw longer (
          value_of-cons_other e s (some v) es (insert_source s v es) t other
            (value_of-insert_source s v es t (rw other at h)))
      | inr shorter ↦ rw shorter refl
    ]
  ]

  -- `Set` changes the value of its source alone.
  pub value_of-set_source :
      (s : Option Prefix) (v : V) (es : List (SrcEntry V)) (t : Option Prefix)
      → value_of t (set_source s v es) ≡ update_source s (some v) (λ q. value_of q es) t
  unfolding set_source
  value_of-set_source s v es t = elim (Bool-cases (has_source s es)) [
    | inl old ↦ rw old (value_of-replace_source s v es t old)
    | inr new ↦ rw new (value_of-insert_source s v es t new)
  ]

  value_of-absent :
      (s : Option Prefix) (es : List (SrcEntry V))
      → All (λ (f : SrcEntry V). f.src ≢ s) es
      → value_of s es ≡ none
  unfolding value_of
  value_of-absent s [] h = refl
  value_of-absent s (e ∷ es) h = elim (Bool-cases (same_source e.src s)) [
    | inl same ↦ absurd (h.0 ((same_source_iff e.src s).0 same))
    | inr other ↦ rw other (value_of-absent s es h.1)
  ]

  value_of-remove_nil :
      (s t : Option Prefix)
      → value_of {V = V} t [] ≡ update_source s none (λ q. value_of {V = V} q []) t
  unfolding value_of
  value_of-remove_nil s t = elim (Bool-cases (same_source s t)) [
    | inl k ↦ rw k refl
    | inr k ↦ rw k refl
  ]

  head_removed :
      (e : SrcEntry V) (s : Option Prefix) (es : List (SrcEntry V)) (t : Option Prefix)
      → same_source e.src s ≡ true
      → All (λ (f : SrcEntry V). f.src ≢ e.src) es
      → value_of t es ≡ update_source s none (λ q. value_of q (e ∷ es)) t
  unfolding value_of
  head_removed e s es t h out = elim (Bool-cases (same_source e.src t)) [
    | inl k ↦
        let r = sym (same_source_trans e.src s t h) ∙ k in
        let f : e.src ≡ t = (same_source_iff e.src t).0 k in
        rw r (rw⁻¹ f (value_of-absent e.src es out))
    | inr k ↦ let r = sym (same_source_trans e.src s t h) ∙ k in rw (r, k) refl
  ]

  -- `Remove` takes its source alone.
  pub value_of-remove_source :
      (s : Option Prefix) (es : List (SrcEntry V)) (t : Option Prefix)
      → IsCanonical es
      → value_of t (remove_source s es) ≡ update_source s none (λ q. value_of q es) t
  unfolding remove_source
  value_of-remove_source s [] t w = value_of-remove_nil s t
  value_of-remove_source s (e ∷ es) t w = elim (Bool-cases (same_source e.src s)) [
    | inr other ↦ rw other (
        value_of-cons_other e s none es (remove_source s es) t other
          (value_of-remove_source s es t w.2))
    | inl same ↦ rw same (head_removed e s es t same w.1)
  ]

  -- `RemoveValue` takes the sources that have the value.
  pub value_of-without_value :
      (dec : Discrete V) (v : V) (es : List (SrcEntry V)) (t : Option Prefix)
      → IsCanonical es
      → value_of t (without_value dec v es) ≡ drop_value dec v (value_of t es)
  unfolding without_value value_of
  value_of-without_value dec v [] t w = refl
  value_of-without_value dec v (e ∷ es) t w =
      let rest = value_of-without_value dec v es t w.2 in
      let kept = without_value dec v es in
      elim (dec e.value v) [
        | yes held ↦
            rw (if_pos (dec e.value v) held kept (e ∷ kept), rest)
              (elim (Bool-cases (same_source e.src t)) [
                | inr k ↦ rw k refl
                | inl k ↦
                    let f : e.src ≡ t = (same_source_iff e.src t).0 k in
                    rw (k, rw f at (value_of-absent e.src es w.1))
                      (sym (if_pos (dec e.value v) held none (some e.value)))
              ])
        | no other ↦
            rw (if_neg (dec e.value v) other kept (e ∷ kept))
              (elim (Bool-cases (same_source e.src t)) [
                | inl k ↦ rw k (sym (if_neg (dec e.value v) other none (some e.value)))
                | inr k ↦ rw k rest
              ])
      ]
