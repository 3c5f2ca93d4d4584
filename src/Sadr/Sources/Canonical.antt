-- ===== src/Sadr/Sources/Canonical.antt =====
-- The order that the source lists of sadr/table.go have, and the map that such a list is.
use ranet_lite.Prelude.{ℕ, ◌-◌, ◌*◌, ◌/◌, ◌^◌, ◌≤◌, ◌≡◌, ◌≢◌, ◌↔◌, refl, sym, ap, ◌∙◌}
use ranet_lite.Prelude.{inl, inr, arith, Option, none, some, Bool, true, false, not, List, [], ◌∷◌}
use ranet_lite.Prelude.{leb, if◌then◌else◌, Bool-cases, and_iff, ==_iff}
use mathlib.Core.Bool.{xor, false≢true}
use mathlib.Core.Logic.{if_pos, if_neg}
use mathlib.Core.Option.{some-injective}
use native.Mathlib.Nat.{mul-div_cancel, one-le-pow}
use ranet_lite.Prelude.Order.{All}
use ranet_lite.Babel.Keys.{Prefix, Prefix-discrete}
use ranet_lite.Sadr.Sources.{Addr, SrcEntry, bit_len, mask, contains, prefix_from, same_source}
use ranet_lite.Sadr.Sources.{bits_plus_one, match_all_source}

-- A source as `Masked` leaves it.
pub record IsMasked (p : Prefix) : Type 0 where
  pub short : p.plen ≤ bit_len p.is_4
  pub clear : mask p.is_4 p.plen p.addr ≡ p.addr

abbrev pub IsSource : Option Prefix → Type 0
IsSource none = Unit
IsSource (some p) = IsMasked p

module _ {V : Type 0} where
  -- Every source is canonical and stands in the list once.
  abbrev pub IsCanonical : List (SrcEntry V) → Type 0
  IsCanonical [] = Unit
  IsCanonical (e ∷ es) =
      IsSource e.src × All (λ (f : SrcEntry V). f.src ≢ e.src) es × IsCanonical es

  -- The longest sources come first.
  abbrev pub IsSorted : List (SrcEntry V) → Type 0
  IsSorted [] = Unit
  IsSorted (e ∷ es) =
      All (λ (f : SrcEntry V). bits_plus_one f.src ≤ bits_plus_one e.src) es × IsSorted es

  -- The value that a list holds for a source.
  unfoldable pub value_of : Option Prefix → List (SrcEntry V) → Option V
  value_of s [] = none
  value_of s (e ∷ es) = if same_source e.src s then some e.value else value_of s es

  pub match_all_source-value_of : (es : List (SrcEntry V)) → match_all_source es ≡ value_of none es
  unfolding match_all_source value_of same_source
  match_all_source-value_of [] = refl
  match_all_source-value_of (e ∷ es) = ground (arith, match_all_source-value_of es)

pub none_ne_some : (q : Prefix) → none ≢ some q
none_ne_some q e = cc

pub same_source_iff : (s t : Option Prefix) → (same_source s t ≡ true) ↔ (s ≡ t)
unfolding same_source
same_source_iff none none = (λ e. refl, λ e. refl)
same_source_iff none (some q) = (λ e. absurd (false≢true e), λ e. absurd (none_ne_some q e))
same_source_iff (some p) none = (λ e. absurd (false≢true e), λ e. absurd (none_ne_some p (sym e)))
same_source_iff (some p) (some q) = elim (Prefix-discrete p q) [
  | yes e ↦ (λ h. ap some e, λ h. if_pos (Prefix-discrete p q) e true false)
  | no ne ↦ (
    λ h. absurd (false≢true (sym (if_neg (Prefix-discrete p q) ne true false) ∙ h)),
    λ h. absurd (ne (some-injective p q h)),
  )
]

same_family : (x y : Bool) → (not (xor x y) ≡ true) ↔ (y ≡ x)
unfolding xor
same_family true true = (λ h. refl, λ h. refl)
same_family true false = (λ h. absurd (false≢true h), λ h. absurd (false≢true h))
same_family false true = (λ h. absurd (false≢true h), λ h. absurd (false≢true (sym h)))
same_family false false = (λ h. refl, λ h. refl)

prefix_path :
    (is_4 : Bool) (addr : ℕ) (p : Prefix)
    → is_4 ≡ p.is_4
    → addr ≡ p.addr
    → let q : Prefix = record { is_4 = is_4; addr = addr; plen = p.plen } in q ≡ p
prefix_path is_4 addr p e f = rw (e, f) refl

-- An address without a zone is in a canonical prefix when the prefix is what it masks to.
module _ (p : Prefix) (a : Addr) (w : IsMasked p) (z : a.zoned ≡ false) where
  abbrev host_bits : Bool → ℕ
  host_bits is_4 = bit_len is_4 - p.plen

  pub contains-prefix_from : contains p (some a) ≡ true → prefix_from (some a) p.plen ≡ some p
  unfolding contains prefix_from
  contains-prefix_from h =
      let (family, same) = (and_iff _ _).0 ((and_iff _ _).0 h).1 in
      let e : a.is_4 ≡ p.is_4 = (same_family p.is_4 a.is_4).0 family in
      let fits : leb p.plen (bit_len a.is_4) ≡ true =
        ap (λ f. leb p.plen (bit_len f)) e ∙ ground (arith, w.short) in
      let addr : mask a.is_4 p.plen a.value ≡ p.addr =
        ap (λ f. mask f p.plen a.value) e
        ∙ ap (λ q. q * 2 ^ host_bits p.is_4) (sym ((==_iff _ _).0 same))
        ∙ w.clear in
      rw fits (ap some (prefix_path a.is_4 (mask a.is_4 p.plen a.value) p e addr))

  pub prefix_from-contains : prefix_from (some a) p.plen ≡ some p → contains p (some a) ≡ true
  unfolding contains prefix_from
  prefix_from-contains h = elim (Bool-cases (leb p.plen (bit_len a.is_4))) [
    | inr wide ↦ absurd (none_ne_some p (rw wide at h))
    | inl fits ↦
        let q : Prefix = record {
          is_4 = a.is_4;
          addr = mask a.is_4 p.plen a.value;
          plen = p.plen;
        } in
        let e : q ≡ p = some-injective q p (rw fits at h) in
        let family : a.is_4 ≡ p.is_4 = ap (λ (r : Prefix). r.is_4) e in
        let addr : mask p.is_4 p.plen a.value ≡ p.addr =
          ap (λ f. mask f p.plen a.value) (sym family) ∙ ap (λ (r : Prefix). r.addr) e in
        let same : p.addr / 2 ^ host_bits p.is_4 ≡ a.value / 2 ^ host_bits p.is_4 = rw⁻¹ addr (
          mul-div_cancel (a.value / 2 ^ host_bits p.is_4)
            (one-le-pow (host_bits p.is_4) 2 (omega arith))) in
        rw z ((and_iff _ _).1 ((same_family p.is_4 a.is_4).1 family, (==_iff _ _).1 same))
  ]
