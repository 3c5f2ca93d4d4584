-- ===== src/Babel/Prefixes/RoundTrip.antt =====
-- The Source Prefix sub-TLV there and back, internal/babel/update.go.
use mathlib.Core.Bool.{xor}
use ranet_lite.Prelude.{ℕ, suc, ◌*◌, ◌<◌, ◌≤◌, ◌≡◌, refl, ap, arith, ◌⊎◌, inl, inr}
use ranet_lite.Prelude.{true, false, List, [], ◌∷◌, ◌++◌, length, take, Option, some}
use ranet_lite.Prelude.{ltb, ◌==◌, ok}
use ranet_lite.Prelude.{length-take, take-take}
use ranet_lite.Prelude.Bytes.{u8}
use ranet_lite.Babel.Tlv.{
  Tlv, decode_loop, decode_tlv_frames, decode_sub_tlvs, encode_sub_tlvs, keep,
}
use ranet_lite.Babel.Tlv.RoundTrip.{loop_step}
use ranet_lite.Babel.Messages.{ae_ipv4, ae_ipv6, ae_ipv4_via_ipv6}
use ranet_lite.Babel.Prefixes.{IpPrefix, address_size, prefix_byte_len, is_ae_4, pad, masked}
use ranet_lite.Babel.Prefixes.Clean.{IsClean, masked-IsClean, pad-IsClean}
use ranet_lite.Babel.Prefixes.{sub_tlv_source_prefix, encode_source_prefix, decode_source_prefix}

-- An encoding that carries a prefix.
abbrev pub IsAe : ℕ → Type 0
IsAe ae = (ae ≡ ae_ipv4) ⊎ ((ae ≡ ae_ipv6) ⊎ (ae ≡ ae_ipv4_via_ipv6))

abbrev pub width : ℕ → ℕ
width ae = 8 * address_size ae

-- A source prefix of the family of its encoding, with a length, and no bit set past it.
pub record IsSource (ae : ℕ) (p : IpPrefix) : Type 0 where
  pub size : length p.octets ≡ address_size ae
  pub pos : 0 < p.bits
  pub short : p.bits ≤ width ae
  pub clean : IsClean p.octets p.bits

-- What arrives is what `masked` leaves of it.
canonical :
    (ae : ℕ) (p : IpPrefix)
    → IsSource ae p
    → masked (pad (address_size ae) (take (prefix_byte_len p.bits) p.octets)) p.bits ≡ p.octets
canonical ae p w =
    rw (← w.size, pad-IsClean p.octets p.bits w.clean) (masked-IsClean p.octets p.bits w.clean)

-- The two widths of an encoding.
pub ae_cases :
    (ae : ℕ)
    → IsAe ae
    → ((is_ae_4 ae ≡ true) × (address_size ae ≡ 4))
      ⊎ ((is_ae_4 ae ≡ false) × (address_size ae ≡ 16) × (ae ≡ ae_ipv6))
ae_cases ae (inl e) = inl (rw e (refl, refl))
ae_cases ae (inr (inl e)) = inr (rw e refl, rw e refl, e)
ae_cases ae (inr (inr e)) = inl (rw e (refl, refl))

pub size_le : (ae : ℕ) → IsAe ae → address_size ae ≤ 16
size_le ae h = elim (ae_cases ae h) [ inl (v4, e) ↦ omega arith | inr (v6, e, six) ↦ omega arith ]

abbrev pub source_body : IpPrefix → List ℕ
source_body p = u8 p.bits ∷ take (prefix_byte_len p.bits) p.octets

abbrev pub source_tlv : IpPrefix → Tlv
source_tlv p = record { kind = sub_tlv_source_prefix; body = source_body p }

pub encode_source :
    (ae : ℕ) (p : IpPrefix)
    → IsAe ae
    → IsSource ae p
    → encode_source_prefix ae p ≡ some (encode_sub_tlvs (source_tlv p ∷ []))
unfolding encode_source_prefix xor
encode_source ae p h w = elim (ae_cases ae h) [
  | inl (v4, size) ↦
      let four : (length p.octets == 4) ≡ true = ground (arith, w.size, size) in
      let some_bits : (p.bits == 0) ≡ false = ground (arith, w.pos) in rw (some_bits, four, v4) refl
  | inr (v6, size, e) ↦
      let four : (length p.octets == 4) ≡ false = ground (arith, w.size, size) in
      let some_bits : (p.bits == 0) ≡ false = ground (arith, w.pos) in rw (some_bits, four, v6) refl
]

pub decode_source :
    (ae : ℕ) (p : IpPrefix)
    → IsAe ae
    → IsSource ae p
    → decode_source_prefix ae (source_body p) ≡ some p
unfolding decode_source_prefix
decode_source ae p h w = elim (ae_cases ae h) [
  | inl (v4, size) ↦
      let short : p.bits ≤ 32 = omega (arith, w.short, size) in
      let (fits, pos, enough) = facts (omega (arith, short)) in
      let within : ltb 32 p.bits ≡ false = ground arith in
      rw (fits, pos, enough, v4, within, take-take (prefix_byte_len p.bits) p.octets) (again 4 size)
  | inr (v6, size, e) ↦
      let short : p.bits ≤ 128 = omega (arith, w.short, size) in
      let (fits, pos, enough) = facts short in
      let within : ltb 128 p.bits ≡ false = ground arith in
      let six : (ae == ae_ipv6) ≡ true = ground arith in
      rw (fits, pos, enough, v6, six, within, take-take (prefix_byte_len p.bits) p.octets)
        (again 16 size)
]
  where
    facts :
        p.bits ≤ 128
        → (u8 p.bits ≡ p.bits)
          × ((p.bits == 0) ≡ false)
          × (ltb (length (take (prefix_byte_len p.bits) p.octets)) (prefix_byte_len p.bits) ≡ false)
    facts short = (
      omega arith,
      ground (arith, w.pos),
      ground (arith, length-take (prefix_byte_len p.bits) p.octets, w.size, w.short, bytes_fit),
    )
      where
        bytes_fit : prefix_byte_len p.bits ≤ length p.octets
        bytes_fit = omega (arith, w.size, w.short)

    again :
        (size : ℕ)
        → address_size ae ≡ size
        → ◌≡◌ {A = Option IpPrefix}
            (some (record {
              octets = masked (pad size (take (prefix_byte_len p.bits) p.octets)) p.bits;
              bits = p.bits;
            }))
            (some p)
    again size e = rw⁻¹ e (
        ap (λ o. let q : IpPrefix = record { octets = o; bits = p.bits } in some q)
          (canonical ae p w))

pub decode-encode_sub_tlv :
    (body : List ℕ)
    → length body < 256
    → let s : Tlv = record { kind = sub_tlv_source_prefix; body = body } in
      decode_sub_tlvs (encode_sub_tlvs (s ∷ [])) ≡ ok (s ∷ [])
unfolding decode_sub_tlvs encode_sub_tlvs decode_tlv_frames decode_loop keep
decode-encode_sub_tlv body h =
    let fits : u8 (length body) ≡ length body = omega arith in
    rw fits (loop_step (suc (length (body ++ []))) sub_tlv_source_prefix body [] [] (omega arith))

pub no_sub_tlvs : decode_sub_tlvs [] ≡ ok []
unfolding decode_sub_tlvs decode_tlv_frames decode_loop
no_sub_tlvs = refl
