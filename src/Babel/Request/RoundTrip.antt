-- ===== src/Babel/Request/RoundTrip.antt =====
-- Encoding a request and decoding it, internal/babel/request.go.
use mathlib.Core.Bool.{xor}
use mathlib.Core.Logic.{inl, inr}
use ranet_lite.Prelude.{ℕ, ◌*◌, ◌≤◌, ◌<◌, ◌≡◌, ◌≢◌, refl, sym, ap, arith, Bool-cases}
use ranet_lite.Prelude.{Bool, true, false, not, ◌&&◌, Option, none, some}
use ranet_lite.Prelude.{List, [], ◌∷◌, ◌++◌, length, take, ltb, leb, ◌==◌}
use ranet_lite.Prelude.{ok, length-append, length-take, take-append, drop-append, append-nil}
use ranet_lite.Prelude.Bytes.{u8, IsU16, byte_of, be16_bytes}
use ranet_lite.Babel.Tlv.{encode_sub_tlvs}
use ranet_lite.Babel.Messages.{ae_wildcard, ae_ipv6}
use ranet_lite.Babel.Prefixes.{IpPrefix, is_ae_4, prefix_byte_len, pad, masked, address_size}
use ranet_lite.Babel.Prefixes.RoundTrip.{
  IsAe, IsSource, width, ae_cases, size_le, source_body, source_tlv, encode_source, decode_source,
}
use ranet_lite.Babel.Prefixes.RoundTrip.{decode-encode_sub_tlv, no_sub_tlvs}
use ranet_lite.Babel.Messages.Mapped.{mapped_head, to_4-native}
use ranet_lite.Babel.Prefixes.Clean.{IsClean, masked-IsClean, pad-IsClean}
use ranet_lite.Babel.Request.{
  RouteRequest, SeqnoRequest, with_source, encode_route_request, decode_route_request,
}
use ranet_lite.Babel.Request.{
  encode_seqno_request, decode_seqno_request, seqno_request_of, decode_request_prefix,
}
use ranet_lite.Babel.Request.{
  decode_request_sub_tlvs, request_loop, request_step, pair_request, prefix_from, unmap, differs,
}

abbrev pub IsSourceOption : ℕ → Option IpPrefix → Type 0
IsSourceOption ae none = Unit
IsSourceOption ae (some p) = IsSource ae p

abbrev tail_of : Option IpPrefix → List ℕ
tail_of none = []
tail_of (some p) = encode_sub_tlvs (source_tlv p ∷ [])

xor_self : (b : Bool) → xor b b ≡ false
unfolding xor
xor_self true = refl
xor_self false = refl

module _ (ae : ℕ) (p : IpPrefix) where
  -- The bytes that come back, before the mask.
  abbrev pub raw_of : List ℕ
  raw_of = pad (address_size ae) (take (prefix_byte_len p.bits) p.octets)

  -- A prefix of the family of its encoding, with no bit set past its length, that is no IPv4
  -- address mapped into IPv6.
  pub record IsCanonical : Type 0 where
    pub size : length p.octets ≡ address_size ae
    pub short : p.bits ≤ width ae
    pub clean : IsClean p.octets p.bits
    pub native : take 12 p.octets ≢ mapped_head

  clean-masked : IsCanonical → masked p.octets p.bits ≡ p.octets
  clean-masked w = masked-IsClean p.octets p.bits w.clean

  raw_same : IsCanonical → raw_of ≡ p.octets
  raw_same w = rw (← w.size) (pad-IsClean p.octets p.bits w.clean)

  unmapped : IsCanonical → unmap p.octets ≡ p.octets
  unfolding unmap
  unmapped w =
      rw (unmap, to_4-native p.octets w.native)
        (elim (Bool-cases (length p.octets == 4)) [ inl k ↦ rw k refl | inr k ↦ rw k refl ])

  sub_tlvs :
      (source : Option IpPrefix)
      → IsAe ae
      → IsSourceOption ae source
      → decode_request_sub_tlvs ae (tail_of source) ≡ ok source
  unfolding decode_request_sub_tlvs request_loop request_step
  sub_tlvs none h w = rw (decode_request_sub_tlvs, no_sub_tlvs) refl
  sub_tlvs (some s) h w =
      rw
        (
          decode_request_sub_tlvs,
          decode-encode_sub_tlv (source_body s) short_body,
          request_step,
          decode_source ae s h w,
        )
        refl
    where
      short_body : length (source_body s) < 256
      short_body =
          omega (arith, length-take (prefix_byte_len s.bits) s.octets, w.size, size_le ae h)

  from_raw : IsCanonical → prefix_from (unmap raw_of) p.bits ≡ some p
  unfolding prefix_from
  from_raw w =
      let fits : leb p.bits (8 * length p.octets) ≡ true = ground (arith, w.size, w.short) in
      rw (raw_same w, unmapped w, fits, clean-masked w) refl

  same_family :
      (source : Option IpPrefix) → IsCanonical → IsSourceOption ae source → differs source p ≡ false
  same_family none w v = refl
  same_family (some s) w v = rw (v.size, w.size) (xor_self (address_size ae == 4))

  known : IsAe ae → (not (is_ae_4 ae) && not (ae == ae_ipv6)) ≡ false
  known h = elim (ae_cases ae h) [
    | inl (v4, size) ↦ rw v4 refl
    | inr (v6, size, e) ↦ let six : (ae == ae_ipv6) ≡ true = ground arith in rw (v6, six) refl
  ]

  decoded :
      (source : Option IpPrefix)
      → IsAe ae
      → IsCanonical
      → IsSourceOption ae source
      → decode_request_prefix ae p.bits (take (prefix_byte_len p.bits) p.octets ++ tail_of source)
        ≡ ok (some p, source)
  unfolding decode_request_prefix pair_request
  decoded source h w v =
      let n = prefix_byte_len p.bits in
      let bytes : List ℕ = take n p.octets in
      let sent : length bytes ≡ n = omega (arith, length-take n p.octets, w.size, w.short) in
      let named : (ae == ae_wildcard) ≡ false = ground arith in
      let narrow : ltb (8 * address_size ae) p.bits ≡ false = ground (arith, w.short) in
      let room : ltb (length (bytes ++ tail_of source)) n ≡ false =
        ground (arith, sent, length-append bytes (tail_of source)) in
      rw
        (
          named,
          known h,
          narrow,
          room,
          take-append n bytes (tail_of source) sent,
          drop-append n bytes (tail_of source) sent,
          sub_tlvs source h v,
          from_raw w,
          same_family source w v,
        )
        refl

  sourced :
      (source : Option IpPrefix) (body : List ℕ)
      → IsAe ae
      → IsSourceOption ae source
      → with_source ae source body ≡ some (body ++ tail_of source)
  unfolding with_source
  sourced none body h w =
      ap (λ (b : List ℕ). let o : Option (List ℕ) = some b in o) (sym (append-nil body))
  sourced (some s) body h w = rw (with_source, encode_source ae s h w) refl

  -- A request in an encoding that carries a prefix, for a prefix of its size that has no bit set
  -- past its length and is no IPv4 address mapped into IPv6, with no source prefix or one of the
  -- same size, longer than 0 and with no bit set past its length, decodes to itself, in both forms;
  -- the sequence number has 16 bits.
  pub decode_request-encode_request :
      (source : Option IpPrefix) (seqno hops a b c d e f g i : ℕ)
      → IsAe ae
      → IsCanonical
      → IsSourceOption ae source
      → IsU16 seqno
      → let r : RouteRequest = record { ae = ae; prefix = some p; source_prefix = source } in
        let s : SeqnoRequest = record {
          ae = ae;
          prefix = p;
          source_prefix = source;
          seqno = seqno;
          hop_count = hops;
          router_id = a ∷ b ∷ c ∷ d ∷ e ∷ f ∷ g ∷ i ∷ [];
        } in
        (body : List ℕ) × (encode_route_request r ≡ some body)
        × (decode_route_request body ≡ ok r)
        × ((long : List ℕ) × (encode_seqno_request s ≡ some long)
            × (decode_seqno_request long ≡ ok s))
  unfolding encode_route_request encode_seqno_request decode_route_request decode_seqno_request
      seqno_request_of
  decode_request-encode_request source seqno hops a b c d e f g i h w v hs =
      let fits : u8 p.bits ≡ p.bits = omega (arith, w.short, size_le ae h) in
      let named : (ae == ae_wildcard) ≡ false = ground arith in
      let wire : List ℕ = take (prefix_byte_len p.bits) p.octets ++ tail_of source in
      (
        ae ∷ p.bits ∷ wire,
        rw (named, fits, clean-masked w) (sourced source _ h v),
        rw (decoded source h w v) refl,
        (
          ae
              ∷ p.bits
              ∷ byte_of seqno 1
              ∷ byte_of seqno 0
              ∷ hops
              ∷ 0
              ∷ a
              ∷ b
              ∷ c
              ∷ d
              ∷ e
              ∷ f
              ∷ g
              ∷ i
              ∷ wire,
          rw (fits, clean-masked w) (sourced source _ h v),
          rw (decoded source h w v, be16_bytes seqno hs) refl,
        ),
      )
