-- ===== src/Babel/Update/RoundTrip.antt =====
-- Encoding an Update and decoding it, internal/babel/update.go.
use ranet_lite.Prelude.{ℕ, ◌-◌, ◌<◌, ◌≤◌, ◌≡◌, ◌≢◌, refl, arith, ◌⊎◌, inl, inr}
use ranet_lite.Prelude.{
  true, false, not, ◌&&◌, ◌||◌, List, [], ◌∷◌, ◌++◌, length, take, Option, none, some,
}
use ranet_lite.Prelude.{ltb, ◌==◌, replicate, ok}
use ranet_lite.Prelude.{length-append, length-take, take-append, drop-append}
use ranet_lite.Prelude.Bytes.{u8, IsU16, be16_bytes}
use ranet_lite.Babel.Metric.{metric_infinity}
use ranet_lite.Babel.Tlv.{encode_sub_tlvs}
use ranet_lite.Babel.Messages.{ae_wildcard, ae_ipv6, to_4, put16}
use ranet_lite.Babel.Prefixes.{IpPrefix, address_size, prefix_byte_len, pad, clear_prefix_tail}
use ranet_lite.Babel.Prefixes.Clean.{IsClean, pad-IsClean, clear_prefix_tail-IsClean}
use ranet_lite.Babel.Update.{Update, PrefixDecoder, decode_update, encode_update, with_state}
use ranet_lite.Babel.Update.{
  encode_with, encode_tail, raw_prefix, assemble, decode_body, expand, check_prefix, sub_tlv_loop,
  sub_tlv_step,
}
use ranet_lite.Babel.Prefixes.RoundTrip.{
  IsAe, IsSource, width, ae_cases, size_le, source_body, source_tlv, encode_source, decode_source,
}
use ranet_lite.Babel.Prefixes.RoundTrip.{decode-encode_sub_tlv, no_sub_tlvs}

-- An Update with no router id and no fault.
abbrev pub plain_update : ℕ → ℕ → ℕ → ℕ → ℕ → List ℕ → Option IpPrefix → Update
plain_update ae plen interval seqno metric prefix source = record {
  ae = ae;
  plen = plen;
  interval = interval;
  seqno = seqno;
  metric = metric;
  prefix = prefix;
  router_id = replicate 8 0;
  has_router_id = false;
  ignore = false;
  source_prefix = source;
}

abbrev pub IsSourceOption : ℕ → Option IpPrefix → Type 0
IsSourceOption ae none = Unit
IsSourceOption ae (some p) = IsSource ae p

abbrev tail_of : Option IpPrefix → List ℕ
tail_of none = []
tail_of (some p) = encode_sub_tlvs (source_tlv p ∷ [])

module _ (ae plen interval seqno metric : ℕ) (prefix : List ℕ) where
  short_body : (p : IpPrefix) → IsAe ae → IsSource ae p → length (source_body p) < 256
  short_body p h w =
      omega (arith, length-take (prefix_byte_len p.bits) p.octets, w.size, size_le ae h)

  tail-encode :
      (source : Option IpPrefix)
      → IsAe ae
      → IsSourceOption ae source
      → encode_tail (plain_update ae plen interval seqno metric prefix source)
        ≡ some (tail_of source)
  unfolding encode_tail
  tail-encode none h w = refl
  tail-encode (some p) h w = encode_source ae p h w

  loop_end : (u : Update) → sub_tlv_loop ae [] (0, u) ≡ u
  unfolding sub_tlv_loop
  loop_end u = refl

  one_source :
      (p : IpPrefix)
      → IsAe ae
      → IsSource ae p
      → sub_tlv_loop ae
          (source_tlv p ∷ [])
          (0, plain_update ae plen interval seqno metric prefix none)
        ≡ plain_update ae plen interval seqno metric prefix (some p)
  unfolding sub_tlv_loop sub_tlv_step
  one_source p h w = rw (sub_tlv_loop, sub_tlv_step, decode_source ae p h w) refl

  assembled :
      (source : Option IpPrefix)
      → IsAe ae
      → IsSourceOption ae source
      → (interval ≢ 0) ⊎ (metric ≡ metric_infinity)
      → assemble (plain_update ae plen interval seqno metric prefix none) 0x80 (tail_of source)
        ≡ plain_update ae plen interval seqno metric prefix source
  unfolding assemble
  assembled source h w timed = by_source source w
    where
      judged :
          ((interval == 0 && not (metric == metric_infinity))
            || (ae == ae_wildcard && not (metric == metric_infinity)))
          ≡ false
      judged = ground arith

      by_source :
          (o : Option IpPrefix)
          → IsSourceOption ae o
          → assemble (plain_update ae plen interval seqno metric prefix none) 0x80 (tail_of o)
            ≡ plain_update ae plen interval seqno metric prefix o
      by_source none w = rw (assemble, no_sub_tlvs, judged) (loop_end _)
      by_source (some p) w =
          rw (assemble, decode-encode_sub_tlv (source_body p) (short_body p h w), judged)
            (one_source p h w)

  -- The prefix is of the size of its encoding, and has no bit set past its length.
  abbrev pub IsPrefix : Type 0
  IsPrefix = (length prefix ≡ address_size ae) × (plen ≤ width ae) × IsClean prefix plen

  expanded :
      IsPrefix
      → clear_prefix_tail (pad (address_size ae) (take (prefix_byte_len plen) prefix)) plen ≡ prefix
  expanded w = rw (← w.0, pad-IsClean prefix plen w.2) (clear_prefix_tail-IsClean prefix plen w.2)

  -- The bytes on the wire.
  abbrev body_of : Option IpPrefix → List ℕ
  body_of source =
      u8 ae
      ∷ 0x80
      ∷ u8 plen
      ∷ 0
      ∷ (put16 interval
          ++ (put16 seqno
              ++ (put16 metric ++ (take (prefix_byte_len plen) prefix ++ tail_of source))))

  prefix_raw :
      (source : Option IpPrefix)
      → IsAe ae
      → IsPrefix
      → raw_prefix (plain_update ae plen interval seqno metric prefix source) ≡ some prefix
  unfolding raw_prefix to_4
  prefix_raw source h w = elim (ae_cases ae h) [
    | inl (v4, size) ↦
        let four : (length prefix == 4) ≡ true = ground (arith, w.0, size) in rw (v4, four) refl
    | inr (v6, size, e) ↦
        let six : (ae == ae_ipv6) ≡ true = ground arith in
        let wide : (length prefix == 16) ≡ true = ground (arith, w.0, size) in
        rw (v6, six, wide) refl
  ]

  bytes_le : IsPrefix → prefix_byte_len plen ≤ length prefix
  bytes_le w = omega (arith, w.0, w.1)

  encoded :
      (source : Option IpPrefix)
      → IsAe ae
      → IsPrefix
      → IsSourceOption ae source
      → encode_update (plain_update ae plen interval seqno metric prefix source)
        ≡ some (body_of source)
  unfolding encode_update encode_with
  encoded source h w s =
      let room : ltb (length prefix) (prefix_byte_len plen) ≡ false = ground (arith, bytes_le w) in
      rw (prefix_raw source h w, tail-encode source h s, room) refl

  checked : (d : PrefixDecoder) → IsAe ae → IsPrefix → check_prefix d ae plen 0 ≡ ok tt
  unfolding check_prefix
  checked d h w = elim (ae_cases ae h) [
    | inl (v4, size) ↦
        let carried : (ae == ae_wildcard) ≡ false = ground arith in
        let short : ltb 32 plen ≡ false = ground (arith, w.1, size) in rw (carried, v4, short) refl
    | inr (v6, size, e) ↦
        let carried : (ae == ae_wildcard) ≡ false = ground arith in
        let six : (ae == ae_ipv6) ≡ true = ground arith in
        let short : ltb 128 plen ≡ false = ground (arith, w.1, size) in
        rw (carried, v6, six, short) refl
  ]

  decoded :
      (d : PrefixDecoder) (source : Option IpPrefix)
      → IsAe ae
      → IsPrefix
      → IsSourceOption ae source
      → IsU16 interval
      → IsU16 seqno
      → IsU16 metric
      → (interval ≢ 0) ⊎ (metric ≡ metric_infinity)
      → decode_update d (body_of source)
        ≡ ok (
          plain_update ae plen interval seqno metric prefix source,
          with_state d ae (record { last = pad 16 prefix; have = true }),
        )
  unfolding decode_update decode_body expand
  decoded d source h w s hi hs hm timed =
      let fits_ae : u8 ae ≡ ae = ground arith in
      let fits_plen : u8 plen ≡ plen = omega (arith, w.1, size_le ae h) in
      let whole : prefix_byte_len plen - 0 ≡ prefix_byte_len plen = omega arith in
      let sent : length (take (prefix_byte_len plen) prefix) ≡ prefix_byte_len plen =
        omega (arith, length-take (prefix_byte_len plen) prefix, bytes_le w) in
      let enough : ltb (length (take (prefix_byte_len plen) prefix ++ tail_of source))
            (prefix_byte_len plen)
          ≡ false =
        ground (arith, sent, length-append (take (prefix_byte_len plen) prefix) (tail_of source)) in
      let some_ae : (ae == ae_wildcard) ≡ false = ground arith in
      let none_omitted : ltb (prefix_byte_len plen) 0 ≡ false = ground arith in
      rw
        (
          fits_ae,
          fits_plen,
          be16_bytes interval hi,
          be16_bytes seqno hs,
          be16_bytes metric hm,
          checked d h w,
          decode_body,
          none_omitted,
          whole,
          enough,
          some_ae,
          take-append (prefix_byte_len plen) (take (prefix_byte_len plen) prefix) (tail_of source)
              sent,
          drop-append (prefix_byte_len plen) (take (prefix_byte_len plen) prefix) (tail_of source)
              sent,
          expand,
          expanded w,
          assembled source h s timed,
        )
        refl

  -- An Update in an encoding that carries a prefix, with 16-bit fields, and with an interval or an
  -- infinite metric, whose prefix, and source prefix if it has one, are of the size of the encoding
  -- and have no bit set past their lengths, encodes, and decodes to itself whatever the packet said
  -- before; its prefix is then what the next one may abbreviate.
  pub decode_update-encode_update :
      (d : PrefixDecoder) (source : Option IpPrefix)
      → IsAe ae
      → IsPrefix
      → IsSourceOption ae source
      → IsU16 interval
      → IsU16 seqno
      → IsU16 metric
      → (interval ≢ 0) ⊎ (metric ≡ metric_infinity)
      → (body : List ℕ) × (encode_update (plain_update ae plen interval seqno metric prefix source)
          ≡ some body)
        × (decode_update d body
            ≡ ok (
              plain_update ae plen interval seqno metric prefix source,
              with_state d ae (record { last = pad 16 prefix; have = true }),
            ))
  decode_update-encode_update d source h w s hi hs hm timed =
      (body_of source, encoded source h w s, decoded d source h w s hi hs hm timed)
