-- ===== src/Babel/Update.antt =====
-- The Update TLV and the prefix compression of one packet, internal/babel/update.go.
pub mod RoundTrip
pub mod Compression
use ranet_lite.Prelude.{ℕ, zero, suc, ◌+◌, ◌-◌, ◌*◌, ◌/◌, ◌%◌, ◌^◌, bit_and, Option, none, some}
use ranet_lite.Prelude.{Bool, true, false, not, ◌&&◌, ◌||◌, List, [], ◌∷◌, ◌++◌, length, take, drop}
use ranet_lite.Prelude.{ltb, leb, ◌==◌, if◌then◌else◌, replicate, Result, ok, err, ◌>>=◌, ◌>>◌, min}
use ranet_lite.Prelude.Bytes.{u8, be16, byte_of}
use ranet_lite.Babel.Metric.{metric_infinity}
use ranet_lite.Babel.Tlv.{Tlv, decode_sub_tlvs}
use ranet_lite.Babel.Messages.{ae_wildcard, ae_ipv4, ae_ipv6, ae_ipv4_via_ipv6, to_4, put16}
use ranet_lite.Babel.Prefixes.{
  IpPrefix, address_size, prefix_byte_len, is_ae_4, pad, clear_prefix_tail,
}
use ranet_lite.Babel.Prefixes.{sub_tlv_source_prefix, encode_source_prefix, decode_source_prefix}

abbrev pub update_flag_prefix : ℕ
update_flag_prefix = 0x80

abbrev pub update_flag_router_id : ℕ
update_flag_router_id = 0x40

pub record Update : Type 0 where
  pub ae : ℕ
  pub plen : ℕ
  pub interval : ℕ
  pub seqno : ℕ
  pub metric : ℕ
  pub prefix : List ℕ
  pub router_id : List ℕ
  pub has_router_id : Bool
  pub ignore : Bool
  pub source_prefix : Option IpPrefix

pub data UpdateError : Type 0 where
  short_update wildcard_length omitted_exceeds prefix_truncated : UpdateError
  prefix_length no_default_prefix unsupported_ae : ℕ → UpdateError

-- `To4` or `To16`, by the encoding: `[]` where they return nil, and `none` for the panic at an
-- encoding that is not supported.
unfoldable pub raw_prefix : Update → Option (List ℕ)
raw_prefix u =
    if is_ae_4 u.ae
    then elim (to_4 u.prefix) [ none ↦ some [] | some v4 ↦ some v4 ]
    else if u.ae == ae_ipv6
    then if length u.prefix == 16
      then some u.prefix
      else if length u.prefix == 4
      then some (replicate 10 0 ++ (0xff ∷ 0xff ∷ u.prefix))
      else some []
    else none

unfoldable pub encode_tail : Update → Option (List ℕ)
encode_tail u = elim u.source_prefix [ none ↦ some [] | some p ↦ encode_source_prefix u.ae p ]

-- `raw[:total]` panics past the end.
unfoldable pub encode_with : Update → Option (List ℕ) → Option (List ℕ) → Option (List ℕ)
encode_with u (some raw) (some tail) =
    let total = prefix_byte_len u.plen in
    if ltb (length raw) total
    then none
    else some (
        u8 u.ae
        ∷ update_flag_prefix
        ∷ u8 u.plen
        ∷ 0
        ∷ (put16 u.interval ++ (put16 u.seqno ++ (put16 u.metric ++ (take total raw ++ tail)))))
encode_with u _ _ = none

unfoldable pub encode_update : Update → Option (List ℕ)
encode_update u = encode_with u (raw_prefix u) (encode_tail u)

pub record PrefixState : Type 0 where
  pub last : List ℕ
  pub have : Bool

-- The slots of the array that an encoding reaches.
pub record PrefixDecoder : Type 0 where
  pub ipv4 : PrefixState
  pub ipv6 : PrefixState
  pub ipv4_via_ipv6 : PrefixState

abbrev pub fresh_state : PrefixState
fresh_state = record { last = replicate 16 0; have = false }

abbrev pub fresh_decoder : PrefixDecoder
fresh_decoder = record { ipv4 = fresh_state; ipv6 = fresh_state; ipv4_via_ipv6 = fresh_state }

unfoldable pub state_of : PrefixDecoder → ℕ → PrefixState
state_of d ae = if ae == ae_ipv4 then d.ipv4 else if ae == ae_ipv6 then d.ipv6 else d.ipv4_via_ipv6

unfoldable pub with_state : PrefixDecoder → ℕ → PrefixState → PrefixDecoder
with_state d ae s =
    if ae == ae_ipv4
    then record d { ipv4 = s }
    else if ae == ae_ipv6
    then record d { ipv6 = s }
    else record d { ipv4_via_ipv6 = s }

abbrev pub has_flag : ℕ → ℕ → Bool
has_flag flags f = not (bit_and flags f == 0)

-- The checks before anything is stored.
unfoldable pub check_prefix : PrefixDecoder → ℕ → ℕ → ℕ → Result UpdateError (Unit {0})
check_prefix d ae plen omitted =
    if ae == ae_wildcard
    then if not (plen == 0) || not (omitted == 0) then err wildcard_length else ok tt
    else if not (is_ae_4 ae) && not (ae == ae_ipv6)
    then err (unsupported_ae ae)
    else if ltb (if is_ae_4 ae then 32 else 128) plen
    then err (prefix_length plen)
    else if ltb 0 omitted && not (state_of d ae).have
    then err (no_default_prefix ae)
    else ok tt

-- The bytes of the prefix: what is omitted comes from the last one.
unfoldable pub expand : PrefixDecoder → ℕ → ℕ → ℕ → List ℕ → List ℕ
expand d ae plen omitted sent =
    clear_prefix_tail (pad (address_size ae) (take omitted (state_of d ae).last ++ sent)) plen

-- `net.IPv4zero`
abbrev pub ipv4_zero : List ℕ
ipv4_zero = replicate 10 0 ++ (0xff ∷ 0xff ∷ 0 ∷ 0 ∷ 0 ∷ 0 ∷ [])

-- The last 8 bytes, or 4 zeros and the 4 of an IPv4 prefix.
unfoldable pub derived_router_id : List ℕ → List ℕ
derived_router_id raw = replicate (8 - min 8 (length raw)) 0 ++ drop (length raw - 8) raw

abbrev pub ignored : Update → Update
ignored u = record u { ignore = true }

-- One sub-TLV; the number counts the source prefixes.
unfoldable pub sub_tlv_step : ℕ → Tlv → ℕ × Update → ℕ × Update
sub_tlv_step ae s (seen, u) =
    if ltb s.kind 128
    then (seen, u)
    else if not (s.kind == sub_tlv_source_prefix)
    then (seen, ignored u)
    else if ltb 1 (suc seen)
    then (suc seen, ignored u)
    else elim (decode_source_prefix ae s.body) [
      | some sp ↦ (suc seen, record u { source_prefix = some sp })
      | none ↦ (suc seen, ignored u)
    ]

unfoldable pub sub_tlv_loop : ℕ → List Tlv → ℕ × Update → Update
sub_tlv_loop ae [] st = st.1
sub_tlv_loop ae (s ∷ subs) st = sub_tlv_loop ae subs (sub_tlv_step ae s st)

-- The Update, once its prefix is known: `rest` is the bytes of the sub-TLVs.
unfoldable pub assemble : Update → ℕ → List ℕ → Update
assemble u flags rest =
    let named : Update =
      if has_flag flags update_flag_router_id && not (u.ae == ae_wildcard)
      then record u { router_id = derived_router_id u.prefix; has_router_id = true }
      else u in
    let judged : Update = record named {
      ignore =
          (u.interval == 0 && not (u.metric == metric_infinity))
          || (u.ae == ae_wildcard && not (u.metric == metric_infinity));
    } in
    elim (decode_sub_tlvs rest) [
      | err e ↦ ignored judged
      | ok subs ↦ sub_tlv_loop u.ae subs (0, judged)
    ]

unfoldable pub decode_body :
    PrefixDecoder → Update → ℕ → ℕ → List ℕ → Result UpdateError (Update × PrefixDecoder)
decode_body d u flags omitted sent =
    let total = prefix_byte_len u.plen in
    let count = total - omitted in
    let ip = expand d u.ae u.plen omitted (take count sent) in
    let stored : PrefixState = record { last = pad 16 ip; have = true } in
    let d' = if has_flag flags update_flag_prefix then with_state d u.ae stored else d in
    if ltb total omitted
    then err omitted_exceeds
    else if ltb (length sent) count
    then err prefix_truncated
    else if u.ae == ae_wildcard
    then ok (assemble (record u { prefix = ipv4_zero }) flags (drop count sent), d)
    else ok (assemble (record u { prefix = ip }) flags (drop count sent), d')

-- An error leaves the decoder as it was.
unfoldable pub decode_update : PrefixDecoder → List ℕ → Result UpdateError (Update × PrefixDecoder)
decode_update d (ae ∷ flags ∷ plen ∷ omitted ∷ i1 ∷ i0 ∷ s1 ∷ s0 ∷ m1 ∷ m0 ∷ sent) = do
  check_prefix d ae plen omitted
  let u : Update = record {
    ae = ae;
    plen = plen;
    interval = be16 i1 i0;
    seqno = be16 s1 s0;
    metric = be16 m1 m0;
    prefix = [];
    router_id = replicate 8 0;
    has_router_id = false;
    ignore = false;
    source_prefix = none;
  }
  decode_body d u flags omitted sent
decode_update d _ = err short_update
