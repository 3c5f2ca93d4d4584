-- ===== src/Babel/Request.antt =====
-- The Route Request and Seqno Request TLVs, internal/babel/request.go. A prefix that is not valid is
-- `none`; in an encoder `none` is a panic.
pub mod RoundTrip
use mathlib.Core.Bool.{xor}
use ranet_lite.Prelude.{ℕ, zero, suc, ◌+◌, ◌-◌, ◌*◌, ◌/◌, ◌%◌, ◌^◌, Option, none, some}
use ranet_lite.Prelude.{Bool, true, false, not, ◌&&◌, ◌||◌, List, [], ◌∷◌, ◌++◌, length, take, drop}
use ranet_lite.Prelude.{ltb, leb, ◌==◌, if◌then◌else◌, Result, ok, err, ◌>>=◌, ◌>>◌}
use ranet_lite.Prelude.Bytes.{u8, be16, byte_of}
use ranet_lite.Babel.Tlv.{Tlv, Error, decode_sub_tlvs}
use ranet_lite.Babel.Messages.{ae_wildcard, ae_ipv6, to_4, put16}
use ranet_lite.Babel.Prefixes.{IpPrefix, is_4, is_ae_4, prefix_byte_len, pad, masked, address_size}
use ranet_lite.Babel.Prefixes.{sub_tlv_source_prefix, encode_source_prefix, decode_source_prefix}

pub data RequestError : Type 0 where
  short_request wildcard_request malformed_prefix : RequestError
  repeated_source malformed_source misfit other_family no_prefix : RequestError
  unsupported_request_ae unsupported_sub_tlv : ℕ → RequestError
  bad_sub_tlvs : Error → RequestError

pub record RouteRequest : Type 0 where
  pub ae : ℕ
  pub prefix : Option IpPrefix
  pub source_prefix : Option IpPrefix

pub record SeqnoRequest : Type 0 where
  pub ae : ℕ
  pub prefix : IpPrefix
  pub source_prefix : Option IpPrefix
  pub seqno : ℕ
  pub hop_count : ℕ
  pub router_id : List ℕ

-- The bytes of `p.Masked()` that its length needs.
abbrev pub masked_bytes : IpPrefix → List ℕ
masked_bytes p = take (prefix_byte_len p.bits) (masked p.octets p.bits)

-- A source prefix is appended if there is one.
unfoldable pub with_source : ℕ → Option IpPrefix → List ℕ → Option (List ℕ)
with_source ae none body = some body
with_source ae (some p) body = elim (encode_source_prefix ae p) [
  | none ↦ none
  | some sub ↦ some (body ++ sub)
]

-- A wildcard request never carries a source prefix.
unfoldable pub encode_route_request : RouteRequest → Option (List ℕ)
encode_route_request r = elim r.prefix [
  | none ↦ some (ae_wildcard ∷ 0 ∷ [])
  | some p ↦
      if r.ae == ae_wildcard
      then some (ae_wildcard ∷ 0 ∷ [])
      else with_source r.ae r.source_prefix (r.ae ∷ u8 p.bits ∷ masked_bytes p)
]

unfoldable pub request_step : ℕ → Tlv → Option IpPrefix → Result RequestError (Option IpPrefix)
request_step ae s source =
    if ltb s.kind 128
    then ok source
    else if not (s.kind == sub_tlv_source_prefix)
    then err (unsupported_sub_tlv s.kind)
    else elim source [
      | some p ↦ err repeated_source
      | none ↦ elim (decode_source_prefix ae s.body) [
        | none ↦ err malformed_source
        | some p ↦ ok (some p)
      ]
    ]

unfoldable pub request_loop : ℕ → List Tlv → Option IpPrefix → Result RequestError (Option IpPrefix)
request_loop ae [] source = ok source
request_loop ae (s ∷ subs) source = request_step ae s source >>= request_loop ae subs

unfoldable pub decode_request_sub_tlvs : ℕ → List ℕ → Result RequestError (Option IpPrefix)
decode_request_sub_tlvs ae raw = elim (decode_sub_tlvs raw) [
  | err e ↦ err (bad_sub_tlvs e)
  | ok subs ↦ request_loop ae subs none
]

-- `Unmap`: the IPv4 address that a mapped one stands for.
unfoldable pub unmap : List ℕ → List ℕ
unmap addr = elim (to_4 addr) [ none ↦ addr | some v4 ↦ v4 ]

-- `PrefixFrom(...).Masked()`
unfoldable pub prefix_from : List ℕ → ℕ → Option IpPrefix
prefix_from addr plen =
    if leb plen (8 * length addr)
    then some (record { octets = masked addr plen; bits = plen })
    else none

abbrev pub differs : Option IpPrefix → IpPrefix → Bool
differs none p = false
differs (some s) p = xor (is_4 s) (is_4 p)

-- The last two checks, once the source is known.
unfoldable pub pair_request :
    Option IpPrefix → Option IpPrefix → Result RequestError (Option IpPrefix × Option IpPrefix)
pair_request none source = err misfit
pair_request (some p) source = if differs source p then err other_family else ok (some p, source)

unfoldable pub decode_request_prefix :
    ℕ → ℕ → List ℕ → Result RequestError (Option IpPrefix × Option IpPrefix)
decode_request_prefix ae plen raw =
    let count = prefix_byte_len plen in
    if ae == ae_wildcard
    then if not (plen == 0)
      then err wildcard_request
      else (decode_request_sub_tlvs ae raw >>= λ s. ok (none, none))
    else if not (is_ae_4 ae) && not (ae == ae_ipv6)
    then err (unsupported_request_ae ae)
    else if ltb (8 * address_size ae) plen || ltb (length raw) count
    then err malformed_prefix
    else decode_request_sub_tlvs ae (drop count raw)
      >>= pair_request (prefix_from (unmap (pad (address_size ae) (take count raw))) plen)

unfoldable pub decode_route_request : List ℕ → Result RequestError RouteRequest
decode_route_request (ae ∷ plen ∷ raw) = do
  (p, s) ← decode_request_prefix ae plen raw
  ok (record { ae = ae; prefix = p; source_prefix = s })
decode_route_request _ = err short_request

-- Byte 5 is reserved.
unfoldable pub encode_seqno_request : SeqnoRequest → Option (List ℕ)
encode_seqno_request r = with_source r.ae r.source_prefix (
    r.ae
    ∷ u8 r.prefix.bits
    ∷ (put16 r.seqno ++ (r.hop_count ∷ 0 ∷ (r.router_id ++ masked_bytes r.prefix))))

-- The prefix must be there: a wildcard names no origin.
unfoldable pub seqno_request_of :
    ℕ → ℕ → ℕ → List ℕ → Option IpPrefix × Option IpPrefix → Result RequestError SeqnoRequest
seqno_request_of ae seqno hops id (none, s) = err no_prefix
seqno_request_of ae seqno hops id (some p, s) = ok (record {
  ae = ae;
  prefix = p;
  source_prefix = s;
  seqno = seqno;
  hop_count = hops;
  router_id = id;
})

unfoldable pub decode_seqno_request : List ℕ → Result RequestError SeqnoRequest
decode_seqno_request (ae ∷ plen ∷ s1 ∷ s0 ∷ hops ∷ r ∷ a ∷ b ∷ c ∷ d ∷ e ∷ f ∷ g ∷ h ∷ raw) =
    decode_request_prefix ae plen raw
    >>= seqno_request_of ae (be16 s1 s0) hops (a ∷ b ∷ c ∷ d ∷ e ∷ f ∷ g ∷ h ∷ [])
decode_seqno_request _ = err short_request
