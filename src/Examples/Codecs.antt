-- ===== src/Examples/Codecs.antt =====
-- The codecs of internal/babel at concrete inputs.
use mathlib.Core.Logic.{◌≢◌, inl}
use ranet_lite.Prelude.{ℕ, ◌≡◌, ◌<◌, refl, ap, arith, true, none, some}
use ranet_lite.Prelude.{
  Bool, drop, replicate, get_or, ◌==◌, List, [], ◌∷◌, ◌++◌, length, take, ok, err,
}
use ranet_lite.Babel.Tlv.{Tlv, out_of_fuel, decode_packet, encode_packet, encode_tlvs, pad_n}
use ranet_lite.Babel.Tlv.RoundTrip.{carried, decode_packet-encode_packet, decode_packet-total}
use ranet_lite.Babel.Messages.{Hello, Ihu, decode_hello, encode_hello, decode_ihu, encode_ihu}
use ranet_lite.Babel.Messages.RoundTrip.{decode_hello-encode_hello, decode_ihu-encode_ihu}
use ranet_lite.Babel.Prefixes.{IpPrefix, pad}
use ranet_lite.Babel.Prefixes.Clean.{IsClean, clear_from-IsClean}
use ranet_lite.Babel.Update.{
  fresh_decoder, decode_update, encode_update, with_state, state_of, PrefixDecoder,
}
use ranet_lite.Babel.Update.RoundTrip.{decode_update-encode_update, plain_update}
use ranet_lite.Babel.Prefixes.RoundTrip.{IsSource}
use ranet_lite.Babel.Request.{
  RouteRequest, SeqnoRequest, encode_route_request, decode_route_request,
}
use ranet_lite.Babel.Request.{encode_seqno_request, decode_seqno_request}
use ranet_lite.Babel.Request.RoundTrip.{IsCanonical, decode_request-encode_request}
use ranet_lite.Babel.Raw.{
  parse_packet, parse_udp, is_babel_packet, udp_checksum, add_words, fold_sum, build_packet,
  group_octets,
}
use ranet_lite.Babel.Raw.Filter.{parse_packet-is_babel_packet}
use ranet_lite.Babel.Update.Compression.{MayOmit, decode_update-omitted}

abbrev tlvs : List Tlv
tlvs =
    record { kind = 4; body = 0 ∷ 1 ∷ 0 ∷ [] }
    ∷ record { kind = pad_n; body = 0 ∷ [] }
    ∷ record { kind = 0; body = [] }
    ∷ record { kind = 8; body = 9 ∷ [] }
    ∷ []

few : length (encode_tlvs tlvs) < 65536
unfolding encode_tlvs
few = omega arith

decode_packet-encode_packet_example :
    decode_packet (encode_packet tlvs ++ (1 ∷ 2 ∷ [])) ≡ ok (carried tlvs)
decode_packet-encode_packet_example =
    decode_packet-encode_packet tlvs (1 ∷ 2 ∷ [])
      (
        (omega arith, omega arith),
        (
          (omega arith, omega arith),
          ((omega arith, omega arith), ((omega arith, omega arith), tt)),
        ),
      )
      few

decode_packet-total_example : decode_packet (42 ∷ 2 ∷ 0 ∷ 3 ∷ 4 ∷ 9 ∷ 0 ∷ []) ≢ err out_of_fuel
decode_packet-total_example = decode_packet-total (42 ∷ 2 ∷ 0 ∷ 3 ∷ 4 ∷ 9 ∷ 0 ∷ [])

abbrev hello : Hello
hello = record { seqno = 513; interval = 400; unicast = true; tx_ts = 70000; has_ts = true }

decode_hello-encode_hello_example : decode_hello (encode_hello hello) ≡ ok hello
decode_hello-encode_hello_example =
    decode_hello-encode_hello hello (omega arith, omega arith, omega arith, inl refl)

abbrev ihu : Ihu
ihu = record { rx_cost = 96; interval = 1200; origin_ts = 5; receive_ts = 70000; has_ts = true }

decode_ihu-encode_ihu_example : decode_ihu (encode_ihu ihu) ≡ ok (ihu, none)
decode_ihu-encode_ihu_example =
    decode_ihu-encode_ihu ihu (omega arith, omega arith, omega arith, omega arith, inl refl)

-- 192.168.16.0/20, from 10.0.0.0/8.
abbrev dest_octets : List ℕ
dest_octets = 192 ∷ 168 ∷ 16 ∷ 0 ∷ []

abbrev source : IpPrefix
source = record { octets = 10 ∷ 0 ∷ 0 ∷ 0 ∷ []; bits = 8 }

source-IsClean : IsClean source.octets 8
source-IsClean =
    clear_from-IsClean source.octets 8
      (omega arith, (omega arith, (omega arith, (omega arith, tt)))) refl

dest-IsClean : IsClean dest_octets 20
dest-IsClean =
    clear_from-IsClean dest_octets 20 (omega arith, (omega arith, (omega arith, (omega arith, tt))))
      refl

source-IsSource : IsSource 1 source
source-IsSource = record {
  size = refl;
  pos = omega arith;
  short = omega arith;
  clean = source-IsClean;
}

decode_update-encode_update_example :
    (body : List ℕ) × (encode_update (plain_update 1 20 400 513 96 dest_octets (some source))
      ≡ some body)
    × (decode_update fresh_decoder body
        ≡ ok (
          plain_update 1 20 400 513 96 dest_octets (some source),
          with_state fresh_decoder 1 (record { last = pad 16 dest_octets; have = true }),
        ))
decode_update-encode_update_example =
    decode_update-encode_update 1 20 400 513 96 dest_octets fresh_decoder (some source) (inl refl)
      (refl, omega arith, dest-IsClean) source-IsSource (omega arith) (omega arith) (omega arith)
      (inl (omega arith))

abbrev told : PrefixDecoder
told = record fresh_decoder { ipv4 = record { last = pad 16 dest_octets; have = true } }

may : MayOmit told 1 0x80 24 2 (192 ∷ 168 ∷ 17 ∷ []) []
unfolding state_of
may = record {
  known = refl;
  shared = refl;
  bound = omega arith;
  full = refl;
  encoding = omega arith;
}

decode_update-omitted_example :
    decode_update told (1 ∷ 0x80 ∷ 24 ∷ 2 ∷ 1 ∷ 144 ∷ 2 ∷ 1 ∷ 0 ∷ 96 ∷ 17 ∷ [])
    ≡ decode_update told (1 ∷ 0x80 ∷ 24 ∷ 0 ∷ 1 ∷ 144 ∷ 2 ∷ 1 ∷ 0 ∷ 96 ∷ 192 ∷ 168 ∷ 17 ∷ [])
decode_update-omitted_example =
    decode_update-omitted told 1 0x80 24 2 (192 ∷ 168 ∷ 17 ∷ []) [] 1 144 2 1 0 96 may

abbrev dest : IpPrefix
dest = record { octets = dest_octets; bits = 20 }

dest-IsCanonical : IsCanonical 1 dest
dest-IsCanonical = record {
  size = refl;
  short = omega arith;
  clean = dest-IsClean;
  native = λ e. absurd (omega (arith, ap length e));
}

decode_request-encode_request_example :
    let r : RouteRequest = record { ae = 1; prefix = some dest; source_prefix = some source } in
    let s : SeqnoRequest = record {
      ae = 1;
      prefix = dest;
      source_prefix = some source;
      seqno = 513;
      hop_count = 64;
      router_id = 1 ∷ 2 ∷ 3 ∷ 4 ∷ 5 ∷ 6 ∷ 7 ∷ 8 ∷ [];
    } in
    (body : List ℕ) × (encode_route_request r ≡ some body)
    × (decode_route_request body ≡ ok r)
    × ((long : List ℕ) × (encode_seqno_request s ≡ some long) × (decode_seqno_request long ≡ ok s))
decode_request-encode_request_example =
    decode_request-encode_request 1 dest (some source) 513 64 1 2 3 4 5 6 7 8 (inl refl)
      dest-IsCanonical source-IsSource (omega arith)

-- fe80::7
abbrev sender : List ℕ
sender = 0xfe ∷ 0x80 ∷ (replicate 13 0 ++ (7 ∷ []))

abbrev raw_packet : List ℕ
raw_packet = build_packet sender group_octets (42 ∷ 2 ∷ 0 ∷ 0 ∷ [])

abbrev is_fe80 : List ℕ → Bool
is_fe80 addr = get_or addr 0 0 == 0xfe

parsed : parse_packet is_fe80 raw_packet sender ≡ ok (sender, 42 ∷ 2 ∷ 0 ∷ 0 ∷ [])
unfolding parse_packet parse_udp build_packet udp_checksum add_words fold_sum
parsed = refl

parse_packet-is_babel_packet_example :
    (is_babel_packet raw_packet ≡ true)
    × (sender ≡ take 16 (drop 8 raw_packet))
    × (is_fe80 sender ≡ true)
    × (udp_checksum sender (take 16 (drop 24 raw_packet)) (drop 40 raw_packet) ≡ 0xffff)
    × (42 ∷ 2 ∷ 0 ∷ 0 ∷ [] ≡ drop 48 raw_packet)
parse_packet-is_babel_packet_example =
    parse_packet-is_babel_packet is_fe80 raw_packet sender sender (42 ∷ 2 ∷ 0 ∷ 0 ∷ []) parsed
