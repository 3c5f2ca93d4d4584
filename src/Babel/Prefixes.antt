-- ===== src/Babel/Prefixes.antt =====
-- Prefixes on the wire, internal/babel/update.go: lengths, the Source Prefix sub-TLV of RFC 9079 and
-- the part of net/netip that the codecs use. `none` is a panic in an encoder, and an invalid prefix
-- elsewhere.
pub mod Clean
pub mod RoundTrip
use mathlib.Core.Bool.{xor}
use ranet_lite.Prelude.{ℕ, zero, suc, ◌+◌, ◌-◌, ◌*◌, ◌/◌, ◌%◌, ◌^◌, bit_and, Option, none, some}
use ranet_lite.Prelude.{Bool, true, false, not, ◌&&◌, ◌||◌, List, [], ◌∷◌, ◌++◌, length, take, drop}
use ranet_lite.Prelude.{ltb, leb, ◌==◌, if◌then◌else◌, replicate, get_or, set}
use ranet_lite.Prelude.Bytes.{u8}
use ranet_lite.Babel.Tlv.{Tlv, encode_sub_tlvs}
use ranet_lite.Babel.Messages.{ae_ipv4, ae_ipv6, ae_ipv4_via_ipv6}

-- netip.Prefix: an address of 4 or 16 bytes and the bits that count.
pub record IpPrefix : Type 0 where
  pub octets : List ℕ
  pub bits : ℕ

abbrev pub sub_tlv_source_prefix : ℕ
sub_tlv_source_prefix = 128

abbrev pub prefix_byte_len : ℕ → ℕ
prefix_byte_len plen = (plen + 7) / 8

abbrev pub is_ae_4 : ℕ → Bool
is_ae_4 ae = ae == ae_ipv4 || ae == ae_ipv4_via_ipv6

abbrev pub is_4 : IpPrefix → Bool
is_4 p = length p.octets == 4

abbrev pub address_size : ℕ → ℕ
address_size ae = if is_ae_4 ae then 4 else 16

-- `copy` into a fresh buffer of `size` bytes.
abbrev pub pad : ℕ → List ℕ → List ℕ
pad size raw = raw ++ replicate (size - length raw) 0

unfoldable pub clear_prefix_tail : List ℕ → ℕ → List ℕ
clear_prefix_tail raw plen =
    if ltb 0 plen && not (plen % 8 == 0)
    then set raw (plen / 8) (bit_and (get_or raw (plen / 8) 0) (u8 (0xff * 2 ^ (8 - plen % 8))))
    else raw

-- `Masked`: every bit past the length is zero.
unfoldable pub masked : List ℕ → ℕ → List ℕ
masked [] plen = []
masked (b ∷ bs) plen =
    (if leb 8 plen then b else b / 2 ^ (8 - plen) * 2 ^ (8 - plen)) ∷ masked bs (plen - 8)

unfoldable pub encode_source_prefix : ℕ → IpPrefix → Option (List ℕ)
encode_source_prefix ae source =
    if source.bits == 0 || xor (is_4 source) (is_ae_4 ae)
    then none
    else some (
        encode_sub_tlvs (
          record {
            kind = sub_tlv_source_prefix;
            body = u8 source.bits ∷ take (prefix_byte_len source.bits) source.octets;
          }
          ∷ []))

unfoldable pub decode_source_prefix : ℕ → List ℕ → Option IpPrefix
decode_source_prefix ae [] = none
decode_source_prefix ae (plen ∷ rest) =
    let raw = take (prefix_byte_len plen) rest in
    if plen == 0
    then none
    else if ltb (length rest) (prefix_byte_len plen)
    then none
    else if is_ae_4 ae
    then if ltb 32 plen
      then none
      else some (record { octets = masked (pad 4 raw) plen; bits = plen })
    else if ae == ae_ipv6
    then if ltb 128 plen
      then none
      else some (record { octets = masked (pad 16 raw) plen; bits = plen })
    else none
