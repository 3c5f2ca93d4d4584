-- ===== src/Babel/Messages.antt =====
-- The TLVs with no prefix: Hello and IHU (internal/babel/hello_ihu.go), Router-Id, Next Hop and
-- acknowledgments (internal/babel/misc.go), and their addresses (internal/babel/tlv.go).
pub mod Mapped
pub mod RoundTrip
use ranet_lite.Prelude.{ℕ, zero, suc, ◌+◌, ◌*◌, ◌/◌, ◌%◌, ◌^◌, bit_and, Option, none, some}
use ranet_lite.Prelude.{Bool, true, false, not, ◌&&◌, ◌||◌, List, [], ◌∷◌, ◌++◌, length, take, drop}
use ranet_lite.Prelude.{ltb, leb, ◌==◌, if◌then◌else◌, replicate, Result, ok, err, ◌>>=◌, ◌>>◌}
use ranet_lite.Prelude.Bytes.{be16, be32, byte_of}
use ranet_lite.Babel.Tlv.{Tlv, Error, short_packet, short_address, unsupported_encoding}
use ranet_lite.Babel.Tlv.{encode_sub_tlvs, decode_optional_sub_tlvs, find_sub_tlv}

abbrev pub put16 : ℕ → List ℕ
put16 v = byte_of v 1 ∷ byte_of v 0 ∷ []

abbrev pub put32 : ℕ → List ℕ
put32 v = byte_of v 3 ∷ byte_of v 2 ∷ byte_of v 1 ∷ byte_of v 0 ∷ []

abbrev pub sub_tlv_timestamp : ℕ
sub_tlv_timestamp = 3

abbrev pub ae_wildcard : ℕ
ae_wildcard = 0

abbrev pub ae_ipv4 : ℕ
ae_ipv4 = 1

abbrev pub ae_ipv6 : ℕ
ae_ipv6 = 2

abbrev pub ae_ipv6_link_local : ℕ
ae_ipv6_link_local = 3

abbrev pub ae_ipv4_via_ipv6 : ℕ
ae_ipv4_via_ipv6 = 4

all_equal : ℕ → List ℕ → Bool
all_equal v [] = true
all_equal v (b ∷ bs) = b == v && all_equal v bs

-- An address is a slice of 4 or 16 bytes. `To4` also takes the mapped form of 16.
unfoldable pub to_4 : List ℕ → Option (List ℕ)
unfolding all_equal
to_4 addr =
    if length addr == 4
    then some addr
    else if length addr == 16
        && (all_equal 0 (take 10 addr) && all_equal 0xff (take 2 (drop 10 addr)))
    then some (drop 12 addr)
    else none

-- `To16` of an address that `To4` refuses is the address, if it has 16 bytes.
unfoldable pub encode_address : List ℕ → ℕ × List ℕ
encode_address addr = elim (to_4 addr) [
  | some v4 ↦ (ae_ipv4, v4)
  | none ↦ (ae_ipv6, if length addr == 16 then addr else [])
]

unfoldable pub decode_address : ℕ → List ℕ → Result Error (List ℕ)
decode_address ae body =
    if ae == ae_ipv4
    then if ltb (length body) 4 then err short_address else ok (take 4 body)
    else if ae == ae_ipv6
    then if ltb (length body) 16 then err short_address else ok (take 16 body)
    else if ae == ae_ipv6_link_local
    then if ltb (length body) 8
      then err short_address
      else ok (0xfe ∷ 0x80 ∷ (replicate 6 0 ++ take 8 body))
    else err (unsupported_encoding ae)

pub record Hello : Type 0 where
  pub seqno : ℕ
  pub interval : ℕ
  pub unicast : Bool
  pub tx_ts : ℕ
  pub has_ts : Bool

-- The body; the type is TLVHello.
unfoldable pub encode_hello : Hello → List ℕ
encode_hello h =
    put16 (if h.unicast then 0x8000 else 0)
    ++ (put16 h.seqno
        ++ (put16 h.interval
            ++ (if h.has_ts
                then encode_sub_tlvs
                    (record { kind = sub_tlv_timestamp; body = put32 h.tx_ts } ∷ [])
                else [])))

-- `ok && len(ts) >= 4`.
unfoldable pub hello_timestamp : Hello → Option (List ℕ) → Hello
hello_timestamp h (some (a ∷ b ∷ c ∷ d ∷ rest)) = record h { tx_ts = be32 a b c d; has_ts = true }
hello_timestamp h _ = h

unfoldable pub decode_hello : List ℕ → Result Error Hello
decode_hello (f0 ∷ f1 ∷ s0 ∷ s1 ∷ i0 ∷ i1 ∷ rest) = do
  subs ← decode_optional_sub_tlvs rest
  let h : Hello = record {
    seqno = be16 s0 s1;
    interval = be16 i0 i1;
    unicast = not (bit_and (be16 f0 f1) 0x8000 == 0);
    tx_ts = 0;
    has_ts = false;
  }
  ok (hello_timestamp h (find_sub_tlv subs sub_tlv_timestamp))
decode_hello _ = err short_packet

pub record Ihu : Type 0 where
  pub rx_cost : ℕ
  pub interval : ℕ
  pub origin_ts : ℕ
  pub receive_ts : ℕ
  pub has_ts : Bool

unfoldable pub encode_ihu : Ihu → List ℕ
encode_ihu u =
    ae_wildcard
    ∷ 0
    ∷ (put16 u.rx_cost
        ++ (put16 u.interval
            ++ (if u.has_ts
                then encode_sub_tlvs (
                    record {
                      kind = sub_tlv_timestamp;
                      body = put32 u.origin_ts ++ put32 u.receive_ts;
                    }
                    ∷ [])
                else [])))

unfoldable pub ihu_timestamp : Ihu → Option (List ℕ) → Ihu
ihu_timestamp u (some (a ∷ b ∷ c ∷ d ∷ e ∷ f ∷ g ∷ h ∷ rest)) = record u {
  origin_ts = be32 a b c d;
  receive_ts = be32 e f g h;
  has_ts = true;
}
ihu_timestamp u _ = u

unfoldable pub address_len : ℕ → ℕ
address_len ae = if ae == ae_ipv6 then 16 else if ae == ae_ipv6_link_local then 8 else 4

-- The address and what follows it; `none` under the wildcard encoding.
unfoldable pub ihu_address : ℕ → List ℕ → Result Error (Option (List ℕ) × List ℕ)
ihu_address ae rest =
    if ae == ae_wildcard
    then ok (none, rest)
    else (decode_address ae rest >>= λ addr. ok (some addr, drop (address_len ae) rest))

unfoldable pub decode_ihu : List ℕ → Result Error (Ihu × Option (List ℕ))
decode_ihu (ae ∷ reserved ∷ c0 ∷ c1 ∷ i0 ∷ i1 ∷ rest) = do
  (addr, tail) ← ihu_address ae rest
  subs ← decode_optional_sub_tlvs tail
  let u : Ihu = record {
    rx_cost = be16 c0 c1;
    interval = be16 i0 i1;
    origin_ts = 0;
    receive_ts = 0;
    has_ts = false;
  }
  ok (ihu_timestamp u (find_sub_tlv subs sub_tlv_timestamp), addr)
decode_ihu _ = err short_packet

-- A router id is eight bytes.
unfoldable pub encode_router_id : List ℕ → List ℕ
encode_router_id id = 0 ∷ 0 ∷ id

is_err {ℓ} : {A : Type ℓ} → Result Error A → Bool
is_err (ok a) = false
is_err (err e) = true

-- The id, and whether the TLV is otherwise ignored.
unfoldable pub decode_router_id : List ℕ → Result Error (List ℕ × Bool)
unfolding is_err
decode_router_id body =
    if ltb (length body) 10
    then err short_packet
    else ok (take 8 (drop 2 body), is_err (decode_optional_sub_tlvs (drop 10 body)))

unfoldable pub encode_next_hop : List ℕ → List ℕ
encode_next_hop addr = let (ae, a) = encode_address addr in ae ∷ 0 ∷ a

pub record NextHop : Type 0 where
  pub addr : List ℕ
  pub ae : ℕ
  pub ignore : Bool

-- The length that the encoding took: eight for a link-local address, else the address's own.
unfoldable pub next_hop_rest : ℕ → List ℕ → List ℕ → NextHop
unfolding is_err
next_hop_rest ae body addr =
    let len = if ae == ae_ipv6_link_local then 8 else length addr in
    record {
      addr = addr;
      ae = ae;
      ignore = is_err (decode_optional_sub_tlvs (drop (2 + len) body));
    }

unfoldable pub decode_next_hop : List ℕ → Result Error NextHop
decode_next_hop (ae ∷ reserved ∷ rest) = do
  addr ← decode_address ae rest
  ok (next_hop_rest ae (ae ∷ reserved ∷ rest) addr)
decode_next_hop _ = err short_packet

unfoldable pub encode_ack_req : ℕ → ℕ → List ℕ
encode_ack_req nonce interval = 0 ∷ 0 ∷ (put16 nonce ++ put16 interval)

unfoldable pub decode_ack_req : List ℕ → Result Error ℕ
decode_ack_req (r0 ∷ r1 ∷ n0 ∷ n1 ∷ i0 ∷ i1 ∷ rest) = do
  subs ← decode_optional_sub_tlvs rest
  ok (be16 n0 n1)
decode_ack_req _ = err short_packet

unfoldable pub encode_ack : ℕ → List ℕ
encode_ack nonce = put16 nonce
