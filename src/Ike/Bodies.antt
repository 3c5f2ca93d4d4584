-- ===== src/Ike/Bodies.antt =====
-- The other payload bodies, ike/payloads_misc.go: key exchange, nonce, notify, delete,
-- identification and traffic selectors.
pub mod Selectors
pub mod Deletes
use ranet_lite.Prelude.{
  ℕ, zero, suc, ◌+◌, ◌-◌, ◌*◌, ◌/◌, ◌%◌, ◌^◌, Bool, true, false, not, ◌&&◌, ◌||◌,
}
use ranet_lite.Prelude.{List, [], ◌∷◌, ◌++◌, length, take, drop, replicate, Result, ok, err, ◌>>=◌}
use ranet_lite.Prelude.{ltb, ◌==◌, if◌then◌else◌, get_or}
use ranet_lite.Prelude.Bytes.{byte_of, be16, u8, u16}

pub data BodyError : Type 0 where
  short_body : BodyError
  notify_spi_truncated : BodyError
  ike_delete_with_spis : BodyError
  child_delete_spi_size : ℕ → BodyError
  invalid_delete_protocol : ℕ → BodyError
  invalid_delete_length : BodyError
  truncated_selector : BodyError
  invalid_selector_length : BodyError
  address_length_mismatch : BodyError
  trailing_selectors : BodyError

-- The two bytes between the group and the key stay zero.
unfoldable pub encode_ke : ℕ → List ℕ → List ℕ
encode_ke group key = byte_of group 1 ∷ byte_of group 0 ∷ 0 ∷ 0 ∷ key

unfoldable pub decode_ke : List ℕ → Result BodyError (ℕ × List ℕ)
decode_ke (g1 ∷ g0 ∷ r1 ∷ r0 ∷ key) = ok (be16 g1 g0, key)
decode_ke _ = err short_body

pub record Notify : Type 0 where
  pub protocol : ℕ
  pub spi : List ℕ
  pub kind : ℕ
  pub data_ : List ℕ

unfoldable pub encode_notify : Notify → List ℕ
encode_notify n =
    n.protocol ∷ u8 (length n.spi) ∷ byte_of n.kind 1 ∷ byte_of n.kind 0 ∷ n.spi ++ n.data_

unfoldable pub decode_notify : List ℕ → Result BodyError Notify
decode_notify (protocol ∷ spi_size ∷ k1 ∷ k0 ∷ rest) =
    if ltb (length rest) spi_size
    then err notify_spi_truncated
    else ok (record {
      protocol = protocol;
      spi = take spi_size rest;
      kind = be16 k1 k0;
      data_ = drop spi_size rest;
    })
decode_notify _ = err short_body

abbrev pub proto_ike : ℕ
proto_ike = 1

abbrev pub proto_ah : ℕ
proto_ah = 2

abbrev pub proto_esp : ℕ
proto_esp = 3

pub record Delete : Type 0 where
  pub protocol : ℕ
  pub spis : List (List ℕ)

abbrev pub first_size : List (List ℕ) → ℕ
first_size [] = 0
first_size (s ∷ ss) = length s

abbrev pub join : List (List ℕ) → List ℕ
join [] = []
join (s ∷ ss) = s ++ join ss

unfoldable pub encode_delete : Delete → List ℕ
encode_delete d =
    d.protocol
    ∷ u8 (first_size d.spis)
    ∷ byte_of (u16 (length d.spis)) 1
    ∷ byte_of (u16 (length d.spis)) 0
    ∷ join d.spis

-- The loop over the SPIs. A round takes `spi_size` bytes, one at least, so the number of bytes is
-- enough fuel.
unfoldable pub split_spis : ℕ → ℕ → List ℕ → List (List ℕ)
split_spis zero size rest = []
split_spis (suc fuel) size [] = []
split_spis (suc fuel) size (b ∷ rest) =
    take size (b ∷ rest) ∷ split_spis fuel size (drop size (b ∷ rest))

unfoldable pub check_delete : ℕ → ℕ → ℕ → Result BodyError (Unit {0})
check_delete protocol spi_size count =
    if protocol == proto_ike
    then if not (spi_size == 0) || not (count == 0) then err ike_delete_with_spis else ok tt
    else if protocol == proto_ah || protocol == proto_esp
    then if not (spi_size == 4) then err (child_delete_spi_size spi_size) else ok tt
    else err (invalid_delete_protocol protocol)

unfoldable pub decode_delete : List ℕ → Result BodyError Delete
decode_delete (protocol ∷ spi_size ∷ c1 ∷ c0 ∷ rest) =
    let count = be16 c1 c0 in
    check_delete protocol spi_size count >>= λ _.
    if not (4 + length rest == 4 + spi_size * count)
    then err invalid_delete_length
    else ok (record { protocol = protocol; spis = split_spis (length rest) spi_size rest })
decode_delete _ = err short_body

unfoldable pub encode_id : ℕ → List ℕ → List ℕ
encode_id id_type data_ = id_type ∷ 0 ∷ 0 ∷ 0 ∷ data_

unfoldable pub decode_id : List ℕ → Result BodyError (ℕ × List ℕ)
decode_id (id_type ∷ r2 ∷ r1 ∷ r0 ∷ data_) = ok (id_type, data_)
decode_id _ = err short_body

abbrev pub ts_ipv4_addr_range : ℕ
ts_ipv4_addr_range = 7

abbrev pub ts_ipv6_addr_range : ℕ
ts_ipv6_addr_range = 8

pub record TrafficSelector : Type 0 where
  pub kind : ℕ
  pub protocol : ℕ
  pub start_port : ℕ
  pub end_port : ℕ
  pub start_addr : List ℕ
  pub end_addr : List ℕ

abbrev pub v4_in_v6_prefix : List ℕ
v4_in_v6_prefix = replicate 10 0 ++ (0xff ∷ 0xff ∷ [])

unfoldable pub same_bytes : List ℕ → List ℕ → Bool
same_bytes [] [] = true
same_bytes [] (b ∷ bs) = false
same_bytes (a ∷ as_) [] = false
same_bytes (a ∷ as_) (b ∷ bs) = a == b && same_bytes as_ bs

-- `To4` and `To16` of net.IP, with nil as the empty list.
unfoldable pub to_4 : List ℕ → List ℕ
to_4 ip =
    if length ip == 4
    then ip
    else if length ip == 16 && same_bytes (take 12 ip) v4_in_v6_prefix
    then drop 12 ip
    else []

unfoldable pub to_16 : List ℕ → List ℕ
to_16 ip = if length ip == 4 then v4_in_v6_prefix ++ ip else if length ip == 16 then ip else []

abbrev pub family_bytes : ℕ → List ℕ → List ℕ
family_bytes kind ip = if kind == ts_ipv6_addr_range then to_16 ip else to_4 ip

-- `copy` into `size` zero bytes.
abbrev pub copied : ℕ → List ℕ → List ℕ
copied size bytes = take size bytes ++ replicate (size - length bytes) 0

unfoldable pub encode_selector : TrafficSelector → List ℕ
encode_selector ts =
    let addr = family_bytes ts.kind ts.start_addr in
    let size = u16 (8 + 2 * length addr) in
    ts.kind
      ∷ ts.protocol
      ∷ byte_of size 1
      ∷ byte_of size 0
      ∷ byte_of ts.start_port 1
      ∷ byte_of ts.start_port 0
      ∷ byte_of ts.end_port 1
      ∷ byte_of ts.end_port 0
      ∷ addr
    ++ copied (length addr) (family_bytes ts.kind ts.end_addr)

abbrev pub join_selectors : List TrafficSelector → List ℕ
join_selectors [] = []
join_selectors (ts ∷ rest) = encode_selector ts ++ join_selectors rest

unfoldable pub encode_ts : List TrafficSelector → List ℕ
encode_ts selectors = u8 (length selectors) ∷ 0 ∷ 0 ∷ 0 ∷ join_selectors selectors

unfoldable pub decode_selector : List ℕ → Result BodyError (TrafficSelector × List ℕ)
decode_selector (kind ∷ protocol ∷ l1 ∷ l0 ∷ s1 ∷ s0 ∷ e1 ∷ e0 ∷ rest) =
    let tlen = be16 l1 l0 in
    let alen = (tlen - 8) / 2 in
    if ltb tlen 8 || (ltb (8 + length rest) tlen || not ((tlen - 8) % 2 == 0))
    then err invalid_selector_length
    else if (kind == ts_ipv4_addr_range && not (alen == 4))
        || (kind == ts_ipv6_addr_range && not (alen == 16))
    then err address_length_mismatch
    else ok (
      record {
        kind = kind;
        protocol = protocol;
        start_port = be16 s1 s0;
        end_port = be16 e1 e0;
        start_addr = take alen rest;
        end_addr = take alen (drop alen rest);
      },
      drop (tlen - 8) rest,
    )
decode_selector _ = err truncated_selector

unfoldable pub selectors_loop : ℕ → List ℕ → Result BodyError (List TrafficSelector × List ℕ)
selectors_loop zero rest = ok ([], rest)
selectors_loop (suc count) rest = decode_selector rest >>= λ step.
    selectors_loop count step.1 >>= λ found. ok (step.0 ∷ found.0, found.1)

unfoldable pub all_read : List TrafficSelector × List ℕ → Result BodyError (List TrafficSelector)
all_read (found, []) = ok found
all_read (found, b ∷ bs) = err trailing_selectors

unfoldable pub decode_ts : List ℕ → Result BodyError (List TrafficSelector)
decode_ts (count ∷ r2 ∷ r1 ∷ r0 ∷ rest) = selectors_loop count rest >>= all_read
decode_ts _ = err short_body
