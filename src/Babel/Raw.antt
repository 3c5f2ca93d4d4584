-- ===== src/Babel/Raw.antt =====
-- The IPv6 and UDP headers around a Babel payload, internal/babel/rawpacket.go. An address is its 16
-- bytes.
pub mod Filter
use ranet_lite.Prelude.{ℕ, zero, suc, ◌+◌, ◌-◌, ◌*◌, ◌/◌, ◌%◌, ◌^◌}
use ranet_lite.Prelude.{Bool, true, false, not, ◌&&◌, ◌||◌, List, [], ◌∷◌, ◌++◌, length, take, drop}
use ranet_lite.Prelude.{ltb, leb, ◌==◌, if◌then◌else◌, replicate, get_or, Result, ok, err}
use ranet_lite.Prelude.Bytes.{u16, u32, be16, byte_of}
use ranet_lite.Babel.Messages.{put16, put32}

abbrev pub next_header_udp : ℕ
next_header_udp = 17

abbrev pub ipv6_header_len : ℕ
ipv6_header_len = 40

abbrev pub udp_header_len : ℕ
udp_header_len = 8

abbrev pub babel_hop_limit : ℕ
babel_hop_limit = 1

abbrev pub port : ℕ
port = 6696

-- ff02::1:6
abbrev pub group_octets : List ℕ
group_octets = 0xff ∷ 2 ∷ (replicate 11 0 ++ (1 ∷ 0 ∷ 6 ∷ []))

abbrev pub word : List ℕ → ℕ → ℕ
word raw i = be16 (get_or raw i 0) (get_or raw (i + 1) 0)

abbrev pub same_bytes : List ℕ → List ℕ → Bool
same_bytes [] [] = true
same_bytes (a ∷ as') (b ∷ bs) = a == b && same_bytes as' bs
same_bytes _ _ = false

-- The words of a slice, and an odd byte as the high half of one.
unfoldable pub add_words : List ℕ → ℕ → ℕ
add_words [] sum = sum
add_words (a ∷ []) sum = u32 (sum + a * 2 ^ 8)
add_words (a ∷ b ∷ rest) sum = add_words rest (u32 (sum + be16 a b))

-- `for sum>>16 != 0`
unfoldable pub fold_sum : ℕ → ℕ → ℕ
fold_sum zero sum = sum
fold_sum (suc fuel) sum =
    let next = fold_sum fuel (sum % 2 ^ 16 + sum / 2 ^ 16) in
    if sum / 2 ^ 16 == 0 then sum else next

-- Two rounds for a sum of 32 bits.
unfoldable pub udp_checksum : List ℕ → List ℕ → List ℕ → ℕ
udp_checksum src dst udp =
    let header = put32 (length udp) ++ (0 ∷ 0 ∷ 0 ∷ next_header_udp ∷ []) in
    let sum = add_words udp (add_words header (add_words dst (add_words src 0))) in
    let cs = 0xffff - u16 (fold_sum 2 sum) in if cs == 0 then 0xffff else cs

unfoldable pub build_packet : List ℕ → List ℕ → List ℕ → List ℕ
build_packet src dst payload =
    let len = put16 (udp_header_len + length payload) in
    let ports = put16 port ++ (put16 port ++ len) in
    let cs = udp_checksum src dst (ports ++ (0 ∷ 0 ∷ payload)) in
    0x60
    ∷ 0
    ∷ 0
    ∷ 0
    ∷ (len
        ++ (next_header_udp ∷ babel_hop_limit ∷ (src ++ (dst ++ (ports ++ (put16 cs ++ payload))))))

unfoldable pub is_babel_packet : List ℕ → Bool
is_babel_packet raw =
    leb (ipv6_header_len + udp_header_len) (length raw)
    && (get_or raw 0 0 / 2 ^ 4 == 6 && (get_or raw 6 0 == next_header_udp && word raw 42 == port))

pub data RawError : Type 0 where
  packet_too_short not_ipv6 not_udp bad_length not_link_local not_for_us : RawError
  wrong_source_port wrong_port bad_udp_length missing_checksum bad_checksum : RawError

unfoldable pub parse_udp : List ℕ → List ℕ → List ℕ → ℕ → Result RawError (List ℕ × List ℕ)
parse_udp src dst udp payload_len =
    if not (word udp 0 == port)
    then err wrong_source_port
    else if not (word udp 2 == port)
    then err wrong_port
    else if not (word udp 4 == payload_len)
    then err bad_udp_length
    else if word udp 6 == 0
    then err missing_checksum
    else if not (udp_checksum src dst udp == 0xffff)
    then err bad_checksum
    else ok (src, take (payload_len - udp_header_len) (drop udp_header_len udp))

-- `is_link_local` is netip.Addr.IsLinkLocalUnicast of an IPv6 address.
unfoldable pub parse_packet : (List ℕ → Bool) → List ℕ → List ℕ → Result RawError (List ℕ × List ℕ)
parse_packet is_link_local raw local_addr =
    let payload_len = word raw 4 in
    let src = take 16 (drop 8 raw) in
    let dst = take 16 (drop 24 raw) in
    if ltb (length raw) (ipv6_header_len + udp_header_len)
    then err packet_too_short
    else if not (get_or raw 0 0 / 2 ^ 4 == 6)
    then err not_ipv6
    else if not (get_or raw 6 0 == next_header_udp)
    then err not_udp
    else if ltb payload_len udp_header_len || not (ipv6_header_len + payload_len == length raw)
    then err bad_length
    else if not (is_link_local src)
    then err not_link_local
    else if not (same_bytes dst group_octets) && not (same_bytes dst local_addr)
    then err not_for_us
    else parse_udp src dst (drop ipv6_header_len raw) payload_len
