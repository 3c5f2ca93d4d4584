-- ===== src/Babel/Raw/Filter.antt =====
-- What parsePacket accepts, internal/babel/rawpacket.go.
use ranet_lite.Prelude.{ℕ, zero, suc, ◌+◌, ◌-◌, ◌/◌, ◌^◌, ◌<◌, ◌≤◌, ◌≡◌, refl, ◌∙◌, arith}
use ranet_lite.Prelude.{Bool, true, false, not, ◌&&◌, ◌||◌, List, [], ◌∷◌, length, take, drop}
use ranet_lite.Prelude.{ltb, ◌==◌, if◌then◌else◌, get_or, Result, ok, err, length-drop, take_all}
use ranet_lite.Babel.Raw.{
  packet_too_short, not_ipv6, not_udp, bad_length, not_link_local, not_for_us, RawError, word, port,
  parse_packet, parse_udp, is_babel_packet, udp_checksum, fold_sum, same_bytes, group_octets,
}

-- Two rounds leave 16 bits of a 32-bit sum.
fold_sum-lt : (sum : ℕ) → sum < 2 ^ 32 → fold_sum 2 sum < 2 ^ 16
unfolding fold_sum
fold_sum-lt sum h = ground arith

get_or-drop : (n i : ℕ) (xs : List ℕ) → get_or (drop n xs) i 0 ≡ get_or xs (i + n) 0
get_or-drop zero i xs = let e : i + 0 ≡ i = omega arith in rw e refl
get_or-drop (suc n) i [] = refl
get_or-drop (suc n) i (x ∷ xs) =
    let e : i + suc n ≡ suc (i + n) = omega arith in rw e (get_or-drop n i xs)

udp_sound :
    (src dst udp : List ℕ) (len : ℕ) (from payload : List ℕ)
    → parse_udp src dst udp len ≡ ok (from, payload)
    → (word udp 2 ≡ port)
      × (udp_checksum src dst udp ≡ 0xffff)
      × (from ≡ src)
      × (payload ≡ take (len - 8) (drop 8 udp))
unfolding parse_udp
udp_sound src dst udp len from payload e = ground arith

-- A result behind a test that fails with an error.
if_ok :
    (b : Bool) (x : RawError) (r : Result RawError (List ℕ × List ℕ)) {v : List ℕ × List ℕ}
    → (if b then err x else r) ≡ ok v
    → (b ≡ false) × (r ≡ ok v)
if_ok true x r e = absurd cc
if_ok false x r e = (refl, e)

not_ltb : (a b : ℕ) → ltb a b ≡ false → b ≤ a
not_ltb a b e = ground arith

is_true : {a b : ℕ} → not (a == b) ≡ false → a ≡ b
is_true {a} {b} e = ground arith

whole_len : (len n : ℕ) → (ltb len 8 || not (40 + len == n)) ≡ false → 40 + len ≡ n
whole_len len n e = ground arith

kept : (b : Bool) → not b ≡ false → b ≡ true
kept true e = refl
kept false e = absurd cc

packet_sound :
    (is_link_local : List ℕ → Bool) (raw local_addr from payload : List ℕ)
    → parse_packet is_link_local raw local_addr ≡ ok (from, payload)
    → (48 ≤ length raw)
      × (get_or raw 0 0 / 2 ^ 4 ≡ 6)
      × (get_or raw 6 0 ≡ 17)
      × (40 + word raw 4 ≡ length raw)
      × (is_link_local (take 16 (drop 8 raw)) ≡ true)
      × (parse_udp (take 16 (drop 8 raw)) (take 16 (drop 24 raw)) (drop 40 raw) (word raw 4)
          ≡ ok (from, payload))
unfolding parse_packet
packet_sound is_link_local raw local_addr from payload e =
    let len : ℕ = word raw 4 in
    let src : List ℕ = take 16 (drop 8 raw) in
    let dst : List ℕ = take 16 (drop 24 raw) in
    let inner : Result RawError (List ℕ × List ℕ) = parse_udp src dst (drop 40 raw) len in
    let r5 : Result RawError (List ℕ × List ℕ) =
      if not (same_bytes dst group_octets) && not (same_bytes dst local_addr)
      then err not_for_us
      else inner in
    let r4 : Result RawError (List ℕ × List ℕ) =
      if not (is_link_local src) then err not_link_local else r5 in
    let r3 : Result RawError (List ℕ × List ℕ) =
      if ltb len 8 || not (40 + len == length raw) then err bad_length else r4 in
    let r2 : Result RawError (List ℕ × List ℕ) =
      if not (get_or raw 6 0 == 17) then err not_udp else r3 in
    let r1 : Result RawError (List ℕ × List ℕ) =
      if not (get_or raw 0 0 / 2 ^ 4 == 6) then err not_ipv6 else r2 in
    let (long, e1) = if_ok (ltb (length raw) 48) packet_too_short r1 e in
    let (six, e2) = if_ok (not (get_or raw 0 0 / 2 ^ 4 == 6)) not_ipv6 r2 e1 in
    let (udp, e3) = if_ok (not (get_or raw 6 0 == 17)) not_udp r3 e2 in
    let (whole, e4) = if_ok (ltb len 8 || not (40 + len == length raw)) bad_length r4 e3 in
    let (near, e5) = if_ok (not (is_link_local src)) not_link_local r5 e4 in
    let (ours, e6) =
      if_ok (not (same_bytes dst group_octets) && not (same_bytes dst local_addr)) not_for_us inner
        e5 in
    (
      not_ltb (length raw) 48 long,
      is_true six,
      is_true udp,
      whole_len len (length raw) whole,
      kept (is_link_local src) near,
      e6,
    )

drop-nil : (n : ℕ) → drop {A = ℕ} n [] ≡ []
drop-nil zero = refl
drop-nil (suc n) = refl

drop-drop : (m n : ℕ) (xs : List ℕ) → drop n (drop m xs) ≡ drop (m + n) xs
drop-drop zero n xs = let e : zero + n ≡ n = omega arith in rw e refl
drop-drop (suc m) n [] = let e : suc m + n ≡ suc (m + n) = omega arith in rw (e, drop-nil n) refl
drop-drop (suc m) n (x ∷ xs) =
    let e : suc m + n ≡ suc (m + n) = omega arith in rw e (drop-drop m n xs)

-- Whatever parsePacket accepts, the cheap filter isBabelPacket lets through; the source that it
-- returns is the one of the IPv6 header and link-local, the checksum verifies for that header, and
-- the payload is what follows the 40 bytes of the IPv6 header and the 8 of the UDP header.
pub parse_packet-is_babel_packet :
    (is_link_local : List ℕ → Bool) (raw local_addr from payload : List ℕ)
    → parse_packet is_link_local raw local_addr ≡ ok (from, payload)
    → (is_babel_packet raw ≡ true)
      × (from ≡ take 16 (drop 8 raw))
      × (is_link_local from ≡ true)
      × (udp_checksum from (take 16 (drop 24 raw)) (drop 40 raw) ≡ 0xffff)
      × (payload ≡ drop 48 raw)
parse_packet-is_babel_packet is_link_local raw local_addr from payload e =
    let (long, six, udp, whole, near, inner) =
      packet_sound is_link_local raw local_addr from payload e in
    let (to_port, sum, same, rest) =
      udp_sound (take 16 (drop 8 raw)) (take 16 (drop 24 raw)) (drop 40 raw) (word raw 4) from
        payload inner in
    let at42 : get_or (drop 40 raw) 2 0 ≡ get_or raw 42 0 = get_or-drop 40 2 raw in
    let at43 : get_or (drop 40 raw) 3 0 ≡ get_or raw 43 0 = get_or-drop 40 3 raw in
    let ports : word raw 42 ≡ port = omega (arith, to_port, at42, at43) in
    (
      unfold is_babel_packet in ground (arith, long, six, udp, ports),
      same,
      rw same near,
      rw same sum,
      rest
          ∙ take_all (word raw 4 - 8) (drop 8 (drop 40 raw))
              (omega (arith, length-drop 8 (drop 40 raw), length-drop 40 raw, whole, long))
          ∙ drop-drop 40 8 raw,
    )
