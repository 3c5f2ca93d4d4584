-- ===== src/Ike/Bodies/Selectors.antt =====
-- Traffic selectors there and back, ike/payloads_misc.go.
use ranet_lite.Prelude.{ℕ, ◌+◌, ◌-◌, ◌*◌, ◌/◌, ◌%◌, ◌<◌, ◌≤◌, ◌≡◌, refl, ap, ◌∙◌, arith}
use ranet_lite.Prelude.{◌⊎◌, inl, inr, false, not, ◌&&◌, ◌||◌}
use ranet_lite.Prelude.{List, [], ◌∷◌, ◌++◌, length, take, drop, ok}
use ranet_lite.Prelude.{ltb, ◌==◌, append-nil, append_assoc}
use ranet_lite.Prelude.{take_all, take-append, drop-append, length-append}
use ranet_lite.Prelude.Order.{All}
use ranet_lite.Prelude.Bytes.{byte_of, be16, be16_bytes, u16, u8, IsU16}
use ranet_lite.Ike.Bodies.{TrafficSelector, ts_ipv4_addr_range, ts_ipv6_addr_range}
use ranet_lite.Ike.Bodies.{
  to_4, to_16, family_bytes, copied, encode_selector, join_selectors, encode_ts,
}
use ranet_lite.Ike.Bodies.{decode_selector, selectors_loop, all_read, decode_ts}

-- The bytes of an address of each type.
abbrev pub IsRange : ℕ → ℕ → Type 0
IsRange kind size =
    ((kind ≡ ts_ipv4_addr_range) × (size ≡ 4)) ⊎ ((kind ≡ ts_ipv6_addr_range) × (size ≡ 16))

-- A selector of one of the two types, with addresses of the size of its type.
pub record IsSelector (ts : TrafficSelector) : Type 0 where
  pub size : ℕ
  pub range : IsRange ts.kind size
  pub start_size : length ts.start_addr ≡ size
  pub end_size : length ts.end_addr ≡ size
  pub start_fits : IsU16 ts.start_port
  pub end_fits : IsU16 ts.end_port

family_bytes-same :
    (kind size : ℕ) (ip : List ℕ) → IsRange kind size → length ip ≡ size → family_bytes kind ip ≡ ip
unfolding to_4 to_16
family_bytes-same kind size ip (inl (k, s)) e = ground (arith, k, s, e)
family_bytes-same kind size ip (inr (k, s)) e = ground (arith, k, s, e)

range_checks :
    (kind size : ℕ)
    → IsRange kind size
    → (((kind == ts_ipv4_addr_range) && not (size == 4))
        || ((kind == ts_ipv6_addr_range) && not (size == 16)))
      ≡ false
range_checks kind size (inl (k, s)) = rw (k, s) refl
range_checks kind size (inr (k, s)) = rw (k, s) refl

copied_all : (size : ℕ) (bytes : List ℕ) → length bytes ≡ size → copied size bytes ≡ bytes
copied_all size bytes e =
    let none_left : size - length bytes ≡ 0 = omega (arith, e) in
    rw (none_left, take_all size bytes e) (append-nil bytes)

range_le : (kind size : ℕ) → IsRange kind size → size ≤ 16
range_le kind size (inl (k, s)) = omega (arith, s)
range_le kind size (inr (k, s)) = omega (arith, s)

-- A selector on the wire, with addresses of `n` bytes.
abbrev frame : TrafficSelector → ℕ → List ℕ
frame ts n =
    let size = u16 (8 + 2 * n) in
    ts.kind
      ∷ ts.protocol
      ∷ byte_of size 1
      ∷ byte_of size 0
      ∷ byte_of ts.start_port 1
      ∷ byte_of ts.start_port 0
      ∷ byte_of ts.end_port 1
      ∷ byte_of ts.end_port 0
      ∷ ts.start_addr
    ++ ts.end_addr

encode_selector-frame :
    (ts : TrafficSelector) (w : IsSelector ts) → encode_selector ts ≡ frame ts w.size
unfolding encode_selector
encode_selector-frame ts w =
    let start = family_bytes-same ts.kind w.size ts.start_addr w.range w.start_size in
    let stop = family_bytes-same ts.kind w.size ts.end_addr w.range w.end_size in
    rw (start, stop, w.start_size, copied_all w.size ts.end_addr w.end_size) refl

decode_selector-frame :
    (ts : TrafficSelector) (rest : List ℕ) (w : IsSelector ts)
    → decode_selector (frame ts w.size ++ rest) ≡ ok (ts, rest)
unfolding decode_selector
decode_selector-frame ts rest w =
    let n = w.size in
    let small : n ≤ 16 = range_le ts.kind n w.range in
    let all = ts.start_addr ++ ts.end_addr in
    let len : be16 (byte_of (u16 (8 + 2 * n)) 1) (byte_of (u16 (8 + 2 * n)) 0) ≡ 8 + 2 * n =
      omega (arith, small) in
    let body : 8 + 2 * n - 8 ≡ 2 * n = omega arith in
    let half : 2 * n / 2 ≡ n = omega arith in
    let whole : length all ≡ 2 * n =
      omega (arith, length-append ts.start_addr ts.end_addr, w.start_size, w.end_size) in
    let fits : (ltb (8 + 2 * n) 8
          || (ltb (8 + length (all ++ rest)) (8 + 2 * n) || not (2 * n % 2 == 0)))
        ≡ false =
      ground (arith, length-append all rest, whole) in
    let assoc = append_assoc ts.start_addr ts.end_addr rest in
    let start : take n (all ++ rest) ≡ ts.start_addr =
      rw assoc (take-append n ts.start_addr (ts.end_addr ++ rest) w.start_size) in
    let stop : take n (drop n (all ++ rest)) ≡ ts.end_addr =
      rw (assoc, drop-append n ts.start_addr (ts.end_addr ++ rest) w.start_size)
        (take-append n ts.end_addr rest w.end_size) in
    rw
      (
        len,
        body,
        half,
        fits,
        range_checks ts.kind n w.range,
        start,
        stop,
        drop-append (2 * n) all rest whole,
        be16_bytes ts.start_port w.start_fits,
        be16_bytes ts.end_port w.end_fits,
      )
      refl

decode-encode_selector :
    (ts : TrafficSelector) (rest : List ℕ)
    → IsSelector ts
    → decode_selector (encode_selector ts ++ rest) ≡ ok (ts, rest)
decode-encode_selector ts rest w =
    ap (λ b. decode_selector (b ++ rest)) (encode_selector-frame ts w)
    ∙ decode_selector-frame ts rest w

selectors_loop-encode :
    (ts : List TrafficSelector)
    → All IsSelector ts
    → selectors_loop (length ts) (join_selectors ts) ≡ ok (ts, [])
unfolding selectors_loop
selectors_loop-encode [] w = refl
selectors_loop-encode (t ∷ ts) w =
    rw (decode-encode_selector t (join_selectors ts) w.0, selectors_loop-encode ts w.1) refl

-- Fewer than 256 selectors of the two types, with addresses of the size of their type and ports that
-- fit, decode to themselves.
pub decode_ts-encode_ts :
    (ts : List TrafficSelector)
    → All IsSelector ts
    → length ts < 256
    → decode_ts (encode_ts ts) ≡ ok ts
unfolding decode_ts encode_ts all_read
decode_ts-encode_ts ts w h =
    let count : u8 (length ts) ≡ length ts = omega (arith, h) in
    rw (count, selectors_loop-encode ts w) refl
