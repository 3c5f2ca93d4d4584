-- ===== src/Babel/Messages/RoundTrip.antt =====
-- Decoding what internal/babel/hello_ihu.go and misc.go encode.
use ranet_lite.Prelude.{ℕ, ◌≡◌, refl, arith}
use ranet_lite.Prelude.{Bool, true, false, none, [], ◌∷◌, ok, ◌⊎◌, ap, sym}
use mathlib.Core.Path.{subst, ap₂}
use ranet_lite.Prelude.Bytes.{IsU16, IsU32, be16_bytes, be32_bytes}
use ranet_lite.Babel.Tlv.{decode_loop, decode_tlv_frames, decode_sub_tlvs, decode_optional_sub_tlvs}
use ranet_lite.Babel.Tlv.{encode_sub_tlvs, reject_mandatory, find_sub_tlv, keep}
use ranet_lite.Babel.Messages.{Hello, Ihu, encode_hello, decode_hello, hello_timestamp}
use ranet_lite.Babel.Messages.{encode_ihu, decode_ihu, ihu_timestamp, ihu_address}
use ranet_lite.Babel.Messages.{encode_router_id, decode_router_id, encode_ack_req, decode_ack_req}

-- A Hello that its fields can hold; a timestamp that is left out is 0.
abbrev pub IsHello : Hello → Type 0
IsHello h = IsU16 h.seqno × IsU16 h.interval × IsU32 h.tx_ts × ((h.has_ts ≡ true) ⊎ (h.tx_ts ≡ 0))

hello_plain :
    (s i : ℕ) (u : Bool)
    → IsU16 s
    → IsU16 i
    → let h : Hello = record { seqno = s; interval = i; unicast = u; tx_ts = 0; has_ts = false } in
      decode_hello (encode_hello h) ≡ ok h
unfolding decode_hello encode_hello hello_timestamp decode_optional_sub_tlvs decode_sub_tlvs
    decode_tlv_frames decode_loop reject_mandatory find_sub_tlv
hello_plain s i true hs hi = rw (be16_bytes s hs, be16_bytes i hi) refl
hello_plain s i false hs hi = rw (be16_bytes s hs, be16_bytes i hi) refl

hello_stamped :
    (s i ts : ℕ) (u : Bool)
    → IsU16 s
    → IsU16 i
    → IsU32 ts
    → let h : Hello = record { seqno = s; interval = i; unicast = u; tx_ts = ts; has_ts = true } in
      decode_hello (encode_hello h) ≡ ok h
unfolding decode_hello encode_hello hello_timestamp decode_optional_sub_tlvs decode_sub_tlvs
    decode_tlv_frames decode_loop reject_mandatory find_sub_tlv encode_sub_tlvs keep
hello_stamped s i ts true hs hi ht = rw (be16_bytes s hs, be16_bytes i hi, be32_bytes ts ht) refl
hello_stamped s i ts false hs hi ht = rw (be16_bytes s hs, be16_bytes i hi, be32_bytes ts ht) refl

-- A Hello decodes to itself, its flag and its timestamp included, if its fields fit and a
-- timestamp that is not sent is 0.
pub decode_hello-encode_hello : (h : Hello) → IsHello h → decode_hello (encode_hello h) ≡ ok h
decode_hello-encode_hello h w = by_stamp h.has_ts refl
  where
    by_stamp : (b : Bool) → h.has_ts ≡ b → decode_hello (encode_hello h) ≡ ok h
    by_stamp true e =
        subst (λ (g : Hello). decode_hello (encode_hello g) ≡ ok g)
          (ap (λ (b : Bool). let g : Hello = record h { has_ts = b } in g) (sym e))
          (hello_stamped h.seqno h.interval h.tx_ts h.unicast w.0 w.1 w.2)
    by_stamp false e =
        let absent : h.tx_ts ≡ 0 = ground arith in
        subst (λ (g : Hello). decode_hello (encode_hello g) ≡ ok g)
          (ap₂ (λ (b : Bool) (t : ℕ). let g : Hello = record h { has_ts = b; tx_ts = t } in g)
            (sym e) (sym absent))
          (hello_plain h.seqno h.interval h.unicast w.0 w.1)

-- An IHU that its fields can hold; timestamps that are left out are 0.
abbrev pub IsIhu : Ihu → Type 0
IsIhu u =
    IsU16 u.rx_cost
    × IsU16 u.interval
    × IsU32 u.origin_ts
    × IsU32 u.receive_ts
    × ((u.has_ts ≡ true) ⊎ ((u.origin_ts ≡ 0) × (u.receive_ts ≡ 0)))

ihu_plain :
    (c i : ℕ)
    → IsU16 c
    → IsU16 i
    → let u : Ihu = record {
      rx_cost = c;
      interval = i;
      origin_ts = 0;
      receive_ts = 0;
      has_ts = false;
    } in
      decode_ihu (encode_ihu u) ≡ ok (u, none)
unfolding decode_ihu encode_ihu ihu_timestamp ihu_address decode_optional_sub_tlvs decode_sub_tlvs
    decode_tlv_frames decode_loop reject_mandatory find_sub_tlv
ihu_plain c i hc hi = rw (be16_bytes c hc, be16_bytes i hi) refl

ihu_stamped :
    (c i o r : ℕ)
    → IsU16 c
    → IsU16 i
    → IsU32 o
    → IsU32 r
    → let u : Ihu = record {
      rx_cost = c;
      interval = i;
      origin_ts = o;
      receive_ts = r;
      has_ts = true;
    } in
      decode_ihu (encode_ihu u) ≡ ok (u, none)
unfolding decode_ihu encode_ihu ihu_timestamp ihu_address decode_optional_sub_tlvs decode_sub_tlvs
    decode_tlv_frames decode_loop reject_mandatory find_sub_tlv encode_sub_tlvs keep
ihu_stamped c i o r hc hi ho hr =
    rw (be16_bytes c hc, be16_bytes i hi, be32_bytes o ho, be32_bytes r hr) refl

-- An IHU decodes to itself, with no address, if its fields fit and timestamps that are not sent
-- are 0.
pub decode_ihu-encode_ihu : (u : Ihu) → IsIhu u → decode_ihu (encode_ihu u) ≡ ok (u, none)
decode_ihu-encode_ihu u w = by_stamp u.has_ts refl
  where
    by_stamp : (b : Bool) → u.has_ts ≡ b → decode_ihu (encode_ihu u) ≡ ok (u, none)
    by_stamp true e =
        subst (λ (g : Ihu). decode_ihu (encode_ihu g) ≡ ok (g, none))
          (ap (λ (b : Bool). let g : Ihu = record u { has_ts = b } in g) (sym e))
          (ihu_stamped u.rx_cost u.interval u.origin_ts u.receive_ts w.0 w.1 w.2 w.3)
    by_stamp false e =
        let absent : (u.origin_ts ≡ 0) × (u.receive_ts ≡ 0) = ground arith in
        subst (λ (g : Ihu). decode_ihu (encode_ihu g) ≡ ok (g, none)) (ihu_path e absent.0 absent.1)
          (ihu_plain u.rx_cost u.interval w.0 w.1)
      where
        ihu_path :
            u.has_ts ≡ false
            → u.origin_ts ≡ 0
            → u.receive_ts ≡ 0
            → ◌≡◌ {A = Ihu}
                (record {
                  rx_cost = u.rx_cost;
                  interval = u.interval;
                  origin_ts = 0;
                  receive_ts = 0;
                  has_ts = false;
                })
                u
        ihu_path p q r = ground arith

-- The router id and the nonce come back out of the TLVs that carry them.
pub decode_router_id-encode :
    (a b c d e f g h : ℕ) (nonce interval : ℕ)
    → IsU16 nonce
    → (decode_router_id (encode_router_id (a ∷ b ∷ c ∷ d ∷ e ∷ f ∷ g ∷ h ∷ []))
        ≡ ok (a ∷ b ∷ c ∷ d ∷ e ∷ f ∷ g ∷ h ∷ [], false))
      × (decode_ack_req (encode_ack_req nonce interval) ≡ ok nonce)
unfolding decode_router_id encode_router_id decode_ack_req encode_ack_req decode_optional_sub_tlvs
    decode_sub_tlvs decode_tlv_frames decode_loop reject_mandatory
decode_router_id-encode a b c d e f g h nonce interval hn = (refl, rw (be16_bytes nonce hn) refl)
