-- ===== src/Ike/Proposal/RoundTrip/Transforms.antt =====
-- Transforms and their attributes there and back, ike/payloads_sa.go.
use ranet_lite.Prelude.{ℕ, suc, ◌+◌, ◌-◌, ◌≤◌, ◌≡◌, refl, sym, ap, ◌∙◌, arith}
use ranet_lite.Prelude.{inl, inr, Bool, true, false, not, ◌&&◌, ◌||◌}
use ranet_lite.Prelude.{List, [], ◌∷◌, ◌++◌, length, ok}
use ranet_lite.Prelude.{ltb, ◌==◌, if◌then◌else◌, Bool-cases, ==_iff}
use ranet_lite.Prelude.{take_length-append, drop_length-append, length-append, append-nil}
use ranet_lite.Prelude.Order.{All}
use ranet_lite.Prelude.Bytes.{byte_of, be16, be16_bytes, u16, IsU16}
use ranet_lite.Ike.Proposal.{Transform, transform_attrs, encode_transform}
use ranet_lite.Ike.Proposal.{read_attribute, attribute_loop, decode_transform, encode_transforms}
use ranet_lite.Ike.Proposal.{transforms_loop}

-- A transform that the encoder can write: its words fit, and it came from no unknown attribute.
pub record IsTransform (t : Transform) : Type 0 where
  pub id_fits : IsU16 t.id
  pub key_fits : IsU16 t.key_length_bits
  pub known : t.unsupported_attributes ≡ false

attrs_short : (t : Transform) → length (transform_attrs t) ≤ 4
attrs_short t = ground arith

plain_transform : ℕ → ℕ → ℕ → Transform
plain_transform kind id bits = record {
  kind = kind;
  id = id;
  key_length_bits = bits;
  unsupported_attributes = false;
}

attributes_read :
    (kind id bits : ℕ)
    → IsU16 bits
    → let t = plain_transform kind id bits in
      attribute_loop
        (length (transform_attrs t))
        false
        (plain_transform kind id 0)
        (transform_attrs t)
      ≡ ok t
unfolding attribute_loop plain_transform read_attribute
attributes_read kind id bits h = elim (Bool-cases (bits == 0)) [
  | inl none ↦ rw (none, (==_iff _ _).0 none) refl
  | inr some ↦ rw (some, be16_bytes bits h, some) refl
]

more_byte : Bool → ℕ
more_byte last = if last then 0 else 3

more_byte_lem :
    (last : Bool)
    → ((not (more_byte last == 0) && not (more_byte last == 3)) ≡ false)
      × ((more_byte last == 3) ≡ not last)
unfolding more_byte
more_byte_lem true = (refl, refl)
more_byte_lem false = (refl, refl)

-- The frame of a transform around attributes that read as `t`.
decode_framed :
    (last : Bool) (kind id : ℕ) (attrs rest : List ℕ) (t : Transform)
    → IsU16 id
    → length attrs ≤ 4
    → attribute_loop (length attrs) false (plain_transform kind id 0) attrs ≡ ok t
    → let size = u16 (8 + length attrs) in
      decode_transform (
        more_byte last
          ∷ 0
          ∷ byte_of size 1
          ∷ byte_of size 0
          ∷ kind
          ∷ 0
          ∷ byte_of id 1
          ∷ byte_of id 0
          ∷ attrs
        ++ rest)
      ≡ ok (t, not last, rest)
unfolding decode_transform plain_transform
decode_framed last kind id attrs rest t h short read =
    let len : be16 (byte_of (u16 (8 + length attrs)) 1) (byte_of (u16 (8 + length attrs)) 0)
        ≡ 8 + length attrs =
      omega (arith, short) in
    let body : 8 + length attrs - 8 ≡ length attrs = omega arith in
    let fits : (ltb (8 + length attrs) 8 || ltb (8 + length (attrs ++ rest)) (8 + length attrs))
        ≡ false =
      ground (arith, length-append attrs rest) in
    let (known, three) = more_byte_lem last in
    rw
      (
        known,
        len,
        fits,
        body,
        take_length-append attrs rest,
        drop_length-append attrs rest,
        be16_bytes id h,
        read,
        three,
      )
      refl

decode-encode_transform :
    (last : Bool) (t : Transform) (rest : List ℕ)
    → IsTransform t
    → decode_transform (encode_transform last t ++ rest) ≡ ok (t, not last, rest)
unfolding encode_transform more_byte plain_transform
decode-encode_transform last t rest w =
    decode_framed last t.kind t.id (transform_attrs t) rest
      (plain_transform t.kind t.id t.key_length_bits) w.id_fits (attrs_short t)
      (attributes_read t.kind t.id t.key_length_bits w.key_fits)
    ∙ ap (λ (u : Bool). ok (record t { unsupported_attributes = u }, not last, rest)) (sym w.known)

decode-encode_last :
    (t : Transform) → IsTransform t → decode_transform (encode_transform true t) ≡ ok (t, false, [])
decode-encode_last t w =
    ap decode_transform (sym (append-nil (encode_transform true t)))
    ∙ decode-encode_transform true t [] w

pub transforms_loop-encode :
    (ts : List Transform)
    → All IsTransform ts
    → transforms_loop (length ts) (encode_transforms ts) ≡ ok (ts, [])
unfolding transforms_loop encode_transforms
transforms_loop-encode [] w = refl
transforms_loop-encode (t ∷ []) w = rw (decode-encode_last t w.0) refl
transforms_loop-encode (t ∷ u ∷ ts) w =
    let rest = encode_transforms (u ∷ ts) in
    let more : (suc (length ts) == 0) ≡ false = ground arith in
    rw (decode-encode_transform false t rest w.0, more, transforms_loop-encode (u ∷ ts) w.1) refl
