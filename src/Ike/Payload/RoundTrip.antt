-- ===== src/Ike/Payload/RoundTrip.antt =====
-- The payload chain of ike/payload.go there and back.
use ranet_lite.Prelude.{ℕ, zero, suc, ◌+◌, ◌-◌, ◌^◌, ◌<◌, ◌≡◌, ◌≢◌, refl, ◌∙◌, arith}
use ranet_lite.Prelude.{Bool, true, false, not, ◌||◌, bit_and}
use ranet_lite.Prelude.{List, [], ◌∷◌, ◌++◌, length, ok}
use ranet_lite.Prelude.{ltb, ◌==◌, if◌then◌else◌}
use ranet_lite.Prelude.{take_length-append, drop_length-append, length-append}
use ranet_lite.Prelude.Order.{All}
use ranet_lite.Prelude.Bytes.{byte_of, be16, be16_bytes}
use ranet_lite.Ike.Payload.{RawPayload, first_type, payload_len, payload_none}
use ranet_lite.Ike.Payload.{encode_payload_chain, take_payload, end_of_chain, chain_loop}
use ranet_lite.Ike.Payload.{decode_payload_chain}

-- A payload with a type, whose length fits its field.
pub record IsPayload (p : RawPayload) : Type 0 where
  pub typed : p.kind ≢ payload_none
  pub fits : 4 + length p.body < 2 ^ 16

abbrev pub critical_byte : Bool → ℕ
critical_byte c = if c then 0x80 else 0

critical_byte_lem : (c : Bool) → not (bit_and (critical_byte c) 0x80 == 0) ≡ c
critical_byte_lem true = refl
critical_byte_lem false = refl

-- One payload, in front of whatever follows.
abbrev pub payload_bytes : ℕ → RawPayload → List ℕ → List ℕ
payload_bytes next p rest =
    next ∷ critical_byte p.critical ∷ byte_of (payload_len p) 1 ∷ byte_of (payload_len p) 0 ∷ p.body
    ++ rest

pub take-payload_bytes :
    (next : ℕ) (p : RawPayload) (rest : List ℕ)
    → IsPayload p
    → take_payload p.kind (payload_bytes next p rest) ≡ ok (p, next, rest)
unfolding take_payload
take-payload_bytes next p rest w =
    let len : payload_len p ≡ 4 + length p.body = omega (arith, w.fits) in
    let body : 4 + length p.body - 4 ≡ length p.body = omega arith in
    let bytes : be16 (byte_of (payload_len p) 1) (byte_of (payload_len p) 0) ≡ 4 + length p.body =
      be16_bytes (payload_len p) (omega (arith, w.fits)) ∙ len in
    let fits : (ltb (4 + length p.body) 4 || ltb (4 + length (p.body ++ rest)) (4 + length p.body))
        ≡ false =
      ground (arith, length-append p.body rest) in
    rw
      (
        bytes,
        fits,
        body,
        critical_byte_lem p.critical,
        take_length-append p.body rest,
        drop_length-append p.body rest,
      )
      refl

chain_loop-encode :
    (ps : List RawPayload) (fuel : ℕ)
    → All IsPayload ps
    → length (encode_payload_chain ps) < fuel
    → chain_loop fuel (first_type ps) (encode_payload_chain ps) ≡ ok ps
unfolding chain_loop encode_payload_chain end_of_chain
chain_loop-encode ps zero w h = absurd (omega arith)
chain_loop-encode [] (suc fuel) w h = refl
chain_loop-encode (p ∷ ps) (suc fuel) w h =
    let typed : (p.kind == payload_none) ≡ false = ground (arith, w.0.typed) in
    let rest = encode_payload_chain ps in
    let shorter : length rest < fuel = omega (arith, h, length-append p.body rest) in
    rw (typed, take-payload_bytes (first_type ps) p rest w.0, chain_loop-encode ps fuel w.1 shorter)
      refl

-- Payloads with types and lengths that fit decode to themselves.
pub decode_payload_chain-encode :
    (ps : List RawPayload)
    → All IsPayload ps
    → decode_payload_chain (first_type ps) (encode_payload_chain ps) ≡ ok ps
unfolding decode_payload_chain
decode_payload_chain-encode ps w = chain_loop-encode ps _ w (omega arith)
