-- ===== src/Ike/Payload/Whole.antt =====
-- A whole message of ike/payload.go there and back.
use ranet_lite.Prelude.{ℕ, zero, suc, ◌+◌, ◌-◌, ◌<◌, ◌≡◌, ◌≢◌, refl, sym, ap, ◌∙◌, arith}
use ranet_lite.Prelude.{inl, inr, true, false}
use ranet_lite.Prelude.{List, [], ◌∷◌, ◌++◌, length, ok}
use ranet_lite.Prelude.{
  ltb, ◌==◌, if◌then◌else◌, Bool-cases, ==_iff, ==_ne, length-append, drop-append,
}
use ranet_lite.Prelude.Order.{All}
use ranet_lite.Prelude.Bytes.{u32, IsU32, IsU64}
use ranet_lite.Ike.Header.{Header, encode_header, decode_header, decode_header-encode_header}
use ranet_lite.Ike.Payload.{RawPayload, Message, first_type, payload_none, payload_sk, header_len}
use ranet_lite.Ike.Payload.{encode_payload_chain, end_of_chain, message_loop}
use ranet_lite.Ike.Payload.{encode_message, decode_body, decode_message}
use ranet_lite.Ike.Payload.RoundTrip.{IsPayload, payload_bytes, take-payload_bytes}

-- An SK payload is the last one.
abbrev pub EndsAtSk : List RawPayload → Type 0
EndsAtSk [] = Unit
EndsAtSk (p ∷ []) = Unit
EndsAtSk (p ∷ q ∷ ps) = (p.kind ≢ payload_sk) × EndsAtSk (q ∷ ps)

-- Where the SK payload starts, for payloads from `at` on.
abbrev pub sk_offset : ℕ → List RawPayload → ℕ
sk_offset at [] = 0
sk_offset at (p ∷ ps) = if p.kind == payload_sk then at else sk_offset (at + (4 + length p.body)) ps

-- A payload that is no SK payload, and then the rest.
loop_more :
    (total fuel next : ℕ) (p : RawPayload) (rest : List ℕ) (found : List RawPayload × ℕ)
    → IsPayload p
    → p.kind ≢ payload_sk
    → message_loop total fuel next rest ≡ ok found
    → message_loop total (suc fuel) p.kind (payload_bytes next p rest) ≡ ok (p ∷ found.0, found.1)
unfolding message_loop
loop_more total fuel next p rest found w ne e =
    let typed : (p.kind == payload_none) ≡ false = ground (arith, w.typed) in
    let plain : (p.kind == payload_sk) ≡ false = ground arith in
    rw (typed, take-payload_bytes next p rest w, plain, e) refl

-- An SK payload ends the message.
loop_sk :
    (total fuel next : ℕ) (p : RawPayload)
    → IsPayload p
    → p.kind ≡ payload_sk
    → message_loop total (suc fuel) p.kind (payload_bytes next p [])
      ≡ ok (p ∷ [], total - length (payload_bytes next p []))
unfolding message_loop
loop_sk total fuel next p w e =
    let typed : (p.kind == payload_none) ≡ false = ground (arith, w.typed) in
    let sk : (p.kind == payload_sk) ≡ true = ground arith in
    rw (typed, take-payload_bytes next p [] w, sk) refl

loop_end : (total fuel : ℕ) → message_loop total (suc fuel) payload_none [] ≡ ok ([], 0)
unfolding message_loop end_of_chain
loop_end total fuel = refl

plain_offset :
    (p : RawPayload) (ps : List RawPayload) (at : ℕ)
    → p.kind ≢ payload_sk
    → sk_offset at (p ∷ ps) ≡ sk_offset (at + (4 + length p.body)) ps
plain_offset p ps at ne = ground arith

message_loop-encode :
    (ps : List RawPayload) (total at fuel : ℕ)
    → All IsPayload ps
    → EndsAtSk ps
    → at + length (encode_payload_chain ps) ≡ total
    → length (encode_payload_chain ps) < fuel
    → message_loop total fuel (first_type ps) (encode_payload_chain ps) ≡ ok (ps, sk_offset at ps)
unfolding encode_payload_chain
message_loop-encode ps total at zero w s e h = absurd (omega arith)
message_loop-encode [] total at (suc fuel) w s e h = loop_end total fuel
message_loop-encode (p ∷ []) total at (suc zero) w s e h = absurd (omega (arith, h))
message_loop-encode (p ∷ []) total at (suc (suc fuel)) w s e h =
    elim (Bool-cases (p.kind == payload_sk)) [
      | inl sk ↦
          let bytes = payload_bytes payload_none p [] in
          let here : total - length bytes ≡ at = omega (arith, e) in
          rw (loop_sk total (suc fuel) payload_none p w.0 ((==_iff _ _).0 sk), here, sk) refl
      | inr plain ↦ rw plain (
          loop_more total (suc fuel) payload_none p [] ([], 0) w.0 (==_ne _ _ plain)
            (loop_end total fuel))
    ]
message_loop-encode (p ∷ q ∷ ps) total at (suc fuel) w s e h =
    let rest = encode_payload_chain (q ∷ ps) in
    let size = length-append p.body rest in
    let found =
      message_loop-encode (q ∷ ps) total (at + (4 + length p.body)) fuel w.1 s.1
        (omega (arith, e, size)) (omega (arith, h, size)) in
    loop_more total fuel q.kind p rest (q ∷ ps, sk_offset (at + (4 + length p.body)) (q ∷ ps)) w.0
      s.0 found
    ∙ ap (λ (o : ℕ). ok (p ∷ q ∷ ps, o)) (sym (plain_offset p (q ∷ ps) at s.0))

-- The header as `encode` fills it in, read back.
abbrev pub framed : Message → Header
framed m = record m.header {
  next_payload = first_type m.payloads;
  length = header_len + length (encode_payload_chain m.payloads);
  major_version = 2;
  minor_version = 0;
}

-- The header that is written.
abbrev written : Message → Header
written m = record m.header {
  next_payload = first_type m.payloads;
  length = u32 (header_len + length (encode_payload_chain m.payloads) + 0);
}

encode_header-length : (h : Header) → length (encode_header h) ≡ header_len
unfolding encode_header
encode_header-length h = refl

decode_body-encode :
    (h : Header) (front : List ℕ) (ps : List RawPayload)
    → length front ≡ header_len
    → h.length ≡ header_len + length (encode_payload_chain ps)
    → h.next_payload ≡ first_type ps
    → All IsPayload ps
    → EndsAtSk ps
    → decode_body h (front ++ encode_payload_chain ps)
      ≡ ok (record { header = h; payloads = ps; sk_header_offset = sk_offset header_len ps })
unfolding decode_body
decode_body-encode h front ps f l n w s =
    let body = encode_payload_chain ps in
    let big : ltb h.length header_len ≡ false = ground (arith, l) in
    let whole : (h.length == length (front ++ body)) ≡ true =
      ground (arith, l, f, length-append front body) in
    let loop : message_loop h.length (suc (length body)) h.next_payload body
        ≡ ok (ps, sk_offset header_len ps) =
      ap (λ t. message_loop h.length (suc (length body)) t body) n
      ∙ message_loop-encode ps h.length header_len (suc (length body)) w s (sym l) (omega arith) in
    rw (big, whole, drop-append header_len front body f, loop) refl

decode_message-header :
    (b : List ℕ) (h : Header) → decode_header b ≡ ok h → decode_message b ≡ decode_body h b
unfolding decode_message
decode_message-header b h e = rw (e, decode_message) refl

-- A message whose payloads have types and lengths that fit, with an SK payload at most at its end,
-- decodes to itself from what `encode` writes without a trailer: the header comes back as `encode`
-- fills it in, and the offset is that of the SK payload.
pub decode_message-encode_message :
    (m : Message)
    → IsU64 m.header.spi_initiator
    → IsU64 m.header.spi_responder
    → IsU32 m.header.message_id
    → All IsPayload m.payloads
    → EndsAtSk m.payloads
    → IsU32 (header_len + length (encode_payload_chain m.payloads))
    → decode_message (encode_message 0 m)
      ≡ ok (record {
        header = framed m;
        payloads = m.payloads;
        sk_header_offset = sk_offset header_len m.payloads;
      })
unfolding encode_message
decode_message-encode_message m i r d w s l =
    let body = encode_payload_chain m.payloads in
    let sized : u32 (header_len + length body + 0) ≡ header_len + length body = omega (arith, l) in
    let fits : IsU32 (u32 (header_len + length body + 0)) = omega arith in
    let read : Header = record (written m) { major_version = 2; minor_version = 0 } in
    decode_message-header (encode_header (written m) ++ body) read
      (decode_header-encode_header (written m) body (i, r, d, fits))
    ∙ decode_body-encode read (encode_header (written m)) m.payloads
        (encode_header-length (written m)) sized refl w s
    ∙ ap
        (λ (n : ℕ). ok (record {
          header = record (framed m) { length = n };
          payloads = m.payloads;
          sk_header_offset = sk_offset header_len m.payloads;
        }))
        sized
