-- ===== src/Ike/Payload.antt =====
-- The payload chain of an IKEv2 message and the whole message, ike/payload.go.
pub mod RoundTrip
pub mod Refusal
pub mod Whole
use ranet_lite.Prelude.{ℕ, zero, suc, ◌+◌, ◌-◌, Bool, true, false, not, ◌||◌, bit_and}
use ranet_lite.Prelude.{List, [], ◌∷◌, ◌++◌, length, take, drop, Result, ok, err, ◌>>=◌}
use ranet_lite.Prelude.{Option, none, some, ltb, ◌==◌, if◌then◌else◌}
use ranet_lite.Prelude.Bytes.{byte_of, be16, u16, u32}
use ranet_lite.Ike.Header.{Header, encode_header, decode_header}

abbrev pub generic_payload_header_len : ℕ
generic_payload_header_len = 4

abbrev pub header_len : ℕ
header_len = 28

abbrev pub payload_none : ℕ
payload_none = 0

abbrev pub payload_sk : ℕ
payload_sk = 46

pub record RawPayload : Type 0 where
  pub kind : ℕ
  pub critical : Bool
  pub body : List ℕ

-- `sk_header_offset` is 0 when the last payload is no SK payload.
pub record Message : Type 0 where
  pub header : Header
  pub payloads : List RawPayload
  pub sk_header_offset : ℕ

-- `out_of_rounds` is the end of the fuel, which the decoders never meet.
pub data PayloadError : Type 0 where
  bad_header : PayloadError
  header_too_small : ℕ → PayloadError
  size_mismatch : ℕ → PayloadError
  truncated_header : PayloadError
  invalid_length : ℕ → PayloadError
  trailing : ℕ → PayloadError
  trailing_after_sk : ℕ → PayloadError
  critical_response : ℕ → PayloadError
  out_of_rounds : PayloadError

unfoldable pub validate_response_critical_flags : List RawPayload → Result PayloadError (Unit {0})
validate_response_critical_flags [] = ok tt
validate_response_critical_flags (p ∷ ps) =
    let rest = validate_response_critical_flags ps in
    if p.critical then err (critical_response p.kind) else rest

abbrev pub first_type : List RawPayload → ℕ
first_type [] = payload_none
first_type (p ∷ ps) = p.kind

abbrev pub payload_len : RawPayload → ℕ
payload_len p = u16 (generic_payload_header_len + length p.body)

unfoldable pub encode_payload_chain : List RawPayload → List ℕ
encode_payload_chain [] = []
encode_payload_chain (p ∷ ps) =
    first_type ps
      ∷ (if p.critical then 0x80 else 0)
      ∷ byte_of (payload_len p) 1
      ∷ byte_of (payload_len p) 0
      ∷ p.body
    ++ encode_payload_chain ps

unfoldable pub encode_message : ℕ → Message → List ℕ
encode_message reserve_trailer m =
    let body = encode_payload_chain m.payloads in
    let h = record m.header {
      next_payload = first_type m.payloads;
      length = u32 (header_len + length body + reserve_trailer);
    } in
    encode_header h ++ body

-- One round of either loop: the payload, the type of the next and the bytes after it.
unfoldable pub take_payload : ℕ → List ℕ → Result PayloadError (RawPayload × ℕ × List ℕ)
take_payload kind (next ∷ flags ∷ l1 ∷ l0 ∷ rest) =
    let pl_len = be16 l1 l0 in
    if ltb pl_len generic_payload_header_len
      || ltb (generic_payload_header_len + length rest) pl_len
    then err (invalid_length pl_len)
    else ok (
      record {
        kind = kind;
        critical = not (bit_and flags 0x80 == 0);
        body = take (pl_len - generic_payload_header_len) rest;
      },
      next,
      drop (pl_len - generic_payload_header_len) rest,
    )
take_payload kind _ = err truncated_header

-- The end of a chain: nothing may follow it.
unfoldable pub end_of_chain : List ℕ → Result PayloadError (Unit {0})
end_of_chain [] = ok tt
end_of_chain (b ∷ bs) = err (trailing (suc (length bs)))

unfoldable pub chain_loop : ℕ → ℕ → List ℕ → Result PayloadError (List RawPayload)
chain_loop zero next rest = err out_of_rounds
chain_loop (suc fuel) next rest =
    if next == payload_none
    then (end_of_chain rest >>= λ _. ok [])
    else (take_payload next rest >>= λ step.
        chain_loop fuel step.1 step.2 >>= λ ps. ok (step.0 ∷ ps))

unfoldable pub decode_payload_chain : ℕ → List ℕ → Result PayloadError (List RawPayload)
decode_payload_chain first b = chain_loop (suc (length b)) first b

-- The loop of `DecodeMessage`, which stops at an SK payload. `total` is the length of the message.
unfoldable pub message_loop : ℕ → ℕ → ℕ → List ℕ → Result PayloadError (List RawPayload × ℕ)
message_loop total zero next rest = err out_of_rounds
message_loop total (suc fuel) next rest =
    if next == payload_none
    then (end_of_chain rest >>= λ _. ok ([], 0))
    else (take_payload next rest >>= λ step.
        if next == payload_sk
        then (sk_end step.2 >>= λ _. ok (step.0 ∷ [], total - length rest))
        else (message_loop total fuel step.1 step.2 >>= λ found. ok (step.0 ∷ found.0, found.1)))
  where
    sk_end : List ℕ → Result PayloadError (Unit {0})
    sk_end [] = ok tt
    sk_end (b ∷ bs) = err (trailing_after_sk (suc (length bs)))

unfoldable pub decode_body : Header → List ℕ → Result PayloadError Message
decode_body h b =
    let rest = drop header_len b in
    if ltb h.length header_len
    then err (header_too_small h.length)
    else if not (h.length == length b)
    then err (size_mismatch h.length)
    else (message_loop h.length (suc (length rest)) h.next_payload rest >>= λ found.
        ok (record { header = h; payloads = found.0; sk_header_offset = found.1 }))

unfoldable pub decode_message : List ℕ → Result PayloadError Message
decode_message b = elim (decode_header b) [ err e ↦ err bad_header | ok h ↦ decode_body h b ]

unfoldable pub find : ℕ → List RawPayload → Option RawPayload
find t [] = none
find t (p ∷ ps) = let rest = find t ps in if p.kind == t then some p else rest
