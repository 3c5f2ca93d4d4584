-- ===== src/Examples/Exchanges.antt =====
-- The theorems on the payloads of IKEv2 messages at concrete inputs.
use ranet_lite.Prelude.{ℕ, ◌≡◌, refl, arith, inl, true, false}
use ranet_lite.Prelude.{List, [], ◌∷◌, take, drop, replicate, ok}
use ranet_lite.Ike.Payload.{RawPayload, Message, header_len, encode_payload_chain}
use ranet_lite.Ike.Payload.{decode_payload_chain, encode_message, decode_message}
use ranet_lite.Ike.Payload.RoundTrip.{IsPayload}
use ranet_lite.Ike.Payload.Refusal.{IsCutShort, decode_payload_chain-cut}
use ranet_lite.Ike.Payload.Whole.{framed, sk_offset, decode_message-encode_message}
use ranet_lite.Ike.Proposal.{
  Transform, Proposal, encode_sa, decode_sa, encode_transforms, encode_transform,
}
use ranet_lite.Ike.Proposal.RoundTrip.{IsProposal, decode_sa-encode_sa}
use ranet_lite.Ike.Bodies.{Delete, decode_delete, check_delete, split_spis, join}
use ranet_lite.Ike.Bodies.{TrafficSelector, encode_ts, decode_ts}
use ranet_lite.Ike.Bodies.Deletes.{IsDelete, decode_delete-IsDelete}
use ranet_lite.Ike.Bodies.Selectors.{IsSelector, decode_ts-encode_ts}

-- A critical nonce and an SK payload.
abbrev nonce : RawPayload
nonce = record { kind = 40; critical = true; body = 1 ∷ 2 ∷ 3 ∷ [] }

abbrev sealed : RawPayload
sealed = record { kind = 46; critical = false; body = 9 ∷ 9 ∷ [] }

nonce-IsPayload : IsPayload nonce
nonce-IsPayload = record { typed = λ e. omega (arith, e); fits = omega arith }

sealed-IsPayload : IsPayload sealed
sealed-IsPayload = record { typed = λ e. omega (arith, e); fits = omega arith }

abbrev message : Message
message = record {
  header = record {
    spi_initiator = 7;
    spi_responder = 8;
    next_payload = 0;
    major_version = 2;
    minor_version = 0;
    exchange_type = 35;
    flags = 8;
    message_id = 1;
    length = 0;
  };
  payloads = nonce ∷ sealed ∷ [];
  sk_header_offset = 0;
}

decode_message-encode_message_example :
    decode_message (encode_message 0 message)
    ≡ ok (record {
      header = framed message;
      payloads = nonce ∷ sealed ∷ [];
      sk_header_offset = sk_offset header_len (nonce ∷ sealed ∷ []);
    })
unfolding encode_payload_chain
decode_message-encode_message_example =
    decode_message-encode_message message (omega arith) (omega arith) (omega arith)
      (nonce-IsPayload, (sealed-IsPayload, tt)) (λ e. omega (arith, e), tt) (omega arith)

decode_payload_chain-cut_example :
    IsCutShort (decode_payload_chain 40 (take 9 (encode_payload_chain (nonce ∷ sealed ∷ []))))
unfolding encode_payload_chain
decode_payload_chain-cut_example =
    decode_payload_chain-cut (nonce ∷ sealed ∷ []) 9 (nonce-IsPayload, (sealed-IsPayload, tt))
      (omega arith)

-- AES-GCM with a key length, and a second transform without.
abbrev cipher : Transform
cipher = record { kind = 1; id = 20; key_length_bits = 256; unsupported_attributes = false }

abbrev group : Transform
group = record { kind = 4; id = 31; key_length_bits = 0; unsupported_attributes = false }

abbrev proposal : Proposal
proposal = record {
  number = 1;
  protocol = 3;
  spi = 1 ∷ 2 ∷ 3 ∷ 4 ∷ [];
  transforms = cipher ∷ group ∷ [];
}

proposal-IsProposal : IsProposal proposal
unfolding encode_transforms encode_transform
proposal-IsProposal = record {
  spi_fits = omega arith;
  count_fits = omega arith;
  transforms_fit = (
    record { id_fits = omega arith; key_fits = omega arith; known = refl },
    (record { id_fits = omega arith; key_fits = omega arith; known = refl }, tt),
  );
  size_fits = omega arith;
}

decode_sa-encode_sa_example :
    decode_sa (encode_sa (proposal ∷ proposal ∷ [])) ≡ ok (proposal ∷ proposal ∷ [])
decode_sa-encode_sa_example =
    decode_sa-encode_sa (proposal ∷ proposal ∷ []) (proposal-IsProposal, (proposal-IsProposal, tt))

-- One ESP SPI.
abbrev deleted : Delete
deleted = record { protocol = 3; spis = (1 ∷ 2 ∷ 3 ∷ 4 ∷ []) ∷ [] }

abbrev delete_body : List ℕ
delete_body = 3 ∷ 4 ∷ 0 ∷ 1 ∷ 1 ∷ 2 ∷ 3 ∷ 4 ∷ []

read_delete : decode_delete delete_body ≡ ok deleted
unfolding decode_delete check_delete split_spis
read_delete = refl

decode_delete-IsDelete_example :
    IsDelete deleted × (join ((1 ∷ 2 ∷ 3 ∷ 4 ∷ []) ∷ []) ≡ drop 4 delete_body)
decode_delete-IsDelete_example = decode_delete-IsDelete delete_body deleted read_delete

abbrev full_range : TrafficSelector
full_range = record {
  kind = 7;
  protocol = 0;
  start_port = 0;
  end_port = 0xffff;
  start_addr = replicate 4 0;
  end_addr = replicate 4 255;
}

full_range-IsSelector : IsSelector full_range
full_range-IsSelector = record {
  size = 4;
  range = inl (refl, refl);
  start_size = refl;
  end_size = refl;
  start_fits = omega arith;
  end_fits = omega arith;
}

decode_ts-encode_ts_example : decode_ts (encode_ts (full_range ∷ [])) ≡ ok (full_range ∷ [])
decode_ts-encode_ts_example =
    decode_ts-encode_ts (full_range ∷ []) (full_range-IsSelector, tt) (omega arith)
