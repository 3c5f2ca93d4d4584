-- ===== src/Ike/Header.antt =====
-- The fixed header of an IKEv2 message, ike/header.go.
use ranet_lite.Prelude.{ℕ, ◌/◌, ◌%◌, ◌^◌, ◌≡◌, refl, Bool, not, bit_and}
use ranet_lite.Prelude.{List, [], ◌∷◌, ◌++◌, Result, ok, err, ◌==◌}
use ranet_lite.Prelude.Bytes.{byte_of, be32, be64, be32_bytes, be64_bytes, IsU32, IsU64}

pub record Header : Type 0 where
  pub spi_initiator : ℕ
  pub spi_responder : ℕ
  pub next_payload : ℕ
  pub major_version : ℕ
  pub minor_version : ℕ
  pub exchange_type : ℕ
  pub flags : ℕ
  pub message_id : ℕ
  pub length : ℕ

pub data HeaderError : Type 0 where
  short_header : HeaderError

abbrev pub flag_initiator : ℕ
flag_initiator = 0x08

abbrev pub flag_response : ℕ
flag_response = 0x20

unfoldable pub is_response : Header → Bool
is_response h = not (bit_and h.flags flag_response == 0)

unfoldable pub is_initiator : Header → Bool
is_initiator h = not (bit_and h.flags flag_initiator == 0)

put32 : ℕ → List ℕ → List ℕ
put32 v rest = byte_of v 3 ∷ byte_of v 2 ∷ byte_of v 1 ∷ byte_of v 0 ∷ rest

put64 : ℕ → List ℕ → List ℕ
put64 v rest =
    byte_of v 7
    ∷ byte_of v 6
    ∷ byte_of v 5
    ∷ byte_of v 4
    ∷ byte_of v 3
    ∷ byte_of v 2
    ∷ byte_of v 1
    ∷ byte_of v 0
    ∷ rest

-- Major version 2, minor version 0, whatever the fields say.
unfoldable pub encode_header : Header → List ℕ
unfolding put32 put64
encode_header h = put64 h.spi_initiator (
    put64 h.spi_responder
      (h.next_payload ∷ 0x20 ∷ h.exchange_type ∷ h.flags ∷ put32 h.message_id (put32 h.length [])))

unfoldable pub decode_header : List ℕ → Result HeaderError Header
decode_header
      (a0 ∷ a1 ∷ a2 ∷ a3 ∷ a4 ∷ a5 ∷ a6 ∷ a7 ∷ b0 ∷ b1 ∷ b2 ∷ b3 ∷ b4 ∷ b5 ∷ b6 ∷ b7 ∷ next
        ∷ version ∷ kind ∷ flags ∷ m0 ∷ m1 ∷ m2 ∷ m3 ∷ l0 ∷ l1 ∷ l2 ∷ l3 ∷ rest) =
    ok (record {
      spi_initiator = be64 a0 a1 a2 a3 a4 a5 a6 a7;
      spi_responder = be64 b0 b1 b2 b3 b4 b5 b6 b7;
      next_payload = next;
      major_version = version / 2 ^ 4;
      minor_version = version % 2 ^ 4;
      exchange_type = kind;
      flags = flags;
      message_id = be32 m0 m1 m2 m3;
      length = be32 l0 l1 l2 l3;
    })
decode_header _ = err short_header

abbrev pub IsHeader : Header → Type 0
IsHeader h = IsU64 h.spi_initiator × IsU64 h.spi_responder × IsU32 h.message_id × IsU32 h.length

-- A header whose fields fit decodes to itself from the front of any message, except that its version
-- is always 2.0.
pub decode_header-encode_header :
    (h : Header) (payloads : List ℕ)
    → IsHeader h
    → decode_header (encode_header h ++ payloads)
      ≡ ok (record h { major_version = 2; minor_version = 0 })
unfolding decode_header encode_header
decode_header-encode_header h payloads (i, r, m, l) =
    rw
      (
        be64_bytes h.spi_initiator i,
        be64_bytes h.spi_responder r,
        be32_bytes h.message_id m,
        be32_bytes h.length l,
      )
      refl
