-- ===== src/Babel/Tlv.antt =====
-- The packet and TLV framing of internal/babel/tlv.go. A byte slice is a list of numbers; `Tlv`
-- stands for RawTLV, framedTLV and SubTLV, which have the same two fields, so the loops that copy
-- one into another are not written out.
pub mod RoundTrip
use ranet_lite.Prelude.{
  ℕ, zero, suc, ◌+◌, ◌*◌, ◌/◌, ◌%◌, ◌^◌, Bool, true, false, Option, none, some,
}
use ranet_lite.Prelude.{List, [], ◌∷◌, ◌++◌, length, take, drop, ltb, leb, ◌==◌, if◌then◌else◌, not}
use ranet_lite.Prelude.{Result, ok, err, ◌>>=◌, ◌>>◌}
use ranet_lite.Prelude.Bytes.{u8, be16, byte_of}

pub record Tlv : Type 0 where
  pub kind : ℕ
  pub body : List ℕ

-- `out_of_fuel` is no error of the source: the loop of the model ran out of rounds.
pub data Error : Type 0 where
  truncated_header short_packet out_of_fuel short_address : Error
  exceeds : ℕ → ℕ → Error
  bad_magic unsupported_version body_exceeds mandatory_sub_tlv unsupported_encoding : ℕ → Error

abbrev pub pad_1 : ℕ
pad_1 = 0

abbrev pub pad_n : ℕ
pad_n = 1

abbrev pub magic : ℕ
magic = 42

abbrev pub version : ℕ
version = 2

abbrev pub header_len : ℕ
header_len = 4

-- PadN carries nothing and is dropped.
unfoldable pub keep : ℕ → List ℕ → List Tlv → List Tlv
keep t body out = if t == pad_n then out else out ++ (record { kind = t; body = body } ∷ [])

-- The loop of decodeTLVFrames over what is left of the body.
unfoldable pub decode_loop : ℕ → List ℕ → List Tlv → Result Error (List Tlv)
decode_loop fuel [] out = ok out
decode_loop zero (t ∷ rest) out = err out_of_fuel
decode_loop (suc fuel) (t ∷ []) out =
    let skip = decode_loop fuel [] out in if t == pad_1 then skip else err truncated_header
decode_loop (suc fuel) (t ∷ n ∷ rest) out =
    let skip = decode_loop fuel (n ∷ rest) out in
    let next = decode_loop fuel (drop n rest) (keep t (take n rest) out) in
    if t == pad_1
    then skip
    else if ltb (length (t ∷ n ∷ rest)) (2 + n)
    then err (exceeds t n)
    else next

-- Each round takes a byte at least.
unfoldable pub decode_tlv_frames : List ℕ → Result Error (List Tlv)
decode_tlv_frames body = decode_loop (length body) body []

-- The body that EncodePacket builds.
unfoldable pub encode_tlvs : List Tlv → List ℕ
encode_tlvs [] = []
encode_tlvs (t ∷ ts) =
    if t.kind == pad_1
    then pad_1 ∷ encode_tlvs ts
    else u8 t.kind ∷ u8 (length t.body) ∷ (t.body ++ encode_tlvs ts)

unfoldable pub encode_packet : List Tlv → List ℕ
encode_packet tlvs =
    let body = encode_tlvs tlvs in
    magic ∷ version ∷ byte_of (length body) 1 ∷ byte_of (length body) 0 ∷ body

unfoldable pub decode_packet : List ℕ → Result Error (List Tlv)
decode_packet (m ∷ v ∷ hi ∷ lo ∷ rest) =
    let body_len = be16 hi lo in
    if not (m == magic)
    then err (bad_magic m)
    else if not (v == version)
    then err (unsupported_version v)
    else if ltb (length (m ∷ v ∷ hi ∷ lo ∷ rest)) (header_len + body_len)
    then err (body_exceeds body_len)
    else decode_tlv_frames (take body_len rest)
decode_packet _ = err short_packet

-- encodeSubTLVs writes no Pad1 form.
unfoldable pub encode_sub_tlvs : List Tlv → List ℕ
encode_sub_tlvs [] = []
encode_sub_tlvs (s ∷ subs) = s.kind ∷ u8 (length s.body) ∷ (s.body ++ encode_sub_tlvs subs)

unfoldable pub decode_sub_tlvs : List ℕ → Result Error (List Tlv)
decode_sub_tlvs b = decode_tlv_frames b

unfoldable pub reject_mandatory : List Tlv → Result Error (Unit {0})
reject_mandatory [] = ok tt
reject_mandatory (s ∷ subs) =
    let rest = reject_mandatory subs in
    if leb 128 s.kind then err (mandatory_sub_tlv s.kind) else rest

unfoldable pub decode_optional_sub_tlvs : List ℕ → Result Error (List Tlv)
decode_optional_sub_tlvs b = do subs ← decode_sub_tlvs b; reject_mandatory subs; ok subs

unfoldable pub find_sub_tlv : List Tlv → ℕ → Option (List ℕ)
find_sub_tlv [] t = none
find_sub_tlv (s ∷ subs) t =
    let rest = find_sub_tlv subs t in if s.kind == t then some s.body else rest
