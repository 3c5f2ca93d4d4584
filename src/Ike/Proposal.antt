-- ===== src/Ike/Proposal.antt =====
-- The body of an SA payload, ike/payloads_sa.go: transforms and proposals.
pub mod RoundTrip
use ranet_lite.Prelude.{ℕ, zero, suc, ◌+◌, ◌-◌, ◌%◌, ◌^◌, Bool, true, false, not, ◌&&◌, ◌||◌}
use ranet_lite.Prelude.{bit_and, bit_or}
use ranet_lite.Prelude.{List, [], ◌∷◌, ◌++◌, length, take, drop, Result, ok, err, ◌>>=◌}
use ranet_lite.Prelude.{ltb, ◌==◌, if◌then◌else◌}
use ranet_lite.Prelude.Bytes.{byte_of, be16, u8, u16}

abbrev pub attr_key_length : ℕ
attr_key_length = 14

-- `key_length_bits` is 0 without the attribute.
pub record Transform : Type 0 where
  pub kind : ℕ
  pub id : ℕ
  pub key_length_bits : ℕ
  pub unsupported_attributes : Bool

pub record Proposal : Type 0 where
  pub number : ℕ
  pub protocol : ℕ
  pub spi : List ℕ
  pub transforms : List Transform

-- `out_of_rounds` is the end of the fuel, which the decoders never meet.
pub data SaError : Type 0 where
  short_transform : SaError
  invalid_more : ℕ → SaError
  invalid_transform_length : ℕ → SaError
  truncated_attribute : SaError
  invalid_attribute_length : ℕ → SaError
  short_proposal : SaError
  invalid_proposal_length : ℕ → SaError
  spi_truncated : SaError
  ended_before_count : SaError
  more_than_declared : SaError
  trailing_in_proposal : SaError
  trailing_after_last : SaError
  ends_with_more : SaError
  out_of_rounds : SaError

abbrev pub transform_attrs : Transform → List ℕ
transform_attrs t =
    if t.key_length_bits == 0
    then []
    else byte_of (bit_or 0x8000 attr_key_length) 1
      ∷ byte_of (bit_or 0x8000 attr_key_length) 0
      ∷ byte_of t.key_length_bits 1
      ∷ byte_of t.key_length_bits 0
      ∷ []

unfoldable pub encode_transform : Bool → Transform → List ℕ
encode_transform last t =
    let attrs = transform_attrs t in
    let size = u16 (8 + length attrs) in
    (if last then 0 else 3)
    ∷ 0
    ∷ byte_of size 1
    ∷ byte_of size 0
    ∷ t.kind
    ∷ 0
    ∷ byte_of t.id 1
    ∷ byte_of t.id 0
    ∷ attrs

-- An attribute of type and value in four bytes.
unfoldable pub read_attribute : ℕ → ℕ → Bool → Transform → Bool × Transform
read_attribute at value have_key_length t =
    if not (bit_and at 0x7fff == attr_key_length) || have_key_length
    then (have_key_length, record t { unsupported_attributes = true })
    else (
      true,
      record t {
        key_length_bits = value;
        unsupported_attributes = if value == 0 then true else t.unsupported_attributes;
      },
    )

unfoldable pub attribute_loop : ℕ → Bool → Transform → List ℕ → Result SaError Transform
attribute_loop fuel have t [] = ok t
attribute_loop zero have t attrs = err out_of_rounds
attribute_loop (suc fuel) have t (a1 ∷ a0 ∷ v1 ∷ v0 ∷ rest) =
    let at = be16 a1 a0 in
    let value_length = be16 v1 v0 in
    let read = read_attribute at (be16 v1 v0) have t in
    let after = attribute_loop fuel read.0 read.1 rest in
    let skipped =
      attribute_loop fuel have (record t { unsupported_attributes = true })
        (drop value_length rest) in
    if not (bit_and at 0x8000 == 0)
    then after
    else if ltb (length rest) value_length
    then err (invalid_attribute_length value_length)
    else skipped
attribute_loop (suc fuel) have t attrs = err truncated_attribute

unfoldable pub decode_transform : List ℕ → Result SaError (Transform × Bool × List ℕ)
decode_transform (last ∷ r0 ∷ l1 ∷ l0 ∷ kind ∷ r1 ∷ i1 ∷ i0 ∷ rest) =
    let tlen = be16 l1 l0 in
    let t : Transform = record {
      kind = kind;
      id = be16 i1 i0;
      key_length_bits = 0;
      unsupported_attributes = false;
    } in
    let attrs = take (tlen - 8) rest in
    if not (last == 0) && not (last == 3)
    then err (invalid_more last)
    else if ltb tlen 8 || ltb (8 + length rest) tlen
    then err (invalid_transform_length tlen)
    else (attribute_loop (length attrs) false t attrs >>= λ read.
        ok (read, last == 3, drop (tlen - 8) rest))
decode_transform _ = err short_transform

unfoldable pub encode_transforms : List Transform → List ℕ
encode_transforms [] = []
encode_transforms (t ∷ []) = encode_transform true t
encode_transforms (t ∷ u ∷ ts) = encode_transform false t ++ encode_transforms (u ∷ ts)

unfoldable pub encode_proposal : Bool → Proposal → List ℕ
encode_proposal last p =
    let tbody = encode_transforms p.transforms in
    let size = u16 (8 + length p.spi + length tbody) in
    (if last then 0 else 2)
      ∷ 0
      ∷ byte_of size 1
      ∷ byte_of size 0
      ∷ p.number
      ∷ p.protocol
      ∷ u8 (length p.spi)
      ∷ u8 (length p.transforms)
      ∷ p.spi
    ++ tbody

-- As many transforms as declared, with the flag of each.
unfoldable pub transforms_loop : ℕ → List ℕ → Result SaError (List Transform × List ℕ)
transforms_loop zero rest = ok ([], rest)
transforms_loop (suc left) rest = decode_transform rest >>= λ step.
    let more = step.1 in
    if not (left == 0) && not more
    then err ended_before_count
    else if left == 0 && more
    then err more_than_declared
    else (transforms_loop left step.2 >>= λ found. ok (step.0 ∷ found.0, found.1))

unfoldable pub no_trailing : List ℕ → Result SaError (Unit {0})
no_trailing [] = ok tt
no_trailing (b ∷ bs) = err trailing_in_proposal

unfoldable pub decode_proposal : List ℕ → Result SaError (Proposal × Bool × List ℕ)
decode_proposal (last ∷ r0 ∷ p1 ∷ p0 ∷ number ∷ protocol ∷ spi_size ∷ num_trans ∷ tail) =
    let plen = be16 p1 p0 in
    let rest = take (plen - 8) tail in
    if not (last == 0) && not (last == 2)
    then err (invalid_more last)
    else if ltb plen 8 || ltb (8 + length tail) plen
    then err (invalid_proposal_length plen)
    else if ltb (length rest) spi_size
    then err spi_truncated
    else (transforms_loop num_trans (drop spi_size rest) >>= λ found. no_trailing found.1 >>= λ _.
        ok (
          record {
            number = number;
            protocol = protocol;
            spi = take spi_size rest;
            transforms = found.0;
          },
          last == 2,
          drop (plen - 8) tail,
        ))
decode_proposal _ = err short_proposal

unfoldable pub encode_sa : List Proposal → List ℕ
encode_sa [] = []
encode_sa (p ∷ []) = encode_proposal true p
encode_sa (p ∷ q ∷ ps) = encode_proposal false p ++ encode_sa (q ∷ ps)

abbrev pub is_nil : List ℕ → Bool
is_nil [] = true
is_nil (b ∷ bs) = false

unfoldable pub sa_loop : ℕ → List ℕ → Result SaError (List Proposal)
sa_loop fuel [] = ok []
sa_loop zero rest = err out_of_rounds
sa_loop (suc fuel) rest = decode_proposal rest >>= λ step.
    let more = step.1 in
    if not more && not (is_nil step.2)
    then err trailing_after_last
    else if more && is_nil step.2
    then err ends_with_more
    else (sa_loop fuel step.2 >>= λ ps. ok (step.0 ∷ ps))

unfoldable pub decode_sa : List ℕ → Result SaError (List Proposal)
decode_sa body = sa_loop (length body) body
