-- ===== src/Babel/Tlv/RoundTrip.antt =====
-- Encoding and decoding of Babel packets, internal/babel/tlv.go.
use ranet_lite.Prelude.{ℕ, zero, suc, ◌+◌, ◌≤◌, ◌<◌, false, ◌≡◌, refl, arith}
use ranet_lite.Prelude.{List, [], ◌∷◌, ◌++◌, length, take, drop, ltb, leb, ◌==◌, if◌then◌else◌}
use ranet_lite.Prelude.{ok, err, length-append, take_length-append}
use ranet_lite.Prelude.{drop_length-append, append-nil, append_assoc, ◌≢◌, length-drop}
use ranet_lite.Prelude.{if_ne, Bool-cases, inl, inr, ap, ◌∙◌}
use ranet_lite.Prelude.Bytes.{u8, IsU16, be16_bytes, be16, byte_of}
use native.Mathlib.Decide.{ℕ_discrete}
use ranet_lite.Prelude.Order.{All}
use ranet_lite.Babel.Tlv.{Tlv, out_of_fuel, pad_1, pad_n, header_len}
use ranet_lite.Babel.Tlv.{bad_magic, unsupported_version, body_exceeds}
use ranet_lite.Babel.Tlv.{
  keep, decode_loop, decode_tlv_frames, encode_tlvs, encode_packet, decode_packet,
}

-- The loop ends on every input.
decode_loop-ne-stuck :
    (fuel : ℕ) (body : List ℕ) (out : List Tlv)
    → length body ≤ fuel
    → decode_loop fuel body out ≢ err out_of_fuel
unfolding decode_loop
decode_loop-ne-stuck fuel [] out h = λ e. ground arith
decode_loop-ne-stuck zero (t ∷ rest) out h = absurd (omega arith)
decode_loop-ne-stuck (suc fuel) (t ∷ []) out h = ground (arith, decode_loop-ne-stuck fuel [] out)
decode_loop-ne-stuck (suc fuel) (t ∷ n ∷ rest) out h =
    if_ne (t == pad_1) (decode_loop-ne-stuck fuel (n ∷ rest) out (omega arith)) (
      if_ne (ltb (length (t ∷ n ∷ rest)) (2 + n)) (λ e. cc)
        (decode_loop-ne-stuck fuel (drop n rest) (keep t (take n rest) out)
          (omega (arith, length-drop n rest))))

-- What a receiver gets of a TLV that was sent: all but the padding.
abbrev pub carried : List Tlv → List Tlv
carried [] = []
carried (t ∷ ts) = if leb t.kind pad_n then carried ts else t ∷ carried ts

-- The fields that the framing can hold: a byte for the type and one for the length.
abbrev pub IsFramed : Tlv → Type 0
IsFramed t = (t.kind < 256) × (length t.body < 256)

-- One framed TLV takes one round, and leaves what follows it.
pub loop_step :
    (fuel : ℕ) (t : ℕ) (body rest : List ℕ) (out : List Tlv)
    → t ≢ pad_1
    → decode_loop (suc fuel) (t ∷ length body ∷ (body ++ rest)) out
      ≡ decode_loop fuel rest (keep t body out)
unfolding decode_loop
loop_step fuel t body rest out ne =
    rw (take_length-append body rest, drop_length-append body rest)
      (ground (arith, length-append body rest))

skip_step :
    (fuel : ℕ) (rest : List ℕ) (out : List Tlv)
    → decode_loop (suc fuel) (pad_1 ∷ rest) out ≡ decode_loop fuel rest out
unfolding decode_loop
skip_step fuel [] out = refl
skip_step fuel (n ∷ rest) out = refl

keep-carried :
    (t : Tlv) (ts out : List Tlv)
    → t.kind ≢ pad_1
    → keep t.kind t.body out ++ carried ts ≡ out ++ carried (t ∷ ts)
unfolding keep
keep-carried t ts out ne = elim (Bool-cases (t.kind == pad_n)) [
  | inl e ↦ ground arith
  | inr e ↦
      let other : leb t.kind pad_n ≡ false = ground arith in
      rw (e, other) (append_assoc out (t ∷ []) (carried ts))
]

encode_pad :
    (t : Tlv) (ts : List Tlv) → t.kind ≡ pad_1 → encode_tlvs (t ∷ ts) ≡ pad_1 ∷ encode_tlvs ts
unfolding encode_tlvs
encode_pad t ts e = ground arith

encode_framed :
    (t : Tlv) (ts : List Tlv)
    → t.kind ≢ pad_1
    → IsFramed t
    → encode_tlvs (t ∷ ts) ≡ t.kind ∷ length t.body ∷ (t.body ++ encode_tlvs ts)
unfolding encode_tlvs
encode_framed t ts ne h =
    let k : u8 t.kind ≡ t.kind = omega arith in
    let n : u8 (length t.body) ≡ length t.body = omega arith in
    let no_pad : (t.kind == pad_1) ≡ false = ground arith in rw (no_pad, k, n) refl

carried_pad : (t : Tlv) (ts : List Tlv) → t.kind ≡ pad_1 → carried (t ∷ ts) ≡ carried ts
carried_pad t ts e = ground arith

decode_loop-encode_tlvs :
    (ts : List Tlv) (fuel : ℕ) (out : List Tlv)
    → All IsFramed ts
    → length (encode_tlvs ts) ≤ fuel
    → decode_loop fuel (encode_tlvs ts) out ≡ ok (out ++ carried ts)
decode_loop-encode_tlvs [] fuel out h le =
    unfold decode_loop encode_tlvs in rw (append-nil out) refl
decode_loop-encode_tlvs (t ∷ ts) zero out h le = absurd (unfold encode_tlvs in (ground arith))
decode_loop-encode_tlvs (t ∷ ts) (suc fuel) out (ht, hts) le = elim (ℕ_discrete t.kind pad_1) [
  | yes e ↦
      let shorter : length (encode_tlvs ts) ≤ fuel =
        omega (arith, ap (λ (l : List ℕ). length l) (encode_pad t ts e)) in
      rw (encode_pad t ts e, skip_step fuel (encode_tlvs ts) out, carried_pad t ts e)
        (decode_loop-encode_tlvs ts fuel out hts shorter)
  | no ne ↦
      let shorter : length (encode_tlvs ts) ≤ fuel = omega (
        arith,
        ap (λ (l : List ℕ). length l) (encode_framed t ts ne ht),
        length-append t.body (encode_tlvs ts),
      ) in
      rw (encode_framed t ts ne ht, loop_step fuel t.kind t.body (encode_tlvs ts) out ne)
        (decode_loop-encode_tlvs ts fuel (keep t.kind t.body out) hts shorter
          ∙ ap ok (keep-carried t ts out ne))
]

-- Decoding the packet that a list of TLVs is framed as gives the list back without its padding,
-- and does not look at what follows the packet, if each TLV fits its two header bytes and the body
-- its 16-bit length.
pub decode_packet-encode_packet :
    (ts : List Tlv) (trailer : List ℕ)
    → All IsFramed ts
    → IsU16 (length (encode_tlvs ts))
    → decode_packet (encode_packet ts ++ trailer) ≡ ok (carried ts)
unfolding decode_packet encode_packet decode_tlv_frames
decode_packet-encode_packet ts trailer h fits =
    let body : List ℕ = encode_tlvs ts in
    let whole : be16 (byte_of (length body) 1) (byte_of (length body) 0) ≡ length body =
      be16_bytes (length body) fits in
    let room : ltb (suc (suc (suc (suc (length (body ++ trailer)))))) (header_len + length body)
        ≡ false =
      ground (arith, length-append body trailer) in
    rw (whole, take_length-append body trailer, room)
      (decode_loop-encode_tlvs ts (length body) [] h (omega arith))

-- No input makes the decoder run out of rounds: it returns TLVs or an error of the source.
pub decode_packet-total : (b : List ℕ) → decode_packet b ≢ err out_of_fuel
unfolding decode_packet decode_tlv_frames
decode_packet-total (m ∷ v ∷ hi ∷ lo ∷ rest) =
    if_ne _ {x = err (bad_magic m)} (λ e. cc)
      (if_ne _ {x = err (unsupported_version v)} (λ e. cc)
        (if_ne _ {x = err (body_exceeds (be16 hi lo))} (λ e. cc)
          (decode_loop-ne-stuck _ (take (be16 hi lo) rest) [] (omega arith))))
decode_packet-total _ = λ e. cc
