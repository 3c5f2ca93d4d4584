-- ===== src/Ike/Payload/Refusal.antt =====
-- A payload chain of ike/payload.go that is cut short is refused.
use ranet_lite.Prelude.{ℕ, zero, suc, ◌+◌, ◌-◌, ◌<◌, ◌≤◌, ◌≡◌, refl, ap, ◌∙◌, arith}
use ranet_lite.Prelude.{◌⊎◌, inl, inr, true, false, ◌||◌}
use native.Mathlib.Decide.{dec_lt}
use ranet_lite.Prelude.{List, [], ◌∷◌, ◌++◌, length, take, Result, err}
use ranet_lite.Prelude.{ltb, ◌==◌, length-take, length-append}
use ranet_lite.Prelude.Order.{All}
use ranet_lite.Prelude.Bytes.{byte_of, be16, be16_bytes}
use ranet_lite.Ike.Payload.{RawPayload, PayloadError, truncated_header, invalid_length, first_type}
use ranet_lite.Ike.Payload.{
  payload_len, payload_none, encode_payload_chain, take_payload, chain_loop,
}
use ranet_lite.Ike.Payload.{decode_payload_chain}
use ranet_lite.Ike.Payload.RoundTrip.{IsPayload, payload_bytes, take-payload_bytes}

-- What the decoders say of missing bytes.
abbrev pub IsCutShort {ℓ} : {A : Type ℓ} → Result PayloadError A → Type ℓ
IsCutShort r = (r ≡ err truncated_header) ⊎ ((k : ℕ) × (r ≡ err (invalid_length k)))

take-append_past {ℓ} :
    {A : Type ℓ} (xs ys : List A) (n : ℕ)
    → length xs ≤ n
    → take n (xs ++ ys) ≡ xs ++ take (n - length xs) ys
take-append_past [] ys n h = let e : n - 0 ≡ n = omega arith in rw e refl
take-append_past (x ∷ xs) ys zero h = absurd (omega arith)
take-append_past (x ∷ xs) ys (suc n) h =
    let e : suc n - suc (length xs) ≡ n - length xs = omega arith in
    rw e (ap (λ t. x ∷ t) (take-append_past xs ys n (omega arith)))

-- The bytes of a payload without its end.
take_payload-cut :
    (next n : ℕ) (p : RawPayload) (rest : List ℕ)
    → IsPayload p
    → n < 4 + length p.body
    → IsCutShort (take_payload p.kind (take n (payload_bytes next p rest)))
unfolding take_payload
take_payload-cut next zero p rest w h = inl refl
take_payload-cut next (suc zero) p rest w h = inl refl
take_payload-cut next (suc (suc zero)) p rest w h = inl refl
take_payload-cut next (suc (suc (suc zero))) p rest w h = inl refl
take_payload-cut next (suc (suc (suc (suc n)))) p rest w h =
    let len : payload_len p ≡ 4 + length p.body = omega (arith, w.fits) in
    let bytes : be16 (byte_of (payload_len p) 1) (byte_of (payload_len p) 0) ≡ 4 + length p.body =
      be16_bytes (payload_len p) (omega (arith, w.fits)) ∙ len in
    let long : (ltb (4 + length p.body) 4
          || ltb (4 + length (take n (p.body ++ rest))) (4 + length p.body))
        ≡ true =
      ground (arith, length-take n (p.body ++ rest), h) in
    inr (4 + length p.body, rw (bytes, long) refl)

-- What is left of the bytes after a whole payload.
take_payload_past :
    (next n : ℕ) (p : RawPayload) (rest : List ℕ)
    → 4 + length p.body ≤ n
    → take n (payload_bytes next p rest)
      ≡ payload_bytes next p (take (n - (4 + length p.body)) rest)
take_payload_past next zero p rest h = absurd (omega arith)
take_payload_past next (suc zero) p rest h = absurd (omega arith)
take_payload_past next (suc (suc zero)) p rest h = absurd (omega arith)
take_payload_past next (suc (suc (suc zero))) p rest h = absurd (omega arith)
take_payload_past next (suc (suc (suc (suc n)))) p rest h =
    let e : suc (suc (suc (suc n))) - (4 + length p.body) ≡ n - length p.body = omega arith in
    rw (take-append_past p.body rest n (omega arith), e) refl

chain_loop-cut :
    (ps : List RawPayload) (n fuel : ℕ)
    → All IsPayload ps
    → n < length (encode_payload_chain ps)
    → n < fuel
    → IsCutShort (chain_loop fuel (first_type ps) (take n (encode_payload_chain ps)))
unfolding chain_loop encode_payload_chain
chain_loop-cut ps n zero w h f = absurd (omega arith)
chain_loop-cut [] n (suc fuel) w h f = absurd (omega (arith, h))
chain_loop-cut (p ∷ ps) n (suc fuel) w h f =
    let typed : (p.kind == payload_none) ≡ false = ground (arith, w.0.typed) in
    elim (dec_lt n (4 + length p.body)) [
      | yes lt ↦ elim (take_payload-cut (first_type ps) n p (encode_payload_chain ps) w.0 lt) [
        | inl e ↦ inl (rw (typed, e) refl)
        | inr (k, e) ↦ inr (k, rw (typed, e) refl)
      ]
      | no ge ↦
          let rest = encode_payload_chain ps in
          let m = n - (4 + length p.body) in
          let past = take_payload_past (first_type ps) n p rest (omega arith) in
          let step = take-payload_bytes (first_type ps) p (take m rest) w.0 in
          let shorter : m < length rest = omega (arith, h, length-append p.body rest) in
          elim (chain_loop-cut ps m fuel w.1 shorter (omega arith)) [
            | inl e ↦ inl (rw (typed, past, step, e) refl)
            | inr (k, e) ↦ inr (k, rw (typed, past, step, e) refl)
          ]
    ]

-- A chain of payloads with types and lengths that fit, cut anywhere before its end, is refused: as
-- truncated, or for a length that the bytes left do not have.
pub decode_payload_chain-cut :
    (ps : List RawPayload) (n : ℕ)
    → All IsPayload ps
    → n < length (encode_payload_chain ps)
    → IsCutShort (decode_payload_chain (first_type ps) (take n (encode_payload_chain ps)))
unfolding decode_payload_chain
decode_payload_chain-cut ps n w h =
    chain_loop-cut ps n _ w h (omega (arith, length-take n (encode_payload_chain ps), h))
