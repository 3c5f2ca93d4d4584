-- ===== src/Ike/Bodies/Deletes.antt =====
-- What `DecodeDelete` of ike/payloads_misc.go accepts, and notifications there and back.
use ranet_lite.Prelude.{ℕ, zero, suc, ◌+◌, ◌-◌, ◌*◌, ◌<◌, ◌≤◌, ◌≡◌, ◌≢◌, refl, ap, ◌∙◌, arith}
use ranet_lite.Prelude.{◌⊎◌, inl, inr, true, false, not, ◌||◌}
use ranet_lite.Prelude.{List, [], ◌∷◌, ◌++◌, length, take, drop, Result, ok, err}
use ranet_lite.Prelude.{ltb, ◌==◌, Bool-cases, ==_iff}
use ranet_lite.Prelude.{
  length-take, length-drop, take-append-drop, take_length-append, drop_length-append, length-append,
}
use ranet_lite.Prelude.Order.{All}
use ranet_lite.Prelude.Bytes.{be16, be16_bytes, u8, IsU16}
use ranet_lite.Ike.Bodies.{Notify, encode_notify, decode_notify, Delete, BodyError, join}
use ranet_lite.Ike.Bodies.{split_spis, check_delete, decode_delete}
use ranet_lite.Ike.Bodies.{
  short_body, invalid_delete_length, ike_delete_with_spis, child_delete_spi_size,
  invalid_delete_protocol,
}
use ranet_lite.Ike.Bodies.{proto_ike, proto_ah, proto_esp}

-- A notification whose type and SPI fit decodes to itself.
pub decode_notify-encode_notify :
    (n : Notify) → length n.spi < 256 → IsU16 n.kind → decode_notify (encode_notify n) ≡ ok n
unfolding decode_notify encode_notify
decode_notify-encode_notify n h k =
    let size : u8 (length n.spi) ≡ length n.spi = omega (arith, h) in
    let fits : ltb (length (n.spi ++ n.data_)) (length n.spi) ≡ false =
      ground (arith, length-append n.spi n.data_) in
    rw
      (
        size,
        fits,
        take_length-append n.spi n.data_,
        drop_length-append n.spi n.data_,
        be16_bytes n.kind k,
      )
      refl

-- The SPIs of a Delete that RFC 7296 allows: none for IKE, and four bytes each for AH and ESP.
abbrev pub IsChild : ℕ → Type 0
IsChild protocol = (protocol ≡ proto_ah) ⊎ (protocol ≡ proto_esp)

abbrev pub IsDelete : Delete → Type 0
IsDelete d =
    ((d.protocol ≡ proto_ike) × (d.spis ≡ []))
    ⊎ (IsChild d.protocol × All (λ (s : List ℕ). length s ≡ 4) d.spis)

split_spis-sizes :
    (fuel count : ℕ) (rest : List ℕ)
    → length rest ≡ 4 * count
    → length rest ≤ fuel
    → All (λ (s : List ℕ). length s ≡ 4) (split_spis fuel 4 rest)
      × (join (split_spis fuel 4 rest) ≡ rest)
unfolding split_spis
split_spis-sizes zero count [] e h = (tt, refl)
split_spis-sizes zero count (b ∷ rest) e h = absurd (omega (arith, h))
split_spis-sizes (suc fuel) count [] e h = (tt, refl)
split_spis-sizes (suc fuel) count (b ∷ rest) e h =
    let left = drop 4 (b ∷ rest) in
    let size = length-drop 4 (b ∷ rest) in
    let (sizes, joined) =
      split_spis-sizes fuel (count - 1) left (omega (arith, e, size)) (omega (arith, h, size)) in
    (
      (omega (arith, length-take 4 (b ∷ rest), e), sizes),
      ap (λ t. take 4 (b ∷ rest) ++ t) joined ∙ take-append-drop 4 (b ∷ rest),
    )

split_spis-none : (fuel size : ℕ) → split_spis fuel size [] ≡ []
unfolding split_spis
split_spis-none zero size = refl
split_spis-none (suc fuel) size = refl

-- What the protocol allows.
abbrev Allowed : ℕ → ℕ → ℕ → Type 0
Allowed protocol size count =
    ((protocol ≡ proto_ike) × (size ≡ 0) × (count ≡ 0)) ⊎ (IsChild protocol × (size ≡ 4))

check_delete-Allowed :
    (protocol size count : ℕ)
    → ((check_delete protocol size count ≡ ok tt) × Allowed protocol size count)
      ⊎ ((e : BodyError) × (check_delete protocol size count ≡ err e))
unfolding check_delete
check_delete-Allowed protocol size count = elim (Bool-cases (protocol == proto_ike)) [
  | inl ike ↦ elim (Bool-cases (not (size == 0) || not (count == 0))) [
    | inl bad ↦ inr (ike_delete_with_spis, rw (ike, bad) refl)
    | inr good ↦ inl (rw (ike, good) refl, inl ((==_iff _ _).0 ike, ground arith, ground arith))
  ]
  | inr other ↦ elim (Bool-cases (protocol == proto_ah || protocol == proto_esp)) [
    | inr none ↦ inr (invalid_delete_protocol protocol, rw (other, none) refl)
    | inl child ↦ elim (Bool-cases (size == 4)) [
      | inr bad ↦ inr (child_delete_spi_size size, rw (other, child, bad) refl)
      | inl four ↦ inl (rw (other, child, four) refl, inr (child_of child, (==_iff _ _).0 four))
    ]
  ]
]
  where
    child_of : (protocol == proto_ah || protocol == proto_esp) ≡ true → IsChild protocol
    child_of h = elim (Bool-cases (protocol == proto_ah)) [
      | inl ah ↦ inl ((==_iff _ _).0 ah)
      | inr other ↦ inr ((==_iff _ _).0 (rw other at h))
    ]

err_ne_ok : (e : BodyError) (d : Delete) → ◌≢◌ {A = Result BodyError Delete} (err e) (ok d)
err_ne_ok e d h = cc

deleted_or : Delete → Result BodyError Delete → Delete
deleted_or d (ok e) = e
deleted_or d (err e) = d

ok_injective : (c d : Delete) → ◌≡◌ {A = Result BodyError Delete} (ok c) (ok d) → c ≡ d
unfolding deleted_or
ok_injective c d h = ap (deleted_or c) h

accepted :
    (p s count : ℕ) (rest : List ℕ)
    → Allowed p s count
    → 4 + length rest ≡ 4 + s * count
    → let d : Delete = record { protocol = p; spis = split_spis (length rest) s rest } in
      IsDelete d × (join d.spis ≡ rest)
accepted p s count [] (inl (ike, size, none)) e =
    let empty = split_spis-none 0 s in (inl (ike, empty), ap join empty)
accepted p s count (b ∷ rest) (inl (ike, size, none)) e = absurd (omega (arith, rw size at e))
accepted p s count rest (inr (child, size)) e =
    let four : length rest ≡ 4 * count = omega (arith, rw size at e) in
    let (sizes, joined) = split_spis-sizes (length rest) count rest four (omega arith) in
    rw size (inr (child, sizes), joined)

-- A Delete that is accepted has no SPIs for IKE, and SPIs of four bytes for AH or ESP, which are the
-- whole of the body past its first four bytes.
pub decode_delete-IsDelete :
    (body : List ℕ) (d : Delete)
    → decode_delete body ≡ ok d
    → IsDelete d × (join d.spis ≡ drop 4 body)
unfolding decode_delete
decode_delete-IsDelete [] d h = absurd (err_ne_ok short_body d h)
decode_delete-IsDelete (p ∷ []) d h = absurd (err_ne_ok short_body d h)
decode_delete-IsDelete (p ∷ s ∷ []) d h = absurd (err_ne_ok short_body d h)
decode_delete-IsDelete (p ∷ s ∷ c1 ∷ []) d h = absurd (err_ne_ok short_body d h)
decode_delete-IsDelete (p ∷ s ∷ c1 ∷ c0 ∷ rest) d h = elim (check_delete-Allowed p s (be16 c1 c0)) [
  | inr (e, refused) ↦ absurd (err_ne_ok e d (rw refused at h))
  | inl (passed, allowed) ↦
      let h' = rw passed at h in
      elim (Bool-cases (4 + length rest == 4 + s * be16 c1 c0)) [
        | inr bad ↦ absurd (err_ne_ok invalid_delete_length d (rw bad at h'))
        | inl whole ↦
            let found : Delete = record { protocol = p; spis = split_spis (length rest) s rest } in
            let same : found ≡ d = ok_injective found d (rw whole at h') in
            rw⁻¹ same (accepted p s (be16 c1 c0) rest allowed ((==_iff _ _).0 whole))
      ]
]
