-- ===== src/Ike/Proposal/RoundTrip.antt =====
-- SA payloads there and back, ike/payloads_sa.go.
pub mod Transforms
use ranet_lite.Prelude.{ℕ, zero, suc, ◌+◌, ◌-◌, ◌^◌, ◌<◌, ◌≤◌, ◌≡◌, refl, sym, ap, ◌∙◌, arith}
use ranet_lite.Prelude.{inl, inr, Bool, true, false, not, ◌&&◌, ◌||◌}
use ranet_lite.Prelude.{List, [], ◌∷◌, ◌++◌, length, ok, ◌>>=◌}
use ranet_lite.Prelude.{ltb, ◌==◌, if◌then◌else◌, Bool-cases, ==_iff}
use ranet_lite.Prelude.{take_length-append, drop_length-append, length-append, append-nil}
use ranet_lite.Prelude.Order.{All}
use ranet_lite.Prelude.Bytes.{byte_of, be16, be16_bytes, u16, u8, IsU16}
use ranet_lite.Ike.Proposal.{Transform, Proposal, transform_attrs, encode_transform}
use ranet_lite.Ike.Proposal.{read_attribute, attribute_loop, decode_transform, encode_transforms}
use ranet_lite.Ike.Proposal.{encode_proposal, transforms_loop, no_trailing, decode_proposal}
use ranet_lite.Ike.Proposal.{encode_sa, sa_loop, decode_sa, is_nil}
pub use ranet_lite.Ike.Proposal.RoundTrip.Transforms.{IsTransform, transforms_loop-encode}

-- A proposal whose parts fit their fields.
pub record IsProposal (p : Proposal) : Type 0 where
  pub spi_fits : length p.spi < 256
  pub count_fits : length p.transforms < 256
  pub transforms_fit : All IsTransform p.transforms
  pub size_fits : 8 + length p.spi + length (encode_transforms p.transforms) < 2 ^ 16

last_byte : Bool → ℕ
last_byte last = if last then 0 else 2

last_byte_lem :
    (last : Bool)
    → ((not (last_byte last == 0) && not (last_byte last == 2)) ≡ false)
      × ((last_byte last == 2) ≡ not last)
unfolding last_byte
last_byte_lem true = (refl, refl)
last_byte_lem false = (refl, refl)

proposal_framed :
    (last : Bool) (p : Proposal) (tbody rest : List ℕ)
    → IsProposal p
    → length tbody ≡ length (encode_transforms p.transforms)
    → transforms_loop (length p.transforms) tbody ≡ ok (p.transforms, [])
    → let size = u16 (8 + length p.spi + length tbody) in
      decode_proposal (
        last_byte last
          ∷ 0
          ∷ byte_of size 1
          ∷ byte_of size 0
          ∷ p.number
          ∷ p.protocol
          ∷ u8 (length p.spi)
          ∷ u8 (length p.transforms)
          ∷ (p.spi ++ tbody)
        ++ rest)
      ≡ ok (p, not last, rest)
unfolding decode_proposal no_trailing
proposal_framed last p tbody rest w e read =
    let all = p.spi ++ tbody in
    let size = u16 (8 + length p.spi + length tbody) in
    let len : be16 (byte_of size 1) (byte_of size 0) ≡ 8 + length all =
      omega (arith, w.size_fits, e, length-append p.spi tbody) in
    let body : 8 + length all - 8 ≡ length all = omega arith in
    let fits : (ltb (8 + length all) 8 || ltb (8 + length (all ++ rest)) (8 + length all)) ≡ false =
      ground (arith, length-append all rest) in
    let spi : u8 (length p.spi) ≡ length p.spi = omega (arith, w.spi_fits) in
    let num : u8 (length p.transforms) ≡ length p.transforms = omega (arith, w.count_fits) in
    let whole : ltb (length all) (length p.spi) ≡ false =
      ground (arith, length-append p.spi tbody) in
    let (known, two) = last_byte_lem last in
    rw
      (
        known,
        len,
        fits,
        body,
        take_length-append all rest,
        drop_length-append all rest,
        spi,
        num,
        whole,
        take_length-append p.spi tbody,
        drop_length-append p.spi tbody,
        read,
        two,
      )
      refl

decode-encode_proposal :
    (last : Bool) (p : Proposal) (rest : List ℕ)
    → IsProposal p
    → decode_proposal (encode_proposal last p ++ rest) ≡ ok (p, not last, rest)
unfolding encode_proposal last_byte
decode-encode_proposal last p rest w =
    proposal_framed last p (encode_transforms p.transforms) rest w refl
      (transforms_loop-encode p.transforms w.transforms_fit)

sa_step :
    (fuel : ℕ) (x : ℕ) (xs rest : List ℕ) (p : Proposal) (more : Bool) (ps : List Proposal)
    → decode_proposal (x ∷ xs) ≡ ok (p, more, rest)
    → more ≡ not (is_nil rest)
    → sa_loop fuel rest ≡ ok ps
    → sa_loop (suc fuel) (x ∷ xs) ≡ ok (p ∷ ps)
unfolding sa_loop
sa_step fuel x xs [] p more ps e f g = rw (e, f) (ap (λ r. r >>= λ qs. ok (p ∷ qs)) g)
sa_step fuel x xs (r ∷ rest) p more ps e f g = rw (e, f, g) refl

sa_loop-nil : (fuel : ℕ) → sa_loop fuel [] ≡ ok []
unfolding sa_loop
sa_loop-nil fuel = refl

decode-encode_last_proposal :
    (p : Proposal) → IsProposal p → decode_proposal (encode_proposal true p) ≡ ok (p, false, [])
decode-encode_last_proposal p w =
    ap decode_proposal (sym (append-nil (encode_proposal true p)))
    ∙ decode-encode_proposal true p [] w

encode_sa-nonempty : (p : Proposal) (ps : List Proposal) → is_nil (encode_sa (p ∷ ps)) ≡ false
unfolding encode_sa encode_proposal
encode_sa-nonempty p [] = refl
encode_sa-nonempty p (q ∷ ps) = refl

sa_loop-encode :
    (ps : List Proposal) (fuel : ℕ)
    → All IsProposal ps
    → length ps ≤ fuel
    → sa_loop fuel (encode_sa ps) ≡ ok ps
unfolding encode_sa encode_proposal
sa_loop-encode [] fuel w h = sa_loop-nil fuel
sa_loop-encode (p ∷ ps) zero w h = absurd (omega arith)
sa_loop-encode (p ∷ []) (suc fuel) w h =
    sa_step fuel _ _ [] p false [] (decode-encode_last_proposal p w.0) refl (sa_loop-nil fuel)
sa_loop-encode (p ∷ q ∷ ps) (suc fuel) w h =
    sa_step fuel _ _ (encode_sa (q ∷ ps)) p true (q ∷ ps)
      (decode-encode_proposal false p (encode_sa (q ∷ ps)) w.0) (rw (encode_sa-nonempty q ps) refl)
      (sa_loop-encode (q ∷ ps) fuel w.1 (omega arith))

length-encode_sa : (ps : List Proposal) → length ps ≤ length (encode_sa ps)
unfolding encode_sa encode_proposal
length-encode_sa [] = omega arith
length-encode_sa (p ∷ []) = omega arith
length-encode_sa (p ∷ q ∷ ps) = omega (
  arith,
  length-encode_sa (q ∷ ps),
  length-append (p.spi ++ encode_transforms p.transforms) (encode_sa (q ∷ ps)),
)

-- Proposals whose parts fit their fields, of transforms without unknown attributes, decode to
-- themselves in their order.
pub decode_sa-encode_sa :
    (ps : List Proposal) → All IsProposal ps → decode_sa (encode_sa ps) ≡ ok ps
unfolding decode_sa
decode_sa-encode_sa ps w = sa_loop-encode ps (length (encode_sa ps)) w (length-encode_sa ps)
