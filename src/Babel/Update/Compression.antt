-- ===== src/Babel/Update/Compression.antt =====
-- What the bytes that an Update omits stand for, internal/babel/update.go.
use ranet_lite.Prelude.{ℕ, ◌-◌, ◌≤◌, ◌≡◌, ◌≢◌, refl, ap, arith}
use ranet_lite.Prelude.{true, false, List, [], ◌∷◌, ◌++◌, length, take, drop}
use ranet_lite.Prelude.{ltb, ◌==◌, ◌>>=◌}
use ranet_lite.Prelude.{length-append, length-drop, take-append, drop-append, take-append-drop}
use ranet_lite.Prelude.{Bool-cases, inl, inr, none, replicate}
use ranet_lite.Prelude.Bytes.{be16}
use ranet_lite.Babel.Messages.{ae_wildcard}
use ranet_lite.Babel.Prefixes.{prefix_byte_len}
use ranet_lite.Babel.Update.{
  Update, PrefixDecoder, decode_update, state_of, decode_body, expand, check_prefix,
}

module _ (d : PrefixDecoder) (ae flags plen omitted : ℕ) (prefix subs : List ℕ) where
  -- A prefix may leave out as many bytes as it shares with the last one of its encoding.
  pub record MayOmit : Type 0 where
    pub known : (state_of d ae).have ≡ true
    pub shared : take omitted (state_of d ae).last ≡ take omitted prefix
    pub bound : omitted ≤ length prefix
    pub full : length prefix ≡ prefix_byte_len plen
    pub encoding : ae ≢ ae_wildcard

  checked : MayOmit → check_prefix d ae plen omitted ≡ check_prefix d ae plen 0
  unfolding check_prefix
  checked w =
      let carried : (ae == ae_wildcard) ≡ false = ground (arith, w.encoding) in
      elim (Bool-cases (ltb 0 omitted)) [
        | inl some_omitted ↦ rw (carried, w.known, some_omitted) refl
        | inr none_omitted ↦ rw (carried, w.known, none_omitted) refl
      ]

  same_body :
      (u : Update)
      → u.ae ≡ ae
      → u.plen ≡ plen
      → MayOmit
      → decode_body d u flags omitted (drop omitted prefix ++ subs)
        ≡ decode_body d u flags 0 (prefix ++ subs)
  unfolding decode_body expand
  same_body u e p w =
      let total = prefix_byte_len plen in
      let left : length (drop omitted prefix) ≡ total - omitted =
        omega (arith, length-drop omitted prefix, w.full) in
      let whole : total - 0 ≡ total = omega arith in
      let a : ltb total omitted ≡ false = ground (arith, w.bound, w.full) in
      let b : ltb total 0 ≡ false = ground arith in
      let f : ltb (length (drop omitted prefix ++ subs)) (total - omitted) ≡ false =
        ground (arith, length-append (drop omitted prefix) subs, left) in
      let g : ltb (length (prefix ++ subs)) total ≡ false =
        ground (arith, length-append prefix subs, w.full) in
      rw
        (
          e,
          p,
          whole,
          a,
          b,
          f,
          g,
          take-append (total - omitted) (drop omitted prefix) subs left,
          drop-append (total - omitted) (drop omitted prefix) subs left,
          take-append total prefix subs w.full,
          drop-append total prefix subs w.full,
          w.shared,
          take-append-drop omitted prefix,
        )
        refl

  -- An Update that leaves bytes out decodes exactly as the one that spells them out, in what it
  -- yields and in what it leaves for the next.
  pub decode_update-omitted :
      (i1 i0 s1 s0 m1 m0 : ℕ)
      → MayOmit
      → decode_update d (
          ae ∷ flags ∷ plen ∷ omitted ∷ i1 ∷ i0 ∷ s1 ∷ s0 ∷ m1 ∷ m0 ∷ (drop omitted prefix ++ subs))
        ≡ decode_update d (ae ∷ flags ∷ plen ∷ 0 ∷ i1 ∷ i0 ∷ s1 ∷ s0 ∷ m1 ∷ m0 ∷ (prefix ++ subs))
  unfolding decode_update
  decode_update-omitted i1 i0 s1 s0 m1 m0 w = rw (checked w) (
      ap (λ r. check_prefix d ae plen 0 >>= λ t. r)
        (same_body (header i1 i0 s1 s0 m1 m0) refl refl w))
    where
      header : ℕ → ℕ → ℕ → ℕ → ℕ → ℕ → Update
      header i1 i0 s1 s0 m1 m0 = record {
        ae = ae;
        plen = plen;
        interval = be16 i1 i0;
        seqno = be16 s1 s0;
        metric = be16 m1 m0;
        prefix = [];
        router_id = replicate 8 0;
        has_router_id = false;
        ignore = false;
        source_prefix = none;
      }
