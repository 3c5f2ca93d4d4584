-- ===== src/Prelude/Assoc.antt =====
-- Go's maps as association lists, in the order in which one pass over the map meets its keys.
use Prim.Native.Nat.{ℕ, suc, ◌+◌, ◌≤◌}
use mathlib.Core.Path.{◌≡◌, refl, ap, sym, subst, ◌∙◌}
use mathlib.Core.Logic.{◌≢◌, ite, if_pos, if_neg}
use mathlib.Core.Bool.{Bool, true, false}
use mathlib.Core.List.{List, [], ◌∷◌}
use mathlib.Core.Option.{Option, none, some}
use native.Mathlib.Omega.{arith}
use ranet_lite.Prelude.Lists.{length}
use ranet_lite.Prelude.Order.{All}

abbrev pub one_if : Bool → ℕ
one_if true = 1
one_if false = 0

-- How many of the items pass a test.
abbrev pub count_if {ℓ} : {A : Type ℓ} → (A → Bool) → List A → ℕ
count_if p [] = 0
count_if p (x ∷ xs) = one_if (p x) + count_if p xs

module _ {K V : Type 0} (dec : Discrete K) where
  unfoldable pub get : K → List (K × V) → Option V
  get k [] = none
  get k ((j, v) ∷ m) = ite (dec j k) (some v) (get k m)

  -- `m[k] = v` keeps the place of a key that is there.
  unfoldable pub put : K → V → List (K × V) → List (K × V)
  put k v [] = (k, v) ∷ []
  put k v ((j, w) ∷ m) = ite (dec j k) ((k, v) ∷ m) ((j, w) ∷ put k v m)

  -- `delete(m, k)`
  unfoldable pub remove : K → List (K × V) → List (K × V)
  remove k [] = []
  remove k ((j, w) ∷ m) = ite (dec j k) m ((j, w) ∷ remove k m)

  -- The key has no value.
  abbrev pub Absent : K → List (K × V) → Type 0
  Absent k m = All (λ (e : K × V). e.0 ≢ k) m

  abbrev pub Distinct : List (K × V) → Type 0
  Distinct [] = Unit
  Distinct ((k, v) ∷ m) = Absent k m × Distinct m

  pub get_head : (k j : K) (v : V) (m : List (K × V)) → j ≡ k → get k ((j, v) ∷ m) ≡ some v
  unfolding get
  get_head k j v m e = ground arith

  pub get_tail : (k j : K) (v : V) (m : List (K × V)) → j ≢ k → get k ((j, v) ∷ m) ≡ get k m
  unfolding get
  get_tail k j v m ne = ground arith

  pub get-put_self : (k : K) (v : V) (m : List (K × V)) → get k (put k v m) ≡ some v
  unfolding get put
  get-put_self k v [] = ground arith
  get-put_self k v ((j, w) ∷ m) = ground (arith, get-put_self k v m)

  pub get-put_ne : (k j : K) (v : V) (m : List (K × V)) → k ≢ j → get j (put k v m) ≡ get j m
  unfolding get put
  get-put_ne k j v [] ne = ground arith
  get-put_ne k j v ((i, w) ∷ m) ne = ground (arith, get-put_ne k j v m)

  pub get-remove_ne : (k j : K) (m : List (K × V)) → k ≢ j → get j (remove k m) ≡ get j m
  unfolding get remove
  get-remove_ne k j [] ne = refl
  get-remove_ne k j ((i, w) ∷ m) ne = ground (arith, get-remove_ne k j m)

  pub get-Absent : (k : K) (m : List (K × V)) → Absent k m → get k m ≡ none
  unfolding get
  get-Absent k [] h = refl
  get-Absent k ((j, w) ∷ m) h = rw (if_neg _ h.0) (get-Absent k m h.1)

  pub Absent-get : (k : K) (m : List (K × V)) → get k m ≡ none → Absent k m
  unfolding get
  Absent-get k [] h = tt
  Absent-get k ((j, w) ∷ m) h = (λ e. ground arith, Absent-get k m (ground arith))

  pub Absent-put : (k j : K) (v : V) (m : List (K × V)) → k ≢ j → Absent j m → Absent j (put k v m)
  unfolding put
  Absent-put k j v [] ne h = (ne, tt)
  Absent-put k j v ((i, w) ∷ m) ne h = elim (dec i k) [
    | yes e ↦ rw (if_pos _ e) (ne, h.1)
    | no n ↦ rw (if_neg _ n) (h.0, Absent-put k j v m ne h.1)
  ]

  pub Distinct-put : (k : K) (v : V) (m : List (K × V)) → Distinct m → Distinct (put k v m)
  unfolding put
  Distinct-put k v [] h = (tt, tt)
  Distinct-put k v ((i, w) ∷ m) h = elim (dec i k) [
    | yes e ↦ rw (if_pos _ e) (subst (λ x. Absent x m) e h.0, h.1)
    | no n ↦ rw (if_neg _ n) (Absent-put k i v m (λ e. n (sym e)) h.0, Distinct-put k v m h.1)
  ]

  pub Absent-remove : (k j : K) (m : List (K × V)) → Absent j m → Absent j (remove k m)
  unfolding remove
  Absent-remove k j [] h = tt
  Absent-remove k j ((i, w) ∷ m) h = elim (dec i k) [
    | yes e ↦ rw (if_pos _ e) h.1
    | no n ↦ rw (if_neg _ n) (h.0, Absent-remove k j m h.1)
  ]

  pub Distinct-remove : (k : K) (m : List (K × V)) → Distinct m → Distinct (remove k m)
  unfolding remove
  Distinct-remove k [] h = tt
  Distinct-remove k ((i, w) ∷ m) h = elim (dec i k) [
    | yes e ↦ rw (if_pos _ e) h.1
    | no n ↦ rw (if_neg _ n) (Absent-remove k i m h.0, Distinct-remove k m h.1)
  ]

  pub remove-Absent : (k : K) (m : List (K × V)) → Distinct m → Absent k (remove k m)
  unfolding remove
  remove-Absent k [] h = tt
  remove-Absent k ((i, w) ∷ m) h = elim (dec i k) [
    | yes e ↦ rw (if_pos _ e) (subst (λ x. Absent x m) e h.0)
    | no n ↦ rw (if_neg _ n) (n, remove-Absent k m h.1)
  ]

  pub get-remove_self : (k : K) (m : List (K × V)) → Distinct m → get k (remove k m) ≡ none
  get-remove_self k m h = get-Absent k (remove k m) (remove-Absent k m h)

  -- A key that is taken out takes its own count with it.
  pub count_if-remove :
      (p : K × V → Bool) (k : K) (v : V) (m : List (K × V))
      → get k m ≡ some v
      → count_if p m ≡ one_if (p (k, v)) + count_if p (remove k m)
  unfolding get remove
  count_if-remove p k v [] h = cc
  count_if-remove p k v ((j, w) ∷ m) h = elim (dec j k) [
    | yes e ↦
        let same : (j, w) ≡ (k, v) = ground arith in
        rw (if_pos _ e) (ap (λ (x : K × V). one_if (p x) + count_if p m) same)
    | no n ↦ rw (if_neg _ n) (omega (arith, count_if-remove p k v m (ground arith)))
  ]

  pub count_if-put_new :
      (p : K × V → Bool) (k : K) (v : V) (m : List (K × V))
      → get k m ≡ none
      → count_if p (put k v m) ≡ one_if (p (k, v)) + count_if p m
  unfolding get put
  count_if-put_new p k v [] h = refl
  count_if-put_new p k v ((j, w) ∷ m) h = elim (dec j k) [
    | yes e ↦ absurd (ground arith)
    | no n ↦ rw (if_neg _ n) (omega (arith, count_if-put_new p k v m (ground arith)))
  ]

  pub count_if-put_old :
      (p : K × V → Bool) (k : K) (v w : V) (m : List (K × V))
      → get k m ≡ some w
      → count_if p (put k v m) + one_if (p (k, w)) ≡ one_if (p (k, v)) + count_if p m
  unfolding get put
  count_if-put_old p k v w [] h = cc
  count_if-put_old p k v w ((j, u) ∷ m) h = elim (dec j k) [
    | yes e ↦
        let same : ◌≡◌ {A = K × V} (j, u) (k, w) = ground arith in
        rw (if_pos _ e) (omega (arith, ap (λ (x : K × V). one_if (p x)) same))
    | no n ↦ rw (if_neg _ n) (omega (arith, count_if-put_old p k v w m (ground arith)))
  ]

  pub length-put_new :
      (k : K) (v : V) (m : List (K × V)) → get k m ≡ none → length (put k v m) ≡ suc (length m)
  unfolding get put
  length-put_new k v [] h = refl
  length-put_new k v ((j, w) ∷ m) h = elim (dec j k) [
    | yes e ↦ absurd (ground arith)
    | no n ↦ rw (if_neg _ n) (ap suc (length-put_new k v m (ground arith)))
  ]

  pub length-put_old :
      (k : K) (v w : V) (m : List (K × V)) → get k m ≡ some w → length (put k v m) ≡ length m
  unfolding get put
  length-put_old k v w [] h = cc
  length-put_old k v w ((j, u) ∷ m) h = elim (dec j k) [
    | yes e ↦ rw (if_pos _ e) refl
    | no n ↦ rw (if_neg _ n) (ap suc (length-put_old k v w m (ground arith)))
  ]

  pub length-remove-le : (k : K) (m : List (K × V)) → length (remove k m) ≤ length m
  unfolding remove
  length-remove-le k [] = omega arith
  length-remove-le k ((j, w) ∷ m) = elim (dec j k) [
    | yes e ↦ rw (if_pos _ e) (omega arith)
    | no n ↦ rw (if_neg _ n) (omega (arith, length-remove-le k m))
  ]

All-map₂ {ℓ κ μ ν} :
    {A : Type ℓ} {P : A → Type κ} {Q : A → Type μ} {R : A → Type ν} (xs : List A)
    → ((a : A) → P a → Q a → R a)
    → All P xs
    → All Q xs
    → All R xs
All-map₂ [] f h k = tt
All-map₂ (x ∷ xs) f h k = (f x h.0 k.0, All-map₂ xs f h.1 k.1)

module _ {K V : Type 0} (dec : Discrete K) where
  -- Every item of one map is what another map holds at its key.
  abbrev pub Within : List (K × V) → List (K × V) → Type 0
  Within part m = All (λ (e : K × V). get dec e.0 m ≡ some e.1) part

  pub Within-self : (m : List (K × V)) → Distinct dec m → Within m m
  Within-self [] h = tt
  Within-self ((k, v) ∷ m) h = (
    get_head dec k k v m refl,
    All-map₂ m (λ e ne p. get_tail dec e.0 k v m (λ q. ne (sym q)) ∙ p) h.0 (Within-self m h.1),
  )

  pub Within-remove :
      (part m : List (K × V)) (k : K)
      → Absent dec k part
      → Within part m
      → Within part (remove dec k m)
  Within-remove part m k new h =
      All-map₂ part (λ e ne p. get-remove_ne dec k e.0 m (λ q. ne (sym q)) ∙ p) new h
