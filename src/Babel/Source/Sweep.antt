-- ===== src/Babel/Source/Sweep.antt =====
-- `sweepSources` of internal/babel/source.go.
use mathlib.Core.Logic.{◌≢◌}
use ranet_lite.Prelude.{ℕ, ◌≡◌, refl, ◌∙◌}
use ranet_lite.Prelude.{Option, none, some, List, [], ◌∷◌, ltb, if◌then◌else◌, Bool-cases, inl, inr}
use ranet_lite.Prelude.Assoc.{get, remove, Distinct, Within, Within-self, Within-remove}
use ranet_lite.Prelude.Assoc.{
  get-remove_ne, get-remove_self, get-Absent, Absent, get_head, get_tail,
}
use ranet_lite.Babel.Keys.{SourceKey, SourceKey-discrete}
use ranet_lite.Babel.Source.{SourceEntry, SourceTable, find_source, drop_source, release_origin}
use ranet_lite.Babel.Source.{sweep_loop, sweep_sources}
use ranet_lite.Babel.Source.Counters.{IsCounted, drop-IsCounted}

drop-sources :
    (t : SourceTable) (k : SourceKey) (e : SourceEntry)
    → (drop_source t k e).sources ≡ remove SourceKey-discrete k t.sources
unfolding drop_source release_origin
drop-sources t k e = refl

-- What a sweep at `now` leaves of an entry.
abbrev pub unexpired : ℕ → Option SourceEntry → Option SourceEntry
unexpired now none = none
unexpired now (some e) = if ltb now e.gc_at then some e else none

abbrev stepped : ℕ → SourceKey → SourceEntry → SourceTable → SourceTable
stepped now k e t = if ltb now e.gc_at then t else drop_source t k e

step-IsCounted :
    (now : ℕ) (k : SourceKey) (e : SourceEntry) (t : SourceTable)
    → IsCounted t
    → find_source k t ≡ some e
    → IsCounted (stepped now k e t)
step-IsCounted now k e t w found = elim (Bool-cases (ltb now e.gc_at)) [
  | inl live ↦ rw live w
  | inr dead ↦ rw dead (drop-IsCounted t k e w found)
]

step-Within :
    (now : ℕ) (k : SourceKey) (e : SourceEntry) (t : SourceTable)
    (rest : List (SourceKey × SourceEntry))
    → Absent SourceKey-discrete k rest
    → Within SourceKey-discrete rest t.sources
    → Within SourceKey-discrete rest (stepped now k e t).sources
step-Within now k e t rest new h = elim (Bool-cases (ltb now e.gc_at)) [
  | inl live ↦ rw live h
  | inr dead ↦
      rw (dead, drop-sources t k e) (Within-remove SourceKey-discrete rest t.sources k new h)
]

find-step_self :
    (now : ℕ) (k : SourceKey) (e : SourceEntry) (t : SourceTable)
    → IsCounted t
    → find_source k t ≡ some e
    → find_source k (stepped now k e t) ≡ unexpired now (some e)
find-step_self now k e t w found = elim (Bool-cases (ltb now e.gc_at)) [
  | inl live ↦ rw live found
  | inr dead ↦
      rw (dead, drop-sources t k e) (get-remove_self SourceKey-discrete k t.sources w.distinct)
]

find-step_ne :
    (now : ℕ) (k j : SourceKey) (e : SourceEntry) (t : SourceTable)
    → k ≢ j
    → find_source j (stepped now k e t) ≡ find_source j t
find-step_ne now k j e t ne = elim (Bool-cases (ltb now e.gc_at)) [
  | inl live ↦ rw live refl
  | inr dead ↦ rw (dead, drop-sources t k e) (get-remove_ne SourceKey-discrete k j t.sources ne)
]

sweep_loop-IsCounted :
    (pending : List (SourceKey × SourceEntry)) (now : ℕ) (t : SourceTable)
    → Distinct SourceKey-discrete pending
    → Within SourceKey-discrete pending t.sources
    → IsCounted t
    → IsCounted (sweep_loop pending now t)
unfolding sweep_loop
sweep_loop-IsCounted [] now t d h w = w
sweep_loop-IsCounted ((k, e) ∷ rest) now t d h w =
    sweep_loop-IsCounted rest now (stepped now k e t) d.1 (step-Within now k e t rest d.0 h.1)
      (step-IsCounted now k e t w h.0)

-- A source that is still to be visited keeps its entry if that has not expired.
abbrev outcome : ℕ → Option SourceEntry → Option SourceEntry → Option SourceEntry
outcome now none found = found
outcome now (some e) found = unexpired now (some e)

find-sweep_loop :
    (pending : List (SourceKey × SourceEntry)) (now : ℕ) (t : SourceTable) (k : SourceKey)
    → Distinct SourceKey-discrete pending
    → Within SourceKey-discrete pending t.sources
    → IsCounted t
    → find_source k (sweep_loop pending now t)
      ≡ outcome now (get SourceKey-discrete k pending) (find_source k t)
unfolding sweep_loop
find-sweep_loop [] now t k d h w = unfold get in refl
find-sweep_loop ((j, e) ∷ rest) now t k d h w =
    find-sweep_loop rest now (stepped now j e t) k d.1 (step-Within now j e t rest d.0 h.1)
      (step-IsCounted now j e t w h.0)
    ∙ visited
  where
    visited :
        outcome now (get SourceKey-discrete k rest) (find_source k (stepped now j e t))
        ≡ outcome now (get SourceKey-discrete k ((j, e) ∷ rest)) (find_source k t)
    visited = elim (SourceKey-discrete j k) [
      | yes p ↦
          rw
            (
              ← p,
              get-Absent SourceKey-discrete j rest d.0,
              get_head SourceKey-discrete j j e rest refl,
            )
            (find-step_self now j e t w h.0)
      | no ne ↦ rw (get_tail SourceKey-discrete k j e rest ne, find-step_ne now j k e t ne) refl
    ]

-- A sweep removes exactly the entries whose time has come, whether or not a route still refers to
-- them, and leaves every counter of the table exact.
pub sweep_sources_lem :
    (t : SourceTable) (now : ℕ) (k : SourceKey)
    → IsCounted t
    → IsCounted (sweep_sources t now)
      × (find_source k (sweep_sources t now) ≡ unexpired now (find_source k t))
unfolding sweep_sources
sweep_sources_lem t now k w =
    let all : Within SourceKey-discrete t.sources t.sources =
      Within-self SourceKey-discrete t.sources w.distinct in
    (
      sweep_loop-IsCounted t.sources now t w.distinct all w,
      find-sweep_loop t.sources now t k w.distinct all w ∙ same (find_source k t),
    )
  where
    same : (o : Option SourceEntry) → outcome now o o ≡ unexpired now o
    same none = refl
    same (some e) = refl
