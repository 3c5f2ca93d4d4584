-- ===== src/Babel/Source/Bounds.antt =====
-- The feasibility condition of internal/babel/source.go also bounds the source table.
use native.Mathlib.Decide.{ℕ_discrete}
use ranet_lite.Prelude.{ℕ, ◌≤◌, ◌<◌, ◌≡◌, refl, arith, true, ◌≢◌}
use ranet_lite.Prelude.{none, some, length, inl, inr, Option-cases, Bool-cases, ◌==◌}
use ranet_lite.Prelude.Assoc.{length-put_new, length-put_old}
use ranet_lite.Babel.Metric.{metric_infinity}
use ranet_lite.Babel.Keys.{RouteKey, PeerId, Advertisement, SourceKey-discrete}
use ranet_lite.Babel.Source.{SourceEntry, SourceTable, find_source, source_key, feasible, has_room}
use ranet_lite.Babel.Source.{observe, observe_new, observe_known, store, charge, release_origin}
use ranet_lite.Babel.Source.{set_count, max_sources, max_origins_per_prefix}
use ranet_lite.Babel.Source.Feasibility.{observe_absent, observe_present}

module _ (t : SourceTable) (key : RouteKey) (adv : Advertisement) (from : PeerId) (now : ℕ) where
  room_of_feasible :
      adv.metric ≢ metric_infinity
      → find_source (source_key key adv) t ≡ none
      → feasible t key adv from ≡ true
      → (length t.sources < max_sources) × (t.per_key key < max_origins_per_prefix)
  unfolding feasible has_room
  room_of_feasible finite e h = ground arith

  module _ (k : RouteKey) where
    new_bounds :
        find_source (source_key key adv) t ≡ none
        → length t.sources < max_sources
        → t.per_key key < max_origins_per_prefix
        → t.per_key k ≤ max_origins_per_prefix
        → (length (observe_new t key adv from now).sources ≤ max_sources)
          × ((observe_new t key adv from now).per_key k ≤ max_origins_per_prefix)
    unfolding observe_new store charge set_count
    new_bounds e p q r = (
      omega (arith, length-put_new SourceKey-discrete (source_key key adv) _ t.sources e),
      ground arith,
    )

    known_bounds :
        (entry : SourceEntry)
        → find_source (source_key key adv) t ≡ some entry
        → (length (observe_known t key adv from now entry).sources ≡ length t.sources)
          × ((observe_known t key adv from now entry).per_key k ≡ t.per_key k)
    unfolding observe_known store charge release_origin
    known_bounds entry e = elim (Bool-cases (entry.owner == from)) [
      | inl same ↦
          rw same (length-put_old SourceKey-discrete (source_key key adv) _ entry t.sources e, refl)
      | inr moved ↦
          rw moved
            (length-put_old SourceKey-discrete (source_key key adv) _ entry t.sources e, refl)
    ]

-- As long as a distance is only recorded for an advertisement that was feasible, the source table
-- never holds more than `max_sources` entries, nor one prefix more than its share of origins.
pub observe_bounds :
    (t : SourceTable) (key : RouteKey) (adv : Advertisement) (from : PeerId) (now : ℕ)
    (k : RouteKey)
    → feasible t key adv from ≡ true
    → length t.sources ≤ max_sources
    → t.per_key k ≤ max_origins_per_prefix
    → (length (observe t key adv from now).sources ≤ max_sources)
      × ((observe t key adv from now).per_key k ≤ max_origins_per_prefix)
observe_bounds t key adv from now k h len per = elim (ℕ_discrete adv.metric metric_infinity) [
  | yes e ↦ unfold observe in (ground arith)
  | no finite ↦ elim (Option-cases (find_source (source_key key adv) t)) [
    | inl e ↦
        let (p, q) = room_of_feasible t key adv from now finite e h in
        rw (observe_absent t key adv from now finite e) (new_bounds t key adv from now k e p q per)
    | inr (entry, e) ↦
        let (p, q) = known_bounds t key adv from now k entry e in
        rw (observe_present t key adv from now finite entry e) (omega arith)
  ]
]
