-- ===== src/Examples/Sources.antt =====
-- The source table of internal/babel/source.go at concrete inputs.
use mathlib.Core.Logic.{◌⊎◌}
use ranet_lite.Prelude.{ℕ, ◌≡◌, ◌≤◌, refl, ◌||◌, arith, true, false, none, some, [], ◌∷◌, length}
use ranet_lite.Prelude.Assoc.{get, get_head}
use ranet_lite.Babel.Keys.{RouteKey, SourceKey-discrete, Advertisement}
use ranet_lite.Babel.Source.{
  SourceEntry, SourceTable, find_source, source_key, better, feasible, observe,
}
use ranet_lite.Babel.Source.{
  request_seqno, sweep_sources, max_sources, max_origins_per_prefix, has_room,
}
use ranet_lite.Babel.Source.Feasibility.{
  feasible-observe, observe_distance, feasible-request_seqno, is_recorded,
}
use ranet_lite.Babel.Source.Counters.{IsCounted, observe-IsCounted}
use ranet_lite.Babel.Source.Sweep.{sweep_sources_lem, unexpired}
use ranet_lite.Babel.Source.Bounds.{observe_bounds}

-- 10.0.0.0/8
abbrev pub dest_key : RouteKey
dest_key = record { dest = record { is_4 = true; addr = 0x0a00_0000; plen = 8 }; source = none }

abbrev pub adv_at : ℕ → ℕ → Advertisement
adv_at seqno metric = record { router_id = 7; seqno = seqno; metric = metric }

abbrev pub empty_sources : SourceTable
empty_sources = record { sources = []; per_key = λ k. 0; shares = λ k p. 0; by_peer = λ p. 0 }

abbrev entry : SourceEntry
entry = record { seqno = 65535; metric = 96; gc_at = 50; owner = 1 }

abbrev known_sources : SourceTable
known_sources = record empty_sources {
  sources = (source_key dest_key (adv_at 65535 96), entry) ∷ [];
}

found_entry : find_source (source_key dest_key (adv_at 65535 96)) known_sources ≡ some entry
found_entry = get_head SourceKey-discrete _ _ entry [] refl

empty-IsCounted : IsCounted empty_sources
empty-IsCounted = record {
  distinct = tt;
  keys = λ k. refl;
  shared = λ k p. refl;
  owned = λ p. refl;
}

feasible-observe_example :
    feasible (observe known_sources dest_key (adv_at 65535 90) 1 0) dest_key (adv_at 65535 90) 2
    ≡ false
feasible-observe_example =
    feasible-observe known_sources dest_key (adv_at 65535 90) 1 2 0 (omega arith)

observe_distance_example :
    (e : SourceEntry) × (find_source
        (source_key dest_key (adv_at 0 200))
        (observe known_sources dest_key (adv_at 0 200) 2 0)
      ≡ some e)
    × (((e.seqno ≡ 65535) × (e.metric ≡ 96)) ⊎ (better entry e.seqno e.metric ≡ true))
    × (better e 0 200 ≡ false)
observe_distance_example =
    observe_distance known_sources dest_key (adv_at 0 200) 2 0 entry (omega arith) found_entry

asked : 6 ≡ request_seqno empty_sources dest_key (adv_at 5 200)
unfolding request_seqno get
asked = refl

feasible-request_seqno_example :
    (feasible empty_sources dest_key (adv_at 6 900) 2
      ≡ (is_recorded none || has_room empty_sources dest_key 2))
    × (feasible (observe empty_sources dest_key (adv_at 5 200) 1 0) dest_key (adv_at 6 900) 2
        ≡ true)
unfolding get
feasible-request_seqno_example =
    feasible-request_seqno empty_sources dest_key (adv_at 5 200) (adv_at 6 900) 2 1 0 (omega arith)
      (omega arith) (omega arith) refl asked tt

observe-IsCounted_example : IsCounted (observe empty_sources dest_key (adv_at 5 96) 1 0)
observe-IsCounted_example =
    observe-IsCounted empty_sources dest_key (adv_at 5 96) 1 0 empty-IsCounted

sweep_sources_lem_example :
    let t = observe empty_sources dest_key (adv_at 5 96) 1 0 in
    let k = source_key dest_key (adv_at 5 96) in
    IsCounted (sweep_sources t 200_000_000_000)
    × (find_source k (sweep_sources t 200_000_000_000)
        ≡ unexpired 200_000_000_000 (find_source k t))
sweep_sources_lem_example =
    sweep_sources_lem (observe empty_sources dest_key (adv_at 5 96) 1 0) 200_000_000_000
      (source_key dest_key (adv_at 5 96))
      (observe-IsCounted empty_sources dest_key (adv_at 5 96) 1 0 empty-IsCounted)

roomy : feasible empty_sources dest_key (adv_at 5 96) 1 ≡ true
unfolding feasible has_room get
roomy = refl

observe_bounds_example :
    (length (observe empty_sources dest_key (adv_at 5 96) 1 0).sources ≤ max_sources)
    × ((observe empty_sources dest_key (adv_at 5 96) 1 0).per_key dest_key ≤ max_origins_per_prefix)
observe_bounds_example =
    observe_bounds empty_sources dest_key (adv_at 5 96) 1 0 dest_key roomy (omega arith)
      (omega arith)
