-- ===== src/Babel/Source.antt =====
-- The source table and the feasibility condition of internal/babel/source.go. Times and durations
-- are numbers of nanoseconds. A counter map reads 0 at a key that it lacks, so a counter that is
-- deleted is one that is set to 0.
pub mod Feasibility
pub mod Counters
pub mod Sweep
pub mod Bounds
use mathlib.Core.Logic.{ite}
use native.Mathlib.Decide.{ℕ_discrete}
use ranet_lite.Prelude.{ℕ, zero, suc, ◌+◌, ◌-◌, ◌*◌, ◌^◌, Bool, true, false, ◌&&◌, ◌||◌, not}
use ranet_lite.Prelude.{Option, none, some, List, [], ◌∷◌, length, ltb, leb, ◌==◌, if◌then◌else◌}
use ranet_lite.Prelude.Assoc.{get, put, remove}
use ranet_lite.Prelude.Bytes.{u16}
use ranet_lite.Babel.Metric.{seqno_gt, metric_infinity}
use ranet_lite.Babel.Keys.{RouteKey, SourceKey, PeerId, Advertisement}
use ranet_lite.Babel.Keys.{RouteKey-discrete, SourceKey-discrete}

abbrev pub source_gc_time : ℕ
source_gc_time = 180 * 10 ^ 9

abbrev pub max_sources : ℕ
max_sources = 2 ^ 16

abbrev pub max_origins_per_prefix : ℕ
max_origins_per_prefix = 2 ^ 10

abbrev pub max_origins_per_prefix_per_neighbor : ℕ
max_origins_per_prefix_per_neighbor = 2 ^ 8

abbrev pub max_sources_per_neighbor : ℕ
max_sources_per_neighbor = 2 ^ 13

pub record SourceEntry : Type 0 where
  pub seqno : ℕ
  pub metric : ℕ
  pub gc_at : ℕ
  pub owner : PeerId

-- `shares` is originsBy, whose key is the pair of a prefix and a peer.
pub record SourceTable : Type 0 where
  pub sources : List (SourceKey × SourceEntry)
  pub per_key : RouteKey → ℕ
  pub shares : RouteKey → PeerId → ℕ
  pub by_peer : PeerId → ℕ

abbrev pub find_source : SourceKey → SourceTable → Option SourceEntry
find_source k t = get SourceKey-discrete k t.sources

abbrev pub source_key : RouteKey → Advertisement → SourceKey
source_key key adv = record { route = key; router_id = adv.router_id }

unfoldable pub better : SourceEntry → ℕ → ℕ → Bool
better e seqno metric = seqno_gt seqno e.seqno || (seqno == e.seqno && ltb metric e.metric)

-- Whether the table has room for a source of `from` that it does not know.
unfoldable pub has_room : SourceTable → RouteKey → PeerId → Bool
has_room t key from =
    if leb max_sources (length t.sources)
    then false
    else if leb max_origins_per_prefix (t.per_key key)
    then false
    else if leb max_sources_per_neighbor (t.by_peer from)
    then false
    else if leb max_origins_per_prefix_per_neighbor (t.shares key from)
    then false
    else true

unfoldable pub feasible : SourceTable → RouteKey → Advertisement → PeerId → Bool
feasible t key adv from =
    if adv.metric == metric_infinity then true else elim (find_source (source_key key adv) t) [
      | none ↦ has_room t key from
      | some entry ↦ better entry adv.seqno adv.metric
    ]

-- `m[k] = v` on a counter map.
unfoldable pub set_count : (RouteKey → ℕ) → RouteKey → ℕ → RouteKey → ℕ
set_count m k v j = ite (RouteKey-discrete k j) v (m j)

unfoldable pub set_peer : (PeerId → ℕ) → PeerId → ℕ → PeerId → ℕ
set_peer m p v q = if p == q then v else m q

unfoldable pub set_share : (RouteKey → PeerId → ℕ) → RouteKey → PeerId → ℕ → RouteKey → PeerId → ℕ
unfolding set_peer
set_share m k p v j = ite (RouteKey-discrete k j) (set_peer (m j) p v) (m j)

-- `delete` at one or less, else `m[k]--`.
abbrev pub decrement : ℕ → ℕ
decrement c = if leb c 1 then 0 else c - 1

unfoldable pub charge : SourceTable → RouteKey → PeerId → SourceTable
charge t key from = record t {
  shares = set_share t.shares key from (t.shares key from + 1);
  by_peer = set_peer t.by_peer from (t.by_peer from + 1);
}

unfoldable pub release_origin : SourceTable → RouteKey → PeerId → SourceTable
release_origin t key owner = record t {
  shares = set_share t.shares key owner (decrement (t.shares key owner));
  by_peer = set_peer t.by_peer owner (decrement (t.by_peer owner));
}

-- The entry pointer is stored in the table, so that writing its fields writes the table.
unfoldable pub store : SourceTable → SourceKey → SourceEntry → SourceTable
store t k e = record t { sources = put SourceKey-discrete k e t.sources }

unfoldable pub observe_new : SourceTable → RouteKey → Advertisement → PeerId → ℕ → SourceTable
observe_new t key adv from now =
    let t' = store t (source_key key adv) (record {
      seqno = adv.seqno;
      metric = adv.metric;
      gc_at = now + source_gc_time;
      owner = from;
    }) in
    charge (record t' { per_key = set_count t'.per_key key (t'.per_key key + 1) }) key from

-- The distance that is kept: the advertised one if it is strictly better.
unfoldable pub improve : SourceEntry → Advertisement → SourceEntry
improve e adv =
    if better e adv.seqno adv.metric then record e { seqno = adv.seqno; metric = adv.metric } else e

unfoldable pub observe_known :
    SourceTable → RouteKey → Advertisement → PeerId → ℕ → SourceEntry → SourceTable
observe_known t key adv from now entry =
    let t' =
      if entry.owner == from then t else charge (release_origin t key entry.owner) key from in
    store t' (source_key key adv)
      (record (improve entry adv) { owner = from; gc_at = now + source_gc_time })

unfoldable pub observe : SourceTable → RouteKey → Advertisement → PeerId → ℕ → SourceTable
observe t key adv from now =
    if adv.metric == metric_infinity then t else elim (find_source (source_key key adv) t) [
      | none ↦ observe_new t key adv from now
      | some entry ↦ observe_known t key adv from now entry
    ]

unfoldable pub request_seqno : SourceTable → RouteKey → Advertisement → ℕ
request_seqno t key adv = elim (find_source (source_key key adv) t) [
  | some entry ↦ u16 (entry.seqno + 1)
  | none ↦ u16 (adv.seqno + 1)
]

unfoldable pub drop_source : SourceTable → SourceKey → SourceEntry → SourceTable
drop_source t index entry =
    let t' = record t {
      sources = remove SourceKey-discrete index t.sources;
      per_key = set_count t.per_key index.route (decrement (t.per_key index.route));
    } in
    release_origin t' index.route entry.owner

-- The range over the table: what is still to be visited, and the table as it stands.
unfoldable pub sweep_loop : List (SourceKey × SourceEntry) → ℕ → SourceTable → SourceTable
sweep_loop [] now t = t
sweep_loop ((index, entry) ∷ rest) now t =
    sweep_loop rest now (if ltb now entry.gc_at then t else drop_source t index entry)

unfoldable pub sweep_sources : SourceTable → ℕ → SourceTable
sweep_sources t now = sweep_loop t.sources now t
