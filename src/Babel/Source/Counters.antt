-- ===== src/Babel/Source/Counters.antt =====
-- The counters that bound the source table of internal/babel/source.go are exact.
use mathlib.Core.Logic.{ite, inl, inr}
use native.Mathlib.Decide.{ℕ_discrete}
use ranet_lite.Prelude.{Option-cases}
use ranet_lite.Prelude.{ℕ, ◌+◌, ◌<◌, ◌≡◌, arith, Bool, true, false, ◌&&◌}
use ranet_lite.Prelude.{none, some, ◌==◌}
use ranet_lite.Prelude.Assoc.{put, Distinct, Distinct-put, Distinct-remove, count_if}
use ranet_lite.Prelude.Assoc.{one_if, count_if-remove, count_if-put_new, count_if-put_old}
use ranet_lite.Babel.Metric.{metric_infinity}
use ranet_lite.Babel.Keys.{RouteKey, SourceKey, PeerId, Advertisement}
use ranet_lite.Babel.Keys.{SourceKey-discrete, RouteKey-discrete}
use ranet_lite.Babel.Source.{
  SourceEntry, SourceTable, find_source, source_key, observe, observe_new,
}
use ranet_lite.Babel.Source.{observe_known, store, charge, release_origin, set_count, set_peer}
use ranet_lite.Babel.Source.{set_share, drop_source, improve, source_gc_time}
use ranet_lite.Babel.Source.Feasibility.{observe_absent, observe_present}

abbrev pub on_key : RouteKey → SourceKey × SourceEntry → Bool
on_key k x = ite (RouteKey-discrete x.0.route k) true false

abbrev pub owned_by : PeerId → SourceKey × SourceEntry → Bool
owned_by p x = x.1.owner == p

abbrev pub on_share : RouteKey → PeerId → SourceKey × SourceEntry → Bool
on_share k p x = on_key k x && owned_by p x

-- Each counter is the number of entries that it stands for, and no source has two entries.
pub record IsCounted (t : SourceTable) : Type 0 where
  pub distinct : Distinct SourceKey-discrete t.sources
  pub keys : (k : RouteKey) → t.per_key k ≡ count_if (on_key k) t.sources
  pub shared : (k : RouteKey) (p : PeerId) → t.shares k p ≡ count_if (on_share k p) t.sources
  pub owned : (p : PeerId) → t.by_peer p ≡ count_if (owned_by p) t.sources

observe_retraction :
    (t : SourceTable) (key : RouteKey) (adv : Advertisement) (from : PeerId) (now : ℕ)
    → adv.metric ≡ metric_infinity
    → observe t key adv from now ≡ t
unfolding observe
observe_retraction t key adv from now e = ground arith

module _ (t : SourceTable) (w : IsCounted t) (key : RouteKey) (adv : Advertisement) (from : PeerId)
    (now : ℕ) where
  abbrev fresh : SourceEntry
  fresh = record {
    seqno = adv.seqno;
    metric = adv.metric;
    gc_at = now + source_gc_time;
    owner = from;
  }

  new-IsCounted :
      find_source (source_key key adv) t ≡ none → IsCounted (observe_new t key adv from now)
  unfolding observe_new store charge set_count set_share set_peer
  new-IsCounted e = record {
    distinct = Distinct-put SourceKey-discrete _ _ t.sources w.distinct;
    keys = λ k. ground (
      arith,
      w.keys key,
      w.keys k,
      count_if-put_new SourceKey-discrete (on_key k) (source_key key adv) fresh t.sources e,
    );
    shared = λ k p. ground (
      arith,
      w.shared key from,
      w.shared k p,
      count_if-put_new SourceKey-discrete (on_share k p) (source_key key adv) fresh t.sources e,
    );
    owned = λ p. ground (
      arith,
      w.owned from,
      w.owned p,
      count_if-put_new SourceKey-discrete (owned_by p) (source_key key adv) fresh t.sources e,
    );
  }

  module _ (entry : SourceEntry) (found : find_source (source_key key adv) t ≡ some entry) where
    abbrev renewed : SourceEntry
    renewed = record (improve entry adv) { owner = from; gc_at = now + source_gc_time }

    -- The owner of an entry is charged for it.
    share_pos : 0 < t.shares key entry.owner
    share_pos = ground (
      arith,
      w.shared key entry.owner,
      count_if-remove SourceKey-discrete (on_share key entry.owner) (source_key key adv) entry
          t.sources found,
    )

    peer_pos : 0 < t.by_peer entry.owner
    peer_pos = ground (
      arith,
      w.owned entry.owner,
      count_if-remove SourceKey-discrete (owned_by entry.owner) (source_key key adv) entry t.sources
          found,
    )

    known-sources :
        (observe_known t key adv from now entry).sources
        ≡ put SourceKey-discrete (source_key key adv) renewed t.sources
    unfolding observe_known store charge release_origin
    known-sources = ground arith

    known-per_key : (observe_known t key adv from now entry).per_key ≡ t.per_key
    unfolding observe_known store charge release_origin
    known-per_key = ground arith

    known-shares :
        (k : RouteKey) (p : PeerId)
        → (observe_known t key adv from now entry).shares k p
            + one_if (on_share k p (source_key key adv, entry))
          ≡ one_if (on_share k p (source_key key adv, renewed)) + t.shares k p
    unfolding observe_known store charge release_origin set_share set_peer
    known-shares k p = ground (arith, share_pos)

    known-by_peer :
        (p : PeerId)
        → (observe_known t key adv from now entry).by_peer p
            + one_if (owned_by p (source_key key adv, entry))
          ≡ one_if (owned_by p (source_key key adv, renewed)) + t.by_peer p
    unfolding observe_known store charge release_origin set_share set_peer
    known-by_peer p = ground (arith, peer_pos)

    known-IsCounted : IsCounted (observe_known t key adv from now entry)
    known-IsCounted = record {
      distinct = rw known-sources (Distinct-put SourceKey-discrete _ renewed t.sources w.distinct);
      keys = λ k.
          rw (known-per_key, known-sources)
            (omega (
              arith,
              w.keys k,
              count_if-put_old SourceKey-discrete (on_key k) (source_key key adv) renewed entry
                  t.sources found,
            ));
      shared = λ k p. rw known-sources (
          omega (
            arith,
            w.shared k p,
            known-shares k p,
            count_if-put_old SourceKey-discrete (on_share k p) (source_key key adv) renewed entry
                t.sources found,
          ));
      owned = λ p. rw known-sources (
          omega (
            arith,
            w.owned p,
            known-by_peer p,
            count_if-put_old SourceKey-discrete (owned_by p) (source_key key adv) renewed entry
                t.sources found,
          ));
    }

-- Recording a distance keeps every counter of the source table exact: the entries of a prefix, of
-- a neighbor, and of a neighbor on a prefix, also when an entry passes to another neighbor.
pub observe-IsCounted :
    (t : SourceTable) (key : RouteKey) (adv : Advertisement) (from : PeerId) (now : ℕ)
    → IsCounted t
    → IsCounted (observe t key adv from now)
observe-IsCounted t key adv from now w = elim (ℕ_discrete adv.metric metric_infinity) [
  | yes e ↦ rw (observe_retraction t key adv from now e) w
  | no finite ↦ elim (Option-cases (find_source (source_key key adv) t)) [
    | inl e ↦ rw (observe_absent t key adv from now finite e) (new-IsCounted t w key adv from now e)
    | inr (entry, e) ↦
        rw (observe_present t key adv from now finite entry e)
          (known-IsCounted t w key adv from now entry e)
  ]
]

pub drop-IsCounted :
    (t : SourceTable) (k : SourceKey) (entry : SourceEntry)
    → IsCounted t
    → find_source k t ≡ some entry
    → IsCounted (drop_source t k entry)
unfolding drop_source release_origin set_count set_share set_peer
drop-IsCounted t k entry w found = record {
  distinct = Distinct-remove SourceKey-discrete k t.sources w.distinct;
  keys = λ j. ground (
    arith,
    w.keys k.route,
    w.keys j,
    count_if-remove SourceKey-discrete (on_key j) k entry t.sources found,
  );
  shared = λ j p. ground (
    arith,
    w.shared k.route entry.owner,
    w.shared j p,
    count_if-remove SourceKey-discrete (on_share j p) k entry t.sources found,
  );
  owned = λ p. ground (
    arith,
    w.owned entry.owner,
    w.owned p,
    count_if-remove SourceKey-discrete (owned_by p) k entry t.sources found,
  );
}
