-- ===== src/Babel/Source/Feasibility.antt =====
-- The feasibility condition of internal/babel/source.go: what `observe` records bounds what
-- `feasible` accepts.
use mathlib.Core.Logic.{◌≢◌, ◌⊎◌}
use ranet_lite.Prelude.{ℕ, ◌+◌, ◌≡◌, refl, ◌∙◌, ◌||◌, Bool, arith, true, false}
use ranet_lite.Prelude.{Option, none, some}
use ranet_lite.Prelude.Assoc.{put, get-put_self, get-put_ne}
use ranet_lite.Prelude.Bytes.{u16, IsU16}
use ranet_lite.Babel.Metric.{seqno_gt, metric_infinity}
use ranet_lite.Babel.Keys.{RouteKey, SourceKey, PeerId, Advertisement, SourceKey-discrete}
use ranet_lite.Babel.Source.{SourceEntry, SourceTable, find_source, source_key, better, feasible}
use ranet_lite.Babel.Source.{observe, observe_new, observe_known, improve, store, charge}
use ranet_lite.Babel.Source.{release_origin, request_seqno, has_room, source_gc_time}

better_self : (e : SourceEntry) → better e e.seqno e.metric ≡ false
unfolding better seqno_gt
better_self e = ground arith

charge-sources :
    (t : SourceTable) (key : RouteKey) (p : PeerId) → (charge t key p).sources ≡ t.sources
unfolding charge
charge-sources t key p = refl

module _ (t : SourceTable) (key : RouteKey) (adv : Advertisement) (from : PeerId) (now : ℕ) where
  -- The entry that an observed advertisement leaves behind.
  abbrev pub after : Option SourceEntry → SourceEntry
  after none = record {
    seqno = adv.seqno;
    metric = adv.metric;
    gc_at = now + source_gc_time;
    owner = from;
  }
  after (some e) = record (improve e adv) { owner = from; gc_at = now + source_gc_time }

  module _ (finite : adv.metric ≢ metric_infinity) where
    pub observe_absent :
        find_source (source_key key adv) t ≡ none
        → observe t key adv from now ≡ observe_new t key adv from now
    unfolding observe
    observe_absent e = ground arith

    pub observe_present :
        (entry : SourceEntry)
        → find_source (source_key key adv) t ≡ some entry
        → observe t key adv from now ≡ observe_known t key adv from now entry
    unfolding observe
    observe_present entry e = ground arith

    known-sources :
        (entry : SourceEntry)
        → (observe_known t key adv from now entry).sources
          ≡ put SourceKey-discrete (source_key key adv) (after (some entry)) t.sources
    unfolding observe_known store charge release_origin
    known-sources entry = ground arith

    observe-sources :
        (o : Option SourceEntry)
        → find_source (source_key key adv) t ≡ o
        → (observe t key adv from now).sources
          ≡ put SourceKey-discrete (source_key key adv) (after o) t.sources
    observe-sources none e = rw (observe_absent e) (unfold observe_new store charge in refl)
    observe-sources (some entry) e = rw (observe_present entry e) (known-sources entry)

    -- What is in the table after `observe`: its entry, and every other source as it was.
    pub find-observe_self :
        (o : Option SourceEntry)
        → find_source (source_key key adv) t ≡ o
        → find_source (source_key key adv) (observe t key adv from now) ≡ some (after o)
    find-observe_self o e =
        rw (observe-sources o e) (get-put_self SourceKey-discrete (source_key key adv) _ t.sources)

    pub find-observe_ne :
        (k : SourceKey)
        → source_key key adv ≢ k
        → find_source k (observe t key adv from now) ≡ find_source k t
    find-observe_ne k ne =
        rw (observe-sources (find_source (source_key key adv) t) refl)
          (get-put_ne SourceKey-discrete (source_key key adv) k _ t.sources ne)

better-improve :
    (e : SourceEntry) (adv : Advertisement) → better (improve e adv) adv.seqno adv.metric ≡ false
unfolding improve
better-improve e adv = ground (
  arith,
  better_self (let f : SourceEntry = record e { seqno = adv.seqno; metric = adv.metric } in f),
)

better-after :
    (t : SourceTable) (key : RouteKey) (adv : Advertisement) (from : PeerId) (now : ℕ)
    (o : Option SourceEntry)
    → better (after t key adv from now o) adv.seqno adv.metric ≡ false
unfolding better
better-after t key adv from now none = unfold seqno_gt in (ground arith)
better-after t key adv from now (some e) = better-improve e adv

pub feasible_known :
    (t : SourceTable) (key : RouteKey) (adv : Advertisement) (p : PeerId) (e : SourceEntry)
    → adv.metric ≢ metric_infinity
    → find_source (source_key key adv) t ≡ some e
    → feasible t key adv p ≡ better e adv.seqno adv.metric
unfolding feasible
feasible_known t key adv p e finite found = ground arith

-- The distance that `observe` leaves for a source is the one that was recorded, or one that is
-- strictly better; and it is at least as good as what was advertised.
pub observe_distance :
    (t : SourceTable) (key : RouteKey) (adv : Advertisement) (from : PeerId) (now : ℕ)
    (e : SourceEntry)
    → adv.metric ≢ metric_infinity
    → find_source (source_key key adv) t ≡ some e
    → (e' : SourceEntry) × (find_source (source_key key adv) (observe t key adv from now) ≡ some e')
      × (((e'.seqno ≡ e.seqno) × (e'.metric ≡ e.metric)) ⊎ (better e e'.seqno e'.metric ≡ true))
      × (better e' adv.seqno adv.metric ≡ false)
unfolding improve
observe_distance t key adv from now e finite found = (
  after t key adv from now (some e),
  find-observe_self t key adv from now finite (some e) found,
  ground arith,
  better-after t key adv from now (some e),
)

-- Once this node has advertised a finite distance for a source, an update with that distance is
-- unfeasible, whichever neighbor sends it.
pub feasible-observe :
    (t : SourceTable) (key : RouteKey) (adv : Advertisement) (from to : PeerId) (now : ℕ)
    → adv.metric ≢ metric_infinity
    → feasible (observe t key adv from now) key adv to ≡ false
feasible-observe t key adv from to now finite =
    let o : Option SourceEntry = find_source (source_key key adv) t in
    feasible_known (observe t key adv from now) key adv to (after t key adv from now o) finite
      (find-observe_self t key adv from now finite o refl)
    ∙ better-after t key adv from now o

better_next :
    (e : SourceEntry) (metric : ℕ) → IsU16 e.seqno → better e (u16 (e.seqno + 1)) metric ≡ true
unfolding better seqno_gt
better_next e metric fits = ground arith

abbrev pub is_recorded : Option SourceEntry → Bool
is_recorded none = false
is_recorded (some e) = true

-- The table once the source of an advertisement is recorded: as it is if it has the source, and
-- else as `observe` of the advertisement leaves it.
abbrev pub once_recorded : Option SourceEntry → SourceTable → SourceTable → SourceTable
once_recorded none t observed = observed
once_recorded (some e) t observed = t

abbrev pub FitsOption : Option SourceEntry → Type 0
FitsOption none = Unit
FitsOption (some e) = IsU16 e.seqno

module _ (t : SourceTable) (key : RouteKey) (adv fresh : Advertisement) (p q : PeerId) (now : ℕ)
    (finite : adv.metric ≢ metric_infinity) (reachable : fresh.metric ≢ metric_infinity)
    (fits : IsU16 adv.seqno) (same : fresh.router_id ≡ adv.router_id)
    (asked : fresh.seqno ≡ request_seqno t key adv) where
  index : source_key key fresh ≡ source_key key adv
  index = ground arith

  -- A table that has the source at an entry that the number asked for comes next to.
  feasible_after :
      (u : SourceTable) (e : SourceEntry)
      → find_source (source_key key adv) u ≡ some e
      → IsU16 e.seqno
      → fresh.seqno ≡ u16 (e.seqno + 1)
      → feasible u key fresh p ≡ true
  unfolding feasible
  feasible_after u e found small next =
      let there : find_source (source_key key fresh) u ≡ some e = rw index found in
      ground (arith, better_next e fresh.metric)

  feasible_unknown :
      find_source (source_key key adv) t ≡ none → feasible t key fresh p ≡ has_room t key p
  unfolding feasible
  feasible_unknown absent =
      let nothing : find_source (source_key key fresh) t ≡ none = rw index absent in
      ground (arith, reachable)

  asked_known :
      (e : SourceEntry)
      → find_source (source_key key adv) t ≡ some e
      → fresh.seqno ≡ u16 (e.seqno + 1)
  unfolding request_seqno
  asked_known e found = ground (arith, asked)

  asked_unknown : find_source (source_key key adv) t ≡ none → fresh.seqno ≡ u16 (adv.seqno + 1)
  unfolding request_seqno
  asked_unknown absent = ground (arith, asked)

  by_source :
      (o : Option SourceEntry)
      → find_source (source_key key adv) t ≡ o
      → FitsOption o
      → (feasible t key fresh p ≡ (is_recorded o || has_room t key p))
        × (feasible (once_recorded o t (observe t key adv q now)) key fresh p ≡ true)
  by_source (some e) found small =
      let yes = feasible_after t e found small (asked_known e found) in (yes, yes)
  by_source none absent small = (
    feasible_unknown absent,
    feasible_after (observe t key adv q now) (after t key adv q now none)
        (find-observe_self t key adv q now finite none absent) fits (asked_unknown absent),
  )

  -- A reachable update at any finite metric, with the sequence number that requestSeqno returns
  -- for a finite advertisement of its source, 16-bit numbers given: it is feasible if the source is
  -- recorded, and if it is not, exactly when the table has room for one more source of its
  -- neighbor. And once the source is recorded, if need be by `observe` of that advertisement, for
  -- any neighbor it is feasible.
  pub feasible-request_seqno :
      FitsOption (find_source (source_key key adv) t)
      → (feasible t key fresh p
          ≡ (is_recorded (find_source (source_key key adv) t) || has_room t key p))
        × (feasible
              (once_recorded (find_source (source_key key adv) t) t (observe t key adv q now))
              key
              fresh
              p
            ≡ true)
  feasible-request_seqno small = by_source (find_source (source_key key adv) t) refl small
