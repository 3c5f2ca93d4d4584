-- ===== src/Babel/Keys.antt =====
-- The keys of the route and source tables, internal/babel/route.go and source.go.
use mathlib.Core.Bool.{Bool}
use mathlib.Core.Option.{Option}
use Prim.Native.Nat.{ℕ}
use native.Mathlib.Decide.{ℕ_discrete}

-- A netip.Prefix that is valid. An invalid one is `none` where the source allows it.
pub record Prefix : Type 0 where
  pub is_4 : Bool
  pub addr : ℕ
  pub plen : ℕ

-- `source` is `none` for an ordinary route.
pub record RouteKey : Type 0 where
  pub source : Option Prefix
  pub dest : Prefix

-- The eight bytes of a router id, as one number.
abbrev pub RouterId : Type 0
RouterId = ℕ

-- The name of a peer. Names are compared, as the strings of the source are.
abbrev pub PeerId : Type 0
PeerId = ℕ

pub record SourceKey : Type 0 where
  pub route : RouteKey
  pub router_id : RouterId

unfoldable pub Prefix-discrete : Discrete Prefix
Prefix-discrete = hlevel ℕ_discrete

unfoldable pub RouteKey-discrete : Discrete RouteKey
RouteKey-discrete = hlevel (ℕ_discrete, Prefix-discrete)

unfoldable pub SourceKey-discrete : Discrete SourceKey
SourceKey-discrete = hlevel (ℕ_discrete, RouteKey-discrete)

pub record Advertisement : Type 0 where
  pub router_id : RouterId
  pub seqno : ℕ
  pub metric : ℕ
