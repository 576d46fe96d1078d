-- ===== src/Edge/Counts.antt =====
-- internal/edge/counts.go and control.go: what a pool counted of its requests since a mark, and how
-- these counts are read. A counter's rate, a floating-point number, is left out.
pub mod Parts
pub mod Marks
pub mod Grown
pub mod Since
use caramelo.Common.{
  ℕ, suc, ◌+◌, ◌-◌, Bool, true, false, ◌&&◌, List, [], ◌∷◌, ◌++◌, Option, none, some, ◌==◌, nat_eq,
  bytes_eq, Bytes, if◌then◌else◌, ltb, leb, lookup, bytes_ltb, sort_by, find?,
}
use caramelo.Edge.Host.{normalize_host}
use caramelo.Edge.Pool.State.{Counter, Tracked, MarkEntry, CountMark, RoutePool, find, set_tracked}

-- `sub`; subtraction on ℕ stops at 0, as `atLeastZero` makes it do.
unfoldable pub sub : Counter → Counter → Counter
sub c o = record {
  requests = c.requests - o.requests;
  status5xx = c.status5xx - o.status5xx;
  connect_failures = c.connect_failures - o.connect_failures;
}

-- The marks from the front on that are not after the time: the last of them, or the given one.
unfoldable pub last_before : ℕ → CountMark → List CountMark → CountMark
last_before since m [] = m
last_before since m (n ∷ ms) =
    let later = last_before since n ms in if ltb since n.at then m else later

-- `markAt`: the first mark if all are after the time.
unfoldable pub mark_at : ℕ → List CountMark → Option CountMark
unfolding last_before
mark_at since [] = none
mark_at since (m ∷ ms) = some (if ltb since m.at then m else last_before since m ms)

unfoldable pub add_request : ℕ → Bool → Counter → Counter
add_request status connect_failed c = record c {
  requests = suc c.requests;
  connect_failures = if connect_failed then suc c.connect_failures else c.connect_failures;
  status5xx =
      if connect_failed
      then c.status5xx
      else if leb 500 status
      then suc c.status5xx
      else c.status5xx;
}

unfoldable pub count_request : ℕ → ℕ → Bool → RoutePool → RoutePool
unfolding add_request
count_request replica status connect_failed p = elim (find replica p.targets) [
  | none ↦ record p { unrouted = add_request status connect_failed p.unrouted }
  | some ts ↦ record p {
    targets =
        set_tracked replica (record ts { counted = add_request status connect_failed ts.counted })
          p.targets;
  }
]

unfoldable pub count_unrouted : RoutePool → RoutePool
count_unrouted p = record p {
  unrouted = record (p.unrouted) {
    requests = suc p.unrouted.requests;
    status5xx = suc p.unrouted.status5xx;
  };
}

pub record TargetCounts : Type 0 where
  pub replica : ℕ
  pub counted : Counter

-- `total` has the counts of the targets and of what was unrouted.
pub record HostCounts : Type 0 where
  pub host : Bytes
  pub total : Counter
  pub targets : List TargetCounts
  pub unrouted : Counter

unfoldable pub since_entry : ℕ → Option MarkEntry → Counter → Counter
unfolding sub
since_entry incarnation none c = c
since_entry incarnation (some e) c = if e.incarnation == incarnation then sub c e.counted else c

-- What a target counted since the mark, if there is one.
unfoldable pub target_since : Option CountMark → Tracked → Counter
unfolding since_entry
target_since none ts = ts.counted
target_since (some m) ts = since_entry ts.incarnation (lookup ts.t.replica m.per) ts.counted

unfoldable pub own_since : Option CountMark → Counter → Counter
unfolding sub
own_since none c = c
own_since (some m) c = sub c m.unrouted

unfoldable pub plus : Counter → Counter → Counter
plus c o = record {
  requests = c.requests + o.requests;
  status5xx = c.status5xx + o.status5xx;
  connect_failures = c.connect_failures + o.connect_failures;
}

-- The loop of `counts` over the targets.
unfoldable pub add_targets : Option CountMark → HostCounts → List Tracked → HostCounts
unfolding target_since plus
add_targets m h [] = h
add_targets m h (ts ∷ tss) =
    let c = target_since m ts in
    add_targets m
      (record h {
        targets = h.targets ++ record { replica = ts.t.replica; counted = c } ∷ [];
        total = plus h.total c;
      })
      tss

unfoldable pub counts : ℕ → RoutePool → HostCounts
unfolding mark_at own_since add_targets
counts since p =
    let m = mark_at since p.marks in
    let own = own_since m p.unrouted in
    add_targets m (record { host = p.host; total = own; targets = []; unrouted = own }) p.targets

-- The Router's Counts, of its pools.
unfoldable pub all_counts : ℕ → List RoutePool → List HostCounts
unfolding counts
all_counts since [] = []
all_counts since (p ∷ ps) = counts since p ∷ all_counts since ps

unfoldable pub router_counts : ℕ → List RoutePool → List HostCounts
unfolding all_counts
router_counts since ps =
    sort_by (λ (a b : HostCounts). bytes_ltb a.host b.host) (all_counts since ps)

unfoldable pub errors : Counter → ℕ
errors c = c.status5xx + c.connect_failures

unfoldable pub host_counts : Bytes → List HostCounts → Option HostCounts
host_counts host hs = find? (λ (h : HostCounts). normalize_host h.host == normalize_host host) hs

unfoldable pub target_counts : ℕ → List TargetCounts → Option TargetCounts
target_counts replica ts = find? (λ (t : TargetCounts). t.replica == replica) ts

-- `Replicas`: the counts of some replicas, summed.
unfoldable pub of_replicas : HostCounts → Counter → List ℕ → Counter
unfolding target_counts plus
of_replicas h out [] = out
of_replicas h out (i ∷ is) =
    of_replicas h (elim (target_counts i h.targets) [ none ↦ out | some t ↦ plus out t.counted ]) is
