-- ===== src/Edge/Pool/Install.antt =====
-- `install` of internal/edge/pool.go: a pool takes over the targets of a route. Go's two loops are
-- folds over a record of their variables. The map `old` is keyed by replica and written in order,
-- so that a later target of the same replica hides an earlier one.
use caramelo.Common.{
  ℕ, suc, Bool, true, false, not, ◌&&◌, List, [], ◌∷◌, ◌++◌, Option, none, some, ◌==◌, nat_eq,
  Bytes, if◌then◌else◌, length, ltb, leb, insert, erase, lookup, loop,
}
use caramelo.Edge.{Target, Route, draining, state_eq, Event, target_event}
use caramelo.Edge.Host.{normalize_host}
use caramelo.Edge.Pool.State.{Tracked, RoutePool, no_counts, live, drained, snapshot, default_drain}

unfoldable pub by_replica : List (ℕ × Tracked) → List Tracked → List (ℕ × Tracked)
by_replica old [] = old
by_replica old (ts ∷ tss) = by_replica (insert ts.t.replica ts old) tss

-- The variables of the loop over the route's targets; the counter is the package's `incarnations`.
pub record Pass : Type 0 where
  pub old : List (ℕ × Tracked)
  pub incarnations : ℕ
  pub next : List Tracked
  pub events : List Event
  pub draining : List Target

unfoldable pub fresh : ℕ → ℕ → Target → Tracked
fresh now incarnation want = record {
  t = record want { inflight = 0; since = if want.since == 0 then now else want.since };
  failed_until = 0;
  conns = [];
  reported = false;
  incarnation = incarnation;
  counted = no_counts;
}

unfoldable pub kept : ℕ → Target → Tracked → Tracked
kept now want ts =
    if ts.t.state == want.state
    then record ts { t = record (ts.t) { detail = want.detail } }
    else record ts {
      t = record (ts.t) { detail = want.detail; state = want.state; since = now };
      reported = if want.state == draining then false else ts.reported;
    }

-- `t` as a list of its own if it is draining.
unfoldable pub if_draining : Target → List Target
if_draining t = if t.state == draining then t ∷ [] else []

unfoldable pub add_fresh : Bytes → ℕ → Pass → Tracked → Pass
unfolding if_draining
add_fresh host now pass ts = record pass {
  incarnations = ts.incarnation;
  next = pass.next ++ ts ∷ [];
  events = pass.events ++ target_event host ts.t now ∷ [];
  draining = pass.draining ++ if_draining ts.t;
}

unfoldable pub add_kept : Bytes → ℕ → Pass → Target → Tracked → Pass
unfolding kept if_draining
add_kept host now pass want ts =
    let new = kept now want ts in
    record pass {
      old = erase want.replica pass.old;
      next = pass.next ++ new ∷ [];
      events =
          if ts.t.state == want.state
          then pass.events
          else pass.events ++ target_event host (live new) now ∷ [];
      draining =
          if ts.t.state == want.state then pass.draining else pass.draining ++ if_draining new.t;
    }

-- A target is taken over if it has the replica and the port that the route wants.
unfoldable pub reusable : Target → Option Tracked → Option Tracked
reusable want none = none
reusable want (some ts) = if ts.t.port == want.port then some ts else none

unfoldable pub install_target : Bytes → ℕ → Pass → Target → Pass
unfolding add_fresh add_kept reusable fresh
install_target host now pass want = elim (reusable want (lookup want.replica pass.old)) [
  | none ↦ add_fresh host now pass (fresh now (suc pass.incarnations) want)
  | some ts ↦ add_kept host now pass want ts
]

unfoldable pub insert_sorted : Tracked → List Tracked → List Tracked
insert_sorted ts [] = ts ∷ []
insert_sorted ts (x ∷ xs) =
    if leb ts.t.replica x.t.replica then ts ∷ x ∷ xs else x ∷ insert_sorted ts xs

-- sort.Slice by replica.
unfoldable pub sort_tracked : List Tracked → List Tracked
unfolding insert_sorted
sort_tracked [] = []
sort_tracked (x ∷ xs) = insert_sorted x (sort_tracked xs)

-- The second loop: a target that is to drain and has nothing open has drained already.
unfoldable pub is_idle : Tracked → Bool
is_idle ts = ts.t.state == draining && length ts.conns == 0 && not ts.reported

unfoldable pub report_idle : Tracked → Tracked
unfolding is_idle
report_idle ts = if is_idle ts then record ts { reported = true } else ts

unfoldable pub report_all : List Tracked → List Tracked
unfolding report_idle
report_all [] = []
report_all (ts ∷ tss) = report_idle ts ∷ report_all tss

unfoldable pub idle_events : Bytes → ℕ → List Tracked → List Event
unfolding is_idle
idle_events host now [] = []
idle_events host now (ts ∷ tss) =
    let rest = idle_events host now tss in
    if is_idle ts
    then drained host (live (record ts { reported = true })) false 0 now ∷ rest
    else rest

unfoldable pub settle_drain : ℕ → ℕ → ℕ
settle_drain wanted option =
    if ltb 0 wanted then wanted else if ltb 0 option then option else default_drain

pub record Installed : Type 0 where
  pub pool : RoutePool
  pub incarnations : ℕ
  pub events : List Event
  pub draining : List Target

unfoldable pub install_pass : ℕ → ℕ → Route → RoutePool → Pass
unfolding install_target by_replica
install_pass now incarnations r p =
    loop (install_target (normalize_host r.host) now)
      (record {
        old = by_replica [] p.targets;
        incarnations = incarnations;
        next = [];
        events = [];
        draining = [];
      })
      r.targets

unfoldable pub install : ℕ → ℕ → Route → RoutePool → Installed
unfolding install_pass sort_tracked report_all idle_events settle_drain snapshot
install now incarnations r p =
    let host = normalize_host r.host in
    let pass = install_pass now incarnations r p in
    let sorted = sort_tracked pass.next in
    record {
      pool = snapshot now (record p {
        host = host;
        drain = settle_drain r.drain p.drain_option;
        targets = report_all sorted;
        next = if leb (length sorted) p.next then 0 else p.next;
      });
      incarnations = pass.incarnations;
      events = pass.events ++ idle_events host now sorted;
      draining = pass.draining;
    }

unfoldable pub empty_pool : ℕ → Route → RoutePool
empty_pool drain_option r = record {
  host = normalize_host r.host;
  drain_option = drain_option;
  drain = 0;
  targets = [];
  next = 0;
  seq = 0;
  unrouted = no_counts;
  marks = [];
}

-- NewPool drops the events of its first install.
unfoldable pub new_pool : ℕ → ℕ → ℕ → Route → Installed
unfolding install empty_pool
new_pool now incarnations drain_option r =
    let done = install now incarnations r (empty_pool drain_option r) in record done { events = [] }
