-- ===== src/Edge/Pool/State.antt =====
-- The state of a RoutePool (internal/edge/pool.go) and its count marks (internal/edge/counts.go).
-- A connection's cancel function is an opaque number, and `none` is nil. Each operation takes the
-- clock's reading as an argument; the mutex makes each one atomic.
use caramelo.Common.{
  ℕ, ◌*◌, ◌^◌, Bool, List, [], ◌∷◌, ◌++◌, Option, ◌==◌, nat_eq, Bytes, if◌then◌else◌, length, find?,
  ltb, insert, drop,
}
use caramelo.Edge.{Target, Event, drained_event}

-- Nanoseconds.
abbrev pub default_drain : ℕ
default_drain = 30 * 10 ^ 9

abbrev pub failure_window : ℕ
failure_window = 5 * 10 ^ 9

abbrev pub max_count_marks : ℕ
max_count_marks = 64

pub record Counter : Type 0 where
  pub requests : ℕ
  pub status5xx : ℕ
  pub connect_failures : ℕ

abbrev pub no_counts : Counter
no_counts = record { requests = 0; status5xx = 0; connect_failures = 0 }

abbrev pub Conns : Type 0
Conns = List (ℕ × Option ℕ)

pub record Tracked : Type 0 where
  pub t : Target
  pub failed_until : ℕ
  pub conns : Conns
  pub reported : Bool
  pub incarnation : ℕ
  pub counted : Counter

pub record MarkEntry : Type 0 where
  pub incarnation : ℕ
  pub counted : Counter

pub record CountMark : Type 0 where
  pub at : ℕ
  pub unrouted : Counter
  pub per : List (ℕ × MarkEntry)

-- `drain_option` is the pool's own option, `drain` what the last install settled on.
pub record RoutePool : Type 0 where
  pub host : Bytes
  pub drain_option : ℕ
  pub drain : ℕ
  pub targets : List Tracked
  pub next : ℕ
  pub seq : ℕ
  pub unrouted : Counter
  pub marks : List CountMark

unfoldable pub live : Tracked → Target
live ts = record (ts.t) { inflight = length ts.conns }

-- `find` gives a pointer, through which its caller writes: `set_tracked` is that write.
unfoldable pub find : ℕ → List Tracked → Option Tracked
find replica tss = find? (λ ts. ts.t.replica == replica) tss

unfoldable pub set_tracked : ℕ → Tracked → List Tracked → List Tracked
set_tracked replica new [] = []
set_tracked replica new (ts ∷ tss) =
    if ts.t.replica == replica then new ∷ tss else ts ∷ set_tracked replica new tss

-- drainedEvent.
unfoldable pub drained : Bytes → Target → Bool → ℕ → ℕ → Event
drained host t deadline cut at =
    drained_event host (if deadline then record t { inflight = cut } else t) deadline at

unfoldable pub per_replica : List Tracked → List (ℕ × MarkEntry) → List (ℕ × MarkEntry)
per_replica [] m = m
per_replica (ts ∷ tss) m =
    per_replica tss
      (insert ts.t.replica (record { incarnation = ts.incarnation; counted = ts.counted }) m)

unfoldable pub mark_of : ℕ → RoutePool → CountMark
unfolding per_replica
mark_of now p = record { at = now; unrouted = p.unrouted; per = per_replica p.targets [] }

unfoldable pub trim_marks : List CountMark → List CountMark
trim_marks ms = if ltb max_count_marks (length ms) then drop 1 ms else ms

unfoldable pub snapshot : ℕ → RoutePool → RoutePool
unfolding trim_marks
snapshot now p = record p { marks = trim_marks (p.marks ++ mark_of now p ∷ []) }
