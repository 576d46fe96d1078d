-- ===== src/Edge/Pool.antt =====
-- internal/edge/pool.go and counts.go: the targets of one route, the requests open on each, and
-- how a target that leaves is drained.
pub mod State
pub mod Install
pub mod Requests
pub mod Pick
pub mod Invariant
pub mod Drains
pub mod RoundTrip
