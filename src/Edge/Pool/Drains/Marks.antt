-- ===== src/Edge/Pool/Drains/Marks.antt =====
-- The drains of a pool through `Mark` (internal/edge/pool.go).
use caramelo.Common.{
  ℕ, suc, insert, ◌+◌, ◌≡◌, refl, inl, inr, Bool, true, false, not, ◌&&◌, List, [], Option, some,
  none, arith, Bool-cases, Option-cases, ◌==◌, nat_eq, if◌then◌else◌, Bytes,
}
use caramelo.Edge.{Event, Target, draining, state_eq, valid_state}
use caramelo.Edge.Pool.State.{Tracked, RoutePool, find, set_tracked, drained, live, failure_window}
use caramelo.Edge.Pool.Requests.{
  Mark, MarkKind, start, done, fail, state, other, Result, ok, err, Outcome, mark, mark_kind,
  mark_start, mark_done, mark_fail, mark_state, moved, move_events, any_conn, detail_or,
}
use caramelo.Edge.Pool.Invariant.{after_mark}
use caramelo.Edge.Pool.Drains.{
  pending, outstanding, drains, sum_map-set_tracked, write_back_accounts,
}

abbrev pub events_of : Result Outcome → List Event
events_of (ok o) = o.events
events_of (err e) = []

abbrev one_of : Option Target → ℕ
one_of none = 0
one_of (some t) = 1

abbrev pub notices_of : Result Outcome → ℕ
notices_of (ok o) = one_of o.draining
notices_of (err e) = 0

-- A drain that a mark calls off: its target is given another state.
unfoldable pub off_by_state : Mark → Tracked → ℕ
off_by_state m ts = if valid_state m.state && not (m.state == draining) then pending ts else 0

abbrev off_by_kind : MarkKind → Mark → Tracked → ℕ
off_by_kind state m ts = off_by_state m ts
off_by_kind start m ts = 0
off_by_kind done m ts = 0
off_by_kind fail m ts = 0
off_by_kind (other s) m ts = 0

abbrev pub off_by_mark : Mark → Option Tracked → ℕ
off_by_mark m none = 0
off_by_mark m (some ts) = off_by_kind m.kind m ts

-- A target that is written back changes what its pool owes by what it owes itself.
pub put-outstanding :
    (p : RoutePool) (replica seq : ℕ) (new ts : Tracked)
    → find replica p.targets ≡ some ts
    → outstanding (record p { seq = seq; targets = set_tracked replica new p.targets }) + pending ts
      ≡ outstanding p + pending new
unfolding outstanding
put-outstanding p replica seq new ts e = sum_map-set_tracked pending replica new ts p.targets e

moved-pending :
    (host : Bytes) (at : ℕ) (m : Mark) (ts : Tracked)
    → valid_state m.state ≡ true
    → (ts.t.state == m.state) ≡ false
    → drains (move_events host at m (moved at m ts)) + pending (moved at m ts) + off_by_state m ts
      ≡ pending ts + (if m.state == draining then 1 else 0)
unfolding drains move_events moved pending off_by_state drained
moved-pending host at m ts good new =
    ground (arith, state_eq.same_iff m.state draining, state_eq.same_iff ts.t.state m.state)

pub drains-[] : drains [] ≡ 0
unfolding drains
drains-[] = refl

one_of-if : (b : Bool) (t : Target) → one_of (if b then some t else none) ≡ (if b then 1 else 0)
one_of-if true t = refl
one_of-if false t = refl

off_by_state-invalid :
    (m : Mark) (ts : Tracked) → valid_state m.state ≡ false → off_by_state m ts ≡ 0
unfolding off_by_state
off_by_state-invalid m ts e = ground arith

off_by_state-same :
    (m : Mark) (ts : Tracked) → (ts.t.state == m.state) ≡ true → off_by_state m ts ≡ 0
unfolding off_by_state pending
off_by_state-same m ts e = ground (arith, state_eq.same_iff ts.t.state m.state)

-- The account of one mark: what is reported, owed and called off was owed or is notified.
module _ (p : RoutePool) (m : Mark) (ts : Tracked) (e : find m.replica p.targets ≡ some ts) where
  mark_done-drains :
      (at : ℕ)
      → let o = mark_done at p m.replica ts in
        drains o.events + outstanding o.pool ≡ outstanding p + one_of o.draining
  unfolding mark_done drains
  mark_done-drains at = elim (Option-cases (any_conn false ts.conns)) [
    | inr (id, o) ↦ rw (o, mark_done) (omega (arith, write_back_accounts p m.replica id at ts e))
    | inl o ↦ elim (Option-cases (any_conn true ts.conns)) [
      | inr (id, o') ↦
          rw (o, mark_done)
            (rw (o', mark_done) (omega (arith, write_back_accounts p m.replica id at ts e)))
      | inl o' ↦ rw (o, mark_done) (rw (o', mark_done) (omega arith))
    ]
  ]

  mark_state-drains :
      (at : ℕ)
      → let r = mark_state at m p ts in
        drains (events_of r) + outstanding (after_mark p r) + off_by_state m ts
        ≡ outstanding p + notices_of r
  unfolding mark_state
  mark_state-drains at = elim (Bool-cases (valid_state m.state)) [
    | inr bad ↦ rw (bad, mark_state) (omega (arith, drains-[], off_by_state-invalid m ts bad))
    | inl good ↦ elim (Bool-cases (ts.t.state == m.state)) [
      | inl same ↦
          rw (good, mark_state) (rw same (omega (arith, drains-[], off_by_state-same m ts same)))
      | inr new ↦
          rw (good, mark_state)
            (rw new (
              omega (
                arith,
                put-outstanding p m.replica p.seq (moved at m ts) ts e,
                moved-pending p.host at m ts good new,
                one_of-if (m.state == draining) (live (moved at m ts)),
              )))
    ]
  ]

  mark_kind-drains :
      (k : MarkKind) (at : ℕ)
      → let r = mark_kind k at m p ts in
        drains (events_of r) + outstanding (after_mark p r) + off_by_kind k m ts
        ≡ outstanding p + notices_of r
  unfolding mark_kind mark_start mark_fail drains pending
  mark_kind-drains start at =
      let new = record ts { conns = insert (suc p.seq) none ts.conns } in
      omega (arith, put-outstanding p m.replica (suc p.seq) new ts e)
  mark_kind-drains done at = omega (arith, mark_done-drains at)
  mark_kind-drains fail at =
      let new = record ts {
        failed_until = at + failure_window;
        t = record (ts.t) { detail = detail_or m.detail ts.t.detail };
      } in
      omega (arith, put-outstanding p m.replica p.seq new ts e)
  mark_kind-drains state at = mark_state-drains at
  mark_kind-drains (other s) at = omega arith

pub mark-drains :
    (now : ℕ) (m : Mark) (p : RoutePool)
    → let r = mark now m p in
      drains (events_of r) + outstanding (after_mark p r) + off_by_mark m (find m.replica p.targets)
      ≡ outstanding p + notices_of r
unfolding mark drains
mark-drains now m p = elim (Option-cases (find m.replica p.targets)) [
  | inl e ↦ rw (e, mark) (omega arith)
  | inr (ts, e) ↦ rw (e, mark) (mark_kind-drains p m ts e m.kind (if m.at == 0 then now else m.at))
]
