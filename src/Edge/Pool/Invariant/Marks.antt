-- ===== src/Edge/Pool/Invariant/Marks.antt =====
-- What the edge tells of a target keeps the invariant (`Mark` of internal/edge/pool.go).
use caramelo.Common.{
  ℕ, suc, inl, inr, true, false, none, arith, Bool-cases, Option-cases, ◌==◌, nat_eq, if◌then◌else◌,
}
use caramelo.Edge.{draining, state_eq, valid_state}
use caramelo.Edge.Pool.State.{Tracked, RoutePool, find}
use caramelo.Edge.Pool.Requests.{
  Mark, MarkKind, start, done, fail, state, other, mark, mark_kind, mark_start, mark_done,
  mark_fail, mark_state, moved, release, write_back, any_conn,
}
use caramelo.Edge.Pool.Invariant.{
  IsSettled, PoolInv, All-find, release-IsSettled, write_back-PoolInv, put-PoolInv,
  opened-IsSettled, each-suc, after_mark,
}

module _ (p : RoutePool) (ts : Tracked) (v : PoolInv p) (h : IsSettled p.seq ts) where
  released : (id at replica : ℕ) → PoolInv (write_back p replica (release p.host id at ts)).pool
  released id at replica =
      write_back-PoolInv p replica (release p.host id at ts) v
        (release-IsSettled p.host id at p.seq ts h)

  mark_done-PoolInv : (at replica : ℕ) → PoolInv (mark_done at p replica ts).pool
  unfolding mark_done
  mark_done-PoolInv at replica = elim (Option-cases (any_conn false ts.conns)) [
    | inr (id, e) ↦ rw (e, mark_done) (released id at replica)
    | inl e ↦ elim (Option-cases (any_conn true ts.conns)) [
      | inr (id, e') ↦ rw (e, mark_done) (rw (e', mark_done) (released id at replica))
      | inl e' ↦ rw (e, mark_done) (rw (e', mark_done) v)
    ]
  ]

  moved-IsSettled : (at : ℕ) (m : Mark) → IsSettled p.seq (moved at m ts)
  unfolding moved
  moved-IsSettled at m = record {
    settled = λ e z. ground (arith, state_eq.same_iff m.state draining);
    numbered = h.numbered;
  }

  mark_state-PoolInv : (at : ℕ) (m : Mark) → PoolInv (after_mark p (mark_state at m p ts))
  unfolding mark_state
  mark_state-PoolInv at m = elim (Bool-cases (valid_state m.state)) [
    | inr bad ↦ rw (bad, mark_state) v
    | inl good ↦ elim (Bool-cases (ts.t.state == m.state)) [
      | inl same ↦ rw (good, mark_state) (rw same v)
      | inr new ↦
          rw (good, mark_state)
            (rw new (
              put-PoolInv p m.replica p.seq (moved at m ts) v (omega arith) (moved-IsSettled at m)
                v.each))
    ]
  ]

  mark_kind-PoolInv :
      (k : MarkKind) (at : ℕ) (m : Mark) → PoolInv (after_mark p (mark_kind k at m p ts))
  unfolding mark_kind mark_start mark_fail
  mark_kind-PoolInv start at m =
      put-PoolInv p m.replica (suc p.seq) _ v (omega arith) (opened-IsSettled p.seq none ts h)
        (each-suc p v)
  mark_kind-PoolInv done at m = mark_done-PoolInv at m.replica
  mark_kind-PoolInv fail at m =
      put-PoolInv p m.replica p.seq _ v (omega arith)
        (record { settled = h.settled; numbered = h.numbered }) v.each
  mark_kind-PoolInv state at m = mark_state-PoolInv at m
  mark_kind-PoolInv (other s) at m = v

pub mark-PoolInv :
    (now : ℕ) (m : Mark) (p : RoutePool) → PoolInv p → PoolInv (after_mark p (mark now m p))
unfolding mark
mark-PoolInv now m p v = elim (Option-cases (find m.replica p.targets)) [
  | inl e ↦ rw (e, mark) v
  | inr (ts, e) ↦
      rw (e, mark)
        (mark_kind-PoolInv p ts v (All-find (IsSettled p.seq) m.replica p.targets ts v.each e)
          m.kind (if m.at == 0 then now else m.at) m)
]
