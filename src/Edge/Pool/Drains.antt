-- ===== src/Edge/Pool/Drains.antt =====
-- The accounts of a pool (internal/edge/pool.go): drains that are still to be reported, and
-- requests that are still open.
pub mod Passes
pub mod Marks
pub mod Histories
use caramelo.Common.{
  ℕ, ◌+◌, ◌≡◌, refl, inl, inr, false, not, ◌&&◌, List, [], ◌∷◌, some, arith, length, sum_map, All,
  Bool-cases, Option-cases, ◌==◌, nat_eq, if◌then◌else◌, Bytes,
}
use caramelo.Edge.{Event, target_event, drained_event, table_event, draining, state_eq}
use caramelo.Edge.Pool.State.{Tracked, RoutePool, find, set_tracked, drained}
use caramelo.Edge.Pool.Requests.{
  end, release, closed, finishes_drain, write_back, sweep, sweep_targets, sweep_events, overdue,
  cut, inflight,
}

-- 1 for a drain that nobody has been told the end of.
unfoldable pub pending : Tracked → ℕ
pending ts = if ts.t.state == draining && not ts.reported then 1 else 0

unfoldable pub outstanding : RoutePool → ℕ
unfolding pending
outstanding p = sum_map pending p.targets

drain_mark : Event → ℕ
drain_mark (target_event host t at) = 0
drain_mark (drained_event host t deadline at) = 1
drain_mark (table_event routes updated at) = 0

-- How many drained events there are among the events, and how many requests they cut.
unfoldable pub drains : List Event → ℕ
unfolding drain_mark
drains = sum_map drain_mark

cut_mark : Event → ℕ
cut_mark (target_event host t at) = 0
cut_mark (drained_event host t deadline at) = if deadline then t.inflight else 0
cut_mark (table_event routes updated at) = 0

pub cuts : List Event → ℕ
unfolding cut_mark
cuts = sum_map cut_mark

pub sum_map-set_tracked :
    (f : Tracked → ℕ) (replica : ℕ) (new ts : Tracked) (tss : List Tracked)
    → find replica tss ≡ some ts
    → sum_map f (set_tracked replica new tss) + f ts ≡ sum_map f tss + f new
unfolding find set_tracked
sum_map-set_tracked f replica new ts [] e = cc
sum_map-set_tracked f replica new ts (x ∷ tss) e = elim (Bool-cases (x.t.replica == replica)) [
  | inl hit ↦ rw hit (let same : x ≡ ts = ground arith in rw same (omega arith))
  | inr miss ↦ rw miss (omega (arith, sum_map-set_tracked f replica new ts tss (ground arith)))
]

release_accounts :
    (host : Bytes) (id at : ℕ) (ts : Tracked)
    → drains (release host id at ts).1 + pending (release host id at ts).0 ≡ pending ts
unfolding release finishes_drain closed drains pending drained
release_accounts host id at ts = ground (arith, state_eq.same_iff ts.t.state draining)

pub write_back_accounts :
    (p : RoutePool) (replica id at : ℕ) (ts : Tracked)
    → find replica p.targets ≡ some ts
    → let o = write_back p replica (release p.host id at ts) in
      drains o.events + outstanding o.pool ≡ outstanding p
unfolding write_back outstanding
write_back_accounts p replica id at ts e = omega (
  arith,
  sum_map-set_tracked pending replica (release p.host id at ts).0 ts p.targets e,
  release_accounts p.host id at ts,
)

-- When a request ends, the drains still to be reported fall by the drained events of that moment.
pub end-outstanding :
    (now replica id : ℕ) (p : RoutePool)
    → drains (end now replica id p).events + outstanding (end now replica id p).pool ≡ outstanding p
unfolding end
end-outstanding now replica id p = elim (Option-cases (find replica p.targets)) [
  | inl e ↦ rw (e, end) (unfold drains in omega arith)
  | inr (ts, e) ↦ rw (e, end) (write_back_accounts p replica id now ts e)
]

pub sweep_accounts :
    (host : Bytes) (drain now : ℕ) (tss : List Tracked)
    → drains (sweep_events host drain now tss) + sum_map pending (sweep_targets drain now tss)
      ≡ sum_map pending tss
unfolding sweep_events sweep_targets overdue cut drains pending drained
sweep_accounts host drain now [] = refl
sweep_accounts host drain now (ts ∷ tss) = ground (arith, sweep_accounts host drain now tss)

sweep_cuts :
    (host : Bytes) (drain now : ℕ) (tss : List Tracked)
    → cuts (sweep_events host drain now tss)
        + sum_map (λ (ts : Tracked). length ts.conns) (sweep_targets drain now tss)
      ≡ sum_map (λ (ts : Tracked). length ts.conns) tss
unfolding sweep_events sweep_targets cut cuts drained
sweep_cuts host drain now [] = refl
sweep_cuts host drain now (ts ∷ tss) = ground (arith, sweep_cuts host drain now tss)

sweep_none_overdue :
    (drain now : ℕ) (tss : List Tracked)
    → All (λ ts. overdue drain now ts ≡ false) (sweep_targets drain now tss)
unfolding sweep_targets overdue cut
sweep_none_overdue drain now [] = tt
sweep_none_overdue drain now (ts ∷ tss) = (ground arith, sweep_none_overdue drain now tss)

-- A sweep reports each drain that it ends once, closes as many requests as its events say, and
-- leaves no target draining beyond the deadline without a report.
pub sweep-accounts :
    (now : ℕ) (p : RoutePool)
    → let s = sweep now p in
      (drains s.events + outstanding s.pool ≡ outstanding p)
      × (cuts s.events + inflight s.pool ≡ inflight p)
      × All (λ ts. overdue p.drain now ts ≡ false) (s.pool).targets
unfolding sweep outstanding inflight
sweep-accounts now p = (
  sweep_accounts p.host p.drain now p.targets,
  sweep_cuts p.host p.drain now p.targets,
  sweep_none_overdue p.drain now p.targets,
)
