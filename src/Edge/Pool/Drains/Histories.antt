-- ===== src/Edge/Pool/Drains/Histories.antt =====
-- The drains of a pool over any calls (internal/edge/pool.go): which of them were notified, called
-- off and reported. A drain is notified by a call of onDraining, and reported by a drained event.
use caramelo.Common.{
  ℕ, suc, insert, ◌+◌, ◌-◌, ◌≡◌, refl, inl, inr, List, [], ◌∷◌, Option, some, none, arith, length,
  Option-cases, nat_eq,
}
use caramelo.Edge.{Event, state_eq}
use caramelo.Edge.Pool.State.{Tracked, RoutePool, find}
use caramelo.Edge.Pool.Install.{install, by_replica}
use caramelo.Edge.Pool.Requests.{begin, end, mark, sweep}
use caramelo.Edge.Pool.Pick.{pick, picked, pick_loop}
use caramelo.Edge.Pool.Invariant.{after_begin}
use caramelo.Edge.Pool.Invariant.Steps.{
  PoolCall, picks, begins, ends, marks, sweeps, installs, step, run,
}
use caramelo.Edge.Pool.Drains.{pending, outstanding, drains, end-outstanding, sweep-accounts}
use caramelo.Edge.Pool.Drains.Passes.{carried, install-outstanding, carried-outstanding}
use caramelo.Edge.Pool.Drains.Marks.{
  events_of, notices_of, off_by_mark, put-outstanding, drains-[], mark-drains,
}

-- The events of a call, and the drains that it notifies and calls off. An install calls off what it
-- does not carry over.
abbrev events_by : RoutePool → PoolCall → List Event
events_by p (picks skip now) = []
events_by p (begins replica cancel) = []
events_by p (ends now replica id) = (end now replica id p).events
events_by p (marks now m) = events_of (mark now m p)
events_by p (sweeps now) = (sweep now p).events
events_by p (installs now incarnations r) = (install now incarnations r p).events

abbrev notices_by : RoutePool → PoolCall → ℕ
notices_by p (picks skip now) = 0
notices_by p (begins replica cancel) = 0
notices_by p (ends now replica id) = 0
notices_by p (marks now m) = notices_of (mark now m p)
notices_by p (sweeps now) = 0
notices_by p (installs now incarnations r) = length (install now incarnations r p).draining

abbrev called_off_by : RoutePool → PoolCall → ℕ
called_off_by p (picks skip now) = 0
called_off_by p (begins replica cancel) = 0
called_off_by p (ends now replica id) = 0
called_off_by p (marks now m) = off_by_mark m (find m.replica p.targets)
called_off_by p (sweeps now) = 0
called_off_by p (installs now incarnations r) =
    outstanding p - carried (by_replica [] p.targets) r.targets

begin-outstanding :
    (replica : ℕ) (cancel : Option ℕ) (p : RoutePool)
    → outstanding (after_begin p (begin replica cancel p)) ≡ outstanding p
unfolding begin pending
begin-outstanding replica cancel p = elim (Option-cases (find replica p.targets)) [
  | inl e ↦ rw (e, begin) refl
  | inr (ts, e) ↦
      let new = record ts { conns = insert (suc p.seq) cancel ts.conns } in
      rw (e, begin) (omega (arith, put-outstanding p replica (suc p.seq) new ts e))
]

pick-outstanding :
    (skip : List ℕ) (now : ℕ) (p : RoutePool) → outstanding (pick skip now p).0 ≡ outstanding p
unfolding pick picked outstanding
pick-outstanding skip now p = go (pick_loop p skip now (length p.targets) 0)
  where
    go : (r : Option (ℕ × Tracked)) → outstanding (picked p r).0 ≡ outstanding p
    go none = refl
    go (some r) = refl

step-drains :
    (p : RoutePool) (c : PoolCall)
    → drains (events_by p c) + outstanding (step p c) + called_off_by p c
      ≡ outstanding p + notices_by p c
unfolding step
step-drains p (picks skip now) = omega (arith, drains-[], pick-outstanding skip now p)
step-drains p (begins replica cancel) = omega (arith, drains-[], begin-outstanding replica cancel p)
step-drains p (ends now replica id) = omega (arith, end-outstanding now replica id p)
step-drains p (marks now m) = mark-drains now m p
step-drains p (sweeps now) = omega (arith, (sweep-accounts now p).0)
step-drains p (installs now incarnations r) =
    omega (arith, install-outstanding now incarnations r p, carried-outstanding r p)

-- A count over the calls of a history.
abbrev over_calls : (RoutePool → PoolCall → ℕ) → RoutePool → List PoolCall → ℕ
over_calls count p [] = 0
over_calls count p (c ∷ cs) = count p c + over_calls count (step p c) cs

abbrev pub reported : RoutePool → List PoolCall → ℕ
reported = over_calls (λ p c. drains (events_by p c))

abbrev pub notified : RoutePool → List PoolCall → ℕ
notified = over_calls notices_by

abbrev pub called_off : RoutePool → List PoolCall → ℕ
called_off = over_calls called_off_by

-- Whatever is called, and in whatever order: the drains that were outstanding and those that were
-- notified since are together as many as have been reported, have been called off, or are
-- outstanding still.
pub run-reported :
    (p : RoutePool) (cs : List PoolCall)
    → reported p cs + outstanding (run p cs) + called_off p cs ≡ outstanding p + notified p cs
unfolding run
run-reported p [] = omega arith
run-reported p (c ∷ cs) = omega (arith, step-drains p c, run-reported (step p c) cs)
