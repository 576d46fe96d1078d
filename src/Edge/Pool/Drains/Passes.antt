-- ===== src/Edge/Pool/Drains/Passes.antt =====
-- The drains of a pool through `install` (internal/edge/pool.go).
use caramelo.Common.{
  ℕ, suc, ◌+◌, ◌≤◌, ◌≡◌, refl, inl, inr, List, [], ◌∷◌, ◌++◌, some, none, arith, length,
  length-append, sum_map, sum_map-append, Bool-cases, Option-cases, ◌==◌, nat_eq, insert, erase,
  lookup, loop, Bytes, if◌then◌else◌,
}
use caramelo.Edge.{Target, Route, Event, draining, state_eq, target_event}
use caramelo.Edge.Host.{normalize_host}
use caramelo.Edge.Pool.State.{Tracked, RoutePool, snapshot, drained}
use caramelo.Edge.Pool.Install.{
  Pass, by_replica, fresh, kept, if_draining, add_fresh, add_kept, reusable, install_target,
  insert_sorted, sort_tracked, is_idle, report_idle, report_all, idle_events, install_pass, install,
}
use caramelo.Edge.Pool.Invariant.Install.{reusable-eq-some}
use caramelo.Edge.Pool.Drains.{pending, outstanding, drains}

-- What is owed by the targets of a map.
owed : List (ℕ × Tracked) → ℕ
owed = sum_map (λ e. pending e.1)

owed-insert :
    (k : ℕ) (ts : Tracked) (m : List (ℕ × Tracked)) → owed (insert k ts m) ≤ pending ts + owed m
unfolding insert owed
owed-insert k ts [] = omega arith
owed-insert k ts ((j, x) ∷ m) = ground (arith, owed-insert k ts m)

owed-erase : (k : ℕ) (m : List (ℕ × Tracked)) → owed (erase k m) ≤ owed m
unfolding erase owed
owed-erase k [] = omega arith
owed-erase k ((j, x) ∷ m) = ground (arith, owed-erase k m)

erase-lookup :
    (k : ℕ) (m : List (ℕ × Tracked)) (ts : Tracked)
    → lookup k m ≡ some ts
    → owed (erase k m) + pending ts ≤ owed m
unfolding lookup erase owed
erase-lookup k [] ts e = cc
erase-lookup k ((j, x) ∷ m) ts e = elim (Bool-cases (j == k)) [
  | inl hit ↦ rw hit (let same : x ≡ ts = ground arith in rw same (omega (arith, owed-erase k m)))
  | inr miss ↦ rw miss (omega (arith, erase-lookup k m ts (ground arith)))
]

by_replica-owed :
    (old : List (ℕ × Tracked)) (tss : List Tracked)
    → owed (by_replica old tss) ≤ owed old + sum_map pending tss
unfolding by_replica
by_replica-owed old [] = omega arith
by_replica-owed old (ts ∷ tss) =
    omega (arith, owed-insert ts.t.replica ts old, by_replica-owed (insert ts.t.replica ts old) tss)

-- What an install leaves owed: the drains of the targets that it takes over in their state.
unfoldable pub carried : List (ℕ × Tracked) → List Target → ℕ
unfolding reusable pending
carried old [] = 0
carried old (want ∷ wants) = elim (reusable want (lookup want.replica old)) [
  | none ↦ carried old wants
  | some ts ↦
      (if ts.t.state == want.state then pending ts else 0) + carried (erase want.replica old) wants
]

carried-le : (old : List (ℕ × Tracked)) (wants : List Target) → carried old wants ≤ owed old
unfolding carried
carried-le old [] = omega arith
carried-le old (want ∷ wants) = elim (Option-cases (reusable want (lookup want.replica old))) [
  | inl e ↦ rw (e, carried) (carried-le old wants)
  | inr (ts, e) ↦
      rw (e, carried)
        (ground (
          arith,
          erase-lookup want.replica old ts (reusable-eq-some want _ ts e).0,
          carried-le (erase want.replica old) wants,
        ))
]

pending-fresh :
    (now incarnation : ℕ) (want : Target)
    → pending (fresh now incarnation want) ≡ length (if_draining (fresh now incarnation want).t)
unfolding pending fresh if_draining
pending-fresh now incarnation want = ground arith

pending-kept :
    (now : ℕ) (want : Target) (ts : Tracked) (ds : List Target)
    → let new = kept now want ts in
      pending new + length ds
      ≡ (if ts.t.state == want.state then pending ts else 0)
        + length (if ts.t.state == want.state then ds else ds ++ if_draining new.t)
unfolding pending kept if_draining
pending-kept now want ts ds = elim (Bool-cases (ts.t.state == want.state)) [
  | inl same ↦ ground (arith, state_eq.same_iff ts.t.state want.state)
  | inr changed ↦ elim (Bool-cases (want.state == draining)) [
    | inl drain ↦ ground (
      arith,
      length-append ds
          (record (ts.t) { detail = want.detail; state = want.state; since = now } ∷ []),
    )
    | inr other ↦ ground (arith, length-append ds [])
  ]
]

drains-append : (a b : List Event) → drains (a ++ b) ≡ drains a + drains b
unfolding drains
drains-append a b = sum_map-append _ a b

drains-target_event :
    (es : List Event) (host : Bytes) (t : Target) (at : ℕ)
    → drains (es ++ target_event host t at ∷ []) ≡ drains es
unfolding drains
drains-target_event es host t at = omega (arith, drains-append es (target_event host t at ∷ []))

-- Nothing is reported while the targets of a route are gone through.
install_target-drains :
    (host : Bytes) (now : ℕ) (pass : Pass) (want : Target)
    → drains (install_target host now pass want).events ≡ drains pass.events
unfolding install_target add_fresh add_kept
install_target-drains host now pass want =
    elim (Option-cases (reusable want (lookup want.replica pass.old))) [
      | inl e ↦ rw (e, install_target) (drains-target_event pass.events host _ now)
      | inr (ts, e) ↦ elim (Bool-cases (ts.t.state == want.state)) [
        | inl same ↦ rw (e, install_target) (rw same refl)
        | inr changed ↦
            rw (e, install_target) (rw changed (drains-target_event pass.events host _ now))
      ]
    ]

loop-drains :
    (host : Bytes) (now : ℕ) (pass : Pass) (wants : List Target)
    → drains (loop (install_target host now) pass wants).events ≡ drains pass.events
loop-drains host now pass [] = refl
loop-drains host now pass (want ∷ wants) = omega (
  arith,
  loop-drains host now (install_target host now pass want) wants,
  install_target-drains host now pass want,
)

install_target-carried :
    (host : Bytes) (now : ℕ) (pass : Pass) (want : Target) (wants : List Target)
    → let done = install_target host now pass want in
      sum_map pending done.next + length pass.draining + carried done.old wants
      ≡ sum_map pending pass.next + carried pass.old (want ∷ wants) + length done.draining
unfolding install_target add_fresh add_kept carried
install_target-carried host now pass want wants =
    elim (Option-cases (reusable want (lookup want.replica pass.old))) [
      | inl e ↦
          let new = fresh now (suc pass.incarnations) want in
          rw (e, install_target, carried)
            (omega (
              arith,
              pending-fresh now (suc pass.incarnations) want,
              sum_map-append pending pass.next (new ∷ []),
              length-append pass.draining (if_draining new.t),
            ))
      | inr (ts, e) ↦
          rw (e, install_target, carried)
            (omega (
              arith,
              pending-kept now want ts pass.draining,
              sum_map-append pending pass.next (kept now want ts ∷ []),
            ))
    ]

loop-carried :
    (host : Bytes) (now : ℕ) (pass : Pass) (wants : List Target)
    → let done = loop (install_target host now) pass wants in
      sum_map pending done.next + length pass.draining
      ≡ sum_map pending pass.next + carried pass.old wants + length done.draining
unfolding carried
loop-carried host now pass [] = omega arith
loop-carried host now pass (want ∷ wants) = omega (
  arith,
  loop-carried host now (install_target host now pass want) wants,
  install_target-carried host now pass want wants,
)

insert_sorted-pending :
    (ts : Tracked) (xs : List Tracked)
    → sum_map pending (insert_sorted ts xs) ≡ pending ts + sum_map pending xs
unfolding insert_sorted
insert_sorted-pending ts [] = refl
insert_sorted-pending ts (x ∷ xs) = ground (arith, insert_sorted-pending ts xs)

sort_tracked-pending : (xs : List Tracked) → sum_map pending (sort_tracked xs) ≡ sum_map pending xs
unfolding sort_tracked
sort_tracked-pending [] = refl
sort_tracked-pending (x ∷ xs) =
    omega (arith, insert_sorted-pending x (sort_tracked xs), sort_tracked-pending xs)

-- What is reported at the end of an install is owed no longer.
report_all-pending :
    (host : Bytes) (now : ℕ) (tss : List Tracked)
    → drains (idle_events host now tss) + sum_map pending (report_all tss) ≡ sum_map pending tss
unfolding idle_events report_all report_idle is_idle drains pending drained
report_all-pending host now [] = refl
report_all-pending host now (ts ∷ tss) = ground (arith, report_all-pending host now tss)

pub install-outstanding :
    (now incarnations : ℕ) (r : Route) (p : RoutePool)
    → let done = install now incarnations r p in
      drains done.events + outstanding done.pool
      ≡ carried (by_replica [] p.targets) r.targets + length done.draining
unfolding install snapshot install_pass outstanding drains carried
install-outstanding now incarnations r p =
    let host = normalize_host r.host in
    let pass = install_pass now incarnations r p in
    let from : Pass = record {
      old = by_replica [] p.targets;
      incarnations = incarnations;
      next = [];
      events = [];
      draining = [];
    } in
    omega (
      arith,
      loop-drains host now from r.targets,
      loop-carried host now from r.targets,
      drains-append pass.events (idle_events host now (sort_tracked pass.next)),
      sort_tracked-pending pass.next,
      report_all-pending host now (sort_tracked pass.next),
    )

pub carried-outstanding :
    (r : Route) (p : RoutePool) → carried (by_replica [] p.targets) r.targets ≤ outstanding p
unfolding outstanding owed
carried-outstanding r p =
    omega (arith, carried-le (by_replica [] p.targets) r.targets, by_replica-owed [] p.targets)
