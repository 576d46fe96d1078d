-- ===== src/Env/Deploy/Switch.antt =====
-- `flip`, `failFlip`, `unrecordFlip`, `hold` and `fail` of internal/env/deploy_run.go: a deploy switches
-- its pools. The replicas that a service without a route has after it was made again are given, and
-- so is the time of the switch. What a service's plan is found to be is one call.
use caramelo.Common.{
  ℕ, Bool, true, false, not, ◌&&◌, List, [], ◌∷◌, ◌++◌, map, any, length, ◌==◌, nat_eq, bytes_eq,
  Bytes, if◌then◌else◌,
}
use caramelo.Env.Layout.{PortLayout, replica_port, at, no_port}
use caramelo.Env.Rollout.{Replica, draining, held, service_running, service_missing, health_unset}
use caramelo.Env.Rollout.Flip.{activate}
use caramelo.Env.Deploy.{
  watching, deploy_failed, Reason, switch_failed, DeployPool, wait_drain, plan_service,
  recreate_service, await_service, put_service, update_deploy, Plant, DeployRun, try, tell,
  and_then,
}
use caramelo.Env.Deploy.Ending.{
  record_flip, push_routes, push_pools, remove_fresh, finish, restore_previous, rollback,
}

-- What `oldOf` and `replicasOf` make of a held replica.
unfoldable pub drained_of : PortLayout → Bytes → Replica → Replica
drained_of ports service rep = record {
  index = rep.index;
  container = rep.container;
  port = elim (replica_port ports service rep.index) [ no_port e ↦ 0 | at port ↦ port ];
  state = draining;
  status = if rep.container == [] then service_missing else service_running;
  health = health_unset;
}

-- The pool as `flipTargets` leaves it.
unfoldable pub switch_pool : PortLayout → DeployPool → DeployPool
unfolding drained_of activate
switch_pool ports p = record p {
  fresh = activate p.fresh;
  held = map (drained_of ports p.service) p.held;
}

unfoldable pub reactivate : DeployPool → DeployPool
unfolding activate
reactivate p = if p.exposed then record p { held = activate p.held } else p

unfoldable pub hold_pool : DeployPool → DeployPool
hold_pool p =
    if p.exposed
    then record p { held = map (λ (rep : Replica). record rep { state = held }) p.held }
    else p

-- What a loop over the pools comes to, with the pools as it leaves them.
abbrev pub Looped : Type 0
Looped = Bool × List DeployPool × DeployRun

unfoldable pub keep : DeployPool → Looped → Looped
keep p (b, ps, r) = (b, p ∷ ps, r)

module _ (plant : Plant) (ports : PortLayout) (made : Bytes → List Replica) (now : ℕ) where
  unfoldable pub fail : Reason → DeployRun → DeployRun
  unfolding rollback restore_previous remove_fresh finish
  fail why r =
      if r.pushed
      then rollback plant why r
      else finish plant
          (remove_fresh plant (restore_previous plant (record r { status = deploy_failed })))

  unfoldable pub replace_service : Bytes → DeployRun → Bool × DeployRun
  unfolding try and_then
  replace_service service r = and_then (try plant (plan_service service) r) (λ s.
      and_then (try plant (recreate_service service) (record s { replaced = true }))
        (try plant (await_service service)))

  -- The first loop of `flip`, over the pools without a route.
  unfoldable pub after_service :
      DeployPool → List DeployPool → (DeployRun → Looped) → Bool × DeployRun → Looped
  unfolding keep tell
  after_service p ps rest (false, r) = (false, p ∷ ps, r)
  after_service p ps rest (true, r) =
      keep (record p { fresh = made p.service }) (rest (tell plant (put_service p.service) r))

  unfoldable pub replace_pools : List DeployPool → DeployRun → Looped
  unfolding after_service replace_service keep
  replace_pools [] r = (true, [], r)
  replace_pools (p ∷ ps) r = elim p.exposed [
    | true ↦ keep p (replace_pools ps r)
    | false ↦ after_service p ps (replace_pools ps) (replace_service p.service r)
  ]

  unfoldable pub begin_at : DeployRun → DeployRun
  begin_at r = record r { flipped_at = if r.flipped_at == 0 then now else r.flipped_at }

  -- The second loop, over the pools with one.
  unfoldable pub after_record :
      DeployPool → List DeployPool → (DeployRun → Looped) → Bool × DeployRun → Looped
  unfolding keep
  after_record p ps rest (false, r) = (false, p ∷ ps, r)
  after_record p ps rest (true, r) = keep p (rest r)

  unfoldable pub after_plan :
      DeployPool → List DeployPool → (DeployRun → Looped) → Bool × DeployRun → Looped
  unfolding after_record record_flip switch_pool begin_at
  after_plan p ps rest (false, r) = (false, p ∷ ps, r)
  after_plan p ps rest (true, r) =
      let q = switch_pool ports p in
      after_record q ps rest (record_flip plant q (q.fresh ++ q.held) (begin_at r))

  unfoldable pub record_pools : List DeployPool → DeployRun → Looped
  unfolding after_plan keep try
  record_pools [] r = (true, [], r)
  record_pools (p ∷ ps) r = elim p.exposed [
    | false ↦ keep p (record_pools ps r)
    | true ↦ after_plan p ps (record_pools ps) (try plant (plan_service p.service) r)
  ]

  unfoldable pub put_routes_back : List DeployPool → DeployRun → DeployRun
  unfolding record_flip
  put_routes_back [] r = r
  put_routes_back (p ∷ ps) r =
      put_routes_back ps (if p.exposed then (record_flip plant p p.held r).1 else r)

  unfoldable pub unrecord_flip : DeployRun → DeployRun
  unfolding put_routes_back reactivate push_routes
  unrecord_flip r =
      let back = record r { pools = map reactivate r.pools } in
      (push_routes plant (put_routes_back back.pools back)).1

  unfoldable pub fail_flip : DeployRun → DeployRun
  unfolding unrecord_flip fail
  fail_flip r = fail switch_failed (unrecord_flip r)

  -- The services of the pools with a route are recorded.
  unfoldable pub put_services : List DeployPool → DeployRun → DeployRun
  unfolding try tell
  put_services [] r = r
  put_services (p ∷ ps) r =
      let x = try plant (plan_service p.service) r in
      put_services ps
        (if p.exposed then (if x.0 then tell plant (put_service p.service) x.1 else x.1) else r)

  unfoldable pub wait_each : Bytes → List Replica → DeployRun → DeployRun
  unfolding tell
  wait_each host [] r = r
  wait_each host (rep ∷ reps) r =
      wait_each host reps (if r.has_edge then tell plant (wait_drain host rep.index) r else r)

  unfoldable pub wait_held : List DeployPool → DeployRun → DeployRun
  unfolding wait_each
  wait_held [] r = r
  wait_held (p ∷ ps) r = wait_held ps (if p.exposed then wait_each p.host p.held r else r)

  unfoldable pub holds_some : DeployPool → Bool
  holds_some p = p.exposed && not (length p.held == 0)

  unfoldable pub hold : DeployRun → DeployRun
  unfolding wait_held hold_pool holds_some push_pools
  hold r =
      let waited = wait_held r.pools r in
      let let_be = record waited { pools = map hold_pool waited.pools } in
      if any holds_some r.pools then (push_pools plant let_be).1 else let_be

  unfoldable pub after_push : Bool × DeployRun → Bool × DeployRun
  unfolding fail_flip hold put_services
  after_push (false, r) = (false, fail_flip r)
  after_push (true, r) = (true, hold (put_services r.pools (record r { pushed = true })))

  unfoldable pub after_records : Looped → Bool × DeployRun
  unfolding fail_flip after_push begin_at push_routes
  after_records (false, ps, r) = (false, fail_flip (record r { pools = ps }))
  after_records (true, ps, r) = after_push (push_routes plant (begin_at (record r { pools = ps })))

  unfoldable pub after_update : Bool × DeployRun → Bool × DeployRun
  unfolding fail after_records record_pools
  after_update (false, r) = (false, fail switch_failed r)
  after_update (true, r) = after_records (record_pools r.pools r)

  unfoldable pub after_replace : Looped → Bool × DeployRun
  unfolding fail after_update try
  after_replace (false, ps, r) = (false, fail switch_failed (record r { pools = ps }))
  after_replace (true, ps, r) =
      after_update (try plant (update_deploy watching) (record r { pools = ps; status = watching }))

  -- Whether the pools have been switched, and the run.
  unfoldable pub flip : DeployRun → Bool × DeployRun
  unfolding after_replace replace_pools
  flip r = after_replace (replace_pools r.pools r)
