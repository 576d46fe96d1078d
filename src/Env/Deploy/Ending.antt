-- ===== src/Env/Deploy/Ending.antt =====
-- `pushPools`, `promote`, `rollback`, `restorePrevious`, `removeFresh` and `finish` of
-- internal/env/deploy_run.go and deploy_watch.go.
use caramelo.Common.{
  ℕ, suc, Bool, true, false, not, ◌&&◌, ◌||◌, List, [], ◌∷◌, ◌++◌, map, none, some, ◌==◌, nat_eq,
  bytes_eq, Bytes, if◌then◌else◌, ltb,
}
use caramelo.Env.Rollout.{Replica, TargetRow, draining}
use caramelo.Env.Rollout.Flip.{target_rows, activate}
use caramelo.Env.Deploy.{
  promoted, rolled_back, deploy_failed, Reason, DeployPool, set_targets, push_table, read_previous,
  save_env, clear_deploy, prune, wait_drain, stop_container, remove_container, plan_service,
  recreate_service, put_service, set_release, update_deploy, Plant, DeployRun, try, tell, and_then,
}

unfoldable pub drain_each : List Replica → List Replica
drain_each [] = []
drain_each (rep ∷ reps) = record rep { state = draining } ∷ drain_each reps

-- The held replicas of an exposed pool are active again, and the fresh ones leave.
unfoldable pub turn_back : DeployPool → DeployPool
unfolding drain_each activate
turn_back p =
    if p.exposed then record p { held = activate p.held; fresh = drain_each p.fresh } else p

unfoldable pub drop_fresh : DeployPool → DeployPool
drop_fresh p = if p.exposed then record p { fresh = [] } else p

unfoldable pub swap : DeployPool → DeployPool
swap p = record p { fresh = p.held; held = [] }

unfoldable pub drop_held : DeployPool → DeployPool
drop_held p = record p { held = [] }

module _ (plant : Plant) where
  unfoldable pub set_each : List ℕ → List TargetRow → DeployRun → Bool × DeployRun
  set_each [] rows r = (true, r)
  set_each (id ∷ ids) rows r = and_then (try plant (set_targets id rows) r) (set_each ids rows)

  -- A route with the id 0 is none.
  unfoldable pub record_flip : DeployPool → List Replica → DeployRun → Bool × DeployRun
  unfolding set_each target_rows
  record_flip p table r =
      if not r.has_edge || p.route == 0
      then (true, r)
      else set_each (p.route ∷ p.more) (target_rows table) r

  unfoldable pub push_routes : DeployRun → Bool × DeployRun
  unfolding try
  push_routes r = if r.has_edge then try plant push_table r else (true, r)

  unfoldable pub push_each : List DeployPool → DeployRun → Bool × DeployRun
  unfolding record_flip push_routes
  push_each [] r = push_routes r
  push_each (p ∷ ps) r =
      and_then (if p.exposed then record_flip p (p.fresh ++ p.held) r else (true, r)) (push_each ps)

  unfoldable pub push_pools : DeployRun → Bool × DeployRun
  unfolding push_each
  push_pools r = push_each r.pools r

  unfoldable pub stop_replica : Bytes → DeployRun → Bool × DeployRun
  unfolding try
  stop_replica container r =
      and_then (try plant (stop_container container) r) (try plant (remove_container container))

  -- `waitDrain` for each fresh replica of an exposed pool.
  unfoldable pub drain_replicas : Bytes → List Replica → DeployRun → DeployRun
  unfolding tell
  drain_replicas host [] r = r
  drain_replicas host (rep ∷ reps) r = drain_replicas host reps (
      if rep.container == [] || not r.has_edge then r else tell plant (wait_drain host rep.index) r)

  unfoldable pub drain_fresh : List DeployPool → DeployRun → DeployRun
  unfolding drain_replicas
  drain_fresh [] r = r
  drain_fresh (p ∷ ps) r = drain_fresh ps (if p.exposed then drain_replicas p.host p.fresh r else r)

  -- The number of those that were stopped, and the run.
  unfoldable pub stop_replicas : List Replica → ℕ → DeployRun → ℕ × DeployRun
  unfolding stop_replica
  stop_replicas [] n r = (n, r)
  stop_replicas (rep ∷ reps) n r =
      let x = if rep.container == [] then (false, r) else stop_replica rep.container r in
      stop_replicas reps (if x.0 then suc n else n) x.1

  unfoldable pub stop_fresh : List DeployPool → DeployRun → DeployRun
  unfolding stop_replicas
  stop_fresh [] r = r
  stop_fresh (p ∷ ps) r = stop_fresh ps (if p.exposed then (stop_replicas p.fresh 0 r).1 else r)

  unfoldable pub remove_fresh : DeployRun → DeployRun
  unfolding stop_fresh drop_fresh
  remove_fresh r = let s = stop_fresh r.pools r in record s { pools = map drop_fresh s.pools }

  unfoldable pub finish : DeployRun → DeployRun
  unfolding tell
  finish r =
      let s = tell plant clear_deploy (tell plant (update_deploy r.status) r) in
      record s { registered = false }

  -- What `restorePrevious` does with one pool.
  unfoldable pub put_back : DeployPool → DeployRun → DeployRun
  unfolding tell
  put_back p r =
      if p.exposed
      then (if r.pushed then tell plant (put_service p.service) r else r)
      else if not r.replaced
      then r
      else (and_then (try plant (recreate_service p.service) r)
          (try plant (put_service p.service))).1

  unfoldable pub put_all_back : List DeployPool → DeployRun → DeployRun
  unfolding put_back
  put_all_back [] r = r
  put_all_back (p ∷ ps) r =
      let x = try plant (plan_service p.service) r in
      put_all_back ps (if x.0 then put_back p x.1 else x.1)

  unfoldable pub restore_plan : Bool × DeployRun → DeployRun
  unfolding put_all_back tell
  restore_plan (false, r) = r
  restore_plan (true, r) = put_all_back r.pools (tell plant save_env r)

  unfoldable pub restore_previous : DeployRun → DeployRun
  unfolding restore_plan
  restore_previous r =
      if not r.from_release || (not r.replaced && not r.pushed)
      then r
      else restore_plan (try plant read_previous r)

  unfoldable pub rollback_failed : Reason → DeployRun → DeployRun
  unfolding finish
  rollback_failed why r = finish (record r { status = deploy_failed; reason = some why })

  -- Once the pools have been recorded and pushed.
  unfoldable pub rolled : Reason → DeployRun → DeployRun
  unfolding drain_fresh remove_fresh push_pools restore_previous finish
  rolled why r =
      let removed = remove_fresh (drain_fresh r.pools r) in
      let pushed = (push_pools (record removed { pools = map swap removed.pools })).1 in
      let restored = restore_previous pushed in
      finish (tell plant clear_deploy (record restored { status = rolled_back; reason = some why }))

  unfoldable pub rollback_from : Reason → Bool × DeployRun → DeployRun
  unfolding rollback_failed rolled
  rollback_from why (false, r) = rollback_failed why r
  rollback_from why (true, r) = rolled why r

  unfoldable pub rollback : Reason → DeployRun → DeployRun
  unfolding rollback_from turn_back push_pools
  rollback why r = rollback_from why (push_pools (record r { pools = map turn_back r.pools }))

  unfoldable pub stop_held : List DeployPool → ℕ → DeployRun → ℕ × DeployRun
  unfolding stop_replicas
  stop_held [] n r = (n, r)
  stop_held (p ∷ ps) n r = let x = stop_replicas p.held n r in stop_held ps x.0 x.1

  unfoldable pub record_release : DeployRun → DeployRun
  unfolding tell
  record_release r =
      if r.release == 0
      then r
      else let s = tell plant (set_release r.release) r in
        (if r.commit then tell plant save_env s else s)

  unfoldable pub promote : Reason → DeployRun → DeployRun
  unfolding stop_held record_release push_pools finish drop_held
  promote why r =
      let stopped = stop_held r.pools 0 r in
      let let_go = record stopped.1 { pools = map drop_held r.pools } in
      let pushed = if ltb 0 stopped.0 then (push_pools let_go).1 else let_go in
      let recorded = record_release pushed in
      let pruned = if recorded.has_builder then tell plant prune recorded else recorded in
      finish (record pruned {
        status = promoted;
        reason = elim pruned.reason [ none ↦ some why | some before ↦ some before ];
      })
