-- ===== src/Env/Deploy/Holding.antt =====
-- What follows the switch of a deploy: its services are recorded, and its held replicas are let be
-- (internal/env/deploy_run.go).
use caramelo.Common.{
  ℕ, ◌≡◌, refl, Bool, true, false, List, [], ◌∷◌, map, any, Bytes, if◌then◌else◌, nat_eq,
}
use caramelo.Env.Layout.{PortLayout}
use caramelo.Env.Rollout.{Replica, held}
use caramelo.Env.Deploy.{
  DeployPool, wait_drain, plan_service, put_service, Plant, DeployRun, try, tell,
}
use caramelo.Env.Deploy.Switch.{hold_pool, put_services, wait_each, wait_held, holds_some, hold}
use caramelo.Env.Deploy.Along.{
  Along, Along-refl, Along-trans, repooled, either-Along, fresh-map, try-Along, tell-Along,
  push_pools-Along,
}

hold_pool-keeps :
    (p : DeployPool) → ((hold_pool p).exposed ≡ p.exposed) × ((hold_pool p).fresh ≡ p.fresh)
unfolding hold_pool
hold_pool-keeps p = go p.exposed
  where
    held_ones : DeployPool
    held_ones = record p { held = map (λ (rep : Replica). record rep { state = held }) p.held }

    go :
        (b : Bool)
        → ((if b then held_ones else p).exposed ≡ p.exposed)
          × ((if b then held_ones else p).fresh ≡ p.fresh)
    go true = (refl, refl)
    go false = (refl, refl)

module _ (plant : Plant) (ports : PortLayout) (made : Bytes → List Replica) (now : ℕ) where
  pub put_services-Along :
      (ps : List DeployPool) (r : DeployRun) → Along r (put_services plant ports made now ps r)
  unfolding put_services
  put_services-Along [] r = Along-refl r
  put_services-Along (p ∷ ps) r =
      let x = try plant (plan_service p.service) r in
      let s =
        if p.exposed then (if x.0 then tell plant (put_service p.service) x.1 else x.1) else r in
      Along-trans r s _
        (either-Along p.exposed r _ r
          (Along-trans r x.1 _ (try-Along plant (plan_service p.service) r (λ cs a. tt)) (
            either-Along x.0 x.1 _ x.1 (tell-Along plant (put_service p.service) x.1 (λ cs a. tt))
              (Along-refl x.1)))
          (Along-refl r))
        (put_services-Along ps s)

  wait_each-Along :
      (host : Bytes) (reps : List Replica) (r : DeployRun)
      → Along r (wait_each plant ports made now host reps r)
  unfolding wait_each
  wait_each-Along host [] r = Along-refl r
  wait_each-Along host (rep ∷ reps) r =
      let s = if r.has_edge then tell plant (wait_drain host rep.index) r else r in
      Along-trans r s _
        (either-Along r.has_edge r _ r (tell-Along plant (wait_drain host rep.index) r (λ cs a. tt))
          (Along-refl r))
        (wait_each-Along host reps s)

  wait_held-Along :
      (ps : List DeployPool) (r : DeployRun) → Along r (wait_held plant ports made now ps r)
  unfolding wait_held
  wait_held-Along [] r = Along-refl r
  wait_held-Along (p ∷ ps) r =
      let s = if p.exposed then wait_each plant ports made now p.host p.held r else r in
      Along-trans r s _
        (either-Along p.exposed r _ r (wait_each-Along p.host p.held r) (Along-refl r))
        (wait_held-Along ps s)

  pub hold-Along : (r : DeployRun) → Along r (hold plant ports made now r)
  unfolding hold
  hold-Along r =
      let waited = wait_held plant ports made now r.pools r in
      let let_be = record waited { pools = map hold_pool waited.pools } in
      Along-trans r waited _ (wait_held-Along r.pools r) (
        Along-trans waited let_be _
          (repooled waited (map hold_pool waited.pools)
            (fresh-map hold_pool hold_pool-keeps waited.pools))
          (either-Along (any (λ (p : DeployPool). holds_some plant ports made now p) r.pools) let_be
            _ let_be (push_pools-Along plant let_be) (Along-refl let_be)))
