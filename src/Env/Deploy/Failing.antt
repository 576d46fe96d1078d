-- ===== src/Env/Deploy/Failing.antt =====
-- How a deploy fails before its pools are at the edge (internal/env/deploy_run.go).
use caramelo.Common.{
  ℕ, ◌≡◌, refl, sym, ap, ◌∙◌, subst, Bool, true, false, List, [], ◌∷◌, map, Bytes, if◌then◌else◌,
  All, All-mono, Any-append_right,
}
use caramelo.Env.Layout.{PortLayout}
use caramelo.Env.Rollout.{Replica}
use caramelo.Env.Deploy.{deploy_failed, Reason, switch_failed, DeployPool, Plant, DeployRun, tell}
use caramelo.Env.Deploy.Ending.{
  drop_fresh, remove_fresh, stop_fresh, finish, restore_previous, rollback, record_flip,
}
use caramelo.Env.Deploy.Switch.{reactivate, fail, put_routes_back, unrecord_flip, fail_flip}
use caramelo.Env.Deploy.Logs.{containers, restore_previous-Asks}
use caramelo.Env.Deploy.Stops.{
  fresh_containers, Asked, from_asks, Asked-trans, relabelled, finish-Asked, Listed,
  stop_fresh-Asks, exposed_first,
}
use caramelo.Env.Deploy.Along.{
  Along, Along-refl, Along-trans, repooled, either-Along, fresh-map, reactivate-keeps,
  push_routes-Along, record_flip-Along,
}

-- The run is over: its pools at the edge have no fresh replicas, and no container but these was asked
-- to be stopped or removed.
pub record Failed (cs : List Bytes) (r r' : DeployRun) : Type 0 where
  pub stops : Asked cs r r'
  pub status : r'.status ≡ deploy_failed
  pub over : r'.registered ≡ false
  pub gone : All (λ (p : DeployPool). p.exposed ≡ true → p.fresh ≡ []) r'.pools

fresh-Listed : (plant : Plant) (ps : List DeployPool) → All (Listed (fresh_containers ps) plant) ps
unfolding fresh_containers
fresh-Listed plant [] = tt
fresh-Listed plant (p ∷ ps) = (
  (λ e. exposed_first p.exposed (containers p.fresh) (fresh_containers ps) e),
  All-mono
      (λ q h e.
        All-mono
          (λ c g.
            Any-append_right (λ d. d ≡ c) (if p.exposed then containers p.fresh else [])
              (fresh_containers ps) g)
          (containers q.fresh) (h e))
      ps (fresh-Listed plant ps),
)

dropped :
    (ps : List DeployPool)
    → All (λ (p : DeployPool). p.exposed ≡ true → p.fresh ≡ []) (map drop_fresh ps)
unfolding drop_fresh
dropped [] = tt
dropped (p ∷ ps) = (one p.exposed refl, dropped ps)
  where
    one :
        (b : Bool)
        → p.exposed ≡ b
        → (if b then record p { fresh = [] } else p).exposed ≡ true
        → (if b then record p { fresh = [] } else p).fresh ≡ []
    one true f e = refl
    one false f e = cc

module _ (plant : Plant) (ports : PortLayout) (made : Bytes → List Replica) (now : ℕ) where
  -- What `fail` does to a run whose pools are not at the edge.
  ended : DeployRun → DeployRun
  ended r =
      finish plant
        (remove_fresh plant (restore_previous plant (record r { status = deploy_failed })))

  ended-Failed : (r : DeployRun) → Failed (fresh_containers r.pools) r (ended r)
  unfolding ended remove_fresh finish tell
  ended-Failed r =
      let cs = fresh_containers r.pools in
      let failing = record r { status = deploy_failed } in
      let back = restore_previous plant failing in
      let a = restore_previous-Asks plant cs failing in
      let same = ap (λ (u : DeployRun). u.pools) a.same in
      let stopped = stop_fresh plant back.pools back in
      let b =
        stop_fresh-Asks cs plant back.pools back
          (subst (All (Listed cs plant)) (sym same) (fresh-Listed plant r.pools)) in
      let removed = record stopped { pools = map drop_fresh stopped.pools } in
      record {
        stops =
            Asked-trans cs r failing _ (relabelled cs r r failing refl ((Along-refl r).asked cs)) (
              Asked-trans cs failing removed _
                (relabelled cs failing stopped removed refl (
                  Asked-trans cs failing back stopped (from_asks cs failing back a)
                    (from_asks cs back stopped b)))
                (finish-Asked cs plant removed));
        status = ap (λ (u : DeployRun). u.status) b.same ∙ ap (λ (u : DeployRun). u.status) a.same;
        over = refl;
        gone = dropped stopped.pools;
      }

  fail-Failed :
      (why : Reason) (r : DeployRun)
      → r.pushed ≡ false
      → Failed (fresh_containers r.pools) r (fail plant ports made now why r)
  unfolding fail ended
  fail-Failed why r e = go r.pushed e
    where
      go :
          (b : Bool)
          → b ≡ false
          → Failed (fresh_containers r.pools) r (if b then rollback plant why r else ended r)
      go true f = cc
      go false f = ended-Failed r

  put_routes_back-Along :
      (ps : List DeployPool) (r : DeployRun) → Along r (put_routes_back plant ports made now ps r)
  unfolding put_routes_back
  put_routes_back-Along [] r = Along-refl r
  put_routes_back-Along (p ∷ ps) r =
      let s = if p.exposed then (record_flip plant p p.held r).1 else r in
      Along-trans r s _
        (either-Along p.exposed r _ r (record_flip-Along plant p p.held r) (Along-refl r))
        (put_routes_back-Along ps s)

  unrecord_flip-Along : (r : DeployRun) → Along r (unrecord_flip plant ports made now r)
  unfolding unrecord_flip
  unrecord_flip-Along r =
      let back = record r { pools = map reactivate r.pools } in
      let put = put_routes_back plant ports made now back.pools back in
      Along-trans r back _
        (repooled r (map reactivate r.pools) (fresh-map reactivate reactivate-keeps r.pools))
        (Along-trans back put _ (put_routes_back-Along back.pools back)
          (push_routes-Along plant put))

  -- A failure after a part that went along.
  pub after-Failed :
      (why : Reason) (r s : DeployRun)
      → r.pushed ≡ false
      → Along r s
      → Failed (fresh_containers r.pools) r (fail plant ports made now why s)
  after-Failed why r s e a =
      let end = fail-Failed why s (a.pushed ∙ e) in
      let cs = fresh_containers r.pools in
      record {
        stops =
            Asked-trans cs r s _ (a.asked cs)
              (subst (λ cs. Asked cs s (fail plant ports made now why s)) a.fresh end.stops);
        status = end.status;
        over = end.over;
        gone = end.gone;
      }

  pub fail_flip-Failed :
      (r s : DeployRun)
      → r.pushed ≡ false
      → Along r s
      → Failed (fresh_containers r.pools) r (fail_flip plant ports made now s)
  unfolding fail_flip
  fail_flip-Failed r s e a =
      after-Failed switch_failed r (unrecord_flip plant ports made now s) e
        (Along-trans r s _ a (unrecord_flip-Along s))
