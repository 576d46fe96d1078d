-- ===== src/Env/Deploy/Back.antt =====
-- How a deploy is rolled back and promoted (internal/env/deploy_watch.go).
use mathlib.Core.List.{append_assoc}
use caramelo.Common.{
  ◌≡◌, refl, ◌≢◌, if◌then◌else◌, ◌∷◌, sym, ap, ◌∙◌, subst, inl, inr, ◌⊎◌, Bool, true, false, List,
  [], ◌++◌, map, some, Bytes, All,
}
use caramelo.Edge.{TargetState}
use caramelo.Env.Rollout.{active, draining}
use caramelo.Env.Rollout.Flip.{target_rows}
use caramelo.Env.Rollout.Rows.{rows_in, target_rows-turned}
use caramelo.Env.Deploy.{
  push_table, rolled_back, deploy_failed, Reason, DeployPool, Log, clear_deploy, Plant, DeployRun,
  tell,
}
use caramelo.Env.Deploy.Ending.{
  turn_back, drop_fresh, swap, push_pools, drain_fresh, stop_fresh, remove_fresh, finish,
  restore_previous, rollback_failed, rolled, rollback_from, rollback,
}
use caramelo.Env.Deploy.Logs.{
  Asks, Asks-refl, Asks-trans, Asks-mono, tell-Asks, IsPush, StopsOnly, IsPush-StopsOnly,
  drain_fresh-Asks, restore_previous-Asks,
}
use caramelo.Env.Deploy.Pushes.{Has, Recorded, AllRecorded, Pushed, Push, push_pools-Push}
use caramelo.Env.Deploy.Known.{Did, Did-trans, Did-moved}
use caramelo.Env.Deploy.Stopped.{
  AllStopped, AllStopped-left, AllStopped-right, stop_fresh-Did, fresh_containers-turn_back,
}
use caramelo.Env.Deploy.Stops.{
  fresh_containers, restored, Asked, from_asks, Asked-trans, relabelled, finish-Asked, Listed,
  stop_fresh-Asks, in_state, turned, all_turned, turned-Listed, all_back_restored,
}

-- For each route of a pool at the edge it was recorded, and not refused, that the held replicas serve
-- and the fresh ones leave; and the table was pushed.
abbrev pub PutBack : List DeployPool → Log → Type 0
PutBack ps l =
    All
      (λ (p : DeployPool).
        p.exposed ≡ true
        → p.route ≢ 0
        → Recorded (rows_in TargetState.draining p.fresh ++ rows_in TargetState.active p.held)
            (p.route ∷ p.more) l)
      ps
    × Has push_table l

-- The rows that a pool has been recorded with.
abbrev OwnRows : Log → DeployPool → Type 0
OwnRows l p =
    p.exposed ≡ true → p.route ≢ 0 → Recorded (target_rows (p.fresh ++ p.held)) (p.route ∷ p.more) l

turned_rows :
    (p : DeployPool) (l : Log)
    → OwnRows l (turned p)
    → p.exposed ≡ true
    → p.route ≢ 0
    → Recorded
        (rows_in TargetState.draining p.fresh ++ rows_in TargetState.active p.held)
        (p.route ∷ p.more)
        l
unfolding turned
turned_rows p l h exposed routed =
    let back = record p { held = in_state active p.held; fresh = in_state draining p.fresh } in
    subst (λ rows. Recorded rows (p.route ∷ p.more) l) (target_rows-turned p.fresh p.held)
      (subst (OwnRows l) (ap (λ (b : Bool). if b then back else p) exposed) h exposed routed)

turned-PutBack :
    (ps : List DeployPool) (l : Log)
    → AllRecorded (map turned ps) l
    → Has push_table l
    → PutBack ps l
turned-PutBack [] l h push = (tt, push)
turned-PutBack (p ∷ ps) l h push = ((turned_rows p l h.0, (turned-PutBack ps l h.1 push).0), push)

pub record RolledBack (r r' : DeployRun) : Type 0 where
  pub started : Log
  pub rest : Log
  pub whole : r'.log ≡ r.log ++ (started ++ rest)
  pub only_pushes : All IsPush started
  pub over : r'.registered ≡ false
  pub outcome :
      ((r'.status ≡ deploy_failed) × (r'.pools ≡ map turned r.pools) × All (StopsOnly []) rest)
      ⊎ ((r'.status ≡ rolled_back)
          × (r'.pools ≡ map restored r.pools)
          × (r.has_edge ≡ true → PutBack r.pools started)
          × All (StopsOnly (fresh_containers r.pools)) rest
          × AllStopped (fresh_containers r.pools) rest)

module _ (plant : Plant) (why : Reason) where
  pushes_asked :
      (cs : List Bytes) (Q : Log → Type 0) (r : DeployRun) (x : Bool × DeployRun)
      → Push Q r x
      → Asks (StopsOnly cs) r x.1
  pushes_asked cs Q r x p = Asks-mono IsPush (StopsOnly cs) r x.1 (IsPush-StopsOnly cs) p.asks

  rolled-Did :
      (ps : List DeployPool) (r : DeployRun)
      → r.pools ≡ map turn_back ps
      → Did (fresh_containers ps) (AllStopped (fresh_containers ps)) r (rolled plant why r)
        × ((rolled plant why r).pools ≡ map restored ps)
  unfolding rolled remove_fresh finish tell
  rolled-Did ps r same =
      let cs = fresh_containers ps in
      let drained = drain_fresh plant r.pools r in
      let a = drain_fresh-Asks plant cs r.pools r in
      let drained_pools = ap (λ (u : DeployRun). u.pools) a.same ∙ same in
      let stopped = stop_fresh plant drained.pools drained in
      let b =
        stop_fresh-Asks cs plant drained.pools drained
          (subst (All (Listed cs plant)) (sym drained_pools) (turned-Listed plant ps)) in
      let gone =
        Did-trans cs (λ l. Unit {0}) (AllStopped (fresh_containers drained.pools)) (AllStopped cs) r
          drained stopped (record { asked = from_asks cs r drained a; known = tt })
          (stop_fresh-Did plant cs drained.pools drained
            (subst (All (Listed cs plant)) (sym drained_pools) (turned-Listed plant ps)))
          (λ l l' u h. AllStopped-right cs l l' (
            subst (λ ds. AllStopped ds l')
              (ap fresh_containers drained_pools ∙ fresh_containers-turn_back ps) h)) in
      let stopped_pools = ap (λ (u : DeployRun). u.pools) b.same ∙ drained_pools in
      let swapped = record stopped { pools = map swap (map drop_fresh stopped.pools) } in
      let pushed = (push_pools plant swapped).1 in
      let c =
        pushes_asked cs _ swapped (push_pools plant swapped) (push_pools-Push plant swapped) in
      let back = restore_previous plant pushed in
      let d = restore_previous-Asks plant cs pushed in
      let ended = record back { status = rolled_back; reason = some why } in
      let cleared = tell plant clear_deploy ended in
      let e = tell-Asks (StopsOnly cs) plant clear_deploy ended (λ a. tt) in
      (
        Did-trans cs (AllStopped cs) (λ l. Unit {0}) (AllStopped cs) r swapped _
            (Did-moved cs (AllStopped cs) r stopped swapped refl gone)
            (record {
              asked =
                  Asked-trans cs swapped ended _
                    (relabelled cs swapped back ended refl (
                      from_asks cs swapped back
                        (Asks-trans (StopsOnly cs) swapped pushed back c d)))
                    (Asked-trans cs ended cleared _ (from_asks cs ended cleared e)
                      (finish-Asked cs plant cleared));
              known = tt;
            })
            (λ l l' h u. AllStopped-left cs l l' h),
        ap (λ (u : DeployRun). u.pools) d.same
            ∙ ap (λ (u : DeployRun). u.pools) c.same
            ∙ ap (λ qs. map swap (map drop_fresh qs)) stopped_pools
            ∙ all_back_restored ps,
      )

  rolled_status :
      (r : DeployRun)
      → ((rolled plant why r).status ≡ rolled_back) × ((rolled plant why r).registered ≡ false)
  unfolding rolled finish tell
  rolled_status r = (refl, refl)

  failed_status :
      (r : DeployRun)
      → ((rollback_failed plant why r).status ≡ deploy_failed)
        × ((rollback_failed plant why r).registered ≡ false)
        × ((rollback_failed plant why r).pools ≡ r.pools)
  unfolding rollback_failed finish tell
  failed_status r = (refl, refl, refl)

  failed-Asked : (r : DeployRun) → Asked [] r (rollback_failed plant why r)
  unfolding rollback_failed
  failed-Asked r =
      let failed = record r { status = deploy_failed; reason = some why } in
      Asked-trans [] r failed _
        (relabelled [] r r failed refl (from_asks [] r r (Asks-refl (StopsOnly []) r)))
        (finish-Asked [] plant failed)

  rollback_from-RolledBack :
      (r : DeployRun) (x : Bool × DeployRun)
      → Push
          (λ l. r.has_edge ≡ true → Pushed (map turn_back r.pools) l)
          (record r { pools = map turn_back r.pools })
          x
      → RolledBack r (rollback_from plant why x)
  unfolding rollback_from
  rollback_from-RolledBack r (false, s) p =
      let later = failed-Asked s in
      let ended = failed_status s in
      record {
        started = p.asks.added;
        rest = later.rest;
        whole =
            later.whole
            ∙ ap (λ (u : DeployRun). u.log ++ later.rest) p.asks.same
            ∙ append_assoc r.log p.asks.added later.rest;
        only_pushes = p.asks.each;
        over = ended.1;
        outcome = inl (
          ended.0,
          ended.2 ∙ ap (λ (u : DeployRun). u.pools) p.asks.same ∙ all_turned r.pools,
          later.each,
        );
      }
  rollback_from-RolledBack r (true, s) p =
      let later = rolled-Did r.pools s (ap (λ (u : DeployRun). u.pools) p.asks.same) in
      let ended = rolled_status s in
      record {
        started = p.asks.added;
        rest = later.0.asked.rest;
        whole =
            later.0.asked.whole
            ∙ ap (λ (u : DeployRun). u.log ++ later.0.asked.rest) p.asks.same
            ∙ append_assoc r.log p.asks.added later.0.asked.rest;
        only_pushes = p.asks.each;
        over = ended.1;
        outcome = inr (
          ended.0,
          later.1,
          (λ edge.
              let pushed =
                subst (λ ps. Pushed ps p.asks.added) (all_turned r.pools) (p.on_ok refl edge) in
              turned-PutBack r.pools p.asks.added pushed.0 pushed.1),
          later.0.asked.each,
          later.0.known,
        );
      }

  -- A rollback first does nothing but record and push its pools. Then either the deploy has failed,
  -- its pools at the edge have their held replicas active and their fresh ones draining, and no
  -- container was asked to be stopped or removed; or it is rolled back, and the held replicas of each
  -- pool are its fresh ones, at the edge active. In that case, where there is an edge, each pool at
  -- the edge that has a route was recorded so and the table was pushed, before any container was
  -- asked to be stopped or removed; the container of each fresh replica at the edge that has one was
  -- asked to be stopped, and no other container was asked to be stopped or removed. What making a
  -- service again does to the containers of that service is not counted. Either way the deploy is no
  -- longer watched. It holds whatever the plant answers.
  pub rollback-RolledBack : (r : DeployRun) → RolledBack r (rollback plant why r)
  unfolding rollback
  rollback-RolledBack r =
      let back = record r { pools = map turn_back r.pools } in
      rollback_from-RolledBack r (push_pools plant back) (push_pools-Push plant back)
