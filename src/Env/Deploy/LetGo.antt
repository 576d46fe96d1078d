-- ===== src/Env/Deploy/LetGo.antt =====
-- How a deploy is promoted (`promote` of internal/env/deploy_watch.go).
use caramelo.Common.{
  ◌≡◌, refl, ap, ◌∙◌, false, List, [], ◌∷◌, map, none, some, ◌==◌, nat_eq, Bytes, ltb,
  if◌then◌else◌, All, All-mono, Any-append_left, Any-append_right,
}
use caramelo.Env.Deploy.{
  promoted, Reason, DeployPool, prune, save_env, set_release, Plant, DeployRun, tell,
}
use caramelo.Env.Deploy.Ending.{drop_held, push_pools, finish, stop_held, record_release, promote}
use caramelo.Env.Deploy.Logs.{
  Asks, Asks-refl, Asks-trans, Asks-mono, tell-Asks, either-Asks, IsPush, StopsOnly,
  IsPush-StopsOnly, containers,
}
use caramelo.Env.Deploy.Pushes.{push_pools-Push}
use caramelo.Env.Deploy.Known.{Did-trans, Did-moved}
use caramelo.Env.Deploy.Stopped.{AllStopped, AllStopped-left, stop_held-Did}
use caramelo.Env.Deploy.Stops.{
  held_containers, Asked, from_asks, Asked-trans, relabelled, finish-Asked, In, members,
}

-- How a run has been promoted.
pub record Promoted (r r' : DeployRun) : Type 0 where
  pub stops : Asked (held_containers r.pools) r r'
  pub stopped : AllStopped (held_containers r.pools) stops.rest
  pub status : r'.status ≡ promoted
  pub over : r'.registered ≡ false
  pub pools : r'.pools ≡ map (λ (p : DeployPool). record p { held = [] }) r.pools

let_go_held :
    (ps : List DeployPool) → map drop_held ps ≡ map (λ (p : DeployPool). record p { held = [] }) ps
unfolding drop_held
let_go_held [] = refl
let_go_held (p ∷ ps) = ap (λ (qs : List DeployPool). record p { held = [] } ∷ qs) (let_go_held ps)

-- The held containers of each pool are among those of the pools.
held_listed :
    (ps : List DeployPool)
    → All (λ (p : DeployPool). All (λ c. In (held_containers ps) c) (containers p.held)) ps
unfolding held_containers
held_listed [] = tt
held_listed (p ∷ ps) = (
  All-mono (λ c h. Any-append_left (λ d. d ≡ c) (containers p.held) (held_containers ps) h)
      (containers p.held) (members (containers p.held)),
  All-mono
      (λ q h.
        All-mono (λ c g. Any-append_right (λ d. d ≡ c) (containers p.held) (held_containers ps) g)
          (containers q.held) h)
      ps (held_listed ps),
)

module _ (plant : Plant) (why : Reason) where
  pushed-Asks : (cs : List Bytes) (r : DeployRun) → Asks (StopsOnly cs) r (push_pools plant r).1
  pushed-Asks cs r =
      Asks-mono IsPush (StopsOnly cs) r (push_pools plant r).1 (IsPush-StopsOnly cs)
        (push_pools-Push plant r).asks

  record_release-Asks :
      (cs : List Bytes) (r : DeployRun) → Asks (StopsOnly cs) r (record_release plant r)
  unfolding record_release
  record_release-Asks cs r =
      let P = StopsOnly cs in
      let s = tell plant (set_release r.release) r in
      let a = tell-Asks P plant (set_release r.release) r (λ a. tt) in
      either-Asks P (r.release == 0) r r _ (Asks-refl P r) (
        either-Asks P r.commit r _ s (Asks-trans P r s _ a (tell-Asks P plant save_env s (λ a. tt)))
          a)

  -- After a promotion the deploy is promoted and no longer watched, no pool holds replicas, the
  -- rest of every pool is as it was, the container of each held replica that has one was asked to be
  -- stopped, and no other container was asked to be stopped or removed. It holds whatever the plant answers.
  pub promote-Promoted : (r : DeployRun) → Promoted r (promote plant why r)
  unfolding promote finish tell
  promote-Promoted r =
      let cs = held_containers r.pools in
      let P = StopsOnly cs in
      let stopped = stop_held plant r.pools 0 r in
      let let_go = record stopped.1 { pools = map drop_held r.pools } in
      let pushed = if ltb 0 stopped.0 then (push_pools plant let_go).1 else let_go in
      let b =
        either-Asks P (ltb 0 stopped.0) let_go _ let_go (pushed-Asks cs let_go)
          (Asks-refl P let_go) in
      let recorded = record_release plant pushed in
      let c = record_release-Asks cs pushed in
      let pruned = if recorded.has_builder then tell plant prune recorded else recorded in
      let d =
        either-Asks P recorded.has_builder recorded _ recorded
          (tell-Asks P plant prune recorded (λ a. tt)) (Asks-refl P recorded) in
      let later = Asks-trans P let_go pushed pruned b (Asks-trans P pushed recorded pruned c d) in
      let ended = record pruned {
        status = promoted;
        reason = elim pruned.reason [ none ↦ some why | some before ↦ some before ];
      } in
      let whole =
        Did-trans cs (AllStopped cs) (λ l. Unit {0}) (AllStopped cs) r let_go (promote plant why r)
          (Did-moved cs (AllStopped cs) r stopped.1 let_go refl
            (stop_held-Did plant cs r.pools 0 r (held_listed r.pools)))
          (record {
            asked =
                Asked-trans cs let_go ended _
                  (relabelled cs let_go pruned ended refl (from_asks cs let_go pruned later))
                  (finish-Asked cs plant ended);
            known = tt;
          })
          (λ l l' h u. AllStopped-left cs l l' h) in
      record {
        stops = whole.asked;
        stopped = whole.known;
        status = refl;
        over = refl;
        pools = ap (λ (u : DeployRun). u.pools) later.same ∙ let_go_held r.pools;
      }
