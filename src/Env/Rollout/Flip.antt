-- ===== src/Env/Rollout/Flip.antt =====
-- `recordTargets`, `pushRoutes`, `flipPool`, `drainAndStop` and `stopReplica` of
-- internal/env/rollout.go and expose.go.
use caramelo.Common.{
  ℕ, false, not, ◌||◌, List, [], ◌∷◌, ◌++◌, none, ◌==◌, nat_eq, bytes_eq, Bytes, if◌then◌else◌, ltb,
  length,
}
use caramelo.Env.Layout.{replica_port, at, no_port}
use caramelo.Env.Replicas.{LiveReplica}
use caramelo.Env.Rollout.{
  ReplicaState, active, draining, stopped, healthy, target_state, health_unset, ServiceStatus,
  service_running, service_exited, service_missing, Replica, step_flip, step_drain, step_stop,
  step_ok, step_failed, step_skipped, TargetRow, Answer, remove_container, stop_container,
  set_targets, push_table, wait_drain, fine, refused, drained, Plant, Rollout, ok, err, Result, M,
  ◌>>=◌, ◌>>◌, done, Plan, step, ask, must,
}

-- A container with no id has no status: what liveReplicas lists has one.
unfoldable pub replica_status : LiveReplica → ServiceStatus
replica_status r =
    if r.container == [] || (if r.id == [] then r.status == [] else false)
    then service_missing
    else if r.running
    then service_running
    else service_exited

unfoldable pub replica_of : Plan → ReplicaState → LiveReplica → Replica
unfolding replica_status
replica_of p state r = record {
  index = r.index;
  container = r.container;
  port = elim (replica_port p.ports p.service r.index) [ no_port e ↦ 0 | at port ↦ port ];
  state = state;
  status = replica_status r;
  health = health_unset;
}

unfoldable pub replicas_of : Plan → ReplicaState → List LiveReplica → List Replica
unfolding replica_of
replicas_of p state [] = []
replicas_of p state (r ∷ rs) = replica_of p state r ∷ replicas_of p state rs

unfoldable pub target_rows : List Replica → List TargetRow
unfolding target_state
target_rows [] = []
target_rows (rep ∷ reps) =
    if not (ltb 0 rep.port)
    then target_rows reps
    else record { replica = rep.index; port = rep.port; state = target_state rep.state }
      ∷ target_rows reps

unfoldable pub activate : List Replica → List Replica
activate [] = []
activate (rep ∷ reps) = record rep { state = active } ∷ activate reps

-- One step of the same kind for each replica.
unfoldable pub flip_steps : List Replica → M (Unit {0})
unfolding step
flip_steps [] = done tt
flip_steps (rep ∷ reps) = step rep.index step_flip step_ok active >> flip_steps reps

unfoldable pub skipped_drains : List Replica → M (Unit {0})
unfolding step
skipped_drains [] = done tt
skipped_drains (rep ∷ reps) = step rep.index step_drain step_skipped active >> skipped_drains reps

unfoldable pub flip_failed : List Replica → M (Unit {0})
unfolding step
flip_failed [] = done tt
flip_failed (rep ∷ reps) = step rep.index step_flip step_failed healthy >> flip_failed reps

unfoldable pub flip_done : List Replica → List LiveReplica → M (Unit {0})
unfolding flip_steps skipped_drains
flip_done fresh old =
    flip_steps fresh >> (if length old == 0 then skipped_drains fresh else done tt)

-- What `flipPool` does with the errors of its two steps.
unfoldable pub flip_result :
    List Replica → List LiveReplica → Result (Unit {0}) × Rollout → Result (Unit {0}) × Rollout
unfolding flip_done flip_failed
flip_result fresh old (ok u, r) = flip_done fresh old r
flip_result fresh old (err f, r) = (err f, (flip_failed fresh r).1)

module _ (plant : Plant) (p : Plan) where
  unfoldable pub set_each : List ℕ → List TargetRow → M (Unit {0})
  unfolding must
  set_each [] rows = done tt
  set_each (id ∷ ids) rows = must plant (set_targets id rows) none >> set_each ids rows

  -- A route with the id 0 is none.
  unfoldable pub record_targets : List Replica → M (Unit {0})
  unfolding set_each target_rows
  record_targets pool =
      if not p.has_edge || p.route == 0
      then done tt
      else set_each (p.route ∷ p.more) (target_rows pool)

  unfoldable pub push_routes : M (Unit {0})
  unfolding must
  push_routes = if p.has_edge then must plant push_table none else done tt

  unfoldable pub publish_targets : List Replica → M (Unit {0})
  unfolding record_targets push_routes
  publish_targets pool =
      if not p.has_edge || p.route == 0 then done tt else record_targets pool >> push_routes

  unfoldable pub flip_pool : List Replica → List LiveReplica → M (Unit {0})
  unfolding flip_result record_targets push_routes activate replicas_of
  flip_pool fresh old r =
      let pool = activate fresh ++ replicas_of p draining old in
      flip_result fresh old ((record_targets pool >> push_routes) r)

  unfoldable pub drain_step : ℕ → Answer → M (Unit {0})
  unfolding step
  drain_step index fine = step index step_drain step_ok draining
  drain_step index (drained inflight deadline) = step index step_drain step_ok draining
  drain_step index refused = step index step_drain step_skipped draining

  unfoldable pub await_drain : ℕ → M Answer
  unfolding ask
  await_drain index = if p.has_edge then ask plant (wait_drain index) else done (drained 0 false)

  unfoldable pub stop_replica : Bytes → M (Unit {0})
  unfolding must
  stop_replica container = do
    must plant (stop_container container) none
    must plant (remove_container container) none

  unfoldable pub stop_result : ℕ → Result (Unit {0}) × Rollout → Result (Unit {0}) × Rollout
  unfolding step
  stop_result index (ok u, r) = step index step_stop step_ok stopped r
  stop_result index (err f, r) = (err f, (step index step_stop step_failed draining r).1)

  unfoldable pub drain_and_stop : LiveReplica → List Replica → M (Unit {0})
  unfolding await_drain drain_step stop_replica stop_result publish_targets
  drain_and_stop old pool = do
    a ← await_drain old.index
    drain_step old.index a
    (λ r. stop_result old.index (stop_replica old.container r))
    publish_targets pool
