-- ===== src/Env/Rollout/Roll.antt =====
-- `rollService` of internal/env/rollout.go. What `liveReplicas` and `unchanged` answer is given.
use caramelo.Common.{
  ℕ, ◌*◌, Bool, true, false, not, ◌&&◌, List, [], ◌∷◌, ◌++◌, Option, none, some, ◌==◌, nat_eq,
  if◌then◌else◌, length,
}
use caramelo.Env.Layout.{fits}
use caramelo.Env.Replicas.{
  LiveReplica, numbered, running_replicas, legacy_of, free_indexes, stale_tree,
}
use caramelo.Env.Rollout.{
  active, draining, stopped, HealthStatus, health_waiting, health_ok, health_failed, ServiceStatus,
  service_starting, service_running, service_failed, Replica, step_stop, step_ok, Plant, RollError,
  no_replica_port, no_live_replicas, no_service_rows, no_indexes, Failure, Rollout, ok, err, Result,
  M, ◌>>◌, done, Plan, step,
}
use caramelo.Env.Rollout.Start.{bring_up_replica}
use caramelo.Env.Rollout.Flip.{
  replicas_of, activate, publish_targets, flip_pool, stop_replica, drain_and_stop,
}

-- What a rollout leaves: the service's status and replicas, the rollout's replicas, and the error.
pub record Rolled : Type 0 where
  pub status : ServiceStatus
  pub health : HealthStatus
  pub replicas : List Replica
  pub roll_replicas : List Replica
  pub error : Option RollError
  pub rollout : Rollout

-- Nothing of the service has been written.
abbrev untouched : List Replica → RollError → Rollout → Rolled
untouched reps e r = record {
  status = service_starting;
  health = health_waiting;
  replicas = [];
  roll_replicas = reps;
  error = some e;
  rollout = r;
}

-- What bringing up the fresh replicas comes to.
pub data Fresh : Type 0 where
  all_up : List Replica → Fresh
  some_down : List Replica → Failure → Fresh

pub data Drains : Type 0 where
  all_drained : Drains
  stuck : List LiveReplica → Failure → Drains

error_of : Result (Unit {0}) → Option RollError
error_of (ok u) = none
error_of (err f) = some f.error

-- The replicas of the service when a fresh one failed: that one first.
failed_replicas : Option Replica → List Replica → List Replica
failed_replicas none reps = reps
failed_replicas (some rep) reps = rep ∷ reps

-- The loop goes on with a replica that is up, and stops at the first that is not.
unfoldable pub bring_rest :
    (Replica → Rollout → Fresh × Rollout)
    → List Replica
    → Result Replica × Rollout
    → Fresh × Rollout
bring_rest go_on fresh (ok rep, r) = go_on rep r
bring_rest go_on fresh (err f, r) = (some_down fresh f, r)

unfoldable pub drain_rest :
    (Rollout → Drains × Rollout) → List LiveReplica → Result (Unit {0}) × Rollout → Drains × Rollout
drain_rest go_on left (ok u, r) = go_on r
drain_rest go_on left (err f, r) = (stuck left f, r)

module _ (plant : Plant) (p : Plan) where
  unfoldable pub bring_up_all : List Replica → List ℕ → Rollout → Fresh × Rollout
  unfolding bring_rest
  bring_up_all fresh [] r = (all_up fresh, r)
  bring_up_all fresh (i ∷ is) r =
      bring_rest (λ rep. bring_up_all (fresh ++ rep ∷ []) is) fresh (bring_up_replica plant p i r)

  unfoldable pub drain_all : List Replica → List LiveReplica → Rollout → Drains × Rollout
  unfolding drain_rest
  drain_all fresh [] r = (all_drained, r)
  drain_all fresh (o ∷ os) r =
      drain_rest (drain_all fresh os) (o ∷ os)
        (drain_and_stop plant p o (fresh ++ replicas_of p draining os) r)

  -- The container from before there were replicas goes last.
  unfoldable pub stop_legacy : Option LiveReplica → M (Unit {0})
  unfolding stop_replica step
  stop_legacy none = done tt
  stop_legacy (some old) = stop_replica plant p old.container >> step 0 step_stop step_ok stopped

  unfoldable pub legacy_result : List Replica → Result (Unit {0}) × Rollout → Rolled
  legacy_result fresh (err f, r) = untouched [] f.error r
  legacy_result fresh (ok u, r) = record {
    status = service_running;
    health = health_ok;
    replicas = fresh;
    roll_replicas = fresh;
    error = none;
    rollout = r;
  }

  unfoldable pub after_drains : List Replica → Option LiveReplica → Drains × Rollout → Rolled
  unfolding legacy_result stop_legacy
  after_drains fresh legacy (stuck os f, r) =
      untouched (fresh ++ replicas_of p draining os) f.error r
  after_drains fresh legacy (all_drained, r) = legacy_result fresh (stop_legacy legacy r)

  unfoldable pub after_flip :
      List Replica → List LiveReplica → Option LiveReplica → Result (Unit {0}) × Rollout → Rolled
  unfolding drain_all after_drains
  after_flip fresh old legacy (err f, r) =
      untouched (activate fresh ++ replicas_of p active old) f.error r
  after_flip fresh old legacy (ok u, r) =
      after_drains (activate fresh) legacy (drain_all (activate fresh) old r)

  unfoldable pub after_start : List LiveReplica → Option LiveReplica → Fresh × Rollout → Rolled
  unfolding failed_replicas after_flip flip_pool
  after_start old legacy (some_down fresh f, r) =
      let reps = failed_replicas f.replica (fresh ++ replicas_of p active old) in
      record {
        status = service_failed;
        health = health_failed;
        replicas = reps;
        roll_replicas = reps;
        error = some f.error;
        rollout = r;
      }
  after_start old legacy (all_up fresh, r) =
      after_flip fresh old legacy (flip_pool plant p fresh old r)

  unfoldable pub replace_all : List LiveReplica → Option LiveReplica → Rollout → Rolled
  unfolding bring_up_all after_start
  replace_all old legacy r = elim (free_indexes old p.want) [
    | none ↦ untouched [] no_indexes r
    | some is ↦ after_start old legacy (bring_up_all [] is r)
  ]

  unfoldable pub unchanged_result : List Replica → Result (Unit {0}) × Rollout → Rolled
  unfolding error_of
  unchanged_result reps (u, r) = record {
    status = service_running;
    health = health_ok;
    replicas = reps;
    roll_replicas = [];
    error = error_of u;
    rollout = r;
  }

  unfoldable pub keep_all : List LiveReplica → Rollout → Rolled
  unfolding unchanged_result
  keep_all old r =
      let reps = replicas_of p active old in unchanged_result reps (publish_targets plant p reps r)

  -- The tree that runs is the wanted one, where that is known.
  unfoldable pub same_tree : List LiveReplica → Bool
  same_tree old = elim (stale_tree old p.tree) [ none ↦ true | some t ↦ false ]

  unfoldable pub is_upgrade : Option LiveReplica → Bool
  is_upgrade none = false
  is_upgrade (some r) = true

  unfoldable pub roll_over : List LiveReplica → Bool → Rollout → Rolled
  unfolding keep_all replace_all same_tree is_upgrade
  roll_over live same r =
      let old = running_replicas (numbered live) in
      let legacy = legacy_of live in
      if (same && same_tree old) && length old == p.want && not (is_upgrade legacy)
      then keep_all old r
      else replace_all old legacy r

  -- `live` and `same` are the answers of liveReplicas and unchanged, none if they failed.
  unfoldable pub roll_service : Option (List LiveReplica) → Option Bool → Rollout → Rolled
  unfolding roll_over
  roll_service live same r = elim (fits p.ports p.service (2 * p.want)) [
    | some e ↦ untouched [] (no_replica_port e) r
    | none ↦ elim live [
      | none ↦ untouched [] no_live_replicas r
      | some rs ↦ elim same [ none ↦ untouched [] no_service_rows r | some s ↦ roll_over rs s r ]
    ]
  ]
