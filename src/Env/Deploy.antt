-- ===== src/Env/Deploy.antt =====
-- internal/env/deploy_run.go, deploy_watch.go and deploy.go: a deploy that has switched the pools and
-- what ends it. What the driver, the store, the edge and the builder answer is a parameter, the
-- plant: it may depend on all that was asked before. A call stands for what the manager asks of one
-- of these, so the plan of the previous release and the restart of a service are one call each. Times
-- of replicas, steps, events, the rollouts' own steps and the wording of details are left out.
pub mod Ending
pub mod Watch
pub mod Switch
pub mod Along
pub mod Known
pub mod SwitchRows
pub mod Published
pub mod Loops
pub mod Failing
pub mod Holding
pub mod Switched
pub mod Logs
pub mod Pushes
pub mod Stops
pub mod Stopped
pub mod Back
pub mod LetGo
pub mod Rounds
pub mod Told
pub mod Justified
pub mod Settled
use caramelo.Common.{
  ℕ, suc, ◌+◌, Bool, true, false, not, ◌&&◌, ◌||◌, List, [], ◌∷◌, ◌++◌, Option, none, some, ◌==◌,
  nat_eq, bytes_eq, Bytes, if◌then◌else◌,
}
use caramelo.Env.Rollout.{Replica, TargetRow}
use caramelo.Env.Rollout.Flip.{target_rows}

-- The statuses of a deploy from its first poll on.
pub data DeployStatus : Type 0 where
  watching promoted rolled_back deploy_failed : DeployStatus

-- Why a deploy ended.
pub data Reason : Type 0 where
  window_passed by_hand switch_failed : Reason
  too_many_errors : ℕ → ℕ → Reason
  replica_gone replica_stopped : Bytes → ℕ → Reason
  asked : Bytes → Reason

-- A route stands for one host; `more` are the others of the service.
pub record DeployPool : Type 0 where
  pub service : Bytes
  pub exposed : Bool
  pub host : Bytes
  pub route : ℕ
  pub more : List ℕ
  pub fresh : List Replica
  pub held : List Replica

pub data Call : Type 0 where
  set_targets : ℕ → List TargetRow → Call
  push_table read_previous save_env clear_deploy prune : Call
  wait_drain : Bytes → ℕ → Call
  stop_container remove_container plan_service recreate_service await_service put_service :
      Bytes → Call
  set_release : ℕ → Call
  update_deploy : DeployStatus → Call

pub data Answer : Type 0 where
  fine refused : Answer

unfoldable pub is_fine : Answer → Bool
is_fine fine = true
is_fine refused = false

abbrev pub Log : Type 0
Log = List (Call × Answer)

abbrev pub Plant : Type 0
Plant = Log → Call → Answer

-- Go's `deployRun` with its `Deploy`; `release` is 0 if it has no id, and `commit` tells whether the
-- environment's record takes the release's commit.
pub record DeployRun : Type 0 where
  pub has_edge : Bool
  pub has_builder : Bool
  pub pools : List DeployPool
  pub flipped_at : ℕ
  pub counted_from : ℕ
  pub detached : Bool
  pub replaced : Bool
  pub pushed : Bool
  pub release : ℕ
  pub commit : Bool
  pub from_release : Bool
  pub status : DeployStatus
  pub reason : Option Reason
  pub registered : Bool
  pub log : Log

module _ (plant : Plant) where
  unfoldable pub try : Call → DeployRun → Bool × DeployRun
  unfolding is_fine
  try c r = let a = plant r.log c in (is_fine a, record r { log = r.log ++ (c, a) ∷ [] })

  -- A call whose error is a warning.
  unfoldable pub tell : Call → DeployRun → DeployRun
  unfolding try
  tell c r = (try c r).1

-- A step after one that succeeded.
unfoldable pub and_then : Bool × DeployRun → (DeployRun → Bool × DeployRun) → Bool × DeployRun
and_then (true, r) f = f r
and_then (false, r) f = (false, r)
