-- ===== src/Env/Rollout.antt =====
-- internal/env/rollout.go and replica.go: a service's replicas are replaced by fresh ones. What the
-- container driver, the store and the edge answer is a parameter, the plant: it may depend on all
-- that was asked before. Container ids, times, events and the wording of details are left out.
pub mod Start
pub mod Flip
pub mod Roll
pub mod Extends
pub mod Checks
pub mod Starts
pub mod Rows
pub mod FlipCalls
pub mod Flips
pub mod Brought
pub mod Drained
pub mod Phases
use caramelo.Common.{
  ℕ, zero, suc, ◌+◌, Bool, true, false, not, List, [], ◌∷◌, ◌++◌, Option, none, some, Bytes,
  if◌then◌else◌,
}
use caramelo.Edge.{TargetState}
use caramelo.Env.Layout.{PortLayout, PortError}

pub data ReplicaState : Type 0 where
  starting healthy active draining stopped failed held unhealthy : ReplicaState

unfoldable pub target_state : ReplicaState → TargetState
target_state active = TargetState.active
target_state draining = TargetState.draining
target_state stopped = TargetState.stopped
target_state failed = TargetState.stopped
target_state held = TargetState.held
target_state unhealthy = TargetState.unhealthy
target_state starting = TargetState.starting
target_state healthy = TargetState.starting

pub data HealthStatus : Type 0 where
  health_unset health_none health_waiting health_ok health_failed : HealthStatus

pub data ServiceStatus : Type 0 where
  service_starting service_running service_failed service_exited service_missing : ServiceStatus

pub record Replica : Type 0 where
  pub index : ℕ
  pub container : Bytes
  pub port : ℕ
  pub state : ReplicaState
  pub status : ServiceStatus
  pub health : HealthStatus

pub data StepName : Type 0 where
  step_start step_health step_probe step_flip step_drain step_stop : StepName

pub data StepStatus : Type 0 where
  step_ok step_failed step_skipped : StepStatus

pub record RolloutStep : Type 0 where
  pub replica : ℕ
  pub name : StepName
  pub status : StepStatus
  pub state : ReplicaState

-- A row of Store.SetTargets.
pub record TargetRow : Type 0 where
  pub replica : ℕ
  pub port : ℕ
  pub state : TargetState

-- What a rollout asks of the plant.
pub data Call : Type 0 where
  remove_container stop_container : Bytes → Call
  read_secrets : Call
  run_container : ℕ → Bytes → ℕ → Call
  wait_healthy probe : ℕ → Call
  sleep push_table : Call
  set_targets : ℕ → List TargetRow → Call
  wait_drain : ℕ → Call

-- `drained` tells what was still in flight, and whether the deadline passed.
pub data Answer : Type 0 where
  fine refused : Answer
  drained : ℕ → Bool → Answer

unfoldable pub is_refused : Answer → Bool
is_refused refused = true
is_refused fine = false
is_refused (drained n b) = false

abbrev pub Log : Type 0
Log = List (Call × Answer)

abbrev pub Plant : Type 0
Plant = Log → Call → Answer

pub data RollError : Type 0 where
  no_replica_port : PortError → RollError
  no_live_replicas no_service_rows no_indexes : RollError
  no_spec : ℕ → RollError
  call_failed : Call → RollError

-- An error, with the replica that it stopped at, if there is one.
pub record Failure : Type 0 where
  pub error : RollError
  pub replica : Option Replica

-- Go's `Rollout`, and the log of what was asked.
pub record Rollout : Type 0 where
  pub steps : List RolloutStep
  pub failed : Option RolloutStep
  pub log : Log

pub data Result {ℓ} (A : Type ℓ) : Type ℓ where
  ok : A → Result A
  err : Failure → Result A

abbrev pub M : Type 0 → Type 0
M A = Rollout → Result A × Rollout

abbrev pub then_ : {A B : Type 0} → (A → M B) → Result A × Rollout → Result B × Rollout
then_ f (ok a, r) = f a r
then_ f (err e, r) = (err e, r)

infixl 5 ◌>>=◌ ◌>>◌
abbrev pub ◌>>=◌ : {A B : Type 0} → M A → (A → M B) → M B
◌>>=◌ m f r = then_ f (m r)

abbrev pub ◌>>◌ : {B : Type 0} → M (Unit {0}) → M B → M B
m >> k = m >>= λ _. k

abbrev pub done : {A : Type 0} → A → M A
done a r = (ok a, r)

abbrev pub fail : {A : Type 0} → RollError → Option Replica → M A
fail e rep r = (err (record { error = e; replica = rep }), r)

-- What of a plan and of its environment a rollout reads. A route stands for one host; `more` are the
-- others of the service.
pub record Plan : Type 0 where
  pub service : Bytes
  pub want : ℕ
  pub tree : Bytes
  pub ports : PortLayout
  pub spec_name : ℕ → ℕ → Option Bytes
  pub health_of : ℕ → HealthStatus
  pub has_edge : Bool
  pub route : ℕ
  pub more : List ℕ

-- `Rollout.Add`.
unfoldable pub add_step : RolloutStep → Rollout → Rollout
add_step s r = record r {
  steps = r.steps ++ s ∷ [];
  failed = elim r.failed [
    | some f ↦ some f
    | none ↦ elim s.status [ step_failed ↦ some s | step_ok ↦ none | step_skipped ↦ none ]
  ];
}

unfoldable pub step : ℕ → StepName → StepStatus → ReplicaState → M (Unit {0})
unfolding add_step
step i name status state r =
    (ok tt, add_step (record { replica = i; name = name; status = status; state = state }) r)

module _ (plant : Plant) where
  unfoldable pub ask : Call → M Answer
  ask c r = let a = plant r.log c in (ok a, record r { log = r.log ++ (c, a) ∷ [] })

  -- A call whose refusal is an error.
  unfoldable pub must : Call → Option Replica → M (Unit {0})
  unfolding ask is_refused
  must c rep = do a ← ask c; (if is_refused a then fail (call_failed c) rep else done tt)
