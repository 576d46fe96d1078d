-- ===== src/Env/Rollout/Start.antt =====
-- `startReplica`, `healthReplica`, `probeReplica` and `bringUpReplica` of internal/env/rollout.go.
use caramelo.Common.{
  ℕ, zero, suc, ◌-◌, Bool, true, false, not, none, some, Bytes, if◌then◌else◌, ltb,
}
use caramelo.Env.Layout.{replica_port, at, no_port}
use caramelo.Env.Rollout.{
  starting, healthy, failed, HealthStatus, health_none, health_unset, health_waiting, health_ok,
  health_failed, service_starting, service_running, Replica, step_start, step_health, step_probe,
  step_ok, step_failed, StepName, remove_container, read_secrets, run_container, wait_healthy,
  probe, sleep, is_refused, Plant, no_replica_port, no_spec, call_failed, Failure, Rollout, ok, err,
  Result, M, ◌>>=◌, ◌>>◌, done, fail, Plan, step, ask, must,
}

abbrev pub probe_tries : ℕ
probe_tries = 3

unfoldable pub new_replica : Plan → ℕ → Bytes → ℕ → Replica
new_replica p index name port = record {
  index = index;
  container = name;
  port = port;
  state = starting;
  status = service_starting;
  health = p.health_of port;
}

unfoldable pub mend_failure : (Replica → Replica) → Failure → Failure
mend_failure mend f = record f {
  replica = elim f.replica [ none ↦ none | some rep ↦ some (mend rep) ];
}

-- On an error, a step that failed is recorded, and the error goes on.
unfoldable pub step_on_error :
    {A : Type 0} → ℕ → StepName → (Replica → Replica) → Result A × Rollout → Result A × Rollout
unfolding step mend_failure
step_on_error index name mend (ok a, r) = (ok a, r)
step_on_error index name mend (err f, r) =
    (err (mend_failure mend f), (step index name step_failed failed r).1)

abbrev pub or_step : {A : Type 0} → ℕ → StepName → (Replica → Replica) → M A → M A
or_step index name mend m r = step_on_error index name mend (m r)

unfoldable pub as_it_is : Replica → Replica
as_it_is rep = rep

unfoldable pub unhealthy_replica : Replica → Replica
unhealthy_replica rep = record rep { state = failed; health = health_failed }

unfoldable pub unprobed_replica : Replica → Replica
unprobed_replica rep = record rep { state = failed }

unfoldable pub has_check : HealthStatus → Bool
has_check health_none = false
has_check health_unset = true
has_check health_waiting = true
has_check health_ok = true
has_check health_failed = true

module _ (plant : Plant) (p : Plan) where
  unfoldable pub start_container : Replica → M Replica
  unfolding must
  start_container rep = do
    must plant (remove_container rep.container) (some rep)
    must plant read_secrets (some rep)
    must plant (run_container rep.index rep.container rep.port) (some rep)
    done (record rep { status = service_running })

  unfoldable pub start_replica : ℕ → M Replica
  unfolding start_container new_replica
  start_replica index = elim (replica_port p.ports p.service index) [
    | no_port e ↦ fail (no_replica_port e) none
    | at port ↦ elim (p.spec_name index port) [
      | none ↦ fail (no_spec index) none
      | some name ↦ start_container (new_replica p index name port)
    ]
  ]

  unfoldable pub health_replica : Replica → M (Unit {0})
  unfolding must has_check
  health_replica rep =
      if has_check rep.health then must plant (wait_healthy rep.index) (some rep) else done tt

  -- The tries that are left; before each but the first there is a pause.
  unfoldable pub probe_rest : ℕ → Replica → M (Unit {0})
  unfolding must ask
  probe_rest zero rep = fail (call_failed (probe rep.index)) (some rep)
  probe_rest (suc tries) rep = do
    must plant sleep (some rep)
    a ← ask plant (probe rep.index)
    (let again = probe_rest tries rep in if is_refused a then again else done tt)

  unfoldable pub probe_replica : Replica → M (Unit {0})
  unfolding ask probe_rest
  probe_replica rep = if not (ltb 0 rep.port) then done tt else do
    a ← ask plant (probe rep.index)
    (if is_refused a then probe_rest (probe_tries - 1) rep else done tt)

  unfoldable pub bring_up_replica : ℕ → M Replica
  unfolding step_on_error start_replica health_replica probe_replica as_it_is unhealthy_replica
      unprobed_replica step
  bring_up_replica index = do
    rep ← or_step index step_start as_it_is (start_replica index)
    step index step_start step_ok starting
    or_step index step_health unhealthy_replica (health_replica rep)
    step index step_health step_ok healthy
    or_step index step_probe unprobed_replica
        (probe_replica (record rep { state = healthy; health = health_ok }))
    step index step_probe step_ok healthy
    done (record rep { state = healthy; health = health_ok })
