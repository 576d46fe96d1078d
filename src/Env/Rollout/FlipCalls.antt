-- ===== src/Env/Rollout/FlipCalls.antt =====
-- What the flip and the drains of internal/env/rollout.go may ask for.
use caramelo.Env.Rollout.{
  Call, remove_container, stop_container, read_secrets, run_container, wait_healthy, probe, sleep,
  push_table, set_targets, wait_drain, Answer,
}

abbrev pub FlipCall : Call → Type 0
FlipCall (remove_container name) = ⊥
FlipCall (stop_container name) = ⊥
FlipCall read_secrets = ⊥
FlipCall (run_container i name port) = ⊥
FlipCall (wait_healthy i) = ⊥
FlipCall (probe i) = ⊥
FlipCall sleep = ⊥
FlipCall push_table = Unit
FlipCall (set_targets id rows) = Unit
FlipCall (wait_drain i) = ⊥

abbrev pub FlipEntry : Call × Answer → Type 0
FlipEntry e = FlipCall e.0

-- While the old replicas go, containers are stopped and removed, and the pool is published.
abbrev pub DrainCall : Call → Type 0
DrainCall (remove_container name) = Unit
DrainCall (stop_container name) = Unit
DrainCall read_secrets = ⊥
DrainCall (run_container i name port) = ⊥
DrainCall (wait_healthy i) = ⊥
DrainCall (probe i) = ⊥
DrainCall sleep = ⊥
DrainCall push_table = Unit
DrainCall (set_targets id rows) = Unit
DrainCall (wait_drain i) = Unit

abbrev pub DrainEntry : Call × Answer → Type 0
DrainEntry e = DrainCall e.0
